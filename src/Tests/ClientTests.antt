-- ===== src/Tests/ClientTests.antt =====
-- discovery/watch.go and discovery/watch_on_update.go: runs.
use xdiscovery.WatchOnUpdate.Changes.{watch_on_update_list-result, replay-events_of}
use xdiscovery.Tests.DegradeTests.{serving}
use xdiscovery.Degrade.{get_list}
use xdiscovery.Watch.Tags.{HasTag, watch_get_list-tagged}
use xdiscovery.Tests.{node_a, node_off, Ratio, list_of, node_b}
use xdiscovery.WatchOnUpdate.Replay.{replay, HaveDistinctIds}
use xdiscovery.Watch.{Watch, watch_get_list, filter_tags, matched, exist_tags, all_set, is_set}
use xdiscovery.WatchOnUpdate.{
  events_of, WatchOnUpdate, OnUpdate, watch_on_update_list, map_of, entry_events, entry_event,
  is_same_service, gone_events, current_ids, health_check_eq, option_eq, map_eq, texts_eq, int_eq,
  has_all,
}
use xdiscovery.Prelude.{
  ◌≡◌, refl, ◌↔◌, ◌⊎◌, true, false, none, some, [], ◌∷◌, All, In, Text, codes, text_eq, Map, lookup,
  insert, has_key,
}
use xdiscovery.Service.{Service, add}

abbrev walks_itself : (m : Map Service) (x : Text × Service) → In x m ↔ In x m
walks_itself m x = (λ h. h, λ h. h)

distinct_two : HaveDistinctIds (node_a ∷ node_b ∷ [])
unfolding text_eq
distinct_two = ((refl, tt), (tt, tt))

-- From a list with one node to one with two.
replay-events_of_example :
    let after =
      replay
        (events_of (λ m. m) (node_off ∷ node_a ∷ []) (node_a ∷ node_b ∷ []))
        (map_of (node_off ∷ node_a ∷ []) []) in
    ((e : Service)
      → In e (node_a ∷ node_b ∷ [])
      → (lookup e.id after ≡ some e)
        ⊎ ((old : Service) × (lookup e.id after ≡ some old) × (is_same_service old e ≡ true)))
    × ((k : Text)
        → All (λ e. text_eq e.id k ≡ false) (node_a ∷ node_b ∷ [])
        → lookup k after ≡ none)
replay-events_of_example =
    replay-events_of (λ m. m) walks_itself (node_off ∷ node_a ∷ []) (node_a ∷ node_b ∷ [])
      distinct_two

abbrev accepts : OnUpdate
accepts seen e = none

abbrev watching : WatchOnUpdate
watching = record { on_update = some accepts; previous = node_a ∷ [] }

watch_on_update_list-result_example :
    let (w', given, err) =
      watch_on_update_list (λ m. m) (list_of (node_a ∷ node_b ∷ [])) watching in
    ((err ≡ none)
      → (given ≡ events_of (λ m. m) (node_a ∷ []) (node_a ∷ node_b ∷ []))
        × (w'.previous ≡ node_a ∷ node_b ∷ [])
        × (w'.on_update ≡ some accepts))
    × ((e : Text) → err ≡ some e → w' ≡ watching)
watch_on_update_list-result_example =
    watch_on_update_list-result (λ m. m) (list_of (node_a ∷ node_b ∷ [])) watching accepts refl

added :
    events_of (λ m. m) (node_a ∷ []) (node_a ∷ node_b ∷ [])
    ≡ record { action = add; service = node_b } ∷ []
unfolding events_of map_of entry_events entry_event gone_events current_ids is_same_service
    health_check_eq option_eq map_eq texts_eq int_eq text_eq lookup insert has_key has_all
added = refl

abbrev tagged : Service
tagged = record node_a { tags = some (codes "v1" ∷ codes "gray" ∷ []) }

abbrev tag_watch : Watch Ratio
tag_watch = record {
  service = codes "order";
  degrade = record serving { apply_list = list_of (tagged ∷ node_b ∷ []) };
  once = true;
}

watch_get_list-tagged_example :
    let (w', list) = watch_get_list (λ d. d) (codes "gray" ∷ []) tag_watch in
    (In tagged list.services
      ↔ (In tagged w'.degrade.apply_list.services × All (HasTag tagged) (codes "gray" ∷ [])))
    × (list.watch_version ≡ w'.degrade.apply_list.watch_version)
    × (list.version ≡ w'.degrade.apply_list.version)
    × (list.run_mode ≡ w'.degrade.apply_list.run_mode)
watch_get_list-tagged_example = watch_get_list-tagged (λ d. d) (codes "gray" ∷ []) tag_watch tagged

one_is_kept : (watch_get_list (λ d. d) (codes "gray" ∷ []) tag_watch).1.services ≡ tagged ∷ []
unfolding watch_get_list get_list filter_tags matched exist_tags all_set is_set lookup insert
    text_eq
one_is_kept = refl
