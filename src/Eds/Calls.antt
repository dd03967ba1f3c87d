-- ===== src/Eds/Calls.antt =====
-- adapter/eds/eds.go: calls of the adapter one after the other, and two watches that overlap.
use xdiscovery.Eds.Update.{on_endpoints_update, Compared, compare_loop}
use xdiscovery.Service.Copy.{copy_slice_lem}
use xdiscovery.Eds.Subscribed.{
  no_gaps, IsSubscribed, IsWatched, watch_list-IsSubscribed, eds_watch_list_new,
  update_endpoints-IsSubscribed, cons_of_snoc, IsWatched-of_law, In-snoc,
}
use xdiscovery.Service.{HealthCheck, Service}
use xdiscovery.Ads.{new_ads_client, Interface, update_subscribed_clusters}
use xdiscovery.Eds.{OnUpdateList, ClusterLoadAssignment, eds_watch_list}
use xdiscovery.Eds.Setup.{EdsDiscovery, EdsOption, new_eds_adapter, watch_list, update_endpoints}
use mathlib.Core.Path.{subst}
use xdiscovery.Prelude.{
  ℕ, ◌≡◌, refl, sym, ap, ◌∙◌, ◌≢◌, inl, inr, false, Option, none, some, List, [], ◌∷◌, arith,
  if◌then◌else◌, Bool-cases, In, Text, text_eq, text_eq→≡, Map, lookup, ◌↔◌, Bool, true, ◌++◌,
  Option-cases, text_eq_iff, list_cases,
}

-- A call on the adapter: a watch, or a message of the server.
pub data EdsCall : Type 0 where
  watches : Text → Option OnUpdateList → EdsCall
  pushes : List ClusterLoadAssignment → EdsCall

-- Calls one after the other.
abbrev pub run_calls :
    (Text → Option HealthCheck)
    → (Map (List Service) → Map (List Service))
    → List EdsCall
    → EdsDiscovery
    → EdsDiscovery
run_calls unmarshal iterate [] d = d
run_calls unmarshal iterate (watches cluster f ∷ calls) d =
    run_calls unmarshal iterate calls (watch_list no_gaps (λ x. x) cluster f d).0
run_calls unmarshal iterate (pushes clusters ∷ calls) d =
    run_calls unmarshal iterate calls (update_endpoints unmarshal iterate clusters d).0

run_calls_kept :
    (unmarshal : Text → Option HealthCheck) (iterate : Map (List Service) → Map (List Service))
    (calls : List EdsCall) (d : EdsDiscovery)
    → IsSubscribed d
    → IsSubscribed (run_calls unmarshal iterate calls d)
run_calls_kept unmarshal iterate [] d h = h
run_calls_kept unmarshal iterate (watches cluster f ∷ calls) d h =
    run_calls_kept unmarshal iterate calls (watch_list no_gaps (λ x. x) cluster f d).0
      (watch_list-IsSubscribed cluster f d h)
run_calls_kept unmarshal iterate (pushes clusters ∷ calls) d h =
    run_calls_kept unmarshal iterate calls (update_endpoints unmarshal iterate clusters d).0
      (update_endpoints-IsSubscribed unmarshal iterate clusters d h)

-- A cluster stands in a list.
abbrev pub is_listed : Text → List Text → Bool
is_listed k [] = false
is_listed k (j ∷ js) = if text_eq j k then true else is_listed k js

-- The clusters that are watched, in the order of their first watches, after those given.
abbrev pub first_watches : List EdsCall → List Text → List Text
first_watches [] ks = ks
first_watches (watches cluster f ∷ calls) ks =
    first_watches calls (if is_listed cluster ks then ks else ks ++ cluster ∷ [])
first_watches (pushes clusters ∷ calls) ks = first_watches calls ks

is_listed_iff : (k : Text) (ks : List Text) → (is_listed k ks ≡ true) ↔ In k ks
is_listed_iff k [] = (λ e. absurd (cc), λ m. absurd m)
is_listed_iff k (j ∷ js) =
    let (f, g) = is_listed_iff k js in
    let choose : Bool → Bool = λ b. if b then true else is_listed k js in
    elim (Bool-cases (text_eq j k)) [
      | inl same ↦ (λ e. inl (text_eq→≡ j k same), λ m. ap choose same)
      | inr other ↦ (
        λ e. inr (f (sym (ap choose other) ∙ e)),
        λ m. elim m [
          | inl here ↦ absurd (
              let both = (text_eq_iff j k).1 here in
              let no_ : true ≡ false = sym both ∙ other in cc)
          | inr there ↦ ap choose other ∙ g there
        ],
      )
    ]

-- The list of the adapter after a watch.
watch_list_order :
    (cluster : Text) (f : Option OnUpdateList) (d : EdsDiscovery)
    → IsSubscribed d
    → (watch_list no_gaps (λ x. x) cluster f d).0.adapter.clusterlist ≡ (
        if is_listed cluster d.adapter.clusterlist
        then d.adapter.clusterlist
        else d.adapter.clusterlist ++ cluster ∷ [])
unfolding watch_list
watch_list_order cluster f d h =
    let ks = d.adapter.clusterlist in
    let choose : Bool → List Text = λ b. if b then ks else ks ++ cluster ∷ [] in
    elim (Option-cases (lookup cluster d.adapter.watchers)) [
      | inr (w, there) ↦
          let none_new : eds_watch_list no_gaps cluster f d.adapter ≡ (d.adapter, none) =
            unfold eds_watch_list in ground arith in
          let same : (watch_list no_gaps (λ x. x) cluster f d).0.adapter.clusterlist ≡ ks =
            ground arith in
          let old = (is_listed_iff cluster ks).1 ((h.watched cluster).1 (w, there)) in
          same ∙ ap choose (sym old)
      | inl new ↦
          let (w, made, ws, list) = eds_watch_list_new cluster f d.adapter new in
          let (c, cs, full) = cons_of_snoc ks cluster in
          let whole = list ∙ full in
          let same : (watch_list no_gaps (λ x. x) cluster f d).0.adapter.clusterlist
              ≡ (eds_watch_list no_gaps cluster f d.adapter).0.clusterlist =
            ground arith in
          let absent : is_listed cluster ks ≡ false = elim (Bool-cases (is_listed cluster ks)) [
            | inl old ↦
                let (v, e) = (h.watched cluster).0 ((is_listed_iff cluster ks).0 old) in
                let no_ : none ≡ some v = sym new ∙ e in absurd (cc)
            | inr fresh ↦ fresh
          ] in
          same ∙ list ∙ ap choose (sym absent)
    ]

update_endpoints_order :
    (unmarshal : Text → Option HealthCheck) (iterate : Map (List Service) → Map (List Service))
    (clusters : List ClusterLoadAssignment) (d : EdsDiscovery)
    → (update_endpoints unmarshal iterate clusters d).0.adapter.clusterlist ≡ d.adapter.clusterlist
unfolding update_endpoints on_endpoints_update
update_endpoints_order unmarshal iterate clusters d =
    let none_yet : Compared = record { new_clusters = []; changed_clusters = [] } in
    elim (Option-cases (compare_loop unmarshal d.adapter.clusters clusters none_yet)) [
      | inl bad ↦ ground arith
      | inr (found, good) ↦ elim (list_cases found.changed_clusters) [
        | inl nothing ↦ ground arith
        | inr (c, cs, some_) ↦ ground arith
      ]
    ]

run_calls_order :
    (unmarshal : Text → Option HealthCheck) (iterate : Map (List Service) → Map (List Service))
    (calls : List EdsCall) (d : EdsDiscovery)
    → IsSubscribed d
    → (run_calls unmarshal iterate calls d).adapter.clusterlist
      ≡ first_watches calls d.adapter.clusterlist
run_calls_order unmarshal iterate [] d h = refl
run_calls_order unmarshal iterate (watches cluster f ∷ calls) d h =
    run_calls_order unmarshal iterate calls (watch_list no_gaps (λ x. x) cluster f d).0
      (watch_list-IsSubscribed cluster f d h)
    ∙ ap (first_watches calls) (watch_list_order cluster f d h)
run_calls_order unmarshal iterate (pushes clusters ∷ calls) d h =
    run_calls_order unmarshal iterate calls (update_endpoints unmarshal iterate clusters d).0
      (update_endpoints-IsSubscribed unmarshal iterate clusters d h)
    ∙ ap (first_watches calls) (update_endpoints_order unmarshal iterate clusters d)

-- After any watches and messages on a new adapter, one after the other, the xDS client is subscribed
-- to just the clusters that have a watcher, in the order of their first watches, each once.
pub run_calls-IsSubscribed :
    (inters : Option (List Interface)) (counter : ℕ) (addr : Text) (opts : List EdsOption)
    (unmarshal : Text → Option HealthCheck) (iterate : Map (List Service) → Map (List Service))
    (calls : List EdsCall)
    → let d = run_calls unmarshal iterate calls (new_eds_adapter inters counter addr opts) in
      IsSubscribed d × (d.ads_client.subscribed_clusters ≡ first_watches calls [])
unfolding new_eds_adapter new_ads_client lookup
run_calls-IsSubscribed inters counter addr opts unmarshal iterate calls =
    let d = new_eds_adapter inters counter addr opts in
    let start : IsSubscribed d = record {
      subscribed = refl;
      watched = λ k. (λ m. absurd m, λ (w, e). absurd (cc));
    } in
    let kept = run_calls_kept unmarshal iterate calls d start in
    (kept, kept.subscribed ∙ run_calls_order unmarshal iterate calls d start)

watch_list_watched :
    (cluster : Text) (f : Option OnUpdateList) (d : EdsDiscovery)
    → lookup cluster d.adapter.watchers ≡ none
    → IsWatched cluster (watch_list no_gaps (λ x. x) cluster f d).0.adapter.watchers
unfolding watch_list
watch_list_watched cluster f d new =
    let (w, made, ws, list) = eds_watch_list_new cluster f d.adapter new in
    let (c, cs, full) = cons_of_snoc d.adapter.clusterlist cluster in
    let whole = list ∙ full in
    let same : (watch_list no_gaps (λ x. x) cluster f d).0.adapter
        ≡ (eds_watch_list no_gaps cluster f d.adapter).0 =
      ground arith in
    let a = (eds_watch_list no_gaps cluster f d.adapter).0 in
    subst (λ x. IsWatched cluster x.watchers) (sym same)
      ((IsWatched-of_law cluster cluster w d.adapter.watchers a.watchers (ws cluster)).1 (inl refl))

different : (k j : Text) → k ≢ j → text_eq k j ≡ false
different k j apart = elim (Bool-cases (text_eq k j)) [
  | inl same ↦ absurd (apart (text_eq→≡ k j same))
  | inr other ↦ other
]

-- If a watch of a cluster comes between the lock of another watch and its subscription, neither
-- cluster being watched before, then it has a watcher in the end, and the xDS client is not
-- subscribed to it.
pub watch_list_overlapping :
    (k j : Text) (f g : Option OnUpdateList) (d : EdsDiscovery)
    → IsSubscribed d
    → k ≢ j
    → lookup k d.adapter.watchers ≡ none
    → lookup j d.adapter.watchers ≡ none
    → let d' = (watch_list no_gaps (λ x. (watch_list no_gaps (λ y. y) j g x).0) k f d).0 in
      IsWatched j d'.adapter.watchers × ¬ In j d'.ads_client.subscribed_clusters
unfolding watch_list
watch_list_overlapping k j f g d h apart new_k new_j =
    let (w, made, ws, list) = eds_watch_list_new k f d.adapter new_k in
    let a = (eds_watch_list no_gaps k f d.adapter).0 in
    let (c, cs, full) = cons_of_snoc d.adapter.clusterlist k in
    let whole : a.clusterlist ≡ c ∷ cs = list ∙ full in
    let other = (watch_list no_gaps (λ y. y) j g (record d { adapter = a })).0 in
    let after : EdsDiscovery = record other {
      ads_client = update_subscribed_clusters (c ∷ cs) other.ads_client;
    } in
    let same : (watch_list no_gaps (λ x. (watch_list no_gaps (λ y. y) j g x).0) k f d).0 ≡ after =
      ground arith in
    subst (λ x. IsWatched j x.adapter.watchers × ¬ In j x.ads_client.subscribed_clusters) (sym same)
      (
        watch_list_watched j g (record d { adapter = a })
            (ws j
              ∙ ap (λ b. if b then some w else lookup j d.adapter.watchers) (different k j apart)
              ∙ new_j),
        λ m.
            (let there = subst (In j) (copy_slice_lem (c ∷ cs) ∙ sym full) m in
              elim ((In-snoc k j d.adapter.clusterlist).0 there) [
                | inl here ↦ absurd (apart here)
                | inr old ↦
                    let (v, e) = (h.watched j).0 old in
                    let no_ : none ≡ some v = sym new_j ∙ e in absurd (cc)
              ]),
      )
