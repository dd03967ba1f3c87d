-- ===== src/Eds/Subscribed.antt =====
-- adapter/eds/eds.go: the clusters to which the xDS client is subscribed.
use xdiscovery.Service.Copy.{copy_slice_lem}
use xdiscovery.Eds.Setup.{EdsDiscovery, watch_list, update_endpoints}
use xdiscovery.Ads.{update_subscribed_clusters}
use xdiscovery.Service.{Service, HealthCheck}
use xdiscovery.Eds.Update.{update_changed, on_endpoints_update, compare_loop, Compared, keep_old}
use xdiscovery.Eds.Setup.{EdsDiscovery, update_endpoints}
use xdiscovery.Eds.{
  Watcher, eds_watch_list, WatchGaps, first_update, eds_watch_locked, ClusterLoadAssignment,
  OnUpdateList, EdsAdapter, update_service, new_watcher, get_or_nil,
}
use mathlib.Core.Path.{subst}
use xdiscovery.Prelude.{
  ◌≡◌, refl, sym, ap, ◌∙◌, ◌↔◌, ◌⊎◌, inl, inr, true, false, Option, none, some, List, [], ◌∷◌, ◌++◌,
  arith, if◌then◌else◌, Bool-cases, Option-cases, In, Text, Map, insert, lookup, lookup-insert,
  text_eq, text_eq_refl, text_eq→≡, In-append_cases, text_eq_iff, In-append_right, In-append_left,
  list_cases,
}

-- A cluster has a watcher.
abbrev pub IsWatched : Text → Map Watcher → Type 0
IsWatched k ws = (w : Watcher) × (lookup k ws ≡ some w)

-- The client is subscribed to the clusters that have a watcher.
pub record IsSubscribed (d : EdsDiscovery) : Type 0 where
  pub subscribed : d.ads_client.subscribed_clusters ≡ d.adapter.clusterlist
  pub watched : (k : Text) → In k d.adapter.clusterlist ↔ IsWatched k d.adapter.watchers

-- No other call runs while the adapter's part of a watch does.
abbrev pub no_gaps : WatchGaps
no_gaps = record { before_lock = λ a. a; before_update = λ a. a }

pub IsWatched-of_law :
    (k j : Text) (w : Watcher) (ws ws' : Map Watcher)
    → lookup j ws' ≡ (if text_eq k j then some w else lookup j ws)
    → IsWatched j ws' ↔ ((k ≡ j) ⊎ IsWatched j ws)
IsWatched-of_law k j w ws ws' law = elim (Bool-cases (text_eq k j)) [
  | inl same ↦ (
    λ h. inl (text_eq→≡ k j same),
    λ h. (w, law ∙ ap (λ b. if b then some w else lookup j ws) same),
  )
  | inr other ↦
      let at : lookup j ws' ≡ lookup j ws =
        law ∙ ap (λ b. if b then some w else lookup j ws) other in
      (
        λ (v, e). inr (v, sym at ∙ e),
        λ h. elim h [
          | inl same ↦ absurd (
              let both = (text_eq_iff k j).1 same in let no : true ≡ false = sym both ∙ other in cc)
          | inr (v, e) ↦ (v, at ∙ e)
        ],
      )
]

IsWatched-insert :
    (k j : Text) (w : Watcher) (ws : Map Watcher)
    → IsWatched j (insert k w ws) ↔ ((k ≡ j) ⊎ IsWatched j ws)
IsWatched-insert k j w ws = IsWatched-of_law k j w ws (insert k w ws) (lookup-insert k j w ws)

pub In-snoc : (k j : Text) (ks : List Text) → In j (ks ++ k ∷ []) ↔ ((k ≡ j) ⊎ In j ks)
In-snoc k j ks = (
  λ m. elim (In-append_cases j ks (k ∷ []) m) [
    | inl there ↦ inr there
    | inr (inl same) ↦ inl same
    | inr (inr nothing) ↦ absurd nothing
  ],
  λ h. elim h [
    | inl same ↦ In-append_right j ks (k ∷ []) (inl same)
    | inr there ↦ In-append_left j ks (k ∷ []) there
  ],
)

pub cons_of_snoc :
    (ks : List Text) (k : Text) → (c : Text) × (cs : List Text) × (ks ++ k ∷ [] ≡ c ∷ cs)
cons_of_snoc [] k = (k, [], refl)
cons_of_snoc (c ∷ cs) k = (c, cs ++ k ∷ [], refl)

-- A cluster that was not watched gets a watcher and a place in the list.
pub eds_watch_list_new :
    (cluster : Text) (f : Option OnUpdateList) (a : EdsAdapter)
    → lookup cluster a.watchers ≡ none
    → let (a', list) = eds_watch_list no_gaps cluster f a in
      (w : Watcher) × (list ≡ some a'.clusterlist)
      × ((k : Text)
          → lookup k a'.watchers ≡ (if text_eq cluster k then some w else lookup k a.watchers))
      × (a'.clusterlist ≡ a.clusterlist ++ cluster ∷ [])
unfolding eds_watch_list eds_watch_locked first_update
eds_watch_list_new cluster f a new =
    let fresh = new_watcher a.counter cluster f (get_or_nil cluster a.clusters) in
    let first = insert cluster fresh a.watchers in
    elim (list_cases a.clusters) [
      | inl nothing ↦
          let ws : (eds_watch_list no_gaps cluster f a).0.watchers ≡ first = ground arith in
          (
            fresh,
            ground arith,
            λ k. ap (lookup k) ws ∙ lookup-insert cluster k fresh a.watchers,
            ground arith,
          )
      | inr (c, cs, some_) ↦
          let there : lookup cluster first ≡ some fresh =
            lookup-insert cluster cluster fresh a.watchers
            ∙ ap (λ b. if b then some fresh else lookup cluster a.watchers)
                (text_eq_refl cluster) in
          let updated = (update_service (get_or_nil cluster a.clusters) fresh).0 in
          let ws : (eds_watch_list no_gaps cluster f a).0.watchers ≡ insert cluster updated first =
            ground arith in
          (
            updated,
            ground arith,
            λ k.
                ap (lookup k) ws
                ∙ lookup-insert cluster k updated first
                ∙ (let old = lookup-insert cluster k fresh a.watchers in ground arith),
            ground arith,
          )
    ]

pub watch_list-IsSubscribed :
    (cluster : Text) (f : Option OnUpdateList) (d : EdsDiscovery)
    → IsSubscribed d
    → IsSubscribed (watch_list no_gaps (λ x. x) cluster f d).0
unfolding watch_list
watch_list-IsSubscribed cluster f d h = elim (Option-cases (lookup cluster d.adapter.watchers)) [
  | inr (w, there) ↦
      let none_new : eds_watch_list no_gaps cluster f d.adapter ≡ (d.adapter, none) =
        unfold eds_watch_list in ground arith in
      let same : (watch_list no_gaps (λ x. x) cluster f d).0 ≡ d = ground arith in
      subst IsSubscribed (sym same) h
  | inl new ↦
      let (w, made, ws, list) = eds_watch_list_new cluster f d.adapter new in
      let a = (eds_watch_list no_gaps cluster f d.adapter).0 in
      let (c, cs, full) = cons_of_snoc d.adapter.clusterlist cluster in
      let whole : a.clusterlist ≡ c ∷ cs = list ∙ full in
      let after : EdsDiscovery = record {
        adapter = a;
        ads_client = update_subscribed_clusters (c ∷ cs) d.ads_client;
      } in
      let same : (watch_list no_gaps (λ x. x) cluster f d).0 ≡ after = ground arith in
      subst IsSubscribed (sym same) (record {
        subscribed = unfold update_subscribed_clusters in copy_slice_lem (c ∷ cs) ∙ sym whole;
        watched = λ k.
            (let (to_list, of_list) = In-snoc cluster k d.adapter.clusterlist in
              let (to_map, of_map) =
                IsWatched-of_law cluster k w d.adapter.watchers a.watchers (ws k) in
              (
                λ m. of_map (elim (to_list (subst (In k) list m)) [
                  | inl e ↦ inl e
                  | inr i ↦ inr ((h.watched k).0 i)
                ]),
                λ v.
                    subst (In k) (sym list) (
                      of_list
                        (elim (to_map v) [ inl e ↦ inl e | inr i ↦ inr ((h.watched k).1 i) ])),
              ));
      })
]

-- The calls of the watchers keep the clusters that are watched.
IsWatched-update_changed :
    (changed : Map (List Service)) (ws : Map Watcher) (k : Text)
    → IsWatched k ((update_changed changed ws).0) ↔ IsWatched k ws
unfolding update_changed
IsWatched-update_changed [] ws k = (λ h. h, λ h. h)
IsWatched-update_changed ((cluster, list) ∷ changed) ws k =
    elim (Option-cases (lookup cluster ws)) [
      | inl gone ↦
          let same : update_changed ((cluster, list) ∷ changed) ws ≡ update_changed changed ws =
            ground arith in
          subst (λ x. IsWatched k x.0 ↔ IsWatched k ws) (sym same)
            (IsWatched-update_changed changed ws k)
      | inr (w, there) ↦
          let (w', err) = update_service list w in
          let rest = IsWatched-update_changed changed (insert cluster w' ws) k in
          let (to_map, of_map) = IsWatched-insert cluster k w' ws in
          let back : IsWatched k (insert cluster w' ws) → IsWatched k ws =
            λ v. elim (to_map v) [ inl e ↦ subst (λ j. IsWatched j ws) e (w, there) | inr i ↦ i ] in
          elim (Option-cases err) [
            | inl fine ↦
                let same : (update_changed ((cluster, list) ∷ changed) ws).0
                    ≡ (update_changed changed (insert cluster w' ws)).0 =
                  ground arith in
                subst (λ x. IsWatched k x ↔ IsWatched k ws) (sym same)
                  (λ v. back (rest.0 v), λ v. rest.1 (of_map (inr v)))
            | inr (e, fails) ↦
                let same : (update_changed ((cluster, list) ∷ changed) ws).0
                    ≡ insert cluster w' ws =
                  ground arith in
                subst (λ x. IsWatched k x ↔ IsWatched k ws) (sym same) (back, λ v. of_map (inr v))
          ]
    ]

pub update_endpoints-IsSubscribed :
    (unmarshal : Text → Option HealthCheck) (iterate : Map (List Service) → Map (List Service))
    (clusters : List ClusterLoadAssignment) (d : EdsDiscovery)
    → IsSubscribed d
    → IsSubscribed (update_endpoints unmarshal iterate clusters d).0
unfolding update_endpoints on_endpoints_update
update_endpoints-IsSubscribed unmarshal iterate clusters d h =
    let none_yet : Compared = record { new_clusters = []; changed_clusters = [] } in
    elim (Option-cases (compare_loop unmarshal d.adapter.clusters clusters none_yet)) [
      | inl bad ↦
          let same : (update_endpoints unmarshal iterate clusters d).0 ≡ d = ground arith in
          subst IsSubscribed (sym same) h
      | inr (found, good) ↦ elim (list_cases found.changed_clusters) [
        | inl nothing ↦
            let same : (update_endpoints unmarshal iterate clusters d).0 ≡ d = ground arith in
            subst IsSubscribed (sym same) h
        | inr (c, cs, some_) ↦
            let ws = (update_changed (iterate (c ∷ cs)) d.adapter.watchers).0 in
            let a : EdsAdapter = record d.adapter {
              clusters = keep_old d.adapter.clusters found.new_clusters;
              watchers = ws;
            } in
            let same : (update_endpoints unmarshal iterate clusters d).0
                ≡ record d { adapter = a } =
              ground arith in
            subst IsSubscribed (sym same) (record {
              subscribed = h.subscribed;
              watched = λ k.
                  (let (f, g) = IsWatched-update_changed (iterate (c ∷ cs)) d.adapter.watchers k in
                    (λ m. g ((h.watched k).0 m), λ v. (h.watched k).1 (f v)));
            })
      ]
    ]
