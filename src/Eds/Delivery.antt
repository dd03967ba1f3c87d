-- ===== src/Eds/Delivery.antt =====
-- adapter/eds/eds.go: the watchers that `onEndpointsUpdate` calls, and their lists.
use mathlib.Core.Path.{subst}
use xdiscovery.Eds.Changes.{last_change, compare_loop-last_change}
use xdiscovery.Eds.{
  Watcher, update_service, ClusterLoadAssignment, get_or_nil, EdsAdapter, OnUpdateList,
}
use xdiscovery.Eds.Update.{
  update_changed, Compared, compare_cluster, compare_loop, on_endpoints_update, services_eq,
  parse_localities, malformed, sort_services, done,
}
use xdiscovery.Prelude.{
  ◌≡◌, refl, sym, ap, ◌∙◌, inl, inr, false, Option, none, some, List, [], ◌∷◌, arith, if◌then◌else◌,
  Bool-cases, Option-cases, All, Text, lookup, Map, text_eq, insert, text_eq_iff, lookup-insert,
}
use xdiscovery.Service.{Service, incr64, HealthCheck, unset}

-- Each key stands once.
abbrev pub HasDistinctKeys : Map (List Service) → Type 0
HasDistinctKeys [] = Unit
HasDistinctKeys ((k, l) ∷ m) = All (λ p. text_eq p.0 k ≡ false) m × HasDistinctKeys m

-- A watcher after it was given a list, if there is one for it.
abbrev pub given : Option (List Service) → Watcher → Watcher
given none w = w
given (some list) w = record w { version = incr64 w.version; clusters = list }

lookup_absent :
    (k : Text) (m : Map (List Service)) → All (λ p. text_eq p.0 k ≡ false) m → lookup k m ≡ none
unfolding lookup
lookup_absent k [] h = refl
lookup_absent k ((j, l) ∷ m) h = let rest = lookup_absent k m h.1 in let here = h.0 in ground arith

update_changed_step :
    (c : Text) (list : List Service) (changed : Map (List Service)) (ws : Map Watcher) (w : Watcher)
    → lookup c ws ≡ some w
    → (update_changed ((c, list) ∷ changed) ws).1 ≡ none
    → update_changed ((c, list) ∷ changed) ws
      ≡ update_changed changed (insert c (given (some list) w) ws)
unfolding update_changed update_service
update_changed_step c list changed ws w f h = elim (Option-cases w.on_update_list) [
  | inl silent ↦ ground arith
  | inr (g, calls) ↦ ground arith
]

update_changed_skip :
    (c : Text) (list : List Service) (changed : Map (List Service)) (ws : Map Watcher)
    → lookup c ws ≡ none
    → update_changed ((c, list) ∷ changed) ws ≡ update_changed changed ws
unfolding update_changed
update_changed_skip c list changed ws h = ground arith

-- If no callback fails, each watcher of a changed cluster was given the cluster's list with the
-- next version, each other watcher is as it was, and no watcher was added; the changed clusters
-- have distinct names.
pub lookup-update_changed :
    (changed : Map (List Service)) (ws : Map Watcher) (k : Text)
    → HasDistinctKeys changed
    → (update_changed changed ws).1 ≡ none
    → let ws' = (update_changed changed ws).0 in
      ((lookup k ws ≡ none) → lookup k ws' ≡ none)
      × ((w : Watcher) → lookup k ws ≡ some w → lookup k ws' ≡ some (given (lookup k changed) w))
lookup-update_changed [] ws k d h = unfold update_changed lookup in (λ n. n, λ w e. e)
lookup-update_changed ((c, list) ∷ changed) ws k (apart, d) h =
    let key = text_eq_iff c k in
    let head : lookup k ((c, list) ∷ changed)
        ≡ (if text_eq c k then some list else lookup k changed) =
      unfold lookup in refl in
    elim (Option-cases (lookup c ws)) [
      | inl missing ↦
          let run = update_changed_skip c list changed ws missing in
          let (still, gets) = lookup-update_changed changed ws k d (sym (ap (λ r. r.1) run) ∙ h) in
          (
            λ n. ap (λ r. lookup k r.0) run ∙ still n,
            λ w e.
                (let other : text_eq c k ≡ false = ground arith in
                  ap (λ r. lookup k r.0) run ∙ gets w e ∙ ground arith),
          )
      | inr (v, found) ↦
          let next = insert c (given (some list) v) ws in
          let run = update_changed_step c list changed ws v found h in
          let read = lookup-insert c k (given (some list) v) ws in
          let (still, gets) =
            lookup-update_changed changed next k d (sym (ap (λ r. r.1) run) ∙ h) in
          (
            λ n.
                (let other : text_eq c k ≡ false = ground arith in
                  ap (λ r. lookup k r.0) run ∙ still (ground arith)),
            λ w e. elim (Bool-cases (text_eq c k)) [
              | inl same ↦
                  let names : c ≡ k = key.0 same in
                  let absent = lookup_absent c changed apart in
                  let gone : lookup k changed ≡ none =
                    ap (λ x. lookup x changed) (sym names) ∙ absent in
                  let which : v ≡ w = ground arith in
                  let step = gets (given (some list) v) (ground arith) in
                  ap (λ r. lookup k r.0) run ∙ step ∙ ground arith
              | inr other ↦
                  let step = gets w (ground arith) in
                  ap (λ r. lookup k r.0) run ∙ step ∙ ground arith
            ],
          )
    ]

All-keys_insert :
    (k j : Text) (l : List Service) (m : Map (List Service))
    → text_eq k j ≡ false
    → All (λ p. text_eq p.0 j ≡ false) m
    → All (λ p. text_eq p.0 j ≡ false) (insert k l m)
unfolding insert
All-keys_insert k j l [] h a = (h, tt)
All-keys_insert k j l ((i, x) ∷ m) h a = elim (Bool-cases (text_eq i k)) [
  | inl same ↦ rw same (h, a.1)
  | inr other ↦ rw other (a.0, All-keys_insert k j l m h a.1)
]

insert-HasDistinctKeys :
    (k : Text) (l : List Service) (m : Map (List Service))
    → HasDistinctKeys m
    → HasDistinctKeys (insert k l m)
unfolding insert
insert-HasDistinctKeys k l [] d = (tt, tt)
insert-HasDistinctKeys k l ((i, x) ∷ m) d = elim (Bool-cases (text_eq i k)) [
  | inl same ↦
      let names : i ≡ k = (text_eq_iff i k).0 same in
      rw same (subst (λ n. All (λ p. text_eq p.0 n ≡ false) m) names d.0, d.1)
  | inr other ↦
      let apart : text_eq k i ≡ false =
        (let one = text_eq_iff k i in let two = text_eq_iff i k in ground arith) in
      rw other (All-keys_insert k i l m apart d.0, insert-HasDistinctKeys k l m d.1)
]

compare_cluster-HasDistinctKeys :
    (old : Map (List Service)) (name : Text) (s : List Service) (found : Compared)
    → HasDistinctKeys found.changed_clusters
    → HasDistinctKeys (compare_cluster old name s found).changed_clusters
unfolding compare_cluster
compare_cluster-HasDistinctKeys old name s found d =
    elim (Bool-cases (services_eq s (get_or_nil name old))) [
      | inl same ↦ rw same d
      | inr other ↦ rw other (insert-HasDistinctKeys name s found.changed_clusters d)
    ]

compare_loop-HasDistinctKeys :
    (unmarshal : Text → Option HealthCheck) (old : Map (List Service))
    (cs : List ClusterLoadAssignment) (start : Compared) {found : Compared}
    → HasDistinctKeys start.changed_clusters
    → compare_loop unmarshal old cs start ≡ some found
    → HasDistinctKeys found.changed_clusters
unfolding compare_loop
compare_loop-HasDistinctKeys unmarshal old [] start {found} d h =
    let same : start ≡ found = ground arith in
    subst (λ c. HasDistinctKeys c.changed_clusters) same d
compare_loop-HasDistinctKeys unmarshal old (c ∷ cs) start {found} d h =
    elim (Option-cases (parse_localities unmarshal c.cluster_name c.endpoints)) [
      | inl bad ↦ absurd (ground arith)
      | inr (s, good) ↦
          compare_loop-HasDistinctKeys unmarshal old cs
            (compare_cluster old c.cluster_name (sort_services s) start) {found = found}
            (compare_cluster-HasDistinctKeys old c.cluster_name (sort_services s) start d)
            (ground arith)
    ]

-- The start of the loop over the clusters.
abbrev pub nothing_yet : Compared
nothing_yet = record { new_clusters = []; changed_clusters = [] }

-- A list that a watcher was given was taken by its callback, if it has one.
abbrev pub Accepted : Option (List Service) → Watcher → Type 0
Accepted none w = Unit
Accepted (some list) w =
    (f : OnUpdateList)
    → w.on_update_list ≡ some f
    → f (record {
      watch_version = w.watch_version;
      version = incr64 w.version;
      run_mode = unset;
      services = list;
    })
      ≡ none

-- A callback that was called with a list has taken it, if no callback failed.
update_changed-Accepted :
    (changed : Map (List Service)) (ws : Map Watcher) (k : Text) (list : List Service) (w : Watcher)
    → HasDistinctKeys changed
    → (update_changed changed ws).1 ≡ none
    → lookup k ws ≡ some w
    → lookup k changed ≡ some list
    → Accepted (some list) w
update_changed-Accepted [] ws k list w d h e c f has = absurd (unfold lookup in ground arith)
update_changed-Accepted ((name, l) ∷ changed) ws k list w (apart, d) h e c f has =
    let key = text_eq_iff name k in
    let head : lookup k ((name, l) ∷ changed)
        ≡ (if text_eq name k then some l else lookup k changed) =
      unfold lookup in refl in
    elim (Bool-cases (text_eq name k)) [
      | inl same ↦
          let names = key.0 same in
          let at_name : lookup name ws ≡ some w = ap (λ n. lookup n ws) names ∙ e in
          let is_l : l ≡ list = ground arith in
          let took : f (record {
            watch_version = w.watch_version;
            version = incr64 w.version;
            run_mode = unset;
            services = l;
          })
              ≡ none =
            unfold update_changed update_service in ground arith in
          subst
            (λ x.
              f (record {
                watch_version = w.watch_version;
                version = incr64 w.version;
                run_mode = unset;
                services = x;
              })
              ≡ none)
            is_l took
      | inr other ↦
          let later : lookup k changed ≡ some list = ground arith in
          elim (Option-cases (lookup name ws)) [
            | inl missing ↦
                let run = update_changed_skip name l changed ws missing in
                update_changed-Accepted changed ws k list w d (sym (ap (λ r. r.1) run) ∙ h) e later
                  f has
            | inr (v, there) ↦
                let next = insert name (given (some l) v) ws in
                let run = update_changed_step name l changed ws v there h in
                let read = lookup-insert name k (given (some l) v) ws in
                update_changed-Accepted changed next k list w d (sym (ap (λ r. r.1) run) ∙ h)
                  (ground arith) later f has
          ]
    ]

module _ (unmarshal : Text → Option HealthCheck) (iterate : Map (List Service) → Map (List Service))
    (walks : (m : Map (List Service))
      → HasDistinctKeys m
      → HasDistinctKeys (iterate m) × ((k : Text) → lookup k (iterate m) ≡ lookup k m)) where
  finished :
      (cs : List ClusterLoadAssignment) (a : EdsAdapter) (found : Compared)
      (changed : Map (List Service))
      → compare_loop unmarshal a.clusters cs nothing_yet ≡ some found
      → found.changed_clusters ≡ changed
      → HasDistinctKeys changed
      → (on_endpoints_update unmarshal iterate cs a).1 ≡ done
      → (k : Text) (w : Watcher) → lookup k a.watchers ≡ some w
      → lookup k (on_endpoints_update unmarshal iterate cs a).0.watchers
        ≡ some (given (lookup k changed) w)
  unfolding on_endpoints_update lookup
  finished cs a found [] e c d h k w at_k = ground arith
  finished cs a found (x ∷ xs) e c d h k w at_k =
      let quiet : (update_changed (iterate (x ∷ xs)) a.watchers).1 ≡ none = ground arith in
      let state : (on_endpoints_update unmarshal iterate cs a).0.watchers
          ≡ (update_changed (iterate (x ∷ xs)) a.watchers).0 =
        ground arith in
      let (d', same) = walks (x ∷ xs) d in
      ap (lookup k) state
      ∙ (lookup-update_changed (iterate (x ∷ xs)) a.watchers k d' quiet).1 w at_k
      ∙ ap (λ l. some (given l w)) (same k)

  accepted :
      (cs : List ClusterLoadAssignment) (a : EdsAdapter) (found : Compared)
      (changed : Map (List Service))
      → compare_loop unmarshal a.clusters cs nothing_yet ≡ some found
      → found.changed_clusters ≡ changed
      → HasDistinctKeys changed
      → (on_endpoints_update unmarshal iterate cs a).1 ≡ done
      → (k : Text) (w : Watcher) → lookup k a.watchers ≡ some w
      → (list : List Service) → lookup k changed ≡ some list
      → Accepted (some list) w
  unfolding on_endpoints_update lookup
  accepted cs a found [] e c d h k w at_k list l = absurd (ground arith)
  accepted cs a found (x ∷ xs) e c d h k w at_k list l =
      let quiet : (update_changed (iterate (x ∷ xs)) a.watchers).1 ≡ none = ground arith in
      let (d', same) = walks (x ∷ xs) d in
      update_changed-Accepted (iterate (x ∷ xs)) a.watchers k list w d' quiet at_k (same k ∙ l)

  -- A malformed message changes nothing. After a message that is well formed and that no callback
  -- refuses: if the message has for a cluster a list that differs from the cluster's old one, then
  -- the cluster's watcher was given the last such list, sorted, with the next version, and its
  -- callback was called with just that and has taken it; if not, the watcher is as it was. Go may
  -- walk over the changed clusters in any order.
  pub on_endpoints_update-delivers :
      (cs : List ClusterLoadAssignment) (a : EdsAdapter)
      → let (a', ended) = on_endpoints_update unmarshal iterate cs a in
        ((ended ≡ malformed) → a' ≡ a)
        × (ended ≡ done
            → (k : Text) (w : Watcher) → lookup k a.watchers ≡ some w
            → let list = last_change unmarshal (get_or_nil k a.clusters) k cs in
              (lookup k a'.watchers ≡ some (given list w)) × Accepted list w)
  unfolding on_endpoints_update
  on_endpoints_update-delivers cs a = (
    λ m. broken m,
    λ h k w at_k. elim (Option-cases (compare_loop unmarshal a.clusters cs nothing_yet)) [
      | inl bad ↦ absurd (ground arith)
      | inr (found, e) ↦
          let distinct =
            compare_loop-HasDistinctKeys unmarshal a.clusters cs nothing_yet {found = found} tt e in
          let same = changes cs a found e k in
          (
            finished cs a found found.changed_clusters e refl distinct h k w at_k
                ∙ ap (λ l. some (given l w)) same,
            taken (last_change unmarshal (get_or_nil k a.clusters) k cs) w (λ list l.
                accepted cs a found found.changed_clusters e refl distinct h k w at_k list
                  (same ∙ l)),
          )
    ],
  )
    where
      broken :
          (on_endpoints_update unmarshal iterate cs a).1 ≡ malformed
          → (on_endpoints_update unmarshal iterate cs a).0 ≡ a
      broken m = ground arith

      changes :
          (cs : List ClusterLoadAssignment) (a : EdsAdapter) (found : Compared)
          → compare_loop unmarshal a.clusters cs nothing_yet ≡ some found
          → (k : Text)
          → lookup k found.changed_clusters ≡ last_change unmarshal (get_or_nil k a.clusters) k cs
      changes cs a found e k =
          let law =
            compare_loop-last_change unmarshal a.clusters cs nothing_yet {found = found} k e in
          elim (Option-cases (last_change unmarshal (get_or_nil k a.clusters) k cs)) [
            | inl nothing ↦ law ∙ unfold lookup in ground arith
            | inr (l, some_) ↦ law ∙ ground arith
          ]

      taken :
          (o : Option (List Service)) (w : Watcher)
          → ((list : List Service) → o ≡ some list → Accepted (some list) w)
          → Accepted o w
      taken none w h = tt
      taken (some list) w h = h list refl
