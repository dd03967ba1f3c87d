-- ===== src/Eds/Update.antt =====
-- adapter/eds/eds.go: `onEndpointsUpdate`, with its loops.
use xdiscovery.Eds.{
  LbEndpoint, ClusterLoadAssignment, get_or_nil, Watcher, update_service, EdsAdapter,
}
use xdiscovery.Prelude.{
  ◌>>=◌, Bool, true, false, not, ◌&&◌, Option, none, some, List, [], ◌∷◌, ◌++◌, if◌then◌else◌, pos,
  Text, codes, text_eq, lookup, Map, insert, has_key, text_lt, is_empty, ltb_ℤ,
}
use xdiscovery.Service.{Service, HealthCheck}
use xdiscovery.WatchOnUpdate.{is_same_service, int_eq}

-- One endpoint: `none` is an error of `onEndpointsUpdate`.
unfoldable pub parse_endpoint : (Text → Option HealthCheck) → Text → LbEndpoint → Option Service
unfolding lookup
parse_endpoint unmarshal cluster e = do
  endpoint ← e.socket_address
  addr ← endpoint
  sock_addr ← addr
  weight ← e.load_balancing_weight
  id ← lookup (codes "id") e.string_meta
  if is_empty id
      then none
      else some (record {
        id = id;
        name = cluster;
        address = sock_addr.0;
        port = pos sock_addr.1;
        tags = none;
        weight = pos weight;
        meta = some e.string_meta;
        health_check = elim (lookup (codes "health-check") e.string_meta) [
          | none ↦ none
          | some data_ ↦ if is_empty data_ then none else unmarshal data_
        ];
      })

unfoldable pub parse_endpoints :
    (Text → Option HealthCheck) → Text → List LbEndpoint → Option (List Service)
unfolding parse_endpoint
parse_endpoints unmarshal cluster [] = some []
parse_endpoints unmarshal cluster (e ∷ es) = do
  s ← parse_endpoint unmarshal cluster e
  rest ← parse_endpoints unmarshal cluster es
  some (s ∷ rest)

-- The two inner loops.
unfoldable pub parse_localities :
    (Text → Option HealthCheck) → Text → List (List LbEndpoint) → Option (List Service)
unfolding parse_endpoints
parse_localities unmarshal cluster [] = some []
parse_localities unmarshal cluster (v ∷ vs) = do
  s ← parse_endpoints unmarshal cluster v
  rest ← parse_localities unmarshal cluster vs
  some (s ++ rest)

-- The order of `sort.Slice`; Go leaves the order of equal services open.
unfoldable pub is_less : Service → Service → Bool
unfolding text_eq text_lt int_eq
is_less a b =
    if not (text_eq a.address b.address)
    then text_lt a.address b.address
    else if not (int_eq a.port b.port)
    then ltb_ℤ a.port b.port
    else ltb_ℤ a.weight b.weight

unfoldable pub insert_sorted : Service → List Service → List Service
unfolding is_less
insert_sorted x [] = x ∷ []
insert_sorted x (y ∷ ys) = if is_less y x then y ∷ insert_sorted x ys else x ∷ y ∷ ys

unfoldable pub sort_services : List Service → List Service
unfolding insert_sorted
sort_services [] = []
sort_services (x ∷ xs) = insert_sorted x (sort_services xs)

-- `reflect.DeepEqual` on lists of services.
unfoldable pub services_eq : List Service → List Service → Bool
unfolding is_same_service
services_eq [] [] = true
services_eq [] (b ∷ bs) = false
services_eq (a ∷ as_) [] = false
services_eq (a ∷ as_) (b ∷ bs) = is_same_service a b && services_eq as_ bs

-- `newClusters` and `changedClusters`.
pub record Compared : Type 0 where
  pub new_clusters : Map (List Service)
  pub changed_clusters : Map (List Service)

unfoldable pub compare_cluster : Map (List Service) → Text → List Service → Compared → Compared
unfolding services_eq insert
compare_cluster old name s found = record {
  new_clusters = insert name s found.new_clusters;
  changed_clusters =
      if not (services_eq s (get_or_nil name old))
      then insert name s found.changed_clusters
      else found.changed_clusters;
}

-- The loop over the clusters of the message. `none` is a return with an error.
unfoldable pub compare_loop :
    (Text → Option HealthCheck)
    → Map (List Service)
    → List ClusterLoadAssignment
    → Compared
    → Option Compared
unfolding compare_cluster parse_localities
compare_loop unmarshal old [] found = some found
compare_loop unmarshal old (c ∷ cs) found = do
  s ← parse_localities unmarshal c.cluster_name c.endpoints
  compare_loop unmarshal old cs (compare_cluster old c.cluster_name (sort_services s) found)

-- The old clusters that the message does not have.
unfoldable pub keep_old : Map (List Service) → Map (List Service) → Map (List Service)
unfolding has_key insert
keep_old [] new = new
keep_old ((name, list) ∷ old) new =
    keep_old old (if has_key name new then new else insert name list new)

-- The loop that calls the watchers of the changed clusters, up to the first error.
unfoldable pub update_changed : Map (List Service) → Map Watcher → Map Watcher × Option Text
update_changed [] ws = (ws, none)
update_changed ((cluster, list) ∷ changed) ws = elim (lookup cluster ws) [
  | none ↦ update_changed changed ws
  | some w ↦
      let (w', err) = update_service list w in
      let rest = update_changed changed (insert cluster w' ws) in
      elim err [ none ↦ rest | some e ↦ (insert cluster w' ws, some e) ]
]

-- How `onEndpointsUpdate` ends.
pub data Ended : Type 0 where
  done malformed : Ended
  callback_failed : Text → Ended

-- `onEndpointsUpdate`; `iterate` is the order in which Go walks over the changed clusters. The
-- channel that tells of the first call is left out.
unfoldable pub on_endpoints_update :
    (Text → Option HealthCheck)
    → (Map (List Service) → Map (List Service))
    → List ClusterLoadAssignment
    → EdsAdapter
    → EdsAdapter × Ended
on_endpoints_update unmarshal iterate clusters a =
    elim (compare_loop unmarshal a.clusters clusters
      (record { new_clusters = []; changed_clusters = [] })) [
        | none ↦ (a, malformed)
        | some found ↦ elim found.changed_clusters [
          | [] ↦ (a, done)
          | c ∷ cs ↦
              let (ws, err) = update_changed (iterate (c ∷ cs)) a.watchers in
              (
                record a { clusters = keep_old a.clusters found.new_clusters; watchers = ws },
                elim err [ none ↦ done | some e ↦ callback_failed e ],
              )
        ]
      ]
