-- ===== src/Tests/EdsTests.antt =====
-- adapter/eds/eds.go: a run.
use xdiscovery.Eds.Changes.{last_change}
use xdiscovery.Eds.Delivery.{HasDistinctKeys, given, Accepted, on_endpoints_update-delivers}
use xdiscovery.Eds.Update.{
  on_endpoints_update, compare_loop, malformed, compare_cluster, parse_localities, done,
  parse_endpoints, parse_endpoint, sort_services, services_eq, update_changed, insert_sorted,
}
use xdiscovery.Eds.{
  get_or_nil, ClusterLoadAssignment, LbEndpoint, Watcher, EdsAdapter, update_service,
}
use xdiscovery.Prelude.{
  ◌≡◌, refl, false, Option, none, some, List, [], ◌∷◌, Text, codes, Map, lookup, insert, text_eq,
}
use xdiscovery.Service.{Service, HealthCheck}

abbrev no_json : Text → Option HealthCheck
no_json t = none

abbrev endpoint : LbEndpoint
endpoint = record {
  socket_address = some (some (some (codes "10.0.0.1", 80)));
  load_balancing_weight = some 2;
  string_meta = (codes "id", codes "a") ∷ [];
}

abbrev message : List ClusterLoadAssignment
message = record { cluster_name = codes "order"; endpoints = (endpoint ∷ []) ∷ [] } ∷ []

abbrev order_watcher : Watcher
order_watcher = record {
  watch_version = 1;
  cluster = codes "order";
  closed = false;
  on_update_list = some (λ l. none);
  clusters = [];
  version = 0;
}

abbrev adapter : EdsAdapter
adapter = record {
  watchers = (codes "order", order_watcher) ∷ [];
  clusterlist = codes "order" ∷ [];
  clusters = [];
  counter = 1;
}

abbrev walks_itself :
    (m : Map (List Service))
    → HasDistinctKeys m
    → HasDistinctKeys m × ((k : Text) → lookup k m ≡ lookup k m)
walks_itself m d = (d, λ k. refl)

on_endpoints_update-delivers_example :
    let (a', ended) = on_endpoints_update no_json (λ m. m) message adapter in
    ((ended ≡ malformed) → a' ≡ adapter)
    × (ended ≡ done
        → (k : Text) (w : Watcher) → lookup k adapter.watchers ≡ some w
        → let list = last_change no_json (get_or_nil k []) k message in
          (lookup k a'.watchers ≡ some (given list w)) × Accepted list w)
on_endpoints_update-delivers_example =
    on_endpoints_update-delivers no_json (λ m. m) walks_itself message adapter

is_done : (on_endpoints_update no_json (λ m. m) message adapter).1 ≡ done
unfolding on_endpoints_update compare_loop compare_cluster parse_localities parse_endpoints
    parse_endpoint sort_services services_eq lookup insert text_eq update_changed update_service
    insert_sorted
is_done = refl
