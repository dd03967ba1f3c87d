-- ===== src/Tests/BalanceTests.antt =====
-- loadbalance/loadbalance.go, discovery/discovery.go and wrap.go: runs.
use xdiscovery.Service.Copy.{copy_slice, copy, copy_slice, copy_map, copy_health_check}
use xdiscovery.Degrade.Handlers.{new_degrade, update_opts, with_history, blank}
use xdiscovery.LoadBalance.Reuse.{next-reuses}
use xdiscovery.Degrade.{get_list}
use xdiscovery.Watch.{watch_get_list, filter_tags}
use xdiscovery.Recover.Modes.{recover_get_servers-mode}
use xdiscovery.CheckChange.{
  made, get_value, locked_update, update_sync, store, is_changed, new_check_change,
}
use xdiscovery.Discoverer.Watchers.{alone, Served, get_servers_with_dc-Served}
use xdiscovery.Float.{Ratio}
use mathlib.Core.Path.{subst}
use xdiscovery.LoadBalance.Current.{
  Stamps, Query, run_queries, run_queries-chosen, IsAnswered, IsPublished,
}
use xdiscovery.LoadBalance.Sharing.{no_gap}
use xdiscovery.Recover.{
  get_all_watched_services, Inner, WithRecoverDiscovery, recover_get_servers, get_all_loop,
  answer_of, set_recover, recovered, wrap_with_recover_discovery, found, not_exist_on_recover,
  inner_failed,
}
use xdiscovery.Discoverer.{
  World, get_servers_with_dc, Discoverer, watch_locked, new_watch, answered, serve, watch_key,
  Failure, refused,
}
use xdiscovery.Wrr.{
  RoundRobinWeight, next_server, ok, upsert_server, upsert_new, reset_state, deref,
  build_server_list, positive, add_up, accumulate, new_round_robin_weight, next_of_list,
  search_loop, weight_at,
}
use xdiscovery.Tests.{list_of, node_a, node_b, options}
use xdiscovery.LoadBalance.{
  next, QueryOpts, build_load_balance, check_of, next_checked, new_load_balance, choose, chosen,
  upsert_all,
}
use xdiscovery.Prelude.{
  zero, suc, ◌≡◌, refl, ◌≢◌, ◌⊎◌, true, Option, none, some, List, [], ◌∷◌, pos, Text, codes, Map,
  lookup, has_key, text_eq, insert, add64,
}
use xdiscovery.Service.{Service, ServiceList, recover}

abbrev gives : List Service → Text → Text → List Text → Option ServiceList
gives srvs service dc tags = some (list_of srvs)

abbrev any : QueryOpts
any = record { tags = []; dc = [] }

abbrev gray : QueryOpts
gray = record { tags = codes "gray" ∷ []; dc = [] }

balancer : Unit {0}
unfolding next check_of next_checked choose get_value locked_update update_sync store is_changed
    new_check_change build_load_balance upsert_all upsert_server upsert_new reset_state deref
    build_server_list positive add_up accumulate new_round_robin_weight next_server next_of_list
    search_loop weight_at copy copy_slice copy_map copy_health_check lookup insert text_eq add64
balancer = tt

first_call :
    (next (gives (node_a ∷ [])) no_gap (λ n. 0) (codes "order") any new_load_balance).1
    ≡ chosen node_a
first_call = unfold balancer in refl

-- The first version has the first node, the second version the second node.
abbrev release : Text → Stamps
release service watch_version zero mode = []
release service watch_version (suc zero) mode = node_a ∷ []
release service watch_version (suc (suc n)) mode = node_b ∷ []

abbrev first_query : Query
first_query = record {
  discovery = gives (node_a ∷ []);
  intn = λ n. 0;
  service = codes "order";
  opts = any;
}

abbrev newer : ServiceList
newer = record (list_of (node_b ∷ [])) { version = 2 }

abbrev second_query : Query
second_query = record first_query { discovery = λ service dc tags. some newer }

second_call :
    (next second_query.discovery no_gap
      (λ n. 0)
      (codes "order")
      any
      (run_queries (first_query ∷ []) new_load_balance)).1
    ≡ chosen node_b
second_call = unfold balancer in refl

first_published : IsAnswered release first_query
first_published list e =
    let same : list_of (node_a ∷ []) ≡ list = cc in
    subst (IsPublished (release (codes "order"))) same refl

run_queries-chosen_example :
    (lb : RoundRobinWeight) × (build_load_balance newer ≡ made lb)
    × (next_server (λ n. 0) lb ≡ ok node_b)
run_queries-chosen_example =
    run_queries-chosen release (first_query ∷ []) second_query newer node_b (λ k. refl)
      (first_published, tt) refl refl second_call

-- The second list has one other node, and the first list's balancer is asked.
next-reuses_example :
    let l' = (next (gives (node_a ∷ [])) no_gap (λ n. 0) (codes "order") any new_load_balance).0 in
    (lb : RoundRobinWeight) × (next_server (λ n. 0) lb ≡ ok node_a)
    × ((next (gives (node_b ∷ [])) no_gap (λ n. 1) (codes "order") gray l').1
        ≡ choose (λ n. 1) (some lb))
next-reuses_example =
    next-reuses (gives (node_a ∷ [])) (gives (node_b ∷ [])) (λ n. 0) (λ n. 1) (codes "order") any
      gray new_load_balance (list_of (node_a ∷ [])) (list_of (node_b ∷ [])) node_a tt refl refl
      (record { same_watch = refl; same_version = refl; same_mode = refl }) first_call

abbrev world : World Ratio
world = record {
  watch_list = λ service opts d. some (record d { apply_list = list_of (node_a ∷ []) });
  stopped_at = pos 1;
  started_at = pos 2;
  before_lock = λ d. d;
  waiting = λ d. d;
}

abbrev empty : Discoverer Ratio
empty = record { init_history_endpoints = none; degrade_opts = options; watchers = [] }

get_servers_with_dc-Served_example :
    let (d', a) = get_servers_with_dc (alone world) (codes "order") (codes "eu") [] empty in
    ((list : ServiceList) × (a ≡ answered list)
      × Served (watch_key (codes "order") (codes "eu")) [] empty d' list)
    ⊎ ((f : Failure) × (a ≡ refused f) × (d' ≡ empty))
get_servers_with_dc-Served_example =
    get_servers_with_dc-Served world (codes "order") (codes "eu") [] empty

watched :
    (get_servers_with_dc (alone world) (codes "order") [] [] empty).1
    ≡ answered (list_of (node_a ∷ []))
unfolding get_servers_with_dc watch_locked new_watch serve watch_get_list get_list filter_tags
    new_degrade update_opts with_history lookup insert blank watch_key
watched = refl

abbrev broken : World Ratio
broken = record world { watch_list = λ service opts d. none }

abbrev registry : Inner
registry service dc = some (list_of (node_b ∷ []))

abbrev backup : Map ServiceList
backup = (codes "order", list_of (node_a ∷ [])) ∷ []

recover_get_servers-mode_example :
    ((srvs : Map ServiceList)
      → srvs ≢ []
      → let (d', a) =
          recover_get_servers registry
            (codes "order")
            []
            []
            (set_recover (some srvs) wrap_with_recover_discovery) in
        ((list : ServiceList)
          → lookup (codes "order") srvs ≡ some list
          → a ≡ found (record list { run_mode = recover }))
        × ((lookup (codes "order") srvs ≡ none) → a ≡ not_exist_on_recover)
        × (has_key (codes "order") d'.watched_services ≡ true))
    × (let (d', a) =
          recover_get_servers registry
            (codes "order")
            []
            []
            (set_recover none wrap_with_recover_discovery) in
        ((list : ServiceList) → registry (codes "order") [] ≡ some list → a ≡ found list)
        × ((registry (codes "order") [] ≡ none) → a ≡ inner_failed)
        × (has_key (codes "order") d'.watched_services ≡ true))
recover_get_servers-mode_example =
    recover_get_servers-mode registry (codes "order") [] [] wrap_with_recover_discovery

abbrev recovering : WithRecoverDiscovery
recovering = record { watched_services = (codes "order", true) ∷ []; srvs = some backup }

all_found :
    get_all_watched_services registry recovering
    ≡ some ((codes "order", record (list_of (node_a ∷ [])) { run_mode = recover }) ∷ [])
unfolding get_all_watched_services get_all_loop recover_get_servers answer_of recovered lookup
    text_eq insert has_key
all_found = refl
