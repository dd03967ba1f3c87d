-- ===== src/Tests/WrrTests.antt =====
-- loadbalance/wrr/wrr.go: runs.
use xdiscovery.Wrr.Total.{run_calls-completes}
use xdiscovery.Wrr.Filled.{HasWeights}
use xdiscovery.Wrr.Sound.{table_of, IsSound}
use xdiscovery.Wrr.Table.{WrrCall, upserts, removes, run_calls, call_tables}
use xdiscovery.Wrr.{ok, RoundRobinWeight, new_round_robin_weight}
use xdiscovery.Prelude.{
  ◌≡◌, refl, inl, inr, none, some, [], ◌∷◌, arith, pos, negsuc, add64, List, codes, text_eq,
}
use xdiscovery.Service.{Service}
use xdiscovery.Wrr.{
  Server, ServerList, build_server_list, next_of_list, ok, positive, accumulate, add_up,
  search_loop, weight_at,
}
use xdiscovery.Wrr.Build.{pick, next_of_list-pick}
use xdiscovery.Wrr.Panic.{build_server_list-panics}
use xdiscovery.Tests.{node_a, node_b, node_off}

abbrev server_a : Server
server_a = record { service = node_a; weight = pos 2; index = 0 }

abbrev server_b : Server
server_b = record { service = node_b; weight = pos 3; index = 1 }

abbrev built : ServerList
built = server_a ∷ record server_b { weight = pos 5 } ∷ []

build_two : build_server_list (server_a ∷ server_b ∷ []) ≡ some built
unfolding build_server_list positive accumulate add_up add64
build_two = refl

next_of_list-pick_example :
    (u : Service) × (pick 3 (server_a ∷ server_b ∷ []) ≡ some u)
    × (next_of_list (λ n. 3) built ≡ ok (some u))
next_of_list-pick_example =
    next_of_list-pick (λ n. 3) server_a (server_b ∷ []) (omega arith) (omega arith) (omega arith)
      build_two

second : next_of_list (λ n. 2) built ≡ ok (some node_b)
unfolding next_of_list search_loop weight_at
second = refl

build_server_list-panics_example :
    build_server_list (server_a ∷ record server_b { weight = negsuc 0 } ∷ []) ≡ none
build_server_list-panics_example =
    build_server_list-panics (record server_b { weight = negsuc 0 })
      (server_a ∷ record server_b { weight = negsuc 0 } ∷ []) (omega arith) (inr (inl refl)) refl

abbrev changes : List WrrCall
changes =
    upserts node_a
    ∷ upserts node_b
    ∷ removes node_off
    ∷ upserts node_a
    ∷ removes node_a
    ∷ upserts (record node_off { weight = pos 0 })
    ∷ []

run_calls-completes_example :
    (r : RoundRobinWeight) × (run_calls changes new_round_robin_weight ≡ ok r)
    × (table_of r ≡ call_tables changes [])
    × IsSound r
    × HasWeights (table_of r)
run_calls-completes_example =
    run_calls-completes changes (refl, (refl, (tt, (refl, (tt, (refl, tt))))))

two_rows : call_tables changes [] ≡ (codes "b", pos 3) ∷ (codes "c", pos 1) ∷ []
unfolding text_eq
two_rows = refl
