-- ===== src/Tests/RoundTests.antt =====
-- discovery/downgrade.go: rounds of the ping loop.
use xdiscovery.Degrade.SameIds.{count_id, list_same-count_id}
use xdiscovery.Degrade.Merge.{count_protected, is_protected, count_protected-gather}
use xdiscovery.Tests.{at, node_a, node_b, list_of}
use xdiscovery.Float.{Ratio, ratio}
use xdiscovery.Tests.DegradeTests.{network, protected, serving, clock}
use xdiscovery.Degrade.Outage.{hear_all, told_all, hear_all-recovers}
use xdiscovery.Degrade.Decision.{HasFailed}
use xdiscovery.Degrade.Entry.{online_part}
use xdiscovery.Degrade.Checked.{answering, HasFewHealthy, HasRecovered}
use xdiscovery.Degrade.Handlers.{start_self_protection}
use xdiscovery.Degrade.Update.{
  Clock, on_update_list, update_normal, store_latest, is_degraded, online_count, counted,
}
use xdiscovery.Degrade.{get_normal_services, get_normal_loop, is_offline, status_self_protection}
use xdiscovery.Degrade.Ping.{switch_status, finish_round, apply_health, keep_pinging}
use xdiscovery.Degrade.Nodes.{is_marked}
use xdiscovery.LoopList.{del_timeout, back}
use xdiscovery.Degrade.Ping.{continue_do_ping, PingArgs, is_below}
use xdiscovery.Degrade.Health.{
  healthy, Network, gather, no_reply, add_all, add_endpoint, is_used, check_health, node_address,
  format_port, list_same, same_ids, sort_by_id, insert_by_id,
}
use xdiscovery.Degrade.Rounds.{
  quiet_round, checked_list, continue_do_ping-recovers, continue_do_ping-serves,
  continue_do_ping-panics, continue_do_ping-stale,
}
use xdiscovery.Degrade.{Degrade, status_panic, status_normal, ctx_is_done}
use xdiscovery.Prelude.{
  ◌≡◌, refl, inl, true, List, lookup, has_key, insert, arith, false, some, [], ◌∷◌, pos, format_int,
  text_eq, text_lt, ◌↔◌, if◌then◌else◌, Text, codes,
}
use xdiscovery.Service.{ServiceList, panic, get_self_protection_id}

abbrev args : PingArgs
args = record {
  ctx = 0;
  health_check_version = 5;
  el = some (at (pos 100) (node_a ∷ node_b ∷ []));
  elstable = some (at (pos 100) (node_a ∷ node_b ∷ []));
}

-- No node answers.
abbrev dead : Network
dead = record {
  tcp_check = λ addr timeout. false;
  new_request = λ method url. true;
  http_do = λ method url header name timeout. no_reply;
}

abbrev only_a : Degrade Ratio
only_a = record protected { latest_adapter_list = list_of (node_a ∷ []) }

abbrev stopped : Degrade Ratio
stopped = record protected { cancelled = 0 ∷ [] }

checks : Unit {0}
unfolding healthy gather add_all add_endpoint is_used check_health node_address format_port
    format_int get_self_protection_id text_eq list_same same_ids sort_by_id insert_by_id text_lt
    is_below
checks = tt

-- The nodes a and b are to be checked, and a answers.
answering_a : answering network args protected ≡ node_a ∷ []
answering_a = unfold checks in refl

continue_do_ping-serves_example :
    let result = continue_do_ping ratio network args (pos 9) quiet_round protected in
    ((result.state.status ≡ status_self_protection) ↔ (
      (¬ HasFewHealthy ratio network args protected)
      × (¬ HasRecovered ratio network args protected)))
    × ((¬ HasFewHealthy ratio network args protected)
        → (¬ HasRecovered ratio network args protected)
        → result ≡ record {
          state = record protected {
            apply_list = checked_list args (answering network args protected) protected;
          };
          do_ping = true;
        })
continue_do_ping-serves_example =
    continue_do_ping-serves ratio network args (pos 9) protected refl (unfold ctx_is_done in refl)

stays_protected :
    (continue_do_ping ratio network args (pos 9) quiet_round protected).state.status
    ≡ status_self_protection
unfolding continue_do_ping switch_status finish_round apply_health keep_pinging ctx_is_done
stays_protected = unfold checks in refl

continue_do_ping-panics_example :
    let result = continue_do_ping ratio dead args (pos 9) quiet_round protected in
    ((result.state.status ≡ status_panic) ↔ HasFewHealthy ratio dead args protected)
    × (HasFewHealthy ratio dead args protected
        → result ≡ record {
          state = record protected {
            status = status_panic;
            apply_list = record protected.apply_list {
              run_mode = panic;
              services = node_a ∷ node_b ∷ [];
            };
          };
          do_ping = true;
        })
continue_do_ping-panics_example =
    continue_do_ping-panics ratio dead args (pos 9) protected refl (unfold ctx_is_done in refl)

few_healthy : HasFewHealthy ratio dead args protected
few_healthy = unfold checks in record { some_ = omega arith; few = refl }

-- The registry loses both nodes, then finds the first one, which is the one that answers.
abbrev one_back : List (Clock × ServiceList)
one_back = (clock, list_of (node_a ∷ [])) ∷ []

lost_all : HasFailed ratio clock serving (list_of [])
unfolding del_timeout is_marked is_offline lookup
lost_all = record { on = refl; base = at (pos 100) (node_a ∷ node_b ∷ []); held = refl; few = refl }

outage : Unit {0}
unfolding on_update_list update_normal store_latest is_degraded online_count counted has_key back
    del_timeout get_normal_services get_normal_loop is_offline lookup text_eq insert
    start_self_protection check_health node_address format_port format_int get_self_protection_id
outage = tt

enough_healthy :
    ¬ HasFewHealthy ratio network args (hear_all ratio ((clock, list_of []) ∷ one_back) serving)
enough_healthy h = unfold outage in (let no_ : false ≡ true = h.few in cc)

same_nodes :
    HasRecovered ratio network args (hear_all ratio ((clock, list_of []) ∷ one_back) serving)
same_nodes k = unfold outage in refl

hear_all-recovers_example :
    let s = hear_all ratio ((clock, list_of []) ∷ one_back) serving in
    let result = continue_do_ping ratio network args (pos 9) quiet_round s in
    (s.apply_list ≡ list_of (node_a ∷ node_b ∷ []))
    × (s.status ≡ status_self_protection)
    × (told_all ratio ((clock, list_of []) ∷ one_back) serving ≡ [])
    × (result.state.apply_list ≡ online_part (list_of (node_a ∷ [])))
    × (result.state.status ≡ status_normal)
    × (ctx_is_done 0 result.state.cancelled ≡ true)
    × (result.do_ping ≡ false)
hear_all-recovers_example =
    hear_all-recovers ratio clock (list_of []) one_back serving network args (pos 9) refl lost_all
      refl (unfold ctx_is_done in refl) enough_healthy same_nodes

continue_do_ping-recovers_example :
    let result = continue_do_ping ratio network args (pos 9) quiet_round only_a in
    (result.do_ping ≡ false)
    × (result.state.status ≡ status_normal)
    × (result.state.apply_list ≡ list_of (node_a ∷ []))
    × (result.state.cancelled ≡ 0 ∷ [])
continue_do_ping-recovers_example =
    continue_do_ping-recovers ratio network args (pos 9) only_a (inl (refl, unfold checks in refl))
      (unfold ctx_is_done in refl) refl (unfold checks in refl)

-- The loop of the context 0, which is done, and the protection of the context 1.
abbrev restarted : Degrade Ratio
restarted = record only_a { cancelled = 0 ∷ []; ping_ctx_cancel = some 1; contexts = 2 }

continue_do_ping-stale_example :
    let result = continue_do_ping ratio network args (pos 9) quiet_round restarted in
    (result.state.status ≡ status_normal)
    × (ctx_is_done 1 result.state.cancelled ≡ true)
    × (result.do_ping ≡ false)
continue_do_ping-stale_example =
    continue_do_ping-stale ratio network args (pos 9) restarted 1 refl (unfold checks in refl)
      (unfold checks in refl) refl

list_same-count_id_example :
    (list_same (node_a ∷ node_b ∷ []) (node_b ∷ node_a ∷ []) ≡ true)
    ↔ ((k : Text) → count_id k (node_a ∷ node_b ∷ []) ≡ count_id k (node_b ∷ node_a ∷ []))
list_same-count_id_example = list_same-count_id (node_a ∷ node_b ∷ []) (node_b ∷ node_a ∷ [])

same_either_way : list_same (node_a ∷ node_b ∷ []) (node_b ∷ node_a ∷ []) ≡ true
same_either_way = unfold checks in refl

count_protected-gather_example :
    count_protected (codes "order|10.0.0.1|80") (gather (node_a ∷ []) (node_a ∷ node_b ∷ []))
    ≡ (if is_protected (codes "order|10.0.0.1|80") (node_a ∷ node_a ∷ node_b ∷ []) then 1 else 0)
count_protected-gather_example =
    count_protected-gather (codes "order|10.0.0.1|80") (node_a ∷ []) (node_a ∷ node_b ∷ [])
