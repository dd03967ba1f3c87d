-- ===== src/Wrr/Calls.antt =====
-- loadbalance/wrr/wrr.go: any calls of UpsertServer and RemoveServer on a new balancer.
use xdiscovery.Wrr.Table.{
  WrrCall, upserts, removes, call, run_calls, call_table, call_tables, Follows, upsert-Follows,
  remove-Follows,
}
use xdiscovery.Wrr.{Error, Result, ok, err, panicked, new_round_robin_weight, build_server_list}
use xdiscovery.Service.Copy.{copy}
use xdiscovery.Service.{Service}
use xdiscovery.Wrr.{
  deref, or_default, upsert_server, remove_server, RoundRobinWeight, ok, Result, upsert_new,
  reset_state, upsert_found, err, decrement,
}
use mathlib.Core.Path.{subst}
use xdiscovery.Wrr.Sound.{IsSound, table_of}
use xdiscovery.Wrr.Removal.{select-view}
use xdiscovery.Prelude.{
  ℕ, ◌+◌, ◌≡◌, refl, sym, ap, ◌∙◌, ◌≢◌, ◌⊎◌, inl, inr, none, some, List, [], ◌∷◌, ◌++◌, arith,
  Bool-cases, Option-cases, length, get_elem?, set, lookup, drop, take, delete, ltb, insert,
}

pub Result-cases :
    {A : Type 0} (x : Result A)
    → ((a : A) × (x ≡ ok a)) ⊎ ((e : Error) × (x ≡ err e)) ⊎ (x ≡ panicked)
Result-cases (ok a) = inl (a, refl)
Result-cases (err e) = inr (inl (e, refl))
Result-cases panicked = inr (inr refl)

reset_state_err : (r : RoundRobinWeight) {e : Error} → reset_state r ≢ err e
unfolding reset_state
reset_state_err r h = elim (Option-cases (build_server_list (deref r.objects r.servers))) [
  | inl fails ↦ ground arith
  | inr (s, built) ↦ ground arith
]

upsert_new_err : (u : Service) (r : RoundRobinWeight) {e : Error} → upsert_new u r ≢ err e
unfolding upsert_new copy
upsert_new_err u r h =
    reset_state_err
      (record r {
        objects =
            r.objects
            ++ record { service = copy u; weight = or_default u.weight; index = length r.servers }
              ∷ [];
        servers = r.servers ++ length r.objects ∷ [];
        servers_map = insert u.id (length r.objects) r.servers_map;
      })
      h

upsert_found_err : (ref : ℕ) (r : RoundRobinWeight) {e : Error} → upsert_found ref r ≢ err e
unfolding upsert_found
upsert_found_err ref r {e} h = elim (Option-cases (get_elem? r.objects ref)) [
  | inl gone ↦ ground arith
  | inr (s, at) ↦
      let next : RoundRobinWeight = record r {
        objects = set r.objects ref (record s { weight = or_default s.weight });
      } in
      let run : reset_state next ≡ err e = ground arith in reset_state_err next run
]

-- The only error is that a server to remove is not there.
pub call_failed :
    (c : WrrCall) (r : RoundRobinWeight) {e : Error}
    → IsSound r
    → call c r ≡ err e
    → call_table c (table_of r) ≡ table_of r
unfolding upsert_server remove_server
call_failed (upserts u) r {e} h f = elim (Option-cases (lookup u.id r.servers_map)) [
  | inl new ↦ let run : upsert_new u r ≡ err e = ground arith in absurd (upsert_new_err u r run)
  | inr (ref, found) ↦
      let run : upsert_found ref r ≡ err e = ground arith in absurd (upsert_found_err ref r run)
]
call_failed (removes u) r {e} h f = elim (Option-cases (lookup u.id r.servers_map)) [
  | inl gone ↦
      select-view r.objects 0 r.servers u.id h.indexed
        (λ q m has. (let no_ : none ≡ some q = sym gone ∙ (h.keyed u.id q).1 (m, has) in cc))
  | inr (ref, found) ↦ elim (Option-cases (get_elem? r.objects ref)) [
    | inl nothing ↦ absurd (ground arith)
    | inr (s, at) ↦
        let next : RoundRobinWeight = record r {
          objects = decrement (drop (s.index + 1) r.servers) r.objects;
          servers = take s.index r.servers ++ drop (s.index + 1) r.servers;
          servers_map = delete u.id r.servers_map;
        } in
        elim (Bool-cases (ltb s.index (length r.servers))) [
          | inr out ↦ absurd (ground arith)
          | inl in_ ↦
              let run : reset_state next ≡ err e = ground arith in absurd (reset_state_err next run)
        ]
  ]
]

pub call-Follows :
    (c : WrrCall) (r : RoundRobinWeight) {r' : RoundRobinWeight}
    → IsSound r
    → call c r ≡ ok r'
    → Follows (call_table c (table_of r)) r'
call-Follows (upserts u) r h e = upsert-Follows u r h e
call-Follows (removes u) r h e = remove-Follows u r h e

run_calls-Follows :
    (cs : List WrrCall) (r : RoundRobinWeight) {r' : RoundRobinWeight}
    → IsSound r
    → run_calls cs r ≡ ok r'
    → Follows (call_tables cs (table_of r)) r'
run_calls-Follows [] r {r'} h e =
    let same : r ≡ r' = ap (λ x. elim x [ ok a ↦ a | err f ↦ r | panicked ↦ r ]) e in
    subst (Follows (table_of r)) same (record { sound = h; table = refl })
run_calls-Follows (c ∷ cs) r {r'} h e = elim (Result-cases (call c r)) [
  | inl (n, fine) ↦
      let step = call-Follows c r h fine in
      let run : run_calls cs n ≡ ok r' = ground arith in
      subst (λ t. Follows (call_tables cs t) r') step.table (run_calls-Follows cs n step.sound run)
  | inr (inl (f, fails)) ↦
      let run : run_calls cs r ≡ ok r' = ground arith in
      subst (λ t. Follows (call_tables cs t) r') (sym (call_failed c r h fails))
        (run_calls-Follows cs r h run)
  | inr (inr stops) ↦ absurd (ground arith)
]

pub new-IsSound : IsSound new_round_robin_weight
unfolding new_round_robin_weight lookup
new-IsSound = record {
  indexed = tt;
  distinct = tt;
  keyed = λ k q. (λ h. absurd (cc), λ (m, h). absurd m);
}

-- After any upserts and removals on a new balancer, as long as none panics, its slice has just the
-- ids and weights of an ordered table that gets the same calls: an upsert adds a row at the end,
-- with the weight of the service or 1 for 0, if there is none for the id, and changes nothing
-- otherwise; a removal takes out the row. The index of each object is its place, and the map has
-- just the servers of the slice.
pub run_calls-table :
    (cs : List WrrCall) {r : RoundRobinWeight}
    → run_calls cs new_round_robin_weight ≡ ok r
    → (table_of r ≡ call_tables cs []) × IsSound r
unfolding new_round_robin_weight lookup deref
run_calls-table cs {r} e =
    let end_ = run_calls-Follows cs new_round_robin_weight new-IsSound e in (end_.table, end_.sound)
