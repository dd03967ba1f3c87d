-- ===== src/Wrr/Total.antt =====
-- loadbalance/wrr/wrr.go: no call of UpsertServer or RemoveServer panics with weights that are not
-- negative.
use xdiscovery.Wrr.Filled.{HasWeights, reset_state_total}
use xdiscovery.Wrr.Places.{place_of}
use xdiscovery.Wrr.Removal.{remove_at}
use xdiscovery.Wrr.Insertion.{with_added-IsSound, with_added}
use xdiscovery.Wrr.Objects.{Indexed}
use xdiscovery.Service.{Service}
use xdiscovery.Wrr.Sound.{table_of}
use xdiscovery.Wrr.Table.{
  WrrCall, upserts, removes, call_tables, run_calls, call, call_table, has_id, weight_of, set_value,
}
use xdiscovery.Prelude.{
  ℕ, zero, suc, ◌+◌, ◌≡◌, refl, sym, ap, ◌∙◌, ◌≢◌, inl, inr, Bool, true, false, not, some, List, [],
  ◌∷◌, ◌++◌, arith, if◌then◌else◌, Bool-cases, Option-cases, ℤ, pos, negsuc, length, In, Text,
  leb_ℤ, select, lookup, ltb, get_elem?, set, text_eq, drop, take, delete,
}
use xdiscovery.Wrr.{
  Server, deref, or_default, reset_state, upsert_server, upsert_new, upsert_found, remove_server,
  decrement, RoundRobinWeight, ok, panicked, new_round_robin_weight,
}
use mathlib.Core.Path.{subst}
use xdiscovery.Wrr.Sound.{IsSound, table_of}
use xdiscovery.Wrr.Calls.{Result-cases, call-Follows, run_calls-table, new-IsSound}
use xdiscovery.Service.Copy.{copy}

-- No service to insert has a negative weight.
abbrev pub IsCounted : WrrCall → Type 0
IsCounted (upserts u) = leb_ℤ (pos 0) u.weight ≡ true
IsCounted (removes u) = Unit

abbrev pub AreCounted : List WrrCall → Type 0
AreCounted [] = Unit
AreCounted (c ∷ cs) = IsCounted c × AreCounted cs

HasWeights-append :
    (t : List (Text × ℤ)) (x : Text × ℤ)
    → HasWeights t
    → leb_ℤ x.1 (pos 0) ≡ false
    → HasWeights (t ++ x ∷ [])
HasWeights-append [] x h w = (w, tt)
HasWeights-append (y ∷ t) x (v, h) w = (v, HasWeights-append t x h w)

HasWeights-select :
    (keep : Text × ℤ → Bool) (t : List (Text × ℤ)) → HasWeights t → HasWeights (select keep t)
HasWeights-select keep [] h = tt
HasWeights-select keep (y ∷ t) (v, h) =
    let rest = HasWeights-select keep t h in
    elim (Bool-cases (keep y)) [
      | inl yes_ ↦
          subst (λ b. HasWeights (if b then y ∷ select keep t else select keep t)) (sym yes_)
            (v, rest)
      | inr no_ ↦
          subst (λ b. HasWeights (if b then y ∷ select keep t else select keep t)) (sym no_) rest
    ]

or_default_counted : (w : ℤ) → leb_ℤ (pos 0) w ≡ true → leb_ℤ (or_default w) (pos 0) ≡ false
or_default_counted (pos zero) h = refl
or_default_counted (pos (suc n)) h = ground arith
or_default_counted (negsuc n) h = absurd (ground arith)

-- The write of the default weight changes nothing.
weight_kept :
    (objects : List Server) (i : ℕ) (refs : List ℕ) (q : ℕ) (s : Server)
    → Indexed objects i refs
    → In q refs
    → get_elem? objects q ≡ some s
    → set objects q (record s { weight = or_default s.weight }) ≡ objects
weight_kept objects i refs q s h m at =
    ap (λ w. set objects q (record s { weight = w })) (weight_of objects i refs q s h m at)
    ∙ set_value objects q s at

index_in :
    (refs : List ℕ) (r n : ℕ) (pre post : List ℕ)
    → refs ≡ pre ++ r ∷ post
    → n ≡ length pre
    → ltb n (length refs) ≡ true
index_in refs r n [] post split at = subst (λ x. ltb n (length x) ≡ true) (sym split) (ground arith)
index_in refs r n (q ∷ qs) post split at =
    subst (λ x. ltb n (length x) ≡ true) (sym split)
      (let next = index_in (qs ++ r ∷ post) r (length qs) qs post refl refl in ground arith)

upsert_total :
    (u : Service) (r : RoundRobinWeight)
    → IsSound r
    → HasWeights (table_of r)
    → leb_ℤ (pos 0) u.weight ≡ true
    → upsert_server (some u) r ≢ panicked
unfolding upsert_server upsert_new upsert_found copy
upsert_total u r h all w e = elim (Option-cases (lookup u.id r.servers_map)) [
  | inl new ↦
      let (sound, table) = with_added-IsSound r u h new in
      let run : reset_state (with_added r u h new) ≡ panicked = ground arith in
      let more =
        HasWeights-append (table_of r) (u.id, or_default u.weight) all
          (or_default_counted u.weight w) in
      reset_state_total (with_added r u h new) (subst HasWeights (sym table) more) run
  | inr (ref, found) ↦
      let (m, (s, at, id)) = (h.keyed u.id ref).0 found in
      let same = weight_kept r.objects 0 r.servers ref s h.indexed m at in
      let run : reset_state
            (record r { objects = set r.objects ref (record s { weight = or_default s.weight }) })
          ≡ panicked =
        ground arith in
      reset_state_total r all (ap (λ o. reset_state (record r { objects = o })) (sym same) ∙ run)
]

remove_total :
    (u : Service) (r : RoundRobinWeight)
    → IsSound r
    → HasWeights (table_of r)
    → remove_server u r ≢ panicked
unfolding remove_server
remove_total u r h all e = elim (Option-cases (lookup u.id r.servers_map)) [
  | inl gone ↦ ground arith
  | inr (ref, found) ↦
      let (m, (s, at, id)) = (h.keyed u.id ref).0 found in
      let (sound, table) = remove_at r u ref s h found at in
      let next : RoundRobinWeight = record r {
        objects = decrement (drop (s.index + 1) r.servers) r.objects;
        servers = take s.index r.servers ++ drop (s.index + 1) r.servers;
        servers_map = delete u.id r.servers_map;
      } in
      let in_ : ltb s.index (length r.servers) ≡ true =
        (let (pre, post, split, at_) = place_of r.objects 0 r.servers ref s h.indexed m at in
          index_in r.servers ref s.index pre post split (omega (arith, at_))) in
      let run : reset_state next ≡ panicked = ground arith in
      let fewer = HasWeights-select (λ x. not (text_eq x.0 u.id)) (table_of r) all in
      reset_state_total next (subst HasWeights (sym table) fewer) run
]

call_total :
    (c : WrrCall) (r : RoundRobinWeight)
    → IsSound r
    → HasWeights (table_of r)
    → IsCounted c
    → call c r ≢ panicked
call_total (upserts u) r h all w = upsert_total u r h all w
call_total (removes u) r h all w = remove_total u r h all

HasWeights-call_table :
    (c : WrrCall) (t : List (Text × ℤ)) → HasWeights t → IsCounted c → HasWeights (call_table c t)
HasWeights-call_table (upserts u) t h w = elim (Bool-cases (has_id u.id t)) [
  | inl there ↦
      subst (λ b. HasWeights (if b then t else t ++ (u.id, or_default u.weight) ∷ [])) (sym there) h
  | inr missing ↦
      subst (λ b. HasWeights (if b then t else t ++ (u.id, or_default u.weight) ∷ [])) (sym missing)
        (HasWeights-append t (u.id, or_default u.weight) h (or_default_counted u.weight w))
]
HasWeights-call_table (removes u) t h w = HasWeights-select (λ x. not (text_eq x.0 u.id)) t h

HasWeights-call_tables :
    (cs : List WrrCall) (t : List (Text × ℤ))
    → HasWeights t
    → AreCounted cs
    → HasWeights (call_tables cs t)
HasWeights-call_tables [] t h w = h
HasWeights-call_tables (c ∷ cs) t h (w, ws) =
    HasWeights-call_tables cs (call_table c t) (HasWeights-call_table c t h w) ws

run_calls_total :
    (cs : List WrrCall) (r : RoundRobinWeight)
    → IsSound r
    → HasWeights (table_of r)
    → AreCounted cs
    → (r' : RoundRobinWeight) × (run_calls cs r ≡ ok r')
run_calls_total [] r h all w = (r, refl)
run_calls_total (c ∷ cs) r h all (w, ws) = elim (Result-cases (call c r)) [
  | inl (n, fine) ↦
      let step = call-Follows c r h fine in
      let (r', run) =
        run_calls_total cs n step.sound
          (subst HasWeights (sym step.table) (HasWeights-call_table c (table_of r) all w)) ws in
      (r', ground arith)
  | inr (inl (f, fails)) ↦ let (r', run) = run_calls_total cs r h all ws in (r', ground arith)
  | inr (inr stops) ↦ absurd (call_total c r h all w stops)
]

-- Upserts of services with weights that are not negative, and removals, in any order on a new
-- balancer, never panic: the calls come to an end with a balancer that has just the rows of the
-- table that gets the same calls: an upsert adds a row at the end, with the weight of the service
-- or 1 for 0, if there is none for the id, and changes nothing otherwise; a removal takes out the
-- row. Each weight is positive, the index of each object is its place, and the map has just the
-- servers of the slice.
pub run_calls-completes :
    (cs : List WrrCall)
    → AreCounted cs
    → (r : RoundRobinWeight) × (run_calls cs new_round_robin_weight ≡ ok r)
      × (table_of r ≡ call_tables cs [])
      × IsSound r
      × HasWeights (table_of r)
unfolding new_round_robin_weight deref lookup
run_calls-completes cs w =
    let (r, run) = run_calls_total cs new_round_robin_weight new-IsSound tt w in
    let (table, sound) = run_calls-table cs run in
    (r, run, table, sound, subst HasWeights (sym table) (HasWeights-call_tables cs [] tt w))
