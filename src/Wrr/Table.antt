-- ===== src/Wrr/Table.antt =====
-- loadbalance/wrr/wrr.go: the balancer as an ordered table of ids and weights.
use xdiscovery.Wrr.{Result, ok, err, panicked}
use xdiscovery.Service.Copy.{copy}
use xdiscovery.Service.{Service}
use xdiscovery.Wrr.{
  Server, deref, or_default, upsert_server, remove_server, RoundRobinWeight, ok, Result, ServerList,
  upsert_new, reset_state, upsert_found, err, decrement,
}
use mathlib.Core.Path.{subst}
use xdiscovery.Wrr.Objects.{Indexed, view, view_cons}
use xdiscovery.Wrr.Sound.{HasId, IsSound, table_of, reset_state_kept}
use xdiscovery.Wrr.Removal.{remove_at}
use xdiscovery.Wrr.Insertion.{with_added, with_added-IsSound}
use xdiscovery.Prelude.{
  ℕ, zero, suc, ◌+◌, ◌≡◌, refl, sym, ap, ◌∙◌, ◌↔◌, inl, inr, Bool, true, false, not, Option, none,
  some, List, [], ◌∷◌, ◌++◌, arith, if◌then◌else◌, Bool-cases, Option-cases, ℤ, length, In, Text,
  text_eq, get_elem?, select, text_eq→≡, set, text_eq_iff, lookup, drop, take, delete, ltb,
}

pub data WrrCall : Type 0 where
  upserts removes : Service → WrrCall

-- A call of the balancer.
abbrev pub call : WrrCall → RoundRobinWeight → Result RoundRobinWeight
call (upserts u) r = upsert_server (some u) r
call (removes u) r = remove_server u r

-- Calls one after the other: an error leaves the balancer as it was.
abbrev pub run_calls : List WrrCall → RoundRobinWeight → Result RoundRobinWeight
run_calls [] r = ok r
run_calls (c ∷ cs) r = elim (call c r) [
  | ok r' ↦ run_calls cs r'
  | err e ↦ run_calls cs r
  | panicked ↦ panicked
]

abbrev pub has_id : Text → List (Text × ℤ) → Bool
has_id id [] = false
has_id id ((k, w) ∷ t) = if text_eq k id then true else has_id id t

-- The call on the table: an upsert adds a row with an id that is not there at the end, a removal
-- takes out the row with the id.
abbrev pub call_table : WrrCall → List (Text × ℤ) → List (Text × ℤ)
call_table (upserts u) t = if has_id u.id t then t else t ++ (u.id, or_default u.weight) ∷ []
call_table (removes u) t = select (λ x. not (text_eq x.0 u.id)) t

abbrev pub call_tables : List WrrCall → List (Text × ℤ) → List (Text × ℤ)
call_tables [] t = t
call_tables (c ∷ cs) t = call_tables cs (call_table c t)

has_view :
    (objects : List Server) (i : ℕ) (refs : List ℕ) (id : Text)
    → Indexed objects i refs
    → (has_id id (view objects refs) ≡ true) ↔ ((q : ℕ) × In q refs × HasId objects q id)
unfolding deref
has_view objects i [] id h = (λ e. absurd (cc), λ (q, m, x). absurd m)
has_view objects i (r ∷ rs) id ((s, at, place, weight), more) =
    let (f, g) = has_view objects (i + 1) rs id more in
    let split = ap (has_id id) (view_cons objects r rs at) in
    let choose : Bool → Bool = λ b. if b then true else has_id id (view objects rs) in
    elim (Bool-cases (text_eq s.service.id id)) [
      | inl same ↦
          (λ e. (r, inl refl, (s, at, text_eq→≡ s.service.id id same)), λ z. split ∙ ap choose same)
      | inr other ↦ (
        λ e. (let (q, m, x) = f (sym (split ∙ ap choose other) ∙ e) in (q, inr m, x)),
        λ (q, m, (t, there, is_id)). elim m [
          | inl here ↦
              let both : some s ≡ some t = sym at ∙ ap (get_elem? objects) here ∙ there in
              let ids : s.service.id ≡ t.service.id =
                ap (λ o. elim o [ none ↦ [] | some x ↦ x.service.id ]) both in
              absurd (
                let yes_ = (text_eq_iff s.service.id id).1 (ids ∙ is_id) in
                let no_ : true ≡ false = sym yes_ ∙ other in cc)
          | inr later ↦ split ∙ ap choose other ∙ g (q, later, (t, there, is_id))
        ],
      )
    ]

-- Only the built list differs.
pub relist :
    (r : RoundRobinWeight) (l : Option ServerList)
    → IsSound r
    → IsSound (record r { server_list = l })
relist r l h = record { indexed = h.indexed; distinct = h.distinct; keyed = h.keyed }

-- A call without an error follows the table.
pub record Follows (t : List (Text × ℤ)) (r' : RoundRobinWeight) : Type 0 where
  pub sound : IsSound r'
  pub table : table_of r' ≡ t

pub reset-Follows :
    (t : List (Text × ℤ)) (r : RoundRobinWeight) {r' : RoundRobinWeight}
    → IsSound r
    → table_of r ≡ t
    → reset_state r ≡ ok r'
    → Follows t r'
reset-Follows t r {r'} h table e =
    let same = reset_state_kept r e in
    subst (Follows t) (sym same) (record { sound = relist r r'.server_list h; table = table })

pub set_value : (xs : List Server) (i : ℕ) (s : Server) → get_elem? xs i ≡ some s → set xs i s ≡ xs
set_value [] i s h = refl
set_value (x ∷ xs) zero s h = let same : x ≡ s = cc in ap (λ y. y ∷ xs) (sym same)
set_value (x ∷ xs) (suc i) s h = ap (λ t. x ∷ t) (set_value xs i s h)

pub weight_of :
    (objects : List Server) (i : ℕ) (refs : List ℕ) (q : ℕ) (s : Server)
    → Indexed objects i refs
    → In q refs
    → get_elem? objects q ≡ some s
    → or_default s.weight ≡ s.weight
weight_of objects i (r ∷ rs) q s ((t, at, place, weight), more) (inl here) there =
    let both : some t ≡ some s = sym at ∙ ap (get_elem? objects) here ∙ there in
    let same : t ≡ s = cc in subst (λ (x : Server). or_default x.weight ≡ x.weight) same weight
weight_of objects i (r ∷ rs) q s (h, more) (inr m) there =
    weight_of objects (i + 1) rs q s more m there
weight_of objects i [] q s h m there = absurd m

pub upsert-Follows :
    (u : Service) (r : RoundRobinWeight) {r' : RoundRobinWeight}
    → IsSound r
    → upsert_server (some u) r ≡ ok r'
    → Follows (call_table (upserts u) (table_of r)) r'
unfolding upsert_server upsert_new upsert_found copy
upsert-Follows u r {r'} h e =
    let seen = has_view r.objects 0 r.servers u.id h.indexed in
    let choose : Bool → List (Text × ℤ) =
      λ b. if b then table_of r else table_of r ++ (u.id, or_default u.weight) ∷ [] in
    elim (Option-cases (lookup u.id r.servers_map)) [
      | inl new ↦
          let (sound, table) = with_added-IsSound r u h new in
          let run : reset_state (with_added r u h new) ≡ ok r' = ground arith in
          let absent : has_id u.id (table_of r) ≡ false =
            elim (Bool-cases (has_id u.id (table_of r))) [
              | inl there ↦
                  let (q, m, x) = seen.0 there in
                  absurd (let no_ : none ≡ some q = sym new ∙ (h.keyed u.id q).1 (m, x) in cc)
              | inr missing ↦ missing
            ] in
          reset-Follows (choose (has_id u.id (table_of r))) (with_added r u h new) sound
            (table ∙ ap choose (sym absent)) run
      | inr (ref, found) ↦
          let (m, (s, at, id)) = (h.keyed u.id ref).0 found in
          let weight = weight_of r.objects 0 r.servers ref s h.indexed m at in
          let written = set r.objects ref (record s { weight = or_default s.weight }) in
          let same : written ≡ r.objects =
            ap (λ w. set r.objects ref (record s { weight = w })) weight
            ∙ set_value r.objects ref s at in
          let run : reset_state (record r { objects = written }) ≡ ok r' = ground arith in
          let run' : reset_state r ≡ ok r' =
            ap (λ o. reset_state (record r { objects = o })) (sym same) ∙ run in
          let there = seen.1 (ref, m, (s, at, id)) in
          reset-Follows (choose (has_id u.id (table_of r))) r h (ap choose (sym there)) run'
    ]

pub remove-Follows :
    (u : Service) (r : RoundRobinWeight) {r' : RoundRobinWeight}
    → IsSound r
    → remove_server u r ≡ ok r'
    → Follows (call_table (removes u) (table_of r)) r'
unfolding remove_server
remove-Follows u r {r'} h e = elim (Option-cases (lookup u.id r.servers_map)) [
  | inl gone ↦ absurd (ground arith)
  | inr (ref, found) ↦
      let (m, (s, at, id)) = (h.keyed u.id ref).0 found in
      let (sound, table) = remove_at r u ref s h found at in
      let next : RoundRobinWeight = record r {
        objects = decrement (drop (s.index + 1) r.servers) r.objects;
        servers = take s.index r.servers ++ drop (s.index + 1) r.servers;
        servers_map = delete u.id r.servers_map;
      } in
      elim (Bool-cases (ltb s.index (length r.servers))) [
        | inr out ↦ absurd (ground arith)
        | inl in_ ↦
            let run : reset_state next ≡ ok r' = ground arith in
            reset-Follows (call_table (removes u) (table_of r)) next sound table run
      ]
]
