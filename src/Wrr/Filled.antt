-- ===== src/Wrr/Filled.antt =====
-- loadbalance/wrr/wrr.go: the building of the list with positive weights, which never panics.
use xdiscovery.Wrr.Sound.{table_of}
use xdiscovery.Prelude.{
  suc, ◌-◌, ◌≡◌, refl, ap, ◌∙◌, ◌≢◌, false, some, List, [], ◌∷◌, arith, ℤ, pos, length, Text, map,
  leb_ℤ, add64,
}
use xdiscovery.Wrr.{
  Server, ServerList, deref, positive, accumulate, add_up, build_server_list, reset_state,
  RoundRobinWeight, panicked,
}
use xdiscovery.Wrr.Sound.{table_of}

-- No weight of the table is negative or 0.
abbrev pub HasWeights : List (Text × ℤ) → Type 0
HasWeights [] = Unit
HasWeights (x ∷ t) = (leb_ℤ x.1 (pos 0) ≡ false) × HasWeights t

abbrev rows : List Server → List (Text × ℤ)
rows vs = map (λ (s : Server). (s.service.id, s.weight)) vs

positive_all : (vs : List Server) → HasWeights (rows vs) → positive vs ≡ vs
unfolding positive
positive_all [] h = refl
positive_all (v ∷ vs) (w, h) = let rest = positive_all vs h in ground arith

accumulate_total :
    (vs : List Server) (before : ℤ)
    → (rest : List Server) × (accumulate (length vs) before vs ≡ some rest)
unfolding accumulate
accumulate_total [] before = ([], refl)
accumulate_total (v ∷ vs) before =
    let weight = add64 v.weight before in
    let (rest, run) = accumulate_total vs weight in
    (record v { weight = weight } ∷ rest, ground arith)

build_server_list_total :
    (vs : List Server) → HasWeights (rows vs) → (s : ServerList) × (build_server_list vs ≡ some s)
unfolding build_server_list add_up
build_server_list_total [] h = ([], unfold positive in refl)
build_server_list_total (v ∷ vs) h =
    let all = positive_all (v ∷ vs) h in
    let (rest, run) = accumulate_total vs v.weight in
    let one_less : suc (length vs) - 1 ≡ length vs = omega arith in
    let run' : accumulate (suc (length vs) - 1) v.weight vs ≡ some rest =
      ap (λ n. accumulate n v.weight vs) one_less ∙ run in
    let filled : add_up (suc (length vs)) (v ∷ vs) ≡ some (v ∷ rest) = ground arith in
    (v ∷ rest, ap (add_up (suc (length vs))) all ∙ filled)

pub reset_state_total : (r : RoundRobinWeight) → HasWeights (table_of r) → reset_state r ≢ panicked
unfolding reset_state
reset_state_total r h e =
    let (s, built) = build_server_list_total (deref r.objects r.servers) h in ground arith
