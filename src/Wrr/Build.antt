-- ===== src/Wrr/Build.antt =====
-- loadbalance/wrr/wrr.go: the list of `buildServerList`, and the choice by weight of `nextServer`.
use xdiscovery.Prelude.{
  get_elem?, add64, pos_part, neg_part, ◌+ℤ◌, ℕ, zero, suc, ◌+◌, ◌-◌, ◌≤◌, ◌<◌, ◌≡◌, refl, ap, ◌∙◌,
  true, Option, none, some, List, [], ◌∷◌, arith, if◌then◌else◌, pos, length, All, ltb,
}
use xdiscovery.Service.{Service}
use xdiscovery.Wrr.{
  add_up, Server, ServerList, ok, positive, accumulate, build_server_list, weight_at, search_loop,
  next_of_list,
}
use xdiscovery.Wrr.Search.{Splits, is_passed, search_loop-Splits}

abbrev pub IsPositive : Server → Type 0
IsPositive s = (0 < pos_part s.weight) × (neg_part s.weight ≡ 0)

abbrev pub total : List Server → ℕ
total [] = 0
total (s ∷ ss) = pos_part s.weight + total ss

-- The server in whose share the value falls, when the servers' weights are laid end to end.
pub pick : ℕ → List Server → Option Service
pick val [] = none
pick val (s ∷ ss) =
    let rest = pick (val - pos_part s.weight) ss in
    if ltb val (pos_part s.weight) then some s.service else rest

-- Each weight becomes the end of its share.
pub prefix : ℕ → List Server → ServerList
prefix b [] = []
prefix b (s ∷ ss) =
    record s { weight = pos (b + pos_part s.weight) } ∷ prefix (b + pos_part s.weight) ss

positive_of_All : (ss : List Server) → All IsPositive ss → positive ss ≡ ss
unfolding positive
positive_of_All [] h = refl
positive_of_All (s ∷ ss) h = ground (arith, positive_of_All ss h.1)

sum_exact :
    (s : Server) (b : ℕ)
    → IsPositive s
    → b + pos_part s.weight < 9223372036854775808
    → add64 s.weight (pos b) ≡ pos (b + pos_part s.weight)
unfolding add64 ◌+ℤ◌
sum_exact s b h k = ground arith

accumulate-prefix :
    (vs : List Server) (b : ℕ)
    → All IsPositive vs
    → b + total vs < 9223372036854775808
    → accumulate (length vs) (pos b) vs ≡ some (prefix b vs)
unfolding accumulate prefix
accumulate-prefix [] b h k = refl
accumulate-prefix (v ∷ vs) b h k =
    let exact = sum_exact v b h.0 (omega arith) in
    let rest = accumulate-prefix vs (b + pos_part v.weight) h.1 (omega arith) in ground arith

add_up_lem :
    (n : ℕ) (v : Server) (vs rest : List Server)
    → accumulate (n - 1) v.weight vs ≡ some rest
    → add_up n (v ∷ vs) ≡ some (v ∷ rest)
unfolding add_up
add_up_lem n v vs rest h = ground arith

first_weight : (v : Server) → IsPositive v → v ≡ record v { weight = pos (0 + pos_part v.weight) }
first_weight v h = ground arith

-- Positive weights whose sum fits an int give every server its share.
pub build_server_list-prefix :
    (ss : List Server)
    → All IsPositive ss
    → total ss < 9223372036854775808
    → build_server_list ss ≡ some (prefix 0 ss)
unfolding build_server_list prefix
build_server_list-prefix [] h k = unfold positive add_up in refl
build_server_list-prefix (v ∷ vs) h k =
    let rest = accumulate-prefix vs (0 + pos_part v.weight) h.1 (omega arith) in
    let one_less : suc (length vs) - 1 ≡ length vs = omega arith in
    let start : v.weight ≡ pos (0 + pos_part v.weight) =
      ap (λ (x : Server). x.weight) (first_weight v h.0) in
    let filled : accumulate (suc (length vs) - 1) v.weight vs
        ≡ some (prefix (0 + pos_part v.weight) vs) =
      ap (λ n. accumulate n v.weight vs) one_less
      ∙ ap (λ w. accumulate (length vs) w vs) start
      ∙ rest in
    ap (add_up (suc (length vs))) (positive_of_All (v ∷ vs) h)
    ∙ add_up_lem (suc (length vs)) v vs (prefix (0 + pos_part v.weight) vs) filled
    ∙ ap (λ x. some (x ∷ prefix (0 + pos_part v.weight) vs)) (first_weight v h.0)

length-prefix : (b : ℕ) (ss : List Server) → length (prefix b ss) ≡ length ss
unfolding prefix
length-prefix b [] = refl
length-prefix b (s ∷ ss) = ap suc (length-prefix (b + pos_part s.weight) ss)

last_weight :
    (b : ℕ) (s : Server) (ss : List Server)
    → weight_at (prefix b (s ∷ ss)) (length ss) ≡ pos (b + total (s ∷ ss))
unfolding prefix weight_at
last_weight b s [] = ground arith
last_weight b s (x ∷ ss) = last_weight (b + pos_part s.weight) x ss ∙ ap pos (omega arith)

above_base :
    (b : ℕ) (ss : List Server) (j : ℕ) → j < length ss → b ≤ pos_part (weight_at (prefix b ss) j)
unfolding prefix weight_at
above_base b [] j h = absurd (omega arith)
above_base b (s ∷ ss) zero h = omega arith
above_base b (s ∷ ss) (suc j) h =
    omega (arith, above_base (b + pos_part s.weight) ss j (omega arith))

weight_pos : (b : ℕ) (ss : List Server) (j : ℕ) → neg_part (weight_at (prefix b ss) j) ≡ 0
unfolding prefix weight_at
weight_pos b [] j = refl
weight_pos b (s ∷ ss) zero = refl
weight_pos b (s ∷ ss) (suc j) = weight_pos (b + pos_part s.weight) ss j

prefix-rising :
    (b : ℕ) (ss : List Server) (i j : ℕ)
    → i ≤ j
    → j < length ss
    → pos_part (weight_at (prefix b ss) i) ≤ pos_part (weight_at (prefix b ss) j)
unfolding prefix weight_at
prefix-rising b [] i j h k = absurd (omega arith)
prefix-rising b (s ∷ ss) zero zero h k = omega arith
prefix-rising b (s ∷ ss) zero (suc j) h k = above_base (b + pos_part s.weight) ss j (omega arith)
prefix-rising b (s ∷ ss) (suc i) zero h k = absurd (omega arith)
prefix-rising b (s ∷ ss) (suc i) (suc j) h k =
    prefix-rising (b + pos_part s.weight) ss i j (omega arith) (omega arith)

-- What is at the split of a value is what the value picks.
split-pick :
    (b val r : ℕ) (ss : List Server)
    → val < total ss
    → Splits (prefix b ss) (pos (b + val)) r
    → (e : Server) × (get_elem? (prefix b ss) r ≡ some e) × (pick val ss ≡ some e.service)
unfolding prefix pick weight_at
split-pick b val r [] h sp = absurd (omega arith)
split-pick b val zero (s ∷ ss) h sp =
    let ahead = sp.from_here 0 (omega arith) (omega arith) in
    (record s { weight = pos (b + pos_part s.weight) }, refl, ground arith)
split-pick b val (suc r) (s ∷ ss) h sp =
    let passed = sp.before 0 (omega arith) in
    let here_passed : pos_part s.weight ≤ val = ground arith in
    let same : b + val ≡ b + pos_part s.weight + (val - pos_part s.weight) = omega arith in
    let tail : Splits (prefix (b + pos_part s.weight) ss)
        (pos (b + pos_part s.weight + (val - pos_part s.weight))) r =
      record {
        inside = omega (arith, sp.inside);
        before = λ i k. rw (← same) (sp.before (suc i) (omega arith));
        from_here = λ i k l. rw (← same) (sp.from_here (suc i) (omega arith) (omega arith));
      } in
    let (e, found, picked) =
      split-pick (b + pos_part s.weight) (val - pos_part s.weight) r ss (omega arith) tail in
    (e, found, ground arith)

passed_down :
    (b val : ℕ) (ss : List Server) (i j : ℕ)
    → i ≤ j
    → j < length (prefix b ss)
    → is_passed (prefix b ss) (pos val) j ≡ true
    → is_passed (prefix b ss) (pos val) i ≡ true
passed_down b val ss i j h k p = ground (
  arith,
  prefix-rising b ss i j h (omega (arith, length-prefix b ss)),
  weight_pos b ss i,
  weight_pos b ss j,
)

next_of_cons :
    (intn : ℕ → ℕ) (c : Server) (cs : List Server) (w : ℕ) (e : Server)
    → weight_at (c ∷ cs) (length (c ∷ cs) - 1) ≡ pos w
    → 0 < w
    → get_elem? (c ∷ cs) (search_loop (length (c ∷ cs)) (c ∷ cs) (pos (intn w)) 0 (length (c ∷ cs)))
      ≡ some e
    → next_of_list intn (c ∷ cs) ≡ ok (some e.service)
unfolding next_of_list
next_of_cons intn c cs w e last above found = ground arith

chosen :
    (intn : ℕ → ℕ) (s : Server) (ss : List Server)
    → All IsPositive (s ∷ ss)
    → total (s ∷ ss) < 9223372036854775808
    → intn (total (s ∷ ss)) < total (s ∷ ss)
    → (u : Service) × (pick (intn (total (s ∷ ss))) (s ∷ ss) ≡ some u)
      × (next_of_list intn (prefix 0 (s ∷ ss)) ≡ ok (some u))
unfolding prefix
chosen intn s ss h k random =
    let val = intn (total (s ∷ ss)) in
    let cs = prefix 0 (s ∷ ss) in
    let n : length cs ≡ suc (length ss) = length-prefix 0 (s ∷ ss) in
    let split : Splits cs (pos (0 + val))
        (search_loop (length cs) cs (pos (0 + val)) 0 (length cs)) =
      search_loop-Splits (length cs) cs (pos (0 + val)) 0 (length cs)
        (passed_down 0 (0 + val) (s ∷ ss)) (omega arith) (omega arith) (omega arith)
        (λ i q. absurd (omega arith)) (λ i q r. absurd (omega arith)) in
    let (e, found, picked) = split-pick 0 val _ (s ∷ ss) random split in
    let at_last : weight_at cs (length cs - 1) ≡ pos (0 + total (s ∷ ss)) =
      ap (weight_at cs) (omega arith) ∙ last_weight 0 s ss in
    let found' : get_elem? cs (search_loop (length cs) cs (pos val) 0 (length cs)) ≡ some e =
      ap (λ v. get_elem? cs (search_loop (length cs) cs (pos v) 0 (length cs))) (omega arith)
      ∙ found in
    (
      e.service,
      picked,
      next_of_cons intn _ _ (total (s ∷ ss)) e (at_last ∙ ap pos (omega arith)) (omega arith)
          found',
    )

-- A balancer over servers with positive weights, whose sum fits an int, answers with the server
-- in whose share the random value falls: each server is chosen for as many of the values below
-- the sum as its weight says, and the call neither panics nor finds no server.
pub next_of_list-pick :
    (intn : ℕ → ℕ) (s : Server) (ss : List Server) {cs : ServerList}
    → All IsPositive (s ∷ ss)
    → total (s ∷ ss) < 9223372036854775808
    → intn (total (s ∷ ss)) < total (s ∷ ss)
    → build_server_list (s ∷ ss) ≡ some cs
    → (u : Service) × (pick (intn (total (s ∷ ss))) (s ∷ ss) ≡ some u)
      × (next_of_list intn cs ≡ ok (some u))
next_of_list-pick intn s ss {cs} h k random built =
    let made : prefix 0 (s ∷ ss) ≡ cs = cc (build_server_list-prefix (s ∷ ss) h k) in
    rw (← made) (chosen intn s ss h k random)
