-- ===== src/Wrr/Panic.antt =====
-- loadbalance/wrr/wrr.go: the index of the second loop of `buildServerList`.
use xdiscovery.Prelude.{
  leb_ℤ, ℕ, zero, suc, ◌-◌, ◌≤◌, ◌<◌, ◌≡◌, refl, inl, inr, true, none, List, [], ◌∷◌, arith, ℤ, pos,
  length, In, add64,
}
use xdiscovery.Wrr.{Server, positive, accumulate, add_up, build_server_list}

accumulate_short :
    (n : ℕ) (before : ℤ) (vs : List Server) → length vs < n → accumulate n before vs ≡ none
unfolding accumulate
accumulate_short zero before vs h = absurd (omega arith)
accumulate_short (suc n) before [] h = refl
accumulate_short (suc n) before (v ∷ vs) h =
    ground (arith, accumulate_short n (add64 v.weight before) vs (omega arith))

length-positive-le : (ss : List Server) → length (positive ss) ≤ length ss
unfolding positive
length-positive-le [] = omega arith
length-positive-le (s ∷ ss) = ground (arith, length-positive-le ss)

length-positive-lt :
    (s : Server) (ss : List Server)
    → In s ss
    → leb_ℤ s.weight (pos 0) ≡ true
    → length (positive ss) < length ss
unfolding positive
length-positive-lt s (x ∷ ss) (inl e) h =
    let dropped : leb_ℤ x.weight (pos 0) ≡ true = rw e h in
    rw dropped (omega (arith, length-positive-le ss))
length-positive-lt s (x ∷ ss) (inr m) h = ground (arith, length-positive-lt s ss m h)
length-positive-lt s [] m h = absurd m

add_up_short : (n : ℕ) (vs : List Server) → 2 ≤ n → length vs < n → add_up n vs ≡ none
unfolding add_up
add_up_short n [] h k = ground arith
add_up_short n (v ∷ vs) h k = ground (arith, accumulate_short (n - 1) v.weight vs (omega arith))

-- Among two servers or more, one without a positive weight makes the building panic: the second
-- loop counts the servers given, not those that the first loop has kept.
pub build_server_list-panics :
    (s : Server) (ss : List Server)
    → 2 ≤ length ss
    → In s ss
    → leb_ℤ s.weight (pos 0) ≡ true
    → build_server_list ss ≡ none
unfolding build_server_list
build_server_list-panics s ss h m k =
    add_up_short (length ss) (positive ss) h (length-positive-lt s ss m k)
