-- ===== src/Wrr/Search.antt =====
-- loadbalance/wrr/wrr.go: the binary search of `nextServer`.
use xdiscovery.Prelude.{
  leb_ℤ, ℕ, zero, suc, ◌+◌, ◌-◌, ◌≤◌, ◌<◌, ◌≡◌, inl, inr, Bool, true, false, arith, Bool-cases, ℤ,
  length, ltb, pos_part, ◌/◌,
}
use xdiscovery.Wrr.{ServerList, weight_at, search_loop}

-- The weights do not fall.
abbrev pub IsRising : ServerList → Type 0
IsRising ss =
    (i j : ℕ) → i ≤ j → j < length ss → pos_part (weight_at ss i) ≤ pos_part (weight_at ss j)

-- The accumulated weight at the place is not above the value.
abbrev pub is_passed : ServerList → ℤ → ℕ → Bool
is_passed ss val i = leb_ℤ (weight_at ss i) val

-- The place splits the list: what is before it is passed, and nothing from it on.
pub record Splits (ss : ServerList) (val : ℤ) (r : ℕ) : Type 0 where
  pub inside : r ≤ length ss
  pub before : (i : ℕ) → i < r → is_passed ss val i ≡ true
  pub from_here : (i : ℕ) → r ≤ i → i < length ss → is_passed ss val i ≡ false

not_passed :
    (ss : ServerList) (val : ℤ)
    → ((i j : ℕ) → i ≤ j → j < length ss → is_passed ss val j ≡ true → is_passed ss val i ≡ true)
    → (i m : ℕ) → m ≤ i
    → i < length ss
    → is_passed ss val m ≡ false
    → is_passed ss val i ≡ false
not_passed ss val closed i m h k left = elim (Bool-cases (is_passed ss val i)) [
  | inr off ↦ off
  | inl on ↦ cc (closed m i h k on)
]

-- If passing is downward closed, the loop finds the split, with fuel for every place.
pub search_loop-Splits :
    (fuel : ℕ) (ss : ServerList) (val : ℤ) (li ri : ℕ)
    → ((i j : ℕ) → i ≤ j → j < length ss → is_passed ss val j ≡ true → is_passed ss val i ≡ true)
    → ri - li ≤ fuel
    → li ≤ ri
    → ri ≤ length ss
    → ((i : ℕ) → i < li → is_passed ss val i ≡ true)
    → ((i : ℕ) → ri ≤ i → i < length ss → is_passed ss val i ≡ false)
    → Splits ss val (search_loop fuel ss val li ri)
unfolding search_loop
search_loop-Splits zero ss val li ri closed f o n low high =
    let same : li ≡ ri = omega arith in
    record { inside = omega arith; before = low; from_here = λ i h k. high i (omega arith) k }
search_loop-Splits (suc fuel) ss val li ri closed f o n low high = elim (Bool-cases (ltb li ri)) [
  | inr done ↦
      let same : li ≡ ri = ground arith in
      rw done
        (record { inside = omega arith; before = low; from_here = λ i h k. high i (omega arith) k })
  | inl more ↦
      let lt : li < ri = ground arith in
      elim (Bool-cases (is_passed ss val ((li + ri) / 2))) [
        | inl right ↦
            rw (more, right)
              (search_loop-Splits fuel ss val ((li + ri) / 2 + 1) ri closed (omega arith)
                (omega arith) n (λ i h. closed i ((li + ri) / 2) (omega arith) (omega arith) right)
                high)
        | inr left ↦
            rw (more, left)
              (search_loop-Splits fuel ss val li ((li + ri) / 2) closed (omega arith) (omega arith)
                (omega arith) low (λ i h k. not_passed ss val closed i ((li + ri) / 2) h k left))
      ]
]
