-- ===== src/Wrr/Places.antt =====
-- loadbalance/wrr/wrr.go: the place of a server in the slice.
use xdiscovery.Wrr.{Server}
use mathlib.Core.Path.{subst}
use xdiscovery.Wrr.Objects.{Indexed, AreDistinct}
use xdiscovery.Prelude.{
  ℕ, suc, ◌+◌, ◌≡◌, refl, sym, ap, ◌∙◌, inl, inr, none, some, List, [], ◌∷◌, ◌++◌, arith, length,
  In, In-append_cases, take, drop, get_elem?, In-append_left, In-append_right,
}

-- A number of the slice splits it at the index of its object.
pub place_of :
    (objects : List Server) (i : ℕ) (refs : List ℕ) (r : ℕ) (e : Server)
    → Indexed objects i refs
    → In r refs
    → get_elem? objects r ≡ some e
    → (pre : List ℕ) × (post : List ℕ) × (refs ≡ pre ++ r ∷ post) × (e.index ≡ i + length pre)
place_of objects i [] r e h m at = absurd m
place_of objects i (q ∷ qs) r e ((s, there, index, weight), more) m at = elim m [
  | inl here ↦
      let both : some s ≡ some e = sym there ∙ ap (get_elem? objects) here ∙ at in
      let same : s.index ≡ e.index = ap (λ o. elim o [ none ↦ 0 | some x ↦ x.index ]) both in
      ([], qs, ap (λ x. x ∷ qs) here, omega (arith, same, index))
  | inr later ↦
      let (pre, post, split, at_) = place_of objects (i + 1) qs r e more later at in
      (q ∷ pre, post, ap (λ t. q ∷ t) split, omega (arith, at_))
]

pub Indexed-cut :
    (objects : List Server) (i : ℕ) (pre : List ℕ) (r : ℕ) (post : List ℕ)
    → Indexed objects i (pre ++ r ∷ post)
    → Indexed objects i pre × Indexed objects (i + length pre + 1) post
Indexed-cut objects i [] r post (h, more) =
    (tt, subst (λ n. Indexed objects n post) (omega arith) more)
Indexed-cut objects i (q ∷ qs) r post (h, more) =
    let (left, right) = Indexed-cut objects (i + 1) qs r post more in
    ((h, left), subst (λ n. Indexed objects n post) (omega arith) right)

pub Indexed-append :
    (objects : List Server) (i : ℕ) (pre post : List ℕ)
    → Indexed objects i pre
    → Indexed objects (i + length pre) post
    → Indexed objects i (pre ++ post)
Indexed-append objects i [] post h k = subst (λ n. Indexed objects n post) (omega arith) k
Indexed-append objects i (q ∷ qs) post (h, more) k = (
  h,
  Indexed-append objects (i + 1) qs post more (subst (λ n. Indexed objects n post) (omega arith) k),
)

pub AreDistinct-append_right : (pre post : List ℕ) → AreDistinct (pre ++ post) → AreDistinct post
AreDistinct-append_right [] post d = d
AreDistinct-append_right (q ∷ qs) post d = AreDistinct-append_right qs post d.1

-- The number at a place is at no other, and the two parts around it have no number in common.
pub AreDistinct-cut :
    (pre : List ℕ) (r : ℕ) (post : List ℕ)
    → AreDistinct (pre ++ r ∷ post)
    → (¬ In r (pre ++ post)) × AreDistinct (pre ++ post) × ((x : ℕ) → In x pre → ¬ In x post)
AreDistinct-cut [] r post d = (d.0, d.1, λ x m. absurd m)
AreDistinct-cut (q ∷ qs) r post (new, d) =
    let (apart, rest, disjoint) = AreDistinct-cut qs r post d in
    (
      λ m. elim m [
        | inl same ↦ new (
            subst (λ x. In x (qs ++ r ∷ post)) (sym same)
              (In-append_right r qs (r ∷ post) (inl refl)))
        | inr there ↦ apart there
      ],
      (λ m. new (widen q qs r post m), rest),
      λ x m. elim m [
        | inl same ↦ λ there. new (
            subst (λ y. In y (qs ++ r ∷ post)) (sym same)
              (In-append_right x qs (r ∷ post) (inr there)))
        | inr there ↦ disjoint x there
      ],
    )
  where
    widen :
        (x : ℕ) (qs : List ℕ) (r : ℕ) (post : List ℕ) → In x (qs ++ post) → In x (qs ++ r ∷ post)
    widen x qs r post m = elim (In-append_cases x qs post m) [
      | inl left ↦ In-append_left x qs (r ∷ post) left
      | inr right ↦ In-append_right x qs (r ∷ post) (inr right)
    ]

pub take-length : (pre rest : List ℕ) → take (length pre) (pre ++ rest) ≡ pre
take-length [] rest = refl
take-length (q ∷ qs) rest = ap (λ t. q ∷ t) (take-length qs rest)

pub drop-length :
    (pre : List ℕ) (r : ℕ) (rest : List ℕ) → drop (length pre + 1) (pre ++ r ∷ rest) ≡ rest
drop-length [] r rest = refl
drop-length (q ∷ qs) r rest =
    let next : suc (length qs) + 1 ≡ suc (length qs + 1) = omega arith in
    ap (λ n. drop n (q ∷ (qs ++ r ∷ rest))) next ∙ drop-length qs r rest
