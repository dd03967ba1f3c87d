-- ===== src/Wrr/Objects.antt =====
-- loadbalance/wrr/wrr.go: the objects that the slice names, and what `index--` does to them.
use xdiscovery.Wrr.{Server, decrement, deref, or_default}
use mathlib.Core.Path.{subst}
use xdiscovery.Prelude.{
  ℕ, zero, suc, ◌+◌, ◌-◌, ◌≡◌, refl, sym, ap, ◌∙◌, ◌≢◌, inl, inr, none, some, List, [], ◌∷◌, ◌++◌,
  arith, Option-cases, ℤ, In, Text, map, get_elem?, set,
}

-- The objects at the numbers are there, with the indexes from `i` on, and no weight is 0.
abbrev pub Indexed : List Server → ℕ → List ℕ → Type 0
Indexed objects i [] = Unit
Indexed objects i (r ∷ rs) =
    ((s : Server) × (get_elem? objects r ≡ some s)
      × (s.index ≡ i)
      × (or_default s.weight ≡ s.weight))
    × Indexed objects (i + 1) rs

abbrev pub AreDistinct : List ℕ → Type 0
AreDistinct [] = Unit
AreDistinct (r ∷ rs) = (¬ In r rs) × AreDistinct rs

-- The ids and the weights of the objects.
abbrev pub view : List Server → List ℕ → List (Text × ℤ)
view objects refs = map (λ (s : Server). (s.service.id, s.weight)) (deref objects refs)

get_set_same :
    (xs : List Server) (i : ℕ) (s v : Server)
    → get_elem? xs i ≡ some s
    → get_elem? (set xs i v) i ≡ some v
get_set_same [] i s v h = absurd (cc)
get_set_same (x ∷ xs) zero s v h = refl
get_set_same (x ∷ xs) (suc i) s v h = get_set_same xs i s v h

get_set_other :
    (xs : List Server) (i j : ℕ) (v : Server) → i ≢ j → get_elem? (set xs i v) j ≡ get_elem? xs j
get_set_other [] i j v h = refl
get_set_other (x ∷ xs) zero zero v h = absurd (h refl)
get_set_other (x ∷ xs) zero (suc j) v h = refl
get_set_other (x ∷ xs) (suc i) zero v h = refl
get_set_other (x ∷ xs) (suc i) (suc j) v h = get_set_other xs i j v (λ e. h (ap suc e))

-- An object of another number stays as it is.
pub decrement_other :
    (refs : List ℕ) (objects : List Server) (r : ℕ)
    → ¬ In r refs
    → get_elem? (decrement refs objects) r ≡ get_elem? objects r
unfolding decrement
decrement_other [] objects r h = refl
decrement_other (p ∷ ps) objects r h = elim (Option-cases (get_elem? objects p)) [
  | inl gone ↦
      let same : decrement (p ∷ ps) objects ≡ decrement ps objects = ground arith in
      ap (λ o. get_elem? o r) same ∙ decrement_other ps objects r (λ m. h (inr m))
  | inr (s, there) ↦
      let next = set objects p (record s { index = s.index - 1 }) in
      let same : decrement (p ∷ ps) objects ≡ decrement ps next = ground arith in
      ap (λ o. get_elem? o r) same
      ∙ decrement_other ps next r (λ m. h (inr m))
      ∙ get_set_other objects p r (record s { index = s.index - 1 }) (λ e. h (inl e))
]

-- An object of one of the numbers has an index that is one less.
pub decrement_named :
    (refs : List ℕ) (objects : List Server) (r : ℕ) (s : Server)
    → AreDistinct refs
    → In r refs
    → get_elem? objects r ≡ some s
    → get_elem? (decrement refs objects) r ≡ some (record s { index = s.index - 1 })
unfolding decrement
decrement_named [] objects r s d m at = absurd m
decrement_named (p ∷ ps) objects r s d m at = elim (Option-cases (get_elem? objects p)) [
  | inl gone ↦
      let same : decrement (p ∷ ps) objects ≡ decrement ps objects = ground arith in
      elim m [
        | inl here ↦
            absurd (let no_ : none ≡ some s = sym gone ∙ ap (get_elem? objects) here ∙ at in cc)
        | inr there ↦ ap (λ o. get_elem? o r) same ∙ decrement_named ps objects r s d.1 there at
      ]
  | inr (q, found) ↦
      let next = set objects p (record q { index = q.index - 1 }) in
      let same : decrement (p ∷ ps) objects ≡ decrement ps next = ground arith in
      elim m [
        | inl here ↦
            let both : some q ≡ some s = sym found ∙ ap (get_elem? objects) here ∙ at in
            let is_s : q ≡ s = cc in
            ap (λ o. get_elem? o r) same
            ∙ decrement_other ps next r (subst (λ x. ¬ In x ps) here d.0)
            ∙ ap (get_elem? next) (sym here)
            ∙ get_set_same objects p q (record q { index = q.index - 1 }) found
            ∙ ap (λ (x : Server). some (record x { index = x.index - 1 })) is_s
        | inr there ↦
            ap (λ o. get_elem? o r) same
            ∙ decrement_named ps next r s d.1 there (
                get_set_other objects p r (record q { index = q.index - 1 })
                  (λ e. d.0 (subst (λ x. In x ps) (sym e) there))
                ∙ at)
      ]
]

pub view_cons :
    (objects : List Server) (r : ℕ) (rs : List ℕ) {s : Server}
    → get_elem? objects r ≡ some s
    → view objects (r ∷ rs) ≡ (s.service.id, s.weight) ∷ view objects rs
unfolding deref
view_cons objects r rs {s} at =
    let same : deref objects (r ∷ rs) ≡ s ∷ deref objects rs = ground arith in
    ap (map (λ (x : Server). (x.service.id, x.weight))) same

pub view-append :
    (objects : List Server) (xs ys : List ℕ)
    → view objects (xs ++ ys) ≡ view objects xs ++ view objects ys
unfolding deref
view-append objects [] ys = refl
view-append objects (x ∷ xs) ys = elim (Option-cases (get_elem? objects x)) [
  | inl gone ↦
      let left : deref objects (x ∷ (xs ++ ys)) ≡ deref objects (xs ++ ys) = ground arith in
      let right : deref objects (x ∷ xs) ≡ deref objects xs = ground arith in
      let f = map (λ (s : Server). (s.service.id, s.weight)) in
      ap f left ∙ view-append objects xs ys ∙ ap (λ t. f t ++ view objects ys) (sym right)
  | inr (s, at) ↦
      view_cons objects x (xs ++ ys) at
      ∙ ap (λ t. (s.service.id, s.weight) ∷ t) (view-append objects xs ys)
      ∙ ap (λ t. t ++ view objects ys) (sym (view_cons objects x xs at))
]

-- Objects whose indexes are `d` less.
pub Indexed-shift :
    (objects objects' : List Server) (d i : ℕ) (refs : List ℕ)
    → ((r : ℕ) (s : Server)
        → In r refs
        → get_elem? objects r ≡ some s
        → get_elem? objects' r ≡ some (record s { index = s.index - d }))
    → Indexed objects (i + d) refs
    → Indexed objects' i refs × (view objects' refs ≡ view objects refs)
unfolding deref
Indexed-shift objects objects' d i [] h x = (tt, refl)
Indexed-shift objects objects' d i (r ∷ rs) h ((s, at, index, weight), more) =
    let moved = h r s (inl refl) at in
    let (rest, same) =
      Indexed-shift objects objects' d (i + 1) rs (λ q t m. h q t (inr m))
        (subst (λ n. Indexed objects n rs) (omega arith) more) in
    (
      ((record s { index = s.index - d }, moved, omega (arith, index), weight), rest),
      view_cons objects' r rs moved
          ∙ ap (λ t. (s.service.id, s.weight) ∷ t) same
          ∙ sym (view_cons objects r rs at),
    )
