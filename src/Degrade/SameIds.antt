-- ===== src/Degrade/SameIds.antt =====
-- discovery/downgrade.go: the comparison `listSame`, its sort and its loop.
use xdiscovery.Degrade.Health.{list_same, insert_by_id, sort_by_id, same_ids}
use xdiscovery.Prelude.{
  ℕ, suc, ◌+◌, ◌<◌, ◌≡◌, refl, sym, ap, ◌∙◌, ◌↔◌, inl, inr, true, false, List, [], ◌∷◌, arith,
  if◌then◌else◌, Bool-cases, length, All, Text, text_lt, text_eq, text_eq_refl, text_lt_asymm,
  text_eq_iff, text_lt_trans, text_lt_irrefl, text_lt_antisymm,
}
use xdiscovery.Service.{Service}

-- How often an id stands in a list.
abbrev pub count_id : Text → List Service → ℕ
count_id k [] = 0
count_id k (x ∷ xs) = (if text_eq x.id k then 1 else 0) + count_id k xs

-- Each id is not below the ids before it.
abbrev IsSorted : List Service → Type 0
IsSorted [] = Unit
IsSorted (x ∷ xs) = All (λ y. text_lt y.id x.id ≡ false) xs × IsSorted xs

count_id-insert_by_id :
    (k : Text) (x : Service) (ys : List Service)
    → count_id k (insert_by_id x ys) ≡ count_id k (x ∷ ys)
unfolding insert_by_id
count_id-insert_by_id k x [] = refl
count_id-insert_by_id k x (y ∷ ys) = ground (arith, count_id-insert_by_id k x ys)

count_id-sort_by_id : (k : Text) (xs : List Service) → count_id k (sort_by_id xs) ≡ count_id k xs
unfolding sort_by_id
count_id-sort_by_id k [] = refl
count_id-sort_by_id k (x ∷ xs) =
    count_id-insert_by_id k x (sort_by_id xs)
    ∙ ap (λ n. (if text_eq x.id k then 1 else 0) + n) (count_id-sort_by_id k xs)

length-insert_by_id :
    (x : Service) (ys : List Service) → length (insert_by_id x ys) ≡ suc (length ys)
unfolding insert_by_id
length-insert_by_id x [] = refl
length-insert_by_id x (y ∷ ys) = ground (arith, length-insert_by_id x ys)

length-sort_by_id : (xs : List Service) → length (sort_by_id xs) ≡ length xs
unfolding sort_by_id
length-sort_by_id [] = refl
length-sort_by_id (x ∷ xs) = length-insert_by_id x (sort_by_id xs) ∙ ap suc (length-sort_by_id xs)

insert_by_id-All :
    (P : Service → Type 0) (x : Service) (ys : List Service)
    → P x
    → All P ys
    → All P (insert_by_id x ys)
unfolding insert_by_id
insert_by_id-All P x [] p h = (p, tt)
insert_by_id-All P x (y ∷ ys) p h = elim (Bool-cases (text_lt y.id x.id)) [
  | inl below ↦ rw below (h.0, insert_by_id-All P x ys p h.1)
  | inr above ↦ rw above (p, h)
]

All-above :
    (x y : Text) (zs : List Service)
    → text_lt y x ≡ false
    → All (λ z. text_lt z.id y ≡ false) zs
    → All (λ z. text_lt z.id x ≡ false) zs
All-above x y [] h a = tt
All-above x y (z ∷ zs) h a = (text_lt_trans x y z.id h a.0, All-above x y zs h a.1)

insert_by_id-IsSorted :
    (x : Service) (ys : List Service) → IsSorted ys → IsSorted (insert_by_id x ys)
unfolding insert_by_id
insert_by_id-IsSorted x [] h = (tt, tt)
insert_by_id-IsSorted x (y ∷ ys) h = elim (Bool-cases (text_lt y.id x.id)) [
  | inl below ↦ rw below (
    insert_by_id-All (λ z. text_lt z.id y.id ≡ false) x ys (text_lt_asymm y.id x.id below) h.0,
    insert_by_id-IsSorted x ys h.1,
  )
  | inr above ↦ rw above ((above, All-above x.id y.id ys above h.0), h)
]

sort_by_id-IsSorted : (xs : List Service) → IsSorted (sort_by_id xs)
unfolding sort_by_id
sort_by_id-IsSorted [] = tt
sort_by_id-IsSorted (x ∷ xs) = insert_by_id-IsSorted x (sort_by_id xs) (sort_by_id-IsSorted xs)

-- An id that stands in a list above a bound is not below the bound.
above_bound :
    (k m : Text) (xs : List Service)
    → All (λ y. text_lt y.id m ≡ false) xs
    → 0 < count_id k xs
    → text_lt k m ≡ false
above_bound k m [] a h = absurd (omega arith)
above_bound k m (x ∷ xs) a h = elim (Bool-cases (text_eq x.id k)) [
  | inl same ↦ let ids : x.id ≡ k = (text_eq_iff x.id k).0 same in rw (← ids) a.0
  | inr other ↦ above_bound k m xs a.1 (ground arith)
]

count_id-own : (x : Service) (xs : List Service) → 0 < count_id x.id (x ∷ xs)
count_id-own x xs = let same = text_eq_refl x.id in ground arith

same_ids-sorted :
    (xs ys : List Service)
    → IsSorted xs
    → IsSorted ys
    → ((k : Text) → count_id k xs ≡ count_id k ys)
    → (same_ids xs ys ≡ true) × (length xs ≡ length ys)
unfolding same_ids
same_ids-sorted [] [] s t h = (refl, refl)
same_ids-sorted [] (b ∷ ys) s t h =
    let own = count_id-own b ys in let none_ = h b.id in absurd (omega arith)
same_ids-sorted (a ∷ xs) [] s t h =
    let own = count_id-own a xs in let none_ = h a.id in absurd (omega arith)
same_ids-sorted (a ∷ xs) (b ∷ ys) s t h =
    let own_a = count_id-own a xs in
    let own_b = count_id-own b ys in
    let at_a = h a.id in
    let at_b = h b.id in
    let one = above_bound a.id b.id (b ∷ ys) (text_lt_irrefl b.id, t.0) (omega arith) in
    let two = above_bound b.id a.id (a ∷ xs) (text_lt_irrefl a.id, s.0) (omega arith) in
    let ids : a.id ≡ b.id = text_lt_antisymm a.id b.id one two in
    let rest =
      same_ids-sorted xs ys s.1 t.1
        (λ k. (let at_k = h k in let eq = ap (λ i. text_eq i k) ids in ground arith)) in
    let eq : text_eq a.id b.id ≡ true = (text_eq_iff a.id b.id).1 ids in
    (ground arith, ground arith)

count_id-same_ids :
    (k : Text) (xs ys : List Service)
    → same_ids xs ys ≡ true
    → length xs ≡ length ys
    → count_id k xs ≡ count_id k ys
unfolding same_ids
count_id-same_ids k [] [] h l = refl
count_id-same_ids k [] (b ∷ ys) h l = absurd (omega arith)
count_id-same_ids k (a ∷ xs) [] h l = absurd (omega arith)
count_id-same_ids k (a ∷ xs) (b ∷ ys) h l =
    let ids : a.id ≡ b.id = (text_eq_iff a.id b.id).0 (ground arith) in
    let eq = ap (λ i. text_eq i k) ids in
    let rest = count_id-same_ids k xs ys (ground arith) (omega arith) in ground arith

-- `listSame` holds of two lists just when each id stands in both equally often.
pub list_same-count_id :
    (a b : List Service) → (list_same a b ≡ true) ↔ ((k : Text) → count_id k a ≡ count_id k b)
unfolding list_same
list_same-count_id a b =
    let la = length-sort_by_id a in
    let lb = length-sort_by_id b in
    (
      λ h k.
          (let ca = count_id-sort_by_id k a in
            let cb = count_id-sort_by_id k b in
            let mid =
              count_id-same_ids k (sort_by_id a) (sort_by_id b) (ground arith) (ground arith) in
            sym ca ∙ mid ∙ cb),
      λ h.
          (let both =
              same_ids-sorted (sort_by_id a) (sort_by_id b) (sort_by_id-IsSorted a)
                (sort_by_id-IsSorted b)
                (λ k. count_id-sort_by_id k a ∙ h k ∙ sym (count_id-sort_by_id k b)) in
            let same = both.0 in let len = both.1 in ground arith),
    )
