-- ===== src/LoopList/Spacing.antt =====
-- discovery/looplist.go: the save interval between the entries of the history.
use xdiscovery.Prelude.{
  ◌*◌, ◌+ℤ◌, ◌-ℤ◌, ◌≤ℤ◌, ltb_ℤ, sub64, IsSmall, sub64_of_IsSmall, -ℤ_parts, +ℤ_parts, ℕ, suc, ◌+◌,
  ◌-◌, ◌≤◌, ◌≡◌, refl, ap, ◌∙◌, inl, inr, true, false, Option, none, some, List, [], ◌∷◌, ◌++◌,
  arith, Bool-cases, ℤ, pos, length, All, length-append,
}
use xdiscovery.Options.{DegradeOpts}
use xdiscovery.LoopList.{
  push_all, Elem, LoopList, list_front, remove_front, del_timeout, push_front, push,
}
use xdiscovery.LoopList.Window.{IsSpaced, AreSmall, is_expired, del_timeout-fresh}
use xdiscovery.LoopList.Shape.{All-del_timeout, del_timeout-front, front-nonempty}

-- The entries from the first one to the Front take up their number of save intervals.
span :
    (s : ℕ) (e f : Elem) (l : LoopList)
    → IsSpaced s (e ∷ l)
    → list_front (e ∷ l) ≡ some f
    → e.unix_nano +ℤ pos (length l * s) ≤ℤ f.unix_nano
unfolding list_front ◌+ℤ◌
span s e f [] sp h = ground arith
span s e f (x ∷ l) sp h = let rest = span s x f l sp.1 h in ground arith

IsSpaced-append :
    (s : ℕ) (e f : Elem) (l : LoopList)
    → IsSpaced s l
    → list_front l ≡ some f
    → f.unix_nano +ℤ pos s ≤ℤ e.unix_nano
    → IsSpaced s (l ++ e ∷ [])
unfolding list_front
IsSpaced-append s e f [] sp h k = tt
IsSpaced-append s e f (x ∷ []) sp h k = let same : x ≡ f = cc in rw same (k, tt)
IsSpaced-append s e f (x ∷ y ∷ l) sp h k = (sp.0, IsSpaced-append s e f (y ∷ l) sp.1 h k)

IsSpaced-first : (s : ℕ) (e : Elem) (l : LoopList) → list_front l ≡ none → IsSpaced s (l ++ e ∷ [])
unfolding list_front
IsSpaced-first s e [] h = tt
IsSpaced-first s e (x ∷ []) h = absurd (cc)
IsSpaced-first s e (x ∷ y ∷ l) h = let (z, some_front) = front-nonempty y l in absurd (cc)

-- What the test of `push` says of the two times.
gap :
    (s : ℕ) (e f : Elem)
    → IsSmall e.unix_nano
    → IsSmall f.unix_nano
    → ltb_ℤ (sub64 e.unix_nano f.unix_nano) (pos s) ≡ false
    → f.unix_nano +ℤ pos s ≤ℤ e.unix_nano
gap s e f n a h =
    let exact : ltb_ℤ (e.unix_nano -ℤ f.unix_nano) (pos s) ≡ false =
      rw (sub64_of_IsSmall e.unix_nano f.unix_nano n a) at h in
    ground (arith, -ℤ_parts e.unix_nano f.unix_nano, +ℤ_parts f.unix_nano (pos s))

IsSpaced-replace :
    (s : ℕ) (e f : Elem) (l : LoopList)
    → IsSpaced s l
    → list_front l ≡ some f
    → e.unix_nano ≡ f.unix_nano
    → IsSpaced s (remove_front l ++ e ∷ [])
unfolding list_front remove_front
IsSpaced-replace s e f [] sp h k = tt
IsSpaced-replace s e f (x ∷ []) sp h k = tt
IsSpaced-replace s e f (x ∷ y ∷ []) sp h k = let same : y ≡ f = cc in (rw (k, ← same) sp.0, tt)
IsSpaced-replace s e f (x ∷ y ∷ z ∷ l) sp h k = (sp.0, IsSpaced-replace s e f (y ∷ z ∷ l) sp.1 h k)

list_front-IsSmall :
    (f : Elem) (l : LoopList) → AreSmall l → list_front l ≡ some f → IsSmall f.unix_nano
unfolding list_front
list_front-IsSmall f [] a h = absurd (cc)
list_front-IsSmall f (x ∷ []) a h = let same : x ≡ f = cc in rw (← same) a.0
list_front-IsSmall f (x ∷ y ∷ l) a h = list_front-IsSmall f (y ∷ l) a.1 h

length-remove_front : (x : Elem) (l : LoopList) → length (remove_front (x ∷ l)) ≡ length l
unfolding remove_front
length-remove_front x [] = refl
length-remove_front x (y ∷ l) = ap suc (length-remove_front y l)

length-remove_front-le : (l : LoopList) → length (remove_front l) ≤ length l
length-remove_front-le [] = unfold remove_front in omega arith
length-remove_front-le (x ∷ l) = omega (arith, length-remove_front x l)

two_less : (n : ℕ) → suc (suc n) - 2 ≡ n
two_less n = omega arith

room :
    (s i : ℕ) (now : ℤ) (f y : Elem) (rest : LoopList)
    → is_expired now (pos i) y ≡ false
    → y.unix_nano +ℤ pos (length rest * s) ≤ℤ f.unix_nano
    → f.unix_nano ≤ℤ now
    → length rest * s ≤ i
unfolding is_expired
room s i now f y rest fresh h k =
    ground (arith, -ℤ_parts now y.unix_nano, +ℤ_parts y.unix_nano (pos (length rest * s)))

module _ {F : Type 0} (opts : DegradeOpts F) where
  IsSpaced-del_timeout :
      (s : ℕ) (now : ℤ) (l : LoopList) → IsSpaced s l → IsSpaced s (del_timeout now opts l)
  unfolding del_timeout
  IsSpaced-del_timeout s now [] sp = tt
  IsSpaced-del_timeout s now (e ∷ []) sp = tt
  IsSpaced-del_timeout s now (e ∷ e' ∷ l) sp =
      ground (arith, IsSpaced-del_timeout s now (e' ∷ l) sp.1)

  -- If the times of the history and of the push are not below - 2 ^ 62 and are below 2 ^ 62,
  -- a push keeps the entries of the history at least a save interval apart, whatever the clock
  -- does between two pushes.
  pub push-IsSpaced :
      (s : ℕ) (e : Elem) (l : LoopList)
      → opts.endpoints_save_interval ≡ pos s
      → IsSmall e.unix_nano
      → AreSmall l
      → IsSpaced s l
      → IsSpaced s (push e opts l)
  unfolding push push_front
  push-IsSpaced s e l o n a sp = go (list_front kept) refl (IsSpaced-del_timeout s e.unix_nano l sp)
    where
      kept : LoopList
      kept = del_timeout e.unix_nano opts l

      go :
          (f : Option Elem)
          → list_front kept ≡ f
          → IsSpaced s kept
          → IsSpaced s (push_front e opts f kept)
      go none h k = IsSpaced-first s e kept h
      go (some f) h k =
          let small =
            list_front-IsSmall f kept
              (All-del_timeout opts (λ x. IsSmall x.unix_nano) e.unix_nano l a) h in
          elim (Bool-cases (ltb_ℤ (sub64 e.unix_nano f.unix_nano) opts.endpoints_save_interval)) [
            | inl near ↦
                rw near (IsSpaced-replace s (record e { unix_nano = f.unix_nano }) f kept k h refl)
            | inr far ↦ rw far (IsSpaced-append s e f kept k h (gap s e f n small (rw o at far)))
          ]

  -- After a pruning, all entries but two fit into the interval, a save interval apart.
  pub length-del_timeout-le :
      (s i : ℕ) (now : ℤ) (f : Elem) (l : LoopList)
      → opts.threshold_contrast_interval ≡ pos i
      → IsSmall now
      → AreSmall l
      → IsSpaced s l
      → list_front l ≡ some f
      → f.unix_nano ≤ℤ now
      → (length (del_timeout now opts l) - 2) * s ≤ i
  unfolding list_front
  length-del_timeout-le s i now f l o n a sp h k =
      go (del_timeout now opts l) refl (IsSpaced-del_timeout s now l sp)
        (del_timeout-front opts now l ∙ h)
    where
      go :
          (kept : LoopList)
          → del_timeout now opts l ≡ kept
          → IsSpaced s kept
          → list_front kept ≡ some f
          → (length kept - 2) * s ≤ i
      go [] e _ g = omega arith
      go (x ∷ []) e _ g = omega arith
      go (x ∷ y ∷ rest) e q g =
          let fresh = (del_timeout-fresh opts now s x l (y ∷ rest) n a sp e).0 in
          let fits = room s i now f y rest (rw o at fresh) (span s y f rest q.1 g) k in
          rw (two_less (length rest)) fits

  -- A push adds one entry at most.
  pub length-push-le :
      (e : Elem) (l : LoopList)
      → length (push e opts l) ≤ length (del_timeout e.unix_nano opts l) + 1
  unfolding push push_front
  length-push-le e l =
      go (list_front (del_timeout e.unix_nano opts l)) (del_timeout e.unix_nano opts l)
    where
      go : (f : Option Elem) (k : LoopList) → length (push_front e opts f k) ≤ length k + 1
      go none k = omega (arith, length-append {0} k (e ∷ []))
      go (some f) k =
          elim (Bool-cases (ltb_ℤ (sub64 e.unix_nano f.unix_nano) opts.endpoints_save_interval)) [
            | inl near ↦ rw near (
                omega (
                  arith,
                  length-append {0} (remove_front k) (record e { unix_nano = f.unix_nano } ∷ []),
                  length-remove_front-le k,
                ))
            | inr far ↦ rw far (omega (arith, length-append {0} k (e ∷ [])))
          ]

abbrev pub last_elem : Elem → List Elem → Elem
last_elem a [] = a
last_elem a (e ∷ es) = last_elem e es

last_elem-restamp :
    (t : ℤ) (e : Elem) (es : List Elem)
    → ◌≡◌ {A = LoopList}
        (record (last_elem (record e { unix_nano = t }) es) { unix_nano = t } ∷ [])
        (record (last_elem e es) { unix_nano = t } ∷ [])
last_elem-restamp t e [] = refl
last_elem-restamp t e (x ∷ es) = refl

module _ {F : Type 0} (opts : DegradeOpts F) where
  -- Pushes that all come within one save interval of the first entry leave one entry, which holds
  -- the last list: nothing older is left to compare with.
  pub push_all-shared :
      (s : ℕ) (a : Elem) (es : List Elem)
      → opts.endpoints_save_interval ≡ pos s
      → IsSmall a.unix_nano
      → All (λ e. IsSmall e.unix_nano × (ltb_ℤ (e.unix_nano -ℤ a.unix_nano) (pos s) ≡ true)) es
      → push_all es opts (a ∷ []) ≡ record (last_elem a es) { unix_nano = a.unix_nano } ∷ []
  unfolding push_all push push_front del_timeout list_front remove_front
  push_all-shared s a [] o n h = refl
  push_all-shared s a (e ∷ es) o n h =
      let near : ltb_ℤ (sub64 e.unix_nano a.unix_nano) opts.endpoints_save_interval ≡ true =
        rw (o, sub64_of_IsSmall e.unix_nano a.unix_nano h.0.0 n) h.0.1 in
      rw near (
        push_all-shared s (record e { unix_nano = a.unix_nano }) es o n h.1
        ∙ last_elem-restamp a.unix_nano e es)
