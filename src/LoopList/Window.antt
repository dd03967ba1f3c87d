-- ===== src/LoopList/Window.antt =====
-- discovery/looplist.go: the times of the entries, and the interval of a pruning.
use xdiscovery.Prelude.{
  ◌+ℤ◌, ◌-ℤ◌, ◌≤ℤ◌, leb_ℤ, IsSmall, sub64_of_IsSmall, -ℤ_parts, select, ℕ, ◌≡◌, refl, sym, ap, ◌∙◌,
  inl, inr, Bool, true, false, not, Option, none, some, [], ◌∷◌, arith, if◌then◌else◌, Bool-cases,
  ℤ, pos, All, +ℤ_parts,
}
use xdiscovery.Options.{DegradeOpts}
use xdiscovery.LoopList.Shape.{front-nonempty}
use xdiscovery.LoopList.{Elem, LoopList, list_back, list_front, del_timeout}

-- Each entry is at least `s` nanoseconds after the one before it.
abbrev pub IsSpaced : ℕ → LoopList → Type 0
IsSpaced s [] = Unit
IsSpaced s (e ∷ []) = Unit
IsSpaced s (e ∷ e' ∷ l) = (e.unix_nano +ℤ pos s ≤ℤ e'.unix_nano) × IsSpaced s (e' ∷ l)

-- No time is so far from zero that a difference wraps.
abbrev pub AreSmall : LoopList → Type 0
AreSmall l = All (λ e. IsSmall e.unix_nano) l

-- The entry left the interval before `now`.
unfoldable pub is_expired : ℤ → ℤ → Elem → Bool
is_expired now interval e = not (leb_ℤ (now -ℤ e.unix_nano) interval)

abbrev pub or_else : {A : Type 0} → Option A → Option A → Option A
or_else none y = y
or_else (some x) y = some x

-- The newest entry that has left the interval; the oldest entry, if none has.
abbrev pub newest_expired : ℤ → ℤ → LoopList → Option Elem
newest_expired now interval l =
    or_else (list_front (select (is_expired now interval) l)) (list_back l)

module _ (now interval : ℤ) where
  still_fresh :
      (s : ℕ) (e e' : Elem)
      → e.unix_nano +ℤ pos s ≤ℤ e'.unix_nano
      → is_expired now interval e ≡ false
      → is_expired now interval e' ≡ false
  unfolding is_expired
  still_fresh s e e' sp h =
      ground
        (arith, -ℤ_parts now e.unix_nano, -ℤ_parts now e'.unix_nano, +ℤ_parts e.unix_nano (pos s))

  later_not_expired :
      (s : ℕ) (e : Elem) (l : LoopList)
      → IsSpaced s (e ∷ l)
      → is_expired now interval e ≡ false
      → select (is_expired now interval) l ≡ []
  later_not_expired s e [] sp h = refl
  later_not_expired s e (e' ∷ l) sp h =
      let fresh = still_fresh s e e' sp.0 h in rw fresh (later_not_expired s e' l sp.1 fresh)

  front-cons_some :
      (x e : Elem) (l : LoopList) → list_front l ≡ some e → list_front (x ∷ l) ≡ some e
  unfolding list_front
  front-cons_some x e [] h = cc
  front-cons_some x e (y ∷ l) h = h

  newest_expired-fresh :
      (e e' : Elem) (l : LoopList)
      → select (is_expired now interval) (e' ∷ l) ≡ []
      → newest_expired now interval (e ∷ e' ∷ l) ≡ some e
  unfolding list_front
  newest_expired-fresh e e' l h = elim (Bool-cases (is_expired now interval e)) [
    | inl old ↦ rw (old, h) refl
    | inr fresh ↦ rw (fresh, h) refl
  ]

  newest_expired-old :
      (e e' : Elem) (l : LoopList)
      → is_expired now interval e' ≡ true
      → newest_expired now interval (e ∷ e' ∷ l) ≡ newest_expired now interval (e' ∷ l)
  newest_expired-old e e' l h =
      let (x, front) = front-nonempty e' (select (is_expired now interval) l) in
      elim (Bool-cases (is_expired now interval e)) [
        | inl old ↦
            rw (old, h)
              (ground (arith, front-cons_some e x (e' ∷ select (is_expired now interval) l) front))
        | inr fresh ↦ rw (fresh, h) (rw front refl)
      ]

module _ {F : Type 0} (opts : DegradeOpts F) (now : ℤ) where
  prune_step :
      (e e' : Elem) (l : LoopList)
      → IsSmall now
      → IsSmall e'.unix_nano
      → del_timeout now opts (e ∷ e' ∷ l) ≡ (
          if is_expired now opts.threshold_contrast_interval e'
          then del_timeout now opts (e' ∷ l)
          else e ∷ e' ∷ l)
  unfolding del_timeout is_expired
  prune_step e e' l n a = rw (sub64_of_IsSmall now e'.unix_nano n a) (ground arith)

  prune_old :
      (e e' : Elem) (l : LoopList)
      → IsSmall now
      → IsSmall e'.unix_nano
      → is_expired now opts.threshold_contrast_interval e' ≡ true
      → del_timeout now opts (e ∷ e' ∷ l) ≡ del_timeout now opts (e' ∷ l)
  prune_old e e' l n a h = ground (arith, prune_step e e' l n a)

  prune_fresh :
      (e e' : Elem) (l : LoopList)
      → IsSmall now
      → IsSmall e'.unix_nano
      → is_expired now opts.threshold_contrast_interval e' ≡ false
      → del_timeout now opts (e ∷ e' ∷ l) ≡ e ∷ e' ∷ l
  prune_fresh e e' l n a h = ground (arith, prune_step e e' l n a)

  -- The Back after a pruning is the newest entry that has left the interval, or the oldest entry
  -- if none has: so one entry from before the interval is always there to compare with.
  pub del_timeout-back :
      (s : ℕ) (l : LoopList)
      → IsSmall now
      → AreSmall l
      → IsSpaced s l
      → list_back (del_timeout now opts l) ≡ newest_expired now opts.threshold_contrast_interval l
  del_timeout-back s [] n a sp = unfold del_timeout list_front is_expired in refl
  del_timeout-back s (e ∷ []) n a sp = unfold del_timeout list_front is_expired in ground arith
  del_timeout-back s (e ∷ e' ∷ l) n a sp =
      let interval = opts.threshold_contrast_interval in
      elim (Bool-cases (is_expired now interval e')) [
        | inl old ↦
            ap list_back (prune_old e e' l n a.1.0 old)
            ∙ del_timeout-back s (e' ∷ l) n a.1 sp.1
            ∙ sym (newest_expired-old now interval e e' l old)
        | inr fresh ↦
            let none_left : select (is_expired now interval) (e' ∷ l) ≡ [] =
              rw fresh (later_not_expired now interval s e' l sp.1 fresh) in
            ap list_back (prune_fresh e e' l n a.1.0 fresh)
            ∙ sym (newest_expired-fresh now interval e e' l none_left)
      ]

  -- After a pruning every entry but the Back is within the interval.
  pub del_timeout-fresh :
      (s : ℕ) (e : Elem) (l rest : LoopList)
      → IsSmall now
      → AreSmall l
      → IsSpaced s l
      → del_timeout now opts l ≡ e ∷ rest
      → All (λ x. is_expired now opts.threshold_contrast_interval x ≡ false) rest
  del_timeout-fresh s e [] rest n a sp h = absurd (unfold del_timeout in cc)
  del_timeout-fresh s e (x ∷ []) rest n a sp h =
      let empty : [] ≡ rest = unfold del_timeout in cc in rw (← empty) tt
  del_timeout-fresh s e (x ∷ x' ∷ l) rest n a sp h =
      let interval = opts.threshold_contrast_interval in
      elim (Bool-cases (is_expired now interval x')) [
        | inl old ↦
            del_timeout-fresh s e (x' ∷ l) rest n a.1 sp.1 (sym (prune_old x x' l n a.1.0 old) ∙ h)
        | inr fresh ↦
            let same : x' ∷ l ≡ rest = cc (prune_fresh x x' l n a.1.0 fresh) in
            rw (← same) (fresh, all_fresh s x' l sp.1 fresh)
      ]
    where
      all_fresh :
          (s : ℕ) (y : Elem) (ys : LoopList)
          → IsSpaced s (y ∷ ys)
          → is_expired now opts.threshold_contrast_interval y ≡ false
          → All (λ x. is_expired now opts.threshold_contrast_interval x ≡ false) ys
      all_fresh s y [] sp h = tt
      all_fresh s y (z ∷ ys) sp h =
          let fresh = still_fresh now opts.threshold_contrast_interval s y z sp.0 h in
          (fresh, all_fresh s z ys sp.1 fresh)
