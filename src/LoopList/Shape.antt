-- ===== src/LoopList/Shape.antt =====
-- discovery/looplist.go: the newest entry of the history, and its entries.
use xdiscovery.Prelude.{
  All, Bool-cases, arith, All-append, inl, inr, ◌≡◌, refl, Option, none, some, [], ◌∷◌, ◌++◌, ℤ,
}
use xdiscovery.LoopList.{
  stamp_front, push_stamp, Elem, LoopList, list_front, remove_front, del_timeout, push_front, push,
  DegradeOpts, ◌++◌, ◌∷◌, ServiceList, ℤ, [], ◌≡◌, some, Option, ltb_ℤ, sub64,
}

module _ {F : Type 0} (opts : DegradeOpts F) where
  -- Pruning never empties a history.
  pub del_timeout-front :
      (now : ℤ) (l : LoopList) → list_front (del_timeout now opts l) ≡ list_front l
  unfolding del_timeout list_front
  del_timeout-front now [] = refl
  del_timeout-front now (e ∷ []) = refl
  del_timeout-front now (e ∷ e' ∷ l) = ground (arith, del_timeout-front now (e' ∷ l))

  pub All-del_timeout :
      (P : Elem → Type 0) (now : ℤ) (l : LoopList) → All P l → All P (del_timeout now opts l)
  unfolding del_timeout
  All-del_timeout P now [] h = tt
  All-del_timeout P now (e ∷ []) h = h
  All-del_timeout P now (e ∷ e' ∷ l) h = ground (arith, All-del_timeout P now (e' ∷ l) h.1)

pub front-nonempty : (x : Elem) (l : LoopList) → (e : Elem) × (list_front (x ∷ l) ≡ some e)
unfolding list_front
front-nonempty x [] = (x, refl)
front-nonempty x (y ∷ l) = front-nonempty y l

pub front-append : (l : LoopList) (e : Elem) → list_front (l ++ e ∷ []) ≡ some e
unfolding list_front
front-append [] e = refl
front-append (x ∷ []) e = refl
front-append (x ∷ y ∷ l) e = front-append (y ∷ l) e

pub All-remove_front : (P : Elem → Type 0) (l : LoopList) → All P l → All P (remove_front l)
unfolding remove_front
All-remove_front P [] h = tt
All-remove_front P (e ∷ []) h = tt
All-remove_front P (e ∷ e' ∷ l) h = (h.0, All-remove_front P (e' ∷ l) h.1)

module _ {F : Type 0} (opts : DegradeOpts F) where
  -- The Front after a push holds the pushed list; its time is the time of the push, or the time
  -- of the entry that it replaced.
  pub push-front :
      (e : Elem) (l : LoopList)
      → (t : ℤ) × (list_front (push e opts l) ≡ some (record e { unix_nano = t }))
  unfolding push push_front
  push-front e l = go (list_front (del_timeout e.unix_nano opts l))
    where
      go :
          (o : Option Elem)
          → (t : ℤ) × (list_front (push_front e opts o (del_timeout e.unix_nano opts l))
              ≡ some (record e { unix_nano = t }))
      go none = (e.unix_nano, front-append (del_timeout e.unix_nano opts l) e)
      go (some f) =
          elim (Bool-cases (ltb_ℤ (sub64 e.unix_nano f.unix_nano) opts.endpoints_save_interval)) [
            | inl near ↦ (
              f.unix_nano,
              rw near (
                  front-append (remove_front (del_timeout e.unix_nano opts l))
                    (record e { unix_nano = f.unix_nano })),
            )
            | inr far ↦ (e.unix_nano, rw far (front-append (del_timeout e.unix_nano opts l) e))
          ]

  -- A property of the lists (not of the times) of all entries is kept by a push.
  pub All-push :
      (Q : ServiceList → Type 0) (e : Elem) (l : LoopList)
      → Q e.list
      → All (λ x. Q x.list) l
      → All (λ x. Q x.list) (push e opts l)
  unfolding push push_front
  All-push Q e l q h =
      let kept = All-del_timeout opts (λ x. Q x.list) e.unix_nano l h in
      go (list_front (del_timeout e.unix_nano opts l)) (del_timeout e.unix_nano opts l) kept
    where
      go :
          (o : Option Elem) (k : LoopList)
          → All (λ x. Q x.list) k
          → All (λ x. Q x.list) (push_front e opts o k)
      go none k a = All-append (λ x. Q x.list) k _ a (q, tt)
      go (some f) k a =
          elim (Bool-cases (ltb_ℤ (sub64 e.unix_nano f.unix_nano) opts.endpoints_save_interval)) [
            | inl near ↦
                rw near
                  (All-append (λ x. Q x.list) _ _ (All-remove_front (λ x. Q x.list) k a) (q, tt))
            | inr far ↦ rw far (All-append (λ x. Q x.list) k _ a (q, tt))
          ]

  -- What a push stores in front is the pushed object as the call leaves it.
  pub push-front_stamp :
      (e : Elem) (l : LoopList) → list_front (push e opts l) ≡ some (push_stamp e opts l)
  unfolding push push_front push_stamp
  push-front_stamp e l =
      go (list_front (del_timeout e.unix_nano opts l)) (del_timeout e.unix_nano opts l)
    where
      go :
          (f : Option Elem) (k : LoopList)
          → list_front (push_front e opts f k) ≡ some (stamp_front e opts f)
      go none k = front-append k e
      go (some f) k =
          elim (Bool-cases (ltb_ℤ (sub64 e.unix_nano f.unix_nano) opts.endpoints_save_interval)) [
            | inl near ↦
                rw near (front-append (remove_front k) (record e { unix_nano = f.unix_nano }))
            | inr far ↦ rw far (front-append k e)
          ]
