-- ===== src/Prelude/Errors.antt =====
-- `if err != nil { return err }`, where `none` is an error.
use mathlib.Core.Option.{Option, none, some}

infixl 5 ◌>>=◌
abbrev pub ◌>>=◌ : {A B : Type 0} → Option A → (A → Option B) → Option B
none >>= f = none
some a >>= f = f a
