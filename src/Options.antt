-- ===== src/Options.antt =====
-- mod_options.go: the options of a registration and of the degradation, and the float64
-- arithmetic that the thresholds use.
use xdiscovery.Prelude.{ℕ, ◌<◌, ◌≤◌, ◌≡◌, ℤ, Text, Map, Bool, false, List, Option}

-- float64 as a parameter: `of_ℕ` is the conversion of a length, `tenth` the constant 0.1. The laws
-- are those of IEEE 754: a quotient by zero is NaN or +Inf, which no comparison puts below a
-- finite threshold; rounding is monotone, so a quotient of a larger by a smaller count is not
-- below one; zero divided by a positive count is zero.
pub record Float64 : Type 1 where
  pub F : Type 0
  pub of_ℕ : ℕ → F
  pub div : F → F → F
  pub lt : F → F → Bool
  pub is_zero : F → Bool
  pub tenth : F
  pub div_by_zero : (a : ℕ) (t : F) → lt (div (of_ℕ a) (of_ℕ 0)) t ≡ false
  pub div-ge_one :
      (a b : ℕ) (t : F)
      → b ≤ a
      → 0 < b
      → lt (of_ℕ 1) t ≡ false
      → lt (div (of_ℕ a) (of_ℕ b)) t ≡ false
  pub zero_div : (b : ℕ) (t : F) → 0 < b → lt (div (of_ℕ 0) (of_ℕ b)) t ≡ lt (of_ℕ 0) t

-- Durations are int64 nanoseconds.
pub record DegradeOpts (F : Type 0) : Type 0 where
  pub threshold : F
  pub panic_threshold : F
  pub threshold_contrast_interval : ℤ
  pub endpoints_save_interval : ℤ
  pub flag : ℤ  -- int32
  pub health_check_interval : ℤ
  pub ping_timeout : ℤ

pub record HttpCheck : Type 0 where
  pub path : Text
  pub method : Text
  pub header : Option (Map (List Text))

pub record RegisterOpts : Type 0 where
  pub check_ttl : ℤ
  pub check_ip : Text
  pub check_port : ℤ
  pub check_interval : ℤ
  pub check_timeout : ℤ
  pub check_http : Option HttpCheck

pub record WatchOption : Type 0 where
  pub dc : Text
