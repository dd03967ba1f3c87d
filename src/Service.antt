-- ===== src/Service.antt =====
-- mod_service.go, mod_check.go, const_run_model.go, mod_event.go, const_action.go: the data that
-- the parts exchange. A nilable slice or map is an `Option`; a pointer that is never compared or
-- written through is its value.
pub mod Domain
pub mod Copy
use xdiscovery.Prelude.{
  ℕ, ◌%◌, ◌+◌, ◌++◌, ◌≡◌, ℤ, pos, pos_part, ltb_ℤ, Text, codes, text_eq, is_empty, format_int, Map,
  Bool, not, ◌&&◌, List, [], ◌∷◌, Option, none, some, if◌then◌else◌, zero, suc, ◌-◌, ◌≤◌, ◌<◌, refl,
  sym, ap, ◌∙◌, ◌≢◌, ◌↔◌, ◌⊎◌, inl, inr, true, false, ◌||◌, arith, Bool-cases, Option-cases, negsuc,
  length, All, In, map,
}

pub record HealthCheck : Type 0 where
  pub interval : ℤ
  pub timeout : ℤ
  pub http : Text
  pub header : Option (Map (List Text))
  pub method : Text
  pub tcp : Text

pub record Service : Type 0 where
  pub id : Text
  pub name : Text
  pub address : Text
  pub port : ℤ
  pub tags : Option (List Text)
  pub weight : ℤ
  pub meta : Option (Map Text)
  pub health_check : Option HealthCheck

-- The zero value stands in a `ServiceList` that no one has given a mode.
pub data RunMode : Type 0 where
  unset normal recover self_protection init panic : RunMode

pub record ServiceList : Type 0 where
  pub watch_version : ℕ  -- uint64
  pub version : ℕ  -- uint64
  pub run_mode : RunMode
  pub services : List Service

pub data Action : Type 0 where
  add del mod_ : Action

pub record Event : Type 0 where
  pub action : Action
  pub service : Service

-- `ServiceList{}`
abbrev pub empty_list : ServiceList
empty_list = record { watch_version = 0; version = 0; run_mode = unset; services = [] }

-- A nil slice or map reads as an empty one.
abbrev pub or_nil {ℓ} : {A : Type ℓ} → Option (List A) → List A
or_nil none = []
or_nil (some xs) = xs

-- `a != b` on run modes, by their numbers.
abbrev pub mode_number : RunMode → ℕ
mode_number unset = 0
mode_number normal = 1
mode_number recover = 2
mode_number self_protection = 3
mode_number init = 4
mode_number panic = 5

-- `GetSelfProtectionID`; the log line is left out.
unfoldable pub get_self_protection_id : Service → Text
unfolding format_int
get_self_protection_id svc =
    if not (is_empty svc.name) && not (is_empty svc.address) && ltb_ℤ (pos 0) svc.port
    then svc.name ++ codes "|" ++ svc.address ++ codes "|" ++ format_int (pos_part svc.port)
    else svc.id

-- `x++` on a uint64.
abbrev pub incr64 : ℕ → ℕ
incr64 n = (n + 1) % 18446744073709551616
