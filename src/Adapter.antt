-- ===== src/Adapter.antt =====
-- adapter/init.go: the checks that an adapter makes before it registers a service. `os.Hostname` is
-- a parameter.
use xdiscovery.Service.Domain.{check_service_or_tag_name}
use xdiscovery.Prelude.{
  ℕ, zero, suc, ◌+◌, ◌-◌, ◌≤◌, ◌<◌, ◌≡◌, refl, sym, ap, ◌∙◌, ◌≢◌, ◌↔◌, ◌⊎◌, inl, inr, Bool, true,
  false, not, ◌&&◌, ◌||◌, Option, none, some, List, [], ◌∷◌, ◌++◌, arith, if◌then◌else◌, Bool-cases,
  Option-cases, ℤ, pos, negsuc, length, All, In, Text, codes, map, is_empty, ◌==◌,
}
pub mod Checks
use xdiscovery.Service.{Service, or_nil}
use xdiscovery.Options.{RegisterOpts}

pub data ParseError : Type 0 where
  invalid_name invalid_tag : Text → ParseError
  zero_weight : ParseError

-- The service and the options to register it with, or an error.
pub data Parsed : Type 0 where
  parsed : Service → RegisterOpts → Parsed
  parse_failed : ParseError → Parsed

-- `if given != 0 { use given }`
unfoldable pub or_number : ℤ → ℤ → ℤ
or_number default_ (pos zero) = default_
or_number default_ (pos (suc n)) = pos (suc n)
or_number default_ (negsuc n) = negsuc n

-- The new options.
unfoldable pub new_opts : Service → RegisterOpts → RegisterOpts
unfolding or_number
new_opts svc opts = record {
  check_ttl = or_number (pos 0) opts.check_ttl;
  check_ip = if is_empty opts.check_ip then svc.address else opts.check_ip;
  check_port = or_number svc.port opts.check_port;
  check_interval = or_number (pos 0) opts.check_interval;
  check_timeout = or_number (pos 0) opts.check_timeout;
  check_http = opts.check_http;
}

-- The first tag that is not allowed.
unfoldable pub bad_tag : List Text → Option Text
bad_tag [] = none
bad_tag (tag ∷ tags) =
    let rest = bad_tag tags in if check_service_or_tag_name tag then rest else some tag

-- The id of a service that has none.
unfoldable pub with_id : Text → Service → Service
with_id hostname svc =
    if is_empty svc.id
    then record svc { id = svc.name ++ codes "~" ++ svc.address ++ codes "~" ++ hostname }
    else svc

unfoldable pub has_weight : ℤ → Bool
has_weight (pos n) = not (n == 0)
has_weight (negsuc n) = true

-- `ParseService`. The code gives the service that it was given an id; here that is the new service.
unfoldable pub parse_service : Text → Service → RegisterOpts → Parsed
unfolding has_weight with_id new_opts
parse_service hostname svc opts =
    if not (check_service_or_tag_name svc.name)
    then parse_failed (invalid_name svc.name)
    else (elim (bad_tag (or_nil svc.tags)) [
      | some tag ↦ parse_failed (invalid_tag tag)
      | none ↦
          if not (has_weight svc.weight)
          then parse_failed zero_weight
          else parsed (with_id hostname svc) (new_opts svc opts)
    ])
