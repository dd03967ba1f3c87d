-- ===== src/Recover.antt =====
-- wrap.go: a discovery that can serve stored lists in place of the registry's. The discovery inside
-- is a parameter.
use xdiscovery.Prelude.{
  ℕ, zero, suc, ◌+◌, ◌-◌, ◌≤◌, ◌<◌, ◌≡◌, refl, sym, ap, ◌∙◌, ◌≢◌, ◌↔◌, ◌⊎◌, inl, inr, Bool, true,
  false, not, ◌&&◌, ◌||◌, Option, none, some, List, [], ◌∷◌, ◌++◌, arith, if◌then◌else◌, Bool-cases,
  Option-cases, ℤ, pos, negsuc, length, All, In, Text, codes, map, Map, has_key, lookup, insert,
}
pub mod Modes
use xdiscovery.Service.{ServiceList, recover}

-- `GetServersWithDC(service, dc)` of the discovery inside: `none` is an error.
abbrev pub Inner : Type 0
Inner = Text → Text → Option ServiceList

pub record WithRecoverDiscovery : Type 0 where
  pub watched_services : Map Bool
  pub srvs : Option (Map ServiceList)

-- `WrapWithRecoverDiscovery`
abbrev pub wrap_with_recover_discovery : WithRecoverDiscovery
wrap_with_recover_discovery = record { watched_services = []; srvs = none }

-- A list, `ErrNotExistOnRecover`, or the error of the discovery inside.
pub data Found : Type 0 where
  found : ServiceList → Found
  not_exist_on_recover : Found
  inner_failed : Found

-- The stored list in the recover mode.
unfoldable pub recovered : Text → Map ServiceList → Found
unfolding lookup
recovered service srvs = elim (lookup service srvs) [
  | none ↦ not_exist_on_recover
  | some list ↦ found (record list { run_mode = recover })
]

unfoldable pub ask_inner : Inner → Text → Text → Found
ask_inner inner service dc = elim (inner service dc) [
  | none ↦ inner_failed
  | some list ↦ found list
]

-- The answer of `GetServersWithDC`, by the stored lists that the call has read.
unfoldable pub answer_of : Inner → Option (Map ServiceList) → Text → Text → Found
unfolding ask_inner recovered
answer_of inner none service dc = ask_inner inner service dc
answer_of inner (some []) service dc = ask_inner inner service dc
answer_of inner (some (s ∷ srvs)) service dc = recovered service (s ∷ srvs)

-- `GetServersWithDC`; the tags are not passed on.
unfoldable pub recover_get_servers :
    Inner → Text → Text → List Text → WithRecoverDiscovery → WithRecoverDiscovery × Found
recover_get_servers inner service dc tags d = (
  if has_key service d.watched_services
      then d
      else record d { watched_services = insert service true d.watched_services },
  answer_of inner d.srvs service dc,
)

-- The loop of `GetAllWatchedServices`. `none` is an error of the discovery inside. Each service is
-- watched, so the calls inside change nothing.
unfoldable pub get_all_loop :
    Inner → WithRecoverDiscovery → Map Bool → Map ServiceList → Option (Map ServiceList)
get_all_loop inner d [] srvs = some srvs
get_all_loop inner d ((s, b) ∷ ss) srvs =
    let skip = get_all_loop inner d ss srvs in
    elim (recover_get_servers inner s [] [] d).1 [
      | inner_failed ↦ none
      | not_exist_on_recover ↦ skip
      | found srv ↦ get_all_loop inner d ss (insert s srv srvs)
    ]

-- `GetAllWatchedServices`
unfoldable pub get_all_watched_services : Inner → WithRecoverDiscovery → Option (Map ServiceList)
get_all_watched_services inner d = get_all_loop inner d d.watched_services []

-- `SetRecover`
unfoldable pub set_recover : Option (Map ServiceList) → WithRecoverDiscovery → WithRecoverDiscovery
set_recover none d = record d { srvs = some [] }
set_recover (some srvs) d = record d { srvs = some srvs }
