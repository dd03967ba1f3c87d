-- ===== src/LoadBalance.antt =====
-- loadbalance/loadbalance.go: one balancer for each service, made anew when its list has changed.
use xdiscovery.Prelude.{
  ℕ, zero, suc, ◌+◌, ◌-◌, ◌≤◌, ◌<◌, ◌≡◌, refl, sym, ap, ◌∙◌, ◌≢◌, ◌↔◌, ◌⊎◌, inl, inr, Bool, true,
  false, not, ◌&&◌, ◌||◌, Option, none, some, List, [], ◌∷◌, ◌++◌, arith, if◌then◌else◌, Bool-cases,
  Option-cases, ℤ, pos, negsuc, length, All, In, Text, codes, map, insert, Map, lookup,
}
pub mod Sharing
pub mod Reuse
pub mod Current
use xdiscovery.Service.{Service, ServiceList}
use xdiscovery.CheckChange.{
  CheckChange, Made, made, failed, panicked, NewValue, new_check_change, get_value, returned,
  returned_error, call_panicked,
}
use xdiscovery.Wrr.{
  ok, err, Error, panicked as wrr_panicked, RoundRobinWeight, new_round_robin_weight, upsert_server,
  next_server,
}

pub record QueryOpts : Type 0 where
  pub tags : List Text
  pub dc : Text

pub record LoadBalance : Type 0 where
  pub checks : Map (CheckChange RoundRobinWeight)

-- `NewLoadBalance` of a discovery that is not nil.
abbrev pub new_load_balance : LoadBalance
new_load_balance = record { checks = [] }

-- The loop of `buildLoadBalance`.
unfoldable pub upsert_all : List Service → RoundRobinWeight → Made RoundRobinWeight
upsert_all [] rr = made rr
upsert_all (srv ∷ srvs) rr = elim (upsert_server (some srv) rr) [
  | ok rr' ↦ upsert_all srvs rr'
  | err e ↦ failed
  | wrr_panicked ↦ panicked
]

unfoldable pub build_load_balance : NewValue RoundRobinWeight
build_load_balance list = upsert_all list.services new_round_robin_weight

-- What `Next` returns: a node, an error of making the first balancer, of the discovery, of making
-- the next balancer or of the balancer itself, or a panic.
pub data Choice : Type 0 where
  chosen : Service → Choice
  check_failed discovery_failed build_failed : Choice
  balancer_failed : Error → Choice
  choice_panicked : Choice

-- The checker of a service, which `Next` makes at the first call.
unfoldable pub check_of : Text → LoadBalance → Made (CheckChange RoundRobinWeight)
unfolding lookup
check_of service l = elim (lookup service l.checks) [
  | some cc ↦ made cc
  | none ↦ new_check_change build_load_balance false
]

-- `lb.NextServer()`, of the balancer that `GetValue` returns.
unfoldable pub choose : (ℕ → ℕ) → Option RoundRobinWeight → Choice
choose intn none = build_failed
choose intn (some lb) = elim (next_server intn lb) [
  | ok u ↦ chosen u
  | err e ↦ balancer_failed e
  | wrr_panicked ↦ choice_panicked
]

-- The part of `Next` after the checker is known: `answer` is `GetServersWithDC`, and `gap` what
-- others do to the checker in `GetValue`.
unfoldable pub next_checked :
    (CheckChange RoundRobinWeight → CheckChange RoundRobinWeight)
    → (ℕ → ℕ)
    → Text
    → Option ServiceList
    → CheckChange RoundRobinWeight
    → LoadBalance
    → LoadBalance × Choice
unfolding choose
next_checked gap intn service none cc l =
    (record l { checks = insert service cc l.checks }, discovery_failed)
next_checked gap intn service (some list) cc l =
    let a = get_value gap cc list in
    (
      record l { checks = insert service a.state l.checks },
      elim a.ending [
        | returned ↦ choose intn a.value
        | returned_error ↦ build_failed
        | call_panicked ↦ choice_panicked
      ],
    )

-- `Next`: `discovery` is `GetServersWithDC` of the discovery, whose `none` is an error.
unfoldable pub next :
    (Text → Text → List Text → Option ServiceList)
    → (CheckChange RoundRobinWeight → CheckChange RoundRobinWeight)
    → (ℕ → ℕ)
    → Text
    → QueryOpts
    → LoadBalance
    → LoadBalance × Choice
next discovery gap intn service opts l = elim (check_of service l) [
  | failed ↦ (l, check_failed)
  | panicked ↦ (l, choice_panicked)
  | made cc ↦ next_checked gap intn service (discovery service opts.dc opts.tags) cc l
]
