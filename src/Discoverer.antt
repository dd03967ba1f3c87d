-- ===== src/Discoverer.antt =====
-- discovery/discovery.go: the discovery object, with one watch for each service and data centre.
use xdiscovery.Prelude.{
  ℕ, zero, suc, ◌+◌, ◌-◌, ◌≤◌, ◌<◌, ◌≡◌, refl, sym, ap, ◌∙◌, ◌≢◌, ◌↔◌, ◌⊎◌, inl, inr, Bool, true,
  false, not, ◌&&◌, ◌||◌, Option, none, some, List, [], ◌∷◌, ◌++◌, arith, if◌then◌else◌, Bool-cases,
  Option-cases, ℤ, pos, negsuc, length, All, In, Text, codes, map, leb, insert, Map, lookup,
}
pub mod Watchers
pub mod Settings
use xdiscovery.Service.{Service, ServiceList}
use xdiscovery.Options.{Float64, DegradeOpts, WatchOption}
use xdiscovery.Degrade.{Degrade, Error}
use xdiscovery.Degrade.Handlers.{new_degrade, update_opts}
use xdiscovery.Watch.{Watch, watch_get_list}

pub record Discoverer (F : Type 0) : Type 0 where
  pub init_history_endpoints : Option (Map ServiceList)
  pub degrade_opts : DegradeOpts F
  pub watchers : Map (Watch F)

-- `Adapter.WatchList(service, deg.onUpdateList, opts)`: `none` is an error. The adapter may call
-- the callback before it returns, so it gives the state of the degradation that it leaves.
abbrev pub WatchList : Type 0 → Type 0
WatchList F = Text → WatchOption → Degrade F → Option (Degrade F)

-- The constants of downgrade.go, in nanoseconds.
abbrev pub default_threshold_contrast_interval : ℤ
default_threshold_contrast_interval = pos 900000000000

abbrev pub default_endpoints_save_interval : ℤ
default_endpoints_save_interval = pos 60000000000

abbrev pub default_health_check_interval : ℤ
default_health_check_interval = pos 30000000000

abbrev pub default_ping_timeout : ℤ
default_ping_timeout = pos 500000000

-- `if x == 0 { x = default }`
unfoldable pub or_interval : ℤ → ℤ → ℤ
or_interval default_ (pos zero) = default_
or_interval default_ (pos (suc n)) = pos (suc n)
or_interval default_ (negsuc n) = negsuc n

-- `opts.Flag < 0 || opts.Flag > 1`, negated.
unfoldable pub is_flag_valid : ℤ → Bool
is_flag_valid (pos n) = leb n 1
is_flag_valid (negsuc n) = false

-- The key of a watch.
unfoldable pub watch_key : Text → Text → Text
watch_key service [] = service
watch_key service (c ∷ dc) = service ++ codes "|" ++ c ∷ dc

pub data Failure : Type 0 where
  invalid_flag : ℤ → Failure
  watch_failed : Failure
  degrade_failed : Error → Failure

-- What a call returns.
pub data Answer (A : Type 0) : Type 0 where
  answered : A → Answer A
  refused : Failure → Answer A

-- The surroundings of a call: the adapter, the clock in `newDegrade`, and what others do while the
-- call is without the lock, and while it waits for the registry.
pub record World (F : Type 0) : Type 0 where
  pub watch_list : WatchList F
  pub stopped_at : ℤ
  pub started_at : ℤ
  pub before_lock : Discoverer F → Discoverer F
  pub waiting : Degrade F → Degrade F

module _ {F : Type 0} where
  unfoldable pub new_watch :
      World F
      → Text
      → Option (ServiceList → Option Error)
      → WatchOption
      → Discoverer F
      → Answer (Watch F)
  new_watch world service on_update_list opts d =
      let (deg, err) =
        new_degrade service d.degrade_opts d.init_history_endpoints on_update_list world.stopped_at
          world.started_at in
      elim err [
        | some e ↦ refused (degrade_failed e)
        | none ↦ elim (world.watch_list service opts deg) [
          | none ↦ refused watch_failed
          | some deg' ↦ answered (record { service = service; degrade = deg'; once = false })
        ]
      ]

  -- The list of a watch, which the map shares.
  unfoldable pub serve :
      World F → Text → List Text → Watch F → Discoverer F → Discoverer F × Answer ServiceList
  serve world key tags w d =
      let (w', list) = watch_get_list world.waiting tags w in
      (record d { watchers = insert key w' d.watchers }, answered list)

  -- The locked section of `GetServersWithDC`: it looks again, and watches the service.
  unfoldable pub watch_locked :
      World F → Text → Text → List Text → Discoverer F → Discoverer F × Answer ServiceList
  unfolding serve
  watch_locked world service dc tags d = elim (lookup (watch_key service dc) d.watchers) [
    | some w ↦ serve world (watch_key service dc) tags w d
    | none ↦ elim (new_watch world service none (record { dc = dc }) d) [
      | refused f ↦ (d, refused f)
      | answered w ↦
          serve world (watch_key service dc) tags w
            (record d { watchers = insert (watch_key service dc) w d.watchers })
    ]
  ]

  -- `GetServersWithDC`
  unfoldable pub get_servers_with_dc :
      World F → Text → Text → List Text → Discoverer F → Discoverer F × Answer ServiceList
  get_servers_with_dc world service dc tags d = elim (lookup (watch_key service dc) d.watchers) [
    | some w ↦ serve world (watch_key service dc) tags w d
    | none ↦ watch_locked world service dc tags (world.before_lock d)
  ]

  -- `GetServers`
  unfoldable pub get_servers :
      World F → Text → List Text → Discoverer F → Discoverer F × Answer ServiceList
  get_servers world service tags d = get_servers_with_dc world service [] tags d

  -- The loop of `UpdateDegradeOpts` over the watchers, up to the first error. Go walks over the map
  -- in any order.
  unfoldable pub update_watchers :
      DegradeOpts F → ℤ → (Degrade F → Degrade F) → Map (Watch F) → Map (Watch F) × Option Error
  update_watchers opts now gap [] = ([], none)
  update_watchers opts now gap ((key, w) ∷ ws) =
      let (deg, err) = update_opts opts now gap w.degrade in
      let rest = update_watchers opts now gap ws in
      elim err [
        | some e ↦ ((key, record w { degrade = deg }) ∷ ws, some e)
        | none ↦ ((key, record w { degrade = deg }) ∷ rest.0, rest.1)
      ]

module _ (fl : Float64) where
  open fl use {F, of_ℕ, is_zero, tenth}

  -- `DegradeOpts{}`
  unfoldable pub zero_opts : DegradeOpts F
  zero_opts = record {
    threshold = of_ℕ 0;
    panic_threshold = of_ℕ 0;
    threshold_contrast_interval = pos 0;
    endpoints_save_interval = pos 0;
    flag = pos 0;
    health_check_interval = pos 0;
    ping_timeout = pos 0;
  }

  unfoldable pub with_defaults : DegradeOpts F → DegradeOpts F
  unfolding or_interval
  with_defaults opts = record opts {
    threshold_contrast_interval =
        or_interval default_threshold_contrast_interval opts.threshold_contrast_interval;
    endpoints_save_interval =
        or_interval default_endpoints_save_interval opts.endpoints_save_interval;
    health_check_interval = or_interval default_health_check_interval opts.health_check_interval;
    ping_timeout = or_interval default_ping_timeout opts.ping_timeout;
    panic_threshold = if is_zero opts.panic_threshold then tenth else opts.panic_threshold;
  }

  -- `UpdateDegradeOpts` of options that are given.
  unfoldable pub update_given :
      DegradeOpts F → ℤ → (Degrade F → Degrade F) → Discoverer F → Discoverer F × Option Failure
  update_given opts now gap d =
      if not (is_flag_valid opts.flag)
      then (d, some (invalid_flag opts.flag))
      else (let (ws, err) = update_watchers (with_defaults opts) now gap d.watchers in
          (
            record d { degrade_opts = with_defaults opts; watchers = ws },
            elim err [ none ↦ none | some e ↦ some (degrade_failed e) ],
          ))

  -- `UpdateDegradeOpts`
  unfoldable pub update_degrade_opts :
      Option (DegradeOpts F)
      → ℤ
      → (Degrade F → Degrade F)
      → Discoverer F
      → Discoverer F × Option Failure
  unfolding zero_opts
  update_degrade_opts none now gap d = update_given zero_opts now gap d
  update_degrade_opts (some opts) now gap d = update_given opts now gap d

  -- `NewXDiscovery`
  unfoldable pub new_xdiscovery :
      Option (DegradeOpts F) → Option (Map ServiceList) → ℤ → Discoverer F × Option Failure
  unfolding zero_opts
  new_xdiscovery opts history now =
      update_degrade_opts opts now (λ x. x)
        (record { init_history_endpoints = history; degrade_opts = zero_opts; watchers = [] })
