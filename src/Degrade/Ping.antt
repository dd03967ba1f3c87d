-- ===== src/Degrade/Ping.antt =====
-- discovery/downgrade.go: `continueDoPing`, one round of health checks, and `pingLoop`, which runs
-- rounds until one says stop or its context is done. The metrics and log lines are left out.
use xdiscovery.Prelude.{
  length, ltb, ℕ, Bool, true, false, ◌&&◌, Option, none, some, List, [], ◌∷◌, if◌then◌else◌, ℤ,
}
use xdiscovery.Service.{Service, panic, self_protection, incr64}
use xdiscovery.Options.{Float64, DegradeOpts}
use xdiscovery.LoopList.{Elem, back}
use xdiscovery.Degrade.{
  DegradeStatus, status_normal, status_self_protection, status_panic, Degrade, is_self_protection,
  is_panic, ctx_is_done,
}
use xdiscovery.Degrade.Handlers.{stop_self_protection}
use xdiscovery.Degrade.Health.{Network, gather, healthy, list_same}

-- What other goroutines do between the sections of a round.
pub record PingGaps (F : Type 0) : Type 0 where
  pub before_status : Degrade F → Degrade F
  pub before_switch : Degrade F → Degrade F
  pub before_apply : Degrade F → Degrade F
  pub in_stop : Degrade F → Degrade F

-- The arguments of a round: the loop's context and health check version, the Back of the
-- history and of the stable history when the loop began.
pub record PingArgs : Type 0 where
  pub ctx : ℕ
  pub health_check_version : ℕ
  pub el : Option Elem
  pub elstable : Option Elem

pub record PingResult (F : Type 0) : Type 0 where
  pub state : Degrade F
  pub do_ping : Bool

abbrev pub elem_services : Option Elem → List Service
elem_services none = []
elem_services (some e) = e.list.services

module _ (fl : Float64) where
  open fl use {F, of_ℕ, div, lt}

  -- `len(of) > 0 && len(health)/len(of) < threshold`
  unfoldable pub is_below : List Service → List Service → F → Bool
  is_below health base threshold =
      ltb 0 (length base) && lt (div (of_ℕ (length health)) (of_ℕ (length base))) threshold

  unfoldable pub keep_pinging : Degrade F → PingResult F
  keep_pinging d = record { state = d; do_ping = true }

  -- The locked section that enters the panic mode.
  unfoldable pub enter_panic : ℕ → List Service → Degrade F → Degrade F
  enter_panic ctx stable d =
      if ctx_is_done ctx d.cancelled
      then d
      else if is_self_protection d.status
      then record d {
        status = status_panic;
        apply_list = record {
          watch_version = d.apply_list.watch_version;
          version = d.apply_list.version;
          run_mode = panic;
          services = stable;
        };
      }
      else d

  unfoldable pub leave_panic : Degrade F → Degrade F
  leave_panic d = if is_panic d.status then record d { status = status_self_protection } else d

  -- The locked section that applies the nodes that passed.
  unfoldable pub apply_health : PingArgs → List Service → Degrade F → Degrade F
  apply_health args health d =
      if ctx_is_done args.ctx d.cancelled
      then d
      else if is_self_protection d.status
      then record d {
        apply_list = record {
          watch_version = d.apply_list.watch_version;
          version = args.health_check_version;
          run_mode = self_protection;
          services = health;
        };
      }
      else d

  -- The deferred call: a round that would stop goes on if the registry's list has changed size.
  unfoldable pub try_stop : ℕ → ℤ → (Degrade F → Degrade F) → Degrade F → PingResult F
  try_stop want now gap d =
      let (d', err) = stop_self_protection (some want) now gap d in
      elim err [
        | none ↦ record { state = d'; do_ping = false }
        | some e ↦ record { state = d'; do_ping = true }
      ]

  -- The end of a round, with the status that the switch has left.
  unfoldable pub finish_round :
      PingArgs
      → ℤ
      → PingGaps F
      → List Service
      → List Service
      → DegradeStatus
      → Degrade F
      → PingResult F
  unfolding keep_pinging
  finish_round args now gaps latest health status d =
      let next = gaps.before_apply d in
      if is_self_protection status && list_same health latest
      then try_stop (length latest) now gaps.in_stop next
      else keep_pinging (apply_health args health next)

  -- The switch on the status read after the checks, and the end.
  unfoldable pub switch_status :
      DegradeOpts F
      → PingArgs
      → ℤ
      → PingGaps F
      → List Service
      → List Service
      → DegradeStatus
      → Degrade F
      → PingResult F
  unfolding keep_pinging
  switch_status opts args now gaps latest health status_normal d =
      finish_round args now gaps latest health status_normal d
  switch_status opts args now gaps latest health status_self_protection d =
      if is_below health (elem_services args.el) opts.panic_threshold
      then keep_pinging (enter_panic args.ctx (elem_services args.elstable) (gaps.before_switch d))
      else finish_round args now gaps latest health status_self_protection d
  switch_status opts args now gaps latest health status_panic d =
      if is_below health (elem_services args.elstable) opts.threshold
      then keep_pinging d
      else (let next = gaps.before_switch d in
          if ctx_is_done args.ctx next.cancelled
          then keep_pinging next
          else (let left = leave_panic next in
              finish_round args now gaps latest health left.status left))

  unfoldable pub continue_do_ping : Network → PingArgs → ℤ → PingGaps F → Degrade F → PingResult F
  continue_do_ping net args now gaps d =
      let opts = d.opts in
      let latest = d.latest_adapter_list.services in
      let health = healthy net opts.ping_timeout (gather latest (elem_services args.el)) in
      let checked = gaps.before_status d in
      switch_status opts args now gaps latest health checked.status checked

  -- The first section of `pingLoop`: the loop's arguments. It prunes both histories.
  unfoldable pub ping_start : ℕ → ℤ → Degrade F → Degrade F × PingArgs
  unfolding back
  ping_start ctx now d =
      let (history, el) = back now d.opts d.history_endpoints in
      let (stable, elstable) = back now d.opts d.stable_history_endpoints in
      (
        record d { history_endpoints = history; stable_history_endpoints = stable },
        record {
          ctx = ctx;
          health_check_version = d.apply_list.version;
          el = el;
          elstable = elstable;
        },
      )

  -- One turn of the loop's `select`: the context is done, or the timer has fired, the network
  -- answers, and others have run since the last turn.
  pub data Wake : Type 0 where
    ctx_done : Wake
    timer : Network → ℤ → (Degrade F → Degrade F) → PingGaps F → Wake

  -- The turns that a loop takes, from its second round on.
  unfoldable pub ping_turns : PingArgs → List Wake → Degrade F → Degrade F
  ping_turns args [] d = d
  ping_turns args (ctx_done ∷ wakes) d = d
  ping_turns args (timer net now waiting gaps ∷ wakes) d =
      let args' = record args { health_check_version = incr64 args.health_check_version } in
      let result = continue_do_ping net args' now gaps (waiting d) in
      let rest = ping_turns args' wakes result.state in
      if result.do_ping then rest else result.state

  -- `pingLoop`: the first round at once, then the turns.
  unfoldable pub ping_loop : ℕ → Network → ℤ → ℤ → PingGaps F → List Wake → Degrade F → Degrade F
  ping_loop ctx net started now gaps wakes d =
      let (d', args) = ping_start ctx started d in
      let result = continue_do_ping net args now gaps d' in
      if result.do_ping then ping_turns args wakes result.state else result.state
