-- ===== src/Degrade/OnlinePing.antt =====
-- discovery/downgrade.go: offline nodes in the lists of a degradation, for the ping loop.
use xdiscovery.Prelude.{select-All, All-append, ℕ, some, List, [], ◌∷◌, arith, ℤ, length, All, Text}
use xdiscovery.Service.{Service, incr64}
use xdiscovery.Options.{Float64, DegradeOpts}
use xdiscovery.LoopList.{LoopList, back, list_back}
use xdiscovery.LoopList.Shape.{All-del_timeout}
use xdiscovery.Degrade.{Degrade, status_normal, DegradeStatus}
use xdiscovery.Degrade.Nodes.{IsOnline}
use xdiscovery.Degrade.Health.{Network, gather, healthy, add_all, add_endpoint, check_health}
use xdiscovery.Degrade.Ping.{
  PingGaps, PingArgs, elem_services, enter_panic, leave_panic, apply_health, try_stop, finish_round,
  switch_status, continue_do_ping, ping_start, ping_turns, ping_loop, Wake, ctx_done, timer,
}
use xdiscovery.Degrade.{status_normal, status_self_protection, status_panic}
use xdiscovery.Degrade.Online.{
  HasOnline, Keeps, stop_self_protection-HasOnline, IsOnlineList, IsOnlineHistory,
}

-- What is merged for the checks comes from the two lists.
module _ (P : Service → Type 0) where
  add_endpoint-All :
      (found : List Text × List Service) (e : Service)
      → P e
      → All P found.1
      → All P (add_endpoint found e).1
  unfolding add_endpoint
  add_endpoint-All (used, out) e p o =
      let more = All-append P out (e ∷ []) o (p, tt) in ground arith

  add_all-All :
      (es : List Service) (found : List Text × List Service)
      → All P es
      → All P found.1
      → All P (add_all es found).1
  unfolding add_all
  add_all-All [] found h o = o
  add_all-All (e ∷ es) found h o =
      add_all-All es (add_endpoint found e) h.1 (add_endpoint-All found e h.0 o)

  pub gather-All :
      (latest history : List Service) → All P latest → All P history → All P (gather latest history)
  unfolding gather
  gather-All latest history h k =
      add_all-All history (add_all latest ([], [])) k (add_all-All latest ([], []) h tt)

-- A round of health checks.
module _ (fl : Float64) where
  open fl use {F}

  -- Every gap of a round keeps the invariant.
  pub record PingGapsKeep (g : PingGaps F) : Type 0 where
    pub status_gap : Keeps g.before_status
    pub switch_gap : Keeps g.before_switch
    pub apply_gap : Keeps g.before_apply
    pub cancel_gap : Keeps g.in_stop

  -- The lists that a loop took when it began hold no offline node.
  pub record ArgsOnline (args : PingArgs) : Type 0 where
    pub el_online : All IsOnline (elem_services args.el)
    pub elstable_online : All IsOnline (elem_services args.elstable)

  enter_panic-HasOnline :
      (ctx : ℕ) (stable : List Service) (d : Degrade F)
      → All IsOnline stable
      → HasOnline d
      → HasOnline (enter_panic fl ctx stable d)
  unfolding enter_panic
  enter_panic-HasOnline ctx stable d o h = ground arith

  leave_panic-HasOnline : (d : Degrade F) → HasOnline d → HasOnline (leave_panic fl d)
  unfolding leave_panic
  leave_panic-HasOnline d h = ground arith

  apply_health-HasOnline :
      (args : PingArgs) (health : List Service) (d : Degrade F)
      → All IsOnline health
      → HasOnline d
      → HasOnline (apply_health fl args health d)
  unfolding apply_health
  apply_health-HasOnline args health d o h = ground arith

  try_stop-HasOnline :
      (want : ℕ) (now : ℤ) (gap : Degrade F → Degrade F) (d : Degrade F)
      → Keeps gap
      → HasOnline d
      → HasOnline (try_stop fl want now gap d).state
  unfolding try_stop
  try_stop-HasOnline want now gap d k h =
      ground (arith, stop_self_protection-HasOnline (some want) now gap d k h)

  finish_round-HasOnline :
      (args : PingArgs) (now : ℤ) (g : PingGaps F) (latest health : List Service)
      (status : DegradeStatus) (d : Degrade F)
      → PingGapsKeep g
      → All IsOnline health
      → HasOnline d
      → HasOnline (finish_round fl args now g latest health status d).state
  unfolding finish_round
  finish_round-HasOnline args now g latest health status d k o h = ground (
    arith,
    k.apply_gap d h,
    try_stop-HasOnline (length latest) now g.in_stop (g.before_apply d) k.cancel_gap,
    apply_health-HasOnline args health (g.before_apply d) o,
  )

  switch_status-HasOnline :
      (opts : DegradeOpts F) (args : PingArgs) (now : ℤ) (g : PingGaps F)
      (latest health : List Service) (status : DegradeStatus) (d : Degrade F)
      → PingGapsKeep g
      → ArgsOnline args
      → All IsOnline health
      → HasOnline d
      → HasOnline (switch_status fl opts args now g latest health status d).state
  unfolding switch_status
  switch_status-HasOnline opts args now g latest health status_normal d k a o h =
      finish_round-HasOnline args now g latest health status_normal d k o h
  switch_status-HasOnline opts args now g latest health status_self_protection d k a o h =
      let finished =
        finish_round-HasOnline args now g latest health status_self_protection d k o h in
      let entered =
        enter_panic-HasOnline args.ctx (elem_services args.elstable) (g.before_switch d)
          a.elstable_online (k.switch_gap d h) in
      ground arith
  switch_status-HasOnline opts args now g latest health status_panic d k a o h =
      let next = k.switch_gap d h in
      let left = leave_panic-HasOnline (g.before_switch d) next in
      let finished =
        finish_round-HasOnline args now g latest health (leave_panic fl (g.before_switch d)).status
          (leave_panic fl (g.before_switch d)) k o left in
      ground arith

  -- A round of health checks, with what other goroutines do between its sections, keeps offline
  -- nodes out, in the self-protection mode and in the panic mode too.
  pub continue_do_ping-HasOnline :
      (net : Network) (args : PingArgs) (now : ℤ) (g : PingGaps F) (d : Degrade F)
      → PingGapsKeep g
      → ArgsOnline args
      → HasOnline d
      → HasOnline (continue_do_ping fl net args now g d).state
  unfolding continue_do_ping healthy
  continue_do_ping-HasOnline net args now g d k a h =
      let merged =
        gather-All IsOnline d.latest_adapter_list.services (elem_services args.el) h.latest_online
          a.el_online in
      switch_status-HasOnline d.opts args now g _ _ (g.before_status d).status (g.before_status d) k
        a (select-All IsOnline (λ e. check_health net e d.opts.ping_timeout) _ merged)
        (k.status_gap d h)

  -- What runs between the turns keeps the invariant.
  abbrev pub WakesKeep : List (Wake fl) → Type 0
  WakesKeep [] = Unit
  WakesKeep (ctx_done ∷ wakes) = WakesKeep wakes
  WakesKeep (timer net now waiting g ∷ wakes) = (Keeps waiting × PingGapsKeep g) × WakesKeep wakes

  list_back-IsOnline :
      (l : LoopList) → IsOnlineHistory l → All IsOnline (elem_services (list_back l))
  list_back-IsOnline [] h = tt
  list_back-IsOnline (e ∷ l) h = h.0

  ping_turns-HasOnline :
      (args : PingArgs) (wakes : List (Wake fl)) (d : Degrade F)
      → ArgsOnline args
      → WakesKeep wakes
      → HasOnline d
      → HasOnline (ping_turns fl args wakes d)
  unfolding ping_turns
  ping_turns-HasOnline args [] d a k h = h
  ping_turns-HasOnline args (ctx_done ∷ wakes) d a k h = h
  ping_turns-HasOnline args (timer net now waiting g ∷ wakes) d a k h =
      let args' : PingArgs = record args {
        health_check_version = incr64 args.health_check_version;
      } in
      let a' : ArgsOnline args' = record {
        el_online = a.el_online;
        elstable_online = a.elstable_online;
      } in
      let round = continue_do_ping-HasOnline net args' now g (waiting d) k.0.1 a' (k.0.0 d h) in
      let rest = ping_turns-HasOnline args' wakes _ a' k.1 round in ground arith

  -- If the registry's list, both histories and the applied list hold no offline node, and what
  -- other goroutines do between the sections of the rounds and between the turns keeps it so, then
  -- they hold none after a whole ping loop, whatever the network answers.
  pub ping_loop-HasOnline :
      (ctx : ℕ) (net : Network) (started now : ℤ) (g : PingGaps F) (wakes : List (Wake fl))
      (d : Degrade F)
      → PingGapsKeep g
      → WakesKeep wakes
      → HasOnline d
      → HasOnline (ping_loop fl ctx net started now g wakes d)
  unfolding ping_loop ping_start back
  ping_loop-HasOnline ctx net started now g wakes d k w h =
      let history =
        All-del_timeout d.opts (λ x. IsOnlineList x.list) started d.history_endpoints
          h.history_online in
      let stable =
        All-del_timeout d.opts (λ x. IsOnlineList x.list) started d.stable_history_endpoints
          h.stable_online in
      let begun : HasOnline (ping_start fl ctx started d).0 = record {
        latest_online = h.latest_online;
        history_online = history;
        stable_online = stable;
        apply_online = h.apply_online;
      } in
      let a : ArgsOnline (ping_start fl ctx started d).1 = record {
        el_online = list_back-IsOnline _ history;
        elstable_online = list_back-IsOnline _ stable;
      } in
      let round = continue_do_ping-HasOnline net _ now g _ k a begun in
      let rest = ping_turns-HasOnline _ wakes _ a w round in ground arith
