-- ===== src/Degrade/Entry.antt =====
-- discovery/downgrade.go: the branches of `onUpdateList`, its test for a failing registry, and
-- `updateOpts`.
use native.Mathlib.Decide.{dec_lt}
use xdiscovery.Prelude.{
  select, Map, ℕ, ◌+◌, ◌≤◌, ◌<◌, ◌≡◌, refl, ap, ◌∙◌, Bool, true, false, Option, none, some, List,
  [], arith, ℤ,
}
use xdiscovery.Service.{Service, ServiceList}
use xdiscovery.Options.{Float64, DegradeOpts}
use xdiscovery.LoopList.{Elem, del_timeout, list_back, back}
use xdiscovery.Degrade.{
  Degrade, Error, DegradeStatus, status_normal, status_self_protection, is_normal,
  get_normal_services, push_both, ctx_is_done,
}
use xdiscovery.Degrade.Nodes.{is_online, get_normal_services-online}
use xdiscovery.Degrade.Handlers.{
  is_zero_ℤ, is_one, start_self_protection, stop_apply, cancel_ping, stop_self_protection,
  update_opts,
}
use xdiscovery.Degrade.Update.{
  Gaps, Clock, Outcome, online_count, counted, is_degraded, store_latest, notify, accept,
  update_normal, on_update_list,
}

-- The list without its offline nodes.
abbrev pub online_part : ServiceList → ServiceList
online_part l = record l { services = select is_online l.services }

-- No other goroutine runs between the sections of the handler.
abbrev pub no_gaps : {F : Type 0} → Gaps F
no_gaps = record {
  before_decision = λ d. d;
  before_push = λ d. d;
  before_stop = λ d. d;
  in_stop = λ d. d;
}

is_normal_eq : (st : DegradeStatus) → is_normal st ≡ true → st ≡ status_normal
is_normal_eq st h = ground arith

-- In the normal mode a stop only applies the registry's list.
pub stop_of_normal :
    {F : Type 0} (now : ℤ) (gap : Degrade F → Degrade F) (d : Degrade F)
    → is_normal d.status ≡ true
    → stop_self_protection none now gap d
      ≡ (gap (record d { apply_list = d.latest_adapter_list }), none)
unfolding stop_self_protection stop_apply cancel_ping
stop_of_normal now gap d h = ground arith

module _ (fl : Float64) where
  open fl use {F, of_ℕ, div, lt}

  -- The entry that the handler compares with: the Back after the pruning.
  abbrev pub base_of : Clock → Degrade F → Option Elem
  base_of clock d = list_back (del_timeout clock.at_back d.opts d.history_endpoints)

  -- The handler's test, on the list as it came.
  abbrev pub looks_degraded : Clock → Degrade F → ServiceList → Bool
  looks_degraded clock d incoming =
      is_degraded fl d.opts (base_of clock d) (get_normal_services incoming.services).1
        (select is_online incoming.services)

  -- In the self-protection mode and in the panic mode a list is stored, and the history pruned;
  -- nothing else changes, and no callback is made.
  pub on_update_list_busy :
      (clock : Clock) (g : Gaps F) (incoming : ServiceList) (d : Degrade F)
      → is_normal d.status ≡ false
      → on_update_list fl clock g incoming d ≡ record {
        state = record d {
          latest_adapter_list = online_part incoming;
          history_endpoints = del_timeout clock.at_back d.opts d.history_endpoints;
        };
        notified = none;
        error = none;
      }
  unfolding on_update_list update_normal store_latest back
  on_update_list_busy clock g incoming d h =
      ground (arith, get_normal_services-online incoming.services)

  -- In the normal mode, with no other goroutine between the sections, a list that looks degraded
  -- starts the self-protection: callers keep the list that they had, the new one is stored without
  -- its offline nodes, the history is pruned, a ping loop gets a fresh context, and no callback is
  -- made.
  pub on_update_list_failing :
      (clock : Clock) (incoming : ServiceList) (d : Degrade F)
      → is_normal d.status ≡ true
      → looks_degraded clock d incoming ≡ true
      → on_update_list fl clock no_gaps incoming d ≡ record {
        state = record d {
          status = status_self_protection;
          ping_ctx_cancel = some d.contexts;
          contexts = d.contexts + 1;
          latest_adapter_list = online_part incoming;
          history_endpoints = del_timeout clock.at_back d.opts d.history_endpoints;
        };
        notified = none;
        error = none;
      }
  unfolding on_update_list update_normal store_latest back start_self_protection
  on_update_list_failing clock incoming d n h =
      ground (arith, get_normal_services-online incoming.services)

  accept-eq :
      (opts : DegradeOpts F) (clock : Clock) (l : ServiceList) (d : Degrade F)
      → is_normal d.status ≡ true
      → accept fl opts clock no_gaps l d
        ≡ notify fl l (record (push_both (record { unix_nano = clock.at_push; list = l }) opts d) {
          apply_list = d.latest_adapter_list;
        })
  unfolding accept push_both
  accept-eq opts clock l d n = ground (
    arith,
    stop_of_normal clock.at_stop (λ s. s)
        (push_both (record { unix_nano = clock.at_push; list = l }) opts d) n,
  )

  on_update_list-taken :
      (clock : Clock) (incoming : ServiceList) (d : Degrade F)
      → is_normal d.status ≡ true
      → looks_degraded clock d incoming ≡ false
      → on_update_list fl clock no_gaps incoming d
        ≡ accept fl d.opts clock no_gaps (online_part incoming) (record d {
          latest_adapter_list = online_part incoming;
          history_endpoints = del_timeout clock.at_back d.opts d.history_endpoints;
        })
  unfolding on_update_list update_normal store_latest back
  on_update_list-taken clock incoming d n h =
      ground (arith, get_normal_services-online incoming.services)

  notified :
      (l : ServiceList) (s : Degrade F)
      → ((notify fl l s).state ≡ s)
        × ((s.do_update_list ≡ none)
            → ((notify fl l s).notified ≡ none) × ((notify fl l s).error ≡ none))
        × ((f : ServiceList → Option Error)
            → s.do_update_list ≡ some f
            → ((notify fl l s).notified ≡ some l) × ((notify fl l s).error ≡ f l))
  unfolding notify
  notified l s = (ground arith, λ e. ground arith, λ f e. ground arith)

  -- In the normal mode, with no other goroutine between the sections, a list that does not look
  -- degraded is applied: callers get its online nodes, the mode stays normal, the callback is given
  -- the same nodes, and its error is returned.
  pub on_update_list-accepted :
      (clock : Clock) (incoming : ServiceList) (d : Degrade F)
      → is_normal d.status ≡ true
      → looks_degraded clock d incoming ≡ false
      → let out = on_update_list fl clock no_gaps incoming d in
        (out.state.apply_list ≡ online_part incoming)
        × (out.state.latest_adapter_list ≡ online_part incoming)
        × (out.state.status ≡ status_normal)
        × ((d.do_update_list ≡ none) → (out.notified ≡ none) × (out.error ≡ none))
        × ((f : ServiceList → Option Error)
            → d.do_update_list ≡ some f
            → (out.notified ≡ some (online_part incoming)) × (out.error ≡ f (online_part incoming)))
  unfolding on_update_list update_normal store_latest back
  on_update_list-accepted clock incoming d n h =
      let stored : Degrade F = record d {
        latest_adapter_list = online_part incoming;
        history_endpoints = del_timeout clock.at_back d.opts d.history_endpoints;
      } in
      let taken = accept-eq d.opts clock (online_part incoming) stored n in
      let run = on_update_list-taken clock incoming d n h ∙ taken in
      let final : Degrade F =
        record (push_both (record { unix_nano = clock.at_push; list = online_part incoming }) d.opts
          stored) { apply_list = online_part incoming } in
      let told = notified (online_part incoming) final in
      let state = ap (λ (o : Outcome F). o.state) run ∙ told.0 in
      unfold push_both in
      (
        ap (λ (x : Degrade F). x.apply_list) state,
        ap (λ (x : Degrade F). x.latest_adapter_list) state,
        ap (λ (x : Degrade F). x.status) state ∙ is_normal_eq d.status n,
        λ e. (
          ap (λ (o : Outcome F). o.notified) run ∙ (told.1 e).0,
          ap (λ (o : Outcome F). o.error) run ∙ (told.1 e).1,
        ),
        λ f e. (
          ap (λ (o : Outcome F). o.notified) run ∙ (told.2 f e).0,
          ap (λ (o : Outcome F). o.error) run ∙ (told.2 f e).1,
        ),
      )

  -- A list is not taken for a failure if it has lost at most one of the nodes that the history
  -- holds and that are not marked offline, and the threshold is not above one.
  pub not_degraded_of_size :
      (opts : DegradeOpts F) (base : Option Elem) (offlines : Map Service) (srvs : List Service)
      → lt (of_ℕ 1) opts.threshold ≡ false
      → ((e : Elem) → base ≡ some e → online_count offlines e.list.services ≤ counted srvs)
      → is_degraded fl opts base offlines srvs ≡ false
  unfolding is_degraded
  not_degraded_of_size opts none offlines srvs t h = refl
  not_degraded_of_size opts (some e) offlines srvs t h =
      elim (dec_lt 0 (online_count offlines e.list.services)) [
        | yes p ↦
            rw
              (fl.div-ge_one (counted srvs) (online_count offlines e.list.services) opts.threshold
                (h e refl) p t)
              (ground arith)
        | no p ↦
            let zero_ : online_count offlines e.list.services ≡ 0 = omega arith in
            rw (zero_, fl.div_by_zero (counted srvs) opts.threshold) (ground arith)
      ]

  -- A list in which every node is gone or offline is taken for a failure of the registry, if the
  -- degradation is on, the threshold is above zero, and the history holds a node that the list
  -- does not mark offline.
  pub degraded_of_empty :
      (opts : DegradeOpts F) (e : Elem) (offlines : Map Service)
      → is_zero_ℤ opts.flag ≡ true
      → lt (of_ℕ 0) opts.threshold ≡ true
      → 0 < online_count offlines e.list.services
      → is_degraded fl opts (some e) offlines [] ≡ true
  unfolding is_degraded counted
  degraded_of_empty opts e offlines on above held =
      rw (fl.zero_div (online_count offlines e.list.services) opts.threshold held) (ground arith)

  -- With no other goroutine between its sections, the handler applies a list that keeps all but one
  -- of the nodes to compare with (those of the history's Back that the list does not mark offline),
  -- if the mode is normal and the threshold is at most one.
  pub on_update_list-keeps_up :
      (clock : Clock) (incoming : ServiceList) (d : Degrade F)
      → is_normal d.status ≡ true
      → lt (of_ℕ 1) d.opts.threshold ≡ false
      → ((e : Elem)
          → base_of clock d ≡ some e
          → online_count (get_normal_services incoming.services).1 e.list.services
            ≤ counted (select is_online incoming.services))
      → (on_update_list fl clock no_gaps incoming d).state.apply_list ≡ online_part incoming
  on_update_list-keeps_up clock incoming d n t h =
      (on_update_list-accepted clock incoming d n (
        not_degraded_of_size d.opts (base_of clock d) (get_normal_services incoming.services).1
          (select is_online incoming.services) t h)).0

-- Switching the degradation off, with no other goroutine in between, always ends in the normal
-- mode with the registry's list applied, and the running ping loop, if there is one, cancelled.
pub update_opts-off :
    {F : Type 0} (opts : DegradeOpts F) (now : ℤ) (d : Degrade F)
    → is_one opts.flag ≡ true
    → let (s, err) = update_opts opts now (λ x. x) d in
      (s.status ≡ status_normal)
      × (s.apply_list ≡ d.latest_adapter_list)
      × (err ≡ none)
      × ((ctx : ℕ)
          → is_normal d.status ≡ false
          → d.ping_ctx_cancel ≡ some ctx
          → (s.ping_ctx_cancel ≡ none) × (ctx_is_done ctx s.cancelled ≡ true))
unfolding update_opts stop_self_protection stop_apply cancel_ping push_both ctx_is_done
update_opts-off opts now d h =
    (ground arith, ground arith, ground arith, λ c n p. (ground arith, ground arith))
