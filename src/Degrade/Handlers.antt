-- ===== src/Degrade/Handlers.antt =====
-- discovery/downgrade.go: `newDegrade`, `updateOpts`, `startSelfProtection` and
-- `stopSelfProtection`. A handler holds the lock section by section; what other goroutines do
-- between two sections is an argument, a function on the state.
use xdiscovery.Prelude.{
  lookup, Map, sub64, ℕ, ◌+◌, Bool, false, not, ◌&&◌, Option, none, some, List, [], ◌∷◌,
  if◌then◌else◌, ℤ, pos, negsuc, length, Text, ◌==◌,
}
use xdiscovery.Service.{Service, ServiceList, init, or_nil, empty_list}
use xdiscovery.Options.{DegradeOpts}
use xdiscovery.LoopList.{new_loop_list, reset}
use xdiscovery.Degrade.{
  status_normal, status_self_protection, Error, adapter_num_not_equal, Degrade, is_normal,
  is_self_protection, is_panic, get_normal_services, push_both,
}

-- `want >= 0 && len != want`
abbrev pub wants_other : Option ℕ → ℕ → Bool
wants_other none n = false
wants_other (some want) n = not (want == n)

-- `x == 1` and `x == 0` on an int32.
abbrev pub is_one : ℤ → Bool
is_one (pos n) = n == 1
is_one (negsuc n) = false

abbrev pub is_zero_ℤ : ℤ → Bool
is_zero_ℤ (pos n) = n == 0
is_zero_ℤ (negsuc n) = false

-- The newest list for a service that is started with stored history.
unfoldable pub init_list : List Service → ServiceList → ServiceList
init_list normals list = record list {
  services = normals;
  version = 0;
  watch_version = 0;
  run_mode = init;
}

module _ {F : Type 0} where
  -- `startSelfProtection`: a new ping loop runs with the new context.
  unfoldable pub start_self_protection : Degrade F → Degrade F
  start_self_protection d = if not (is_normal d.status) then d else record d {
    status = status_self_protection;
    ping_ctx_cancel = some d.contexts;
    contexts = d.contexts + 1;
  }

  -- The locked section of `stopSelfProtection` on its two last paths; `now` is the clock.
  unfoldable pub stop_apply : DegradeOpts F → ℤ → Degrade F → Degrade F × Option ℕ
  unfolding reset
  stop_apply opts now d =
      let applied = record d { apply_list = d.latest_adapter_list } in
      if not (is_self_protection d.status) && not (is_panic d.status) then (applied, none) else (
        push_both (record { unix_nano = now; list = d.latest_adapter_list }) opts
            (record applied {
              status = status_normal;
              ping_ctx_cancel = none;
              history_endpoints = reset d.history_endpoints;
            }),
        d.ping_ctx_cancel,
      )

  -- `pingCtxCancel()`, after the lock is released.
  unfoldable pub cancel_ping : Option ℕ → Degrade F → Degrade F
  cancel_ping none d = d
  cancel_ping (some ctx) d = record d { cancelled = ctx ∷ d.cancelled }

  -- `stopSelfProtection(want)` with `want` not negative is `some`; -1 is `none`. `gap` runs between
  -- the section and the cancelling.
  unfoldable pub stop_self_protection :
      Option ℕ → ℤ → (Degrade F → Degrade F) → Degrade F → Degrade F × Option Error
  stop_self_protection want now gap d =
      if wants_other want (length d.latest_adapter_list.services)
      then (d, some (adapter_num_not_equal want))
      else (let (d', ctx) = stop_apply d.opts now d in (cancel_ping ctx (gap d'), none))

  -- `updateOpts`
  unfoldable pub update_opts :
      DegradeOpts F → ℤ → (Degrade F → Degrade F) → Degrade F → Degrade F × Option Error
  update_opts opts now gap d =
      let stored = record d { opts = opts } in
      if is_one opts.flag then stop_self_protection none now gap stored else (stored, none)

  unfoldable pub blank : Text → DegradeOpts F → Option (ServiceList → Option Error) → Degrade F
  blank cluster opts on_update_list = record {
    cluster = cluster;
    opts = opts;
    do_update_list = on_update_list;
    ping_ctx_cancel = none;
    status = status_normal;
    latest_adapter_list = empty_list;
    history_endpoints = new_loop_list;
    stable_history_endpoints = new_loop_list;
    apply_list = empty_list;
    contexts = 0;
    cancelled = [];
  }

  unfoldable pub with_history : Option ServiceList → DegradeOpts F → ℤ → Degrade F → Degrade F
  unfolding init_list
  with_history none opts now d = d
  with_history (some list) opts now d =
      let list' = init_list (get_normal_services list.services).0 list in
      push_both (record { unix_nano = sub64 now opts.threshold_contrast_interval; list = list' })
        opts (record d { apply_list = list' })

  -- `newDegrade`: nothing else knows of the new object yet. `stopped` is the clock in `updateOpts`,
  -- `now` the clock of the first element.
  unfoldable pub new_degrade :
      Text
      → DegradeOpts F
      → Option (Map ServiceList)
      → Option (ServiceList → Option Error)
      → ℤ
      → ℤ
      → Degrade F × Option Error
  new_degrade cluster opts history on_update_list stopped now =
      let (d, err) = update_opts opts stopped (λ d. d) (blank cluster opts on_update_list) in
      elim err [
        | some e ↦ (d, some e)
        | none ↦ (with_history (lookup cluster (or_nil history)) opts now d, none)
      ]
