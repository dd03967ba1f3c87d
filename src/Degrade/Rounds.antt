-- ===== src/Degrade/Rounds.antt =====
-- discovery/downgrade.go: the branches of `continueDoPing` in the self-protection mode and in the
-- panic mode.
use xdiscovery.Degrade.Checked.{
  answering, passed, HasFewHealthy, HasRecovered, is_below_iff, list_same_iff, passed-answering,
}
use xdiscovery.Degrade.Handlers.{stop_self_protection, stop_apply, cancel_ping}
use xdiscovery.Degrade.{
  Degrade, ctx_is_done, status_self_protection, DegradeStatus, status_normal, status_panic,
  push_both,
}
use xdiscovery.Degrade.Health.{Network, list_same}
use xdiscovery.Options.{Float64}
use xdiscovery.Degrade.Ping.{
  PingGaps, PingResult, PingArgs, continue_do_ping, switch_status, finish_round, enter_panic,
  keep_pinging, apply_health, elem_services, try_stop, is_below, leave_panic,
}
use xdiscovery.Prelude.{
  ◌≡◌, refl, ◌⊎◌, inl, inr, true, false, some, List, ◌∷◌, arith, ℤ, ℕ, sym, ap, ◌∙◌, ◌≢◌, ◌↔◌,
  Bool-cases, Option-cases,
}
use xdiscovery.Service.{Service, ServiceList, self_protection, panic}

-- No other goroutine runs between the sections of a round.
abbrev pub quiet_round : {F : Type 0} → PingGaps F
quiet_round = record {
  before_status = λ d. d;
  before_switch = λ d. d;
  before_apply = λ d. d;
  in_stop = λ d. d;
}

-- The list of a round, with the versions that it has.
abbrev pub checked_list : {F : Type 0} → PingArgs → List Service → Degrade F → ServiceList
checked_list args health d = record {
  watch_version = d.apply_list.watch_version;
  version = args.health_check_version;
  run_mode = self_protection;
  services = health;
}

status_cases :
    (st : DegradeStatus)
    → (st ≡ status_normal) ⊎ (st ≡ status_self_protection) ⊎ (st ≡ status_panic)
status_cases status_normal = inl refl
status_cases status_self_protection = inr (inl refl)
status_cases status_panic = inr (inr refl)

module _ (fl : Float64) where
  open fl use {F, of_ℕ, div, lt}

  round_applies :
      (net : Network) (args : PingArgs) (now : ℤ) (d : Degrade F)
      → d.status ≡ status_self_protection
      → ctx_is_done args.ctx d.cancelled ≡ false
      → is_below fl (passed net args d) (elem_services args.el) d.opts.panic_threshold ≡ false
      → list_same (passed net args d) d.latest_adapter_list.services ≡ false
      → continue_do_ping fl net args now quiet_round d ≡ record {
        state = record d { apply_list = checked_list args (passed net args d) d };
        do_ping = true;
      }
  unfolding continue_do_ping switch_status finish_round apply_health keep_pinging
  round_applies net args now d s c b l = ground arith

  round_panics :
      (net : Network) (args : PingArgs) (now : ℤ) (d : Degrade F)
      → d.status ≡ status_self_protection
      → ctx_is_done args.ctx d.cancelled ≡ false
      → is_below fl (passed net args d) (elem_services args.el) d.opts.panic_threshold ≡ true
      → continue_do_ping fl net args now quiet_round d ≡ record {
        state = record d {
          status = status_panic;
          apply_list = record d.apply_list {
            run_mode = panic;
            services = elem_services args.elstable;
          };
        };
        do_ping = true;
      }
  unfolding continue_do_ping switch_status enter_panic keep_pinging
  round_panics net args now d s c b = ground arith

  round_stops :
      (net : Network) (args : PingArgs) (now : ℤ) (d : Degrade F)
      → d.status ≡ status_self_protection
      → is_below fl (passed net args d) (elem_services args.el) d.opts.panic_threshold ≡ false
      → list_same (passed net args d) d.latest_adapter_list.services ≡ true
      → (continue_do_ping fl net args now quiet_round d).state.status ≡ status_normal
  unfolding continue_do_ping switch_status finish_round try_stop stop_self_protection stop_apply
      cancel_ping push_both
  round_stops net args now d s b l = elim (Option-cases d.ping_ctx_cancel) [
    | inl nothing ↦ ground arith
    | inr (ctx, at) ↦ ground arith
  ]

  -- With no other goroutine in between, in the self-protection mode: a round whose context is not
  -- done leaves the mode as it is just if the healthy nodes (those of the registry's list, then of
  -- the loop's history, each protection id once, that pass their check) are not too few for the
  -- panic threshold and have not just the ids of the registry's list. Then it serves just these
  -- nodes, under the version of the round, nothing else changes, and the loop goes on.
  pub continue_do_ping-serves :
      (net : Network) (args : PingArgs) (now : ℤ) (d : Degrade F)
      → d.status ≡ status_self_protection
      → ctx_is_done args.ctx d.cancelled ≡ false
      → let result = continue_do_ping fl net args now quiet_round d in
        ((result.state.status ≡ status_self_protection)
          ↔ ((¬ HasFewHealthy fl net args d) × (¬ HasRecovered fl net args d)))
        × ((¬ HasFewHealthy fl net args d)
            → (¬ HasRecovered fl net args d)
            → result ≡ record {
              state = record d { apply_list = checked_list args (answering net args d) d };
              do_ping = true;
            })
  continue_do_ping-serves net args now d s c =
      let below = is_below_iff fl net args d in
      let recovered_ = list_same_iff fl net args d in
      elim (Bool-cases
        (is_below fl (passed net args d) (elem_services args.el) d.opts.panic_threshold)) [
          | inl few ↦
              let run = round_panics net args now d s c few in
              let mode = ap (λ (r : PingResult F). r.state.status) run in
              (
                (
                  λ e.
                      absurd (let no_ : status_panic ≡ status_self_protection = sym mode ∙ e in cc),
                  λ (enough, m). absurd (enough (below.0 few)),
                ),
                λ enough m. absurd (enough (below.0 few)),
              )
          | inr many ↦
              let enough : ¬ HasFewHealthy fl net args d =
                (λ h. (let no_ : true ≡ false = sym (below.1 h) ∙ many in cc)) in
              elim (Bool-cases (list_same (passed net args d) d.latest_adapter_list.services)) [
                | inl same ↦
                    let mode = round_stops net args now d s many same in
                    (
                      (
                        λ e.
                            absurd (
                              let no_ : status_normal ≡ status_self_protection = sym mode ∙ e in
                              cc),
                        λ (m, more). absurd (more (recovered_.0 same)),
                      ),
                      λ m more. absurd (more (recovered_.0 same)),
                    )
                | inr other ↦
                    let more : ¬ HasRecovered fl net args d =
                      (λ h. (let no_ : true ≡ false = sym (recovered_.1 h) ∙ other in cc)) in
                    let run = round_applies net args now d s c many other in
                    (
                      (λ e. (enough, more), λ m. ap (λ (r : PingResult F). r.state.status) run ∙ s),
                      λ m n.
                          run
                          ∙ ap
                              (λ xs. record {
                                state = record d { apply_list = checked_list args xs d };
                                do_ping = true;
                              })
                              (passed-answering fl net args d),
                    )
              ]
        ]

  -- With no other goroutine in between, in the self-protection mode: a round whose context is not
  -- done enters the panic mode just if the healthy nodes are fewer than the panic threshold's share
  -- of the loop's history, which holds some. Then it serves just the stable history, without the
  -- registry's list, under the old version, nothing else changes, and the loop goes on.
  pub continue_do_ping-panics :
      (net : Network) (args : PingArgs) (now : ℤ) (d : Degrade F)
      → d.status ≡ status_self_protection
      → ctx_is_done args.ctx d.cancelled ≡ false
      → let result = continue_do_ping fl net args now quiet_round d in
        ((result.state.status ≡ status_panic) ↔ HasFewHealthy fl net args d)
        × (HasFewHealthy fl net args d
            → result ≡ record {
              state = record d {
                status = status_panic;
                apply_list = record d.apply_list {
                  run_mode = panic;
                  services = elem_services args.elstable;
                };
              };
              do_ping = true;
            })
  continue_do_ping-panics net args now d s c =
      let below = is_below_iff fl net args d in
      elim (Bool-cases
        (is_below fl (passed net args d) (elem_services args.el) d.opts.panic_threshold)) [
          | inl few ↦
              let run = round_panics net args now d s c few in
              ((λ e. below.0 few, λ h. ap (λ (r : PingResult F). r.state.status) run), λ h. run)
          | inr many ↦
              let enough : ¬ HasFewHealthy fl net args d =
                (λ h. (let no_ : true ≡ false = sym (below.1 h) ∙ many in cc)) in
              let stays : (continue_do_ping fl net args now quiet_round d).state.status
                  ≢ status_panic =
                not_panic net args now d s c many in
              ((λ e. absurd (stays e), λ h. absurd (enough h)), λ h. absurd (enough h))
        ]
    where
      not_panic :
          (net : Network) (args : PingArgs) (now : ℤ) (d : Degrade F)
          → d.status ≡ status_self_protection
          → ctx_is_done args.ctx d.cancelled ≡ false
          → is_below fl (passed net args d) (elem_services args.el) d.opts.panic_threshold ≡ false
          → (continue_do_ping fl net args now quiet_round d).state.status ≢ status_panic
      not_panic net args now d s c many e =
          elim (Bool-cases (list_same (passed net args d) d.latest_adapter_list.services)) [
            | inl same ↦
                let mode = round_stops net args now d s many same in
                let no_ : status_normal ≡ status_panic = sym mode ∙ e in cc
            | inr other ↦
                let run = round_applies net args now d s c many other in
                let no_ : status_self_protection ≡ status_panic =
                  sym (ap (λ (r : PingResult F). r.state.status) run ∙ s) ∙ e in
                cc
          ]

  -- With no other goroutine in between, in the self-protection mode (with enough nodes for the
  -- panic threshold) and in the panic mode (with enough of the stable history), a round whose
  -- context is the stored one and not done, and that finds just the registry's nodes, ends the
  -- protection: the mode is normal, the registry's list is served, the context is cancelled and the
  -- loop stops.
  pub continue_do_ping-recovers :
      (net : Network) (args : PingArgs) (now : ℤ) (d : Degrade F)
      → ((d.status ≡ status_self_protection)
          × (is_below fl (passed net args d) (elem_services args.el) d.opts.panic_threshold
              ≡ false))
        ⊎ ((d.status ≡ status_panic)
            × (is_below fl (passed net args d) (elem_services args.elstable) d.opts.threshold
                ≡ false))
      → ctx_is_done args.ctx d.cancelled ≡ false
      → d.ping_ctx_cancel ≡ some args.ctx
      → list_same (passed net args d) d.latest_adapter_list.services ≡ true
      → let result = continue_do_ping fl net args now quiet_round d in
        (result.do_ping ≡ false)
        × (result.state.status ≡ status_normal)
        × (result.state.apply_list ≡ d.latest_adapter_list)
        × (result.state.cancelled ≡ args.ctx ∷ d.cancelled)
  unfolding continue_do_ping switch_status finish_round try_stop stop_self_protection stop_apply
      cancel_ping leave_panic push_both
  continue_do_ping-recovers net args now d (inl (s, b)) c p l =
      (ground arith, ground arith, ground arith, ground arith)
  continue_do_ping-recovers net args now d (inr (s, b)) c p l =
      (ground arith, ground arith, ground arith, ground arith)

  -- With no other goroutine in between, a round whose context is done changes nothing and the loop
  -- goes on, unless the mode is the self-protection mode and it finds just the registry's nodes.
  pub continue_do_ping-cancelled :
      (net : Network) (args : PingArgs) (now : ℤ) (d : Degrade F)
      → ctx_is_done args.ctx d.cancelled ≡ true
      → (d.status ≡ status_self_protection
          → list_same (passed net args d) d.latest_adapter_list.services ≡ false)
      → continue_do_ping fl net args now quiet_round d ≡ record { state = d; do_ping = true }
  unfolding continue_do_ping switch_status finish_round apply_health enter_panic keep_pinging
  continue_do_ping-cancelled net args now d c l = elim (status_cases d.status) [
    | inl n ↦ ground arith
    | inr (inl p) ↦ let other = l p in ground arith
    | inr (inr p) ↦ ground arith
  ]

  -- In the self-protection mode, with no other goroutine in between, a round that finds just the
  -- registry's nodes, enough for the panic threshold, ends the protection and cancels the stored
  -- context, whether its own context is done or not: the loop of an old protection can end a new
  -- one.
  pub continue_do_ping-stale :
      (net : Network) (args : PingArgs) (now : ℤ) (d : Degrade F) (ctx : ℕ)
      → d.status ≡ status_self_protection
      → is_below fl (passed net args d) (elem_services args.el) d.opts.panic_threshold ≡ false
      → list_same (passed net args d) d.latest_adapter_list.services ≡ true
      → d.ping_ctx_cancel ≡ some ctx
      → let result = continue_do_ping fl net args now quiet_round d in
        (result.state.status ≡ status_normal)
        × (ctx_is_done ctx result.state.cancelled ≡ true)
        × (result.do_ping ≡ false)
  unfolding continue_do_ping switch_status finish_round try_stop stop_self_protection stop_apply
      cancel_ping push_both ctx_is_done
  continue_do_ping-stale net args now d ctx s b l p = (ground arith, ground arith, ground arith)
