-- ===== src/Degrade/Outage.antt =====
-- discovery/downgrade.go: a failure of the registry, from the list that looks like one, over the
-- lists that come in it, to the round that ends it.
use xdiscovery.Degrade.Checked.{HasFewHealthy, HasRecovered, passed, is_below_iff, list_same_iff}
use xdiscovery.Service.{ServiceList}
use xdiscovery.Prelude.{
  ℕ, ◌≡◌, refl, sym, ap, ◌∙◌, inl, inr, true, false, Option, none, some, List, [], ◌∷◌, arith,
  Bool-cases, ℤ,
}
use xdiscovery.Degrade.Update.{Clock, Outcome, on_update_list}
use xdiscovery.Degrade.Decision.{HasFailed, on_update_list-protects}
use xdiscovery.Degrade.Rounds.{quiet_round, continue_do_ping-recovers}
use xdiscovery.Degrade.Entry.{no_gaps, online_part, on_update_list_busy}
use xdiscovery.Degrade.Ping.{PingArgs, continue_do_ping, is_below, elem_services}
use xdiscovery.Degrade.Health.{Network}
use xdiscovery.Options.{Float64}
use xdiscovery.Degrade.{Degrade, status_normal, status_self_protection, is_normal, ctx_is_done}

-- The last of some lists, the first of which is given.
abbrev pub last_list : ServiceList → List (Clock × ServiceList) → ServiceList
last_list list [] = list
last_list list ((clock, next) ∷ more) = last_list next more

done_now : (i j : ℕ) (is : List ℕ) → i ≡ j → ctx_is_done j (i ∷ is) ≡ true
unfolding ctx_is_done
done_now i j is e = ground arith

module _ (fl : Float64) where
  open fl use {F, of_ℕ, div, lt}

  -- The handler with each list in turn, with nothing in between.
  abbrev pub hear_all : List (Clock × ServiceList) → Degrade F → Degrade F
  hear_all [] d = d
  hear_all ((clock, list) ∷ more) d = hear_all more (on_update_list fl clock no_gaps list d).state

  -- The lists that the callback was given.
  abbrev pub told_all : List (Clock × ServiceList) → Degrade F → List ServiceList
  told_all [] d = []
  told_all ((clock, list) ∷ more) d =
      let out = on_update_list fl clock no_gaps list d in
      let rest = told_all more out.state in elim out.notified [ none ↦ rest | some l ↦ l ∷ rest ]

  -- The state in a failure that `d` has run into, with the newest list.
  pub record IsHolding (d s : Degrade F) (list : ServiceList) : Type 0 where
    pub served : s.apply_list ≡ d.apply_list
    pub mode : s.status ≡ status_self_protection
    pub newest : s.latest_adapter_list ≡ online_part list
    pub context : s.ping_ctx_cancel ≡ some d.contexts
    pub cancels : s.cancelled ≡ d.cancelled

  hears-IsHolding :
      (clock : Clock) (list next : ServiceList) (d s : Degrade F)
      → IsHolding d s list
      → IsHolding d (on_update_list fl clock no_gaps next s).state next
        × ((on_update_list fl clock no_gaps next s).notified ≡ none)
  hears-IsHolding clock list next d s h =
      let kept = h.mode in
      let busy : is_normal s.status ≡ false = ap is_normal kept in
      let run = on_update_list_busy fl clock no_gaps next s busy in
      let state = ap (λ (o : Outcome F). o.state) run in
      (
        record {
          served = ap (λ (x : Degrade F). x.apply_list) state ∙ h.served;
          mode = ap (λ (x : Degrade F). x.status) state ∙ h.mode;
          newest = ap (λ (x : Degrade F). x.latest_adapter_list) state;
          context = ap (λ (x : Degrade F). x.ping_ctx_cancel) state ∙ h.context;
          cancels = ap (λ (x : Degrade F). x.cancelled) state ∙ h.cancels;
        },
        ap (λ (o : Outcome F). o.notified) run,
      )

  hear_all-IsHolding :
      (more : List (Clock × ServiceList)) (list : ServiceList) (d s : Degrade F)
      → IsHolding d s list
      → IsHolding d (hear_all more s) (last_list list more) × (told_all more s ≡ [])
  hear_all-IsHolding [] list d s h = (h, refl)
  hear_all-IsHolding ((clock, next) ∷ more) list d s h =
      let (step, silent) = hears-IsHolding clock list next d s h in
      let s' = (on_update_list fl clock no_gaps next s).state in
      let (rest, none_) = hear_all-IsHolding more next d s' step in
      (
        rest,
        ap
              (λ (o : Option ServiceList). elim o [
                | none ↦ told_all more s'
                | some l ↦ l ∷ told_all more s'
              ])
              silent
            ∙ none_,
      )

  start-IsHolding :
      (clock : Clock) (list : ServiceList) (d : Degrade F)
      → is_normal d.status ≡ true
      → HasFailed fl clock d list
      → IsHolding d (on_update_list fl clock no_gaps list d).state list
        × ((on_update_list fl clock no_gaps list d).notified ≡ none)
  start-IsHolding clock list d n h =
      let (mode, newest, fails, works) = on_update_list-protects fl clock list d n in
      let (served, context, contexts, cancels, silent, fine) = fails h in
      (
        record {
          served = served;
          mode = mode.1 h;
          newest = newest;
          context = context;
          cancels = cancels;
        },
        silent,
      )

  -- With no other goroutine inside the handler and the round: in the normal mode let a list look
  -- like a failure of the registry, and let any lists follow it. Until a round of the ping loop
  -- changes that, callers keep the list from before, and no callback is made. A round of the new
  -- loop that finds enough healthy nodes, just the ids of the newest list's online nodes, ends it:
  -- these are served, the mode is normal, the loop's context is done, and the loop stops.
  pub hear_all-recovers :
      (clock : Clock) (list : ServiceList) (more : List (Clock × ServiceList)) (d : Degrade F)
      (net : Network) (args : PingArgs) (now : ℤ)
      → is_normal d.status ≡ true
      → HasFailed fl clock d list
      → args.ctx ≡ d.contexts
      → ctx_is_done d.contexts d.cancelled ≡ false
      → (¬ HasFewHealthy fl net args (hear_all ((clock, list) ∷ more) d))
      → HasRecovered fl net args (hear_all ((clock, list) ∷ more) d)
      → let s = hear_all ((clock, list) ∷ more) d in
        let result = continue_do_ping fl net args now quiet_round s in
        (s.apply_list ≡ d.apply_list)
        × (s.status ≡ status_self_protection)
        × (told_all ((clock, list) ∷ more) d ≡ [])
        × (result.state.apply_list ≡ online_part (last_list list more))
        × (result.state.status ≡ status_normal)
        × (ctx_is_done d.contexts result.state.cancelled ≡ true)
        × (result.do_ping ≡ false)
  hear_all-recovers clock list more d net args now n failed c live many same =
      let (start, silent) = start-IsHolding clock list d n failed in
      let s1 = (on_update_list fl clock no_gaps list d).state in
      let (hold, quiet_) = hear_all-IsHolding more list d s1 start in
      let s = hear_all more s1 in
      let enough : is_below fl (passed net args s) (elem_services args.el) s.opts.panic_threshold
          ≡ false =
        elim (Bool-cases
          (is_below fl (passed net args s) (elem_services args.el) s.opts.panic_threshold)) [
            | inl few ↦ absurd (many ((is_below_iff fl net args s).0 few))
            | inr ok_ ↦ ok_
          ] in
      let alive : ctx_is_done args.ctx s.cancelled ≡ false =
        ap (λ i. ctx_is_done i s.cancelled) c ∙ ap (ctx_is_done d.contexts) hold.cancels ∙ live in
      let (stops, mode, applied, cancels) =
        continue_do_ping-recovers fl net args now s (inl (hold.mode, enough)) alive
          (hold.context ∙ ap some (sym c)) ((list_same_iff fl net args s).1 same) in
      (
        hold.served,
        hold.mode,
        ap
              (λ (o : Option ServiceList). elim o [
                | none ↦ told_all more s1
                | some l ↦ l ∷ told_all more s1
              ])
              silent
            ∙ quiet_,
        applied ∙ hold.newest,
        mode,
        ap (ctx_is_done d.contexts) cancels ∙ done_now args.ctx d.contexts s.cancelled c,
        stops,
      )
