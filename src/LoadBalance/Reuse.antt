-- ===== src/LoadBalance/Reuse.antt =====
-- loadbalance/loadbalance.go: two calls of `Next` for one service.
use xdiscovery.LoadBalance.Sharing.{
  no_gap, AreGood, made_cases, check_of-IsGood, next_of_check, choose-chosen, next_checked-chosen,
}
use xdiscovery.Wrr.{RoundRobinWeight, next_server, ok}
use xdiscovery.LoadBalance.{next, next_checked, check_of, QueryOpts, LoadBalance, chosen, choose}
use xdiscovery.CheckChange.{
  get_value, CheckChange, locked_update, update_sync, is_changed, store, returned, made,
}
use xdiscovery.Prelude.{
  ℕ, ◌≡◌, sym, ap, ◌∙◌, inl, inr, false, Option, some, List, arith, Text, lookup-insert,
  text_eq_refl,
}
use xdiscovery.Service.{Service, ServiceList, mode_number}

-- Two lists with the same versions and mode. Their services may differ.
pub record HaveSameVersions (a b : ServiceList) : Type 0 where
  pub same_watch : a.watch_version ≡ b.watch_version
  pub same_version : a.version ≡ b.version
  pub same_mode : a.run_mode ≡ b.run_mode

-- After a call that returned a value the checker holds that value, and a list with the same
-- versions is not a change.
get_value_settles :
    (c : CheckChange RoundRobinWeight) (a b : ServiceList) {lb : RoundRobinWeight}
    → c.async_update ≡ false
    → HaveSameVersions a b
    → (get_value no_gap c a).value ≡ some lb
    → ((get_value no_gap c a).state.value ≡ lb)
      × (is_changed (get_value no_gap c a).state b ≡ false)
unfolding get_value locked_update update_sync store is_changed
get_value_settles c a b sync same v =
    let w = same.same_watch in
    let x = same.same_version in
    let m = ap mode_number same.same_mode in (ground arith, ground arith)

get_value_quiet :
    (c : CheckChange RoundRobinWeight) (b : ServiceList)
    → is_changed c b ≡ false
    → ((get_value no_gap c b).value ≡ some c.value) × ((get_value no_gap c b).ending ≡ returned)
unfolding get_value
get_value_quiet c b h = (ground arith, ground arith)

next_checked_kept :
    (intn : ℕ → ℕ) (service : Text) (list : ServiceList) (c : CheckChange RoundRobinWeight)
    (l : LoadBalance)
    → check_of service (next_checked no_gap intn service (some list) c l).0
      ≡ made (get_value no_gap c list).state
unfolding next_checked check_of
next_checked_kept intn service list c l =
    let read = lookup-insert service service (get_value no_gap c list).state l.checks in
    let same = text_eq_refl service in ground arith

next_checked_returned :
    (intn : ℕ → ℕ) (service : Text) (list : ServiceList) (c : CheckChange RoundRobinWeight)
    (l : LoadBalance) (lb : RoundRobinWeight)
    → (get_value no_gap c list).value ≡ some lb
    → (get_value no_gap c list).ending ≡ returned
    → (next_checked no_gap intn service (some list) c l).1 ≡ choose intn (some lb)
unfolding next_checked
next_checked_returned intn service list c l lb v e = ground arith

-- If the checkers are good, a call after one that chose a node for the same service asks the same
-- balancer if the versions and the mode of the two lists are the same, whichever services are in
-- the second list: so a call for other tags, or for another data centre with equal versions,
-- chooses among the nodes of the call before.
pub next-reuses :
    (discovery discovery' : Text → Text → List Text → Option ServiceList) (intn intn' : ℕ → ℕ)
    (service : Text) (opts opts' : QueryOpts) (l : LoadBalance) (a b : ServiceList) (u : Service)
    → AreGood l
    → discovery service opts.dc opts.tags ≡ some a
    → discovery' service opts'.dc opts'.tags ≡ some b
    → HaveSameVersions a b
    → (next discovery no_gap intn service opts l).1 ≡ chosen u
    → let l' = (next discovery no_gap intn service opts l).0 in
      (lb : RoundRobinWeight) × (next_server intn lb ≡ ok u)
      × ((next discovery' no_gap intn' service opts' l').1 ≡ choose intn' (some lb))
unfolding next
next-reuses discovery discovery' intn intn' service opts opts' l a b u h d d' same n =
    elim (made_cases (check_of service l)) [
      | inl (c, e) ↦
          let good = check_of-IsGood service l h e in
          let first : next discovery no_gap intn service opts l
              ≡ next_checked no_gap intn service (some a) c l =
            next_of_check discovery intn service opts l c e
            ∙ ap (λ x. next_checked no_gap intn service x c l) d in
          let (lb, value, picks) =
            choose-chosen intn (get_value no_gap c a).value u
              (next_checked-chosen intn service a c l u (sym (ap (λ r. r.1) first) ∙ n)) in
          let s = (get_value no_gap c a).state in
          let l' = (next discovery no_gap intn service opts l).0 in
          let (holds, quiet) = get_value_settles c a b good.in_turn same value in
          let kept : check_of service l' ≡ made s =
            ap (λ r. check_of service r.0) first ∙ next_checked_kept intn service a c l in
          let second : next discovery' no_gap intn' service opts' l'
              ≡ next_checked no_gap intn' service (some b) s l' =
            next_of_check discovery' intn' service opts' l' s kept
            ∙ ap (λ x. next_checked no_gap intn' service x s l') d' in
          let (value', ends) = get_value_quiet s b quiet in
          (
            lb,
            picks,
            ap (λ r. r.1) second
                ∙ next_checked_returned intn' service b s l' lb (value' ∙ ap some holds) ends,
          )
      | inr (inl e) ↦ absurd (ground arith)
      | inr (inr e) ↦ absurd (ground arith)
    ]
