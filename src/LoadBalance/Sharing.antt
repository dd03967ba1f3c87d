-- ===== src/LoadBalance/Sharing.antt =====
-- loadbalance/loadbalance.go: the checkers, and the lists that their balancers are made from.
use xdiscovery.CheckChange.Fresh.{IsFresh, new_check_change-IsFresh, get_value-IsFresh}
use xdiscovery.Wrr.{RoundRobinWeight, next_server, ok}
use xdiscovery.CheckChange.{
  CheckChange, new_check_change, get_value, locked_update, update_sync, made, update_async, store,
  Made, failed, panicked,
}
use xdiscovery.LoadBalance.{
  LoadBalance, check_of, build_load_balance, next, next_checked, choose, chosen, QueryOpts,
}
use xdiscovery.Prelude.{
  ℕ, ◌≡◌, refl, sym, ◌⊎◌, inl, inr, false, Option, none, some, List, arith, Option-cases, All, Text,
  lookup, All-lookup, All-insert,
}
use mathlib.Core.Path.{subst}
use xdiscovery.Service.{Service, ServiceList}

-- A checker of a load balancer.
pub record IsGood (c : CheckChange RoundRobinWeight) : Type 0 where
  pub fresh : IsFresh c
  pub builds : c.new_value ≡ build_load_balance
  pub in_turn : c.async_update ≡ false

abbrev pub AreGood : LoadBalance → Type 0
AreGood l = All (λ p. IsGood p.1) l.checks

-- No other goroutine runs between the sections of `GetValue`.
abbrev pub no_gap : CheckChange RoundRobinWeight → CheckChange RoundRobinWeight
no_gap c = c

new_check_change-IsGood :
    {c : CheckChange RoundRobinWeight}
    → new_check_change build_load_balance false ≡ made c
    → IsGood c
unfolding new_check_change
new_check_change-IsGood {c} h = record {
  fresh = new_check_change-IsFresh build_load_balance false h;
  builds = ground arith;
  in_turn = ground arith;
}

get_value-IsGood :
    (c : CheckChange RoundRobinWeight) (list : ServiceList)
    → IsGood c
    → IsGood (get_value no_gap c list).state
unfolding get_value locked_update update_sync update_async store
get_value-IsGood c list h = record {
  fresh = get_value-IsFresh no_gap c list h.fresh h.fresh;
  builds = let b = h.builds in ground arith;
  in_turn = let b = h.in_turn in ground arith;
}

pub check_of-IsGood :
    (service : Text) (l : LoadBalance) {c : CheckChange RoundRobinWeight}
    → AreGood l
    → check_of service l ≡ made c
    → IsGood c
unfolding check_of
check_of-IsGood service l {c} h e = elim (Option-cases (lookup service l.checks)) [
  | inl missing ↦ new_check_change-IsGood (ground arith)
  | inr (cc_, found) ↦
      let same : cc_ ≡ c = ground arith in
      subst IsGood same (All-lookup IsGood service l.checks h found)
]

pub made_cases :
    {V : Type 0} (m : Made V) → ((v : V) × (m ≡ made v)) ⊎ (m ≡ failed) ⊎ (m ≡ panicked)
made_cases (made v) = inl (v, refl)
made_cases failed = inr (inl refl)
made_cases panicked = inr (inr refl)

-- What `Next` runs to, once its checker is known.
pub next_of_check :
    (discovery : Text → Text → List Text → Option ServiceList) (intn : ℕ → ℕ) (service : Text)
    (opts : QueryOpts) (l : LoadBalance) (c : CheckChange RoundRobinWeight)
    → check_of service l ≡ made c
    → next discovery no_gap intn service opts l
      ≡ next_checked no_gap intn service (discovery service opts.dc opts.tags) c l
unfolding next
next_of_check discovery intn service opts l c h = ground arith

next_checked-AreGood :
    (intn : ℕ → ℕ) (service : Text) (answer : Option ServiceList) (c : CheckChange RoundRobinWeight)
    (l : LoadBalance)
    → IsGood c
    → AreGood l
    → AreGood (next_checked no_gap intn service answer c l).0
unfolding next_checked
next_checked-AreGood intn service none c l g h = All-insert IsGood service c l.checks g h
next_checked-AreGood intn service (some list) c l g h =
    All-insert IsGood service (get_value no_gap c list).state l.checks (get_value-IsGood c list g) h

-- If each checker of a load balancer holds a balancer that was built from a list with its versions,
-- then so it is after `Next`, on every path, with no other goroutine inside `GetValue`.
pub next-AreGood :
    (discovery : Text → Text → List Text → Option ServiceList) (intn : ℕ → ℕ) (service : Text)
    (opts : QueryOpts) (l : LoadBalance)
    → AreGood l
    → AreGood (next discovery no_gap intn service opts l).0
unfolding next
next-AreGood discovery intn service opts l h = elim (made_cases (check_of service l)) [
  | inl (c, e) ↦
      subst (λ r. AreGood r.0) (sym (next_of_check discovery intn service opts l c e))
        (next_checked-AreGood intn service (discovery service opts.dc opts.tags) c l
          (check_of-IsGood service l h e) h)
  | inr (inl e) ↦
      let same : (next discovery no_gap intn service opts l).0 ≡ l = ground arith in
      subst AreGood (sym same) h
  | inr (inr e) ↦
      let same : (next discovery no_gap intn service opts l).0 ≡ l = ground arith in
      subst AreGood (sym same) h
]

pub choose-chosen :
    (intn : ℕ → ℕ) (value : Option RoundRobinWeight) (u : Service)
    → choose intn value ≡ chosen u
    → (lb : RoundRobinWeight) × (value ≡ some lb) × (next_server intn lb ≡ ok u)
unfolding choose
choose-chosen intn none u h = absurd (ground arith)
choose-chosen intn (some lb) u h = (lb, refl, ground arith)

pub next_checked-chosen :
    (intn : ℕ → ℕ) (service : Text) (list : ServiceList) (c : CheckChange RoundRobinWeight)
    (l : LoadBalance) (u : Service)
    → (next_checked no_gap intn service (some list) c l).1 ≡ chosen u
    → choose intn (get_value no_gap c list).value ≡ chosen u
unfolding next_checked
next_checked-chosen intn service list c l u h = ground arith
