-- ===== src/Discoverer/Settings.antt =====
-- discovery/discovery.go: `UpdateDegradeOpts` and the watches that the options reach.
use mathlib.Core.Path.{subst}
use xdiscovery.Discoverer.{
  with_defaults, update_watchers, update_given, Map, Discoverer, is_flag_valid, invalid_flag,
}
use xdiscovery.Degrade.{status_normal, push_both, Error}
use xdiscovery.Degrade.Handlers.{update_opts, stop_self_protection, is_one, stop_apply, cancel_ping}
use xdiscovery.Watch.{Watch}
use xdiscovery.Prelude.{
  ◌≡◌, refl, sym, true, false, Option, none, some, [], ◌∷◌, arith, ℤ, All, Text,
}
use xdiscovery.Options.{Float64, DegradeOpts}

-- A watch after its options were replaced.
pub record HasOptions {F : Type 0} (opts : DegradeOpts F) (w : Watch F) : Type 0 where
  pub has_opts : w.degrade.opts ≡ opts
  pub off_is_normal :
      is_one opts.flag ≡ true
      → (w.degrade.status ≡ status_normal) × (w.degrade.apply_list ≡ w.degrade.latest_adapter_list)

update_opts-HasOptions :
    {F : Type 0} (opts : DegradeOpts F) (now : ℤ) (w : Watch F)
    → HasOptions opts (record w { degrade = (update_opts opts now (λ d. d) w.degrade).0 })
      × ((update_opts opts now (λ d. d) w.degrade).1 ≡ none)
unfolding update_opts stop_self_protection stop_apply cancel_ping push_both
update_opts-HasOptions opts now w = (
  record { has_opts = ground arith; off_is_normal = λ h. (ground arith, ground arith) },
  ground arith,
)

update_watchers-cons :
    {F : Type 0} (opts : DegradeOpts F) (now : ℤ) (key : Text) (w : Watch F) (ws : Map (Watch F))
    → (update_opts opts now (λ d. d) w.degrade).1 ≡ none
    → update_watchers opts now (λ d. d) ((key, w) ∷ ws) ≡ (
      (key, record w { degrade = (update_opts opts now (λ d. d) w.degrade).0 })
          ∷ (update_watchers opts now (λ d. d) ws).0,
      (update_watchers opts now (λ d. d) ws).1,
    )
unfolding update_watchers
update_watchers-cons opts now key w ws h = ground arith

update_watchers-HasOptions :
    {F : Type 0} (opts : DegradeOpts F) (now : ℤ) (ws : Map (Watch F))
    → All (λ p. HasOptions opts p.1) (update_watchers opts now (λ d. d) ws).0
      × ((update_watchers opts now (λ d. d) ws).1 ≡ none)
update_watchers-HasOptions opts now [] = unfold update_watchers in (tt, refl)
update_watchers-HasOptions {F} opts now ((key, w) ∷ ws) =
    let (set_, quiet) = update_opts-HasOptions opts now w in
    let (rest, none_) = update_watchers-HasOptions opts now ws in
    subst (λ (r : Map (Watch F) × Option Error). All (λ p. HasOptions opts p.1) r.0 × (r.1 ≡ none))
      (sym (update_watchers-cons opts now key w ws quiet)) ((set_, rest), none_)

module _ (fl : Float64) where
  open fl use {F}

  -- With no other goroutine in between, options with a flag that is not 0 or 1 are refused and
  -- change nothing. Others are taken with their defaults, and reach every watch: each has the
  -- options, and if they switch the degradation off, it is in the normal mode and serves the
  -- registry's list.
  pub update_given-HasOptions :
      (opts : DegradeOpts F) (now : ℤ) (d : Discoverer F)
      → let (d', err) = update_given fl opts now (λ s. s) d in
        ((is_flag_valid opts.flag ≡ false) → (d' ≡ d) × (err ≡ some (invalid_flag opts.flag)))
        × ((is_flag_valid opts.flag ≡ true)
            → (d'.degrade_opts ≡ with_defaults fl opts)
              × (err ≡ none)
              × All (λ p. HasOptions (with_defaults fl opts) p.1) d'.watchers)
  unfolding update_given
  update_given-HasOptions opts now d =
      let (all, quiet) = update_watchers-HasOptions (with_defaults fl opts) now d.watchers in
      (λ h. (ground arith, ground arith), λ h. (ground arith, ground arith, rw h all))
