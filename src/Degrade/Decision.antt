-- ===== src/Degrade/Decision.antt =====
-- discovery/downgrade.go: when `onUpdateList` takes a list for a failure of the registry.
use xdiscovery.LoopList.{Elem}
use xdiscovery.Service.{Service, ServiceList}
use xdiscovery.Degrade.Update.{on_update_list, counted, online_count, is_degraded, Clock, Outcome}
use xdiscovery.Prelude.{
  ℕ, zero, suc, ◌+◌, ◌≡◌, refl, sym, ap, ◌∙◌, ◌↔◌, inl, inr, true, false, not, none, some, List, [],
  ◌∷◌, arith, Bool-cases, Option-cases, ℤ, pos, negsuc, length, select,
}
use xdiscovery.Degrade.Nodes.{is_online, is_marked, get_normal_services-offlines}
use mathlib.Core.Path.{subst}
use xdiscovery.Degrade.Entry.{
  no_gaps, online_part, base_of, looks_degraded, on_update_list_failing, on_update_list-accepted,
}
use xdiscovery.Degrade.Handlers.{is_zero_ℤ}
use xdiscovery.Options.{Float64}
use xdiscovery.Degrade.{
  Degrade, status_normal, status_self_protection, is_normal, get_normal_services,
}

-- The nodes of an old list that a new one does not mark offline.
abbrev pub unmarked : List Service → List Service → List Service
unmarked incoming old = select (λ s. not (is_marked s.id incoming)) old

-- One more than there are, if there are any.
abbrev pub one_more : ℕ → ℕ
one_more zero = 0
one_more (suc n) = n + 2

online_count_eq :
    (incoming old : List Service)
    → online_count (get_normal_services incoming).1 old ≡ length (unmarked incoming old)
unfolding online_count
online_count_eq incoming [] = refl
online_count_eq incoming (s ∷ old) =
    ground (arith, get_normal_services-offlines s.id incoming, online_count_eq incoming old)

counted_eq : (srvs : List Service) → counted srvs ≡ one_more (length srvs)
unfolding counted
counted_eq [] = refl
counted_eq (s ∷ srvs) = ground arith

is_zero_eq : (z : ℤ) → (is_zero_ℤ z ≡ true) ↔ (z ≡ pos 0)
is_zero_eq (pos zero) = (λ e. refl, λ e. refl)
is_zero_eq (pos (suc n)) = (λ e. absurd (ground arith), λ e. absurd (cc))
is_zero_eq (negsuc n) = (λ e. absurd (cc), λ e. absurd (cc))

module _ (fl : Float64) where
  open fl use {F, of_ℕ, div, lt}

  -- The degradation is on, there is an entry of the history to compare with, and the online nodes
  -- of the list, and one more, are fewer than the threshold's share of the entry's nodes that the
  -- list does not mark offline.
  pub record HasFailed (clock : Clock) (d : Degrade F) (incoming : ServiceList) : Type 0 where
    pub on : d.opts.flag ≡ pos 0
    pub base : Elem
    pub held : base_of fl clock d ≡ some base
    pub few :
        lt
          (div
            (of_ℕ (one_more (length (select is_online incoming.services))))
            (of_ℕ (length (unmarked incoming.services base.list.services))))
          d.opts.threshold
        ≡ true

  pub looks_degraded_iff :
      (clock : Clock) (d : Degrade F) (incoming : ServiceList)
      → (looks_degraded fl clock d incoming ≡ true) ↔ HasFailed clock d incoming
  unfolding is_degraded
  looks_degraded_iff clock d incoming =
      let count = counted_eq (select is_online incoming.services) in
      let zero_ = is_zero_eq d.opts.flag in
      elim (Option-cases (base_of fl clock d)) [
        | inl nothing ↦
            (λ e. absurd (ground arith), λ h. (let at = h.held in absurd (ground arith)))
        | inr (el, at) ↦
            let left = online_count_eq incoming.services el.list.services in
            (
              λ e. record { on = zero_.0 (ground arith); base = el; held = at; few = ground arith },
              λ h.
                  (let same : some h.base ≡ some el = sym h.held ∙ at in
                    let is_el : h.base ≡ el = cc in
                    let few =
                      subst
                        (λ (x : Elem).
                          lt
                            (div (of_ℕ (one_more (length (select is_online incoming.services))))
                              (of_ℕ (length (unmarked incoming.services x.list.services))))
                            d.opts.threshold
                          ≡ true)
                        is_el h.few in
                    let on = zero_.1 h.on in ground arith),
            )
      ]

  -- In the normal mode, with no other goroutine between the sections: a list starts the
  -- self-protection just if the degradation is on, the pruned history has a Back, and the number of
  -- the list's online nodes, with one added to it if there are any, is below the threshold's share
  -- of the Back's nodes that the list does not mark offline. Then callers keep the list that they
  -- had, the new one is stored without its offline nodes, a fresh context is made for the ping
  -- loop, and no callback is made. Otherwise the list without its offline nodes is applied and the
  -- mode stays normal.
  pub on_update_list-protects :
      (clock : Clock) (incoming : ServiceList) (d : Degrade F)
      → is_normal d.status ≡ true
      → let out = on_update_list fl clock no_gaps incoming d in
        ((out.state.status ≡ status_self_protection) ↔ HasFailed clock d incoming)
        × (out.state.latest_adapter_list ≡ online_part incoming)
        × (HasFailed clock d incoming
            → (out.state.apply_list ≡ d.apply_list)
              × (out.state.ping_ctx_cancel ≡ some d.contexts)
              × (out.state.contexts ≡ d.contexts + 1)
              × (out.state.cancelled ≡ d.cancelled)
              × (out.notified ≡ none)
              × (out.error ≡ none))
        × (¬ HasFailed clock d incoming
            → (out.state.apply_list ≡ online_part incoming) × (out.state.status ≡ status_normal))
  on_update_list-protects clock incoming d n =
      let test = looks_degraded_iff clock d incoming in
      elim (Bool-cases (looks_degraded fl clock d incoming)) [
        | inl failing ↦
            let run = on_update_list_failing fl clock incoming d n failing in
            let state = ap (λ (o : Outcome F). o.state) run in
            (
              (λ s. test.0 failing, λ h. ap (λ (x : Degrade F). x.status) state),
              ap (λ (x : Degrade F). x.latest_adapter_list) state,
              λ h. (
                ap (λ (x : Degrade F). x.apply_list) state,
                ap (λ (x : Degrade F). x.ping_ctx_cancel) state,
                ap (λ (x : Degrade F). x.contexts) state,
                ap (λ (x : Degrade F). x.cancelled) state,
                ap (λ (o : Outcome F). o.notified) run,
                ap (λ (o : Outcome F). o.error) run,
              ),
              λ no_. absurd (no_ (test.0 failing)),
            )
        | inr fine ↦
            let (applied, latest, normal, told, answered_) =
              on_update_list-accepted fl clock incoming d n fine in
            let not_failed : ¬ HasFailed clock d incoming =
              (λ h. (let e = test.1 h in let no_ : true ≡ false = sym e ∙ fine in cc)) in
            (
              (
                λ s.
                    absurd
                      (let no_ : status_normal ≡ status_self_protection = sym normal ∙ s in cc),
                λ h. absurd (not_failed h),
              ),
              latest,
              λ h. absurd (not_failed h),
              λ no_. (applied, normal),
            )
      ]
