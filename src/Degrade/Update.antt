-- ===== src/Degrade/Update.antt =====
-- discovery/downgrade.go: `degrade.onUpdateList`, which the registry's watcher calls with each
-- list that it gets.
use xdiscovery.Prelude.{
  Map, has_key, ℕ, suc, ◌+◌, Bool, false, not, ◌&&◌, Option, none, some, List, [], ◌∷◌,
  if◌then◌else◌, ℤ, length, ◌==◌,
}
use xdiscovery.Service.{Service, ServiceList}
use xdiscovery.Options.{Float64, DegradeOpts}
use xdiscovery.LoopList.{Elem, back}
use xdiscovery.Degrade.{Error, Degrade, add_endpoints, is_normal, get_normal_services, push_both}
use xdiscovery.Degrade.Handlers.{start_self_protection, stop_self_protection, is_zero_ℤ}

-- What other goroutines do between the sections of the handler.
pub record Gaps (F : Type 0) : Type 0 where
  pub before_decision : Degrade F → Degrade F
  pub before_push : Degrade F → Degrade F
  pub before_stop : Degrade F → Degrade F
  pub in_stop : Degrade F → Degrade F

-- The clock where the handler reads it.
pub record Clock : Type 0 where
  pub at_back : ℤ
  pub at_push : ℤ
  pub at_stop : ℤ

-- The state after the handler, the list that the callback was given, and the error returned.
pub record Outcome (F : Type 0) : Type 0 where
  pub state : Degrade F
  pub notified : Option ServiceList
  pub error : Option Error

-- `onlineCount`: the nodes of the old list that are not marked offline now.
unfoldable pub online_count : Map Service → List Service → ℕ
unfolding has_key
online_count offlines [] = 0
online_count offlines (srv ∷ srvs) =
    let rest = online_count offlines srvs in
    if not (has_key srv.id offlines) then suc rest else rest

-- `num`: one node more than there are, unless there is none.
unfoldable pub counted : List Service → ℕ
counted srvs = if length srvs == 0 then 0 else length srvs + add_endpoints

module _ (fl : Float64) where
  open fl use {F, of_ℕ, div, lt}

  -- The test that enters the self-protection mode.
  unfoldable pub is_degraded : DegradeOpts F → Option Elem → Map Service → List Service → Bool
  unfolding online_count counted
  is_degraded opts none offlines srvs = false
  is_degraded opts (some el) offlines srvs =
      is_zero_ℤ opts.flag
      && lt (div (of_ℕ (counted srvs)) (of_ℕ (online_count offlines el.list.services)))
          opts.threshold

  -- The first locked section: the history is pruned, the list stored.
  unfoldable pub store_latest :
      ℤ → DegradeOpts F → ServiceList → Degrade F → Degrade F × Option Elem
  store_latest now opts list d =
      let (history, el) = back now opts d.history_endpoints in
      (record d { history_endpoints = history; latest_adapter_list = list }, el)

  unfoldable pub notify : ServiceList → Degrade F → Outcome F
  notify list d = elim d.do_update_list [
    | none ↦ record { state = d; notified = none; error = none }
    | some f ↦ record { state = d; notified = some list; error = f list }
  ]

  unfoldable pub quiet : Degrade F → Option Error → Outcome F
  quiet d err = record { state = d; notified = none; error = err }

  -- The part after the list was taken: history, application, notification.
  unfoldable pub accept : DegradeOpts F → Clock → Gaps F → ServiceList → Degrade F → Outcome F
  unfolding quiet
  accept opts clock gaps list d =
      let pushed =
        push_both (record { unix_nano = clock.at_push; list = list }) opts (gaps.before_push d) in
      let (d', err) =
        stop_self_protection none clock.at_stop gaps.in_stop (gaps.before_stop pushed) in
      elim err [ some e ↦ quiet d' (some e) | none ↦ notify list d' ]

  -- `list` has lost its offline nodes.
  unfoldable pub update_normal : Clock → Gaps F → Map Service → ServiceList → Degrade F → Outcome F
  unfolding quiet
  update_normal clock gaps offlines list d =
      let opts = d.opts in
      let (stored, el) = store_latest clock.at_back opts list d in
      if not (is_normal d.status)
      then quiet stored none
      else (let next = gaps.before_decision stored in
          if is_degraded opts el offlines list.services
          then quiet (start_self_protection next) none
          else accept opts clock gaps list next)

  unfoldable pub on_update_list : Clock → Gaps F → ServiceList → Degrade F → Outcome F
  on_update_list clock gaps incoming d =
      let (normals, offlines) = get_normal_services incoming.services in
      update_normal clock gaps offlines (record incoming { services = normals }) d
