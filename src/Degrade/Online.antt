-- ===== src/Degrade/Online.antt =====
-- discovery/downgrade.go: offline nodes in the lists of a degradation, for the handlers.
use xdiscovery.Prelude.{
  All-append, Map, lookup, ℕ, ◌≡◌, Option, none, some, [], arith, ℤ, All, Text,
}
use xdiscovery.Service.{Service, ServiceList, or_nil}
use xdiscovery.Options.{Float64, DegradeOpts}
use xdiscovery.LoopList.{Elem, LoopList, push_stamp, stamp_front, back, reset}
use xdiscovery.LoopList.Shape.{All-push, All-remove_front, All-del_timeout}
use xdiscovery.Degrade.{Degrade, get_normal_services, push_both, Error, status_normal}
use xdiscovery.Degrade.Nodes.{IsOnline, select-IsOnline, get_normal_services-online}
use xdiscovery.Degrade.Handlers.{
  start_self_protection, stop_apply, cancel_ping, stop_self_protection, update_opts, new_degrade,
  with_history, blank, init_list,
}
use xdiscovery.Degrade.Update.{
  Gaps, Clock, store_latest, notify, accept, update_normal, on_update_list,
}

abbrev pub IsOnlineList : ServiceList → Type 0
IsOnlineList l = All IsOnline l.services

abbrev pub IsOnlineHistory : LoopList → Type 0
IsOnlineHistory h = All (λ e. IsOnlineList e.list) h

pub record HasOnline {F : Type 0} (d : Degrade F) : Type 0 where
  pub latest_online : IsOnlineList d.latest_adapter_list
  pub history_online : IsOnlineHistory d.history_endpoints
  pub stable_online : IsOnlineHistory d.stable_history_endpoints
  pub apply_online : IsOnlineList d.apply_list

module _ {F : Type 0} where
  stamp-list :
      (e : Elem) (opts : DegradeOpts F) (l : LoopList) → (push_stamp e opts l).list ≡ e.list
  unfolding push_stamp stamp_front
  stamp-list e opts l = ground arith

  pub push_both-HasOnline :
      (e : Elem) (opts : DegradeOpts F) (d : Degrade F)
      → IsOnlineList e.list
      → HasOnline d
      → HasOnline (push_both e opts d)
  unfolding push_both
  push_both-HasOnline e opts d o h =
      let first = push_stamp e opts d.history_endpoints in
      let first_online : IsOnlineList first.list = rw (stamp-list e opts d.history_endpoints) o in
      let second = push_stamp first opts d.stable_history_endpoints in
      let second_online : IsOnlineList second.list =
        rw (stamp-list first opts d.stable_history_endpoints) first_online in
      record {
        latest_online = h.latest_online;
        history_online =
            All-append (λ x. IsOnlineList x.list) _ _
              (All-remove_front (λ x. IsOnlineList x.list) _
                (All-push opts IsOnlineList e d.history_endpoints o h.history_online))
              (second_online, tt);
        stable_online =
            All-push opts IsOnlineList first d.stable_history_endpoints first_online
              h.stable_online;
        apply_online = h.apply_online;
      }

  -- A function on the state that keeps the invariant: what other goroutines do.
  abbrev pub Keeps : (Degrade F → Degrade F) → Type 0
  Keeps f = (d : Degrade F) → HasOnline d → HasOnline (f d)

  pub start_self_protection-HasOnline :
      (d : Degrade F) → HasOnline d → HasOnline (start_self_protection d)
  unfolding start_self_protection
  start_self_protection-HasOnline d h = ground arith

  stop_apply-HasOnline :
      (opts : DegradeOpts F) (now : ℤ) (d : Degrade F)
      → HasOnline d
      → HasOnline (stop_apply opts now d).0
  unfolding stop_apply reset
  stop_apply-HasOnline opts now d h = ground (
    arith,
    push_both-HasOnline (record { unix_nano = now; list = d.latest_adapter_list }) opts
        (record d {
          apply_list = d.latest_adapter_list;
          status = status_normal;
          ping_ctx_cancel = none;
          history_endpoints = [];
        }),
  )

  cancel_ping-HasOnline : (c : Option ℕ) (d : Degrade F) → HasOnline d → HasOnline (cancel_ping c d)
  unfolding cancel_ping
  cancel_ping-HasOnline none d h = h
  cancel_ping-HasOnline (some c) d h = ground arith

  pub stop_self_protection-HasOnline :
      (want : Option ℕ) (now : ℤ) (gap : Degrade F → Degrade F) (d : Degrade F)
      → Keeps gap
      → HasOnline d
      → HasOnline (stop_self_protection want now gap d).0
  unfolding stop_self_protection
  stop_self_protection-HasOnline want now gap d k h = ground (
    arith,
    stop_apply-HasOnline d.opts now d h,
    k (stop_apply d.opts now d).0,
    cancel_ping-HasOnline (stop_apply d.opts now d).1 (gap (stop_apply d.opts now d).0),
  )

  -- `updateOpts` keeps offline nodes out, switching the degradation off included.
  pub update_opts-HasOnline :
      (opts : DegradeOpts F) (now : ℤ) (gap : Degrade F → Degrade F) (d : Degrade F)
      → Keeps gap
      → HasOnline d
      → HasOnline (update_opts opts now gap d).0
  update_opts-HasOnline opts now gap d k h =
      let stored : Degrade F = record d { opts = opts } in
      let held : HasOnline stored = record {
        latest_online = h.latest_online;
        history_online = h.history_online;
        stable_online = h.stable_online;
        apply_online = h.apply_online;
      } in
      let stopped = stop_self_protection-HasOnline none now gap stored k held in
      unfold update_opts in ground arith

  blank-HasOnline :
      (cluster : Text) (opts : DegradeOpts F) (f : Option (ServiceList → Option Error))
      → HasOnline (blank cluster opts f)
  unfolding blank
  blank-HasOnline cluster opts f = record {
    latest_online = tt;
    history_online = tt;
    stable_online = tt;
    apply_online = tt;
  }

  with_history-HasOnline :
      (l : Option ServiceList) (opts : DegradeOpts F) (now : ℤ) (d : Degrade F)
      → HasOnline d
      → HasOnline (with_history l opts now d)
  unfolding with_history init_list
  with_history-HasOnline none opts now d h = h
  with_history-HasOnline (some l) opts now d h =
      let kept : All IsOnline (get_normal_services l.services).0 =
        rw (get_normal_services-online l.services) (select-IsOnline l.services) in
      push_both-HasOnline _ opts _ kept (record {
        latest_online = h.latest_online;
        history_online = h.history_online;
        stable_online = h.stable_online;
        apply_online = kept;
      })

  -- A new degradation starts with no offline node, whatever history it is given.
  pub new_degrade-HasOnline :
      (cluster : Text) (opts : DegradeOpts F) (history : Option (Map ServiceList))
      (f : Option (ServiceList → Option Error)) (stopped now : ℤ)
      → HasOnline (new_degrade cluster opts history f stopped now).0
  new_degrade-HasOnline cluster opts history f stopped now =
      let start =
        update_opts-HasOnline opts stopped (λ d. d) (blank cluster opts f) (λ d h. h)
          (blank-HasOnline cluster opts f) in
      let full = with_history-HasOnline (lookup cluster (or_nil history)) opts now _ start in
      unfold new_degrade in ground arith

module _ (fl : Float64) where
  open fl use {F}

  -- Every gap of the handler keeps the invariant.
  pub record GapsKeep (g : Gaps F) : Type 0 where
    pub decision : Keeps g.before_decision
    pub push_gap : Keeps g.before_push
    pub stop_gap : Keeps g.before_stop
    pub cancel_gap : Keeps g.in_stop

  store_latest-HasOnline :
      (now : ℤ) (opts : DegradeOpts F) (l : ServiceList) (d : Degrade F)
      → IsOnlineList l
      → HasOnline d
      → HasOnline (store_latest fl now opts l d).0
  unfolding store_latest back
  store_latest-HasOnline now opts l d o h = record {
    latest_online = o;
    history_online =
        All-del_timeout opts (λ x. IsOnlineList x.list) now d.history_endpoints h.history_online;
    stable_online = h.stable_online;
    apply_online = h.apply_online;
  }

  accept-HasOnline :
      (opts : DegradeOpts F) (clock : Clock) (g : Gaps F) (l : ServiceList) (d : Degrade F)
      → GapsKeep g
      → IsOnlineList l
      → HasOnline d
      → HasOnline (accept fl opts clock g l d).state
  accept-HasOnline opts clock g l d k o h =
      let el : Elem = record { unix_nano = clock.at_push; list = l } in
      let pushed = push_both-HasOnline el opts (g.before_push d) o (k.push_gap d h) in
      let before = g.before_stop (push_both el opts (g.before_push d)) in
      let stopped =
        stop_self_protection-HasOnline none clock.at_stop g.in_stop before k.cancel_gap
          (k.stop_gap _ pushed) in
      unfold accept notify in ground arith

  update_normal-HasOnline :
      (clock : Clock) (g : Gaps F) (offlines : Map Service) (l : ServiceList) (d : Degrade F)
      → GapsKeep g
      → IsOnlineList l
      → HasOnline d
      → HasOnline (update_normal fl clock g offlines l d).state
  update_normal-HasOnline clock g offlines l d k o h =
      let stored = store_latest-HasOnline clock.at_back d.opts l d o h in
      let next = k.decision _ stored in
      let entered = start_self_protection-HasOnline _ next in
      let accepted = accept-HasOnline d.opts clock g l _ k o next in
      unfold update_normal in ground arith

  -- If the registry's list, both histories and the applied list hold no offline node, and what
  -- other goroutines do between the handler's sections keeps it so, then they hold none after a
  -- list from the registry, whatever is in it.
  pub on_update_list-HasOnline :
      (clock : Clock) (g : Gaps F) (incoming : ServiceList) (d : Degrade F)
      → GapsKeep g
      → HasOnline d
      → HasOnline (on_update_list fl clock g incoming d).state
  unfolding on_update_list
  on_update_list-HasOnline clock g incoming d k h =
      update_normal-HasOnline clock g (get_normal_services incoming.services).1 _ d k
        (rw (get_normal_services-online incoming.services) (select-IsOnline incoming.services)) h
