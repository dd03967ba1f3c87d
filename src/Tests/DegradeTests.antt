-- ===== src/Tests/DegradeTests.antt =====
-- discovery/downgrade.go: runs of the handlers.
use xdiscovery.Prelude.{
  has_key, text_eq, insert, lookup, ◌≡◌, ◌↔◌, refl, true, Option, none, some, [], ◌∷◌, pos, codes,
}
use xdiscovery.Service.{ServiceList}
use xdiscovery.Float.{Ratio, ratio}
use xdiscovery.LoopList.{del_timeout}
use xdiscovery.Degrade.{
  Degrade, status_normal, status_self_protection, get_normal_services, get_normal_loop, is_offline,
  Error,
}
use xdiscovery.Degrade.Health.{Network, no_reply}
use xdiscovery.Degrade.Update.{Clock, on_update_list, is_degraded, online_count, counted}
use xdiscovery.Degrade.Online.{HasOnline, on_update_list-HasOnline}
use xdiscovery.Degrade.OnlinePing.{ping_loop-HasOnline, PingGapsKeep}
use xdiscovery.Degrade.Ping.{PingGaps, ping_loop, ctx_done, timer}
use xdiscovery.Degrade.Entry.{no_gaps, online_part, on_update_list-accepted}
use xdiscovery.Degrade.Decision.{HasFailed, on_update_list-protects}
use xdiscovery.Tests.{options, at, list_of, node_a, node_b, node_off}

-- A service whose history holds two nodes.
abbrev pub serving : Degrade Ratio
serving = record {
  cluster = codes "order";
  opts = options;
  do_update_list = none;
  ping_ctx_cancel = none;
  status = status_normal;
  latest_adapter_list = list_of (node_a ∷ node_b ∷ []);
  history_endpoints = at (pos 100) (node_a ∷ node_b ∷ []) ∷ [];
  stable_history_endpoints = at (pos 100) (node_a ∷ node_b ∷ []) ∷ [];
  apply_list = list_of (node_a ∷ node_b ∷ []);
  contexts = 0;
  cancelled = [];
}

abbrev pub protected : Degrade Ratio
protected = record serving {
  status = status_self_protection;
  ping_ctx_cancel = some 0;
  contexts = 1;
  latest_adapter_list = list_of [];
}

abbrev pub clock : Clock
clock = record { at_back = pos 200; at_push = pos 201; at_stop = pos 202 }

abbrev quiet_ping : PingGaps Ratio
quiet_ping = record {
  before_status = λ d. d;
  before_switch = λ d. d;
  before_apply = λ d. d;
  in_stop = λ d. d;
}

-- Only the first node answers.
abbrev pub network : Network
network = record {
  tcp_check = λ addr timeout. text_eq addr (codes "10.0.0.1:80");
  new_request = λ method url. true;
  http_do = λ method url header name timeout. no_reply;
}

program : Unit {0}
unfolding is_degraded online_count counted has_key del_timeout get_normal_services get_normal_loop
    is_offline lookup text_eq insert
program = tt

serving-HasOnline : HasOnline serving
unfolding is_offline lookup
serving-HasOnline = record {
  latest_online = (refl, (refl, tt));
  history_online = ((refl, (refl, tt)), tt);
  stable_online = ((refl, (refl, tt)), tt);
  apply_online = (refl, (refl, tt));
}

protected-HasOnline : HasOnline protected
unfolding is_offline lookup
protected-HasOnline = record {
  latest_online = tt;
  history_online = ((refl, (refl, tt)), tt);
  stable_online = ((refl, (refl, tt)), tt);
  apply_online = (refl, (refl, tt));
}

-- Two of two nodes are left, one of them offline now.
on_update_list-HasOnline_example :
    HasOnline (on_update_list ratio clock no_gaps (list_of (node_a ∷ node_off ∷ [])) serving).state
on_update_list-HasOnline_example =
    on_update_list-HasOnline ratio clock no_gaps (list_of (node_a ∷ node_off ∷ [])) serving
      (record {
        decision = λ d h. h;
        push_gap = λ d h. h;
        stop_gap = λ d h. h;
        cancel_gap = λ d h. h;
      })
      serving-HasOnline

ping_loop-HasOnline_example : HasOnline (
    ping_loop ratio 0 network
      (pos 210)
      (pos 211)
      quiet_ping
      (timer network (pos 240) (λ d. d) quiet_ping ∷ ctx_done ∷ [])
      protected)
ping_loop-HasOnline_example =
    let keeps : PingGapsKeep ratio quiet_ping = record {
      status_gap = λ d h. h;
      switch_gap = λ d h. h;
      apply_gap = λ d h. h;
      cancel_gap = λ d h. h;
    } in
    ping_loop-HasOnline ratio 0 network (pos 210) (pos 211) quiet_ping
      (timer network (pos 240) (λ d. d) quiet_ping ∷ ctx_done ∷ []) protected keeps
      (((λ d h. h), keeps), tt) protected-HasOnline

-- Both nodes are gone, and the threshold is one half.
on_update_list-protects_example :
    let out = on_update_list ratio clock no_gaps (list_of []) serving in
    ((out.state.status ≡ status_self_protection) ↔ HasFailed ratio clock serving (list_of []))
    × (out.state.latest_adapter_list ≡ online_part (list_of []))
    × (HasFailed ratio clock serving (list_of [])
        → (out.state.apply_list ≡ serving.apply_list)
          × (out.state.ping_ctx_cancel ≡ some 0)
          × (out.state.contexts ≡ 1)
          × (out.state.cancelled ≡ [])
          × (out.notified ≡ none)
          × (out.error ≡ none))
    × (¬ HasFailed ratio clock serving (list_of [])
        → (out.state.apply_list ≡ online_part (list_of [])) × (out.state.status ≡ status_normal))
on_update_list-protects_example = on_update_list-protects ratio clock (list_of []) serving refl

on_update_list-accepted_example :
    let out = on_update_list ratio clock no_gaps (list_of (node_b ∷ [])) serving in
    (out.state.apply_list ≡ online_part (list_of (node_b ∷ [])))
    × (out.state.latest_adapter_list ≡ online_part (list_of (node_b ∷ [])))
    × (out.state.status ≡ status_normal)
    × ((serving.do_update_list ≡ none) → (out.notified ≡ none) × (out.error ≡ none))
    × ((f : ServiceList → Option Error)
        → serving.do_update_list ≡ some f
        → (out.notified ≡ some (online_part (list_of (node_b ∷ []))))
          × (out.error ≡ f (online_part (list_of (node_b ∷ [])))))
on_update_list-accepted_example =
    on_update_list-accepted ratio clock (list_of (node_b ∷ [])) serving refl
      (unfold program in refl)
