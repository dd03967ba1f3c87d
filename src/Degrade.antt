-- ===== src/Degrade.antt =====
-- discovery/downgrade.go: the state of one service's degradation (`degrade`), the filter of
-- offline nodes, and the critical sections of its handlers. The handlers are in the children.
pub mod Handlers
pub mod Update
pub mod Health
pub mod Ping
pub mod Nodes
pub mod Online
pub mod OnlinePing
pub mod Entry
pub mod Rounds
pub mod SameIds
pub mod Merge
pub mod Decision
pub mod Checked
pub mod Outage
use xdiscovery.Prelude.{
  text_eq, lookup, insert, has_key, Map, ℕ, zero, suc, ◌+◌, ◌-◌, ◌≤◌, ◌<◌, ◌≡◌, refl, sym, ap, ◌∙◌,
  ◌≢◌, ◌↔◌, ◌⊎◌, inl, inr, Bool, true, false, not, ◌&&◌, ◌||◌, Option, none, some, List, [], ◌∷◌,
  ◌++◌, arith, if◌then◌else◌, Bool-cases, Option-cases, ℤ, pos, negsuc, length, All, In, Text,
  codes, map, ◌==◌,
}
use xdiscovery.Service.{Service, ServiceList, RunMode, or_nil, empty_list}
use xdiscovery.Options.{Float64, DegradeOpts}
use xdiscovery.LoopList.{Elem, LoopList, new_loop_list, push, push_stamp, back, reset, remove_front}

pub data DegradeStatus : Type 0 where
  status_normal status_self_protection status_panic : DegradeStatus

pub data Error : Type 0 where
  adapter_num_not_equal : Option ℕ → Error
  callback_error : Text → Error

-- `contexts` counts the contexts made by `startSelfProtection`, one for each ping loop;
-- `cancelled` holds the numbers of those that are done. `ping_ctx_cancel` is the context that the
-- stored cancel function cancels.
pub record Degrade (F : Type 0) : Type 0 where
  pub cluster : Text
  pub opts : DegradeOpts F
  pub do_update_list : Option (ServiceList → Option Error)
  pub ping_ctx_cancel : Option ℕ
  pub status : DegradeStatus
  pub latest_adapter_list : ServiceList
  pub history_endpoints : LoopList
  pub stable_history_endpoints : LoopList
  pub apply_list : ServiceList
  pub contexts : ℕ
  pub cancelled : List ℕ

abbrev pub add_endpoints : ℕ
add_endpoints = 1

abbrev pub is_normal : DegradeStatus → Bool
is_normal status_normal = true
is_normal status_self_protection = false
is_normal status_panic = false

abbrev pub is_self_protection : DegradeStatus → Bool
is_self_protection status_normal = false
is_self_protection status_self_protection = true
is_self_protection status_panic = false

abbrev pub is_panic : DegradeStatus → Bool
is_panic status_normal = false
is_panic status_self_protection = false
is_panic status_panic = true

-- `len(srv.Meta) > 0 && srv.Meta["status"] == "offline"`
unfoldable pub is_offline : Service → Bool
unfolding lookup text_eq
is_offline srv = elim (lookup (codes "status") (or_nil srv.meta)) [
  | none ↦ false
  | some v ↦ text_eq v (codes "offline")
]

-- The loop of `getNormalServices`: the normal nodes in order, and the offline nodes by id.
unfoldable pub get_normal_loop :
    List Service → List Service × Map Service → List Service × Map Service
unfolding is_offline insert
get_normal_loop [] found = found
get_normal_loop (srv ∷ srvs) (normals, offlines) = get_normal_loop srvs (
    if is_offline srv
    then (normals, insert srv.id srv offlines)
    else (normals ++ srv ∷ [], offlines))

unfoldable pub get_normal_services : List Service → List Service × Map Service
unfolding get_normal_loop
get_normal_services srvs = get_normal_loop srvs ([], [])

-- `ctxIsDone`
unfoldable pub ctx_is_done : ℕ → List ℕ → Bool
ctx_is_done ctx [] = false
ctx_is_done ctx (c ∷ cs) = ctx == c || ctx_is_done ctx cs

-- `push` of one object into both histories: the second call may write a kept time into it, which
-- then is the time of the first history's Front too.
module _ {F : Type 0} where
  unfoldable pub push_both : Elem → DegradeOpts F → Degrade F → Degrade F
  push_both el opts d =
      let first = push_stamp el opts d.history_endpoints in
      let second = push_stamp first opts d.stable_history_endpoints in
      record d {
        history_endpoints = remove_front (push el opts d.history_endpoints) ++ second ∷ [];
        stable_history_endpoints = push first opts d.stable_history_endpoints;
      }

  -- `getList`
  unfoldable pub get_list : Degrade F → ServiceList
  get_list d = d.apply_list
