-- ===== src/Ads/Receiving.antt =====
-- adapter/eds/xds/v2: receiveThread against a plain reading of the messages.
use xdiscovery.Ads.Threads.{close_seen, recv_failed, invalid, valid}
use xdiscovery.Ads.{envoy_cluster_load_assignment}
use xdiscovery.Eds.Update.{Ended, on_endpoints_update}
use xdiscovery.Service.{HealthCheck, Service}
use xdiscovery.Ads.Threads.{
  receive_thread, Received, default_handlers, register_type_url_handle_func, valid, handle_type_url,
  handle_envoy_cluster_load_assignment, handle_endpoints_resp,
}
use xdiscovery.Eds.{ClusterLoadAssignment, EdsAdapter}
use xdiscovery.Prelude.{
  ◌≡◌, refl, sym, ap, ◌∙◌, inl, inr, Bool, true, false, Option, List, [], ◌∷◌, arith, if◌then◌else◌,
  Bool-cases, Text, map, Map, insert, text_eq, lookup,
}

-- The messages of a run: the decoded valid responses of the type for endpoints, up to the one that
-- finds the channel closed.
abbrev pub messages :
    (Text → ClusterLoadAssignment) → List Received → List (List ClusterLoadAssignment)
messages unmarshal [] = []
messages unmarshal (close_seen ∷ rs) = []
messages unmarshal (recv_failed ∷ rs) = messages unmarshal rs
messages unmarshal (invalid ∷ rs) = messages unmarshal rs
messages unmarshal (valid resp ∷ rs) =
    let rest = messages unmarshal rs in
    if text_eq envoy_cluster_load_assignment resp.type_url
    then map unmarshal resp.resources ∷ rest
    else rest

-- One update after the other, whatever they return.
abbrev pub update_all :
    (List ClusterLoadAssignment → EdsAdapter → EdsAdapter × Ended)
    → List (List ClusterLoadAssignment)
    → EdsAdapter
    → EdsAdapter
update_all on_update [] d = d
update_all on_update (m ∷ ms) d = update_all on_update ms (on_update m d).0

thread_lem :
    (unmarshal : Text → ClusterLoadAssignment)
    (on_update : List ClusterLoadAssignment → EdsAdapter → EdsAdapter × Ended) (rs : List Received)
    (d : EdsAdapter)
    → receive_thread (default_handlers unmarshal on_update) rs d
      ≡ update_all on_update (messages unmarshal rs) d
unfolding receive_thread default_handlers register_type_url_handle_func insert handle_type_url
    lookup handle_envoy_cluster_load_assignment handle_endpoints_resp
thread_lem unmarshal on_update [] d = refl
thread_lem unmarshal on_update (close_seen ∷ rs) d = refl
thread_lem unmarshal on_update (recv_failed ∷ rs) d = thread_lem unmarshal on_update rs d
thread_lem unmarshal on_update (invalid ∷ rs) d = thread_lem unmarshal on_update rs d
thread_lem unmarshal on_update (valid resp ∷ rs) d =
    let handlers = default_handlers unmarshal on_update in
    let m = map unmarshal resp.resources in
    let next : Bool → List (List ClusterLoadAssignment) =
      λ b. if b then m ∷ messages unmarshal rs else messages unmarshal rs in
    let step = λ (b : Bool) (e : text_eq envoy_cluster_load_assignment resp.type_url ≡ b).
      sym (ap (λ c. update_all on_update (next c) d) e) in
    elim (Bool-cases (text_eq envoy_cluster_load_assignment resp.type_url)) [
      | inl ours ↦
          let same : (handle_type_url handlers resp d).0 ≡ (on_update m d).0 = ground arith in
          ap (receive_thread handlers rs) same
          ∙ thread_lem unmarshal on_update rs (on_update m d).0
          ∙ step true ours
      | inr other ↦
          let same : (handle_type_url handlers resp d).0 ≡ d = ground arith in
          ap (receive_thread handlers rs) same
          ∙ thread_lem unmarshal on_update rs d
          ∙ step false other
    ]

-- `receiveThread` gives the adapter just the messages of its run, in their order, each once; errors
-- of the stream, responses that are not valid and those of other types leave no trace, and a failed
-- update does not end it.
pub receive_thread-update_all :
    (unmarshal : Text → ClusterLoadAssignment) (json : Text → Option HealthCheck)
    (iterate : Map (List Service) → Map (List Service)) (rs : List Received) (d : EdsAdapter)
    → receive_thread (default_handlers unmarshal (on_endpoints_update json iterate)) rs d
      ≡ update_all (on_endpoints_update json iterate) (messages unmarshal rs) d
receive_thread-update_all unmarshal json iterate rs d =
    thread_lem unmarshal (on_endpoints_update json iterate) rs d
