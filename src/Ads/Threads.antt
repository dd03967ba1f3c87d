-- ===== src/Ads/Threads.antt =====
-- adapter/eds/xds/v2: sendThread and receiveThread of the client, with reconnect, and the handlers
-- by type URL. A thread runs over what happens to it.
use xdiscovery.Eds.Update.{Ended, done, malformed, callback_failed}
use xdiscovery.Service.{or_nil}
use xdiscovery.Eds.Update.{Ended}
use xdiscovery.Eds.{EdsAdapter, ClusterLoadAssignment}
use xdiscovery.Ads.{
  req_endpoints, stop_client, update_subscribed_clusters, AdsClient, generate_client, get_client,
  Request, close_ads_stream_client, envoy_cluster_load_assignment, get_stream_client,
}
use xdiscovery.Prelude.{
  ℕ, Bool, true, false, Option, none, some, List, [], ◌∷◌, if◌then◌else◌, Text, codes, map, insert,
  lookup, Map,
}

-- A try of `reconnect`: whether the client was stopped before it, and whether a stream is made.
pub record Try : Type 0 where
  pub stops : Bool
  pub made : Bool

-- A new stream for the client.
unfoldable pub regenerate : Bool → AdsClient → Option AdsClient
unfolding generate_client
regenerate made a = elim a.ads_config.stream_client [
  | none ↦ none
  | some sc ↦ elim (generate_client made sc) [
    | none ↦ none
    | some sc' ↦ some (record a { ads_config = record a.ads_config { stream_client = some sc' } })
  ]
]

-- The loop of `reconnect` over its tries: false if it has not ended after them.
unfoldable pub reconnect : List Try → AdsClient → AdsClient × Bool
unfolding regenerate stop_client
reconnect [] a = (a, a.stoped)
reconnect (t ∷ ts) a =
    let now = if t.stops then (stop_client a).0 else a in
    let later = reconnect ts now in
    if now.stoped
    then (now, true)
    else (elim (regenerate t.made now) [ none ↦ later | some a' ↦ (a', true) ])

-- A try of `Start`: whether the client was stopped before it, and how `GetStreamClient` ends.
pub record StartTry : Type 0 where
  pub stops : Bool
  pub dialled : Bool
  pub made : Bool

-- The goroutine of `Start` over its tries: whether it calls `started`.
unfoldable pub start_again : List StartTry → AdsClient → AdsClient × Bool
unfolding get_stream_client stop_client
start_again [] a = (a, false)
start_again (t ∷ ts) a =
    let now = if t.stops then (stop_client a).0 else a in
    let (c, ok) = get_stream_client t.dialled t.made now.ads_config in
    let later = start_again ts now in
    if now.stoped then (now, false) else if ok then (record now { ads_config = c }, true) else later

-- `Start`: whether the threads are started.
unfoldable pub start : Bool → Bool → List StartTry → AdsClient → AdsClient × Bool
unfolding start_again
start dialled made tries a =
    let (c, ok) = get_stream_client dialled made a.ads_config in
    if ok then (record a { ads_config = c }, true) else start_again tries a

-- What happens to `sendThread`: a tick of one of its tickers, with the end of its call of `Send` and
-- the tries of a `reconnect`; that it sees the closed channel; or, between two turns, a call of
-- `UpdateSubscribedClusters` or `Stop`.
pub data SendEvent : Type 0 where
  all_tick : Bool → List Try → SendEvent
  tick : Bool → List Try → SendEvent
  sees_close : SendEvent
  subscribes : List Text → SendEvent
  stops_client : SendEvent

-- The thread after an event: it goes on, it has ended, or it is still in `reconnect`.
pub data Progress : Type 0 where
  goes_on ended reconnecting : Progress

-- What a turn leaves: the client, the requests with their streams, and the progress.
abbrev pub Turned : Type 0
Turned = AdsClient × List (ℕ × Request) × Progress

-- A request, with `reconnect` if it fails.
unfoldable pub send_request : Bool → List Try → List Text → AdsClient → Turned
unfolding req_endpoints get_client reconnect
send_request fine tries names a =
    let (sent, ok) = req_endpoints fine a.v2_client (get_client a.ads_config) names in
    if ok
    then (a, sent, goes_on)
    else ((reconnect tries a).0, sent, if (reconnect tries a).1 then goes_on else reconnecting)

abbrev pub all_clusters : List Text
all_clusters = codes "$all" ∷ []

-- One event of `sendThread`. The closed channel is seen only after `Stop`.
unfoldable pub send_event : SendEvent → AdsClient → Turned
unfolding send_request update_subscribed_clusters stop_client close_ads_stream_client
send_event (all_tick fine tries) a = send_request fine tries all_clusters a
send_event (tick fine tries) a = send_request fine tries a.subscribed_clusters a
send_event sees_close a =
    if a.closed
    then (record a { ads_config = close_ads_stream_client a.ads_config }, [], ended)
    else (a, [], goes_on)
send_event (subscribes clusters) a = (update_subscribed_clusters clusters a, [], goes_on)
send_event stops_client a = ((stop_client a).0, [], goes_on)

-- The loop of `sendThread`; each turn with the client that it found.
unfoldable pub send_turns : List SendEvent → AdsClient → List (AdsClient × Turned)
unfolding send_event
send_turns [] a = []
send_turns (e ∷ es) a =
    let turn = send_event e a in
    let rest = send_turns es turn.0 in
    (a, turn) ∷ (elim turn.2 [ goes_on ↦ rest | ended ↦ [] | reconnecting ↦ [] ])

-- `sendThread`, from its first request.
unfoldable pub send_thread :
    Bool → List Try → List SendEvent → AdsClient → List (AdsClient × Turned)
unfolding send_request send_turns
send_thread fine tries es a =
    let turn = send_request fine tries all_clusters a in
    let rest = send_turns es turn.0 in
    (a, turn) ∷ (elim turn.2 [ goes_on ↦ rest | ended ↦ [] | reconnecting ↦ [] ])

-- `DiscoveryResponse`: the values of the resources are in the encoding of the protocol.
pub record Response : Type 0 where
  pub type_url : Text
  pub resources : List Text

-- `handleEndpointsResp`. `unmarshal` is the protocol's decoder; its errors are not looked at, and it
-- leaves what it has decoded so far.
unfoldable pub handle_endpoints_resp :
    (Text → ClusterLoadAssignment) → Response → List ClusterLoadAssignment
handle_endpoints_resp unmarshal resp = map unmarshal resp.resources

pub data HandleError : Type 0 where
  not_supported : Text → HandleError
  update_failed : HandleError

-- `TypeURLHandleFunc`, on the state of the adapter.
abbrev pub Handler : Type 0
Handler = Response → EdsAdapter → EdsAdapter × Option HandleError

-- `RegisterTypeURLHandleFunc`, on a map that is nil before the first call.
unfoldable pub register_type_url_handle_func :
    Text → Handler → Option (Map Handler) → Option (Map Handler)
unfolding insert
register_type_url_handle_func url f none = some (insert url f [])
register_type_url_handle_func url f (some m) = some (insert url f m)

-- `HandleTypeURL`
unfoldable pub handle_type_url :
    Option (Map Handler) → Response → EdsAdapter → EdsAdapter × Option HandleError
unfolding lookup
handle_type_url handlers resp d = elim (lookup resp.type_url (or_nil handlers)) [
  | none ↦ (d, some (not_supported resp.type_url))
  | some f ↦ f resp d
]

-- What a turn of `receiveThread` finds: the closed channel, an error of `Recv`, a response that is not
-- valid, or one that is.
pub data Received : Type 0 where
  close_seen recv_failed invalid : Received
  valid : Response → Received

-- `receiveThread`
unfoldable pub receive_thread : Option (Map Handler) → List Received → EdsAdapter → EdsAdapter
unfolding handle_type_url
receive_thread handlers [] d = d
receive_thread handlers (close_seen ∷ rs) d = d
receive_thread handlers (recv_failed ∷ rs) d = receive_thread handlers rs d
receive_thread handlers (invalid ∷ rs) d = receive_thread handlers rs d
receive_thread handlers (valid resp ∷ rs) d =
    receive_thread handlers rs (handle_type_url handlers resp d).0

-- `HandleEnvoyClusterLoadAssignment`, for a client that calls `onEndpointsUpdate` of the adapter.
unfoldable pub handle_envoy_cluster_load_assignment :
    (Text → ClusterLoadAssignment)
    → (List ClusterLoadAssignment → EdsAdapter → EdsAdapter × Ended)
    → Handler
unfolding handle_endpoints_resp
handle_envoy_cluster_load_assignment unmarshal on_update resp d =
    let (d', end) = on_update (handle_endpoints_resp unmarshal resp) d in
    (
      d',
      elim end [
        | done ↦ none
        | malformed ↦ some update_failed
        | callback_failed e ↦ some update_failed
      ],
    )

-- The handlers after `init` of the package.
unfoldable pub default_handlers :
    (Text → ClusterLoadAssignment)
    → (List ClusterLoadAssignment → EdsAdapter → EdsAdapter × Ended)
    → Option (Map Handler)
unfolding register_type_url_handle_func handle_envoy_cluster_load_assignment
default_handlers unmarshal on_update =
    register_type_url_handle_func envoy_cluster_load_assignment
      (handle_envoy_cluster_load_assignment unmarshal on_update) none
