-- ===== src/Ads.antt =====
-- adapter/eds/xds/v2: the client of the xDS server, with its stream, and internal/utils/getip.go.
-- A gRPC stream is a number, counted from the first that was made; whether a call of grpc succeeds is
-- an argument.
use xdiscovery.Service.Copy.{copy_slice}
use xdiscovery.Prelude.{
  ℕ, zero, suc, ◌+◌, ◌-◌, ◌≤◌, ◌<◌, ◌≡◌, refl, sym, ap, ◌∙◌, ◌≢◌, ◌↔◌, ◌⊎◌, inl, inr, Bool, true,
  false, not, ◌&&◌, ◌||◌, Option, none, some, List, [], ◌∷◌, ◌++◌, arith, if◌then◌else◌, Bool-cases,
  Option-cases, ℤ, pos, negsuc, length, All, In, Text, codes, map, is_empty, text_eq, Map,
}
pub mod Threads
pub mod Streams
pub mod Sending
pub mod Receiving

-- The stream of `client`, the stream whose context `cancel` ends, the streams that were ended, and
-- whether the connection is closed. `opened` counts the streams of `aclient`.
pub record StreamClient : Type 0 where
  pub opened : ℕ
  pub client : Option ℕ
  pub cancel : Option ℕ
  pub cancelled : List ℕ
  pub conn_closed : Bool

-- The streams with the one that `cancel` ends.
abbrev pub with_cancelled : StreamClient → List ℕ
with_cancelled sc = elim sc.cancel [ none ↦ sc.cancelled | some n ↦ n ∷ sc.cancelled ]

-- `generateClient`: `none` is its error.
unfoldable pub generate_client : Bool → StreamClient → Option StreamClient
generate_client made sc =
    if made
    then some (record sc {
      opened = sc.opened + 1;
      client = some sc.opened;
      cancel = some sc.opened;
      cancelled = with_cancelled sc;
    })
    else none

-- `close` of the stream client.
unfoldable pub close_stream : StreamClient → StreamClient
close_stream sc = record sc { cancelled = with_cancelled sc; conn_closed = true }

pub record AdsConfig : Type 0 where
  pub service_cluster : Text
  pub service_node : Text
  pub refresh_delay : ℤ
  pub all_refresh_delay : ℤ
  pub ads_addr : Text
  pub connect_timeout : ℤ
  pub local_ip : Text
  pub env : Text
  pub container : Text
  pub datacenter : Text
  pub default_net_work_card : Text
  pub stream_client : Option StreamClient

-- `&StreamClient{}` with a connection.
abbrev pub new_stream_client : StreamClient
new_stream_client = record {
  opened = 0;
  client = none;
  cancel = none;
  cancelled = [];
  conn_closed = false;
}

-- `GetStreamClient`: whether it returns no error. `dialled` and `made` tell how its calls end.
unfoldable pub get_stream_client : Bool → Bool → AdsConfig → AdsConfig × Bool
unfolding generate_client
get_stream_client dialled made c = elim c.stream_client [
  | some sc ↦ (c, true)
  | none ↦ if not dialled then (c, false) else (elim (generate_client made new_stream_client) [
    | none ↦ (c, false)
    | some sc ↦ (record c { stream_client = some sc }, true)
  ])
]

-- `GetClient`. A configuration without a stream client is a panic in the code, which calls it only
-- after `GetStreamClient` has succeeded; here it has no stream.
unfoldable pub get_client : AdsConfig → Option ℕ
get_client c = elim c.stream_client [ none ↦ none | some sc ↦ sc.client ]

-- `closeADSStreamClient`
unfoldable pub close_ads_stream_client : AdsConfig → AdsConfig
unfolding close_stream
close_ads_stream_client c = elim c.stream_client [
  | none ↦ c
  | some sc ↦ record c { stream_client = some (close_stream sc) }
]

pub record ClientV2 : Type 0 where
  pub service_cluster : Text
  pub service_node : Text
  pub client_ip : Text
  pub env : Text
  pub container : Text
  pub datacenter : Text

pub record AdsClient : Type 0 where
  pub ads_config : AdsConfig
  pub v2_client : ClientV2
  pub closed : Bool
  pub stoped : Bool
  pub subscribed_clusters : List Text

-- A network interface of `net.Interfaces`: its name, and its addresses in both forms, if there is one
-- in the form; `none` is an error of the call.
pub record Interface : Type 0 where
  pub name : Text
  pub addrs : Option (List (Option Text × Option Text))

pub data IpType : Type 0 where
  ip_v4 ip_v6 : IpType

-- The loop over the addresses of an interface.
unfoldable pub first_ip : IpType → List (Option Text × Option Text) → Option Text
first_ip t [] = none
first_ip t ((v4, v6) ∷ rest) =
    let later = first_ip t rest in
    let found : Option Text = elim t [ ip_v4 ↦ v4 | ip_v6 ↦ v6 ] in
    elim found [ none ↦ later | some ip ↦ some ip ]

-- The loop of `GetLocalIP`: `none` is its error.
unfoldable pub ip_of_interfaces : Text → IpType → List Interface → Option Text
unfolding first_ip text_eq
ip_of_interfaces eth t [] = none
ip_of_interfaces eth t (i ∷ is) =
    let later = ip_of_interfaces eth t is in
    if not (text_eq i.name eth) then later else (elim i.addrs [
      | none ↦ none
      | some [] ↦ none
      | some (a ∷ rest) ↦ elim (first_ip t (a ∷ rest)) [ none ↦ later | some ip ↦ some ip ]
    ])

-- `GetLocalIP`
unfoldable pub get_local_ip : Option (List Interface) → Text → IpType → Option Text
unfolding ip_of_interfaces
get_local_ip inters eth t = elim inters [ none ↦ none | some is ↦ ip_of_interfaces eth t is ]

-- The configuration with the IP of a client that was given none; an error leaves it empty.
unfoldable pub with_local_ip : Option (List Interface) → AdsConfig → AdsConfig
unfolding get_local_ip
with_local_ip inters c =
    let card = if is_empty c.default_net_work_card then codes "eth0" else c.default_net_work_card in
    if is_empty c.local_ip
    then record c { local_ip = elim (get_local_ip inters card ip_v4) [ none ↦ [] | some ip ↦ ip ] }
    else c

-- `NewADSClient`
unfoldable pub new_ads_client : Option (List Interface) → AdsConfig → AdsClient
unfolding with_local_ip
new_ads_client inters given =
    let c = with_local_ip inters given in
    record {
      ads_config = c;
      v2_client = record {
        service_cluster = c.service_cluster;
        service_node = c.service_node;
        client_ip = c.local_ip;
        env = c.env;
        container = c.container;
        datacenter = c.datacenter;
      };
      closed = false;
      stoped = false;
      subscribed_clusters = [];
    }

-- `UpdateSubscribedClusters`, with a copy of the list.
unfoldable pub update_subscribed_clusters : List Text → AdsClient → AdsClient
unfolding copy_slice
update_subscribed_clusters clusters a = record a { subscribed_clusters = copy_slice clusters }

-- `Stop`: false if it is stopped already.
unfoldable pub stop_client : AdsClient → AdsClient × Bool
stop_client a = if a.stoped then (a, false) else (record a { closed = true; stoped = true }, true)

-- `DiscoveryRequest`, as far as it is filled in.
pub record Request : Type 0 where
  pub resource_names : List Text
  pub type_url : Text
  pub node_id : Text
  pub node_cluster : Text
  pub metadata : Map Text

abbrev pub envoy_cluster_load_assignment : Text
envoy_cluster_load_assignment = codes "type.googleapis.com/envoy.api.v2.ClusterLoadAssignment"

-- The request of `reqEndpoints`.
unfoldable pub request_of : ClientV2 → List Text → Request
request_of c names = record {
  resource_names = names;
  type_url = envoy_cluster_load_assignment;
  node_id = c.service_node;
  node_cluster = c.service_cluster;
  metadata =
      (codes "CLIENT_IP", c.client_ip)
      ∷ (codes "ENV", c.env)
      ∷ (codes "CONTAINER", c.container)
      ∷ (codes "DATACENTER", c.datacenter)
      ∷ [];
}

-- `reqEndpoints`: what is sent on which stream, and whether there is no error.
unfoldable pub req_endpoints : Bool → ClientV2 → Option ℕ → List Text → List (ℕ × Request) × Bool
unfolding request_of
req_endpoints fine c stream names = elim stream [
  | none ↦ ([], false)
  | some n ↦ ((n, request_of c names) ∷ [], fine)
]
