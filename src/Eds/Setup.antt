-- ===== src/Eds/Setup.antt =====
-- adapter/eds/options.go, NewEdsAdapter, Init and the end of WatchList of adapter/eds/eds.go: the
-- adapter and its xDS client together.
use xdiscovery.Service.{HealthCheck, Service}
use xdiscovery.Eds.Update.{on_endpoints_update, Ended}
use xdiscovery.Eds.{
  EdsAdapter, eds_watch_list, WatchGaps, OnUpdateList, Watcher, ClusterLoadAssignment,
}
use xdiscovery.Ads.{AdsConfig, AdsClient, Interface, new_ads_client, update_subscribed_clusters}
use xdiscovery.Ads.Threads.{start, StartTry}
use xdiscovery.Prelude.{ℕ, Bool, Option, none, some, List, [], ◌∷◌, ℤ, pos, Text, Map, lookup}

pub record EdsOptions : Type 0 where
  pub service_cluster : Text
  pub service_node : Text
  pub local_ip : Text
  pub env : Text
  pub container : Text
  pub datacenter : Text
  pub refresh_delay : ℤ
  pub all_refresh_delay : ℤ
  pub connect_timeout : ℤ
  pub wait_ready_timeout : ℤ

-- `Option`
abbrev pub EdsOption : Type 0
EdsOption = EdsOptions → EdsOptions

abbrev pub default_options : EdsOptions
default_options = record {
  service_cluster = [];
  service_node = [];
  local_ip = [];
  env = [];
  container = [];
  datacenter = [];
  refresh_delay = pos 10000000000;
  all_refresh_delay = pos 1800000000000;
  connect_timeout = pos 2000000000;
  wait_ready_timeout = pos 1000000000;
}

abbrev pub refresh_delay : ℤ → EdsOption
refresh_delay d o = record o { refresh_delay = d }

abbrev pub all_refresh_delay : ℤ → EdsOption
all_refresh_delay d o = record o { all_refresh_delay = d }

abbrev pub connect_timeout : ℤ → EdsOption
connect_timeout d o = record o { connect_timeout = d }

abbrev pub wait_ready_timeout : ℤ → EdsOption
wait_ready_timeout d o = record o { wait_ready_timeout = d }

abbrev pub local_ip : Text → EdsOption
local_ip ip o = record o { local_ip = ip }

abbrev pub service_cluster : Text → EdsOption
service_cluster cluster o = record o { service_cluster = cluster }

abbrev pub service_node : Text → EdsOption
service_node node o = record o { service_node = node }

abbrev pub env : Text → EdsOption
env e o = record o { env = e }

abbrev pub container : Text → EdsOption
container c o = record o { container = c }

abbrev pub datacenter : Text → EdsOption
datacenter d o = record o { datacenter = d }

-- `for _, opt := range opts { opt(&options) }`
unfoldable pub apply_options : List EdsOption → EdsOptions → EdsOptions
apply_options [] o = o
apply_options (f ∷ fs) o = apply_options fs (f o)

-- The configuration that `NewEdsAdapter` gives to the client. It names no network card.
unfoldable pub config_of : Text → EdsOptions → AdsConfig
config_of addr o = record {
  service_cluster = o.service_cluster;
  service_node = o.service_node;
  refresh_delay = o.refresh_delay;
  all_refresh_delay = o.all_refresh_delay;
  ads_addr = addr;
  connect_timeout = o.connect_timeout;
  local_ip = o.local_ip;
  env = o.env;
  container = o.container;
  datacenter = o.datacenter;
  default_net_work_card = [];
  stream_client = none;
}

-- The adapter with its client.
pub record EdsDiscovery : Type 0 where
  pub adapter : EdsAdapter
  pub ads_client : AdsClient

-- `NewEdsAdapter`; `counter` is the `watchVersion` of the package.
unfoldable pub new_eds_adapter : Option (List Interface) → ℕ → Text → List EdsOption → EdsDiscovery
unfolding config_of new_ads_client
new_eds_adapter inters counter addr opts = record {
  adapter = record { watchers = []; clusterlist = []; clusters = []; counter = counter };
  ads_client = new_ads_client inters (config_of addr (apply_options opts default_options));
}

-- `Init`, up to the wait for the first lists.
unfoldable pub init_eds :
    Bool → Bool → List StartTry → List Text → EdsDiscovery → EdsDiscovery × Bool
unfolding start update_subscribed_clusters
init_eds dialled made tries clusters d =
    let (c, started) =
      start dialled made tries (update_subscribed_clusters clusters d.ads_client) in
    (record d { ads_client = c }, started)

-- `WatchList` with the subscription at its end: the list of clusters is that of the locked section,
-- and `others` is what other calls do before it is passed on. `none` is its error; else the watcher
-- is returned, as it is at the end.
unfoldable pub watch_list :
    WatchGaps
    → (EdsDiscovery → EdsDiscovery)
    → Text
    → Option OnUpdateList
    → EdsDiscovery
    → EdsDiscovery × Option Watcher
unfolding eds_watch_list update_subscribed_clusters
watch_list gaps others cluster f d =
    let (a, list) = eds_watch_list gaps cluster f d.adapter in
    let after = others (record d { adapter = a }) in
    let watcher = lookup cluster after.adapter.watchers in
    elim list [
      | none ↦ (record d { adapter = a }, none)
      | some clusters ↦ elim clusters [
        | [] ↦ (after, watcher)
        | c ∷ cs ↦ (
          record after { ads_client = update_subscribed_clusters (c ∷ cs) after.ads_client },
          watcher,
        )
      ]
    ]

-- `onEndpointsUpdate` of the adapter.
unfoldable pub update_endpoints :
    (Text → Option HealthCheck)
    → (Map (List Service) → Map (List Service))
    → List ClusterLoadAssignment
    → EdsDiscovery
    → EdsDiscovery × Ended
unfolding on_endpoints_update
update_endpoints unmarshal iterate clusters d =
    let (a, ended) = on_endpoints_update unmarshal iterate clusters d.adapter in
    (record d { adapter = a }, ended)
