-- ===== src/Tests/AdsTests.antt =====
-- adapter/eds/xds/v2 and the calls of adapter/eds/eds.go: runs.
use xdiscovery.Eds.{ClusterLoadAssignment}
use xdiscovery.Eds.Update.{on_endpoints_update}
use xdiscovery.Service.{HealthCheck}
use xdiscovery.Ads.Threads.{
  start, StartTry, Try, send_thread, reconnect, tick, subscribes, valid, recv_failed, Received,
  receive_thread, default_handlers, start_again,
}
use xdiscovery.Ads.{
  AdsConfig, AdsClient, Interface, get_local_ip, new_ads_client, ip_v4, ip_of_interfaces,
  get_stream_client, first_ip, generate_client, stop_client, with_local_ip,
}
use xdiscovery.Eds.Setup.{EdsDiscovery, new_eds_adapter, config_of, default_options, watch_list}
use xdiscovery.Eds.Calls.{
  run_calls, watches, pushes, EdsCall, run_calls-IsSubscribed, watch_list_overlapping,
}
use xdiscovery.Eds.Subscribed.{no_gaps, IsSubscribed, IsWatched}
use xdiscovery.Ads.Sending.{IsGood, start-send_thread}
use xdiscovery.Ads.Streams.{IsLive, Reconnected, reconnect-ends}
use xdiscovery.Ads.Receiving.{messages, update_all, receive_thread-update_all}
use xdiscovery.Prelude.{
  ◌≡◌, refl, ◌≢◌, true, false, Option, none, some, List, [], ◌∷◌, All, In, Text, codes, lookup,
  text_eq,
}

abbrev cards : Option (List Interface)
cards = some (
    record { name = codes "lo"; addrs = some ((some (codes "127.0.0.1"), none) ∷ []) }
    ∷ record {
      name = codes "eth0";
      addrs = some ((none, none) ∷ (some (codes "10.0.0.9"), none) ∷ []);
    }
    ∷ [])

own_ip : get_local_ip cards (codes "eth0") ip_v4 ≡ some (codes "10.0.0.9")
unfolding get_local_ip ip_of_interfaces first_ip text_eq
own_ip = refl

abbrev config : AdsConfig
config = config_of (codes "10.0.0.1:15010") default_options

-- The first `Start` fails to dial, the second try succeeds.
abbrev late : List StartTry
late =
    record { stops = false; dialled = false; made = false }
    ∷ record { stops = false; dialled = true; made = true }
    ∷ []

abbrev started : AdsClient
started = (start false false late (new_ads_client cards config)).0

is_started : start false false late (new_ads_client cards config) ≡ (started, true)
unfolding start start_again get_stream_client generate_client stop_client new_ads_client
    with_local_ip get_local_ip ip_of_interfaces first_ip text_eq config_of
is_started = refl

abbrev fails_once : List Try
fails_once = record { stops = false; made = false } ∷ record { stops = false; made = true } ∷ []

start-send_thread_example : All IsGood (
    send_thread true []
      (tick false fails_once ∷ subscribes (codes "order" ∷ []) ∷ tick true [] ∷ [])
      started)
unfolding config_of
start-send_thread_example =
    start-send_thread cards config false false late true []
      (tick false fails_once ∷ subscribes (codes "order" ∷ []) ∷ tick true [] ∷ []) refl is_started

abbrev live : AdsClient
live = record (new_ads_client none config) {
  ads_config = record config {
    stream_client = some (record {
      opened = 1;
      client = some 0;
      cancel = some 0;
      cancelled = [];
      conn_closed = false;
    });
  };
}

live-IsLive : IsLive live
live-IsLive = record {
  stream = record {
    opened = 1;
    client = some 0;
    cancel = some 0;
    cancelled = [];
    conn_closed = false;
  };
  number = 0;
  has_stream = refl;
  current = refl;
  to_cancel = refl;
  older = tt;
  last = refl;
  is_open = refl;
}

reconnect-ends_example : Reconnected fails_once live live-IsLive.number (reconnect fails_once live)
reconnect-ends_example = reconnect-ends fails_once live live-IsLive

abbrev no_json : Text → Option HealthCheck
no_json t = none

-- A decoder that reads the name of a cluster without endpoints.
abbrev decode : Text → ClusterLoadAssignment
decode t = record { cluster_name = t; endpoints = [] }

abbrev heard : List Received
heard =
    recv_failed
    ∷ valid (record { type_url = codes "other"; resources = [] })
    ∷ valid (record {
      type_url = codes "type.googleapis.com/envoy.api.v2.ClusterLoadAssignment";
      resources = codes "order" ∷ [];
    })
    ∷ []

abbrev fresh : EdsDiscovery
fresh = new_eds_adapter none 0 (codes "10.0.0.1:15010") []

receive_thread-update_all_example :
    receive_thread
      (default_handlers decode (on_endpoints_update no_json (λ m. m)))
      heard
      fresh.adapter
    ≡ update_all (on_endpoints_update no_json (λ m. m)) (messages decode heard) fresh.adapter
receive_thread-update_all_example =
    receive_thread-update_all decode no_json (λ m. m) heard fresh.adapter

abbrev some_calls : List EdsCall
some_calls =
    watches (codes "order") none
    ∷ pushes (decode (codes "order") ∷ [])
    ∷ watches (codes "user") none
    ∷ watches (codes "order") none
    ∷ []

run_calls-IsSubscribed_example :
    let d =
      run_calls no_json (λ m. m) some_calls (new_eds_adapter none 0 (codes "10.0.0.1:15010") []) in
    IsSubscribed d × (d.ads_client.subscribed_clusters ≡ codes "order" ∷ codes "user" ∷ [])
unfolding text_eq
run_calls-IsSubscribed_example =
    run_calls-IsSubscribed none 0 (codes "10.0.0.1:15010") [] no_json (λ m. m) some_calls

apart : codes "order" ≢ codes "user"
apart e = cc

watch_list_overlapping_example :
    let d' =
      (watch_list no_gaps
        (λ x. (watch_list no_gaps (λ y. y) (codes "user") none x).0)
        (codes "order")
        none
        fresh).0 in
    IsWatched (codes "user") d'.adapter.watchers
    × ¬ In (codes "user") d'.ads_client.subscribed_clusters
unfolding new_eds_adapter lookup
watch_list_overlapping_example =
    watch_list_overlapping (codes "order") (codes "user") none none fresh
      (run_calls-IsSubscribed none 0 (codes "10.0.0.1:15010") [] no_json (λ m. m) []).0 apart refl
      refl
