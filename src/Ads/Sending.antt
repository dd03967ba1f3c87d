-- ===== src/Ads/Sending.antt =====
-- adapter/eds/xds/v2: the requests of sendThread.
use xdiscovery.Ads.Threads.{
  sees_close, subscribes, stops_client, all_tick, tick, start, start_again, StartTry,
}
use xdiscovery.Ads.Streams.{IsLive, reconnect-ends, live_same, stop_client_lem}
use xdiscovery.Ads.{
  get_client, AdsClient, req_endpoints, update_subscribed_clusters, Request, request_of,
  close_ads_stream_client, get_stream_client, new_ads_client, with_local_ip, generate_client,
  Interface, stop_client, StreamClient, new_stream_client, AdsConfig,
}
use xdiscovery.Ads.Threads.{
  send_turns, send_thread, send_request, send_event, Try, SendEvent, Turned, all_clusters, all_tick,
  ended, tick, goes_on, subscribes, reconnect, reconnecting, Progress,
}
use mathlib.Core.Path.{subst}
use xdiscovery.Prelude.{
  ℕ, ◌≡◌, refl, sym, ap, ◌∙◌, ◌≢◌, ◌⊎◌, inl, inr, Bool, true, ◌&&◌, Option, none, some, List, [],
  ◌∷◌, arith, if◌then◌else◌, Bool-cases, All, Text,
}

-- A request is sent on the client's stream, for all clusters or for those that it has subscribed to.
pub record IsProper (a : AdsClient) (x : ℕ × Request) : Type 0 where
  pub on_stream : get_client a.ads_config ≡ some x.0
  pub asks :
      (x.1 ≡ request_of a.v2_client all_clusters)
      ⊎ (x.1 ≡ request_of a.v2_client a.subscribed_clusters)

-- A turn of the thread: found live, left live unless it ends the thread.
pub record IsGood (x : AdsClient × Turned) : Type 0 where
  pub found : IsLive x.0
  pub proper : All (IsProper x.0) x.1.1
  pub left : x.1.2 ≢ ended → IsLive x.1.0

live_client : {a : AdsClient} → (h : IsLive a) → get_client a.ads_config ≡ some h.number
unfolding get_client
live_client h = let has_stream = h.has_stream in let current = h.current in ground arith

send_request-IsGood :
    (fine : Bool) (tries : List Try) (names : List Text) (a : AdsClient)
    → IsLive a
    → (names ≡ all_clusters) ⊎ (names ≡ a.subscribed_clusters)
    → IsGood (a, send_request fine tries names a)
unfolding send_request req_endpoints
send_request-IsGood fine tries names a h asks =
    let at = live_client h in
    let request = request_of a.v2_client names in
    let proper : IsProper a (h.number, request) = record {
      on_stream = at;
      asks = elim asks [
        | inl e ↦ inl (ap (request_of a.v2_client) e)
        | inr e ↦ inr (ap (request_of a.v2_client) e)
      ];
    } in
    elim (Bool-cases fine) [
      | inl sent ↦
          let same : send_request fine tries names a ≡ (a, (h.number, request) ∷ [], goes_on) =
            ground arith in
          subst (λ x. IsGood (a, x)) (sym same)
            (record { found = h; proper = (proper, tt); left = λ z. h })
      | inr failed ↦
          let r = reconnect tries a in
          let same : send_request fine tries names a
              ≡ (r.0, (h.number, request) ∷ [], if r.1 then goes_on else reconnecting) =
            ground arith in
          subst (λ x. IsGood (a, x)) (sym same)
            (record {
              found = h;
              proper = (proper, tt);
              left = λ z. (reconnect-ends tries a h).live;
            })
    ]

send_event-IsGood : (e : SendEvent) (a : AdsClient) → IsLive a → IsGood (a, send_event e a)
unfolding send_event update_subscribed_clusters
send_event-IsGood (all_tick fine tries) a h =
    send_request-IsGood fine tries all_clusters a h (inl refl)
send_event-IsGood (tick fine tries) a h =
    send_request-IsGood fine tries a.subscribed_clusters a h (inr refl)
send_event-IsGood sees_close a h = elim (Bool-cases a.closed) [
  | inl closed ↦
      let last : AdsClient = record a { ads_config = close_ads_stream_client a.ads_config } in
      let same : send_event sees_close a ≡ (last, [], ended) = ground arith in
      subst (λ x. IsGood (a, x)) (sym same)
        (record { found = h; proper = tt; left = λ z. absurd (z refl) })
  | inr more ↦
      let same : send_event sees_close a ≡ (a, [], goes_on) = ground arith in
      subst (λ x. IsGood (a, x)) (sym same) (record { found = h; proper = tt; left = λ z. h })
]
send_event-IsGood (subscribes clusters) a h = record {
  found = h;
  proper = tt;
  left = λ z. live_same refl h;
}
send_event-IsGood stops_client a h = record {
  found = h;
  proper = tt;
  left = λ z. live_same (ap (λ c. c.stream_client) (stop_client_lem a).1) h;
}

-- The turns after one.
after-IsGood :
    (p : Progress) (rest : List (AdsClient × Turned))
    → (p ≢ ended → All IsGood rest)
    → All IsGood (elim p [ goes_on ↦ rest | ended ↦ [] | reconnecting ↦ [] ])
after-IsGood goes_on rest h = h (λ e. absurd (cc))
after-IsGood ended rest h = tt
after-IsGood reconnecting rest h = tt

send_turns-IsGood : (es : List SendEvent) (a : AdsClient) → IsLive a → All IsGood (send_turns es a)
unfolding send_turns
send_turns-IsGood [] a h = tt
send_turns-IsGood (e ∷ es) a h =
    let turn = send_event e a in
    let good = send_event-IsGood e a h in
    (
      good,
      after-IsGood turn.2 (send_turns es turn.0) (λ z. send_turns-IsGood es turn.0 (good.left z)),
    )

send_thread-IsGood :
    (fine : Bool) (tries : List Try) (es : List SendEvent) (a : AdsClient)
    → IsLive a
    → All IsGood (send_thread fine tries es a)
unfolding send_thread
send_thread-IsGood fine tries es a h =
    let turn = send_request fine tries all_clusters a in
    let good = send_request-IsGood fine tries all_clusters a h (inl refl) in
    (
      good,
      after-IsGood turn.2 (send_turns es turn.0) (λ z. send_turns-IsGood es turn.0 (good.left z)),
    )

-- A stream client that is made is live.
get_stream_client-IsLive :
    (dialled made : Bool) (a : AdsClient)
    → a.ads_config.stream_client ≡ none
    → (get_stream_client dialled made a.ads_config).1 ≡ true
    → IsLive (record a { ads_config = (get_stream_client dialled made a.ads_config).0 })
unfolding get_stream_client generate_client
get_stream_client-IsLive dialled made a fresh ok =
    let sc : StreamClient = record new_stream_client {
      opened = 1;
      client = some 0;
      cancel = some 0;
    } in
    let both : (dialled && made) ≡ true = ground arith in
    record {
      stream = sc;
      number = 0;
      has_stream = ground arith;
      current = refl;
      to_cancel = refl;
      older = tt;
      last = refl;
      is_open = refl;
    }

start_again-IsLive :
    (tries : List StartTry) (a : AdsClient)
    → a.ads_config.stream_client ≡ none
    → (start_again tries a).1 ≡ true
    → IsLive (start_again tries a).0
unfolding start_again
start_again-IsLive [] a fresh ok = absurd (cc)
start_again-IsLive (t ∷ ts) a fresh ok =
    let now : AdsClient = if t.stops then (stop_client a).0 else a in
    let (stopped, config) = stop_client_lem a in
    let kept : now.ads_config ≡ a.ads_config = ground arith in
    let (c, made) = get_stream_client t.dialled t.made now.ads_config in
    let fresh' = ap (λ x. x.stream_client) kept ∙ fresh in
    elim (Bool-cases now.stoped) [
      | inl over ↦ absurd (ground arith)
      | inr going ↦ elim (Bool-cases made) [
        | inl good ↦
            let same : (start_again (t ∷ ts) a).0 ≡ record now { ads_config = c } = ground arith in
            subst IsLive (sym same) (get_stream_client-IsLive t.dialled t.made now fresh' good)
        | inr bad ↦
            let same : start_again (t ∷ ts) a ≡ start_again ts now = ground arith in
            subst (λ x. IsLive x.0) (sym same)
              (start_again-IsLive ts now fresh' (ap (λ x. x.1) (sym same) ∙ ok))
      ]
    ]

start-IsLive :
    (dialled made : Bool) (tries : List StartTry) (a : AdsClient)
    → a.ads_config.stream_client ≡ none
    → (start dialled made tries a).1 ≡ true
    → IsLive (start dialled made tries a).0
unfolding start
start-IsLive dialled made tries a fresh ok =
    elim (Bool-cases ((get_stream_client dialled made a.ads_config).1)) [
      | inl good ↦
          let same : (start dialled made tries a).0
              ≡ record a { ads_config = (get_stream_client dialled made a.ads_config).0 } =
            ground arith in
          subst IsLive (sym same) (get_stream_client-IsLive dialled made a fresh good)
      | inr bad ↦
          let same : start dialled made tries a ≡ start_again tries a = ground arith in
          subst (λ x. IsLive x.0) (sym same)
            (start_again-IsLive tries a fresh (ap (λ x. x.1) (sym same) ∙ ok))
    ]

-- If a new client has no stream client and `Start` starts its threads, at once or at a later try, then
-- each turn of `sendThread` finds a live client: the stream on which it sends is the one that was
-- opened last, its context is not ended and the connection is open. Each request of the turn is on
-- that stream, for all clusters or for those that are subscribed to at the turn.
pub start-send_thread :
    (inters : Option (List Interface)) (config : AdsConfig) (dialled made : Bool)
    (starts : List StartTry) (fine : Bool) (tries : List Try) (es : List SendEvent) {a : AdsClient}
    → config.stream_client ≡ none
    → start dialled made starts (new_ads_client inters config) ≡ (a, true)
    → All IsGood (send_thread fine tries es a)
unfolding new_ads_client with_local_ip
start-send_thread inters config dialled made starts fine tries es {a} fresh started =
    let none_yet : (new_ads_client inters config).ads_config.stream_client ≡ none = ground arith in
    send_thread-IsGood fine tries es a (
      subst (λ x. IsLive x.0) started
        (start-IsLive dialled made starts (new_ads_client inters config) none_yet
          (ap (λ x. x.1) started)))
