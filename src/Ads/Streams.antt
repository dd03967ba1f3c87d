-- ===== src/Ads/Streams.antt =====
-- adapter/eds/xds/v2: the streams on which sendThread sends.
use xdiscovery.Ads.{
  AdsClient, generate_client, StreamClient, get_client, with_cancelled, stop_client,
}
use xdiscovery.Ads.Threads.{regenerate, Try, reconnect}
use mathlib.Core.Path.{subst}
use xdiscovery.Prelude.{
  ℕ, ◌+◌, ◌<◌, ◌≡◌, refl, sym, ap, ◌∙◌, ◌↔◌, ◌⊎◌, inl, inr, Bool, true, false, ◌||◌, none, some,
  List, [], ◌∷◌, arith, if◌then◌else◌, Bool-cases, All, In,
}

-- The client has a stream whose context is not ended, the last that was opened, and the streams that
-- were ended are older.
pub record IsLive (a : AdsClient) : Type 0 where
  pub stream : StreamClient
  pub number : ℕ
  pub has_stream : a.ads_config.stream_client ≡ some stream
  pub current : stream.client ≡ some number
  pub to_cancel : stream.cancel ≡ some number
  pub older : All (λ k. k < number) stream.cancelled
  pub last : stream.opened ≡ number + 1
  pub is_open : stream.conn_closed ≡ false

weaken_older : (n : ℕ) (ks : List ℕ) → All (λ k. k < n) ks → All (λ k. k < n + 1) ks
weaken_older n [] h = tt
weaken_older n (k ∷ ks) h = (let first = h.0 in omega (arith, first), weaken_older n ks h.1)

-- What changes neither the stream nor the flags of the connection keeps the client live.
pub live_same :
    {a b : AdsClient}
    → b.ads_config.stream_client ≡ a.ads_config.stream_client
    → IsLive a
    → IsLive b
live_same same h = record {
  stream = h.stream;
  number = h.number;
  has_stream = same ∙ h.has_stream;
  current = h.current;
  to_cancel = h.to_cancel;
  older = h.older;
  last = h.last;
  is_open = h.is_open;
}

regenerate-IsLive :
    (a : AdsClient)
    → (h : IsLive a)
    → (b : AdsClient) × (regenerate true a ≡ some b)
      × (get_client b.ads_config ≡ some (h.number + 1))
      × (b.stoped ≡ a.stoped)
      × IsLive b
unfolding regenerate generate_client get_client
regenerate-IsLive a h =
    let sc = h.stream in
    let has_stream = h.has_stream in
    let next : StreamClient = record sc {
      opened = sc.opened + 1;
      client = some sc.opened;
      cancel = some sc.opened;
      cancelled = with_cancelled sc;
    } in
    let cs : with_cancelled sc ≡ h.number ∷ sc.cancelled =
      ap (λ c. elim c [ none ↦ sc.cancelled | some n ↦ n ∷ sc.cancelled ]) h.to_cancel in
    (
      record a { ads_config = record a.ads_config { stream_client = some next } },
      ground arith,
      ap some h.last,
      refl,
      record {
        stream = next;
        number = sc.opened;
        has_stream = refl;
        current = refl;
        to_cancel = refl;
        older = subst (All (λ k. k < sc.opened)) (sym cs) (
          let last = h.last in omega (arith, last),
          subst (λ n. All (λ k. k < n) sc.cancelled) (sym h.last)
              (weaken_older h.number sc.cancelled h.older),
        );
        last = refl;
        is_open = h.is_open;
      },
    )

regenerate_failed : (a : AdsClient) → IsLive a → regenerate false a ≡ none
unfolding regenerate generate_client
regenerate_failed a h = let has_stream = h.has_stream in ground arith

-- How `reconnect` ends.
pub record Reconnected (tries : List Try) (a : AdsClient) (number : ℕ) (x : AdsClient × Bool)
    : Type 0 where
  pub ends_iff :
      (x.1 ≡ true) ↔ ((a.stoped ≡ true) ⊎ ((t : Try) × In t tries × ((t.stops || t.made) ≡ true)))
  pub live : IsLive x.0
  pub new_stream : x.1 ≡ true → x.0.stoped ≡ false → get_client x.0.ads_config ≡ some (number + 1)

pub stop_client_lem :
    (a : AdsClient)
    → ((stop_client a).0.stoped ≡ true) × ((stop_client a).0.ads_config ≡ a.ads_config)
unfolding stop_client
stop_client_lem a = (ground arith, ground arith)

-- `reconnect` comes to an end just if the client is stopped, before it or in it, or a stream is made
-- at one of its tries. The client is live in any case, and if it is not stopped then its stream is
-- the next one.
pub reconnect-ends :
    (tries : List Try) (a : AdsClient) (h : IsLive a)
    → Reconnected tries a h.number (reconnect tries a)
unfolding reconnect
reconnect-ends [] a h = record {
  ends_iff = (λ e. inl e, λ s. elim s [ inl e ↦ e | inr (t, i, e) ↦ absurd i ]);
  live = h;
  new_stream = λ e f. absurd (let both : true ≡ false = sym e ∙ f in cc);
}
reconnect-ends (t ∷ ts) a h = elim (Bool-cases (t.stops || a.stoped)) [
  | inl over ↦
      let (stopped, config) = stop_client_lem a in
      let now : AdsClient = if t.stops then (stop_client a).0 else a in
      let is_stopped : now.stoped ≡ true = ground arith in
      let same : reconnect (t ∷ ts) a ≡ (now, true) = ground arith in
      let kept : now.ads_config ≡ a.ads_config = ground arith in
      subst (Reconnected (t ∷ ts) a h.number) (sym same) (record {
        ends_iff = (
          λ e. elim (Bool-cases a.stoped) [
            | inl s ↦ inl s
            | inr s ↦ inr (t, inl refl, ground arith)
          ],
          λ e. refl,
        );
        live = live_same (ap (λ c. c.stream_client) kept) h;
        new_stream = λ e f. absurd (let both : true ≡ false = sym is_stopped ∙ f in cc);
      })
  | inr running ↦ elim (Bool-cases t.made) [
    | inl made ↦
        let (b, opened, number, flag, live) = regenerate-IsLive a h in
        let same : reconnect (t ∷ ts) a ≡ (b, true) = ground arith in
        subst (Reconnected (t ∷ ts) a h.number) (sym same) (record {
          ends_iff = (λ e. inr (t, inl refl, ground arith), λ e. refl);
          live = live;
          new_stream = λ e f. number;
        })
    | inr fails ↦
        let failed = regenerate_failed a h in
        let same : reconnect (t ∷ ts) a ≡ reconnect ts a = ground arith in
        let rest = reconnect-ends ts a h in
        subst (Reconnected (t ∷ ts) a h.number) (sym same) (record {
          ends_iff = (
            λ e. elim (rest.ends_iff.0 e) [ inl s ↦ inl s | inr (u, i, q) ↦ inr (u, inr i, q) ],
            λ s. rest.ends_iff.1 (elim s [
              | inl q ↦ inl q
              | inr (u, inl here, q) ↦ absurd (ground arith)
              | inr (u, inr i, q) ↦ inr (u, i, q)
            ]),
          );
          live = rest.live;
          new_stream = rest.new_stream;
        })
  ]
]
