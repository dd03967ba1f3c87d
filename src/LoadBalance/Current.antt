-- ===== src/LoadBalance/Current.antt =====
-- loadbalance/loadbalance.go: the balancer that `Next` asks, where the versions name the services.
use mathlib.Core.Path.{subst}
use xdiscovery.Prelude.{
  ℕ, ◌≡◌, refl, sym, ap, ◌∙◌, inl, inr, false, Option, some, List, [], ◌∷◌, arith, if◌then◌else◌,
  Bool-cases, Option-cases, Text, lookup, insert, lookup-insert, text_eq, text_eq→≡,
}
use xdiscovery.LoadBalance.Sharing.{
  no_gap, made_cases, next_of_check, choose-chosen, next_checked-chosen,
}
use xdiscovery.Wrr.{RoundRobinWeight, next_server, ok, new_round_robin_weight}
use xdiscovery.CheckChange.{
  CheckChange, new_check_change, get_value, locked_update, update_sync, made, store, is_changed,
}
use xdiscovery.LoadBalance.{
  LoadBalance, check_of, build_load_balance, next, next_checked, chosen, QueryOpts, upsert_all,
  new_load_balance,
}
use xdiscovery.Service.{Service, ServiceList, mode_number, unset}

-- The services that stand for a watch version, a version and the number of a mode.
abbrev pub Stamps : Type 0
Stamps = ℕ → ℕ → ℕ → List Service

-- The services of a list are those of its versions and its mode.
abbrev pub IsPublished : Stamps → ServiceList → Type 0
IsPublished p list = list.services ≡ p list.watch_version list.version (mode_number list.run_mode)

-- A checker holds the balancer of the services of its versions.
pub record IsBuilt (p : Stamps) (c : CheckChange RoundRobinWeight) : Type 0 where
  pub built :
      upsert_all (p c.watch_version c.version (mode_number c.run_mode)) new_round_robin_weight
      ≡ made c.value
  pub builds : c.new_value ≡ build_load_balance
  pub in_turn : c.async_update ≡ false

abbrev pub AreBuilt : (Text → Stamps) → LoadBalance → Type 0
AreBuilt p l =
    (k : Text) (c : CheckChange RoundRobinWeight) → lookup k l.checks ≡ some c → IsBuilt (p k) c

-- A call of `Next`.
pub record Query : Type 0 where
  pub discovery : Text → Text → List Text → Option ServiceList
  pub intn : ℕ → ℕ
  pub service : Text
  pub opts : QueryOpts

abbrev pub answer : Query → Option ServiceList
answer q = q.discovery q.service q.opts.dc q.opts.tags

abbrev pub run_query : Query → LoadBalance → LoadBalance
run_query q l = (next q.discovery no_gap q.intn q.service q.opts l).0

abbrev pub run_queries : List Query → LoadBalance → LoadBalance
run_queries [] l = l
run_queries (q ∷ qs) l = run_queries qs (run_query q l)

-- Each list that the discovery gives for a query has the services of its versions.
abbrev pub IsAnswered : (Text → Stamps) → Query → Type 0
IsAnswered p q = (list : ServiceList) → answer q ≡ some list → IsPublished (p q.service) list

abbrev pub AreAnswered : (Text → Stamps) → List Query → Type 0
AreAnswered p [] = Unit
AreAnswered p (q ∷ qs) = IsAnswered p q × AreAnswered p qs

get_value-IsBuilt :
    (p : Stamps) (c : CheckChange RoundRobinWeight) (list : ServiceList)
    → IsPublished p list
    → IsBuilt p c
    → IsBuilt p (get_value no_gap c list).state
      × ((lb : RoundRobinWeight)
          → (get_value no_gap c list).value ≡ some lb
          → build_load_balance list ≡ made lb)
unfolding get_value locked_update update_sync is_changed store build_load_balance
get_value-IsBuilt p c list h b =
    let own : c.new_value list ≡ upsert_all list.services new_round_robin_weight =
      ap (λ f. f list) b.builds in
    let sync = b.in_turn in
    let was = b.built in
    elim (Bool-cases (is_changed c list)) [
      | inr same ↦
          let watch_ : c.watch_version ≡ list.watch_version = ground arith in
          let version_ : c.version ≡ list.version = ground arith in
          let mode_ : mode_number c.run_mode ≡ mode_number list.run_mode = ground arith in
          let kept : (get_value no_gap c list).state ≡ c = ground arith in
          (subst (IsBuilt p) (sym kept) b, λ lb e. ground arith)
      | inl changed ↦ elim (made_cases (c.new_value list)) [
        | inl (v, makes) ↦
            let kept : (get_value no_gap c list).state ≡ store c list v = ground arith in
            let now : upsert_all list.services new_round_robin_weight ≡ made v = sym own ∙ makes in
            (
              subst (IsBuilt p) (sym kept) (record {
                built = ap (λ s. upsert_all s new_round_robin_weight) (sym h) ∙ now;
                builds = b.builds;
                in_turn = b.in_turn;
              }),
              λ lb e. ground arith,
            )
        | inr (inl fails) ↦
            let kept : (get_value no_gap c list).state ≡ c = ground arith in
            (subst (IsBuilt p) (sym kept) b, λ lb e. absurd (ground arith))
        | inr (inr panics) ↦
            let kept : (get_value no_gap c list).state ≡ c = ground arith in
            (subst (IsBuilt p) (sym kept) b, λ lb e. absurd (ground arith))
      ]
    ]

check_of-IsBuilt :
    (p : Text → Stamps) (service : Text) (l : LoadBalance) {c : CheckChange RoundRobinWeight}
    → ((k : Text) → p k 0 0 0 ≡ [])
    → AreBuilt p l
    → check_of service l ≡ made c
    → IsBuilt (p service) c
unfolding check_of new_check_change build_load_balance upsert_all
check_of-IsBuilt p service l {c} zero_ h e = elim (Option-cases (lookup service l.checks)) [
  | inl missing ↦
      let empty = zero_ service in
      let start : upsert_all (p service 0 0 0) new_round_robin_weight
          ≡ made new_round_robin_weight =
        ap (λ s. upsert_all s new_round_robin_weight) empty in
      let made_ : record {
        watch_version = 0;
        version = 0;
        run_mode = unset;
        value = new_round_robin_weight;
        is_update = false;
        new_value = build_load_balance;
        async_update = false;
      }
          ≡ c =
        ground arith in
      subst (IsBuilt (p service)) made_ (record { built = start; builds = refl; in_turn = refl })
  | inr (cc_, found) ↦
      let same : cc_ ≡ c = ground arith in subst (IsBuilt (p service)) same (h service cc_ found)
]

stored-AreBuilt :
    (p : Text → Stamps) (service : Text) (c : CheckChange RoundRobinWeight) (l : LoadBalance)
    → AreBuilt p l
    → IsBuilt (p service) c
    → AreBuilt p (record l { checks = insert service c l.checks })
stored-AreBuilt p service c l h b k d e =
    let law = lookup-insert service k c l.checks in
    elim (Bool-cases (text_eq service k)) [
      | inl same ↦
          let which : some c ≡ some d =
            sym (ap (λ b. if b then some c else lookup k l.checks) same) ∙ sym law ∙ e in
          let is_d : c ≡ d = cc in
          subst (λ x. IsBuilt (p x) d) (text_eq→≡ service k same)
            (subst (IsBuilt (p service)) is_d b)
      | inr other ↦
          h k d (sym (ap (λ b. if b then some c else lookup k l.checks) other) ∙ sym law ∙ e)
    ]

run_query-AreBuilt :
    (p : Text → Stamps) (q : Query) (l : LoadBalance)
    → ((k : Text) → p k 0 0 0 ≡ [])
    → IsAnswered p q
    → AreBuilt p l
    → AreBuilt p (run_query q l)
unfolding next next_checked
run_query-AreBuilt p q l zero_ a h = elim (made_cases (check_of q.service l)) [
  | inl (c, e) ↦
      let built = check_of-IsBuilt p q.service l zero_ h e in
      elim (Option-cases (answer q)) [
        | inl failed_ ↦
            let same : run_query q l ≡ record l { checks = insert q.service c l.checks } =
              ground arith in
            subst (AreBuilt p) (sym same) (stored-AreBuilt p q.service c l h built)
        | inr (list, given) ↦
            let next_ = (get_value no_gap c list).state in
            let same : run_query q l ≡ record l { checks = insert q.service next_ l.checks } =
              ground arith in
            subst (AreBuilt p) (sym same) (
              stored-AreBuilt p q.service next_ l h
                ((get_value-IsBuilt (p q.service) c list (a list given) built).0))
      ]
  | inr (inl e) ↦ let same : run_query q l ≡ l = ground arith in subst (AreBuilt p) (sym same) h
  | inr (inr e) ↦ let same : run_query q l ≡ l = ground arith in subst (AreBuilt p) (sym same) h
]

run_queries-AreBuilt :
    (p : Text → Stamps) (qs : List Query) (l : LoadBalance)
    → ((k : Text) → p k 0 0 0 ≡ [])
    → AreAnswered p qs
    → AreBuilt p l
    → AreBuilt p (run_queries qs l)
run_queries-AreBuilt p [] l zero_ a h = h
run_queries-AreBuilt p (q ∷ qs) l zero_ (a, as_) h =
    run_queries-AreBuilt p qs (run_query q l) zero_ as_ (run_query-AreBuilt p q l zero_ a h)

-- Let the versions and the mode of a list determine its services, for each service name, none
-- standing for the versions zero without a mode. After any calls of `Next` on a new load balancer,
-- with no other goroutine inside `GetValue`, a node that the next call chooses is the choice of a
-- balancer built from just the list that the discovery gave to this call.
pub run_queries-chosen :
    (p : Text → Stamps) (qs : List Query) (q : Query) (list : ServiceList) (u : Service)
    → ((k : Text) → p k 0 0 0 ≡ [])
    → AreAnswered p qs
    → answer q ≡ some list
    → IsPublished (p q.service) list
    → (next q.discovery no_gap q.intn q.service q.opts (run_queries qs new_load_balance)).1
      ≡ chosen u
    → (lb : RoundRobinWeight) × (build_load_balance list ≡ made lb) × (next_server q.intn lb ≡ ok u)
unfolding next lookup
run_queries-chosen p qs q list u zero_ as_ given published n =
    let l = run_queries qs new_load_balance in
    let all = run_queries-AreBuilt p qs new_load_balance zero_ as_ (λ k c e. absurd (cc)) in
    elim (made_cases (check_of q.service l)) [
      | inl (c, e) ↦
          let built = check_of-IsBuilt p q.service l zero_ all e in
          let run : (next_checked no_gap q.intn q.service (some list) c l).1 ≡ chosen u =
            ap (λ a. (next_checked no_gap q.intn q.service a c l).1) (sym given)
            ∙ sym (ap (λ r. r.1) (next_of_check q.discovery q.intn q.service q.opts l c e))
            ∙ n in
          let (lb, value, picks) =
            choose-chosen q.intn (get_value no_gap c list).value u
              (next_checked-chosen q.intn q.service list c l u run) in
          (lb, (get_value-IsBuilt (p q.service) c list published built).1 lb value, picks)
      | inr (inl e) ↦ absurd (ground arith)
      | inr (inr e) ↦ absurd (ground arith)
    ]
