-- ===== src/Degrade/Checked.antt =====
-- discovery/downgrade.go: the nodes that a round of `continueDoPing` checks and finds healthy.
use mathlib.Core.Path.{subst}
use xdiscovery.Degrade.SameIds.{count_id, list_same-count_id}
use xdiscovery.Options.{Float64}
use xdiscovery.Prelude.{
  ◌≡◌, refl, sym, ap, ◌∙◌, inl, inr, Bool, true, not, ◌&&◌, List, [], ◌∷◌, ◌++◌, arith, Bool-cases,
  Text, select, text_eq, text_eq_iff, ◌<◌, ◌↔◌, length,
}
use xdiscovery.Degrade.Health.{
  Network, gather, add_all, add_endpoint, is_used, check_health, healthy, list_same,
}
use xdiscovery.Degrade.Ping.{PingArgs, elem_services, is_below}
use xdiscovery.Degrade.{Degrade}
use xdiscovery.Service.{Service, get_self_protection_id}
use mathlib.Core.List.{append-nil, append_assoc}

-- The nodes of a list without those whose protection id stands before them.
abbrev pub first_nodes : List Service → List Service
first_nodes [] = []
first_nodes (x ∷ xs) =
    x
    ∷ select (λ y. not (text_eq (get_self_protection_id x) (get_self_protection_id y)))
        (first_nodes xs)

-- The nodes of the registry's list and of the loop's history, each protection id once, that pass
-- their check.
abbrev pub answering : {F : Type 0} → Network → PingArgs → Degrade F → List Service
answering net args d =
    select (λ e. check_health net e d.opts.ping_timeout)
      (first_nodes (d.latest_adapter_list.services ++ elem_services args.el))

select-select :
    (p q r : Service → Bool) (xs : List Service)
    → ((y : Service) → r y ≡ (q y && p y))
    → select p (select q xs) ≡ select r xs
select-select p q r [] h = refl
select-select p q r (x ∷ xs) h = ground (arith, h x, select-select p q r xs h)

select_all :
    (p : Service → Bool) (xs : List Service) → ((y : Service) → p y ≡ true) → select p xs ≡ xs
select_all p [] h = refl
select_all p (x ∷ xs) h = ground (arith, h x, select_all p xs h)

add_all-first_nodes :
    (es : List Service) (used : List Text) (found : List Service)
    → (add_all es (used, found)).1
      ≡ found ++ select (λ y. not (is_used (get_self_protection_id y) used)) (first_nodes es)
unfolding add_all add_endpoint is_used
add_all-first_nodes [] used found = sym (append-nil found)
add_all-first_nodes (e ∷ es) used found =
    let id = get_self_protection_id e in
    let free = λ (y : Service). not (is_used (get_self_protection_id y) used) in
    let apart = λ (y : Service). not (text_eq id (get_self_protection_id y)) in
    elim (Bool-cases (is_used id used)) [
      | inl there ↦
          let rest = add_all-first_nodes es used found in
          let drops : select free (select apart (first_nodes es)) ≡ select free (first_nodes es) =
            select-select free apart free (first_nodes es) (λ y.
              elim (Bool-cases (text_eq id (get_self_protection_id y))) [
                | inl same ↦
                    let ids = (text_eq_iff id (get_self_protection_id y)).0 same in
                    let both : is_used (get_self_protection_id y) used ≡ true =
                      ap (λ i. is_used i used) (sym ids) ∙ there in
                    ground arith
                | inr other ↦ ground arith
              ]) in
          ground arith
      | inr fresh ↦
          let rest = add_all-first_nodes es (id ∷ used) (found ++ e ∷ []) in
          let free' = λ (y : Service). not (is_used (get_self_protection_id y) (id ∷ used)) in
          let both : select free (select apart (first_nodes es)) ≡ select free' (first_nodes es) =
            select-select free apart free' (first_nodes es) (λ y. ground arith) in
          let join = append_assoc found (e ∷ []) (select free' (first_nodes es)) in ground arith
    ]

add_all-append :
    (xs ys : List Service) (found : List Text × List Service)
    → add_all (xs ++ ys) found ≡ add_all ys (add_all xs found)
unfolding add_all
add_all-append [] ys found = refl
add_all-append (x ∷ xs) ys found = add_all-append xs ys (add_endpoint found x)

-- The nodes to check are the first of each protection id.
pub gather-first_nodes :
    (latest history : List Service) → gather latest history ≡ first_nodes (latest ++ history)
unfolding gather is_used
gather-first_nodes latest history =
    ap (λ f. f.1) (sym (add_all-append latest history ([], [])))
    ∙ add_all-first_nodes (latest ++ history) [] []
    ∙ select_all (λ y. not (is_used (get_self_protection_id y) []))
        (first_nodes (latest ++ history)) (λ y. refl)

-- The nodes that pass their check in a round.
abbrev pub passed : {F : Type 0} → Network → PingArgs → Degrade F → List Service
passed net args d =
    healthy net d.opts.ping_timeout (gather d.latest_adapter_list.services (elem_services args.el))

module _ (fl : Float64) where
  open fl use {F, of_ℕ, div, lt}

  pub passed-answering :
      (net : Network) (args : PingArgs) (d : Degrade F) → passed net args d ≡ answering net args d
  unfolding healthy
  passed-answering net args d =
      ap (select (λ e. check_health net e d.opts.ping_timeout))
        (gather-first_nodes d.latest_adapter_list.services (elem_services args.el))

  -- The healthy nodes are fewer than the panic threshold's share of the history, which holds some.
  pub record HasFewHealthy (net : Network) (args : PingArgs) (d : Degrade F) : Type 0 where
    pub some_ : 0 < length (elem_services args.el)
    pub few :
        lt
          (div (of_ℕ (length (answering net args d))) (of_ℕ (length (elem_services args.el))))
          d.opts.panic_threshold
        ≡ true

  pub is_below_iff :
      (net : Network) (args : PingArgs) (d : Degrade F)
      → (is_below fl (passed net args d) (elem_services args.el) d.opts.panic_threshold ≡ true)
        ↔ HasFewHealthy net args d
  unfolding is_below
  is_below_iff net args d =
      let same = ap (λ xs. length xs) (passed-answering net args d) in
      (
        λ e. record { some_ = ground arith; few = ground arith },
        λ h. (let some_ = h.some_ in let few = h.few in ground arith),
      )

  -- The ids of the healthy nodes are those of the registry's list, each as often.
  abbrev pub HasRecovered : Network → PingArgs → Degrade F → Type 0
  HasRecovered net args d =
      (k : Text) → count_id k (answering net args d) ≡ count_id k d.latest_adapter_list.services

  pub list_same_iff :
      (net : Network) (args : PingArgs) (d : Degrade F)
      → (list_same (passed net args d) d.latest_adapter_list.services ≡ true)
        ↔ HasRecovered net args d
  list_same_iff net args d =
      subst (λ xs. (list_same xs d.latest_adapter_list.services ≡ true) ↔ HasRecovered net args d)
        (sym (passed-answering net args d))
        (list_same-count_id (answering net args d) d.latest_adapter_list.services)
