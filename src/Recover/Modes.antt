-- ===== src/Recover/Modes.antt =====
-- wrap.go: the recover mode, and the list of all watched services.
use xdiscovery.Recover.{
  recover_get_servers, set_recover, answer_of, ask_inner, recovered, Inner, WithRecoverDiscovery,
  found, not_exist_on_recover, inner_failed, Found, get_all_loop, get_all_watched_services,
}
use xdiscovery.Prelude.{
  ◌≡◌, refl, ◌≢◌, ◌⊎◌, inl, inr, Bool, true, Option, none, some, List, [], ◌∷◌, arith,
  if◌then◌else◌, Option-cases, Text, Map, lookup, has_key, has_key-insert, text_eq_refl,
  text_eq_iff, lookup-insert, insert,
}
use xdiscovery.Service.{ServiceList, recover}

stored :
    (inner : Inner) (service dc : Text) (tags : List Text) (d : WithRecoverDiscovery)
    (srvs : Map ServiceList)
    → srvs ≢ []
    → let (d', a) = recover_get_servers inner service dc tags (set_recover (some srvs) d) in
      ((list : ServiceList)
        → lookup service srvs ≡ some list
        → a ≡ found (record list { run_mode = recover }))
      × ((lookup service srvs ≡ none) → a ≡ not_exist_on_recover)
      × (has_key service d'.watched_services ≡ true)
unfolding recover_get_servers set_recover answer_of recovered
stored inner service dc tags d [] h = absurd (h refl)
stored inner service dc tags d (s ∷ ss) h =
    let read = has_key-insert service service true d.watched_services in
    let same = text_eq_refl service in (λ list e. ground arith, λ e. ground arith, ground arith)

-- After `SetRecover` with at least one stored list a call does not ask the registry: it gets the
-- stored list of the service, in the recover mode, or the error that there is none. After
-- `SetRecover` with none it gets what the registry gives. In both cases the service is watched from
-- then on.
pub recover_get_servers-mode :
    (inner : Inner) (service dc : Text) (tags : List Text) (d : WithRecoverDiscovery)
    → ((srvs : Map ServiceList)
        → srvs ≢ []
        → let (d', a) = recover_get_servers inner service dc tags (set_recover (some srvs) d) in
          ((list : ServiceList)
            → lookup service srvs ≡ some list
            → a ≡ found (record list { run_mode = recover }))
          × ((lookup service srvs ≡ none) → a ≡ not_exist_on_recover)
          × (has_key service d'.watched_services ≡ true))
      × (let (d', a) = recover_get_servers inner service dc tags (set_recover none d) in
          ((list : ServiceList) → inner service dc ≡ some list → a ≡ found list)
          × ((inner service dc ≡ none) → a ≡ inner_failed)
          × (has_key service d'.watched_services ≡ true))
unfolding recover_get_servers set_recover answer_of ask_inner recovered
recover_get_servers-mode inner service dc tags d =
    let read = has_key-insert service service true d.watched_services in
    let same = text_eq_refl service in
    (stored inner service dc tags d, (λ list e. ground arith, λ e. ground arith, ground arith))

-- The list in an answer.
abbrev pub list_in : Found → Option ServiceList
list_in (found list) = some list
list_in not_exist_on_recover = none
list_in inner_failed = none

answer_cases :
    (a : Found)
    → ((list : ServiceList) × (a ≡ found list)) ⊎ (a ≡ not_exist_on_recover) ⊎ (a ≡ inner_failed)
answer_cases (found list) = inl (list, refl)
answer_cases not_exist_on_recover = inr (inl refl)
answer_cases inner_failed = inr (inr refl)

get_all_loop-lookup :
    (inner : Inner) (d : WithRecoverDiscovery) (s : Text) (ss : Map Bool) (acc : Map ServiceList)
    {m : Map ServiceList}
    → get_all_loop inner d ss acc ≡ some m
    → lookup s m ≡ (
        if has_key s ss
        then (elim (list_in (answer_of inner d.srvs s [])) [
          | none ↦ lookup s acc
          | some list ↦ some list
        ])
        else lookup s acc)
unfolding get_all_loop recover_get_servers has_key
get_all_loop-lookup inner d s [] acc h = ground arith
get_all_loop-lookup inner d s ((t, b) ∷ ss) acc {m} h =
    let same = text_eq_iff t s in
    elim (answer_cases (answer_of inner d.srvs t [])) [
      | inl (list, e) ↦
          let read = lookup-insert t s list acc in
          let next : get_all_loop inner d ss (insert t list acc) ≡ some m = ground arith in
          let rest = get_all_loop-lookup inner d s ss (insert t list acc) next in ground arith
      | inr (inl e) ↦
          let next : get_all_loop inner d ss acc ≡ some m = ground arith in
          let rest = get_all_loop-lookup inner d s ss acc next in ground arith
      | inr (inr e) ↦ absurd (ground arith)
    ]

-- `GetAllWatchedServices`, if the discovery inside does not fail, has at each watched service the
-- list that `GetServers` returns for it then, and nothing at a service that is not watched or that
-- the stored lists do not have.
pub get_all_watched_services-lookup :
    (inner : Inner) (d : WithRecoverDiscovery) (service : Text) {m : Map ServiceList}
    → get_all_watched_services inner d ≡ some m
    → lookup service m ≡ (
        if has_key service d.watched_services
        then list_in (recover_get_servers inner service [] [] d).1
        else none)
unfolding get_all_watched_services recover_get_servers
get_all_watched_services-lookup inner d service h =
    let all = get_all_loop-lookup inner d service d.watched_services [] h in
    let empty : lookup {V = ServiceList} service [] ≡ none = unfold lookup in refl in
    let cases = Option-cases (list_in (answer_of inner d.srvs service [])) in ground arith
