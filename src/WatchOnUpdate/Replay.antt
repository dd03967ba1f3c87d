-- ===== src/WatchOnUpdate/Replay.antt =====
-- discovery/watch_on_update.go: the events of the services that are there, and a table of services
-- that a client could keep by them.
use mathlib.Core.Path.{subst}
use xdiscovery.WatchOnUpdate.{entry_event, entry_events, is_same_service}
use xdiscovery.Prelude.{
  ◌≡◌, refl, ap, ◌∙◌, ◌⊎◌, inl, inr, true, false, none, some, List, [], ◌∷◌, ◌++◌, arith,
  Bool-cases, Option-cases, All, In, Text, Map, text_eq, lookup, insert, lookup-insert, delete,
  text_eq_refl, All-In, text_eq_iff,
}
use xdiscovery.Service.{Service, Event, add, del, mod_}

-- A client's table of the services by id, and what an event does to it.
abbrev pub apply_event : Event → Map Service → Map Service
apply_event e table = elim e.action [
  | add ↦ insert e.service.id e.service table
  | mod_ ↦ insert e.service.id e.service table
  | del ↦ delete e.service.id table
]

abbrev pub replay : List Event → Map Service → Map Service
replay [] table = table
replay (e ∷ es) table = replay es (apply_event e table)

-- No two services have one id.
abbrev pub HaveDistinctIds : List Service → Type 0
HaveDistinctIds [] = Unit
HaveDistinctIds (x ∷ xs) = All (λ y. text_eq y.id x.id ≡ false) xs × HaveDistinctIds xs

-- Each entry stands at the id of its service.
abbrev pub IsKeyed : Map Service → Type 0
IsKeyed m = All (λ p. p.0 ≡ p.1.id) m

pub replay-append :
    (es fs : List Event) (table : Map Service)
    → replay (es ++ fs) table ≡ replay fs (replay es table)
replay-append [] fs table = refl
replay-append (e ∷ es) fs table = replay-append es fs (apply_event e table)

entry_event_cases :
    (prev : Map Service) (s : Service)
    → ((entry_event prev s ≡ none)
        × ((old : Service) × (lookup s.id prev ≡ some old) × (is_same_service old s ≡ true)))
      ⊎ ((e : Event) × (entry_event prev s ≡ some e)
          × ((t : Map Service) → apply_event e t ≡ insert s.id s t))
unfolding entry_event
entry_event_cases prev s = elim (Option-cases (lookup s.id prev)) [
  | inl missing ↦ inr (record { action = add; service = s }, ground arith, λ t. refl)
  | inr (old, found) ↦ elim (Bool-cases (is_same_service old s)) [
    | inl same ↦ inl (ground arith, (old, found, same))
    | inr other ↦ inr (record { action = mod_; service = s }, ground arith, λ t. refl)
  ]
]

-- The events of the first service, and then those of the others.
entry_events-none :
    (prev : Map Service) (s : Service) (cur : List Service)
    → entry_event prev s ≡ none
    → entry_events prev (s ∷ cur) ≡ entry_events prev cur
unfolding entry_events
entry_events-none prev s cur h = ground arith

entry_events-some :
    (prev : Map Service) (s : Service) (cur : List Service) (e : Event)
    → entry_event prev s ≡ some e
    → entry_events prev (s ∷ cur) ≡ e ∷ entry_events prev cur
unfolding entry_events
entry_events-some prev s cur e h = ground arith

-- The table after the event of the first service.
after_first :
    (prev : Map Service) (s : Service) (cur : List Service) (table : Map Service)
    → ((replay (entry_events prev (s ∷ cur)) table ≡ replay (entry_events prev cur) table)
        × ((old : Service) × (lookup s.id prev ≡ some old) × (is_same_service old s ≡ true)))
      ⊎ (replay (entry_events prev (s ∷ cur)) table
          ≡ replay (entry_events prev cur) (insert s.id s table))
after_first prev s cur table = elim (entry_event_cases prev s) [
  | inl (quiet, old) ↦ inl (ap (λ es. replay es table) (entry_events-none prev s cur quiet), old)
  | inr (e, given, does) ↦ inr (
      ap (λ es. replay es table) (entry_events-some prev s cur e given)
      ∙ ap (replay (entry_events prev cur)) (does table))
]

-- The events of a list do nothing to the table at an id that the list does not have.
pub lookup-entry_events_other :
    (k : Text) (prev : Map Service) (cur : List Service) (table : Map Service)
    → All (λ e. text_eq e.id k ≡ false) cur
    → lookup k (replay (entry_events prev cur) table) ≡ lookup k table
unfolding entry_events
lookup-entry_events_other k prev [] table h = refl
lookup-entry_events_other k prev (s ∷ cur) table h = elim (after_first prev s cur table) [
  | inl (same, old) ↦ ap (lookup k) same ∙ lookup-entry_events_other k prev cur table h.1
  | inr more ↦
      let step : lookup k (insert s.id s table) ≡ lookup k table =
        (let read = lookup-insert s.id k s table in ground arith) in
      ap (lookup k) more ∙ lookup-entry_events_other k prev cur (insert s.id s table) h.1 ∙ step
]

-- At the id of a service of the list the table holds that service, or what it held if that is the
-- same as before.
pub lookup-entry_events :
    (e : Service) (prev : Map Service) (cur : List Service) (table : Map Service)
    → HaveDistinctIds cur
    → In e cur
    → let after = replay (entry_events prev cur) table in
      (lookup e.id after ≡ some e)
      ⊎ ((lookup e.id after ≡ lookup e.id table)
          × ((old : Service) × (lookup e.id prev ≡ some old) × (is_same_service old e ≡ true)))
lookup-entry_events e prev (s ∷ cur) table (apart, rest) (inl here) =
    let others : All (λ y. text_eq y.id e.id ≡ false) cur =
      subst (λ x. All (λ y. text_eq y.id x.id ≡ false) cur) here apart in
    elim (after_first prev s cur table) [
      | inl (same, old) ↦ inr (
        ap (lookup e.id) same ∙ lookup-entry_events_other e.id prev cur table others,
        subst
            (λ x. (old : Service) × (lookup x.id prev ≡ some old) × (is_same_service old x ≡ true))
            here old,
      )
      | inr more ↦
          let step : lookup e.id (insert s.id s table) ≡ some e =
            (let read = lookup-insert s.id e.id s table in
              let refl_ = text_eq_refl e.id in
              let ids = ap (λ (x : Service). x.id) here in ground arith) in
          inl (
            ap (lookup e.id) more
            ∙ lookup-entry_events_other e.id prev cur (insert s.id s table) others
            ∙ step)
    ]
lookup-entry_events e prev (s ∷ cur) table (apart, rest) (inr there) =
    let differ : text_eq e.id s.id ≡ false =
      All-In (λ y. text_eq y.id s.id ≡ false) e cur apart there in
    let step : lookup e.id (insert s.id s table) ≡ lookup e.id table =
      (let read = lookup-insert s.id e.id s table in
        let one = text_eq_iff e.id s.id in let two = text_eq_iff s.id e.id in ground arith) in
    elim (after_first prev s cur table) [
      | inl (same, old) ↦
          let known = lookup-entry_events e prev cur table rest there in
          let moved = ap (lookup e.id) same in ground arith
      | inr more ↦
          let known = lookup-entry_events e prev cur (insert s.id s table) rest there in
          let moved = ap (lookup e.id) more in ground arith
    ]
lookup-entry_events e prev [] table d m = absurd m
