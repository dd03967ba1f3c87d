-- ===== src/WatchOnUpdate.antt =====
-- discovery/watch_on_update.go: the changes between two lists, as events for the client.
use xdiscovery.Prelude.{
  ℕ, zero, suc, ◌+◌, ◌-◌, ◌≤◌, ◌<◌, ◌≡◌, refl, sym, ap, ◌∙◌, ◌≢◌, ◌↔◌, ◌⊎◌, inl, inr, Bool, true,
  false, not, ◌&&◌, ◌||◌, Option, none, some, List, [], ◌∷◌, ◌++◌, arith, if◌then◌else◌, Bool-cases,
  Option-cases, ℤ, pos, negsuc, length, All, In, Text, codes, map, ◌==◌, insert, has_key, lookup,
  text_eq, Map,
}
pub mod Replay
pub mod Gone
pub mod Changes
use xdiscovery.Service.{Service, ServiceList, HealthCheck, Event, add, del, mod_}

-- The client's callback. It may keep state: it sees the events that it was given before.
abbrev pub OnUpdate : Type 0
OnUpdate = List Event → Event → Option Text

pub record WatchOnUpdate : Type 0 where
  pub on_update : Option OnUpdate
  pub previous : List Service

-- `newWatchOnUpdate`
abbrev pub new_watch_on_update : Option OnUpdate → WatchOnUpdate
new_watch_on_update f = record { on_update = f; previous = [] }

-- `reflect.DeepEqual` on integers, on texts in slices, and on maps: a nil one is only equal to a nil
-- one, and maps are equal if they have as many keys and the same values at them.
unfoldable pub int_eq : ℤ → ℤ → Bool
int_eq (pos m) (pos n) = m == n
int_eq (pos m) (negsuc n) = false
int_eq (negsuc m) (pos n) = false
int_eq (negsuc m) (negsuc n) = m == n

unfoldable pub texts_eq : List Text → List Text → Bool
unfolding text_eq
texts_eq [] [] = true
texts_eq [] (b ∷ bs) = false
texts_eq (a ∷ as_) [] = false
texts_eq (a ∷ as_) (b ∷ bs) = text_eq a b && texts_eq as_ bs

unfoldable pub option_eq {ℓ} : {A : Type ℓ} → (A → A → Bool) → Option A → Option A → Bool
option_eq eq none none = true
option_eq eq none (some b) = false
option_eq eq (some a) none = false
option_eq eq (some a) (some b) = eq a b

unfoldable pub has_all {ℓ} : {V : Type ℓ} → (V → V → Bool) → Map V → Map V → Bool
unfolding lookup
has_all eq [] n = true
has_all eq ((k, v) ∷ m) n =
    let rest = has_all eq m n in elim (lookup k n) [ none ↦ false | some w ↦ eq v w && rest ]

unfoldable pub map_eq {ℓ} : {V : Type ℓ} → (V → V → Bool) → Map V → Map V → Bool
unfolding has_all
map_eq eq m n = length m == length n && has_all eq m n

unfoldable pub health_check_eq : HealthCheck → HealthCheck → Bool
unfolding int_eq option_eq map_eq
health_check_eq a b =
    int_eq a.interval b.interval
    && int_eq a.timeout b.timeout
    && text_eq a.http b.http
    && option_eq (map_eq texts_eq) a.header b.header
    && text_eq a.method b.method
    && text_eq a.tcp b.tcp

-- `isSameService`
unfoldable pub is_same_service : Service → Service → Bool
unfolding health_check_eq
is_same_service l r =
    text_eq l.id r.id
    && text_eq l.name r.name
    && text_eq l.address r.address
    && int_eq l.port r.port
    && option_eq texts_eq l.tags r.tags
    && int_eq l.weight r.weight
    && option_eq (map_eq text_eq) l.meta r.meta
    && option_eq health_check_eq l.health_check r.health_check

-- The loop that fills `previousMap`.
unfoldable pub map_of : List Service → Map Service → Map Service
unfolding insert
map_of [] found = found
map_of (entry ∷ entries) found = map_of entries (insert entry.id entry found)

-- The event for an entry of the new list, if there is one.
unfoldable pub entry_event : Map Service → Service → Option Event
unfolding lookup is_same_service
entry_event previous entry = elim (lookup entry.id previous) [
  | none ↦ some (record { action = add; service = entry })
  | some last ↦
      if not (is_same_service last entry)
      then some (record { action = mod_; service = entry })
      else none
]

-- The loop over the new list.
unfoldable pub entry_events : Map Service → List Service → List Event
unfolding entry_event
entry_events previous [] = []
entry_events previous (entry ∷ entries) =
    let rest = entry_events previous entries in
    elim (entry_event previous entry) [ none ↦ rest | some e ↦ e ∷ rest ]

-- The ids of the new list: `currentMap`.
unfoldable pub current_ids : List Service → Map Bool → Map Bool
unfolding insert
current_ids [] found = found
current_ids (entry ∷ entries) found = current_ids entries (insert entry.id true found)

-- The loop over `previousMap`, in the order in which the entries are given.
unfoldable pub gone_events : Map Bool → Map Service → List Event
unfolding has_key
gone_events current [] = []
gone_events current ((id, entry) ∷ previous) =
    let rest = gone_events current previous in
    if has_key id current then rest else record { action = del; service = entry } ∷ rest

-- The calls of the client, until one fails: the events that it was given, and its error. `seen` are
-- the events before.
unfoldable pub deliver : OnUpdate → List Event → List Event → List Event × Option Text
deliver f seen [] = (seen, none)
deliver f seen (e ∷ es) =
    let rest = deliver f (seen ++ e ∷ []) es in
    elim (f seen e) [ none ↦ rest | some err ↦ (seen ++ e ∷ [], some err) ]

-- All the events of a list. `iterate` is the order in which Go walks over the map.
unfoldable pub events_of : (Map Service → Map Service) → List Service → List Service → List Event
unfolding map_of entry_events gone_events current_ids
events_of iterate previous current =
    let previous_map = map_of previous [] in
    entry_events previous_map current ++ gone_events (current_ids current []) (iterate previous_map)

-- `onUpdateList`: the state, the events given to the client, and the error.
unfoldable pub watch_on_update_list :
    (Map Service → Map Service)
    → ServiceList
    → WatchOnUpdate
    → WatchOnUpdate × List Event × Option Text
watch_on_update_list iterate current w = elim w.on_update [
  | none ↦ (w, [], none)
  | some f ↦
      let (given, err) = deliver f [] (events_of iterate w.previous current.services) in
      elim err [
        | some e ↦ (w, given, some e)
        | none ↦ (record w { previous = current.services }, given, none)
      ]
]
