-- ===== src/WatchOnUpdate/Gone.antt =====
-- discovery/watch_on_update.go: the events of the services that are gone.
use xdiscovery.WatchOnUpdate.Replay.{replay, IsKeyed}
use xdiscovery.WatchOnUpdate.{gone_events, current_ids, map_of}
use xdiscovery.Prelude.{
  ◌≡◌, refl, sym, ap, ◌∙◌, ◌⊎◌, inl, inr, Bool, true, false, none, some, List, [], ◌∷◌, arith,
  if◌then◌else◌, Bool-cases, All, In, Text, insert, lookup, Map, has_key, text_eq, delete,
  text_eq_iff, has_key-insert, lookup-delete, text_eq_refl,
}
use xdiscovery.Service.{Service}

insert-IsKeyed : (e : Service) (m : Map Service) → IsKeyed m → IsKeyed (insert e.id e m)
unfolding insert
insert-IsKeyed e [] h = (refl, tt)
insert-IsKeyed e ((j, w) ∷ m) h = elim (Bool-cases (text_eq j e.id)) [
  | inl same ↦ rw same (refl, h.1)
  | inr other ↦ rw other (h.0, insert-IsKeyed e m h.1)
]

pub map_of-IsKeyed :
    (es : List Service) (found : Map Service) → IsKeyed found → IsKeyed (map_of es found)
unfolding map_of
map_of-IsKeyed [] found h = h
map_of-IsKeyed (e ∷ es) found h = map_of-IsKeyed es (insert e.id e found) (insert-IsKeyed e found h)

pub lookup-In : (k : Text) (e : Service) (m : Map Service) → lookup k m ≡ some e → In (k, e) m
unfolding lookup
lookup-In k e [] h = cc
lookup-In k e ((j, w) ∷ m) h = elim (Bool-cases (text_eq j k)) [
  | inl same ↦
      let key : j ≡ k = (text_eq_iff j k).0 same in
      let val : w ≡ e = ground arith in inl (ap (λ x. (x, w)) key ∙ ap (λ x. (k, x)) val)
  | inr other ↦ inr (lookup-In k e m (ground arith))
]

pub has_key-current_ids_other :
    (k : Text) (cur : List Service) (found : Map Bool)
    → All (λ e. text_eq e.id k ≡ false) cur
    → has_key k (current_ids cur found) ≡ has_key k found
unfolding current_ids
has_key-current_ids_other k [] found h = refl
has_key-current_ids_other k (e ∷ cur) found h =
    let read = has_key-insert e.id k true found in
    has_key-current_ids_other k cur (insert e.id true found) h.1 ∙ ground arith

has_key-current_ids_kept :
    (k : Text) (cur : List Service) (found : Map Bool)
    → has_key k found ≡ true
    → has_key k (current_ids cur found) ≡ true
unfolding current_ids
has_key-current_ids_kept k [] found h = h
has_key-current_ids_kept k (e ∷ cur) found h =
    let read = has_key-insert e.id k true found in
    has_key-current_ids_kept k cur (insert e.id true found) (ground arith)

pub has_key-current_ids :
    (e : Service) (cur : List Service) (found : Map Bool)
    → In e cur
    → has_key e.id (current_ids cur found) ≡ true
unfolding current_ids
has_key-current_ids e [] found m = absurd m
has_key-current_ids e (s ∷ cur) found (inl here) =
    let read = has_key-insert s.id e.id true found in
    let same = text_eq_refl e.id in
    let ids : s.id ≡ e.id = ap (λ (x : Service). x.id) here in
    has_key-current_ids_kept e.id cur (insert s.id true found) (ground arith)
has_key-current_ids e (s ∷ cur) found (inr there) =
    has_key-current_ids e cur (insert s.id true found) there

-- The events of the entries: none for a service that is there, a deletion for one that is gone.
replay-gone_events :
    (cur : Map Bool) (id : Text) (e : Service) (prev : Map Service) (table : Map Service)
    → id ≡ e.id
    → replay (gone_events cur ((id, e) ∷ prev)) table
      ≡ replay (gone_events cur prev) (if has_key id cur then table else delete id table)
unfolding gone_events
replay-gone_events cur id e prev table h = elim (Bool-cases (has_key id cur)) [
  | inl kept ↦ ground arith
  | inr gone ↦
      let same : delete e.id table ≡ delete id table = ap (λ x. delete x table) (sym h) in
      ground arith
]

pub lookup-gone_events_kept :
    (k : Text) (cur : Map Bool) (prev : Map Service) (table : Map Service)
    → IsKeyed prev
    → has_key k cur ≡ true
    → lookup k (replay (gone_events cur prev) table) ≡ lookup k table
unfolding gone_events
lookup-gone_events_kept k cur [] table h there = refl
lookup-gone_events_kept k cur ((id, e) ∷ prev) table h there =
    let next : Map Service = if has_key id cur then table else delete id table in
    let read = lookup-delete id k table in
    let same = text_eq_iff id k in
    let step : lookup k next ≡ lookup k table = ground arith in
    ap (lookup k) (replay-gone_events cur id e prev table h.0)
    ∙ lookup-gone_events_kept k cur prev next h.1 there
    ∙ step

pub lookup-gone_events_gone :
    (k : Text) (cur : Map Bool) (prev : Map Service) (table : Map Service)
    → IsKeyed prev
    → has_key k cur ≡ false
    → ((e : Service) × In (k, e) prev) ⊎ (lookup k table ≡ none)
    → lookup k (replay (gone_events cur prev) table) ≡ none
unfolding gone_events
lookup-gone_events_gone k cur [] table h gone (inl (e, m)) = absurd m
lookup-gone_events_gone k cur [] table h gone (inr n) = n
lookup-gone_events_gone k cur ((id, e) ∷ prev) table h gone w =
    let next : Map Service = if has_key id cur then table else delete id table in
    let read = lookup-delete id k table in
    let same = text_eq_iff id k in
    ap (lookup k) (replay-gone_events cur id e prev table h.0)
    ∙ lookup-gone_events_gone k cur prev next h.1 gone (elim w [
      | inl (s, inl here) ↦
          (let ids : id ≡ k = ap (λ (p : Text × Service). p.0) here in inr (ground arith))
      | inl (s, inr later) ↦ inl (s, later)
      | inr n ↦ inr (ground arith)
    ])
