-- ===== src/WatchOnUpdate/Changes.antt =====
-- discovery/watch_on_update.go: all events of a list, and their delivery.
use xdiscovery.WatchOnUpdate.Gone.{
  map_of-IsKeyed, lookup-gone_events_kept, has_key-current_ids, has_key-current_ids_other,
  lookup-gone_events_gone, lookup-In,
}
use xdiscovery.WatchOnUpdate.Replay.{
  IsKeyed, HaveDistinctIds, replay, replay-append, lookup-entry_events, lookup-entry_events_other,
}
use xdiscovery.WatchOnUpdate.{
  watch_on_update_list, deliver, OnUpdate, events_of, WatchOnUpdate, map_of, is_same_service,
  current_ids, entry_events, gone_events,
}
use xdiscovery.Prelude.{
  ◌≡◌, refl, sym, ap, ◌∙◌, ◌↔◌, ◌⊎◌, inl, inr, Bool, true, false, none, some, List, [], ◌∷◌, ◌++◌,
  arith, Option-cases, All, In, Text, Map, In-All, All-In, lookup, text_eq, has_key,
}
use mathlib.Core.List.{append-nil, append_assoc}
use xdiscovery.Service.{Service, ServiceList, Event}

deliver_all :
    (f : OnUpdate) (seen es : List Event)
    → (deliver f seen es).1 ≡ none
    → (deliver f seen es).0 ≡ seen ++ es
unfolding deliver
deliver_all f seen [] h = sym (append-nil seen)
deliver_all f seen (e ∷ es) h = elim (Option-cases (f seen e)) [
  | inl fine ↦
      let rest = deliver_all f (seen ++ e ∷ []) es (ground arith) in
      let moved = append_assoc seen (e ∷ []) es in ground arith
  | inr (err, fails) ↦ absurd (ground arith)
]

module _ (iterate : Map Service → Map Service)
    (walks : (m : Map Service) (x : Text × Service) → In x (iterate m) ↔ In x m) where
  iterate-IsKeyed : (m : Map Service) → IsKeyed m → IsKeyed (iterate m)
  iterate-IsKeyed m h =
      In-All (λ p. p.0 ≡ p.1.id) (iterate m)
        (λ x i. All-In (λ p. p.0 ≡ p.1.id) x m h ((walks m x).0 i))

  -- Let a client keep the services by id, and start from those of the previous list; Go may walk over
  -- a map in any order. After the events of a list with distinct ids the client has each service of
  -- the list, or one that is deeply equal to it, and nothing at any other id.
  pub replay-events_of :
      (previous current : List Service)
      → HaveDistinctIds current
      → let after = replay (events_of iterate previous current) (map_of previous []) in
        ((e : Service)
          → In e current
          → (lookup e.id after ≡ some e)
            ⊎ ((old : Service) × (lookup e.id after ≡ some old) × (is_same_service old e ≡ true)))
        × ((k : Text) → All (λ e. text_eq e.id k ≡ false) current → lookup k after ≡ none)
  unfolding events_of
  replay-events_of previous current distinct =
      let start = map_of previous [] in
      let ids = current_ids current [] in
      let first = entry_events start current in
      let table = replay first start in
      let keyed = iterate-IsKeyed start (map_of-IsKeyed previous [] tt) in
      let whole = replay-append first (gone_events ids (iterate start)) start in
      (
        λ e m.
            (let kept =
                lookup-gone_events_kept e.id ids (iterate start) table keyed
                  (has_key-current_ids e current [] m) in
              let moved = ap (lookup e.id) whole ∙ kept in
              elim (lookup-entry_events e start current start distinct m) [
                | inl new ↦ inl (moved ∙ new)
                | inr (same, (old, found, equal)) ↦ inr (old, moved ∙ same ∙ found, equal)
              ]),
        λ k absent.
            (let out = has_key-current_ids_other k current [] absent in
              let same = lookup-entry_events_other k start current start absent in
              ap (lookup k) whole
              ∙ lookup-gone_events_gone k ids (iterate start) table keyed (out ∙ empty_has k)
                  (elim (Option-cases (lookup k start)) [
                    | inl missing ↦ inr (same ∙ missing)
                    | inr (e, found) ↦ inl (e, (walks start (k, e)).1 (lookup-In k e start found))
                  ])),
      )
    where
      empty_has : (k : Text) → has_key {V = Bool} k [] ≡ false
      empty_has k = unfold has_key in refl

-- If the client takes every event, it was given all the events of the list, and the list is the
-- next one's previous list; if it fails on one, the previous list stays, so the next call begins
-- with the same comparison.
pub watch_on_update_list-result :
    (iterate : Map Service → Map Service) (current : ServiceList) (w : WatchOnUpdate) (f : OnUpdate)
    → w.on_update ≡ some f
    → let (w', given, err) = watch_on_update_list iterate current w in
      ((err ≡ none)
        → (given ≡ events_of iterate w.previous current.services)
          × (w'.previous ≡ current.services)
          × (w'.on_update ≡ w.on_update))
      × ((e : Text) → err ≡ some e → w' ≡ w)
unfolding watch_on_update_list
watch_on_update_list-result iterate current w f h =
    let run = deliver f [] (events_of iterate w.previous current.services) in
    let all = deliver_all f [] (events_of iterate w.previous current.services) in
    (λ n. (ground arith, ground arith, ground arith), λ e n. ground arith)
