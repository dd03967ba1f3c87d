-- ===== src/Discoverer/Watchers.antt =====
-- discovery/discovery.go: `GetServersWithDC` and the watches by key.
use mathlib.Core.Path.{subst}
use xdiscovery.Watch.{Watch, filter_tags}
use xdiscovery.Degrade.{get_list}
use xdiscovery.Discoverer.{
  Answer, World, serve, Discoverer, answered, get_servers_with_dc, watch_key, Failure, watch_locked,
  refused, new_watch,
}
use xdiscovery.Watch.{Watch, watch_get_list, filter_tags}
use xdiscovery.Degrade.{get_list}
use xdiscovery.Prelude.{
  ◌≡◌, refl, sym, ap, ◌∙◌, ◌⊎◌, inl, inr, true, false, none, some, List, arith, Option-cases, Text,
  lookup, text_eq, insert, text_eq_refl, lookup-insert,
}
use xdiscovery.Service.{ServiceList}

-- Others neither run while the call is without the lock nor while it waits.
abbrev pub alone : {F : Type 0} → World F → World F
alone world = record world { before_lock = λ d. d; waiting = λ d. d }

answer_cases :
    {A : Type 0} (a : Answer A) → ((x : A) × (a ≡ answered x)) ⊎ ((f : Failure) × (a ≡ refused f))
answer_cases (answered x) = inl (x, refl)
answer_cases (refused f) = inr (f, refl)

module _ {F : Type 0} where
  -- What a call with a watch returns, and leaves.
  serve-alone :
      (world : World F) (key : Text) (tags : List Text) (w : Watch F) (d : Discoverer F)
      → serve (alone world) key tags w d ≡ (
        record d { watchers = insert key (record w { once = true }) d.watchers },
        answered (filter_tags tags w.degrade.apply_list),
      )
  unfolding serve watch_get_list get_list
  serve-alone world key tags w d = ground arith

  -- The watch of a key, and that the others are as they were.
  pub record Served (key : Text) (tags : List Text) (d d' : Discoverer F) (list : ServiceList)
      : Type 0 where
    pub watch : Watch F
    pub kept : lookup key d'.watchers ≡ some watch
    pub waited : watch.once ≡ true
    pub from_watch : list ≡ filter_tags tags watch.degrade.apply_list
    pub others : (j : Text) → text_eq key j ≡ false → lookup j d'.watchers ≡ lookup j d.watchers

  serve-Served :
      (world : World F) (key : Text) (tags : List Text) (w : Watch F) (d : Discoverer F)
      → let (d', a) = serve (alone world) key tags w d in
        (a ≡ answered (filter_tags tags w.degrade.apply_list))
        × Served key tags d d' (filter_tags tags w.degrade.apply_list)
  serve-Served world key tags w d =
      let run = serve-alone world key tags w d in
      let same = text_eq_refl key in
      (
        ap (λ r. r.1) run,
        record {
          watch = record w { once = true };
          kept =
              ap (λ r. lookup key r.0.watchers) run
              ∙ lookup-insert key key (record w { once = true }) d.watchers
              ∙ ground arith;
          waited = refl;
          from_watch = refl;
          others = λ j h.
              ap (λ r. lookup j r.0.watchers) run
              ∙ lookup-insert key j (record w { once = true }) d.watchers
              ∙ ground arith;
        },
      )

  -- What the call runs to: a watch that is there, one that it has made, or a failure.
  get_servers_with_dc_found :
      (world : World F) (service dc : Text) (tags : List Text) (d : Discoverer F) (w : Watch F)
      → lookup (watch_key service dc) d.watchers ≡ some w
      → get_servers_with_dc world service dc tags d ≡ serve world (watch_key service dc) tags w d
  unfolding get_servers_with_dc
  get_servers_with_dc_found world service dc tags d w h = ground arith

  get_servers_with_dc_made :
      (world : World F) (service dc : Text) (tags : List Text) (d : Discoverer F) (w : Watch F)
      → lookup (watch_key service dc) d.watchers ≡ none
      → new_watch world service none (record { dc = dc }) d ≡ answered w
      → get_servers_with_dc (alone world) service dc tags d
        ≡ serve
            (alone world)
            (watch_key service dc)
            tags
            w
            (record d { watchers = insert (watch_key service dc) w d.watchers })
  unfolding get_servers_with_dc watch_locked new_watch
  get_servers_with_dc_made world service dc tags d w n h = ground arith

  get_servers_with_dc_refused :
      (world : World F) (service dc : Text) (tags : List Text) (d : Discoverer F) (f : Failure)
      → lookup (watch_key service dc) d.watchers ≡ none
      → new_watch world service none (record { dc = dc }) d ≡ refused f
      → get_servers_with_dc (alone world) service dc tags d ≡ (d, refused f)
  unfolding get_servers_with_dc watch_locked new_watch
  get_servers_with_dc_refused world service dc tags d f n h = ground arith

  -- With no other goroutine in between, a call either returns a list, which is the filtered list of
  -- the watch that the map then has for the service and the data centre, or fails and changes
  -- nothing; the watches of other keys stay as they were.
  pub get_servers_with_dc-Served :
      (world : World F) (service dc : Text) (tags : List Text) (d : Discoverer F)
      → let (d', a) = get_servers_with_dc (alone world) service dc tags d in
        ((list : ServiceList) × (a ≡ answered list) × Served (watch_key service dc) tags d d' list)
        ⊎ ((f : Failure) × (a ≡ refused f) × (d' ≡ d))
  get_servers_with_dc-Served world service dc tags d =
      let key = watch_key service dc in
      elim (Option-cases (lookup key d.watchers)) [
        | inr (w, found) ↦
            let run = get_servers_with_dc_found (alone world) service dc tags d w found in
            let (a, s) = serve-Served world key tags w d in
            inl (
              filter_tags tags w.degrade.apply_list,
              ap (λ r. r.1) run ∙ a,
              subst (λ r. Served key tags d r.0 (filter_tags tags w.degrade.apply_list)) (sym run)
                  s,
            )
        | inl missing ↦ elim (answer_cases (new_watch world service none (record { dc = dc }) d)) [
          | inl (w, made) ↦
              let run = get_servers_with_dc_made world service dc tags d w missing made in
              let between : Discoverer F = record d { watchers = insert key w d.watchers } in
              let (a, s) = serve-Served world key tags w between in
              let list = filter_tags tags w.degrade.apply_list in
              let whole : Served key tags d (serve (alone world) key tags w between).0 list =
                record {
                  watch = s.watch;
                  kept = s.kept;
                  waited = s.waited;
                  from_watch = s.from_watch;
                  others = λ j h. s.others j h ∙ lookup-insert key j w d.watchers ∙ ground arith;
                } in
              inl (
                list,
                ap (λ r. r.1) run ∙ a,
                subst (λ r. Served key tags d r.0 list) (sym run) whole,
              )
          | inr (f, fails) ↦
              let run = get_servers_with_dc_refused world service dc tags d f missing fails in
              inr (f, ap (λ r. r.1) run, ap (λ r. r.0) run)
        ]
      ]

  -- The registry is asked once for a service and a data centre: after a call that returned a list,
  -- a call with any tags returns a list that does not depend on what the registry or the clock say.
  pub get_servers_with_dc-once :
      (world world_1 world_2 : World F) (service dc : Text) (tags tags' : List Text)
      (d : Discoverer F) (list : ServiceList)
      → (get_servers_with_dc (alone world) service dc tags d).1 ≡ answered list
      → let d' = (get_servers_with_dc (alone world) service dc tags d).0 in
        ((again : ServiceList) × (get_servers_with_dc (alone world_1) service dc tags' d').1
            ≡ answered again)
        × (get_servers_with_dc (alone world_1) service dc tags' d'
            ≡ get_servers_with_dc (alone world_2) service dc tags' d')
  get_servers_with_dc-once world world_1 world_2 service dc tags tags' d list h =
      let key = watch_key service dc in
      let d' = (get_servers_with_dc (alone world) service dc tags d).0 in
      elim (get_servers_with_dc-Served world service dc tags d) [
        | inl (l, a, s) ↦
            let first =
              get_servers_with_dc_found (alone world_1) service dc tags' d' s.watch s.kept in
            let second =
              get_servers_with_dc_found (alone world_2) service dc tags' d' s.watch s.kept in
            (
              (
                filter_tags tags' s.watch.degrade.apply_list,
                ap (λ r. r.1) first ∙ (serve-Served world_1 key tags' s.watch d').0,
              ),
              first
                  ∙ serve-alone world_1 key tags' s.watch d'
                  ∙ sym (serve-alone world_2 key tags' s.watch d')
                  ∙ sym second,
            )
        | inr (f, fails, same) ↦ absurd (ground arith)
      ]
