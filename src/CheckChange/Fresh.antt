-- ===== src/CheckChange/Fresh.antt =====
-- check_change.go: the cached value and the versions stored with it.
use xdiscovery.Prelude.{◌≡◌, refl, inl, inr, Bool, true, false, some, arith, ◌⊎◌}
use xdiscovery.Service.{ServiceList, empty_list}
use xdiscovery.CheckChange.{
  made, failed, panicked, Made, NewValue, CheckChange, new_check_change, store, update_sync,
  update_async, locked_update, get_value, finish_async,
}

module _ {V : Type 0} where
  -- The value was made from a list with the versions and the mode that are stored.
  pub record IsFresh (c : CheckChange V) : Type 0 where
    pub source : ServiceList
    pub same_watch : source.watch_version ≡ c.watch_version
    pub same_version : source.version ≡ c.version
    pub same_mode : source.run_mode ≡ c.run_mode
    pub from_source : c.new_value source ≡ made c.value

  -- A new checker is fresh: its value is that of the empty list.
  pub new_check_change-IsFresh :
      (f : NewValue V) (async : Bool) {c : CheckChange V}
      → new_check_change f async ≡ made c
      → IsFresh c
  unfolding new_check_change
  new_check_change-IsFresh f async h = record {
    source = empty_list;
    same_watch = ground arith;
    same_version = ground arith;
    same_mode = ground arith;
    from_source = ground arith;
  }

  Made-cases : (m : Made V) → ((v : V) × (m ≡ made v)) ⊎ (m ≡ failed) ⊎ (m ≡ panicked)
  Made-cases m = elim m as (λ k. ((v : V) × (k ≡ made v)) ⊎ (k ≡ failed) ⊎ (k ≡ panicked)) [
    | made v ↦ inl (v, refl)
    | failed ↦ inr (inl refl)
    | panicked ↦ inr (inr refl)
  ]

  store-IsFresh :
      (c : CheckChange V) (list : ServiceList) (v : V)
      → c.new_value list ≡ made v
      → IsFresh (store c list v)
  unfolding store
  store-IsFresh c list v h = record {
    source = list;
    same_watch = refl;
    same_version = refl;
    same_mode = refl;
    from_source = h;
  }

  flag-IsFresh : (c : CheckChange V) (b : Bool) → IsFresh c → IsFresh (record c { is_update = b })
  flag-IsFresh c b h = record {
    source = h.source;
    same_watch = h.same_watch;
    same_version = h.same_version;
    same_mode = h.same_mode;
    from_source = h.from_source;
  }

  update_sync-IsFresh :
      (c : CheckChange V) (list : ServiceList) → IsFresh c → IsFresh (update_sync c list).state
  unfolding update_sync
  update_sync-IsFresh c list h = elim (Made-cases (c.new_value list)) [
    | inl (v, makes) ↦ let fresh = store-IsFresh c list v makes in ground arith
    | inr (inl fails) ↦ rw (fails, update_sync) h
    | inr (inr panics) ↦ rw (panics, update_sync) h
  ]

  -- A call keeps the checker fresh, whatever fresh state other goroutines leave between its
  -- sections.
  pub get_value-IsFresh :
      (gap : CheckChange V → CheckChange V) (c : CheckChange V) (list : ServiceList)
      → IsFresh (gap c)
      → IsFresh c
      → IsFresh (get_value gap c list).state
  unfolding get_value locked_update update_async
  get_value-IsFresh gap c list g h =
      let sync = update_sync-IsFresh (gap c) list g in
      let flagged = flag-IsFresh (gap c) true g in ground arith

  -- The goroutine of an asynchronous update, when it ends, leaves a fresh checker, and it allows
  -- the next update.
  pub finish_async-IsFresh :
      (c : CheckChange V) (list : ServiceList) {d : CheckChange V}
      → IsFresh c
      → finish_async c list ≡ some d
      → IsFresh d × (d.is_update ≡ false)
  unfolding finish_async store
  finish_async-IsFresh c list {d} h e =
      let flagged = flag-IsFresh c false h in
      elim (Made-cases (c.new_value list)) [
        | inl (v, makes) ↦
            let fresh = store-IsFresh (record c { is_update = false }) list v makes in ground arith
        | inr (inl fails) ↦ ground arith
        | inr (inr panics) ↦ ground arith
      ]
