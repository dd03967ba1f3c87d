-- ===== src/CheckChange.antt =====
-- check_change.go: a value that is made anew when a service list changes, such as a balancer.
use xdiscovery.Prelude.{
  ℕ, zero, suc, ◌+◌, ◌-◌, ◌≤◌, ◌<◌, ◌≡◌, refl, sym, ap, ◌∙◌, ◌≢◌, ◌↔◌, ◌⊎◌, inl, inr, Bool, true,
  false, not, ◌&&◌, ◌||◌, Option, none, some, List, [], ◌∷◌, ◌++◌, arith, if◌then◌else◌, Bool-cases,
  Option-cases, ℤ, pos, negsuc, length, All, In, Text, codes, map, ◌==◌,
}
pub mod Fresh
use xdiscovery.Service.{ServiceList, RunMode, unset, empty_list, mode_number}

-- What `newValue` of the client does: it returns a value or an error, or it panics.
pub data Made (V : Type 0) : Type 0 where
  made : V → Made V
  failed : Made V
  panicked : Made V

abbrev pub NewValue : Type 0 → Type 0
NewValue V = ServiceList → Made V

-- How a call ends.
pub data Ending : Type 0 where
  returned returned_error call_panicked : Ending

pub record CheckChange (V : Type 0) : Type 0 where
  pub watch_version : ℕ  -- uint64
  pub version : ℕ  -- uint64
  pub run_mode : RunMode
  pub value : V
  pub is_update : Bool
  pub new_value : NewValue V
  pub async_update : Bool

-- What `GetValue` returns; `pending` says that it has started the goroutine that makes the value.
pub record Answer (V : Type 0) : Type 0 where
  pub state : CheckChange V
  pub value : Option V
  pub updated : Bool
  pub ending : Ending
  pub pending : Bool

module _ {V : Type 0} where
  -- `NewCheckChange`: the value of the empty list, which stands for versions zero and no mode.
  unfoldable pub new_check_change : NewValue V → Bool → Made (CheckChange V)
  new_check_change new_value async_update = elim (new_value empty_list) [
    | failed ↦ failed
    | panicked ↦ panicked
    | made value ↦ made (record {
      watch_version = 0;
      version = 0;
      run_mode = unset;
      value = value;
      is_update = false;
      new_value = new_value;
      async_update = async_update;
    })
  ]

  -- The test of both sections: a version or the mode differs.
  unfoldable pub is_changed : CheckChange V → ServiceList → Bool
  is_changed c list =
      not (c.watch_version == list.watch_version)
      || not (c.version == list.version)
      || not (mode_number c.run_mode == mode_number list.run_mode)

  -- The value with the versions of its list.
  unfoldable pub store : CheckChange V → ServiceList → V → CheckChange V
  store c list value = record c {
    value = value;
    watch_version = list.watch_version;
    version = list.version;
    run_mode = list.run_mode;
  }

  -- The second section with synchronous updates.
  unfoldable pub update_sync : CheckChange V → ServiceList → Answer V
  unfolding store
  update_sync c list = elim (c.new_value list) [
    | failed ↦ record {
      state = c;
      value = none;
      updated = false;
      ending = returned_error;
      pending = false;
    }
    | panicked ↦ record {
      state = c;
      value = none;
      updated = false;
      ending = call_panicked;
      pending = false;
    }
    | made v ↦ record {
      state = store c list v;
      value = some v;
      updated = true;
      ending = returned;
      pending = false;
    }
  ]

  -- The second section with asynchronous updates: the old value, and at most one goroutine.
  unfoldable pub update_async : CheckChange V → Answer V
  update_async c =
      if c.is_update
      then record {
        state = c;
        value = some c.value;
        updated = false;
        ending = returned;
        pending = false;
      }
      else record {
        state = record c { is_update = true };
        value = some c.value;
        updated = true;
        ending = returned;
        pending = true;
      }

  unfoldable pub locked_update : CheckChange V → ServiceList → Answer V
  locked_update c list =
      if is_changed c list
      then (if c.async_update then update_async c else update_sync c list)
      else record {
        state = c;
        value = some c.value;
        updated = true;
        ending = returned;
        pending = false;
      }

  -- `GetValue`; `gap` is what other goroutines do between the two sections.
  unfoldable pub get_value :
      (CheckChange V → CheckChange V) → CheckChange V → ServiceList → Answer V
  get_value gap c list = if is_changed c list then locked_update (gap c) list else record {
    state = c;
    value = some c.value;
    updated = false;
    ending = returned;
    pending = false;
  }

  -- The end of the goroutine: `changeUpdate(false)` on an error, else the new value is stored;
  -- `none` is a panic, which ends the program.
  unfoldable pub finish_async : CheckChange V → ServiceList → Option (CheckChange V)
  unfolding store
  finish_async c list = elim (c.new_value list) [
    | failed ↦ some (record c { is_update = false })
    | panicked ↦ none
    | made v ↦ some (store (record c { is_update = false }) list v)
  ]
