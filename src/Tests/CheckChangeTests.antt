-- ===== src/Tests/CheckChangeTests.antt =====
-- check_change.go: runs, with the services of a list as the value.
use xdiscovery.Tests.{node_a, list_of}
use xdiscovery.CheckChange.{
  finish_async, CheckChange, NewValue, made, new_check_change, get_value, locked_update, store,
  failed, update_sync, is_changed, returned_error,
}
use xdiscovery.CheckChange.Fresh.{IsFresh, new_check_change-IsFresh, get_value-IsFresh}
use xdiscovery.Prelude.{◌≡◌, refl, Bool, true, false, some, List, [], ◌∷◌, if◌then◌else◌, ◌==◌}
use xdiscovery.Service.{Service, unset}

-- A client that fails on a list of no services, unless no version was set.
unfoldable client : NewValue (List Service)
client list =
    if list.watch_version == 0
    then made list.services
    else elim list.services [ [] ↦ failed | s ∷ ss ↦ made (s ∷ ss) ]

abbrev fresh : Bool → CheckChange (List Service)
fresh async = record {
  watch_version = 0;
  version = 0;
  run_mode = unset;
  value = [];
  is_update = false;
  new_value = client;
  async_update = async;
}

fresh_is_new : (async : Bool) → new_check_change client async ≡ made (fresh async)
unfolding new_check_change client
fresh_is_new async = refl

fresh-IsFresh : (async : Bool) → IsFresh (fresh async)
fresh-IsFresh async = new_check_change-IsFresh client async (fresh_is_new async)

get_value-IsFresh_example : IsFresh (get_value (λ c. c) (fresh false) (list_of (node_a ∷ []))).state
get_value-IsFresh_example =
    get_value-IsFresh (λ c. c) (fresh false) (list_of (node_a ∷ [])) (fresh-IsFresh false)
      (fresh-IsFresh false)

returns_it : (get_value (λ c. c) (fresh false) (list_of (node_a ∷ []))).value ≡ some (node_a ∷ [])
unfolding get_value locked_update update_sync store is_changed client
returns_it = refl

fails : (get_value (λ c. c) (fresh false) (list_of [])).ending ≡ returned_error
unfolding get_value locked_update update_sync store is_changed client
fails = refl

abbrev updating : CheckChange (List Service)
updating = record (fresh true) { is_update = true }

abbrev finished : CheckChange (List Service)
finished = record (fresh true) { watch_version = 1; version = 1; value = node_a ∷ [] }

finishes : finish_async updating (list_of (node_a ∷ [])) ≡ some finished
unfolding finish_async store client
finishes = refl

flag_keeps : IsFresh updating
flag_keeps =
    let h = fresh-IsFresh true in
    record {
      source = h.source;
      same_watch = h.same_watch;
      same_version = h.same_version;
      same_mode = h.same_mode;
      from_source = h.from_source;
    }
