-- ===== src/Consul/Watch.antt =====
-- adapter/consul/watch.go: the watch of one service. The queries and the long polling of the plan are
-- the agent's client; here are the handler of their answers and the watcher's state.
use xdiscovery.Eds.{OnUpdateList}
use xdiscovery.Json.{Json}
use xdiscovery.Service.{ServiceList, incr64, unset, Service, or_nil}
use xdiscovery.Prelude.{
  ℕ, Bool, true, false, Option, none, some, List, [], ◌∷◌, if◌then◌else◌, ℤ, Text, codes, map,
  select, insert, lookup, Map, ◌==◌, is_empty, ltb,
}

-- `api.ServiceEntry`, as far as the watcher reads it.
pub record Entry : Type 0 where
  pub id : Text
  pub service : Text
  pub address : Text
  pub port : ℤ
  pub tags : Option (List Text)
  pub passing : ℤ
  pub meta : Option (Map Text)
  pub create_index : ℕ

pub record Watcher : Type 0 where
  pub watch_version : ℕ
  pub service : Text
  pub dc : Text
  pub ready : Bool
  pub closed : Bool
  pub stopped : Bool  -- the plan
  pub on_update_list : Option OnUpdateList
  pub previous_idx : ℕ
  pub last_entrys : List Entry
  pub services : List Service
  pub version : ℕ

-- `newWatcher`, before its goroutine runs; `counter` is the `watchVersion` of the package.
unfoldable pub new_watcher : ℕ → Text → Text → Option OnUpdateList → Watcher
new_watcher counter service dc f = record {
  watch_version = incr64 counter;
  service = service;
  dc = dc;
  ready = false;
  closed = false;
  stopped = false;
  on_update_list = f;
  previous_idx = 0;
  last_entrys = [];
  services = [];
  version = 0;
}

-- A missing key of `currentRepeat` is 0.
unfoldable pub index_of : Text → Map ℕ → ℕ
unfolding lookup
index_of k m = elim (lookup k m) [ none ↦ 0 | some n ↦ n ]

-- One turn of the loop that fills `currentRepeat`.
unfoldable pub note_index : Entry → Map ℕ → Map ℕ
unfolding index_of insert
note_index e m = if ltb (index_of e.id m) e.create_index then insert e.id e.create_index m else m

unfoldable pub note_all : List Entry → Map ℕ → Map ℕ
unfolding note_index
note_all [] m = m
note_all (e ∷ es) m = note_all es (note_index e m)

-- `noRepeatCurrent`
unfoldable pub no_repeat : List Entry → List Entry
unfolding note_all
no_repeat current =
    let newest = note_all current [] in select (λ e. e.create_index == index_of e.id newest) current

-- `buildService`. A health check that is not read back stays with what was read of it.
unfoldable pub build_service : Json → Entry → Service
unfolding lookup
build_service json e = record {
  id = e.id;
  name = e.service;
  address = e.address;
  port = e.port;
  tags = e.tags;
  weight = e.passing;
  meta = e.meta;
  health_check = elim (lookup (codes "health-check") (or_nil e.meta)) [
    | none ↦ none
    | some data_ ↦ if is_empty data_ then none else some (json.unmarshal_health_check data_).0
  ];
}

-- The list that `compareService` gives to the callback.
abbrev pub list_of : Watcher → ServiceList
list_of w = record {
  watch_version = w.watch_version;
  version = w.version;
  run_mode = unset;
  services = w.services;
}

-- `compareService`; the error is the callback's.
unfoldable pub compare_service : Json → List Entry → Watcher → Watcher × Option Text
unfolding no_repeat build_service
compare_service json current w =
    let w' : Watcher = record w {
      last_entrys = current;
      services = map (build_service json) (no_repeat current);
      version = incr64 w.version;
    } in
    (w', elim w.on_update_list [ none ↦ none | some f ↦ f (list_of w') ])

-- `handler`, which only logs the error.
unfoldable pub handler : Json → ℕ → List Entry → Watcher → Watcher
unfolding compare_service
handler json idx data_ w = record ((compare_service json data_ w).0) { previous_idx = idx }

-- The goroutine of `newWatcher`, up to the run of the plan: `none` is an error of the first query.
unfoldable pub first_watch : Json → Option (List Entry) → Watcher → Watcher
unfolding handler
first_watch json none w = record w { ready = true }
first_watch json (some nodes) w = record (handler json 0 nodes w) { ready = true }

-- `Stop` and `stopNoWait`, up to what the plan and the writer return: `false` is the error of a
-- watcher that is stopped already.
unfoldable pub stop : Watcher → Watcher × Bool
stop w = if w.closed then (w, false) else (record w { closed = true; stopped = true }, true)
