-- ===== src/Etcd/Watch.antt =====
-- adapter/etcd/watch.go: the watch of one service. The goroutine reads the cluster once; nothing
-- reads the channel of the later changes.
use xdiscovery.Etcd.{Etcd}
use xdiscovery.Json.{Json}
use xdiscovery.Eds.{OnUpdateList}
use xdiscovery.Prelude.{
  ◌>>=◌, ℕ, Bool, true, false, Option, none, some, List, [], ◌∷◌, if◌then◌else◌, Text,
}
use xdiscovery.Service.{Service, ServiceList, unset, incr64}

pub record Watcher : Type 0 where
  pub watch_version : ℕ
  pub service : Text
  pub dc : Text
  pub closed : Bool
  pub ready : Bool
  pub on_update_list : Option OnUpdateList
  pub services : List Service
  pub last_get_resp : List Text
  pub version : ℕ

pub data WatchError : Type 0 where
  already_stopped get_failed decode_failed : WatchError
  update_failed : Text → WatchError

-- `newWatcher`, before its goroutine runs; `counter` is the `watchVersion` of the package.
unfoldable pub new_watcher : ℕ → Text → Text → Option OnUpdateList → Watcher
new_watcher counter service dc f = record {
  watch_version = incr64 counter;
  service = service;
  dc = dc;
  closed = false;
  ready = false;
  on_update_list = f;
  services = [];
  last_get_resp = [];
  version = 0;
}

-- The loop of `compareService`, up to the first value that is no service.
unfoldable pub build_services : Json → List Text → Option (List Service)
build_services json [] = some []
build_services json (v ∷ vs) = do
  svc ← json.unmarshal_service v
  rest ← build_services json vs
  some (svc ∷ rest)

-- The list that `compareService` gives to the callback.
abbrev pub list_of : Watcher → ServiceList
list_of w = record {
  watch_version = w.watch_version;
  version = w.version;
  run_mode = unset;
  services = w.services;
}

-- `compareService`
unfoldable pub compare_service : Json → List Text → Watcher → Watcher × Option WatchError
unfolding build_services
compare_service json current w = elim (build_services json current) [
  | none ↦ (w, some decode_failed)
  | some services ↦
      let w' : Watcher = record w { version = incr64 w.version; services = services } in
      elim w.on_update_list [
        | none ↦ (w', none)
        | some f ↦ elim (f (list_of w')) [
          | none ↦ (w', none)
          | some e ↦ (w', some (update_failed e))
        ]
      ]
]

-- `handler`
unfoldable pub handler : Json → List Text → Watcher → Watcher × Option WatchError
unfolding compare_service
handler json res w = compare_service json res (record w { last_get_resp = res })

-- The goroutine of `newWatcher`; its errors are only logged, and an empty answer is not handled.
unfoldable pub first_get : Json → (e : Etcd) → e.Store → Watcher → Watcher × Option WatchError
first_get json e s w = elim (e.get_prefix w.service s) [
  | none ↦ (record w { ready = true }, some get_failed)
  | some [] ↦ (record w { ready = true }, none)
  | some (v ∷ vs) ↦ let (w', err) = handler json (v ∷ vs) w in (record w' { ready = true }, err)
]

-- `Stop`, up to the closing of the client and of the log.
unfoldable pub stop : Watcher → Watcher × Option WatchError
stop w = if w.closed then (w, some already_stopped) else (record w { closed = true }, none)
