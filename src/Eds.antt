-- ===== src/Eds.antt =====
-- adapter/eds/eds.go and adapter/eds/watch.go: the clusters that an xDS server pushes, and their
-- watchers. A message of the server is what its getters return; the JSON decoder is a parameter.
use xdiscovery.Prelude.{
  ℕ, zero, suc, ◌+◌, ◌-◌, ◌≤◌, ◌<◌, ◌≡◌, refl, sym, ap, ◌∙◌, ◌≢◌, ◌↔◌, ◌⊎◌, inl, inr, Bool, true,
  false, not, ◌&&◌, ◌||◌, Option, none, some, List, [], ◌∷◌, ◌++◌, arith, if◌then◌else◌, Bool-cases,
  Option-cases, ℤ, pos, negsuc, length, All, In, Text, codes, map, lookup, Map, insert, has_key,
  text_eq, is_empty, text_lt, ltb_ℤ,
}
pub mod Update
pub mod Changes
pub mod Delivery
pub mod Setup
pub mod Subscribed
pub mod Calls
use xdiscovery.Service.{Service, ServiceList, HealthCheck, unset, incr64}
use xdiscovery.WatchOnUpdate.{is_same_service, int_eq}

-- An endpoint: its endpoint, address and socket address, if they are there, its weight, and the
-- string fields of its "istio" metadata.
pub record LbEndpoint : Type 0 where
  pub socket_address : Option (Option (Option (Text × ℕ)))
  pub load_balancing_weight : Option ℕ
  pub string_meta : Map Text

pub record ClusterLoadAssignment : Type 0 where
  pub cluster_name : Text
  pub endpoints : List (List LbEndpoint)

-- The callback: its error, if it fails.
abbrev pub OnUpdateList : Type 0
OnUpdateList = ServiceList → Option Text

pub record Watcher : Type 0 where
  pub watch_version : ℕ
  pub cluster : Text
  pub closed : Bool
  pub on_update_list : Option OnUpdateList
  pub clusters : List Service
  pub version : ℕ

-- `counter` is the `watchVersion` of the package.
pub record EdsAdapter : Type 0 where
  pub watchers : Map Watcher
  pub clusterlist : List Text
  pub clusters : Map (List Service)
  pub counter : ℕ

-- A missing key of a map of slices is nil.
abbrev pub get_or_nil : Text → Map (List Service) → List Service
get_or_nil k m = elim (lookup k m) [ none ↦ [] | some l ↦ l ]

-- `newWatcher`, with the new counter.
unfoldable pub new_watcher : ℕ → Text → Option OnUpdateList → List Service → Watcher
new_watcher counter cluster f clusters = record {
  watch_version = incr64 counter;
  cluster = cluster;
  closed = false;
  on_update_list = f;
  clusters = clusters;
  version = elim clusters [ [] ↦ 0 | s ∷ ss ↦ 1 ];
}

-- `Stop`: an error if it is closed already.
unfoldable pub stop : Watcher → Watcher × Bool
stop w = if w.closed then (w, false) else (record w { closed = true }, true)

-- `updateService`: the watcher, and the callback's error.
unfoldable pub update_service : List Service → Watcher → Watcher × Option Text
update_service current w =
    let w' : Watcher = record w { version = incr64 w.version; clusters = current } in
    elim w.on_update_list [
      | none ↦ (w', none)
      | some f ↦ (
        w',
        f (record {
          watch_version = w.watch_version;
          version = incr64 w.version;
          run_mode = unset;
          services = current;
        }),
      )
    ]

-- The locked section of `WatchList`. `none` is the error that the cluster is watched already.
unfoldable pub eds_watch_locked : Text → Option OnUpdateList → EdsAdapter → Option EdsAdapter
eds_watch_locked cluster f a = elim (lookup cluster a.watchers) [
  | some w ↦ none
  | none ↦ some (record a {
    watchers =
        insert cluster (new_watcher a.counter cluster f (get_or_nil cluster a.clusters)) a.watchers;
    clusterlist = a.clusterlist ++ cluster ∷ [];
    counter = incr64 a.counter;
  })
]

-- The first update, after the lock: `clusters` are those that the locked section has loaded. The
-- watcher may have got another list since; the error of the update is dropped.
unfoldable pub first_update : Map (List Service) → Text → EdsAdapter → EdsAdapter
first_update [] cluster a = a
first_update (c ∷ cs) cluster a = elim (lookup cluster a.watchers) [
  | none ↦ a
  | some w ↦ record a {
    watchers = insert cluster (update_service (get_or_nil cluster (c ∷ cs)) w).0 a.watchers;
  }
]

-- What others do before the lock, and between the lock and the first update.
pub record WatchGaps : Type 0 where
  pub before_lock : EdsAdapter → EdsAdapter
  pub before_update : EdsAdapter → EdsAdapter

-- `WatchList` up to the subscription. It goes on with the list of clusters of the locked section;
-- `none` is an error.
unfoldable pub eds_watch_list :
    WatchGaps → Text → Option OnUpdateList → EdsAdapter → EdsAdapter × Option (List Text)
eds_watch_list gaps cluster f a = elim (lookup cluster a.watchers) [
  | some w ↦ (a, none)
  | none ↦
      let start = gaps.before_lock a in
      elim (eds_watch_locked cluster f start) [
        | none ↦ (start, none)
        | some locked ↦ (
          first_update start.clusters cluster (gaps.before_update locked),
          some locked.clusterlist,
        )
      ]
]
