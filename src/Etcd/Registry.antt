-- ===== src/Etcd/Registry.antt =====
-- adapter/etcd/registry.go and the registration of adapter/etcd/etcd.go. A call gets the state of
-- the cluster and returns the new one.
use xdiscovery.Service.Copy.{copy}
use xdiscovery.Json.{Json}
use xdiscovery.Etcd.{Etcd}
use xdiscovery.Adapter.{ParseError, or_number, parse_service, parse_failed, parsed}
use xdiscovery.Degrade.Health.{format_port}
use xdiscovery.Prelude.{
  ℕ, zero, suc, Bool, true, false, not, ◌||◌, Option, none, some, [], ◌∷◌, ◌++◌, if◌then◌else◌, ℤ,
  pos, Text, codes, format_int, ◌==◌, lookup, insert, Map, text_eq,
}
use xdiscovery.Service.{Service, HealthCheck, or_nil}
use xdiscovery.Options.{RegisterOpts}

-- `strings.ReplaceAll(id, "~", "/")`
unfoldable pub key_of : Text → Text
key_of [] = []
key_of (c ∷ id) = let rest = key_of id in if c == b'~' then b'/' ∷ rest else c ∷ rest

pub data Failure : Type 0 where
  deregistered id_changed : Failure
  parse_error : ParseError → Failure
  marshal_failed put_failed grant_failed keep_alive_failed revoke_failed : Failure
  nil_lease : Failure  -- a panic

-- `opts` and `svc` are nil before `init`; `lease` is the number of the granted lease, and `cancelled`
-- tells that its heartbeat was cancelled.
pub record Registry : Type 0 where
  pub opts : Option RegisterOpts
  pub svc : Option Service
  pub lease : Option ℕ
  pub cancelled : Bool
  pub de_registered : Bool

-- `newRegistry`
abbrev pub new_registry : Registry
new_registry = record {
  opts = none;
  svc = none;
  lease = none;
  cancelled = false;
  de_registered = false;
}

-- The health check that is stored with the service.
unfoldable pub check_of_opts : RegisterOpts → HealthCheck
unfolding format_port
check_of_opts opts =
    let host = opts.check_ip ++ codes ":" ++ format_port opts.check_port in
    let tcp : HealthCheck = record {
      interval = opts.check_interval;
      timeout = opts.check_timeout;
      http = [];
      header = none;
      method = [];
      tcp = host;
    } in
    elim opts.check_http [
      | none ↦ tcp
      | some c ↦ record tcp {
        header = c.header;
        method = c.method;
        http = codes "http://" ++ host ++ c.path;
      }
    ]

-- The metadata with a health check, if it had none. `none` is an error of the encoding.
unfoldable pub with_check : Json → RegisterOpts → Map Text → Option (Map Text)
unfolding lookup insert check_of_opts
with_check json opts meta = elim (lookup (codes "health-check") meta) [
  | some c ↦ some meta
  | none ↦ elim (json.marshal_health_check (check_of_opts opts)) [
    | none ↦ none
    | some c ↦ some (insert (codes "health-check") c meta)
  ]
]

-- The service as it is stored; `now` is the clock in seconds. It replaces the metadata of the
-- registry's service.
unfoldable pub stamped : Json → RegisterOpts → ℕ → Service → Option Service
unfolding with_check format_int
stamped json opts now svc = elim (with_check json opts (or_nil svc.meta)) [
  | none ↦ none
  | some meta ↦ some (record svc { meta = some (insert (codes "reg-time") (format_int now) meta) })
]

-- `&registerOpts` of a call without options.
abbrev pub no_opts : RegisterOpts
no_opts = record {
  check_ttl = pos 0;
  check_ip = [];
  check_port = pos 0;
  check_interval = pos 0;
  check_timeout = pos 0;
  check_http = none;
}

abbrev pub default_lease_time : ℤ
default_lease_time = pos 600

-- The time to live: `CheckTTL` as it is, or the default.
unfoldable pub ttl_of : RegisterOpts → ℤ
ttl_of opts = or_number default_lease_time opts.check_ttl

module _ (e : Etcd) (json : Json) where
  open e use {Store, put, grant, keep_alive, revoke}

  -- What a call returns, and leaves: `none` is success.
  abbrev pub Returned : Type 0
  Returned = Registry × Store × Option Failure

  -- The put of `register`, under a lease or none (0). `leaseResp` is nil before `setLease`.
  unfoldable pub put_service : Service → ℕ → Registry → Store → Returned
  unfolding key_of
  put_service svc lease r s = elim (put (key_of svc.id) (json.marshal_service svc) lease s) [
    | none ↦ (record r { svc = some svc }, s, some put_failed)
    | some s' ↦ (record r { svc = some svc }, s', none)
  ]

  -- `register`, for a service and options that are stored.
  unfoldable pub register_stored : Bool → ℕ → RegisterOpts → Service → Registry → Store → Returned
  unfolding put_service
  register_stored update now opts svc r s = elim (stamped json opts now svc) [
    | none ↦ (r, s, some marshal_failed)
    | some svc' ↦
        if update
        then (elim r.lease [
          | none ↦ (record r { svc = some svc' }, s, some nil_lease)
          | some l ↦ put_service svc' l r s
        ])
        else put_service svc' 0 r s
  ]

  -- The loop of `init`, with the tries that are left; `now` is the clock, and `sleep` what others do
  -- to the cluster in the second between two tries. The service is read again at each try.
  unfoldable pub register_loop :
      ℕ → (ℕ → ℕ) → (Store → Store) → RegisterOpts → Service → Registry → Store → Returned
  unfolding register_stored
  register_loop zero now sleep opts svc r s = (r, s, none)
  register_loop (suc left) now sleep opts svc r s =
      let (r', s', err) = register_stored false (now left) opts svc r s in
      let again = register_loop left now sleep opts (elim r'.svc [ none ↦ svc | some v ↦ v ]) r' in
      elim err [
        | none ↦ (r', s', none)
        | some f ↦ if left == 0 then (r', s', some f) else again (sleep s')
      ]

  -- `setLease`
  unfoldable pub set_lease : ℤ → Registry → Store → Returned
  set_lease ttl r s = elim (grant ttl s) [
    | none ↦ (r, s, some grant_failed)
    | some (s', l) ↦ elim (keep_alive l s') [
      | none ↦ (r, s', some keep_alive_failed)
      | some s2 ↦ (record r { lease = some l }, s2, none)
    ]
  ]

  unfoldable pub init_parsed :
      RegisterOpts → (ℕ → ℕ) → (Store → Store) → Service → RegisterOpts → Store → Returned
  unfolding ttl_of or_number
  init_parsed given now sleep svc opts s =
      let start : Registry = record new_registry { svc = some svc; opts = some opts } in
      let (r, s', err) = register_loop 2 now sleep opts svc start s in
      elim err [ some f ↦ (r, s', some f) | none ↦ set_lease (ttl_of given) r s' ]

  -- `Register` of the adapter: a copy of the service, and `init` of a new registry.
  unfoldable pub register :
      Text → (ℕ → ℕ) → (Store → Store) → Service → Option RegisterOpts → Store → Returned
  unfolding parse_service
  register hostname now sleep svc opts s =
      let given : RegisterOpts = elim opts [ none ↦ no_opts | some o ↦ o ] in
      elim (parse_service hostname (copy svc) given) [
        | parse_failed f ↦ (new_registry, s, some (parse_error f))
        | parsed v o ↦ init_parsed given now sleep v o s
      ]

  -- `Update`, after the tests of the registry and of the service.
  unfoldable pub update_parsed : Text → ℕ → Service → RegisterOpts → Registry → Store → Returned
  update_parsed hostname now svc given r s = elim (parse_service hostname svc given) [
    | parse_failed f ↦ (r, s, some (parse_error f))
    | parsed v o ↦ register_stored true now o v (record r { svc = some v; opts = some o }) s
  ]

  -- `Update`. The first service was stored by `init`.
  unfoldable pub update : Text → ℕ → Service → Option RegisterOpts → Registry → Store → Returned
  update hostname now svc opts r s =
      let given : RegisterOpts = elim opts [ none ↦ no_opts | some o ↦ o ] in
      if r.de_registered then (r, s, some deregistered) else (elim r.svc [
        | none ↦ (r, s, some nil_lease)
        | some old ↦
            if not (text_eq (copy svc).id old.id) || not (text_eq (copy svc).name old.name)
            then (r, s, some id_changed)
            else update_parsed hostname now (copy svc) given r s
      ])

  -- `unregister`: the heartbeat is cancelled, the lease revoked.
  unfoldable pub unregister : Registry → Store → Returned
  unregister r s =
      let stopped : Registry = record r { cancelled = true } in
      elim r.lease [
        | none ↦ (r, s, some nil_lease)
        | some l ↦ elim (revoke l s) [
          | none ↦ (stopped, s, some revoke_failed)
          | some s' ↦ (stopped, s', none)
        ]
      ]

  -- `Deregister`
  unfoldable pub deregister : Registry → Store → Returned
  unfolding unregister
  deregister r s =
      if r.de_registered
      then (r, s, some deregistered)
      else unregister (record r { de_registered = true }) s
