-- ===== src/Consul/Registry.antt =====
-- adapter/consul/registry.go and the registration of adapter/consul/consul.go. A call gets the state
-- of the agent and returns the new one.
use xdiscovery.Service.Copy.{copy}
use xdiscovery.Etcd.Registry.{no_opts}
use xdiscovery.Json.{Json}
use xdiscovery.Service.{Service, HealthCheck, or_nil}
use xdiscovery.Options.{RegisterOpts}
use xdiscovery.Degrade.Health.{format_port}
use xdiscovery.Adapter.{ParseError, parse_service, parse_failed, parsed}
use xdiscovery.Consul.{Agent, ServiceCheck, Registration}
use xdiscovery.Prelude.{
  ℕ, zero, suc, Bool, true, false, not, ◌||◌, Option, none, some, [], ◌∷◌, ◌++◌, if◌then◌else◌, ℤ,
  pos, Text, codes, lookup, Map, insert, ◌==◌, format_int, text_eq,
}

pub data Failure : Type 0 where
  deregistered id_changed : Failure
  parse_error : ParseError → Failure
  marshal_failed check_deregister_failed register_failed deregister_failed : Failure
  nil_service : Failure  -- a panic

-- `opts` and `svc` are nil before `init`.
pub record Registry : Type 0 where
  pub opts : Option RegisterOpts
  pub svc : Option Service
  pub de_registered : Bool

-- `newRegistry`
abbrev pub new_registry : Registry
new_registry = record { opts = none; svc = none; de_registered = false }

-- `24 * time.Hour`
abbrev pub unregister_after : ℤ
unregister_after = pos 86400000000000

-- The check of `register`, before its status is set.
unfoldable pub check_of : Service → RegisterOpts → ServiceCheck
unfolding format_port
check_of svc opts =
    let host = opts.check_ip ++ codes ":" ++ format_port opts.check_port in
    let base : ServiceCheck = record {
      check_id = codes "service:" ++ svc.id;
      interval = opts.check_interval;
      deregister_critical_after = unregister_after;
      timeout = opts.check_timeout;
      http = [];
      header = none;
      method = [];
      tcp = [];
      status = [];
    } in
    elim opts.check_http [
      | none ↦ record base { tcp = host }
      | some c ↦ record base {
        http = codes "http://" ++ host ++ c.path;
        header = c.header;
        method = c.method;
      }
    ]

-- The health check that goes into the metadata.
unfoldable pub health_check_of : ServiceCheck → RegisterOpts → HealthCheck
health_check_of check opts = record {
  interval = opts.check_interval;
  timeout = opts.check_timeout;
  http = check.http;
  header = check.header;
  method = check.method;
  tcp = check.tcp;
}

-- The metadata that is registered; `now` is the clock in seconds. `none` is an error of the encoding.
unfoldable pub meta_of : Json → ServiceCheck → RegisterOpts → ℕ → Map Text → Option (Map Text)
meta_of json check opts now meta = elim (lookup (codes "health-check") meta) [
  | some c ↦ some (insert (codes "reg-time") (format_int now) meta)
  | none ↦ elim (json.marshal_health_check (health_check_of check opts)) [
    | none ↦ none
    | some c ↦
        some (insert (codes "reg-time") (format_int now) (insert (codes "health-check") c meta))
  ]
]

unfoldable pub registration_of : Service → ServiceCheck → Map Text → Registration
registration_of svc check meta = record {
  id = svc.id;
  name = svc.name;
  tags = svc.tags;
  port = svc.port;
  address = svc.address;
  passing = svc.weight;
  warning = svc.weight;
  meta = meta;
  checks = check ∷ [];
}

-- The service after `register` wrote into its metadata: a nil map stays nil.
unfoldable pub with_meta : Map Text → Service → Service
with_meta meta svc = elim svc.meta [ none ↦ svc | some m ↦ record svc { meta = some meta } ]

module _ (agent : Agent) (json : Json) where
  open agent use {State, service_register, check_deregister, service_deregister}

  -- What a call returns, and leaves: `none` is success.
  abbrev pub Returned : Type 0
  Returned = Registry × State × Option Failure

  -- `ServiceRegister`
  abbrev pub put_registration : Registration → Registry → State → Returned
  put_registration reg r s = elim (service_register reg s) [
    | none ↦ (r, s, some register_failed)
    | some s' ↦ (r, s', none)
  ]

  -- `register`, for a service and options that are stored.
  unfoldable pub register_stored : Bool → ℕ → RegisterOpts → Service → Registry → State → Returned
  register_stored update now opts svc r s =
      let check = check_of svc opts in
      elim (meta_of json check opts now (or_nil svc.meta)) [
        | none ↦ (r, s, some marshal_failed)
        | some meta ↦
            let r' : Registry = record r { svc = some (with_meta meta svc) } in
            if update
            then (elim (check_deregister check.check_id s) [
              | none ↦ (r', s, some check_deregister_failed)
              | some s' ↦
                  let passing : ServiceCheck = record check { status = codes "passing" } in
                  put_registration (registration_of svc passing meta) r' s'
            ])
            else put_registration (registration_of svc check meta) r' s
      ]

  -- The loop of `init`, with the tries that are left; `now` is the clock, and `sleep` what others do
  -- to the agent in the second between two tries. The service is read again at each try.
  unfoldable pub register_loop :
      ℕ → (ℕ → ℕ) → (State → State) → RegisterOpts → Service → Registry → State → Returned
  unfolding register_stored
  register_loop zero now sleep opts svc r s = (r, s, none)
  register_loop (suc left) now sleep opts svc r s =
      let (r', s', err) = register_stored false (now left) opts svc r s in
      let again = register_loop left now sleep opts (elim r'.svc [ none ↦ svc | some v ↦ v ]) r' in
      elim err [
        | none ↦ (r', s', none)
        | some f ↦ if left == 0 then (r', s', some f) else again (sleep s')
      ]

  -- `Register` of the adapter: a copy of the service, and `init` of a new registry.
  unfoldable pub register :
      Text → (ℕ → ℕ) → (State → State) → Service → Option RegisterOpts → State → Returned
  unfolding parse_service register_loop
  register hostname now sleep svc opts s =
      let given : RegisterOpts = elim opts [ none ↦ no_opts | some o ↦ o ] in
      elim (parse_service hostname (copy svc) given) [
        | parse_failed f ↦ (new_registry, s, some (parse_error f))
        | parsed v o ↦
            register_loop 2 now sleep o v (record new_registry { svc = some v; opts = some o }) s
      ]

  -- `Update`, after the tests of the registry and of the service.
  unfoldable pub update_parsed : Text → ℕ → Service → RegisterOpts → Registry → State → Returned
  update_parsed hostname now svc given r s = elim (parse_service hostname svc given) [
    | parse_failed f ↦ (r, s, some (parse_error f))
    | parsed v o ↦ register_stored true now o v (record r { svc = some v; opts = some o }) s
  ]

  -- `Update`. The first service was stored by `init`.
  unfoldable pub update : Text → ℕ → Service → Option RegisterOpts → Registry → State → Returned
  update hostname now svc opts r s =
      let given : RegisterOpts = elim opts [ none ↦ no_opts | some o ↦ o ] in
      if r.de_registered then (r, s, some deregistered) else (elim r.svc [
        | none ↦ (r, s, some nil_service)
        | some old ↦
            if not (text_eq (copy svc).id old.id) || not (text_eq (copy svc).name old.name)
            then (r, s, some id_changed)
            else update_parsed hostname now (copy svc) given r s
      ])

  -- `unregister`
  unfoldable pub unregister : Registry → State → Returned
  unregister r s = elim r.svc [
    | none ↦ (r, s, some nil_service)
    | some svc ↦ elim (service_deregister svc.id s) [
      | none ↦ (r, s, some deregister_failed)
      | some s' ↦ (r, s', none)
    ]
  ]

  -- `Deregister`
  unfoldable pub deregister : Registry → State → Returned
  unfolding unregister
  deregister r s =
      if r.de_registered
      then (r, s, some deregistered)
      else unregister (record r { de_registered = true }) s
