-- ===== src/Factory.antt =====
-- factory/factory.go, with the defaults of NewConsulAdapter and NewEtcdAdapter: the adapter of a
-- kernel and its discovery. Whether an adapter can be made is an argument.
pub mod Choice
use xdiscovery.Service.{ServiceList}
use xdiscovery.Discoverer.{Discoverer, or_interval, Failure, new_xdiscovery}
use xdiscovery.Options.{DegradeOpts, Float64}
use xdiscovery.Eds.Setup.{EdsOption}
use xdiscovery.Prelude.{
  ℕ, zero, suc, ◌+◌, ◌-◌, ◌≤◌, ◌<◌, ◌≡◌, refl, sym, ap, ◌∙◌, ◌≢◌, ◌↔◌, ◌⊎◌, inl, inr, Bool, true,
  false, not, ◌&&◌, ◌||◌, Option, none, some, List, [], ◌∷◌, ◌++◌, arith, if◌then◌else◌, Bool-cases,
  Option-cases, ℤ, pos, negsuc, length, All, In, Text, codes, map, Map,
}

pub data Kernel : Type 0 where
  kernel_consul kernel_eds kernel_etcd unknown : Kernel

-- `Opts` of the consul adapter.
pub record ConsulOpts : Type 0 where
  pub address : List Text
  pub ttl : ℤ
  pub response_header_timeout : ℤ
  pub watch_wait_time : ℤ

-- `clientv3.Config`, as far as it is read.
pub record EtcdConfig : Type 0 where
  pub endpoints : List Text
  pub dial_timeout : ℤ

pub record FactoryOpts (F : Type 0) : Type 0 where
  pub addrs : List Text
  pub consul_opts : ConsulOpts
  pub eds_opts : List EdsOption
  pub etcd_opts : Option EtcdConfig
  pub degrade : DegradeOpts F
  pub init_history_endpoints : Option (Map ServiceList)

-- The defaults of `NewConsulAdapter`.
unfoldable pub consul_defaults : ConsulOpts → ConsulOpts
unfolding or_interval
consul_defaults o = record {
  address = elim o.address [ [] ↦ codes "http://127.0.0.1:8500" ∷ [] | a ∷ as_ ↦ o.address ];
  ttl = or_interval (pos 60000000000) o.ttl;
  response_header_timeout = or_interval (pos 15000000000) o.response_header_timeout;
  watch_wait_time = or_interval (pos 50000000000) o.watch_wait_time;
}

-- The defaults of `NewEtcdAdapter`.
unfoldable pub etcd_defaults : EtcdConfig → EtcdConfig
etcd_defaults c = elim c.endpoints [
  | [] ↦ record { endpoints = codes "127.0.0.1:2379" ∷ []; dial_timeout = pos 5000000000 }
  | e ∷ es ↦ c
]

-- The configuration with which an adapter is made.
pub data AdapterConfig : Type 0 where
  of_consul : ConsulOpts → AdapterConfig
  of_eds : Text → List EdsOption → AdapterConfig
  of_etcd : EtcdConfig → AdapterConfig

pub data FactoryError : Type 0 where
  addr_error unsupported_kernel adapter_failed : FactoryError
  discovery_failed : Failure → FactoryError

module _ {F : Type 0} where
  -- The switch of `NewDiscovery`, for addresses that are not empty; the first is the xDS server's.
  unfoldable pub adapter_config : Kernel → Text → List Text → FactoryOpts F → Option AdapterConfig
  unfolding consul_defaults etcd_defaults
  adapter_config kernel first rest opts = elim kernel [
    | kernel_consul ↦
        some (of_consul (consul_defaults (record opts.consul_opts { address = first ∷ rest })))
    | kernel_eds ↦ some (of_eds first opts.eds_opts)
    | kernel_etcd ↦ elim opts.etcd_opts [
      | none ↦ some (of_etcd (etcd_defaults (record { endpoints = []; dial_timeout = pos 0 })))
      | some c ↦ some (of_etcd (etcd_defaults (record c { endpoints = first ∷ rest })))
    ]
    | unknown ↦ none
  ]

-- What `NewDiscovery` returns: an adapter's configuration with the discovery, or an error.
abbrev pub Made : Type 0 → Type 0
Made F = FactoryError ⊎ (AdapterConfig × Discoverer F)

module _ (fl : Float64) where
  open fl use {F}

  -- `NewDiscovery`; `makes` tells whether an adapter is made without an error.
  unfoldable pub new_discovery : (AdapterConfig → Bool) → Kernel → FactoryOpts F → ℤ → Made F
  unfolding adapter_config new_xdiscovery
  new_discovery makes kernel opts now = elim opts.addrs [
    | [] ↦ inl addr_error
    | first ∷ rest ↦ elim (adapter_config kernel first rest opts) [
      | none ↦ inl unsupported_kernel
      | some c ↦
          let (d, err) = new_xdiscovery fl (some opts.degrade) opts.init_history_endpoints now in
          if not (makes c)
          then inl adapter_failed
          else (elim err [ some f ↦ inl (discovery_failed f) | none ↦ inr (c, d) ])
    ]
  ]
