-- ===== src/Tests/FactoryTests.antt =====
-- factory/factory.go: a run.
use xdiscovery.Discoverer.{
  Discoverer, is_flag_valid, with_defaults, new_xdiscovery, update_degrade_opts, update_given,
  update_watchers, or_interval, zero_opts,
}
use xdiscovery.Tests.{options}
use xdiscovery.Factory.{
  FactoryOpts, new_discovery, kernel_etcd, unknown, adapter_config, AdapterConfig, of_etcd,
  etcd_defaults,
}
use xdiscovery.Factory.Choice.{addresses_for, addresses_of, new_discovery-addresses}
use xdiscovery.Float.{Ratio, ratio}
use xdiscovery.Prelude.{◌≡◌, refl, ◌≢◌, inr, true, none, some, List, [], ◌∷◌, pos, Text, codes}

abbrev given : FactoryOpts Ratio
given = record {
  addrs = codes "10.0.0.1:2379" ∷ [];
  consul_opts = record {
    address = [];
    ttl = pos 0;
    response_header_timeout = pos 0;
    watch_wait_time = pos 0;
  };
  eds_opts = [];
  etcd_opts = none;
  degrade = options;
  init_history_endpoints = none;
}

abbrev found : AdapterConfig
found = of_etcd (record { endpoints = codes "127.0.0.1:2379" ∷ []; dial_timeout = pos 5000000000 })

abbrev discovery : Discoverer Ratio
discovery = (new_xdiscovery ratio (some options) none (pos 0)).0

is_made : new_discovery ratio (λ c. true) kernel_etcd given (pos 0) ≡ inr (found, discovery)
unfolding new_discovery adapter_config etcd_defaults new_xdiscovery update_degrade_opts update_given
    update_watchers is_flag_valid with_defaults or_interval zero_opts
is_made = refl

new_discovery-addresses_example :
    ((first : Text) × (rest : List Text) × (given.addrs ≡ first ∷ rest)
      × (addresses_of found ≡ addresses_for kernel_etcd first rest given))
    × (kernel_etcd ≢ unknown)
    × (true ≡ true)
    × (is_flag_valid given.degrade.flag ≡ true)
    × (discovery.degrade_opts ≡ with_defaults ratio given.degrade)
    × (discovery.watchers ≡ [])
new_discovery-addresses_example =
    new_discovery-addresses ratio (λ c. true) kernel_etcd given (pos 0) is_made
