-- ===== src/Factory/Choice.antt =====
-- factory/factory.go: which addresses and options a discovery is made with.
use xdiscovery.Factory.{kernel_consul, kernel_eds, kernel_etcd, unknown, of_consul, of_eds, of_etcd}
use xdiscovery.Options.{Float64}
use xdiscovery.Factory.{
  adapter_config, AdapterConfig, Kernel, of_consul, new_discovery, FactoryOpts, consul_defaults,
  etcd_defaults, of_eds, of_etcd, unknown,
}
use xdiscovery.Discoverer.{
  with_defaults, new_xdiscovery, update_degrade_opts, update_given, update_watchers, Discoverer,
  is_flag_valid,
}
use xdiscovery.Prelude.{
  ◌≡◌, sym, ap, ◌∙◌, ◌≢◌, inl, inr, Bool, true, ◌&&◌, none, some, List, [], ◌∷◌, arith, Bool-cases,
  Option-cases, ℤ, Text, codes, list_cases,
}

-- The addresses that an adapter is made with.
abbrev pub addresses_of : AdapterConfig → List Text
addresses_of (of_consul o) = o.address
addresses_of (of_eds addr opts) = addr ∷ []
addresses_of (of_etcd c) = c.endpoints

-- The addresses that a kernel takes of those that are given: etcd without options of its own takes
-- none, and the default stands.
abbrev pub addresses_for : {F : Type 0} → Kernel → Text → List Text → FactoryOpts F → List Text
addresses_for kernel_consul first rest opts = first ∷ rest
addresses_for kernel_eds first rest opts = first ∷ []
addresses_for kernel_etcd first rest opts = elim opts.etcd_opts [
  | none ↦ codes "127.0.0.1:2379" ∷ []
  | some c ↦ first ∷ rest
]
addresses_for unknown first rest opts = []

adapter_config-addresses :
    {F : Type 0} (kernel : Kernel) (first : Text) (rest : List Text) (opts : FactoryOpts F)
    {c : AdapterConfig}
    → adapter_config kernel first rest opts ≡ some c
    → (addresses_of c ≡ addresses_for kernel first rest opts) × (kernel ≢ unknown)
unfolding adapter_config consul_defaults etcd_defaults
adapter_config-addresses kernel_consul first rest opts h = (ground arith, λ e. absurd (cc))
adapter_config-addresses kernel_eds first rest opts h = (ground arith, λ e. absurd (cc))
adapter_config-addresses kernel_etcd first rest opts h = (ground arith, λ e. absurd (cc))
adapter_config-addresses unknown first rest opts h = absurd (cc)

module _ (fl : Float64) where
  open fl use {F}

  -- A discovery that is made with success has a kernel that is known and at least one address. Its
  -- adapter has all the addresses with consul, the first with eds, and with etcd all of them if there
  -- are options for etcd, else only the default address; the degradation has the given options with
  -- the defaults, its flag is 0 or 1, and nothing is watched.
  pub new_discovery-addresses :
      (makes : AdapterConfig → Bool) (kernel : Kernel) (opts : FactoryOpts F) (now : ℤ)
      {c : AdapterConfig} {d : Discoverer F}
      → new_discovery fl makes kernel opts now ≡ inr (c, d)
      → ((first : Text) × (rest : List Text) × (opts.addrs ≡ first ∷ rest)
          × (addresses_of c ≡ addresses_for kernel first rest opts))
        × (kernel ≢ unknown)
        × (makes c ≡ true)
        × (is_flag_valid opts.degrade.flag ≡ true)
        × (d.degrade_opts ≡ with_defaults fl opts.degrade)
        × (d.watchers ≡ [])
  unfolding new_discovery new_xdiscovery update_degrade_opts update_given update_watchers
  new_discovery-addresses makes kernel opts now {c} {d} h = elim (list_cases opts.addrs) [
    | inl nothing ↦ absurd (ground arith)
    | inr (first, rest, given) ↦ elim (Option-cases (adapter_config kernel first rest opts)) [
      | inl bad ↦ absurd (ground arith)
      | inr (c', chosen) ↦
          let (same, known) = adapter_config-addresses kernel first rest opts chosen in
          let blank : Discoverer F = record {
            init_history_endpoints = opts.init_history_endpoints;
            degrade_opts = with_defaults fl opts.degrade;
            watchers = [];
          } in
          elim (Bool-cases (is_flag_valid opts.degrade.flag && makes c')) [
            | inl good ↦
                let result : new_discovery fl makes kernel opts now ≡ inr (c', blank) =
                  ground arith in
                let both = sym result ∙ h in
                let is_c : c' ≡ c = ap (λ x. elim x [ inl e ↦ c' | inr (a, b) ↦ a ]) both in
                let is_d : blank ≡ d = ap (λ x. elim x [ inl e ↦ blank | inr (a, b) ↦ b ]) both in
                (
                  (first, rest, given, ap addresses_of (sym is_c) ∙ same),
                  known,
                  ap makes (sym is_c) ∙ ground arith,
                  ground arith,
                  ap (λ x. x.degrade_opts) (sym is_d),
                  ap (λ x. x.watchers) (sym is_d),
                )
            | inr bad ↦ absurd (ground arith)
          ]
    ]
  ]
