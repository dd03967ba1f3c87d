-- ===== src/Consul/Listing.antt =====
-- adapter/consul: what a watcher lists of what was registered.
use xdiscovery.Etcd.Registry.{no_opts}
use xdiscovery.Service.Copy.{copy}
use xdiscovery.Adapter.{parse_service, parsed, parse_failed}
use xdiscovery.Consul.Stamps.{SameElsewhere}
use xdiscovery.Options.{RegisterOpts}
use xdiscovery.Service.{Service, or_nil, HealthCheck}
use xdiscovery.Json.{Json}
use xdiscovery.Consul.Watch.{Entry, build_service}
use xdiscovery.Consul.{Registration, Agent}
use mathlib.Core.Path.{subst}
use xdiscovery.Consul.Registry.{Registry, register, check_of, registration_of, health_check_of}
use xdiscovery.Consul.Registers.{IsRegistered}
use xdiscovery.Consul.Lifecycle.{register-IsRegistered}
use xdiscovery.Prelude.{
  ℕ, ◌≡◌, sym, ap, ◌∙◌, true, false, Option, none, some, if◌then◌else◌, Text, codes, lookup,
  is_empty,
}

-- The entry with which the agent answers for a registration.
abbrev pub entry_of : Registration → ℕ → Entry
entry_of reg index = record {
  id = reg.id;
  service = reg.name;
  address = reg.address;
  port = reg.port;
  tags = reg.tags;
  passing = reg.passing;
  meta = some reg.meta;
  create_index = index;
}

module _ (agent : Agent) (json : Json) where
  open agent use {State, service_at}

  -- The registration, for what `ParseService` gives.
  register-parsed :
      (hostname : Text) (now : ℕ → ℕ) (sleep : State → State) (svc : Service)
      (opts : Option RegisterOpts) (s : State) (v : Service) (o : RegisterOpts) {r : Registry}
      {s' : State}
      → register agent json hostname now sleep svc opts s ≡ (r, s', none)
      → parse_service hostname (copy svc) (elim opts [ none ↦ no_opts | some p ↦ p ]) ≡ parsed v o
      → IsRegistered agent json v o (check_of v o) r s'
  register-parsed hostname now sleep svc opts s v o {r} {s'} h parse =
      let (v', o', good, there, opts', flag) =
        register-IsRegistered agent json hostname now sleep svc opts s h in
      let both : parsed v' o' ≡ parsed v o = sym good ∙ parse in
      let same_v = ap (λ p. elim p [ parsed a b ↦ a | parse_failed f ↦ v ]) both in
      let same_o = ap (λ p. elim p [ parsed a b ↦ b | parse_failed f ↦ o ]) both in
      subst (λ w. IsRegistered agent json w o (check_of w o) r s') same_v
        (subst (λ p. IsRegistered agent json v' p (check_of v' p) r s') same_o there)

  -- A service without a health check in its metadata that was registered with success has a
  -- registration at its id. If the encoding of the check is read back, then from the agent's entry
  -- for the registration a watcher builds a service with the id, name, address, port, tags and
  -- weight of the registered one, with the health check of the options, and with its metadata but
  -- for the health check and the time.
  pub register-build_service :
      (hostname : Text) (now : ℕ → ℕ) (sleep : State → State) (svc : Service)
      (opts : Option RegisterOpts) (s : State) (v : Service) (o : RegisterOpts) (c : Text)
      (index : ℕ) {r : Registry} {s' : State}
      → register agent json hostname now sleep svc opts s ≡ (r, s', none)
      → parse_service hostname (copy svc) (elim opts [ none ↦ no_opts | some p ↦ p ]) ≡ parsed v o
      → lookup (codes "health-check") (or_nil v.meta) ≡ none
      → json.marshal_health_check (health_check_of (check_of v o) o) ≡ some c
      → is_empty c ≡ false
      → json.unmarshal_health_check c ≡ (health_check_of (check_of v o) o, true)
      → (reg : Registration) × (service_at v.id s' ≡ some reg)
        × (let b = build_service json (entry_of reg index) in
            (b ≡ record v { meta = b.meta; health_check = some (health_check_of (check_of v o) o) })
            × SameElsewhere (or_nil b.meta) (or_nil v.meta))
  unfolding build_service registration_of
  register-build_service hostname now sleep svc opts s v o c index {r} {s'} h parse nothing made
        full back =
      let there = register-parsed hostname now sleep svc opts s v o h parse in
      let shows = there.shows in
      let check = health_check_of (check_of v o) o in
      let stamp : lookup (codes "health-check") there.reg.meta ≡ some c =
        shows.stamp
        ∙ ap (λ x. elim x [ some d ↦ some d | none ↦ json.marshal_health_check check ]) nothing
        ∙ made in
      let read : Option Text → Option HealthCheck = λ x. elim x [
        | none ↦ none
        | some d ↦ if is_empty d then none else some (json.unmarshal_health_check d).0
      ] in
      let checked : read (lookup (codes "health-check") there.reg.meta) ≡ some check =
        ap read stamp
        ∙ ap (λ f. if f then none else some (json.unmarshal_health_check c).0) full
        ∙ ap (λ x. some x.0) back in
      let entry = ap (λ (reg : Registration). entry_of reg index) shows.fields in
      let built = ap (build_service json) entry in
      let shown =
        λ (x : Option HealthCheck). record v { meta = some there.reg.meta; health_check = x } in
      (
        there.reg,
        there.found,
        (built ∙ ap {A = Option HealthCheck} {B = Service} shown checked, shows.elsewhere),
      )
