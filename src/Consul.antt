-- ===== src/Consul.antt =====
-- adapter/consul: the adapter of a consul agent. The client of the agent is a parameter, with what
-- the code relies on of the agent's services.
use xdiscovery.Prelude.{
  ℕ, zero, suc, ◌+◌, ◌-◌, ◌≤◌, ◌<◌, ◌≡◌, refl, sym, ap, ◌∙◌, ◌≢◌, ◌↔◌, ◌⊎◌, inl, inr, Bool, true,
  false, not, ◌&&◌, ◌||◌, Option, none, some, List, [], ◌∷◌, ◌++◌, arith, if◌then◌else◌, Bool-cases,
  Option-cases, ℤ, pos, negsuc, length, All, In, Text, codes, map, Map, is_empty, text_eq,
}
pub mod Registry
pub mod Watch
pub mod Listing
pub mod History
pub mod Lifecycle
pub mod Registers
pub mod Stamps
pub mod Dedupe
pub mod Served

-- `api.AgentServiceCheck`. The durations are sent as the text of `Duration.String`; here they stand
-- as they are.
pub record ServiceCheck : Type 0 where
  pub check_id : Text
  pub interval : ℤ
  pub deregister_critical_after : ℤ
  pub timeout : ℤ
  pub http : Text
  pub header : Option (Map (List Text))
  pub method : Text
  pub tcp : Text
  pub status : Text

-- `api.AgentServiceRegistration`, with the weights by the state of the check.
pub record Registration : Type 0 where
  pub id : Text
  pub name : Text
  pub tags : Option (List Text)
  pub port : ℤ
  pub address : Text
  pub passing : ℤ
  pub warning : ℤ
  pub meta : Map Text
  pub checks : List ServiceCheck

-- The agent: the registration of an id. The calls are the client's, where `none` is an error. The
-- laws are those of the agent's API: a registration with an id replaces the service of just that id,
-- the end of a check touches no service, and the end of a service touches no other.
pub record Agent : Type 1 where
  pub State : Type 0
  pub service_at : Text → State → Option Registration
  pub service_register : Registration → State → Option State
  pub check_deregister : Text → State → Option State
  pub service_deregister : Text → State → Option State
  pub service_at-service_register :
      (reg : Registration) (s s' : State)
      → is_empty reg.id ≡ false
      → service_register reg s ≡ some s'
      → (j : Text) → service_at j s' ≡ (if text_eq reg.id j then some reg else service_at j s)
  pub service_at-check_deregister :
      (c : Text) (s s' : State)
      → check_deregister c s ≡ some s'
      → (j : Text) → service_at j s' ≡ service_at j s
  pub service_at-service_deregister :
      (id : Text) (s s' : State)
      → service_deregister id s ≡ some s'
      → (j : Text) → service_at j s' ≡ (if text_eq id j then none else service_at j s)
