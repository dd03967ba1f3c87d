-- ===== src/Json.antt =====
-- encoding/json on services and health checks, as a parameter: what a text is, and what is read
-- back from it, is up to the encoding.
use xdiscovery.Prelude.{Bool, Option, Text}
use xdiscovery.Service.{Service, HealthCheck}

-- `Marshal` of a health check may fail. `Unmarshal` of a health check leaves a value behind also
-- when it fails; the Boolean is whether it succeeded.
pub record Json : Type 0 where
  pub marshal_service : Service → Text
  pub unmarshal_service : Text → Option Service
  pub marshal_health_check : HealthCheck → Option Text
  pub unmarshal_health_check : Text → HealthCheck × Bool
