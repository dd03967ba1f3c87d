-- ===== src/Tests.antt =====
-- Runs of the model, and each theorem at an input that meets its hypotheses. Here: the data that
-- they share.
mod HistoryTests
mod DegradeTests
mod WrrTests
mod ServiceTests
mod CheckChangeTests
mod ClientTests
mod EdsTests
mod EtcdTests
mod ServedTests
mod AdsTests
mod FactoryTests
mod ConsulTests
mod ParseTests
mod BalanceTests
mod RoundTests
use xdiscovery.Prelude.{
  ℤ, pos, Text, codes, Map, Option, none, some, List, [], ◌∷◌, ℕ, zero, suc, ◌+◌, ◌-◌, ◌≤◌, ◌<◌,
  ◌≡◌, refl, sym, ap, ◌∙◌, ◌≢◌, ◌↔◌, ◌⊎◌, inl, inr, Bool, true, false, not, ◌&&◌, ◌||◌, ◌++◌, arith,
  if◌then◌else◌, Bool-cases, Option-cases, negsuc, length, All, In, map,
}
use xdiscovery.Service.{Service, ServiceList, unset}
use xdiscovery.Options.{Float64, DegradeOpts}
use xdiscovery.Float.{Ratio, ratio}
use xdiscovery.LoopList.{Elem}

abbrev pub node : Text → Text → ℤ → Service
node id address weight = record {
  id = id;
  name = codes "order";
  address = address;
  port = pos 80;
  tags = none;
  weight = weight;
  meta = none;
  health_check = none;
}

abbrev pub node_a : Service
node_a = node (codes "a") (codes "10.0.0.1") (pos 2)

abbrev pub node_b : Service
node_b = node (codes "b") (codes "10.0.0.2") (pos 3)

abbrev pub node_off : Service
node_off = record (node (codes "c") (codes "10.0.0.3") (pos 1)) {
  meta = some ((codes "status", codes "offline") ∷ []);
}

abbrev pub list_of : List Service → ServiceList
list_of srvs = record { watch_version = 1; version = 1; run_mode = unset; services = srvs }

-- The defaults, with a threshold of one half.
abbrev pub options : DegradeOpts Ratio
options = record {
  threshold = (1, 2);
  panic_threshold = (1, 10);
  threshold_contrast_interval = pos 900000000000;
  endpoints_save_interval = pos 60000000000;
  flag = pos 0;
  health_check_interval = pos 30000000000;
  ping_timeout = pos 500000000;
}

abbrev pub at : ℤ → List Service → Elem
at t srvs = record { unix_nano = t; list = list_of srvs }
