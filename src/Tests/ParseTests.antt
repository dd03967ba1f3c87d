-- ===== src/Tests/ParseTests.antt =====
-- adapter/init.go: a run.
use xdiscovery.Adapter.Checks.{IsAllowed, parse_service-IsAllowed}
use xdiscovery.Tests.{node_a}
use xdiscovery.Adapter.{parse_service, parsed, new_opts}
use xdiscovery.Prelude.{◌≡◌, ◌↔◌, true, false, none, [], ◌++◌, pos, codes, is_empty}
use xdiscovery.Options.{RegisterOpts}
use xdiscovery.Service.{Service}

abbrev plain : RegisterOpts
plain = record {
  check_ttl = pos 0;
  check_ip = [];
  check_port = pos 0;
  check_interval = pos 10;
  check_timeout = pos 0;
  check_http = none;
}

parse_service-IsAllowed_example :
    (((s : Service) × (o : RegisterOpts) × (parse_service (codes "host") node_a plain ≡ parsed s o))
      ↔ IsAllowed node_a)
    × ((s : Service) (o : RegisterOpts)
        → parse_service (codes "host") node_a plain ≡ parsed s o
        → (s ≡ record node_a { id = s.id })
          × ((is_empty node_a.id ≡ false) → s.id ≡ node_a.id)
          × ((is_empty node_a.id ≡ true)
              → s.id ≡ node_a.name ++ codes "~" ++ node_a.address ++ codes "~" ++ codes "host")
          × (o ≡ new_opts node_a plain))
parse_service-IsAllowed_example = parse_service-IsAllowed (codes "host") node_a plain
