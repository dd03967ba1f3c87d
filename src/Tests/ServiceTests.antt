-- ===== src/Tests/ServiceTests.antt =====
-- mod_service.go: runs.
use xdiscovery.Prelude.{◌↔◌, ◌≡◌, [], ◌∷◌, All, codes}
use xdiscovery.Service.Copy.{copy, SameService, copy-SameService}
use xdiscovery.Service.Domain.{get_tags_and_service_name, found}
use xdiscovery.Service.Domain.RoundTrip.{
  domain_parts, join_dots, IsName, get_tags_and_service_name-eq-found_iff,
}
use xdiscovery.Tests.{node_off}

copy-SameService_example : SameService (copy node_off) node_off
copy-SameService_example = copy-SameService node_off

get_tags_and_service_name-eq-found_iff_example :
    (get_tags_and_service_name (codes "qa.order.service.discovery")
      ≡ found (codes "order") (codes "qa" ∷ []))
    ↔ ((codes "qa.order.service.discovery"
          ≡ join_dots (domain_parts (codes "qa" ∷ []) (codes "order")))
        × All IsName (codes "qa" ∷ [])
        × IsName (codes "order"))
get_tags_and_service_name-eq-found_iff_example =
    get_tags_and_service_name-eq-found_iff (codes "qa.order.service.discovery") (codes "order")
      (codes "qa" ∷ [])
