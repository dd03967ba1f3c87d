-- ===== src/Tests/ServedTests.antt =====
-- adapter/consul, discovery/downgrade.go and discovery/watch.go together: a run.
use xdiscovery.Prelude.{◌≡◌, refl, ◌↔◌, true, false, none, List, [], ◌∷◌, All, In, codes}
use xdiscovery.Float.{Ratio}
use xdiscovery.Tests.ConsulTests.{old, new, single}
use xdiscovery.Tests.DegradeTests.{serving}
use xdiscovery.Consul.Watch.{Watcher, Entry, new_watcher}
use xdiscovery.Watch.{Watch}
use xdiscovery.Prelude.{◌≡◌, refl, ◌↔◌, true, false, none, List, [], ◌∷◌, All, In, codes}

abbrev answer : List Entry
answer = old ∷ new ∷ single ∷ []

abbrev watching : Watcher
watching = new_watcher 0 (codes "order") [] none

abbrev watched : Watch Ratio
watched = record { service = codes "order"; degrade = serving; once = true }
