-- ===== src/Consul/Served.antt =====
-- adapter/consul/watch.go, discovery/downgrade.go and discovery/watch.go: from the agent's answer to
-- the list that a client gets.
use xdiscovery.Degrade.{Degrade}
use xdiscovery.Service.{Service, ServiceList}
use xdiscovery.Json.{Json}
use xdiscovery.Consul.Watch.{Watcher, Entry, handler, list_of}
use xdiscovery.Watch.{Watch}
use xdiscovery.Prelude.{ℕ, List}

-- What the watcher gives to its callback for an answer.
abbrev pub answer_list : Json → ℕ → List Entry → Watcher → ServiceList
answer_list json idx entries w = list_of (handler json idx entries w)
