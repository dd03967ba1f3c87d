-- ===== src/Lib.antt =====
-- xdiscovery, a Go library for service discovery: a client asks for the nodes of a service, a
-- registry (consul, etcd, eds) gives a list of them and pushes a new one when it changes, and a
-- layer in between protects the client from a registry that loses its nodes.
--
-- The parts, and the files that model them:
--
--   Service          mod_service.go, mod_check.go, const_*.go: services, lists and run modes.
--     Copy           Service.Copy, field by field.
--     Domain         GetTagsAndServiceName and CheckServiceOrTagName with the two regular
--                    expressions of discovery_adapter.go.
--   Options          mod_options.go, mod_check.go; a float64 is a record of operations with the
--                    facts on division and order that the code relies on. Float is an instance, by
--                    exact ratios, for runs.
--   LoopList         discovery/looplist.go: the history of the lists that a registry gave.
--   Degrade          discovery/downgrade.go: the state machine (normal, self protection, panic) of
--                    one service. Handlers has newDegrade, updateOpts, startSelfProtection and
--                    stopSelfProtection; Update has onUpdateList, which the registry's watcher
--                    calls; Health has checkHealth, listSame and the merge of the nodes; Ping has
--                    continueDoPing and pingLoop. Nodes, Online, OnlinePing, Entry, Rounds,
--                    SameIds, Merge, Checked, Decision and Outage prove.
--   Wrr              loadbalance/wrr/wrr.go: the weighted random balancer. Search, Build and Panic
--                    are about the choice; Objects, Places, Removal, Insertion, Sound, Table,
--                    Calls, Filled and Total about the servers that it holds.
--   CheckChange      check_change.go: a value that is made anew when a list has changed, such as
--                    the balancer.
--   LoadBalance      loadbalance/loadbalance.go: a balancer for each service, by CheckChange and
--                    Wrr. Sharing, Reuse and Current prove.
--   Watch            discovery/watch.go: the wait of the first call and the filter by tags.
--   WatchOnUpdate    discovery/watch_on_update.go: the events between two lists. Replay, Gone and
--                    Changes prove.
--   Discoverer       discovery/discovery.go: the watches by service and data centre, and the options
--                    that reach them. A watch owns a Degrade, whose onUpdateList the adapter calls.
--   Recover          wrap.go: stored lists in place of the registry's.
--   Adapter          adapter/init.go: the checks before a registration.
--   Eds              adapter/eds/eds.go, adapter/eds/watch.go: the eds adapter; Update has
--                    onEndpointsUpdate, Setup the options and the adapter with its xDS client.
--                    Changes, Delivery, Subscribed and Calls prove.
--   Consul           adapter/consul: Registry has the registration, Watch the watcher with the
--                    entries of one id; the agent's client is the record Agent. Stamps, Registers,
--                    Lifecycle, History, Dedupe, Listing and Served prove.
--   Etcd             adapter/etcd: Registry has the registration with its lease, Watch the watcher;
--                    the cluster's client is the record Etcd. Lifecycle and Listing prove.
--   Ads              adapter/eds/xds/v2: the xDS client with its stream, its configuration and the
--                    IP of internal/utils/getip.go; Threads has Start, sendThread, receiveThread and
--                    the handlers. Streams, Sending and Receiving prove.
--   Factory          factory/factory.go: the adapter of a kernel. Choice proves.
--   Json             encoding/json on services and health checks, a parameter.
--   Prelude          shared names, lists, integers, texts and maps.
--   Tests            runs, and each theorem at an input that meets its hypotheses.
--
-- How code becomes definitions. A handler that holds a lock more than once is its sections in
-- order, and an argument for each gap says what other goroutines do there; a theorem either holds
-- for all such steps that keep its invariant or takes none of them. A goroutine that the code
-- starts is a function of its own. The clock, the network, the random source and the client's
-- callbacks are arguments. An int is a number in ℤ, and where the code adds or subtracts 64-bit
-- numbers the wrap-around is written out; a text is the list of its characters. A nil slice, map or
-- pointer is `none`, a panic is a result of its own.
--
-- Bounds. The binary search of the balancer runs on fuel, the number of servers, which is
-- more than the halvings that it makes. The ping loop runs over the turns that it is given, one for
-- each time that its select wakes up. The threads of the xDS client and
-- its reconnect run over what happens to them. All other loops run over lists.
--
-- Not modelled: the choice of a consul agent by newClient, which hashes addresses that the resolver
-- gives; the calls of grpc, of the consul and etcd clients and of the JSON encoder, which are
-- parameters; the generated mock, metrics and logging. checkHealth sets two fields in the header map of the
-- service itself; here the request gets the header, and the service stays as it is.
pub mod Prelude
pub mod Service
pub mod Options
pub mod LoopList
pub mod Degrade
mod Float
pub mod Wrr
mod Tests
pub mod CheckChange
pub mod Watch
pub mod WatchOnUpdate
pub mod Discoverer
pub mod Recover
pub mod Adapter
pub mod Eds
pub mod Json
pub mod Etcd
pub mod Consul
pub mod Ads
pub mod Factory
pub mod LoadBalance
