-- ===== src/Lib.antt =====
-- A model of the TCP gateway. Clients hold TCP connections to the gateway; it forwards their
-- messages to a backend over HTTP, and the backend pushes messages to connections through it.
--
-- The parts, by the files of the repository:
--
-- * pkg/writer/writer.go is Writer.antt. A Writer record holds the content and the capacity of the
--   slice `b` and the sticky error; write, pop and flush are the methods. How far `append` grows a
--   slice is the parameter `grow`, and what the connection answers is an argument of flush.
-- * pkg/hot/hooks/hooks.go is Hooks.antt: hook_header and hook_body.
-- * pkg/agent/agent.go is Agent/Reader.antt (loopRead: read_message is one round up to the message,
--   loop_read the loop) and Agent/Outbox.antt (Write and loopWrite). A connection is read as the
--   bytes that the client sends and the error that follows them, since the loop reads by
--   io.ReadFull and does not see how they arrive in pieces; the read deadline is such an error.
--   Agent/Outbox/Delivery.antt puts the goroutines that are inside of Write and the write loop
--   side by side, as a step relation, with a notification that is given up and a context that is
--   cancelled at any time.
-- * pkg/interfaces/interfaces.go is Interfaces.antt: messages, end points, Use. The errors that the
--   program tells apart, and how a handler ends, are data types there.
-- * pkg/hot/plugins/plugins.go is Plugins.antt: each middleware of PluginsMain, and ForwadHttp, over
--   the storage of one agent and the counters of pkg/metric. A goroutine that ConcurrentMiddle
--   starts is a message in the list `spawned`, and `task` is its body. Plugins/Limit.antt is the
--   step relation of arrivals and goroutines, Plugins/Sequence.antt the two operations on the sequence
--   counter as steps.
-- * pkg/metric/metric.go is Metric.antt: P99 and ProtoP99. The float test of P99.Out is the same
--   test in whole numbers, which agrees for counts below 2^46. Metric/Report.antt has the counters, the
--   collection and the rounds of Report.
-- * pkg/gateway/gateway.go is Gateway.antt: the registry of agents, its closing, and the ids. A nil
--   map is none, and a write to it is the outcome `panics`.
--   Gateway/Handlers.antt has the handlers of the private HTTP service, each as what it does to agents
--   before and after its reply, and whether it panics. Gateway/Service.antt puts them behind their
--   routes and the middlewares of pkg/hot/middlewares/middlewares.go, with the redirect that gin is
--   documented to give for a slash too much. Gateway/Accept.antt is the accept loop with ids, registry
--   and agents. Gateway/Push.antt is a broadcast up to the connections of the clients.
-- * The rest of pkg/agent/agent.go is Agent/Life.antt: New, Close, Disable, Enable, the finalizer, and
--   the accept loop of the gateway, as steps on all agents; the finalizer's test of `disable`, its setting
--   and the notice are steps of their own. Agent/Exit.antt is which errors Run reports.
-- * pkg/encoding/encode.go is Encoding.antt: `encode` and its helpers over trees of values, where a
--   pointer carries its address. Encoding/Types.antt is pkg/encoding/types.go, Encoding/Crc.antt
--   pkg/encoding/crc.go. Whether a field is exported is a parameter, which stands for reflect.
--   Encoding/Pool.antt has the pool that Marshal and MarshalToWriter share.
--   Encoding/Memory.antt is `encode` over a memory, where a pointer is an address and pointers may form
--   cycles.
--   pkg/encoding/decode.go is Encoding/Decode/Store.antt, for all types, over a store
--   (Encoding/Decode/Heap.antt) of the variables that pointers point at and of the arrays behind
--   slices, since decodeArray decodes all elements into one variable. How far `append` grows an
--   array is the parameter `spare`. Encoding/Decode.antt is the decoder without a store, on types
--   whose slices have elements without pointers and slices, and Encoding/Decode/Shared.antt the one
--   of a slice of pointers.
-- * pkg/configs/configs.go is Configs.antt, with the requests for the node's metadata and their cache.
-- * pkg/feishu/feishu.go and pkg/utils/utils.go are Alerts.antt. The expiring cache is a parameter, with
--   what it is documented to do as laws. Alerts/Goroutines.antt runs the two parts of Alert, up to Get
--   and from Add on, in any order of the goroutines.
-- * pkg/discovery/discovery.go is Discovery.antt: the registration in Redis, heartbeat by heartbeat.
-- * cmd/gateway/gateway.go is Command.antt: the start, over the configuration and the registration.
-- * pkg/cos/cos.go is Storage.antt: Put, Head and Get, over the client of its SDK as a parameter.
-- * cmd/stress/stress.go is Stress.antt: the rounds of the client of each test. Stress/Rounds.antt runs
--   them against the read loop, the plugins and the writer's frames. Stress/Load.antt has a whole test:
--   the loop that dials, the goroutines of all connections and the report, in any order of their steps.
--
-- Bytes.antt is Go's little-endian words, Text.antt TrimSpace and decimal numbers, Maps.antt maps by
-- string, Prelude.antt the shared names. Tests holds runs at concrete inputs.
--
-- How the parts meet: what Writer.write frames, Agent.Reader.loop_read reads back behind
-- Hooks.hook_header. Agent.Reader.loop_read is over any end point for PluginsMain, and
-- Plugins.plugins_main is that end point. Agent.Outbox works on the Writer. Stress.Rounds puts the three
-- together with a client, Gateway.Push the handler of a broadcast with the registry and the agents'
-- Outbox, Gateway.Accept the ids with the registry, and Command the configuration with
-- the registration.
--
-- Bounds: loop_read takes fuel, one unit for a message; more fuel than bytes of input is enough.
-- marshal_object takes fuel, one unit for a pointer inside of a pointer; the size of the memory and 101
-- is enough, since the cycle check begins on level 101.
-- Numbers are natural numbers, with the wrap-around of uint16, uint32 and uint64 written out.
--
-- Not modelled: what a failed Unmarshal leaves in the variable; the set-up of sockets and servers,
-- flags and logs. The counters of the stress client and of pkg/metric do not wrap here. Slices that
-- contain themselves, pointers into the middle of a value, types that refer to themselves for the
-- decoder, and values of named types with a basic type below are left out. The HTTP client, JSON and base64
-- are fields of Plugins.Env; for the handlers, binding a request is done, and base64 is an
-- argument. The two atomic operations on the sequence counter of a connection are one step of
-- Plugins.forward_http, and two in Plugins/Sequence.antt; those on the counter of agent ids, which
-- one goroutine makes, are one step.
pub mod Prelude
pub mod Bytes
pub mod Interfaces
pub mod Writer
pub mod Hooks
pub mod Agent
pub mod Text
pub mod Maps
pub mod Gateway
pub mod Encoding
pub mod Metric
pub mod Plugins
pub mod Configs
pub mod Alerts
pub mod Discovery
pub mod Command
pub mod Storage
pub mod Stress
pub mod Tests
