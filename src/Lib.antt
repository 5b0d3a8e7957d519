-- ===== src/Lib.antt =====
-- Proxy Mesh, verified: the control plane that assigns proxy routes to devices, and the gateways that serve them.
--
-- The parts, and the file that models each (paths are from the root of the repository):
--
-- - Model: the shared records of internal/model/model.go, with EffectiveIngresses of devices and routes.
-- - Frame: the frames between control plane and gateways, internal/controlrpc/control.go.
-- - Table: the route table of a gateway, internal/dataplane/table.go. Load, Prepare, Activate, UpdateDevice,
--   ByDevice, ByUsername, Snapshot, Loaded and MaxVersion are functions of the table; `Call` and `run` are
--   sequences of its changing calls between two calls of Load. Table/Abstract is the specification that forgets maps and their order.
-- - Connections: the tracked connections, internal/dataplane/connections.go, with the uint64 ids wrapped.
-- - SsConfig: Validate and GeneratePassword of internal/ssconfig/credentials.go.
-- - Gateway: the flags and Shadowsocks listeners of internal/dataplane/gateway.go: ReconcileListeners,
--   PrepareDevice, PrepareListener, startListenerLocked, ValidateRoute and, in Gateway/Admit,
--   handleShadowsocks up to the relay, and Gateway/Health is HealthHandler.
-- - Client: the frame handler of a gateway, internal/dataplane/control_client.go, with the snapshot file as the
--   list of routes that it holds; Client/Stream is its stream and the loop that reconnects.
-- - Snapshot: the snapshot file, internal/dataplane/snapshot.go, over the bytes of a disk.
-- - Config: internal/config/config.go, of the value that a variable of the environment has.
-- - Hub: the sessions, broadcasts and two-phase deployments of internal/control/hub.go. Hub/Fleet puts the
--   handlers of the gateways at the other end of its streams, with frames and acknowledgements that may be lost.
-- - Store: the store in memory, internal/store/memory.go, with one function per method; Store/Reachable has its
--   states as an indexed data type.
-- - Postgres: the store in PostgreSQL, internal/store/postgres.go: a record of tables, each a list of rows;
--   Postgres/Statements has the statements with the constraints of db/migrations, Postgres/Devices,
--   Postgres/RouteRows and Postgres/Others the methods.
-- - Cryptox: the cipher of internal/cryptox/cipher.go.
-- - Socks5: DialSOCKS5 of internal/proxy/socks5.go.
-- - Provider: internal/provider/provider.go: the definitions; Provider/Random is cryptoUint and cryptoInt over
--   the words that crypto/rand gives, Provider/Weights is SelectWeighted, Provider/Ports is
--   validatePortRule and selectPort, Provider/Templates is render, Provider/Sessions is generateSession and
--   weightedString, and Provider/Generate is Validate and Generate.
-- - Api: the handlers of internal/control/api.go over the store in memory, the hub and the gateways: the port
--   range, putRoute and deployRoute; Api/Devices is createDevice, and Api/Ingresses is rotateCredential,
--   addIngress and deleteIngress; Api/Providers is putProvider, providers and putRouteFromProvider;
--   Api/Status is deviceStatus, gateways, interrupt and setGatewayDraining, and Api/Auth is auth.
-- - Program: the program of a gateway, apps/gateway/main.go: its start, its end, the canary and itoa.
-- - Prelude: tests, integers, results and maps that the parts share. Tests: runs and instances.
--
-- How it is modelled. A method that holds a lock is one function from the state to the state and its result;
-- goroutines are orders of such calls. A request for a route takes no lock of its own: the record Others of
-- Api says what other requests do to the store and the gateways between its steps. An int is an integer
-- without bounds, but for the uint64 counters and the int64 sum of weights, which wrap. A Go map is an
-- association list whose order stands for the order of `range`. An error is a value of a data type; its text
-- is a parameter where it is sent on. What the code gets from outside is an argument: which ports net.Listen
-- gives, whether the snapshot file is written, what the upstream dial does, what a session's channels receive
-- during a broadcast, the clock, and whether the Shadowsocks library takes a method and a password. Every loop
-- is structural recursion over a list, so no fuel is needed, but for the 64 attempts of createDevice, which
-- are the source's own bound, and the passes over a template, whose fuel is its length, since each step takes
-- at least one byte, and itoa, whose fuel is the 20 bytes of its buffer; cryptoUint recurs over the list of
-- the words that are left to read. An SQL statement is a function of the tables, a transaction that fails
-- gives back the tables it began with, and whether the server answers is an argument, as is what a column of
-- type timestamptz, which counts microseconds, keeps of a time of the program, which counts nanoseconds. JSON,
-- AES-GCM, strings.ToLower, strings.TrimSpace, fmt.Sprint and float64 are parameters, and the codes of a text
-- stand for its bytes. A broadcast that waits with nothing more to receive has no result (`none`).
--
-- Not modelled: the snapshot that Connect of internal/control/hub.go sends and the loop that follows it,
-- except for its heartbeats, the routing of requests and the sing-box outbound in internal/control/api.go, the
-- inside of JSON, gRPC and AES-GCM, the relay of bytes, TLS credentials, migrations, logging, and
-- apps/control-plane/main.go, which starts servers.
pub mod Api
pub mod Client
pub mod Config
pub mod Connections
pub mod Cryptox
pub mod Frame
pub mod Gateway
pub mod Hub
pub mod Model
pub mod Postgres
pub mod Prelude
pub mod Program
pub mod Provider
pub mod Snapshot
pub mod Socks5
pub mod SsConfig
pub mod Store
pub mod Table
pub mod Tests
