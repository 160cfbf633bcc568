-- ===== src/Lib.antt =====
-- pspxy: a server that hands out TCP proxies over WebSockets, and the client for it. This library
-- models the server and the client, which are in Go, up to the sockets, and proves what makes them
-- right.
--
-- The parts and how they interact:
-- - internal/config keeps the list of proxies and the access keys, in memory and in a YAML file. The
--   handlers of internal/api edit it through `AddProxy`, `UpdateProxy`, `RemoveProxy` and `Reload`.
-- - internal/proxy keeps one running server for each proxy, under its id. The handlers change it
--   after the configuration, and `Reload` is followed by `SyncWithConfig`.
-- - internal/reversetunnel is the broker of the channels that providers open from outside: a
--   provider registers a channel, a consumer attaches to it, and frames go both ways.
-- - internal/api checks who may call, routes the calls, and hands a tunnel to a registered proxy or
--   to a channel of the broker.
-- - internal/clienttunnel is the client's side: local listeners under their ids, each with its own
--   port, whose connections it carries over a WebSocket to the server's entry; and the entries of
--   the reverse tunnels: a provider exposes a local service through a channel of the broker, a
--   consumer listens locally and reaches a channel.
-- - internal/clientconfig keeps the client's entries in a YAML file, and internal/clientui serves the
--   requests that change them: each request works on the managers and then saves what they hold.
-- - cmd/server starts the proxies of the configuration and the handler.
--
-- The files:
-- - Config.antt, Config/Manager.antt: internal/config/config.go. The record `Manager` holds the
--   memory, the file and the temporary file; `save`, `load`, `reload`, `add_proxy`, `update_proxy`
--   and `remove_proxy` are the methods of those names. Config/AccessAuth.antt:
--   internal/config/access_auth.go. Config/Watcher.antt: internal/config/watcher.go.
-- - Proxy/Server.antt: internal/proxy/proxy.go, the type `TCPServer`. Proxy/Manager.antt:
--   internal/proxy/manager.go, the map of the servers. Proxy/Bridge.antt:
--   internal/proxy/ws_handler.go.
-- - ReverseTunnel/Frame.antt: internal/reversetunnel/frame.go. ReverseTunnel/Broker.antt and
--   ReverseTunnel/Session.antt: internal/reversetunnel/broker.go, registration and removal in the
--   first, the loops and the attachment in the second. ReverseTunnel/Session/Steps.antt lets them
--   follow each other in any order.
-- - Api.antt and Api/: internal/api. Api/Access.antt is access_auth.go; Api/Proxies.antt,
--   Api/Routes.antt and Api/Ingress.antt are handler.go.
-- - ClientTunnel/Tunnel.antt, ClientTunnel/Dial.antt and ClientTunnel/Stream.antt:
--   internal/clienttunnel/tunnel.go, the listener, `DialWebSocketPath` and the WebSocket as a stream.
--   ClientTunnel/Registry.antt: internal/clienttunnel/registry.go.
-- - ClientTunnel/Reverse.antt and ClientTunnel/Reverse/Manager.antt with the modules below it:
--   internal/clienttunnel/reverse_manager.go. ClientTunnel/Reverse/Provider.antt and
--   ClientTunnel/Reverse/Handshake.antt: internal/clienttunnel/reverse.go.
-- - ClientConfig.antt: internal/clientconfig/config.go. ClientUi.antt: internal/clientui/server.go.
--   Server.antt: cmd/server/main.go.
-- - Uuid.antt: what is assumed of github.com/google/uuid. Strings.antt: what the program uses of
--   Go's `strings`, `strconv` and `net.SplitHostPort`. Base.antt: the shared lists, texts, maps,
--   numbers and results.
-- - Tests.antt: the results at concrete inputs, with concrete parameters that have the assumed laws.
--
-- How the program is modelled: a method is a function from the state to the result and the new
-- state; what the operating system, the network, the clock and other packages answer is an
-- argument. A method that holds a lock to its end is one step. So is a start of a reverse tunnel's
-- entry, which releases the lock in between; ClientTunnel/Reverse/Manager/Overlap.antt takes the
-- halves of two starts apart. An `int` is an integer without a bound: the program only compares
-- ports and time stamps and counts tunnels. Every loop of the model is structural recursion, over a
-- list, over events or over the attempts that are left. Fuel stands in one place: `format_int`
-- writes at most 20 digits, and 64 bits have no more.
--
-- Not modelled: the copying between sockets in the client, the static files, the routers and the
-- JSON text, the client's command, the build script and the front ends. `url.Parse` and the dialer
-- of the WebSockets are parameters. A server that leaves the map while tunnels are open on it is not
-- followed.
pub mod Base
pub mod Strings
pub mod Uuid
pub mod Config
pub mod Proxy
pub mod ReverseTunnel
pub mod Api
pub mod ClientTunnel
pub mod ClientConfig
pub mod Server
pub mod ClientUi
pub mod Tests
