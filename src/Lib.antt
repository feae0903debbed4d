-- ===== src/Lib.antt =====
-- Echo Proxy core: a client that listens as an HTTP and SOCKS5 proxy, and a server that makes the
-- connections, joined by one WebSocket that carries many streams.
--
-- A client asks /control for a token with a greeting (Client/Token, Server/Control), opens /mux, shows
-- the token in a HELLO frame (Server/Session/Hello), and from then on both sides exchange frames
-- (Frame): OPEN, OPEN_ACK, DATA and CLOSE, each with the id of its stream. On both sides a registry
-- (Session) maps ids to the channels of the streams.
--
--   Frame           core-lib/src/frame.rs: Frame::encode, Frame::decode
--   Session         core-lib/src/session.rs: StreamRegistry; Session/Table is its HashMap
--   Server/Serve    server/src/lib.rs: serve
--   Server/Accept   server/src/lib.rs: accept_connection
--   Server/Control  server/src/lib.rs: process_control; Server/Tokens is the token store, and
--                   Server/Serving the store under the handshakes of all connections
--   Server/Session  server/src/lib.rs: run_server_mux_session, handle_open
--   Server/Ssrf     server/src/lib.rs: is_dest_allowed, is_public_ip
--   Server/Config   server/src/main.rs
--   Client/Token    client/src/lib.rs: obtain_token_with_version, the /mux address, HELLO
--   Client/Conn     client/src/lib.rs: run_client_reader, MuxConn::close, and what handlers do to both
--   Client/Keeper   client/src/lib.rs: run_mux_keeper
--   Client/Handlers client/src/lib.rs: handle_local_connection, handle_local_connection_resilient,
--                   handle_socks_connection_resilient, handle_via_mux, handle_via_mux_with_timeout,
--                   handle_socks_via_mux_with_timeout, handle_direct, handle_socks_direct, do_mux_relay
--                   over the calls that Client/Task lists
--   Client/Pool     client/src/lib.rs: any number of handlers over one connection
--   Client/Listeners   client/src/lib.rs: run_proxy_with_routing, run_proxy_resilient
--   Client/Relay    client/src/lib.rs: relay_tcp
--   Client/Socks    client/src/lib.rs: parse_socks5_request, over the conversations of Client/Talk
--   Client/Http     client/src/lib.rs: parse_request_header
--   Client/Address  client/src/lib.rs: split_host_port and its twin in the HTTP handlers
--   Client/Pattern, Client/Routing   client/src/lib.rs: HostPattern, RoutingConfig::should_bypass
--   Client/Geosite, Client/Geoip     client/src/geosite.rs, client/src/geoip.rs
--   Client/Config   client/src/main.rs: main, build_routing; Client/Config/RuleFile, Bypass and Start are
--                   about its rule files, the routing that it builds, and its start
--   Tunnel          Client/Pool and Server/Session at the two ends of one WebSocket: Tunnel/Sent and
--                   Tunnel/Downloads are about what each end sends, Tunnel/Integrity and
--                   Tunnel/Complete about what arrives of it, Tunnel/EndToEnd about both together,
--                   Tunnel/Exchange about one stream from its OPEN to its end, Tunnel/Typed about the
--                   frames on the wire, Tunnel/Finished about what comes too late
--   Integration     integration-tests/src/lib.rs: connect_via_socks5
--   Obfuscation     core-lib/src/lib.rs: encode_host, decode_host
--
-- Base, Text and Net hold what the program takes from Rust's standard library: byte strings, splitting
-- and trimming, UTF-8, decimal numbers, IP addresses with their parser and printer. WebSocket is what a
-- WebSocket stream yields. Tests applies the theorems to concrete runs, and Tests/Unit runs the unit
-- tests of core-lib/src/frame.rs, client/src/geosite.rs, client/src/geoip.rs and client/src/lib.rs.
--
-- A text is the list of its UTF-8 bytes, numbers are natural numbers, a u8, u16 or u32 by its range.
-- Tasks that run side by side (reader, writer, relays, handlers, keeper) are state machines, and a run
-- is a list of events in any order; between two points where a task waits, it is one step. A bounded
-- channel that is full only delays a step. A handler is the tree of its calls, where each answer
-- branches: a call is answered freely, so there are more runs than in the source. Fields that record what was dialled, delivered, published or slept are added to the state.
--
-- Bounds: printing a number has its value for fuel, and it has no more digits; trimming line ends has
-- the length of the text; everything else is by structural recursion. Loops that wait for input are
-- over the list of what comes.
--
-- Parameters, by what the program uses of them: uuid (Server/Tokens), semver (Server/Control), regex
-- and geosite_rs (Client/Geosite, Client/Geoip), ipnet (Client/Geoip), the Unicode case mapping (Text),
-- the WebSocket handshake (Server/Accept), base64, rand and the product by a
-- floating-point number (Obfuscation), files and the TOML parser (Server/Config, Client/Config).
--
-- Not modelled: the spawning of tasks and the sockets, which are calls of async-std; TLS and the
-- WebSocket protocol; logging; the integration tests but for their SOCKS5 client.
pub mod Base
pub mod Text
pub mod Frame
pub mod Session
pub mod Net
pub mod WebSocket
pub mod Server
pub mod Client
pub mod Tunnel
pub mod Obfuscation
pub mod Integration
pub mod Tests
