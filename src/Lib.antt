-- ===== src/Lib.antt =====
-- Socks5ProxyNative is a SOCKS5 proxy for Windows, built on I/O completion ports. `ProxyServer` accepts
-- clients; each gets a `Socks5Session`, which negotiates the authentication, reads the request, resolves
-- the destination through `DnsResolver` and `DnsClient`, connects, and forwards data both ways. The
-- completion port calls a session back through `OnIoCompleted`, one completion at a time.
--
-- Prelude: names of the libraries, tests on numbers, lists, bits and association lists.
-- Outcome: routines over raw buffers, which return, throw, or read outside the buffer.
-- Net: network/Network.cpp, `ParseIP`, the comparison of endpoints and their texts.
-- Socks: server/protocol/Socks5Constants.h, one module for each namespace.
-- Dns: dns/DnsClient.cpp. Wire has the numbers in network byte order, Query has `BuildQuery`, Name has
-- `SkipName`, Response has `ParseResponse`, and Cache has `TryGetCached` and `Cache`. Below Response,
-- Reply writes replies as a server does, for the round trip.
-- Session: server/protocol/Socks5Session.h and server/protocol/Socks5Session.cpp. Session.antt has the
-- members of the class. Timers has the timers and `Close`, Streams the send queues with `PumpSend`, the
-- reads of the relay and their back pressure, Replies the replies and the GSSAPI frames with
-- `FailAndClose`, Negotiation the handshake and the authentication, Request the request with `StartConnect`
-- and `ConnectToHost`, Relay the forwarding, Receive `OnClientRecv` with its loop, and Handlers
-- `OnIoCompleted` with the other completions, `Start` and the callback of the resolver. A handler is a
-- function from a session to a session; the calls that leave the session are listed in `events`.
-- Udp: server/protocol/UdpRelay.h and server/protocol/UdpRelay.cpp. Udp.antt has the members of the class
-- and the limits. Sends has the queue of datagrams, Fragments has `ProcessFragment`, Packet the headers,
-- Domains `ForwardPayload`, `DispatchClientPayload` and the rounds of `OnDnsNotify`, Lifecycle `Start`,
-- `Stop` and the socket, Relay `HandlePacket`, `CleanupState` and `OnIoCompleted`, and Runs sequences of
-- calls. The answers of Windows and of the resolver are the record `Host` of Udp.antt.
-- Resolver: dns/DnsResolver.cpp. Tcp has `TcpDnsQuery`, a query over TCP. Pending has the resolver itself:
-- Ids has `AllocTxidLocked`, Sends the queue of UDP queries, Queries `ResolveAsync`, the retries, the fallback
-- to TCP and `FinishQuery`, and Handlers the responses, `OnIoCompleted` and `Stop`. A pending query is shared
-- by two maps, so it stands in a store under a number, from which it is not taken when no map has it any more. The answers of Windows are the record `Host`.
-- Server: server/ProxyServer.cpp, `OnAccept`, `OnSessionClosed` and `Stop`, with the connection slots.
-- Options: config/NetworkConfiguration.cpp, the setters of the socket options, of the limit on connections
-- and of the credentials.
-- Tests: concrete runs.
--
-- Bytes are numbers below 256 and buffers are lists of them. A socket is represented by whether it is open.
-- The answers of Windows, of GSSAPI (SSPI) and, for a session, of `UdpRelay::Start` are parameters: the records `System` and
-- `Gss` of Session/Env.antt, where each answer may depend on the number of calls made before it. Logging
-- and socket options of the operating system are left out. The counters of timer generations wrap at 2^64.
-- Mutexes are left out: a session's handlers run one after the other, under its completion mutex. Calls of
-- other parts are taken to return. One of them blocks: `Close` waits for the operations of a UDP relay
-- (`WaitPendingZero`), which is an event of the session like the other calls.
--
-- Fuel: `skip_name` has one unit for each byte of the message and one more, since each round moves on.
-- The loop over the protocol states has the size of the input and four more: a round takes input, or
-- unwraps the request, or is the last. The loops over frames and over the parts of a chunk have the number
-- of bytes and one more, since each round takes a byte at least. The loop of `OnDnsNotify` has two: a round
-- empties the queue of the name, and no handler of the relay runs at the same time.
--
-- The second loop of `AllocTxidLocked` has two units more than ids in use: up to 65536 rounds see different
-- ids, and only 0 and the ids in use are passed over.
--
-- Not modelled: the completion port and its timers (network/Iocp.cpp), the acceptor, the start of the
-- resolver and of the server, the JSON configuration, SSPI, logging, and the command line. The first ones are stateful and are open for
-- a model; the last ones are calls of the operating system.
pub mod Prelude
pub mod Outcome
pub mod Net
pub mod Socks
pub mod Dns
pub mod Session
pub mod Udp
pub mod Resolver
pub mod Server
pub mod Options
pub mod Tests
