-- ===== src/Lib.antt =====
-- gopr relays TCP and UDP traffic, with TLS or DTLS on either side, or serves as an HTTP proxy or
-- a SOCKS5 server. This library models its Go code and proves what makes it correct.
--
-- Parts, and the files that model them:
--
-- * The entry point, cmd/gopr/main.go, in Gopr.antt: `run` parses the command line, and starts a
--   service for each configuration or prints a text; `main` makes an exit code of its result.
--   Gopr/Gathering.antt has how `run` waits for its services, in any order of their ends.
-- * The command line, internal/config. `ParseAll` splits the arguments into groups, and `Parse`
--   turns each group into a `Config` or an error.
--     Config.antt                the types of internal/config/config.go
--     Config/Options.antt        the option types of parse.go, and the cases of its switch
--     Config/Extract.antt        extractOptions: the bodies of the cases, and the loop
--     Config/Addr.antt           normalizeAddr, isAllDigits, validatePort
--     Config/Keyword.antt        matchKeyword, proxyMode
--     Config/ProxyTarget.antt    splitProxyListenSuffix, classifyProxyTarget
--     Config/ParseEndpoint.antt  parseEndpoint
--     Config/ValidateSsl.antt    validateSSL, validateSSLKeyCert
--     Config/Parse.antt          Parse
--     Config/ParseAll.antt       ParseAll, splitArgGroups
-- * Certificates, internal/tlsutil.
--     Tlsutil/EmbeddedKey.antt   HasEmbeddedKey, which validateSSL calls
--     Tlsutil/Settings.antt      loadCertificate, loadCAPool, ServerConfig, ClientConfig,
--                                MITMSigner, MITMServerConfig
--     Tlsutil/Dtls.antt          dtls.go
-- * The relay, internal/relay/relay.go: how a `Config` becomes settings.
--     Relay.antt                 serverName, splitHostPort, and the listeners that Run starts
--     Relay/Settings.antt        clientTLSConfig, serverTLSConfig, clientDTLSConfig,
--                                serverDTLSConfig
--     Relay/Waiting.antt         how Run waits for its listeners, as steps in any order
--     Relay/Serve.antt           serveTCP and handleTCPConn of tcp.go, serveUDPDTLS and
--                                handleUDPDTLSConn of udp.go
-- * The plain UDP relay, serveUDP, relayUDPReplies and reapUDPSessions of internal/relay/udp.go, in
--   Relay/Udp.antt: a round of serveUDP or of the reaper is a step, one of relayUDPReplies is three
--   (its Read, its locked part, its write), and `Run` has all their interleavings.
--   Relay/Udp/Listening.antt has serveUDP from its set-up to its end.
-- * SOCKS5, internal/proxy/socks.go.
--     Proxy/Socks.antt           the connection, the constants, the calls of Go's library
--     Proxy/Socks/Server.antt    socksHandshake, socksReadRequest, socksWriteReply,
--                                handleSOCKSConn
--     Proxy/Socks/Client.antt    dialUpstreamSOCKS
--     Proxy/Socks/Dialogue.antt  the two at the ends of one connection
-- * The HTTP proxy, internal/proxy/http.go and digest.go.
--     Proxy/Http.antt            headers and messages, the switches of RunHTTP and
--                                handleConnect, handleForward
--     Proxy/Http/Connect.antt    dialUpstreamConnect, connectAttempt
--     Proxy/Http/Auth.antt       upstreamAuthTransport
--     Proxy/Http/Tunnel.antt     handleConnect up to its copies
--     Proxy/Http/Serving.antt    the handler of RunHTTP, newSOCKSBackedTransport
--     Proxy/Http/Shutdown.antt   the end of RunHTTP, as steps in any order
--     Proxy/Http/Dialogue.antt   dialUpstreamConnect and handleConnect at the ends of one
--                                connection
--     Proxy/Digest.antt          digest.go
--   Proxy/Chain.antt puts both proxies in rows, each the upstream of the one before.
-- * Relaying, which all of these end in, and the log.
--     Logx.antt                  internal/logx/logx.go: the levels, and Copy
--     Logx/Relaying.antt         the two calls of Copy of a relayed connection: their lines in
--                                any order between the two, and their counts
--     Relay/Log.antt             what handleTCPConn and handleUDPDTLSConn log
--     Proxy/Log.antt             what handleSOCKSConn, handleConnect and handleForward log
--     Pipe.antt                  pipeConn of internal/relay/tcp.go, pipeSOCKS of
--                                internal/proxy/socks.go, and the loops of handleConnect: a
--                                round of a loop is a step, and `Run` has all interleavings
--
-- How code becomes definitions. A Go string is a list of bytes, a struct a record, a named set of
-- constants a data type. A function that returns an error is one into `Result`, whose errors are
-- constructors in place of texts. The functions of Go's strings, strconv and net that the code
-- calls are written out where they are used: in Base/Text.antt, Base/Trim.antt, HostPort.antt
-- (net.SplitHostPort, net.JoinHostPort) and Config/Addr.antt (strconv.Atoi, with int as int64).
-- What lies outside is a parameter: the record `System` (System.antt) holds the file system, PEM
-- decoding and Unicode's mapping of case, the record `Addresses` (Proxy/Socks.antt) the notations
-- of IP addresses, the record `Crypto` (Tlsutil/Settings/Calls.antt) Go's crypto packages, with the
-- facts that the code relies on. The record `Texts` (Proxy/Digest/GoText.antt) holds what Go makes
-- of a text outside ASCII, and MD5 and random bytes are arguments; so are the answers of net/http: what
-- a transport returns for a request, what a dial of the upstream meets. A TCP connection is the
-- bytes that the peer sends, the bytes written so far, which of the next writes fail, and whether
-- it was closed; a handler is a function from this state to a result and the state behind it.
--
-- Fuel. The loop of HasEmbeddedKey runs with one round for each byte of the file and one more;
-- each block that is found takes input, so the rounds are enough. strconv.Itoa of a port has room
-- for five digits, and a uint16 has no more. All other recursion is structural.
--
-- Not modelled: deadlines and timeouts, signals, the lines that say what is listened on, and the
-- log of the plain UDP relay: they are calls of Go's net, os/signal and log with no logic of gopr's
-- own between them. What net/http does between a connection and a handler, or with a transport, is
-- a parameter.
pub mod Base
pub mod HostPort
pub mod System
pub mod Config
pub mod Gopr
pub mod Logx
pub mod Pipe
pub mod Proxy
pub mod Relay
pub mod Tlsutil
pub mod Examples
