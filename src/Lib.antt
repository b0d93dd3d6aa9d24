-- ===== src/Lib.antt =====
-- OpenGFW: the traffic inspection of a packet filter.
--
-- A packet comes from io/nfqueue.go to a worker (engine/worker.go), which hands it to the TCP
-- assembler or to the UDP stream manager. Each stream keeps a list of analyzers that still want
-- data. An analyzer is fed the data and answers with an update of its properties and with whether
-- it is done; after an update the rule set is asked for an action, and the action becomes the
-- verdict of the packet. A stream without active analyzers repeats its last verdict.
--
-- Files and the code that they are about:
--   Prelude              tests, lists, and the outcome of a Go call (it returns, it panics, or the
--                        model of its loop is out of fuel)
--   Analyzer             analyzer/interface.go: property maps and updates
--   Utils.ByteBuffer     analyzer/utils/bytebuffer.go; a buffer is its list of bytes
--   Utils.Lsm            analyzer/utils/lsm.go; a step is a tag, and a function says what it does
--   Utils.Strings        what the analyzers use of Go's strings, bytes and strconv
--   Utils.Bits           the bitwise "or" of numbers whose bits do not meet
--   Ruleset              ruleset/interface.go, io/interface.go, modifier/interface.go: the types
--   Ruleset.Expr         ruleset/expr.go: Match, its environment, and CompileExprRules
--   Ruleset.Geo          ruleset/builtins/geo/matchers_v2geo.go: the matchers of addresses and names
--   Engine.PropUpdates   engine/utils.go: processPropUpdate
--   Engine.Udp           engine/udp.go: udpStream (Accept, Feed, Close, feedEntry)
--   Engine.Manager       engine/udp.go: the stream manager and the factory; engine/worker.go: handle
--   Engine.Tcp           engine/tcp.go: tcpStream (Accept, ReassembledSG, ReassemblyComplete)
--   Protocols.Openvpn    analyzer/udp/openvpn.go, over UDP and over TCP
--   Protocols.Wireguard  analyzer/udp/wireguard.go
--   Protocols.Trojan     analyzer/tcp/trojan.go, with its decision tree
--   Protocols.Fet        analyzer/tcp/fet.go
--   Protocols.Socks      analyzer/tcp/socks.go
--   Protocols.Duplex     the shape that the four analyzers below share: a buffer, a map and a
--                        machine for each direction, and their Feed
--   Protocols.TlsHello   analyzer/internal/tls.go: the parsers of ClientHello and ServerHello
--   Protocols.Tls        analyzer/tcp/tls.go
--   Protocols.Http       analyzer/tcp/http.go
--   Protocols.Ssh        analyzer/tcp/ssh.go
--   Protocols.Dns        analyzer/udp/dns.go, over UDP and over TCP
--   Samples              tests on concrete inputs, and instances of the theorems
-- Below a component, a module named for a subject (Engine.Udp.Offload, Protocols.Openvpn.Udp.Trace)
-- holds theorems only.
--
-- State is passed explicitly: a method with a pointer receiver takes the record of the stream and
-- returns it with its results. Numbers are natural numbers, bytes are below 256 where a theorem
-- says so, and a wrap-around is written out (the byte arithmetic of the SOCKS address). A quota that
-- falls below zero is kept as zero, since it is not read again. An IP address stands for its text,
-- and a float32 quotient for its two integers; its comparisons are a parameter.
--
-- Parameters: the analyzers' streams in the engine (`UdpStreams`, `TcpStreams`), the rule set's
-- Match in the engine's streams, the modifier, gopacket's flows, assembler and serializer, the LRU
-- cache, the generator of identifiers, the expression compiler and its machine, gopacket's decoder
-- of DNS messages, and strings.ToLower of a text that is not ASCII. The logger's calls in the
-- engine are a list of events.
--
-- Fuel: Run of the state machine is on fuel. An OpenVPN machine has two steps that never restart,
-- so 3 rounds are enough. A SOCKS machine has at most four steps, one
-- of which appends the others, and is given 6. The machines of Protocols.Duplex get three rounds more
-- than the buffer has bytes. They have two steps, and the one of DNS, which starts anew, reads two
-- bytes of length before each message. The loops of the hello parsers read a byte a round and get a
-- round more than there are bytes. The binary search of networks gets a round more than there are
-- networks. The loop of popCount halves a byte and is given 8.
--
-- Not modelled: the factory of TCP streams, the goroutines of the workers, the QUIC analyzer, the
-- reading of YAML, the loading of geo data and the DNS modifier. Also not: packet decoding and
-- reassembly (gopacket), netlink, the command line, generated code and downloads.
pub mod Prelude
pub mod Analyzer
pub mod Utils
pub mod Ruleset
pub mod Engine
pub mod Protocols
pub mod Samples
