-- ===== src/Lib.antt =====
-- A model of the Arrow client: the program that keeps a TLS connection to the Arrow Service and
-- passes the service's requests on to cameras of the local network.
--
-- The parts and how they interact. The connection handler (src/net/arrow/mod.rs) reads from the TLS
-- stream into the message parser (src/net/arrow/protocol/mod.rs). A whole message is a Control
-- Protocol message (src/net/arrow/protocol/control.rs), which the handler answers itself, or bytes
-- for a session with a local service, which the handler opens on demand by the service table
-- (src/net/arrow/protocol/svc_table.rs) of the shared configuration (src/utils/config.rs). What the
-- services answer goes through one output buffer (src/net/utils.rs), which the handler fills from
-- its sessions in turn, back to the Arrow Service. Timers check for updates of the table, send PING
-- messages and watch over the connections. To find cameras, the program sends ARP, ICMP and TCP
-- packets (src/net/raw) and collects who answers; the network scanner (src/net/discovery.rs) then asks
-- each open port by RTSP (src/net/rtsp) or HTTP (src/net/http.rs), and takes the paths of video streams
-- from files of candidates. The main program (src/main.rs) reads the command
-- line, connects again after each error, and runs the command handler, which starts a scan from
-- time to time or when the service asks for one, and adds what it finds to the shared
-- configuration.
--
-- The files:
--   * Base and its children: the shared helpers; results of calls with their errors and panics
--     (Base/Outcome), methods that change a state (Base/Stateful), hash maps (Base/Dict), bytes.
--   * Net/WriteBuffer: WriteBuffer of src/net/utils.rs, function by function; `discard` is its
--     `drop`. Net/ByteQueue is what it promises, and stands for it in the connection handler.
--   * Net/Timeout, Net/Addr: Timeout and IpAddrEx of src/net/utils.rs, MacAddr of
--     src/net/raw/ether.rs.
--   * Protocol/Message, Protocol/Parser: ArrowMessage and ArrowMessageParser.
--   * Protocol/Control, Protocol/Payload: the messages of control.rs and their payloads.
--   * Protocol/Service, Protocol/ServiceTable: Service and ServiceTable of svc_table.rs.
--   * Protocol/ScanReport: src/net/arrow/protocol/scan_report.rs.
--   * Config: ArrowConfig and AppContext.
--   * Connection/State: the fields of ConnectionHandler, the calls that it makes of the event loop,
--     and what it reads from outside in one event. Connection/Session: SessionContext.
--     Connection/Send: the messages that are sent. Connection/SessionMap: the open sessions.
--     Connection/Requests: the messages that are processed. Connection/Pump: the way of the bytes out. Connection/Events: the loop of
--     read_request, the socket events and the timers, in the source's function names.
--   * Raw/Checksum, Raw/Words, Raw/Ether, Raw/Ip, Raw/Tcp, Raw/Icmp, Raw/Arp: the packets of src/net/raw
--     with their checksums. The traits EtherPacketBody, Ipv4PacketBody and IcmpPacketBody are records
--     of functions; Raw/Stack is about whole frames.
--   * Raw/Pcap: the send-receive service of src/net/raw/pcap.rs. Raw/Ports, Raw/Sweep and the module
--     Scanner below Raw/Arp, Raw/Icmp and Raw/Tcp: the three scanners.
--   * Http/LineReader, Http/Fields, Http/Header, Http/Response, Http/Client: LineReader, the lines and
--     the index of header fields, ResponseHeaderParser, ResponseParser with its two handlers, and
--     Client of src/net/http.rs. Rtsp/Header, Rtsp/Response and Rtsp/Client are the same of
--     src/net/rtsp/mod.rs, which reads lines by the reader of the HTTP client; Rtsp/Sdp/Lines and
--     Rtsp/Sdp/Parser are src/net/rtsp/sdp.rs. Http/Plain and Rtsp/Plain have plain functions for the
--     arguments, for the tests.
--   * Of src/net/discovery.rs: Discovery/Probe asks one device, Discovery/Hosts chooses one service for
--     each host, and Discovery/Scan has the threads and scan_network.
--   * Of src/main.rs: Commands/Retry is the loop of arrow_thread with its timeouts
--     (Commands/Seconds has their numbers), Commands/Parser and Commands/Arguments are
--     AppConfigurationParser, Commands/Services has the services of AppConfiguration, and
--     Commands/Handler is CommandHandler. Commands/Handler/Scans puts the handler beside its
--     scanner's thread and its messages.
--   * The children of these modules hold the proofs; the modules Tests apply them to concrete
--     inputs.
--
-- Conventions. A `u8` is a number below 256 only where a hypothesis says so; sums of machine
-- integers wrap or panic as the source's do, and so do casts. A string is the list of its UTF-8
-- bytes, on the command line that of its character codes. A hash map is an association list in the
-- order in which its entries were inserted. A panic is an outcome; the state that it leaves is the
-- one before the panicking step.
--
-- The loop of read_request gets one round of fuel for each byte that was read; a round of an open
-- parser takes at least one byte, so the fuel is enough. The other loops are structural recursion,
-- and that of fill_output_buffer counts down the length of the session queue as the source does.
--
-- Folding the carries of a checksum gets two rounds, which is enough for 32 bits. Sending the
-- packets of a generator gets a round for each packet and one more, since each round takes a
-- packet. The listener of a scan is looked at for a list of rounds.
--
-- The parsers of HTTP and RTSP responses get a round for each byte of a chunk, since a round takes at
-- least one byte; the parser of session descriptions gets three calls for each byte, since a line
-- takes at least one byte and at most three calls. Reading from a stream is recursion over the list
-- of what its reads give, at whose end the stream is at its end. A step of a parser is a value of
-- Base/Parsing. An error leaves a parser that no caller uses again, and its state is left out.
--
-- A `|` of fields that share no bits is written as a sum, a mask of low bits as a remainder, a
-- shift as a product or a quotient. The machine is little-endian.
--
-- Taken from outside: the clock, the shared context, the answers of the sockets and of the TLS
-- stream, whether a connection can be opened, the spare room of an allocated vector, what stands in
-- memory behind a message, the conversions of bytes to a string, floating-point numbers, what
-- regular expressions capture, the conversions of strings to numbers and to other letters, the
-- connections to devices and what they answer, and what libpcap answers. They are arguments. A probing
-- thread of the network scanner is the result that it is joined for.
--
-- Not modelled: logging and the texts of errors, the JSON form of the configuration, the start of
-- the event loop (mio) and of the TLS connection (OpenSSL), the handles
-- of libpcap and the list of devices, the TCP sockets and the name resolution of the HTTP and RTSP
-- clients, and of src/main.rs the state file, the certificates and the
-- start. A panic of the scanner's thread while it holds the lock of the shared context, which
-- poisons the lock, is left out. An output buffer of the handler takes any number of bytes; running
-- out of memory is left out.
pub mod Base
pub mod Net
pub mod Protocol
pub mod Config
pub mod Connection
pub mod Raw
pub mod Commands
pub mod Http
pub mod Rtsp
pub mod Discovery
