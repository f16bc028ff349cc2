-- ===== src/Lib.antt =====
-- Verification of the core of OSTP: the session protocol that runs over UDP or a stream, in the
-- crate ostp-core; the server's dispatcher, which holds the sessions, its users and its connection
-- limiter; two parsers of the client's tunnel; and the rules of the DNS filter.
--
-- A session (`ProtocolMachine`, ostp-core/src/protocol.rs) takes events: start, a datagram from the
-- network, a payload from the application, close, and a timer tick. It answers with actions:
-- datagrams to send and payloads to deliver. It goes through a Noise handshake, then encrypts frames
-- under explicit nonces, orders what it receives by these nonces, acknowledges with ranges of nonces,
-- and sends again what is not acknowledged, under a congestion window. Each part is a module here:
--
-- * Machine is ostp-core/src/protocol.rs: Machine.antt has the state, the configuration, the events and
--   the actions; Machine/Send builds datagrams (`build_datagram`, `wrap_datagram_handshake`, the
--   acknowledgements); Machine/Gap is `recover_stalled_gap`; Machine/Feedback is what Nack and Ack
--   frames do; Machine/Receive is `handle_data_inbound`; Machine/Tick is `handle_tick`; Machine/Events
--   has `on_event` and the handshake.
-- * Reorder, Acks and History are the loops of protocol.rs over the reorder buffer, the ranges of an
--   acknowledgement and the frames that were sent.
-- * Congestion is ostp-core/src/congestion.rs, Framing is ostp-core/src/framing/frame.rs and padding.rs,
--   Relay is ostp-core/src/relay.rs, Obfuscation is ostp-core/src/crypto/obfuscation.rs, Noise is noise.rs and
--   aead.rs of the same folder.
-- * Slices has the accesses to bytes by index and range, whose failure is a panic of the model; Sniff and
--   Reassembly read through it.
-- * Sniff is `extract_sni` of ostp-client/src/tunnel/sni_sniff.rs, by which the tunnel finds the server name
--   of a connection.
-- * Dispatcher is ostp-server/src/dispatcher.rs: Dispatcher.antt has the state; Dispatcher/Caches the derived
--   secrets and junk markers; Dispatcher/Known a datagram of a known session (`on_datagram` up to its
--   answer, with roaming, and `drop_session`); Dispatcher/Handshake the trial of the access keys on any
--   other datagram; Dispatcher/Calls the calls `on_datagram`, `outbound_to_session` and `on_tick`, which
--   drive the sessions of Machine. Dispatcher/Life is any sequence of calls, with changes of the users
--   between them, and Dispatcher/Rules says which predicates of the session table and the replay cache all
--   calls keep. Bounds, Expiry, Opening, Roaming, Sessions and Deletion there have the theorems.
-- * Users has the access keys and traffic counters that the dispatcher shares with the management API;
--   Users/Api is the handlers of ostp-server/src/api.rs that change them.
-- * Limiter is ostp-server/src/transport/limiter.rs, with an abstract limiter in Limiter/Refinement.
-- * Uot is the framing of ostp-server/src/transport/uot.rs.
-- * Reassembly is ostp-client/src/tunnel/ip_reasm.rs: the packets in Reassembly.antt, the groups of fragments
--   in Reassembly/Groups.
-- * Filter is ostp-dns/src/filter.rs: the tables and the verdict in Filter.antt, the matching of patterns in
--   Filter/Glob, a reference for it in Filter/Glob/Matching.
-- * Dict is `HashMap` and `BTreeMap` as association lists.
-- * Outcome and Op are results and the methods on a mutable state: an operation returns a result and
--   the state it leaves, on an error and on a panic too. Machine/Steady says which predicates every
--   change of a session keeps, one law for a change; Machine/Session runs a session for its whole life
--   and has the invariants. Machine/Delivery has both ends of a session.
-- * Prelude has the shared names, lists over the native numbers, words and bytes. Tests has runs on
--   concrete inputs, with toy stand-ins for the crates.
--
-- Numbers: a `Duration` and an `Instant` are nanoseconds, and an event reads the clock once, as its
-- argument `now`; the source reads it again at each use, within one call. A byte is a number, with
-- `IsByte` where the bound matters. The wrap-around of u64 and u32 and the saturating operations are
-- written out as in a release build. `BTreeMap` and `VecDeque` are lists. A nested `Vec` of actions is
-- the data type `Actions`.
--
-- Fuel: draining the reorder buffer takes one entry out in a round, so its length is the fuel and
-- never runs out before the buffer does (`Drains` in Reorder/Sorted); the rounds of HKDF have the number
-- of bytes wanted as fuel, and a round gives 32 of them (Obfuscation/Secrets); the loop of
-- `extract_sni` has one more than the length of the data, each round moves on by four bytes, and
-- without fuel it would panic (Sniff/Answers); the loop of `glob` has one round for each byte of the text
-- and one more, each of a step for each byte of the pattern and one more (Filter/Glob/Matching/Ends); the
-- carries of a checksum are added three times, which a u32 does not exceed; the reader of a stream has a step for each byte, and
-- a frame has two at least (Uot/Streams).
--
-- Parameters (External.antt): the crates rand, snow, chacha20poly1305, sha2 and hmac, and the operations
-- on f64. The laws assumed are those of the crates' documentation: ranges and lengths of what rand,
-- sha2 and hmac give, and that what was encrypted decrypts again and is 16 bytes longer. Of f64 and
-- snow nothing is assumed. The random generator is a function of the number of the draw, which the
-- session counts in the field `draws`.
--
-- The server: a call on the dispatcher reads each clock once, and the readings are an argument; the
-- random draws of a session are counted in that session. The calls and the requests of the API are not
-- interleaved with each other, where the source locks the two maps of the users one by one. The walks
-- over a `HashMap` go in the order of the list. The addition of the counters and the difference of
-- times are those of a release build. A socket address is of any type with an equality.
--
-- Not modelled: logging and error messages; the read-only snapshots of the dispatcher; of the API all
-- but the users; the text of filter lists; and the rest of the client, the server and the other crates
-- of the repository (sockets, relay, DNS queries, TUN, SSH, command line and user interfaces), which
-- carry datagrams and payloads between sockets and sessions; the share links and subscriptions of
-- ostp-core, which are text formats.
pub mod Prelude
pub mod Dict
pub mod External
pub mod Outcome
pub mod Congestion
pub mod Framing
pub mod Relay
pub mod Obfuscation
pub mod Reorder
pub mod Acks
pub mod History
pub mod Op
pub mod Noise
pub mod Slices
pub mod Sniff
pub mod Users
pub mod Dispatcher
pub mod Uot
pub mod Reassembly
pub mod Filter
pub mod Limiter
pub mod Machine
pub mod Tests
