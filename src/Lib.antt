-- ===== src/Lib.antt =====
-- nebula-rs: a Nebula overlay network host, its stateful firewall, its protocol engine and the
-- listener between the two. This library models the decision logic of the crates and proves what it
-- is for.
--
-- How the parts interact: the listener reads a packet from the TUN device or from a session, parses
-- it into a five-tuple, and asks the firewall, which has the rule tables that a builder made, a
-- table of tracked flows, and the peer's identity from its verified certificate. A session makes its
-- peers by handshakes, in which certificates are verified, seals and opens packets with each peer's
-- transport, and learns addresses from lighthouse messages.
--
-- Files, and the code they model:
-- - Prelude: the natives, lists, maps and results that the models share. A HashMap is an
--   association list; no property depends on its iteration order. i32 is the integers in
--   Prelude.Int, since the source only compares and counts them.
-- - Net: std::net::IpAddr, and the ipnet crate as a record of operations with its documented laws,
--   which Prefix instantiates.
-- - Firewall.Packet, Identity: nebula-firewall/src/packet.rs, identity.rs.
-- - Firewall.Tree, Builder: nebula-firewall/src/rule/tree.rs and builder.rs. RuleSpec says what one
--   rule allows, with no table; Builder.Peer, Ports, Sound and Policy relate the two.
-- - Firewall.Conntrack: nebula-firewall/src/conntrack.rs. The binary heap is the list of its slots in
--   pop order; the loop of purge_expired takes the number of slots as its fuel, which
--   Conntrack.Purge shows to be enough. Instants and durations are numbers of nanoseconds.
-- - Firewall.Engine: nebula-firewall/src/firewall.rs (Firewall::new, reload, evaluate). The clock is
--   an argument. A call of evaluate reads the rules once, as the code does under its read lock; calls
--   are taken one after the other.
-- - Protocol.Header: nebula-protocol/src/header.rs.
-- - Protocol.Window, Transport: nebula-protocol/src/transport.rs. A word of the window keeps its 64 bits
--   by `% 2 ^ 64`; the AEAD crates are the record Aead. A copy into a buffer that is too short, which
--   panics, is `none`.
-- - Protocol.Cert: nebula-protocol/src/cert/der.rs and verify.rs. A Reader is the bytes that it has left; a
--   String is its UTF-8 bytes, checked as from_utf8 does. Ed25519, SHA-256 and hex are the record Crypto.
-- - Listener.Parse: nebula-listener/src/packet.rs. The loop of parse_ipv6 takes one round more than there
--   are bytes, which Listener.Parse.Walk shows to be enough.
-- - Protocol.Cert.Pem: nebula-protocol/src/cert/pem.rs, over the crate pem as the record PemCrate.
-- - Protocol.Wire: the messages of nebula-protocol/proto/nebula.proto; what prost generates is the record
--   Prost.
-- - Protocol.Lighthouse: nebula-protocol/src/lighthouse.rs.
-- - Protocol.Handshake: nebula-protocol/src/handshake.rs, over the crate snow as the record Noise, whose
--   handshakes are functions of the random numbers they are given.
-- - Protocol.Session: nebula-protocol/src/session.rs. The state is Inner, without the socket and the
--   channels; what is done to those is a list of Effects. Receive has the handlers of datagrams
--   (handle_handshake, handle_message, handle_lighthouse_packet), Send the critical sections of
--   send_typed, resolve and connect. The clock is the argument World; the loop of allocate_index runs on
--   a list of readings, and Failure shows that one good reading is enough. A panic is none. Change says
--   what a step may do to the tables of peers, Leads that every step does one of these, Steps has the
--   reachable states: any order of critical sections. Establish follows a handshake through both hosts.
--   Connect is connect with its resolve as a task: it takes its critical sections one by one, and other
--   tasks take theirs in between.
-- - Protocol.Session.Toy: instances of Noise and Prost, on which the examples run.
-- - Listener.Identity: nebula-listener/src/identity.rs.
-- - Listener.Forward: the rounds of tun_to_mesh and mesh_to_tun in nebula-listener/src/listener.rs. A call of
--   connect is a function on the listener's state, so other tasks may take steps in it; between the
--   other calls of a round they take none.
--
-- Not modelled: the loop of register_with_lighthouses around connect and send_typed, the other tasks
-- and channels of tokio, the TUN device and the sockets, the code that prost generates, and logging.
pub mod Prelude
pub mod Net
pub mod Firewall
pub mod Protocol
pub mod Listener
