-- ===== src/Listener/Forward.antt =====
-- nebula-listener/src/listener.rs: the two forwarding loops, one round each. `text` is the `String` that UTF-8
-- bytes stand for; reads and writes of the TUN device are arguments and results.
pub mod Justified
pub mod Tests
use nebula_rs.Prelude.{
  ℕ, ◌/◌, ◌^◌, Bool, true, false, Option, none, some, List, [], ◌∷◌, String, nat_eq, ◌==◌,
  if◌then◌else◌,
}
use nebula_rs.Prelude.Bytes.{Bytes}
use nebula_rs.Prelude.Result.{Result, ok, err}
use nebula_rs.Net.{IpAddr, v4, v6, IpNet}
use nebula_rs.Firewall.Packet.{Packet}
use nebula_rs.Firewall.Identity.{PeerIdentity}
use nebula_rs.Firewall.Tree.{RuleSet}
use nebula_rs.Firewall.Engine.{Firewall, FirewallOptions, DropReason, firewall_new, evaluate}
use nebula_rs.Protocol.Error.{Error}
use nebula_rs.Protocol.Transport.{Aead}
use nebula_rs.Protocol.Session.{Inner, Effect, PeerInfo, peer_info}
use nebula_rs.Protocol.Session.Send.{Sent, send}
use nebula_rs.Listener.Parse.{parse}
use nebula_rs.Listener.Identity.{peer_identity}

pub record ListenerConfig (N : Type 0) : Type 0 where
  pub firewall_rules : RuleSet N
  pub firewall_options : FirewallOptions
  pub assigned_networks : List N
  pub unsafe_networks : List N
  pub ca_name : String
  pub ca_sha : String

-- The TUN device is left out.
pub record Shared (N State : Type 0) : Type 0 where
  pub session : Inner State
  pub firewall : Firewall N
  pub ca_name : String
  pub ca_sha : String

-- `IpAddr::is_multicast`: 224.0.0.0/4 and ff00::/8.
abbrev pub is_multicast : IpAddr → Bool
is_multicast (v4 a) = a / 2 ^ 28 == 14
is_multicast (v6 a) = a / 2 ^ 120 == 255

abbrev pub is_ok : Result DropReason (Unit {0}) → Bool
is_ok (err reason) = false
is_ok (ok done) = true

module _ {N State : Type 0} ⦃net : IpNet N⦄ where
  -- `none` is a panic of `Firewall::new`.
  unfoldable pub listener_new : ListenerConfig N → Inner State → Option (Shared N State)
  listener_new config session =
      elim (firewall_new config.firewall_rules config.firewall_options config.assigned_networks
        config.unsafe_networks) [
          | none ↦ none
          | some firewall ↦ some (record {
            session = session;
            firewall = firewall;
            ca_name = config.ca_name;
            ca_sha = config.ca_sha;
          })
        ]

module _ {N State : Type 0} ⦃net : IpNet N⦄ (text : Bytes → String) where
  -- The firewall's part; `none` is a panic of `peer_identity`.
  abbrev pub judge :
      ℕ → Packet → Bool → Option (PeerIdentity N) → Shared N State → Option (Shared N State × Bool)
  judge now p incoming none shared = none
  judge now p incoming (some peer) shared =
      let verdict = evaluate now p incoming peer shared.firewall in
      some (record shared { firewall = verdict.0 }, is_ok verdict.1)

  -- What follows the parsing in either loop: the peer of an address, and the verdict.
  abbrev pub gate :
      ℕ → Packet → Bool → Option PeerInfo → Shared N State → Option (Shared N State × Bool)
  gate now p incoming none shared = some (shared, false)
  gate now p incoming (some info) shared =
      judge now p incoming (peer_identity text info shared.ca_name shared.ca_sha) shared

  -- A round's result: what is written to the device.
  abbrev pub write_if :
      Bytes → Option (Shared N State × Bool) → Option (Shared N State × Option Bytes)
  write_if bytes none = none
  write_if bytes (some (shared, false)) = some (shared, none)
  write_if bytes (some (shared, true)) = some (shared, some bytes)

  abbrev pub inbound :
      ℕ → IpAddr → Bytes → Option Packet → Shared N State → Option (Shared N State × Option Bytes)
  inbound now src bytes none shared = some (shared, none)
  inbound now src bytes (some p) shared =
      write_if bytes (gate now p true (peer_info src shared.session) shared)

  -- A round of `mesh_to_tun`, on what `recv` gave.
  unfoldable pub mesh_to_tun :
      ℕ → IpAddr → Bytes → Shared N State → Option (Shared N State × Option Bytes)
  mesh_to_tun now src bytes shared = inbound now src bytes (parse bytes true) shared

  module _ ⦃aead : Aead⦄ where
    abbrev pub sent_by :
        Shared N State → Option (Sent State) → Option (Shared N State × List Effect)
    sent_by shared none = none
    sent_by shared (some sent) = some (record shared { session = sent.0 }, sent.1)

    abbrev pub send_if :
        IpAddr → Bytes → Option (Shared N State × Bool) → Option (Shared N State × List Effect)
    send_if dst raw none = none
    send_if dst raw (some (shared, false)) = some (shared, [])
    send_if dst raw (some (shared, true)) = sent_by shared (send dst raw shared.session)

    -- The end of a round, with a tunnel or without.
    abbrev pub outbound :
        ℕ → Bytes → Packet → Shared N State → Option (Shared N State × List Effect)
    outbound now raw p shared =
        send_if p.remote_addr raw (gate now p false (peer_info p.remote_addr shared.session) shared)

    -- What `connect` came back with: the state, in which other tasks have gone on, and whether it
    -- succeeded.
    abbrev pub after_connect :
        ℕ → Bytes → Packet → Shared N State × Bool → Option (Shared N State × List Effect)
    after_connect now raw p (shared, false) = some (shared, [])
    after_connect now raw p (shared, true) = outbound now raw p shared

    abbrev pub with_tunnel :
        ℕ
        → (IpAddr → Shared N State → Shared N State × Bool)
        → Bytes
        → Packet
        → Option PeerInfo
        → Shared N State
        → Option (Shared N State × List Effect)
    with_tunnel now connect raw p (some info) shared = outbound now raw p shared
    with_tunnel now connect raw p none shared =
        if is_multicast p.remote_addr
        then some (shared, [])
        else after_connect now raw p (connect p.remote_addr shared)

    abbrev pub outbound_parsed :
        ℕ
        → (IpAddr → Shared N State → Shared N State × Bool)
        → Bytes
        → Option Packet
        → Shared N State
        → Option (Shared N State × List Effect)
    outbound_parsed now connect raw none shared = some (shared, [])
    outbound_parsed now connect raw (some p) shared =
        with_tunnel now connect raw p (peer_info p.remote_addr shared.session) shared

    -- A round of `tun_to_mesh`, on what was read from the device; `connect` is what the call of that
    -- name does.
    unfoldable pub tun_to_mesh :
        ℕ
        → (IpAddr → Shared N State → Shared N State × Bool)
        → Bytes
        → Shared N State
        → Option (Shared N State × List Effect)
    tun_to_mesh now connect raw shared = outbound_parsed now connect raw (parse raw false) shared
