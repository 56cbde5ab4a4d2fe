-- ===== src/Protocol/Session/Steps.antt =====
-- The steps of a session and the states that it reaches. A step holds the lock from its beginning to its end,
-- so the tasks of a session show as any order of steps.
use nebula_rs.Prelude.{ℕ, ◌≡◌, refl, some, List, [], ◌∷◌, nat_eq}
use nebula_rs.Prelude.Bytes.{Bytes}
use nebula_rs.Net.{IpAddr, addr_eq}
use nebula_rs.Protocol.Transport.{Aead}
use nebula_rs.Protocol.Wire.{Prost}
use nebula_rs.Protocol.Handshake.{Noise}
use nebula_rs.Protocol.Lighthouse.{SocketAddr}
use nebula_rs.Protocol.Cert.Certificate.Verify.{Crypto}
use nebula_rs.Protocol.Session.{Inner, Effect}
use nebula_rs.Protocol.Session.Receive.{World, receive}
use nebula_rs.Protocol.Session.Send.{Sent, send_typed, await_lighthouse, start_handshake}
use nebula_rs.Protocol.Session.Leads.{Leads, view, unchanged, send_typed-Leads}
use nebula_rs.Protocol.Session.Leads.Handshakes.{receive-Leads, begin_with-Leads}

module _ ⦃crypto : Crypto⦄ ⦃aead : Aead⦄ ⦃noise : Noise⦄ ⦃prost : Prost⦄ where
  -- One critical section, with its effects and the state after it.
  pub data Step (inner : Inner noise.State) : List Effect → Inner noise.State → Type 0 where
    received :
        (world : World) (datagram : Bytes) (from : SocketAddr)
        (out : Inner noise.State × List Effect)
        → receive world datagram from inner ≡ some out
        → Step inner out.1 out.0
    sent :
        (a : IpAddr) (type_ : ℕ) (payload : Bytes) (out : Sent noise.State)
        → send_typed a type_ payload inner ≡ some out
        → Step inner out.1 out.0
    connecting :
        (world : World) (a : IpAddr) (remote : SocketAddr) (channel : ℕ) (out : Sent noise.State)
        → start_handshake world a remote channel inner ≡ some out
        → Step inner out.1 out.0
    resolving :
        (a : IpAddr) (channel : ℕ)
        → Step inner (await_lighthouse a channel inner).1 (await_lighthouse a channel inner).0

  pub Step-Leads :
      {inner inner' : Inner noise.State} {es : List Effect}
      → Step inner es inner'
      → Leads inner (view inner')
  unfolding start_handshake await_lighthouse
  Step-Leads (Step.received world datagram from out h) = receive-Leads world datagram from _ out h
  Step-Leads (Step.sent a type_ payload out h) = send_typed-Leads a type_ payload _ out h
  Step-Leads (Step.connecting world a remote channel out h) =
      let l = begin_with-Leads world remote _ _ _ out refl h in
      record { tables = l.tables; fixed = l.fixed }
  Step-Leads (Step.resolving a channel) = unchanged _

  -- The states of a session that starts with no peers, and their history of effects, the last first.
  pub data Reach (start : Inner noise.State) : List (List Effect) → Inner noise.State → Type 0 where
    started : start.peers_by_index ≡ [] → start.index_by_vpn_addr ≡ [] → Reach start [] start
    then :
        {inner inner' : Inner noise.State} {past : List (List Effect)} {es : List Effect}
        → Reach start past inner
        → Step inner es inner'
        → Reach start (es ∷ past) inner'

  -- Any number of steps.
  pub data Steps (inner : Inner noise.State) : Inner noise.State → Type 0 where
    stay : Steps inner inner
    more :
        {inner' inner'' : Inner noise.State} {es : List Effect}
        → Steps inner inner'
        → Step inner' es inner''
        → Steps inner inner''
