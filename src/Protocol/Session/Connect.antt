-- ===== src/Protocol/Session/Connect.antt =====
-- nebula-protocol/src/session.rs: `connect` with the `resolve` it begins with, as a task that gives the lock
-- away between its critical sections; the other tasks of the session take steps there.
pub mod Signals
pub mod Wakes
pub mod Waits
pub mod Reaches
use nebula_rs.Prelude.{ℕ, ◌≡◌, ◌≢◌, Option, none, some, List, [], ◌∷◌, ◌⊎◌}
use nebula_rs.Prelude.Result.{Result, ok, err}
use nebula_rs.Net.{IpAddr}
use nebula_rs.Protocol.Error.{Error}
use nebula_rs.Protocol.Transport.{Aead}
use nebula_rs.Protocol.Wire.{Prost}
use nebula_rs.Protocol.Handshake.{Noise}
use nebula_rs.Protocol.Lighthouse.{SocketAddr}
use nebula_rs.Protocol.Cert.Certificate.Verify.{Crypto}
use nebula_rs.Protocol.Session.{Inner, Effect, wake, answer}
use nebula_rs.Protocol.Session.Receive.{World}
use nebula_rs.Protocol.Session.Send.{
  Outcome, received, Sent, known_addr, await_lighthouse, query, resolve_result, start_handshake,
  connect_result,
}
use nebula_rs.Protocol.Session.Steps.{Step}
use nebula_rs.Protocol.Session.Inbox.OtherPackets.{Has}

-- The address, and the channels that this call makes.
pub record Call : Type 0 where
  pub vpn_addr : IpAddr
  pub answers : ℕ
  pub channel : ℕ

-- Where the task is: before the first or the second block of `resolve`, with these lighthouses left to
-- ask and then with their answer to wait for, before its own block, at its wait, or at its end.
pub data Stage : Type 0 where
  looking registering : Stage
  asking : List IpAddr → Stage
  dialing : SocketAddr → Stage
  waiting : Stage
  finished : Result Error (Unit {0}) → Stage

abbrev pub looked : Option SocketAddr → Stage
looked none = registering
looked (some addr) = dialing addr

-- `self.resolve(vpn_addr).await?`
abbrev pub resolved : Result Error SocketAddr → Stage
resolved (err e) = finished (err e)
resolved (ok addr) = dialing addr

abbrev pub dialed : Result Error (Unit {0}) → Stage
dialed (err e) = finished (err e)
dialed (ok done) = waiting

-- Among the effects of some steps.
abbrev pub Happened : Effect → List (List Effect) → Type 0
Happened e [] = ⊥
Happened e (es ∷ past) = Has e es ⊎ Happened e past

-- A receiver gets what was sent to its channel.
abbrev pub Told : {A : Type 0} → (A → Effect) → List (List Effect) → Outcome A → Type 0
Told {A = A} sending past outcome = (a : A) → outcome ≡ received a → Happened (sending a) past

module _ ⦃crypto : Crypto⦄ ⦃aead : Aead⦄ ⦃noise : Noise⦄ ⦃prost : Prost⦄ where
  -- The critical sections and the waits of the task, with its next stage.
  pub data Move (call : Call) (past : List (List Effect)) (inner : Inner noise.State)
      : Stage → List Effect → Stage → Inner noise.State → Type 0 where
    looks : Move call past inner looking [] (looked (known_addr call.vpn_addr inner)) inner
    registers :
        Move call past inner registering
          (await_lighthouse call.vpn_addr call.answers inner).1
          (asking inner.lighthouses)
          (await_lighthouse call.vpn_addr call.answers inner).0
    asks :
        (lh : IpAddr) (rest : List IpAddr) (out : Sent noise.State)
        → query call.vpn_addr lh inner ≡ some out
        → Move call past inner (asking (lh ∷ rest)) out.1 (asking rest) out.0
    hears :
        (outcome : Outcome (List SocketAddr))
        → Told (answer call.answers) past outcome
        → Move call past inner
            (asking [])
            []
            (resolved (resolve_result call.vpn_addr outcome))
            inner
    dials :
        (world : World) (remote : SocketAddr) (out : Sent noise.State)
        → start_handshake world call.vpn_addr remote call.channel inner ≡ some out
        → Move call past inner (dialing remote) out.1 (dialed out.2) out.0
    ends :
        (outcome : Outcome (Unit {0}))
        → Told (λ done. wake call.channel) past outcome
        → Move call past inner waiting [] (finished (connect_result outcome)) inner

  -- The steps of other tasks make other channels.
  abbrev pub Foreign :
      {inner inner' : Inner noise.State} {es : List Effect} → ℕ → Step inner es inner' → Type 0
  Foreign channel (Step.received world datagram from out h) = Unit
  Foreign channel (Step.sent a type_ payload out h) = Unit
  Foreign channel (Step.connecting world a remote other out h) = other ≢ channel
  Foreign channel (Step.resolving a other) = Unit

  -- A call, with what was done since, the last first.
  pub data Run (call : Call) (start : Inner noise.State)
      : List (List Effect) → Stage → Inner noise.State → Type 0 where
    called : Run call start [] looking start
    moves :
        {past : List (List Effect)} {es : List Effect} {stage stage' : Stage}
        {inner inner' : Inner noise.State}
        → Run call start past stage inner
        → Move call past inner stage es stage' inner'
        → Run call start (es ∷ past) stage' inner'
    meanwhile :
        {past : List (List Effect)} {es : List Effect} {stage : Stage}
        {inner inner' : Inner noise.State}
        → Run call start past stage inner
        → (s : Step inner es inner') → Foreign call.channel s
        → Run call start (es ∷ past) stage inner'
