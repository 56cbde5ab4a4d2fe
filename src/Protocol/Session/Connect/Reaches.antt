-- ===== src/Protocol/Session/Connect/Reaches.antt =====
-- A call of `connect` that succeeds leaves a peer.
use nebula_rs.Prelude.{◌≡◌, ◌≢◌, refl, Option, none, some, List, [], ◌∷◌, nat_eq, inr}
use nebula_rs.Prelude.Map.{get}
use nebula_rs.Prelude.Result.{Result, ok, err}
use nebula_rs.Net.{IpAddr, addr_eq}
use nebula_rs.Protocol.Error.{Error}
use nebula_rs.Protocol.Header.MessageType.{lighthouse}
use nebula_rs.Protocol.Transport.{Aead}
use nebula_rs.Protocol.Wire.{Prost}
use nebula_rs.Protocol.Handshake.{Noise}
use nebula_rs.Protocol.Lighthouse.{SocketAddr}
use nebula_rs.Protocol.Cert.Certificate.Verify.{Crypto}
use nebula_rs.Protocol.Session.{Established, Inner, Effect, wake, info_of, peer_info}
use nebula_rs.Protocol.Session.Send.{
  Outcome, timed_out, dropped, received, known_addr, query, resolve_result, connect_result,
}
use nebula_rs.Protocol.Session.Change.{Verified}
use nebula_rs.Protocol.Session.Steps.{Step, Reach}
use nebula_rs.Protocol.Session.Invariant.{Reach-TablesInv}
use nebula_rs.Protocol.Session.Connect.{
  Call, Stage, looking, registering, asking, dialing, waiting, finished, looked, resolved, dialed,
  Happened, Move, Run,
}
use nebula_rs.Protocol.Session.Connect.Waits.{Waits, dialed-Waits, Step-Waits, nothing-Waits}

module _ ⦃crypto : Crypto⦄ ⦃aead : Aead⦄ ⦃noise : Noise⦄ ⦃prost : Prost⦄ where
  -- A move of the call is a step of the session, or leaves the state alone.
  data Acts (call : Call) (past : List (List Effect)) (inner : Inner noise.State)
      : List Effect → Inner noise.State → Type 0 where
    rests : Acts call past inner [] inner
    steps :
        {es : List Effect} {inner' : Inner noise.State} (s : Step inner es inner')
        → (Waits call past inner → Waits call (es ∷ past) inner')
        → Acts call past inner es inner'

  Move-Acts :
      {call : Call} {past : List (List Effect)} {inner : Inner noise.State} {stage : Stage}
      {es : List Effect} {stage' : Stage} {inner' : Inner noise.State}
      → Move call past inner stage es stage' inner'
      → Acts call past inner es inner'
  unfolding query
  Move-Acts Move.looks = Acts.rests
  Move-Acts {call = call} Move.registers =
      let s = Step.resolving call.vpn_addr call.answers in Acts.steps s (λ w. Step-Waits w s tt)
  Move-Acts {call = call} (Move.asks lh rest out h) =
      let s = Step.sent lh lighthouse _ out h in Acts.steps s (λ w. Step-Waits w s tt)
  Move-Acts (Move.hears outcome told) = Acts.rests
  Move-Acts {call = call} (Move.dials world remote out h) =
      Acts.steps (Step.connecting world call.vpn_addr remote call.channel out h)
        (λ w. dialed-Waits world call.vpn_addr remote call.channel out w h (λ e. refl))
  Move-Acts (Move.ends outcome told) = Acts.rests

  Acts-Waits :
      {call : Call} {past : List (List Effect)} {es : List Effect}
      {inner inner' : Inner noise.State}
      → Acts call past inner es inner'
      → Waits call past inner
      → Waits call (es ∷ past) inner'
  Acts-Waits Acts.rests w = nothing-Waits w
  Acts-Waits (Acts.steps s keeps) w = keeps w

  Acts-Reach :
      {call : Call} {past : List (List Effect)} {es : List Effect}
      {start inner inner' : Inner noise.State}
      → Acts call past inner es inner'
      → ((before : List (List Effect)) × Reach start before inner)
      → (before : List (List Effect)) × Reach start before inner'
  Acts-Reach Acts.rests r = r
  Acts-Reach (Acts.steps s keeps) (before, r) = (_, Reach.then r s)

  Run-Waits :
      {call : Call} {start opening : Inner noise.State} {before past : List (List Effect)}
      {stage : Stage} {inner : Inner noise.State}
      → Reach start before opening
      → ((b : IpAddr) → get b opening.connected ≢ some call.channel)
      → Run call opening past stage inner
      → Waits call past inner × ((before' : List (List Effect)) × Reach start before' inner)
  Run-Waits r new Run.called =
      (record { only = λ b h. absurd (new b h); woken = λ never. absurd never }, (_, r))
  Run-Waits r new (Run.moves run m) =
      let (w, reach) = Run-Waits r new run in
      (Acts-Waits (Move-Acts m) w, Acts-Reach (Move-Acts m) reach)
  Run-Waits r new (Run.meanwhile run s f) =
      let (w, (_, reach)) = Run-Waits r new run in (Step-Waits w s f, (_, Reach.then reach s))

  -- A call that has succeeded was woken.
  abbrev Claims : Call → List (List Effect) → Stage → Type 0
  Claims call past (finished (ok done)) = Happened (wake call.channel) past
  Claims call past _ = Unit

  looked-Claims :
      (call : Call) (past : List (List Effect)) (o : Option SocketAddr)
      → Claims call past (looked o)
  looked-Claims call past none = tt
  looked-Claims call past (some addr) = tt

  resolved-Claims :
      (call : Call) (past : List (List Effect)) (r : Result Error SocketAddr)
      → Claims call past (resolved r)
  resolved-Claims call past (err e) = tt
  resolved-Claims call past (ok addr) = tt

  dialed-Claims :
      (call : Call) (past : List (List Effect)) (r : Result Error (Unit {0}))
      → Claims call past (dialed r)
  dialed-Claims call past (err e) = tt
  dialed-Claims call past (ok done) = tt

  ended-Claims :
      (call : Call) (past : List (List Effect)) (outcome : Outcome (Unit {0}))
      → ((done : Unit) → outcome ≡ received done → Happened (wake call.channel) past)
      → Claims call ([] ∷ past) (finished (connect_result outcome))
  unfolding connect_result
  ended-Claims call past timed_out told = tt
  ended-Claims call past dropped told = tt
  ended-Claims call past (received done) told = inr (told done refl)

  Move-Claims :
      {call : Call} {past : List (List Effect)} {inner : Inner noise.State} {stage : Stage}
      {es : List Effect} {stage' : Stage} {inner' : Inner noise.State}
      → Move call past inner stage es stage' inner'
      → Claims call (es ∷ past) stage'
  Move-Claims {call = call} {past = past} {inner = inner} Move.looks =
      looked-Claims call ([] ∷ past) (known_addr call.vpn_addr inner)
  Move-Claims Move.registers = tt
  Move-Claims (Move.asks lh rest out h) = tt
  Move-Claims {call = call} {past = past} (Move.hears outcome told) =
      resolved-Claims call ([] ∷ past) (resolve_result call.vpn_addr outcome)
  Move-Claims {call = call} {past = past} (Move.dials world remote out h) =
      dialed-Claims call (out.1 ∷ past) out.2
  Move-Claims {call = call} {past = past} (Move.ends outcome told) =
      ended-Claims call past outcome told

  later-Claims :
      (call : Call) (past : List (List Effect)) (es : List Effect) (stage : Stage)
      → Claims call past stage
      → Claims call (es ∷ past) stage
  later-Claims call past es looking c = tt
  later-Claims call past es registering c = tt
  later-Claims call past es (asking lhs) c = tt
  later-Claims call past es (dialing remote) c = tt
  later-Claims call past es waiting c = tt
  later-Claims call past es (finished (err e)) c = tt
  later-Claims call past es (finished (ok done)) c = inr c

  Run-Claims :
      {call : Call} {opening : Inner noise.State} {past : List (List Effect)} {stage : Stage}
      {inner : Inner noise.State}
      → Run call opening past stage inner
      → Claims call past stage
  Run-Claims Run.called = tt
  Run-Claims (Run.moves run m) = Move-Claims m
  Run-Claims {call = call} (Run.meanwhile {past = past} {es = es} {stage = stage} run s f) =
      later-Claims call past es stage (Run-Claims run)

  -- If a call of connect returns ok, in a session that started with no peers and by a channel that
  -- is new, then, whatever other tasks have done under the lock in between that makes no use of
  -- that channel for a connect of its own, the session ends with a peer for the address, as
  -- peer_info finds it: established, with that address, and with a certificate that was verified
  -- against the session's CA.
  pub Run-connected :
      {call : Call} {past before : List (List Effect)} {start opening inner : Inner noise.State}
      → Reach start before opening
      → ((b : IpAddr) → get b opening.connected ≢ some call.channel)
      → Run call opening past (finished (ok tt)) inner
      → (p : Established) × Verified start.ca_cert p
        × (p.vpn_addr ≡ call.vpn_addr)
        × (peer_info call.vpn_addr inner ≡ some (info_of p.cert))
  unfolding peer_info
  Run-connected {call = call} {inner = inner} r new run =
      let (w, (_, reach)) = Run-Waits r new run in
      let inv = (Reach-TablesInv reach).0 in
      let (i, leads) = w.woken (Run-Claims run) in
      let (p, found, named) = inv.leads call.vpn_addr i leads in
      (p, (inv.sound i _ found).1.verified, named, rw (leads, found) refl)
