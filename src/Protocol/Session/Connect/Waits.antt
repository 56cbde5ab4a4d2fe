-- ===== src/Protocol/Session/Connect/Waits.antt =====
-- What holds of the channel of a call of `connect`, from step to step.
use nebula_rs.Prelude.{
  ℕ, ◌≡◌, refl, sym, subst, ◌∙◌, Option, some, List, [], ◌∷◌, nat_eq, ◌==◌, inl, inr, Bool-cases,
}
use nebula_rs.Prelude.Map.{get, insert, insert_found, get-insert}
use nebula_rs.Net.{IpAddr, addr_eq}
use nebula_rs.Protocol.Transport.{Aead}
use nebula_rs.Protocol.Wire.{Prost}
use nebula_rs.Protocol.Handshake.{Noise}
use nebula_rs.Protocol.Lighthouse.{SocketAddr}
use nebula_rs.Protocol.Cert.Certificate.{Certificate}
use nebula_rs.Protocol.Cert.Certificate.Verify.{Crypto}
use nebula_rs.Protocol.Session.{Peers, Inner, Effect, wake}
use nebula_rs.Protocol.Session.Receive.{World}
use nebula_rs.Protocol.Session.Send.{Sent, await_lighthouse, start_handshake}
use nebula_rs.Protocol.Session.Change.{Index, Change}
use nebula_rs.Protocol.Session.Steps.{Step, Step-Leads}
use nebula_rs.Protocol.Session.Connect.{Call, Happened, Foreign}
use nebula_rs.Protocol.Session.Connect.Signals.{
  Mute, replaced_alone-Mute, SilentSent, Tells, TellsOut, Silent-Tells, send_typed-Silent,
}
use nebula_rs.Protocol.Session.Connect.Wakes.{receive-Tells, begin_with-Silent}

insert_leads :
    (b a : IpAddr) (i j : ℕ) (index : Index)
    → get a index ≡ some j
    → (k : ℕ) × (get a (insert b i index) ≡ some k)
insert_leads b a i j index h = elim (Bool-cases (b == a)) [
  | inl same ↦ (i, get-insert b a i index ∙ rw same refl)
  | inr other ↦ (j, get-insert b a i index ∙ rw other h)
]

module _ ⦃crypto : Crypto⦄ ⦃aead : Aead⦄ {State : Type 0} where
  -- An address that leads somewhere goes on to.
  Change-leads :
      {ca : Certificate} {peers peers' : Peers State} {index index' : Index} (a : IpAddr) (j : ℕ)
      → Change ca peers index peers' index'
      → get a index ≡ some j
      → (k : ℕ) × (get a index' ≡ some k)
  Change-leads a j Change.kept h = (j, h)
  Change-leads a j (Change.began i hs set free) h = (j, h)
  Change-leads a j (Change.failed i hs waits) h = (j, h)
  Change-leads a j (Change.answered i p set free new) h = insert_leads p.vpn_addr a i j _ h
  Change-leads a j (Change.completed i hs p waits new) h = insert_leads p.vpn_addr a i j _ h
  Change-leads a j (Change.used i p t found u) h = (j, h)

module _ ⦃crypto : Crypto⦄ ⦃aead : Aead⦄ ⦃noise : Noise⦄ ⦃prost : Prost⦄ where
  -- What holds of a call's channel: it is kept for the call's address alone, and once it was used
  -- that address leads to a peer.
  pub record Waits (call : Call) (past : List (List Effect)) (inner : Inner noise.State)
      : Type 0 where
    pub only : (b : IpAddr) → get b inner.connected ≡ some call.channel → b ≡ call.vpn_addr
    pub woken :
        Happened (wake call.channel) past
        → (i : ℕ) × (get call.vpn_addr inner.index_by_vpn_addr ≡ some i)

  received-Tells :
      (world : World) (o : Option (Inner noise.State × List Effect)) (inner : Inner noise.State)
      (out : Inner noise.State × List Effect)
      → o ≡ some out
      → TellsOut inner o
      → Tells inner out
  received-Tells world o inner out h t = subst (λ x. TellsOut inner x) h t

  Tells-Waits :
      {call : Call} {past : List (List Effect)} {inner : Inner noise.State}
      (out : Inner noise.State × List Effect)
      → Waits call past inner
      → Step inner out.1 out.0
      → Tells inner out
      → Waits call (out.1 ∷ past) out.0
  Tells-Waits {call = call} {past = past} {inner = inner} out w s t = record {
    only = λ b h. w.only b (t.kept b call.channel h);
    woken = λ h. woken h;
  }
    where
      woken :
          Happened (wake call.channel) (out.1 ∷ past)
          → (i : ℕ) × (get call.vpn_addr out.0.index_by_vpn_addr ≡ some i)
      woken (inl now) =
          let (b, kept, leads) = t.waking call.channel now in
          subst (λ a. (i : ℕ) × (get a out.0.index_by_vpn_addr ≡ some i)) (w.only b kept) leads
      woken (inr before) =
          let (j, leads) = w.woken before in
          Change-leads call.vpn_addr j (Step-Leads s).tables leads

  -- A handshake is begun for the address `b`, with a new channel.
  pub dialed-Waits :
      {call : Call} {past : List (List Effect)} {inner : Inner noise.State} (world : World)
      (b : IpAddr) (remote : SocketAddr) (channel : ℕ) (out : Sent noise.State)
      → Waits call past inner
      → start_handshake world b remote channel inner ≡ some out
      → (channel ≡ call.channel → b ≡ call.vpn_addr)
      → Waits call (out.1 ∷ past) out.0
  unfolding start_handshake
  dialed-Waits {call = call} {past = past} {inner = inner} world b remote channel out w h own =
      let (same, mute) = begin_with-Silent world remote _ _ _ out h in
      record {
        only = λ c found. only c (subst (λ m. get c m ≡ some call.channel) same found);
        woken = λ k. woken mute k;
      }
    where
      only :
          (c : IpAddr)
          → get c (insert b channel inner.connected) ≡ some call.channel
          → c ≡ call.vpn_addr
      only c found = elim (insert_found b c channel call.channel inner.connected found) [
        | inl (here, new) ↦ sym here ∙ own new
        | inr (other, old) ↦ w.only c old
      ]

      woken :
          Mute out.1
          → Happened (wake call.channel) (out.1 ∷ past)
          → (i : ℕ) × (get call.vpn_addr out.0.index_by_vpn_addr ≡ some i)
      woken mute (inl now) = absurd (mute call.channel now)
      woken mute (inr before) =
          let (j, leads) = w.woken before in
          Change-leads call.vpn_addr j
            (Step-Leads (Step.connecting world b remote channel out h)).tables leads

  pub Step-Waits :
      {call : Call} {past : List (List Effect)} {inner : Inner noise.State} {es : List Effect}
      {inner' : Inner noise.State}
      → Waits call past inner
      → (s : Step inner es inner') → Foreign call.channel s
      → Waits call (es ∷ past) inner'
  unfolding await_lighthouse
  Step-Waits {inner = inner} w (Step.received world datagram from out h) f =
      Tells-Waits out w (Step.received world datagram from out h)
        (received-Tells world _ inner out h (receive-Tells world datagram from inner))
  Step-Waits {inner = inner} w (Step.sent a type_ payload out h) f =
      Tells-Waits (out.0, out.1) w (Step.sent a type_ payload out h)
        (Silent-Tells inner _
          (subst (λ x. SilentSent inner x) h (send_typed-Silent a type_ payload inner)))
  Step-Waits w (Step.connecting world b remote other out h) f =
      dialed-Waits world b remote other out w h (λ e. absurd (f e))
  Step-Waits {inner = inner} w (Step.resolving a other) f =
      Tells-Waits (await_lighthouse a other inner) w (Step.resolving a other)
        (Silent-Tells inner _ (refl, replaced_alone-Mute (get a inner.lighthouse_waiters)))

  pub nothing-Waits :
      {call : Call} {past : List (List Effect)} {inner : Inner noise.State}
      → Waits call past inner
      → Waits call ([] ∷ past) inner
  nothing-Waits {call = call} {past = past} {inner = inner} w = record {
    only = w.only;
    woken = woken;
  }
    where
      woken :
          Happened (wake call.channel) ([] ∷ past)
          → (i : ℕ) × (get call.vpn_addr inner.index_by_vpn_addr ≡ some i)
      woken (inl never) = absurd never
      woken (inr before) = w.woken before
