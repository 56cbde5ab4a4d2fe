-- ===== src/Firewall/Engine/Wrap.antt =====
-- The 16-bit rule version wraps around.
use nebula_rs.Prelude.{
  ℕ, ◌+◌, ◌<◌, ◌%◌, ◌^◌, ◌≡◌, refl, ◌∙◌, sym, subst, Bool, some, List, [], ◌∷◌, arith, length,
}
use nebula_rs.Prelude.Result.{ok}
use nebula_rs.Prelude.Map.{get}
use nebula_rs.Net.{IpNet}
use nebula_rs.Firewall.Packet.{Packet, packet_eq}
use nebula_rs.Firewall.Identity.{PeerIdentity}
use nebula_rs.Firewall.Tree.{RuleSet}
use nebula_rs.Firewall.Conntrack.{ConnEntry}
use nebula_rs.Firewall.Conntrack.Purge.{Inv}
use nebula_rs.Firewall.Engine.{Firewall, evaluate, reload}
use nebula_rs.Firewall.Engine.Decision.{evaluate-decide}
use nebula_rs.Firewall.Engine.Flows.{decide_current}

module _ {N : Type 0} ⦃net : IpNet N⦄ where
  unfoldable pub reload_all : List (RuleSet N) → Firewall N → Firewall N
  reload_all [] fw = fw
  reload_all (r ∷ rs) fw = reload_all rs (reload r fw)

  reload_all_table :
      (rs : List (RuleSet N)) (fw : Firewall N) → (reload_all rs fw).conntrack ≡ fw.conntrack
  unfolding reload_all reload
  reload_all_table [] fw = refl
  reload_all_table (r ∷ rs) fw = reload_all_table rs (reload r fw)

  reload_all_version :
      (rs : List (RuleSet N)) (fw : Firewall N)
      → fw.version < 2 ^ 16
      → (reload_all rs fw).version ≡ (fw.version + length rs) % 2 ^ 16
  unfolding reload_all reload
  reload_all_version [] fw lt = omega arith
  reload_all_version (r ∷ rs) fw lt =
      omega (arith, reload_all_version rs (reload r fw) (omega arith))

  -- If the flow table satisfies its heap invariant, a tracked flow of the present version passes
  -- after 65536 reloads within its lifetime, whatever the new rules say, since the 16-bit version
  -- has come round.
  pub evaluate_wraps :
      (rs : List (RuleSet N)) (fw : Firewall N) (p : Packet) (e : ConnEntry) (now : ℕ)
      (incoming : Bool) (remote : PeerIdentity N)
      → Inv fw.conntrack
      → fw.version < 2 ^ 16
      → get p fw.conntrack.conns ≡ some e
      → e.rules_version ≡ fw.version
      → now < e.expires
      → length rs ≡ 2 ^ 16
      → (evaluate now p incoming remote (reload_all rs fw)).1 ≡ ok tt
  evaluate_wraps rs fw p e now incoming remote v lt g same live n =
      let fw' = reload_all rs fw in
      let table = reload_all_table rs fw in
      evaluate-decide now p incoming remote fw' (subst Inv (sym table) v)
      ∙ decide_current now p incoming remote fw' e (rw table g) live
          (omega (arith, same, n, reload_all_version rs fw lt))
