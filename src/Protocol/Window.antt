-- ===== src/Protocol/Window.antt =====
-- nebula-protocol/src/transport.rs: `ReplayWindow`, a window of 1024 bits in 16 words of 64 bits.
pub mod Words
pub mod Refinement
use Prim.Native.Nat.{bit_and, bit_or}
use nebula_rs.Prelude.{
  ℕ, zero, suc, ◌-◌, ◌*◌, ◌/◌, ◌%◌, ◌^◌, Bool, true, false, not, ◌||◌, List, [], ◌∷◌, get_or, ltb,
  leb, nat_beq, if◌then◌else◌,
}

abbrev pub window_size : ℕ
window_size = 1024

pub record ReplayWindow : Type 0 where
  pub current : ℕ
  pub seen : List ℕ

unfoldable pub zero_words : ℕ → List ℕ
zero_words zero = []
zero_words (suc n) = 0 ∷ zero_words n

unfoldable pub replay_window_new : ReplayWindow
replay_window_new = record { current = 0; seen = zero_words 16 }

-- A write through `seen[i]`; every index that is used is in range.
unfoldable pub update_word : ℕ → (ℕ → ℕ) → List ℕ → List ℕ
update_word i f [] = []
update_word zero f (w ∷ ws) = f w ∷ ws
update_word (suc i) f (w ∷ ws) = w ∷ update_word i f ws

-- `word_bit` is the pair of `offset / 64` and `offset % 64`.
unfoldable pub mark : ℕ → List ℕ → List ℕ
mark offset seen = update_word (offset / 64) (λ w. bit_or w (2 ^ (offset % 64))) seen

unfoldable pub is_marked : ℕ → List ℕ → Bool
is_marked offset seen = not (nat_beq (bit_and (get_or seen (offset / 64) 0) (2 ^ (offset % 64))) 0)

-- One round of `shift_left`.
unfoldable pub shift_words : ℕ → List ℕ → List ℕ
shift_words carry [] = []
shift_words carry (w ∷ ws) = bit_or (w * 2 % 2 ^ 64) carry ∷ shift_words (w / 2 ^ 63) ws

unfoldable pub shift_left : ℕ → List ℕ → List ℕ
shift_left zero seen = seen
shift_left (suc n) seen = shift_left n (shift_words 0 seen)

unfoldable pub check_and_update : ℕ → ReplayWindow → ReplayWindow × Bool
check_and_update counter w =
    let ahead = counter - w.current in
    let behind = w.current - counter in
    let moved = if leb window_size ahead then zero_words 16 else shift_left ahead w.seen in
    if ltb w.current counter
    then (record { current = counter; seen = mark 0 moved }, true)
    else if leb window_size behind || is_marked behind w.seen
    then (w, false)
    else (record w { seen = mark behind w.seen }, true)
