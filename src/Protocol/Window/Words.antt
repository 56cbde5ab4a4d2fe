-- ===== src/Protocol/Window/Words.antt =====
-- The words of the replay window as one sequence of bits.
use Prim.Native.Nat.{bit_or}
use native.Mathlib.Nat.{pow-le-pow_right}
use nebula_rs.Prelude.{
  ℕ, zero, suc, ◌+◌, ◌-◌, ◌*◌, ◌/◌, ◌%◌, ◌^◌, ◌<◌, ◌≤◌, ◌≡◌, refl, sym, ap, ◌∙◌, not, List, [], ◌∷◌,
  arith, get_or, length, All, ltb, nat_beq, nat_beq_iff, if◌then◌else◌, inl, inr, Bool-cases,
}
use nebula_rs.Prelude.Bits.{
  bit, or_step, or_zero, bit_or-bit, bit_and-bit, bit-mod, bit_div, zero-bit,
}
use nebula_rs.Protocol.Window.{zero_words, update_word, mark, is_marked, shift_words, shift_left}

unfoldable pub window_bit : List ℕ → ℕ → ℕ
window_bit [] o = 0
window_bit (w ∷ ws) o = if ltb o 64 then bit w o else window_bit ws (o - 64)

abbrev pub IsWords : List ℕ → Type 0
IsWords ws = All (λ w. w < 2 ^ 64) ws

window_bit-get_or : (ws : List ℕ) (o : ℕ) → window_bit ws o ≡ bit (get_or ws (o / 64) 0) (o % 64)
unfolding window_bit
window_bit-get_or [] o = sym (zero-bit (o % 64))
window_bit-get_or (w ∷ ws) o = elim (Bool-cases (ltb o 64)) [
  | inl near ↦
      let index : o / 64 ≡ 0 = ground arith in
      let offset : o % 64 ≡ o = ground arith in rw (near, index, offset) refl
  | inr far ↦
      let index : o / 64 ≡ suc ((o - 64) / 64) = ground arith in
      let offset : o % 64 ≡ (o - 64) % 64 = ground arith in
      rw (far, index, offset) (window_bit-get_or ws (o - 64))
]

pub is_marked-window_bit :
    (ws : List ℕ) (o : ℕ) → is_marked o ws ≡ not (nat_beq (window_bit ws o) 0)
unfolding is_marked
is_marked-window_bit ws o =
    rw (window_bit-get_or ws o) (ap not (bit_and-bit (get_or ws (o / 64) 0) (o % 64)))

pub window_bit-mark :
    (ws : List ℕ) (o p : ℕ)
    → o < 64 * length ws
    → window_bit (mark o ws) p ≡ (if nat_beq o p then 1 else window_bit ws p)
unfolding window_bit mark update_word
window_bit-mark [] o p lt = absurd (omega arith)
window_bit-mark (w ∷ ws) o p lt = elim (Bool-cases (ltb o 64)) [
  | inl near ↦
      let index : o / 64 ≡ 0 = ground arith in
      let offset : o % 64 ≡ o = ground arith in
      rw (index, offset) (ground (arith, bit_or-bit w o p))
  | inr far ↦
      let index : o / 64 ≡ suc ((o - 64) / 64) = ground arith in
      let offset : o % 64 ≡ (o - 64) % 64 = ground arith in
      rw (index, offset) (ground (arith, far, window_bit-mark ws (o - 64) (p - 64)))
]

-- `w << 1 | carry` on a word.
shifted_word : (w c : ℕ) → c < 2 → bit_or (w * 2 % 2 ^ 64) c ≡ w % 2 ^ 63 * 2 + c
shifted_word w c lt =
    let even = w * 2 % 2 ^ 64 in
    let none : c / 2 ≡ 0 = omega arith in
    omega (arith, or_step even c, ap (bit_or (even / 2)) none, or_zero (even / 2))

top_bit : (w : ℕ) → w < 2 ^ 64 → w / 2 ^ 63 ≡ bit w 63
top_bit w lt = omega (arith, bit_div w 63)

bit-shifted_word :
    (w c p : ℕ)
    → c < 2
    → p < 64
    → bit (bit_or (w * 2 % 2 ^ 64) c) p ≡ (if nat_beq p 0 then c else bit w (p - 1))
unfolding bit
bit-shifted_word w c zero lt near = omega (arith, shifted_word w c lt)
bit-shifted_word w c (suc p) lt near =
    let half : bit_or (w * 2 % 2 ^ 64) c / 2 ≡ w % 2 ^ 63 = omega (arith, shifted_word w c lt) in
    let back : suc p - 1 ≡ p = omega arith in
    rw (half, back) (ground (arith, bit-mod 63 w p (omega arith)))

pub window_bit-shift_words :
    (c : ℕ) (ws : List ℕ) (p : ℕ)
    → c < 2
    → IsWords ws
    → p < 64 * length ws
    → window_bit (shift_words c ws) p ≡ (if nat_beq p 0 then c else window_bit ws (p - 1))
unfolding window_bit shift_words
window_bit-shift_words c [] p lt v bound = absurd (omega arith)
window_bit-shift_words c (w ∷ ws) p lt (wlt, v) bound = elim (Bool-cases (ltb p 64)) [
  | inl near ↦ ground (arith, near, bit-shifted_word w c p lt)
  | inr far ↦ elim (Bool-cases (nat_beq p 64)) [
    | inl edge ↦
        let here : p ≡ 64 = (nat_beq_iff p 64).0 edge in
        rw here (
          window_bit-shift_words (w / 2 ^ 63) ws 0 (omega (arith, wlt)) v
            (omega (arith, bound, here))
          ∙ top_bit w wlt)
    | inr beyond ↦
        let swap : p - 64 - 1 ≡ p - 1 - 64 = omega arith in
        let rest =
          window_bit-shift_words (w / 2 ^ 63) ws (p - 64) (omega (arith, wlt)) v (ground arith) in
        ground (arith, far, beyond, rest, swap)
  ]
]

length-shift_words : (c : ℕ) (ws : List ℕ) → length (shift_words c ws) ≡ length ws
unfolding shift_words
length-shift_words c [] = refl
length-shift_words c (w ∷ ws) = ap suc (length-shift_words (w / 2 ^ 63) ws)

shift_words-IsWords : (c : ℕ) (ws : List ℕ) → c < 2 → IsWords ws → IsWords (shift_words c ws)
unfolding shift_words
shift_words-IsWords c [] lt v = tt
shift_words-IsWords c (w ∷ ws) lt (wlt, v) =
    (omega (arith, shifted_word w c lt), shift_words-IsWords (w / 2 ^ 63) ws (omega (arith, wlt)) v)

pub length-shift_left : (n : ℕ) (ws : List ℕ) → length (shift_left n ws) ≡ length ws
unfolding shift_left
length-shift_left zero ws = refl
length-shift_left (suc n) ws = length-shift_left n (shift_words 0 ws) ∙ length-shift_words 0 ws

pub shift_left-IsWords : (n : ℕ) (ws : List ℕ) → IsWords ws → IsWords (shift_left n ws)
unfolding shift_left
shift_left-IsWords zero ws v = v
shift_left-IsWords (suc n) ws v =
    shift_left-IsWords n (shift_words 0 ws) (shift_words-IsWords 0 ws (omega arith) v)

pub window_bit-shift_left :
    (n : ℕ) (ws : List ℕ) (p : ℕ)
    → IsWords ws
    → p < 64 * length ws
    → window_bit (shift_left n ws) p ≡ (if ltb p n then 0 else window_bit ws (p - n))
unfolding shift_left
window_bit-shift_left zero ws p v bound =
    let none : p - 0 ≡ p = omega arith in rw none (ground arith)
window_bit-shift_left (suc n) ws p v bound =
    let more : p - n - 1 ≡ p - suc n = omega arith in
    let rest =
      window_bit-shift_left n (shift_words 0 ws) p (shift_words-IsWords 0 ws (omega arith) v)
        (omega (arith, bound, length-shift_words 0 ws)) in
    let once = window_bit-shift_words 0 ws (p - n) (omega arith) v (omega (arith, bound)) in
    ground (arith, rest, once, more)

-- A bit set in a word of 64 bits leaves it one.
or_bound : (n x y : ℕ) → x < 2 ^ n → y < 2 ^ n → bit_or x y < 2 ^ n
or_bound zero x y p q =
    let x0 : x ≡ 0 = omega arith in
    let y0 : y ≡ 0 = omega arith in rw (x0, y0) (omega (arith, or_zero 0))
or_bound (suc n) x y p q =
    omega (arith, or_step x y, or_bound n (x / 2) (y / 2) (omega arith) (omega arith))

pub mark-IsWords : (ws : List ℕ) (o : ℕ) → IsWords ws → IsWords (mark o ws)
unfolding mark update_word
mark-IsWords ws o v = go (o / 64) ws v
  where
    bit_bound : 2 ^ (o % 64) ≤ 2 ^ 63
    bit_bound = pow-le-pow_right (omega arith) {i = o % 64} {j = 63} (omega arith)

    go :
        (i : ℕ) (ws : List ℕ)
        → IsWords ws
        → IsWords (update_word i (λ w. bit_or w (2 ^ (o % 64))) ws)
    go i [] v = tt
    go zero (w ∷ ws) (lt, v) = (or_bound 64 w (2 ^ (o % 64)) lt (omega (arith, bit_bound)), v)
    go (suc i) (w ∷ ws) (lt, v) = (lt, go i ws v)

pub length-mark : (o : ℕ) (ws : List ℕ) → length (mark o ws) ≡ length ws
unfolding mark update_word
length-mark o ws = go (o / 64) ws
  where
    go :
        (i : ℕ) (ws : List ℕ) → length (update_word i (λ w. bit_or w (2 ^ (o % 64))) ws) ≡ length ws
    go i [] = refl
    go zero (w ∷ ws) = refl
    go (suc i) (w ∷ ws) = ap suc (go i ws)

pub window_bit-zero_words : (n o : ℕ) → window_bit (zero_words n) o ≡ 0
unfolding window_bit zero_words
window_bit-zero_words zero o = refl
window_bit-zero_words (suc n) o = ground (arith, zero-bit o, window_bit-zero_words n (o - 64))
