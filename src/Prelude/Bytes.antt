-- ===== src/Prelude/Bytes.antt =====
-- Byte strings: the byte orders of the machine integers, slices, and writes into a buffer.
use Prim.Native.Nat.{ℕ, zero, suc, ◌+◌, ◌*◌, ◌/◌, ◌%◌, ◌^◌, ◌<◌}
use mathlib.Core.Path.{◌≡◌, refl, ap, ◌∙◌}
use mathlib.Core.List.{List, [], ◌∷◌, ◌++◌, append-nil}
use native.Mathlib.Omega.{arith}
use nebula_rs.Prelude.Lists.{length, All}

abbrev pub Bytes : Type 0
Bytes = List ℕ

abbrev pub IsBytes : Bytes → Type 0
IsBytes bs = All (λ b. b < 256) bs

-- The low `w` bytes of `n`, the highest first, before `rest`.
unfoldable pub push_be : ℕ → ℕ → Bytes → Bytes
push_be zero n rest = rest
push_be (suc w) n rest = push_be w (n / 256) (n % 256 ∷ rest)

-- `to_be_bytes` and `to_le_bytes` of an integer of `w` bytes.
abbrev pub be_bytes : ℕ → ℕ → Bytes
be_bytes w n = push_be w n []

unfoldable pub le_bytes : ℕ → ℕ → Bytes
le_bytes zero n = []
le_bytes (suc w) n = n % 256 ∷ le_bytes w (n / 256)

unfoldable pub read_be : ℕ → Bytes → ℕ
read_be acc [] = acc
read_be acc (b ∷ bs) = read_be (acc * 256 + b) bs

-- `from_be_bytes`
abbrev pub from_be_bytes : Bytes → ℕ
from_be_bytes bs = read_be 0 bs

unfoldable pub read_le : Bytes → ℕ
read_le [] = 0
read_le (b ∷ bs) = b + read_le bs * 256

read_be-push_be :
    (w n : ℕ) (rest : Bytes) → n < 256 ^ w → read_be 0 (push_be w n rest) ≡ read_be n rest
unfolding push_be read_be
read_be-push_be zero n rest lt = ap (λ k. read_be k rest) (omega arith)
read_be-push_be (suc w) n rest lt =
    read_be-push_be w (n / 256) (n % 256 ∷ rest) (omega arith)
    ∙ ap (λ k. read_be k rest) (omega arith)

pub from_be_bytes-be_bytes : (w n : ℕ) → n < 256 ^ w → from_be_bytes (be_bytes w n) ≡ n
unfolding read_be
from_be_bytes-be_bytes w n lt = read_be-push_be w n [] lt

push_be-read_be :
    (w acc : ℕ) (bs rest : Bytes)
    → IsBytes bs
    → push_be (length bs + w) (read_be acc bs) rest ≡ push_be w acc (bs ++ rest)
unfolding push_be read_be
push_be-read_be w acc [] rest v = let count : 0 + w ≡ w = omega arith in rw count refl
push_be-read_be w acc (b ∷ bs) rest (lt, v) =
    let count : length (b ∷ bs) + w ≡ length bs + suc w = omega arith in
    let high : (acc * 256 + b) / 256 ≡ acc = omega arith in
    let low : (acc * 256 + b) % 256 ≡ b = omega arith in
    rw (count, push_be-read_be (suc w) (acc * 256 + b) bs rest v, high, low) refl

-- The bytes of the number that bytes stand for are those bytes.
pub be_bytes-from_be_bytes :
    (bs : Bytes) → IsBytes bs → be_bytes (length bs) (from_be_bytes bs) ≡ bs
unfolding push_be
be_bytes-from_be_bytes bs v =
    let none_left : length bs ≡ length bs + 0 = omega arith in
    ap (λ k. push_be k (read_be 0 bs) []) none_left ∙ push_be-read_be 0 0 bs [] v ∙ append-nil bs

pub read_le-le_bytes : (w n : ℕ) → n < 256 ^ w → read_le (le_bytes w n) ≡ n
unfolding read_le le_bytes
read_le-le_bytes zero n lt = omega arith
read_le-le_bytes (suc w) n lt = omega (arith, read_le-le_bytes w (n / 256) (omega arith))

length-push_be : (w n : ℕ) (rest : Bytes) → length (push_be w n rest) ≡ w + length rest
unfolding push_be
length-push_be zero n rest = omega arith
length-push_be (suc w) n rest = omega (arith, length-push_be w (n / 256) (n % 256 ∷ rest))

pub length-be_bytes : (w n : ℕ) → length (be_bytes w n) ≡ w
length-be_bytes w n = omega (arith, length-push_be w n [])
