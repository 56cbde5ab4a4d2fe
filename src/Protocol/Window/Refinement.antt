-- ===== src/Protocol/Window/Refinement.antt =====
-- The replay window against the set of the counters that it has let through.
use Prim.Native.Nat.{max}
use nebula_rs.Prelude.{
  ℕ, zero, suc, ◌-◌, ◌<◌, ◌≤◌, ◌≡◌, refl, ap, ◌∙◌, inl, inr, Bool, true, false, not, ◌&&◌, ◌||◌,
  List, [], ◌∷◌, arith, length, ltb, leb, nat_beq, nat_eq, ==_iff, contains, if◌then◌else◌,
  Bool-cases, ltb→lt, leb→le,
}
use nebula_rs.Protocol.Window.{
  ReplayWindow, replay_window_new, zero_words, mark, is_marked, shift_left, check_and_update,
}
use nebula_rs.Protocol.Window.Words.{
  window_bit, IsWords, is_marked-window_bit, window_bit-mark, length-shift_left, shift_left-IsWords,
  window_bit-shift_left, mark-IsWords, length-mark, window_bit-zero_words,
}

abbrev pub highest : List ℕ → ℕ
highest [] = 0
highest (c ∷ cs) = max c (highest cs)

-- A counter is new if it is above all that were let through, or less than 1024 below the highest and
-- not among them.
unfoldable pub is_fresh : ℕ → List ℕ → Bool
is_fresh c seen = ltb (highest seen) c || (ltb (highest seen - c) 1024 && not (contains seen c))

-- The bit that stands for the counter `o` below the current one.
abbrev pub seen_bit : List ℕ → ℕ → ℕ → ℕ
seen_bit seen current o = if leb o current && contains seen (current - o) then 1 else 0

pub record Represents (w : ReplayWindow) (seen : List ℕ) : Type 0 where
  pub words : IsWords w.seen
  pub size : length w.seen ≡ 16
  pub top : w.current ≡ highest seen
  pub marked : (o : ℕ) → o < 1024 → window_bit w.seen o ≡ seen_bit seen w.current o

above_highest : (c : ℕ) (seen : List ℕ) → highest seen < c → contains seen c ≡ false
above_highest c [] lt = refl
above_highest c (x ∷ seen) lt = ground (arith, above_highest c seen (omega (arith, lt)), ==_iff x c)

zero_words-IsWords : (n : ℕ) → IsWords (zero_words n)
unfolding zero_words
zero_words-IsWords zero = tt
zero_words-IsWords (suc n) = (omega arith, zero_words-IsWords n)

length-zero_words : (n : ℕ) → length (zero_words n) ≡ n
unfolding zero_words
length-zero_words zero = refl
length-zero_words (suc n) = ap suc (length-zero_words n)

pub replay_window_new-Represents : Represents replay_window_new []
unfolding replay_window_new
replay_window_new-Represents = record {
  words = zero_words-IsWords 16;
  size = length-zero_words 16;
  top = refl;
  marked = λ o lt. ground (arith, window_bit-zero_words 16 o);
}

-- Both ways to make room: the bits move up by the distance, and zeros come in.
module _ (ahead : ℕ) (seen : List ℕ) where
  abbrev moved : List ℕ
  moved = if leb 1024 ahead then zero_words 16 else shift_left ahead seen

  moved-IsWords : IsWords seen → IsWords moved
  moved-IsWords v = elim (Bool-cases (leb 1024 ahead)) [
    | inl far ↦ rw far (zero_words-IsWords 16)
    | inr near ↦ rw near (shift_left-IsWords ahead seen v)
  ]

  length-moved : length seen ≡ 16 → length moved ≡ 16
  length-moved n = elim (Bool-cases (leb 1024 ahead)) [
    | inl far ↦ rw far (length-zero_words 16)
    | inr near ↦ rw near (length-shift_left ahead seen ∙ n)
  ]

  moved_bit :
      (o : ℕ)
      → IsWords seen
      → length seen ≡ 16
      → o < 1024
      → window_bit moved o ≡ (if ltb o ahead then 0 else window_bit seen (o - ahead))
  moved_bit o v n lt = elim (Bool-cases (leb 1024 ahead)) [
    | inl far ↦ ground (arith, far, window_bit-zero_words 16 o)
    | inr near ↦ ground (arith, near, window_bit-shift_left ahead seen o v (omega (arith, n, lt)))
  ]

module _ (c : ℕ) (w : ReplayWindow) (seen : List ℕ) (r : Represents w seen) where
  advance-Represents :
      w.current < c
      → Represents (record { current = c; seen = mark 0 (moved (c - w.current) w.seen) }) (c ∷ seen)
  advance-Represents lt = record {
    words = mark-IsWords _ 0 (moved-IsWords ahead w.seen r.words);
    size = length-mark 0 (moved ahead w.seen) ∙ length-moved ahead w.seen r.size;
    top = omega (arith, r.top);
    marked = λ o near.
        window_bit-mark _ 0 o (omega (arith, length-moved ahead w.seen r.size)) ∙ advanced o near;
  }
    where
      ahead : ℕ
      ahead = c - w.current

      advanced :
          (o : ℕ)
          → o < 1024
          → (if nat_beq 0 o then 1 else window_bit (moved ahead w.seen) o) ≡ seen_bit (c ∷ seen) c o
      advanced o near =
          let old = moved_bit ahead w.seen o r.words r.size near in
          elim (Bool-cases (ltb o ahead)) [
            | inl fresh ↦ ground (
              arith,
              fresh,
              old,
              above_highest (c - o) seen (omega (arith, r.top, ltb→lt o ahead fresh)),
            )
            | inr kept ↦ elim (Bool-cases (leb o c)) [
              | inl within ↦
                  let le : o ≤ c = leb→le o c within in
                  let same : w.current - (o - ahead) ≡ c - o = ground (arith, kept, lt, le) in
                  ground (arith, kept, old, within, same, r.marked (o - ahead))
              | inr out ↦ ground (arith, kept, old, out, r.marked (o - ahead))
            ]
          ]

  fill-Represents :
      c ≤ w.current
      → w.current - c < 1024
      → Represents (record w { seen = mark (w.current - c) w.seen }) (c ∷ seen)
  fill-Represents le near = record {
    words = mark-IsWords _ _ r.words;
    size = length-mark (w.current - c) w.seen ∙ r.size;
    top = omega (arith, r.top);
    marked = λ o lt. ground (
      arith,
      window_bit-mark w.seen (w.current - c) o (omega (arith, r.size, near)),
      r.marked o lt,
    );
  }

  fresh_above : w.current < c → is_fresh c seen ≡ true
  unfolding is_fresh
  fresh_above lt = ground (arith, r.top)

  fresh_below :
      c ≤ w.current
      → is_fresh c seen ≡ not (leb 1024 (w.current - c) || is_marked (w.current - c) w.seen)
  unfolding is_fresh
  fresh_below le =
      let behind = w.current - c in
      let back : w.current - behind ≡ c = omega arith in
      ground (arith, r.top, is_marked-window_bit w.seen behind, r.marked behind, back)

  -- If the 1024-bit window represents a list of counters, check_and_update lets a counter through
  -- exactly if it is above all of them, or less than 1024 below the highest and not among them, and
  -- the new window represents the list with that counter added if it was let through.
  pub check_and_update-Represents :
      ((check_and_update c w).1 ≡ is_fresh c seen)
      × Represents (check_and_update c w).0 (if is_fresh c seen then c ∷ seen else seen)
  unfolding check_and_update
  check_and_update-Represents = elim (Bool-cases (ltb w.current c)) [
    | inl above ↦
        let lt = ltb→lt w.current c above in
        rw (above, fresh_above lt) (refl, advance-Represents lt)
    | inr below ↦
        let le : c ≤ w.current = ground (arith, below) in
        let refused = leb 1024 (w.current - c) || is_marked (w.current - c) w.seen in
        elim (Bool-cases refused) [
          | inl stale ↦ rw (below, fresh_below le, stale) (refl, r)
          | inr new ↦
              rw (below, fresh_below le, new) (refl, fill-Represents le (ground (arith, new)))
        ]
  ]

-- A run over a sequence of counters: the window, and the counters it let through, the last first.
unfoldable pub run_window : List ℕ → ReplayWindow × List ℕ → ReplayWindow × List ℕ
run_window [] state = state
run_window (c ∷ cs) (w, seen) =
    let result = check_and_update c w in
    run_window cs (result.0, if result.1 then c ∷ seen else seen)

abbrev pub NoRepeat : List ℕ → Type 0
NoRepeat [] = Unit
NoRepeat (c ∷ cs) = (contains cs c ≡ false) × NoRepeat cs

fresh_absent : (c : ℕ) (seen : List ℕ) → is_fresh c seen ≡ true → contains seen c ≡ false
unfolding is_fresh
fresh_absent c seen h = ground (arith, above_highest c seen)

-- The window stands for the counters, none of which occurs twice.
abbrev pub Sound : ReplayWindow × List ℕ → Type 0
Sound (w, seen) = Represents w seen × NoRepeat seen

check_and_update-Sound :
    (c : ℕ) (w : ReplayWindow) (seen : List ℕ)
    → Sound (w, seen)
    → Sound ((check_and_update c w).0, if (check_and_update c w).1 then c ∷ seen else seen)
check_and_update-Sound c w seen (r, once) =
    let (same, r') = check_and_update-Represents c w seen r in
    elim (Bool-cases (is_fresh c seen)) [
      | inl fresh ↦ rw (same, fresh) (rw fresh at r', (fresh_absent c seen fresh, once))
      | inr stale ↦ rw (same, stale) (rw stale at r', once)
    ]

run_window_from :
    (cs : List ℕ) (w : ReplayWindow) (seen : List ℕ)
    → Sound (w, seen)
    → Sound (run_window cs (w, seen))
unfolding run_window
run_window_from [] w seen r = r
run_window_from (c ∷ cs) w seen r = run_window_from cs _ _ (check_and_update-Sound c w seen r)

-- After any sequence of counters given to a new window, the window represents the list of those it
-- let through, and no counter occurs twice in it.
pub run_window-Sound : (cs : List ℕ) → Sound (run_window cs (replay_window_new, []))
run_window-Sound cs = run_window_from cs replay_window_new [] (replay_window_new-Represents, tt)
