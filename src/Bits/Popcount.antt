-- ===== src/Bits/Popcount.antt =====
-- bit_manipulation/bits_set/solution.c: the table against the binary digits.
use interview_questions.Prelude.Run.{done}
use interview_questions.Prelude.{
  ◌==◌, if◌then◌else◌, length, get_elem?, get_or, get_elem?-eq-get_or, ℕ, zero, suc, ◌+◌, ◌*◌, ◌/◌,
  ◌%◌, ◌≤◌, ◌<◌, ◌≡◌, refl, ◌∙◌, Bool, true, false, some, List, [], ◌∷◌, arith,
}
use interview_questions.Bits.{bits_table, int_max, count_bits, bits_set}

-- The number of 1-digits among the lowest `w` binary digits.
unfoldable pub popcount : (w x : ℕ) → ℕ
popcount zero x = 0
popcount (suc w) x = x % 2 + popcount w (x / 2)

-- The number of 1-bits in the `n` bytes from index `i` on.
abbrev pub total_bits : (n i : ℕ) → List ℕ → ℕ
total_bits zero i arr = 0
total_bits (suc n) i arr = popcount 8 (get_or arr i 0) + total_bits n (i + 1) arr

popcount-bound : (w x : ℕ) → popcount w x ≤ w
unfolding popcount
popcount-bound zero x = omega arith
popcount-bound (suc w) x = omega (arith, popcount-bound w (x / 2))

-- The entries of a table from entry `i` on count bits.
abbrev counts : ℕ → List ℕ → Bool
counts i [] = true
counts i (b ∷ table) = if b == popcount 8 i then counts (suc i) table else false

counts_lem :
    (i x y : ℕ) (table : List ℕ)
    → counts i table ≡ true
    → x < length table
    → i + x ≡ y
    → get_elem? table x ≡ some (popcount 8 y)
counts_lem i x y [] h lt e = absurd (omega arith)
counts_lem i zero y (b ∷ table) h lt e = let same : i ≡ y = omega arith in ground (arith, same)
counts_lem i (suc x) y (b ∷ table) h lt e = ground (arith, counts_lem (suc i) x y table)

bits_table-counts : counts 0 bits_table ≡ true
unfolding popcount
bits_table-counts = refl

bits_table-popcount : (x : ℕ) → x < 256 → get_elem? bits_table x ≡ some (popcount 8 x)
bits_table-popcount x lt = counts_lem 0 x x bits_table bits_table-counts lt (omega arith)

count_bits_lem :
    (n i res : ℕ) (arr : List ℕ)
    → i + n ≤ length arr
    → ((j : ℕ) → j < length arr → get_or arr j 0 < 256)
    → res + 8 * n ≤ int_max
    → count_bits n i res arr ≡ done (res + total_bits n i arr)
unfolding count_bits
count_bits_lem zero i res arr fits bytes no_overflow = ground arith
count_bits_lem (suc n) i res arr fits bytes no_overflow =
    let bound = popcount-bound 8 (get_or arr i 0) in
    let next =
      count_bits_lem n (i + 1) (res + popcount 8 (get_or arr i 0)) arr (omega arith) bytes
        (omega arith) in
    rw (get_elem?-eq-get_or arr i 0 (omega arith)) (
      rw (bits_table-popcount (get_or arr i 0) (bytes i (omega arith)))
        (ground (arith, bound, next)))

-- On an array of at least `n` bytes, `n` so small that the count is an `int`, `bits_set` returns the
-- number of 1-digits of the first `n` elements in binary.
pub bits_set-popcount :
    (n : ℕ) (arr : List ℕ)
    → n ≤ length arr
    → ((j : ℕ) → j < length arr → get_or arr j 0 < 256)
    → 8 * n ≤ int_max
    → bits_set n arr ≡ done (total_bits n 0 arr)
unfolding bits_set
bits_set-popcount n arr fits bytes no_overflow =
    count_bits_lem n 0 0 arr (omega arith) bytes (omega arith) ∙ ground arith
