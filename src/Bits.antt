-- ===== src/Bits.antt =====
-- bit_manipulation/bits_set/solution.c: `bits_table`, `bits_set` and `main`.
-- `int` sums that leave the range of a 32-bit `int` are undefined behaviour, a `fault`.
use interview_questions.Prelude.{
  ltb, leb, length, get_elem?, set, replicate, ℕ, zero, suc, ◌+◌, ◌%◌, List, [], ◌∷◌, ◌++◌,
}
use interview_questions.Prelude.Run.{Run, done, fault, no_fuel, ◌>>=◌, ◌>>◌, assert, present}
pub mod Popcount
pub mod Division

-- `bits_table`, in two halves.
abbrev pub low_half : List ℕ
low_half =
    0 ∷ 1 ∷ 1 ∷ 2 ∷ 1 ∷ 2 ∷ 2 ∷ 3 ∷ 1 ∷ 2 ∷ 2 ∷ 3 ∷ 2 ∷ 3 ∷ 3 ∷ 4 ∷ 1 ∷ 2 ∷ 2 ∷ 3 ∷ 2 ∷ 3 ∷ 3 ∷ 4
    ∷ 2 ∷ 3 ∷ 3 ∷ 4 ∷ 3 ∷ 4 ∷ 4 ∷ 5 ∷ 1 ∷ 2 ∷ 2 ∷ 3 ∷ 2 ∷ 3 ∷ 3 ∷ 4 ∷ 2 ∷ 3 ∷ 3 ∷ 4 ∷ 3 ∷ 4 ∷ 4 ∷ 5
    ∷ 2 ∷ 3 ∷ 3 ∷ 4 ∷ 3 ∷ 4 ∷ 4 ∷ 5 ∷ 3 ∷ 4 ∷ 4 ∷ 5 ∷ 4 ∷ 5 ∷ 5 ∷ 6 ∷ 1 ∷ 2 ∷ 2 ∷ 3 ∷ 2 ∷ 3 ∷ 3 ∷ 4
    ∷ 2 ∷ 3 ∷ 3 ∷ 4 ∷ 3 ∷ 4 ∷ 4 ∷ 5 ∷ 2 ∷ 3 ∷ 3 ∷ 4 ∷ 3 ∷ 4 ∷ 4 ∷ 5 ∷ 3 ∷ 4 ∷ 4 ∷ 5 ∷ 4 ∷ 5 ∷ 5 ∷ 6
    ∷ 2 ∷ 3 ∷ 3 ∷ 4 ∷ 3 ∷ 4 ∷ 4 ∷ 5 ∷ 3 ∷ 4 ∷ 4 ∷ 5 ∷ 4 ∷ 5 ∷ 5 ∷ 6 ∷ 3 ∷ 4 ∷ 4 ∷ 5 ∷ 4 ∷ 5 ∷ 5 ∷ 6
    ∷ 4 ∷ 5 ∷ 5 ∷ 6 ∷ 5 ∷ 6 ∷ 6 ∷ 7 ∷ []

abbrev pub high_half : List ℕ
high_half =
    1 ∷ 2 ∷ 2 ∷ 3 ∷ 2 ∷ 3 ∷ 3 ∷ 4 ∷ 2 ∷ 3 ∷ 3 ∷ 4 ∷ 3 ∷ 4 ∷ 4 ∷ 5 ∷ 2 ∷ 3 ∷ 3 ∷ 4 ∷ 3 ∷ 4 ∷ 4 ∷ 5
    ∷ 3 ∷ 4 ∷ 4 ∷ 5 ∷ 4 ∷ 5 ∷ 5 ∷ 6 ∷ 2 ∷ 3 ∷ 3 ∷ 4 ∷ 3 ∷ 4 ∷ 4 ∷ 5 ∷ 3 ∷ 4 ∷ 4 ∷ 5 ∷ 4 ∷ 5 ∷ 5 ∷ 6
    ∷ 3 ∷ 4 ∷ 4 ∷ 5 ∷ 4 ∷ 5 ∷ 5 ∷ 6 ∷ 4 ∷ 5 ∷ 5 ∷ 6 ∷ 5 ∷ 6 ∷ 6 ∷ 7 ∷ 2 ∷ 3 ∷ 3 ∷ 4 ∷ 3 ∷ 4 ∷ 4 ∷ 5
    ∷ 3 ∷ 4 ∷ 4 ∷ 5 ∷ 4 ∷ 5 ∷ 5 ∷ 6 ∷ 3 ∷ 4 ∷ 4 ∷ 5 ∷ 4 ∷ 5 ∷ 5 ∷ 6 ∷ 4 ∷ 5 ∷ 5 ∷ 6 ∷ 5 ∷ 6 ∷ 6 ∷ 7
    ∷ 3 ∷ 4 ∷ 4 ∷ 5 ∷ 4 ∷ 5 ∷ 5 ∷ 6 ∷ 4 ∷ 5 ∷ 5 ∷ 6 ∷ 5 ∷ 6 ∷ 6 ∷ 7 ∷ 4 ∷ 5 ∷ 5 ∷ 6 ∷ 5 ∷ 6 ∷ 6 ∷ 7
    ∷ 5 ∷ 6 ∷ 6 ∷ 7 ∷ 6 ∷ 7 ∷ 7 ∷ 8 ∷ []

abbrev pub bits_table : List ℕ
bits_table = low_half ++ high_half

abbrev pub int_max : ℕ
int_max = 2147483647

-- `for (i = 0; i < n; i++)`, with `rounds` rounds left.
unfoldable pub count_bits : (rounds i res : ℕ) → List ℕ → Run ℕ
count_bits zero i res arr = done res
count_bits (suc rounds) i res arr = do
  c ← present (get_elem? arr i)
  b ← present (get_elem? bits_table c)
  assert (leb (res + b) int_max)
  count_bits rounds (i + 1) (res + b) arr

unfoldable pub bits_set : ℕ → List ℕ → Run ℕ
bits_set n arr = count_bits n 0 0 arr

-- The inner loop of `main`: the numbers that `scanf` reads are stored as bytes. A number that is not
-- there leaves `val` uninitialised.
unfoldable pub read_entries : (rounds i : ℕ) → List ℕ → List ℕ → Run (List ℕ × List ℕ)
read_entries zero i input nums = done (input, nums)
read_entries (suc rounds) i input [] = fault
read_entries (suc rounds) i input (val ∷ nums) = do
  assert (ltb i (length input))
  read_entries rounds (i + 1) (set input i (val % 256)) nums

-- `while (scanf("%zu", &n) == 1)` on the numbers of the input: the printed counts. The bound on the
-- rounds is the number of numbers, since every round reads one.
unfoldable pub rounds_of_main : (fuel : ℕ) → List ℕ → List ℕ → List ℕ → Run (List ℕ)
rounds_of_main zero input nums printed = no_fuel
rounds_of_main (suc fuel) input [] printed = done printed
rounds_of_main (suc fuel) input (n ∷ nums) printed = do
  (input', rest) ← read_entries n 0 input nums
  b ← bits_set n input'
  rounds_of_main fuel input' rest (printed ++ b ∷ [])

unfoldable pub main : List ℕ → Run (List ℕ)
main nums = rounds_of_main (suc (length nums)) (replicate 512 0) nums []
