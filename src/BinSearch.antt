-- ===== src/BinSearch.antt =====
-- DS_Algos/bin_search/binary_search.c: the four searches.
-- `ssize_t` results are integers. The index `r` of the first two loops starts at `arr_sz - 1` and can
-- reach -1, so the model keeps `h = r + 1`; the index `l` of the last two starts at -1, so the model
-- keeps `l1 = l + 1`. A read outside the array and an `int` overflow are faults.
-- The loops take the number of elements plus one as fuel.
pub mod Order
pub mod Traditional
pub mod Closest
pub mod First
pub mod Last
use interview_questions.Prelude.{
  ltb, ◌==◌, if◌then◌else◌, get_elem?, ℕ, zero, suc, ◌+◌, ◌-◌, ◌/◌, ◌^◌, Bool, true, false, ◌&&◌,
  none, some, List,
}
use interview_questions.Prelude.Int.{ℤ, pos, negsuc, ◌-ℤ◌, ltb_ℤ, leb_ℤ, eqb_ℤ}
use interview_questions.Prelude.Run.{Run, done, fault, no_fuel, ◌>>=◌, ◌>>◌, present}

-- `ssize_t r`, from `h = r + 1`.
abbrev pub pred_ℤ : ℕ → ℤ
pred_ℤ zero = negsuc 0
pred_ℤ (suc r) = pos r

-- One round of the loop that `binary_search` and `bin_search_closest` share: what the two tests
-- on `arr[mid]` say.
pub data Probe : Type 0 where
  hit below above : Probe

abbrev pub probe : ℤ → ℤ → Probe
probe v val = if eqb_ℤ v val then hit else if ltb_ℤ v val then below else above

-- How the loop ends: at an index that holds the value, or with `l > r`.
pub data Ended : Type 0 where
  found : ℕ → Ended
  crossed : (l h : ℕ) → Ended

-- `while (l <= r)`.
pub narrow : ℕ → List ℤ → ℤ → ℕ → ℕ → Run Ended
narrow zero arr val l h = no_fuel
narrow (suc fuel) arr val l h = elim (ltb l h) [
  | false ↦ done (crossed l h)
  | true ↦ elim (get_elem? arr (l + (h - 1 - l) / 2)) [
    | none ↦ fault
    | some v ↦ elim (probe v val) [
      | hit ↦ done (found (l + (h - 1 - l) / 2))
      | below ↦ narrow fuel arr val (l + (h - 1 - l) / 2 + 1) h
      | above ↦ narrow fuel arr val l (l + (h - 1 - l) / 2)
    ]
  ]
]

unfoldable pub binary_search : List ℤ → ℕ → ℤ → Run ℤ
unfolding narrow
binary_search arr arr_sz val = narrow (suc arr_sz) arr val 0 arr_sz >>= λ e. elim e [
  | found mid ↦ done (pos mid)
  | crossed l h ↦ done (negsuc 0)
]

-- `a - b` on `int`.
unfoldable pub int_sub : ℤ → ℤ → Run ℤ
int_sub a b =
    let d = a -ℤ b in
    if leb_ℤ (negsuc (2 ^ 31 - 1)) d && ltb_ℤ d (pos (2 ^ 31)) then done d else fault

-- The macro `abs`, on `int`.
unfoldable pub abs : ℤ → Run ℤ
abs x = if leb_ℤ (pos 0) x then done x else int_sub (pos 0) x

-- What follows the loop of `bin_search_closest`; the last `else` is `assert(0)`.
pub pick_closest : List ℤ → ℕ → ℤ → ℕ → ℕ → Run ℤ
pick_closest arr arr_sz val l h =
    if ltb l arr_sz && ltb 0 h
    then (do
      vl ← present (get_elem? arr l)
      dl ← int_sub val vl
      diff_l ← abs dl
      vr ← present (get_elem? arr (h - 1))
      dr ← int_sub val vr
      diff_r ← abs dr
      done (if ltb_ℤ diff_l diff_r then pos l else pred_ℤ h))
    else if l == arr_sz
    then done (pred_ℤ h)
    else if h == 0
    then done (pos l)
    else fault

unfoldable pub bin_search_closest : List ℤ → ℕ → ℤ → Run ℤ
unfolding narrow pick_closest int_sub abs ◌-ℤ◌
bin_search_closest arr arr_sz val = narrow (suc arr_sz) arr val 0 arr_sz >>= λ e. elim e [
  | found mid ↦ done (pos mid)
  | crossed l h ↦ pick_closest arr arr_sz val l h
]

-- `while (l+1 != r)`, moving `l` up where the test holds of `arr[m]`. The result is the final
-- `l + 1`, which is `r`.
pub split : ℕ → (ℤ → Bool) → List ℤ → ℕ → ℕ → Run ℕ
split zero up arr l1 r = no_fuel
split (suc fuel) up arr l1 r = elim (l1 == r) [
  | true ↦ done r
  | false ↦ elim (get_elem? arr (l1 + (r + 1 - l1) / 2 - 1)) [
    | none ↦ fault
    | some v ↦ elim (up v) [
      | true ↦ split fuel up arr (l1 + (r + 1 - l1) / 2) r
      | false ↦ split fuel up arr l1 (l1 + (r + 1 - l1) / 2 - 1)
    ]
  ]
]

unfoldable pub bin_search_first_occurrence : List ℤ → ℕ → ℤ → Run ℤ
unfolding split
bin_search_first_occurrence arr arr_sz val = do
  r ← split (suc arr_sz) (λ v. ltb_ℤ v val) arr 0 arr_sz
  if r == arr_sz
      then done (negsuc 0)
      else (do v ← present (get_elem? arr r); done (if eqb_ℤ v val then pos r else negsuc 0))

-- `arr[l]` for `l = l1 - 1`.
pub read_before : List ℤ → ℕ → Run ℤ
read_before arr zero = fault
read_before arr (suc l) = present (get_elem? arr l)

-- The test `val < arr[m]` moves `r`, so `l` moves where it fails. `l == arr_sz` is a test on `l1 - 1`.
unfoldable pub bin_search_last_occurrence : List ℤ → ℕ → ℤ → Run ℤ
unfolding split read_before
bin_search_last_occurrence arr arr_sz val = do
  l1 ← split (suc arr_sz) (λ v. if ltb_ℤ val v then false else true) arr 0 arr_sz
  if l1 == arr_sz + 1
      then done (negsuc 0)
      else (do v ← read_before arr l1; done (if eqb_ℤ v val then pred_ℤ l1 else negsuc 0))
