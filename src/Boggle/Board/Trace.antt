-- ===== src/Boggle/Board/Trace.antt =====
-- recursion_dp/boggle_board/solution.c: the words that can be traced on a board of `n` rows of `n`.
use interview_questions.Prelude.{
  ℕ, ◌≤◌, ◌<◌, ◌≡◌, refl, ap, ◌⊎◌, inl, inr, false, List, [], ◌∷◌, arith,
}
use interview_questions.Prelude.Int.{ℤ, pos, negsuc, ◌+ℤ◌, ◌≤ℤ◌, ◌<ℤ◌, +ℤ_parts}
use interview_questions.Prelude.Run.{done}
use interview_questions.Boggle.Board.{is_outside, letter_at, steps}

abbrev pub IsInside : ℕ → ℤ → Type 0
IsInside n r = (pos 0 ≤ℤ r) × (r <ℤ pos n)

-- One row or column beside the board, at most.
abbrev pub IsNear : ℕ → ℤ → Type 0
IsNear n r = (negsuc 0 ≤ℤ r) × (r ≤ℤ pos n)

-- A board with a letter from `a` to `z` on each place.
abbrev pub IsFull : List (List ℕ) → ℕ → Type 0
IsFull board n =
    (i j : ℕ)
    → i < n
    → j < n
    → (l : ℕ) × (97 ≤ l) × (l < 123) × (letter_at board (pos i) (pos j) ≡ done l)

-- To a place that touches this one.
pub data IsMove : ℤ × ℤ → Type 0 where
  up_left : IsMove (negsuc 0, negsuc 0)
  up : IsMove (negsuc 0, pos 0)
  up_right : IsMove (negsuc 0, pos 1)
  to_left : IsMove (pos 0, negsuc 0)
  to_right : IsMove (pos 0, pos 1)
  down_left : IsMove (pos 1, negsuc 0)
  down : IsMove (pos 1, pos 0)
  down_right : IsMove (pos 1, pos 1)

-- The words along the paths from a place, which may come back to a letter.
pub data Trace (board : List (List ℕ)) (n : ℕ) : ℤ → ℤ → List ℕ → Type 0 where
  single :
      (r c : ℤ) (l : ℕ)
      → IsInside n r
      → IsInside n c
      → letter_at board r c ≡ done l
      → Trace board n r c (l ∷ [])
  onward :
      (r c i j : ℤ) (l : ℕ) (w : List ℕ)
      → IsInside n r
      → IsInside n c
      → letter_at board r c ≡ done l
      → IsMove (i, j)
      → Trace board n (r +ℤ i) (c +ℤ j) w
      → Trace board n r c (l ∷ w)

abbrev pub AllMoves : List (ℤ × ℤ) → Type 0
AllMoves [] = Unit {0}
AllMoves (d ∷ ds) = IsMove d × AllMoves ds

abbrev pub IsIn : ℤ × ℤ → List (ℤ × ℤ) → Type 0
IsIn d [] = ⊥
IsIn d (e ∷ ds) = (d ≡ e) ⊎ IsIn d ds

pub steps-AllMoves : AllMoves steps
steps-AllMoves =
    (up_left, (up, (up_right, (to_left, (to_right, (down_left, (down, (down_right, tt))))))))

pub IsIn-steps : (d : ℤ × ℤ) → IsMove d → IsIn d steps
IsIn-steps d up_left = inl refl
IsIn-steps d up = inr (inl refl)
IsIn-steps d up_right = inr (inr (inl refl))
IsIn-steps d to_left = inr (inr (inr (inl refl)))
IsIn-steps d to_right = inr (inr (inr (inr (inl refl))))
IsIn-steps d down_left = inr (inr (inr (inr (inr (inl refl)))))
IsIn-steps d down = inr (inr (inr (inr (inr (inr (inl refl))))))
IsIn-steps d down_right = inr (inr (inr (inr (inr (inr (inr (inl refl)))))))

pub is_outside-IsInside : (n : ℕ) (r c : ℤ) → IsInside n r → IsInside n c → is_outside n r c ≡ false
is_outside-IsInside n r c row col = ground (arith, row, col)

pub IsInside-is_outside :
    (n : ℕ) (r c : ℤ)
    → IsNear n r
    → IsNear n c
    → is_outside n r c ≡ false
    → IsInside n r × IsInside n c
IsInside-is_outside n r c row col e = (ground (arith, row, col, e), ground (arith, row, col, e))

abbrev IsStep : ℤ → Type 0
IsStep i = (negsuc 0 ≤ℤ i) × (i ≤ℤ pos 1)

IsStep-IsMove : (i j : ℤ) → IsMove (i, j) → IsStep i × IsStep j
IsStep-IsMove i j up_left = ((omega arith, omega arith), (omega arith, omega arith))
IsStep-IsMove i j up = ((omega arith, omega arith), (omega arith, omega arith))
IsStep-IsMove i j up_right = ((omega arith, omega arith), (omega arith, omega arith))
IsStep-IsMove i j to_left = ((omega arith, omega arith), (omega arith, omega arith))
IsStep-IsMove i j to_right = ((omega arith, omega arith), (omega arith, omega arith))
IsStep-IsMove i j down_left = ((omega arith, omega arith), (omega arith, omega arith))
IsStep-IsMove i j down = ((omega arith, omega arith), (omega arith, omega arith))
IsStep-IsMove i j down_right = ((omega arith, omega arith), (omega arith, omega arith))

IsNear-IsStep : (n : ℕ) (r i : ℤ) → IsInside n r → IsStep i → IsNear n (r +ℤ i)
IsNear-IsStep n r i inside step =
    (omega (arith, +ℤ_parts r i, inside, step), omega (arith, +ℤ_parts r i, inside, step))

pub IsNear-IsMove :
    (n : ℕ) (r c i j : ℤ)
    → IsInside n r
    → IsInside n c
    → IsMove (i, j)
    → IsNear n (r +ℤ i) × IsNear n (c +ℤ j)
IsNear-IsMove n r c i j row col move =
    (let (a, b) = IsStep-IsMove i j move in (IsNear-IsStep n r i row a, IsNear-IsStep n c j col b))

pub letter-IsFull :
    (board : List (List ℕ)) (n : ℕ) (r c : ℤ)
    → IsFull board n
    → IsInside n r
    → IsInside n c
    → (l : ℕ) × (97 ≤ l) × (l < 123) × (letter_at board r c ≡ done l)
letter-IsFull board n (pos i) (pos j) full row col =
    full i j (omega (arith, row)) (omega (arith, col))
letter-IsFull board n (pos i) (negsuc j) full row col = absurd (omega (arith, col))
letter-IsFull board n (negsuc i) c full row col = absurd (omega (arith, row))

module _ (board : List (List ℕ)) (n : ℕ) where
  pub letter_unique :
      (l' l : ℕ) (r c : ℤ) → letter_at board r c ≡ done l' → letter_at board r c ≡ done l → l' ≡ l
  letter_unique l' l r c letter' letter = cc (letter', letter)

  -- What is traced starts with the letter of its place.
  pub Trace-letter :
      (r c : ℤ) (l : ℕ) (v : List ℕ)
      → letter_at board r c ≡ done l
      → Trace board n r c v
      → (w : List ℕ) × (v ≡ l ∷ w)
  Trace-letter r c l v letter (single r' c' l' row col letter') =
      ([], ap (λ x. x ∷ []) (letter_unique l' l r c letter' letter))
  Trace-letter r c l v letter (onward r' c' i j l' w row col letter' move trace) =
      (w, ap (λ x. x ∷ w) (letter_unique l' l r c letter' letter))

  pub Trace-IsInside : (r c : ℤ) (v : List ℕ) → Trace board n r c v → IsInside n r × IsInside n c
  Trace-IsInside r c v (single r' c' l' row col letter') = (row, col)
  Trace-IsInside r c v (onward r' c' i j l' w row col letter' move trace) = (row, col)
