-- ===== src/Detect/Levenshtein.antt =====
-- internal/detect/levenshtein.go: the bounded edit distance of two texts, as lists of runes. A row of
-- the table is a list, and the loop over its columns carries curr[i-1] and prev[i-1].
pub mod Edits
pub mod Rows
pub mod Correct
use telegram_antispam.Common.{
  ℕ, zero, suc, ◌+◌, ◌-◌, Bool, true, false, ◌==◌, ltb, leb, if◌then◌else◌, List, [], ◌∷◌, length,
  ◌≡◌, refl,
}

-- func min
abbrev pub min : ℕ → ℕ → ℕ
min a b = if ltb a b then a else b

abbrev pub cost : ℕ → ℕ → ℕ
cost a b = if a == b then 0 else 1

-- The inner loop: the rest of the row for the rune c of br, after the cells `left` and `diag`.
pub row_from : ℕ → ℕ → ℕ → List ℕ → List ℕ → List ℕ
row_from c left diag [] prev = []
row_from c left diag (a ∷ ar) [] = []
row_from c left diag (a ∷ ar) (up ∷ prev) =
    let v = min (min (up + 1) (left + 1)) (diag + cost a c) in v ∷ row_from c v up ar prev

-- One round of the outer loop: the row j from the row before it.
pub next_row : ℕ → ℕ → List ℕ → List ℕ → List ℕ
next_row j c ar [] = j ∷ []
next_row j c ar (diag ∷ prev) = j ∷ row_from c j diag ar prev

-- minInRow, from the first cell on.
pub row_min : ℕ → List ℕ → ℕ
row_min m [] = m
row_min m (v ∷ vs) = row_min (if ltb v m then v else m) vs

abbrev pub min_of : List ℕ → ℕ
min_of [] = 0
min_of (v ∷ vs) = row_min v vs

pub last : ℕ → List ℕ → ℕ
last d [] = d
last d (v ∷ vs) = last v vs

-- The outer loop, with its early exit.
pub rows : ℕ → ℕ → List ℕ → List ℕ → List ℕ → Bool
unfolding next_row row_from row_min last
rows max j ar prev [] = leb (last 0 prev) max
rows max j ar prev (c ∷ br) =
    let curr = next_row j c ar prev in
    let rest = rows max (j + 1) ar curr br in if ltb max (min_of curr) then false else rest

-- The first row: 0, 1, …, len(ar).
pub count_up : ℕ → List ℕ → List ℕ
count_up i [] = i ∷ []
count_up i (a ∷ ar) = i ∷ count_up (i + 1) ar

-- The body after the swap: ar is the shorter text.
pub within_sorted : ℕ → List ℕ → List ℕ → Bool
unfolding rows count_up
within_sorted max [] br = leb (length br) max
within_sorted max (a ∷ ar) br = rows max 1 (a ∷ ar) (count_up 0 (a ∷ ar)) br

abbrev pub distance : ℕ → ℕ → ℕ
distance a b = if ltb a b then b - a else a - b

-- LevenshteinWithin
unfoldable pub levenshtein_within : List ℕ → List ℕ → ℕ → Bool
unfolding within_sorted
levenshtein_within a b max =
    if ltb max (distance (length a) (length b))
    then false
    else if ltb (length b) (length a)
    then within_sorted max b a
    else within_sorted max a b

kitten_sitting :
    levenshtein_within
      (b'k' ∷ b'i' ∷ b't' ∷ b't' ∷ b'e' ∷ b'n' ∷ [])
      (b's' ∷ b'i' ∷ b't' ∷ b't' ∷ b'i' ∷ b'n' ∷ b'g' ∷ [])
      3
    ≡ true
unfolding levenshtein_within
kitten_sitting = refl

kitten_sitting_2 :
    levenshtein_within
      (b'k' ∷ b'i' ∷ b't' ∷ b't' ∷ b'e' ∷ b'n' ∷ [])
      (b's' ∷ b'i' ∷ b't' ∷ b't' ∷ b'i' ∷ b'n' ∷ b'g' ∷ [])
      2
    ≡ false
unfolding levenshtein_within
kitten_sitting_2 = refl
