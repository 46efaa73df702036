-- ===== src/Detect/Levenshtein/Rows.antt =====
-- The rows of the table are the distances of prefixes, and their least entry bounds what follows.
use telegram_antispam.Common.{
  ℕ, suc, ◌+◌, ◌≤◌, ◌<◌, true, ltb, if◌then◌else◌, List, [], ◌∷◌, length, ◌≡◌, refl, ap, inl, inr,
  arith, Bool-cases, le→leb, leb→le,
}
use mathlib.Core.List.{reverse, reverse_aux}
use native.Mathlib.Numerals.{add-one}
use telegram_antispam.Detect.Levenshtein.{
  min, cost, row_from, next_row, row_min, min_of, last, rows, count_up,
}

-- The distance of two texts that are read from their ends.
unfoldable pub table : List ℕ → List ℕ → ℕ
table [] q = length q
table (x ∷ p) [] = suc (length p)
table (x ∷ p) (y ∷ q) = min (min (table (x ∷ p) q + 1) (table p (y ∷ q) + 1)) (table p q + cost x y)

-- The row of q after the prefix p, without its first entry, and the whole row.
row_tail : List ℕ → List ℕ → List ℕ → List ℕ
row_tail p [] q = []
row_tail p (x ∷ xs) q = table (x ∷ p) q ∷ row_tail (x ∷ p) xs q

pub row : List ℕ → List ℕ → List ℕ → List ℕ
unfolding row_tail
row p xs q = table p q ∷ row_tail p xs q

pub table-nil : (p : List ℕ) → table p [] ≡ length p
unfolding table
table-nil [] = refl
table-nil (x ∷ p) = refl

pub count_up-eq-row : (p xs : List ℕ) → count_up (length p) xs ≡ row p xs []
unfolding count_up row
count_up-eq-row p [] = rw (table-nil p)
count_up-eq-row p (x ∷ xs) =
    rw table-nil (ap (λ t. length p ∷ t) (rw add-one (count_up-eq-row (x ∷ p) xs)))

row_from-eq :
    (c : ℕ) (p xs q : List ℕ)
    → row_from c (table p (c ∷ q)) (table p q) xs (row_tail p xs q) ≡ row_tail p xs (c ∷ q)
unfolding row_from row_tail table
row_from-eq c p [] q = refl
row_from-eq c p (x ∷ xs) q = ap (λ t. table (x ∷ p) (c ∷ q) ∷ t) (row_from-eq c (x ∷ p) xs q)

pub next_row-eq-row :
    (c : ℕ) (xs q : List ℕ) → next_row (suc (length q)) c xs (row [] xs q) ≡ row [] xs (c ∷ q)
unfolding next_row row table
next_row-eq-row c xs q = ap (λ t. suc (length q) ∷ t) (row_from-eq c [] xs q)

-- The last entry of a row.
last-row : (d : ℕ) (p xs q : List ℕ) → last d (row p xs q) ≡ table (reverse_aux xs p) q
unfolding last row
last-row d p [] q = refl
last-row d p (x ∷ xs) q = last-row (table p q) (x ∷ p) xs q

-- Every entry is at least k.
abbrev AtLeast : ℕ → List ℕ → Type 0
AtLeast k [] = Unit
AtLeast k (v ∷ vs) = (k ≤ v) × AtLeast k vs

row_min-le : (m : ℕ) (vs : List ℕ) → row_min m vs ≤ m
unfolding row_min
row_min-le m [] = omega arith
row_min-le m (v ∷ vs) = ground (arith, row_min-le (if ltb v m then v else m) vs)

AtLeast-row_min : (k m : ℕ) (vs : List ℕ) → k ≤ row_min m vs → AtLeast k (m ∷ vs)
unfolding row_min
AtLeast-row_min k m [] h = (h, tt)
AtLeast-row_min k m (v ∷ vs) h =
    let rest = AtLeast-row_min k (if ltb v m then v else m) vs h in
    (ground (arith, rest.0), (ground (arith, rest.0), rest.1))

AtLeast-row_tail :
    (k c : ℕ) (p xs q : List ℕ)
    → AtLeast k (row p xs q)
    → k ≤ table p (c ∷ q)
    → AtLeast k (row p xs (c ∷ q))
unfolding row table
AtLeast-row_tail k c p [] q h e = (e, tt)
AtLeast-row_tail k c p (x ∷ xs) q h e = (
  e,
  AtLeast-row_tail k c (x ∷ p) xs q h.1 (let a = h.0 in let b = h.1.0 in ground (arith, a, b, e)),
)

AtLeast-next : (k c : ℕ) (xs q : List ℕ) → AtLeast k (row [] xs q) → AtLeast k (row [] xs (c ∷ q))
AtLeast-next k c xs q h = AtLeast-row_tail k c [] xs q h (unfold row table in omega (arith, h.0))

AtLeast-last : (k d : ℕ) (v : ℕ) (vs : List ℕ) → AtLeast k (v ∷ vs) → k ≤ last d (v ∷ vs)
unfolding last
AtLeast-last k d v [] h = h.0
AtLeast-last k d v (w ∷ vs) h = AtLeast-last k v w vs h.1

-- What follows a row is not below its least entry.
AtLeast-table :
    (k : ℕ) (xs q br : List ℕ) → AtLeast k (row [] xs q) → k ≤ table (reverse xs) (reverse_aux br q)
AtLeast-table k xs q [] h = rw (← last-row 0 [] xs q) (unfold row in AtLeast-last k 0 _ _ h)
AtLeast-table k xs q (c ∷ br) h = AtLeast-table k xs (c ∷ q) br (AtLeast-next k c xs q h)

-- The early exit only skips rows that could not end within `max`.
exit_lem :
    (max : ℕ) (xs q br : List ℕ)
    → ltb max (min_of (row [] xs q)) ≡ true
    → max < table (reverse xs) (reverse_aux br q)
unfolding row
exit_lem max xs q br h =
    let low = AtLeast-table (suc max) xs q br (AtLeast-row_min (suc max) _ _ (ground (arith, h))) in
    low

pub rows_sound :
    (max : ℕ) (xs q br : List ℕ)
    → rows max (suc (length q)) xs (row [] xs q) br ≡ true
    → table (reverse xs) (reverse_aux br q) ≤ max
unfolding rows
rows_sound max xs q [] h = leb→le _ max (rw (last-row 0 [] xs q) at h)
rows_sound max xs q (c ∷ br) h = elim (Bool-cases (ltb max (min_of (row [] xs (c ∷ q))))) [
  | inl e ↦ absurd (let g = rw (next_row-eq-row c xs q, e) at h in cc)
  | inr e ↦ rows_sound max xs (c ∷ q) br (rw (next_row-eq-row c xs q, e, add-one) at h)
]

pub rows_complete :
    (max : ℕ) (xs q br : List ℕ)
    → table (reverse xs) (reverse_aux br q) ≤ max
    → rows max (suc (length q)) xs (row [] xs q) br ≡ true
unfolding rows
rows_complete max xs q [] h = rw (last-row 0 [] xs q) (le→leb _ max h)
rows_complete max xs q (c ∷ br) h = elim (Bool-cases (ltb max (min_of (row [] xs (c ∷ q))))) [
  | inl e ↦ absurd (omega (arith, exit_lem max xs (c ∷ q) br e))
  | inr e ↦ rw (next_row-eq-row c xs q, e, add-one) (rows_complete max xs (c ∷ q) br h)
]
