-- ===== src/Detect/Levenshtein/Correct.antt =====
-- LevenshteinWithin decides whether a script of at most `max` edits turns one text into the other.
use telegram_antispam.Common.{
  ℕ, ◌+◌, ◌≤◌, true, false, ◌==◌, ltb, List, [], ◌∷◌, length, ◌≡◌, ◌⊎◌, inl, inr, arith, Bool-cases,
  ==_iff, ◌↔◌, le→leb, leb→le,
}
use mathlib.Core.List.{reverse}
use native.Mathlib.Numerals.{add-one}
use native.Mathlib.Nat.{add-zero}
use telegram_antispam.Detect.Levenshtein.{min, cost, within_sorted, distance, levenshtein_within}
use telegram_antispam.Detect.Levenshtein.Edits.{
  Edits, done, keep, change, remove, insert, Edits-sym, length-Edits, Edits-reverse,
  Edits-unreverse,
}
use telegram_antispam.Detect.Levenshtein.Rows.{
  table, table-nil, count_up-eq-row, rows_sound, rows_complete,
}

-- Some script of at most `max` edits.
abbrev pub Within : ℕ → List ℕ → List ℕ → Type 0
Within max a b = (n : ℕ) × Edits n a b × (n ≤ max)

min-cases : (a b : ℕ) → (min a b ≡ a) ⊎ (min a b ≡ b)
min-cases a b = ground arith

insert_all : (q : List ℕ) → Edits (length q) [] q
insert_all [] = done
insert_all (y ∷ q) = insert y (insert_all q)

remove_all : (p : List ℕ) → Edits (length p) p []
remove_all [] = done
remove_all (x ∷ p) = remove x (remove_all p)

-- The last step of a script, by the runes that it meets.
match_edit : {n : ℕ} {p q : List ℕ} (x y : ℕ) → Edits n p q → Edits (n + cost x y) (x ∷ p) (y ∷ q)
match_edit {n} {p} {q} x y e = elim (Bool-cases (x == y)) [
  | inl t ↦ rw (t, add-zero, ← (==_iff x y).0 t) (keep x e)
  | inr t ↦ rw (t, add-one) (change x y e)
]

table-Edits : (p q : List ℕ) → Edits (table p q) p q
unfolding table
table-Edits [] q = insert_all q
table-Edits (x ∷ p) [] = remove_all (x ∷ p)
table-Edits (x ∷ p) (y ∷ q) =
    elim (min-cases (min (table (x ∷ p) q + 1) (table p (y ∷ q) + 1)) (table p q + cost x y)) [
      | inr e ↦ rw e (match_edit x y (table-Edits p q))
      | inl e ↦ elim (min-cases (table (x ∷ p) q + 1) (table p (y ∷ q) + 1)) [
        | inl f ↦ rw (e, f, add-one) (insert y (table-Edits (x ∷ p) q))
        | inr f ↦ rw (e, f, add-one) (remove x (table-Edits p (y ∷ q)))
      ]
    ]

table-remove : (x : ℕ) (p q : List ℕ) → table (x ∷ p) q ≤ table p q + 1
unfolding table
table-remove x p [] = omega (arith, table-nil p)
table-remove x p (y ∷ q) = ground arith

table-insert : (y : ℕ) (p q : List ℕ) → table p (y ∷ q) ≤ table p q + 1
unfolding table
table-insert y [] q = omega arith
table-insert y (x ∷ p) q = ground arith

-- No script is shorter.
table-le : {n : ℕ} {p q : List ℕ} → Edits n p q → table p q ≤ n
unfolding table
table-le done = omega arith
table-le (keep x e) = let h = table-le e in ground (arith, h)
table-le (change x y e) = let h = table-le e in ground (arith, h)
table-le (remove {a = p} {b = q} x e) = omega (arith, table-le e, table-remove x p q)
table-le (insert {a = p} {b = q} y e) = omega (arith, table-le e, table-insert y p q)

within_sorted_sound : (max : ℕ) (a b : List ℕ) → within_sorted max a b ≡ true → Within max a b
unfolding within_sorted
within_sorted_sound max [] b h = (length b, insert_all b, leb→le _ max h)
within_sorted_sound max (x ∷ a) b h = (
  table (reverse (x ∷ a)) (reverse b),
  Edits-unreverse (table-Edits _ _),
  rows_sound max (x ∷ a) [] b (rw (count_up-eq-row [] (x ∷ a)) at h),
)

within_sorted_complete : (max : ℕ) (a b : List ℕ) → Within max a b → within_sorted max a b ≡ true
unfolding within_sorted
within_sorted_complete max [] b (n, e, h) = le→leb _ max (omega (arith, length-Edits e))
within_sorted_complete max (x ∷ a) b (n, e, h) =
    rw (count_up-eq-row [] (x ∷ a))
      (rows_complete max (x ∷ a) [] b (omega (arith, table-le (Edits-reverse e))))

-- Every script within `max` passes the test on the lengths.
distance-le :
    (max : ℕ) (a b : List ℕ) → Within max a b → ltb max (distance (length a) (length b)) ≡ false
distance-le max a b (n, e, h) = let l = length-Edits e in ground (arith, l.0, l.1)

-- LevenshteinWithin on two texts and a bound: it answers true exactly when some script of at most
-- `max` insertions, deletions and substitutions of a rune turns the first text into the second.
pub levenshtein_within_iff :
    (a b : List ℕ) (max : ℕ)
    → (levenshtein_within a b max ≡ true) ↔ ((n : ℕ) × Edits n a b × (n ≤ max))
unfolding levenshtein_within
levenshtein_within_iff a b max = elim (Bool-cases (ltb max (distance (length a) (length b)))) [
  | inl far ↦ rw far ((λ h. cc), λ s. absurd (let d = distance-le max a b s in cc))
  | inr near ↦ elim (Bool-cases (ltb (length b) (length a))) [
    | inl swap ↦
        rw (near, swap)
          (
            (λ h. let (n, e, l) = within_sorted_sound max b a h in (n, Edits-sym e, l)),
            λ s. within_sorted_complete max b a (s.0, Edits-sym s.1, s.2),
          )
    | inr straight ↦
        rw (near, straight) (within_sorted_sound max a b, within_sorted_complete max a b)
  ]
]
