-- ===== src/Detect/Levenshtein/Edits.antt =====
-- The specification of the edit distance: scripts of insertions, deletions and substitutions.
use telegram_antispam.Common.{ℕ, zero, suc, ◌+◌, ◌≤◌, List, [], ◌∷◌, length, arith}
use mathlib.Core.List.{reverse, reverse_aux, reverse-reverse}
use native.Mathlib.Nat.{zero-add, suc-add, add-suc, add-zero}

-- `Edits n a b`: n insertions, deletions and substitutions of a rune turn a into b.
pub data Edits : ℕ → List ℕ → List ℕ → Type 0 where
  done : Edits zero [] []
  keep : {n : ℕ} {a b : List ℕ} (x : ℕ) → Edits n a b → Edits n (x ∷ a) (x ∷ b)
  change : {n : ℕ} {a b : List ℕ} (x y : ℕ) → Edits n a b → Edits (suc n) (x ∷ a) (y ∷ b)
  remove : {n : ℕ} {a b : List ℕ} (x : ℕ) → Edits n a b → Edits (suc n) (x ∷ a) b
  insert : {n : ℕ} {a b : List ℕ} (y : ℕ) → Edits n a b → Edits (suc n) a (y ∷ b)

pub Edits-sym : {n : ℕ} {a b : List ℕ} → Edits n a b → Edits n b a
Edits-sym done = done
Edits-sym (keep x e) = keep x (Edits-sym e)
Edits-sym (change x y e) = change y x (Edits-sym e)
Edits-sym (remove x e) = insert x (Edits-sym e)
Edits-sym (insert y e) = remove y (Edits-sym e)

-- A script is at least as long as the texts differ in length.
pub length-Edits :
    {n : ℕ} {a b : List ℕ} → Edits n a b → (length a ≤ length b + n) × (length b ≤ length a + n)
length-Edits done = omega arith
length-Edits (keep x e) = omega (arith, length-Edits e)
length-Edits (change x y e) = omega (arith, length-Edits e)
length-Edits (remove x e) = omega (arith, length-Edits e)
length-Edits (insert y e) = omega (arith, length-Edits e)

-- A script read from the end, before a script of what was read already.
Edits-reverse_aux :
    {n : ℕ} {a b : List ℕ} (m : ℕ) {c d : List ℕ}
    → Edits n a b
    → Edits m c d
    → Edits (n + m) (reverse_aux a c) (reverse_aux b d)
Edits-reverse_aux m done f = rw zero-add f
Edits-reverse_aux m (keep x e) f = Edits-reverse_aux m e (keep x f)
Edits-reverse_aux m (change x y e) f =
    rw (suc-add, ← add-suc) (Edits-reverse_aux (suc m) e (change x y f))
Edits-reverse_aux m (remove x e) f =
    rw (suc-add, ← add-suc) (Edits-reverse_aux (suc m) e (remove x f))
Edits-reverse_aux m (insert y e) f =
    rw (suc-add, ← add-suc) (Edits-reverse_aux (suc m) e (insert y f))

pub Edits-reverse : {n : ℕ} {a b : List ℕ} → Edits n a b → Edits n (reverse a) (reverse b)
Edits-reverse e = rw add-zero at (Edits-reverse_aux 0 e done)

pub Edits-unreverse : {n : ℕ} {a b : List ℕ} → Edits n (reverse a) (reverse b) → Edits n a b
Edits-unreverse {a = a} {b = b} e = rw (reverse-reverse a, reverse-reverse b) at (Edits-reverse e)
