-- ===== src/Common/Ids.antt =====
-- Signed integers as identifiers: Telegram's chat ids are negative for groups, and the program
-- only tests such a number for equality, with another one or with 0.
use Prim.Native.Nat.{ℕ}
use mathlib.Core.Path.{◌≡◌, refl}
use mathlib.Core.Logic.{◌↔◌}
use mathlib.Core.Bool.{Bool, true, false, ◌&&◌}
use native.Mathlib.Omega.{arith}
use telegram_antispam.Common.Tests.{◌==◌, leb}

-- `negsuc n` is -(n + 1).
pub data ℤ : Type 0 where
  pos : ℕ → ℤ
  negsuc : ℕ → ℤ

-- Equality of two integers as a test. It is shut: its lemmas serve every proof.
unfoldable pub same : ℤ → ℤ → Bool
same (pos a) (pos b) = a == b
same (negsuc a) (negsuc b) = a == b
same _ _ = false

pub same_iff : (a b : ℤ) → (same a b ≡ true) ↔ (a ≡ b)
unfolding same
same_iff (pos a) (pos b) = ground arith
same_iff (negsuc a) (negsuc b) = ground arith
same_iff (pos a) (negsuc b) = ground arith
same_iff (negsuc a) (pos b) = ground arith

pub same_refl : (a : ℤ) → same a a ≡ true
same_refl a = (same_iff a a).1 refl

-- a ≤ b, as a test.
unfoldable pub le_id : ℤ → ℤ → Bool
le_id (pos a) (pos b) = leb a b
le_id (negsuc a) (negsuc b) = leb b a
le_id (negsuc a) (pos b) = true
le_id (pos a) (negsuc b) = false

-- The key of a map by chat and user.
pub same_key : (c u chat user : ℤ) → (same c chat && same u user) ≡ true → (c ≡ chat) × (u ≡ user)
same_key c u chat user k =
    let f = same_iff c chat in let g = same_iff u user in (ground (arith, f.0), ground (arith, g.0))
