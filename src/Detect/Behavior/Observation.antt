-- ===== src/Detect/Behavior/Observation.antt =====
-- ObserveBehavior fills the windows as CheckBehavior does.
use telegram_antispam.Common.{
  ℕ, ℤ, String, Bool, false, ◌||◌, Option, none, some, ◌≡◌, arith, str_eq,
}
use telegram_antispam.Domain.{Signal}
use telegram_antispam.Detect.Message.{NormalizedMessage}
use telegram_antispam.Detect.Behavior.{
  History, BehaviorCfg, observe_behavior, check_short_flood, check_behavior,
}

-- A hit that leaves the later windows untouched.
abbrev pub is_early : Option Signal → Bool
is_early none = false
is_early (some s) = str_eq s.name "edited_message" || str_eq s.name "duplicate_flood"

module _ {S : Type 0} (h : History S) (dup_hash : String → String) (decimal : ℕ → String) where
  -- CheckBehavior, whenever it does not report an edit or a duplicate flood, leaves the windows as
  -- ObserveBehavior does, also for a trusted member, whom the short-message flood spares.
  pub check_behavior-observe :
      (chat user : ℤ) (n : NormalizedMessage) (edited trusted : Bool) (cfg : BehaviorCfg) (s : S)
      → is_early (check_behavior h dup_hash decimal chat user n edited trusted cfg s).1 ≡ false
      → (check_behavior h dup_hash decimal chat user n edited trusted cfg s).0
        ≡ observe_behavior h dup_hash decimal chat user n cfg s
  unfolding check_behavior observe_behavior check_short_flood
  check_behavior-observe chat user n edited trusted cfg s k = ground arith
