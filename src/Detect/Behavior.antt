-- ===== src/Detect/Behavior.antt =====
-- internal/detect/behavior.go: the behavioral checks over the windows of a History. A History is its
-- state and two operations on it; crypto/sha256 is a parameter, the hash of a text.
pub mod Observation
use telegram_antispam.Common.{
  ℕ, leb, ltb, ℤ, pos, le_id, String, Bool, true, false, ◌&&◌, not, if◌then◌else◌, Option, none,
  some,
}
use telegram_antispam.Domain.{Signal}
use telegram_antispam.Detect.Message.{NormalizedMessage, has_text}

-- type History, with the state that its methods change
pub record History (S : Type 0) : Type 0 where
  pub record_and_count_dup : ℤ → ℤ → String → ℕ → S → S × ℕ
  pub recent_short_count : ℤ → ℤ → ℕ → S → S × ℕ

-- type BehaviorCfg; a threshold below 0 is 0. A History that is nil is left out: the program always
-- has one.
pub record BehaviorCfg : Type 0 where
  pub dup_threshold : ℕ
  pub dup_window : ℕ
  pub short_len : ℤ
  pub short_flood_threshold : ℕ
  pub short_window : ℕ
  pub flag_edits : Bool

-- shortFloodEligible
unfoldable pub short_flood_eligible : NormalizedMessage → BehaviorCfg → Bool
short_flood_eligible n cfg =
    ltb 0 cfg.short_flood_threshold
    && le_id (pos n.own_len) cfg.short_len
    && n.has_own_text
    && has_text n.text

-- dupEligible
unfoldable pub dup_eligible : NormalizedMessage → BehaviorCfg → Bool
dup_eligible n cfg = ltb 0 cfg.dup_threshold && n.has_own_text && has_text n.text

module _ {S : Type 0} (h : History S) (dup_hash : String → String) (decimal : ℕ → String) where
  -- ObserveBehavior
  unfoldable pub observe_behavior : ℤ → ℤ → NormalizedMessage → BehaviorCfg → S → S
  unfolding dup_eligible short_flood_eligible
  observe_behavior chat user n cfg s =
      let s' =
        if dup_eligible n cfg
        then (h.record_and_count_dup chat user (dup_hash n.text) cfg.dup_window s).0
        else s in
      if short_flood_eligible n cfg
      then (h.recent_short_count chat user cfg.short_window s').0
      else s'

  -- The last check of CheckBehavior.
  unfoldable pub check_short_flood :
      ℤ → ℤ → NormalizedMessage → Bool → BehaviorCfg → S → S × Option Signal
  unfolding short_flood_eligible
  check_short_flood chat user n trusted cfg s =
      if short_flood_eligible n cfg
      then (let (s', count) = h.recent_short_count chat user cfg.short_window s in
          (
            s',
            (if not trusted && leb cfg.short_flood_threshold count
                then some (record { name = "short_flood"; detail = "" })
                else none),
          ))
      else (s, none)

  -- CheckBehavior: `none` is no hit.
  unfoldable pub check_behavior :
      ℤ → ℤ → NormalizedMessage → Bool → Bool → BehaviorCfg → S → S × Option Signal
  unfolding dup_eligible check_short_flood
  check_behavior chat user n edited trusted cfg s =
      if cfg.flag_edits && edited
      then (s, some (record { name = "edited_message"; detail = "" }))
      else if dup_eligible n cfg
      then (let (s', count) = h.record_and_count_dup chat user (dup_hash n.text) cfg.dup_window s in
          if leb cfg.dup_threshold count
          then (s', some (record { name = "duplicate_flood"; detail = decimal count }))
          else check_short_flood chat user n trusted cfg s')
      else check_short_flood chat user n trusted cfg s
