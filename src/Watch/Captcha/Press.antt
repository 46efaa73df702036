-- ===== src/Watch/Captcha/Press.antt =====
-- internal/watch/captcha.go: a press of the captcha's button.
pub mod Sound
use telegram_antispam.Common.{
  ℕ, suc, leb, ◌==◌, ℤ, same, String, str_eq, Bool, true, false, ◌&&◌, ◌||◌, not, if◌then◌else◌,
  List, [], ◌∷◌, Option, none, some,
}
use telegram_antispam.Store.MessageIds.{Text}
use telegram_antispam.Store.Captcha.{
  CaptchaState, challenged, passing, passed, cancelled, same_state, CaptchaRow, get_captcha,
  mark_captcha_passing,
}
use telegram_antispam.Incident.World.{Failure, Result, ok, err}
use telegram_antispam.Watch.World.{
  Outcome, unrestrict_member, approve_join_request, answer_callback, Env, Block, ◌>>=◌, ◌>>◌, pure,
  exit, enter, count, write, query, call, observe, sanctioned, unix,
}
use telegram_antispam.Watch.Captcha.{
  WatchError, store_failed, call_failed, parse_captcha_data, move, delete_ids, is_join_request,
  stop_if, require,
}
use telegram_antispam.Watch.Captcha.Join.{Handled}

-- type CaptchaPress
pub record CaptchaPress : Type 0 where
  pub id : String
  pub data_ : Text
  pub presser_id : ℤ

-- What decidePress returns: an outcome, an answer and an error.
abbrev pub Decided : Type 0
Decided = Outcome × String × Option WatchError

-- const captchaRestoreSoon
abbrev pub captcha_restore_soon : String
captcha_restore_soon = "accepted, access will be restored shortly"

-- captchaAnswer
abbrev pub captcha_answer : Outcome → String
captcha_answer Outcome.wrong_user = "not for you"
captcha_answer Outcome.cancelled_sanction = "moderators will review"
captcha_answer Outcome.error = "try again"
captcha_answer Outcome.invalid = "invalid"
captcha_answer Outcome.expired = "expired"
captcha_answer Outcome.passed = "confirmed"
captcha_answer Outcome.approved = "confirmed"
captcha_answer _ = ""

-- An error of the store, before the press is recorded and after.
abbrev store_error : Decided
store_error = (Outcome.error, "", some store_failed)

abbrev store_error_later : Decided
store_error_later = (Outcome.error, captcha_restore_soon, some store_failed)

abbrev expired : Decided
expired = (Outcome.expired, "", none)

-- The row that the press is for, as long as it may be pressed.
abbrev pub pressable : ℕ → ℕ → CaptchaRow → Bool
pressable attempt now row =
    row.attempt == attempt && same_state row.state challenged && not (leb row.deadline now)

abbrev pub lifted_outcome : Bool → Outcome
lifted_outcome join = if join then Outcome.approved else Outcome.passed

module _ (env : Env) where
  known : Option (ℤ × ℤ × ℕ) → Block Decided (ℤ × ℤ × ℕ)
  known none = exit (Outcome.invalid, "", none)
  known (some key) = pure key

  open_row : ℕ → ℕ → Option CaptchaRow → Block Decided CaptchaRow
  open_row attempt now none = exit expired
  open_row attempt now (some row) = if pressable attempt now row then pure row else exit expired

  -- The challenge of a member who was sanctioned is cancelled.
  cancel : CaptchaState → Decided → ℤ → ℤ → ℕ → Block Decided (Unit {0})
  cancel from broken chat user attempt = do
    answer ← move env chat user attempt from cancelled
    updated ← require broken answer
    stop_if (not updated.1) expired
    delete_ids env updated.0
    exit (Outcome.cancelled_sanction, "", none)

  -- One of the two looks for a sanction, which a join request does without.
  check : CaptchaState → Decided → Bool → ℤ → ℤ → ℕ → ℕ → Block Decided (Unit {0})
  unfolding cancel
  check from broken true chat user attempt since = pure tt
  check from broken false chat user attempt since = do
    answer ← sanctioned env chat user since
    s ← require broken answer
    if s then cancel from broken chat user attempt else pure tt

  lifted : Result (Unit {0}) → Block Decided (Unit {0})
  lifted (ok _) = pure tt
  lifted (err e) = exit (Outcome.error, captcha_restore_soon, some (call_failed e))

  lift : Bool → ℤ → ℤ → Block Decided (Unit {0})
  unfolding lifted
  lift true chat user = do r ← call env (approve_join_request chat user); lifted r
  lift false chat user = do r ← call env (unrestrict_member chat user); lifted r

  is_passed_row : Option CaptchaRow → Bool
  is_passed_row none = false
  is_passed_row (some row) = same_state row.state passed

  -- The sweep may have lifted the mute in between.
  lost_race : Bool → ℤ → ℤ → Block Decided Decided
  unfolding is_passed_row
  lost_race join chat user = do
    answer ← query env (λ _ t. get_captcha chat user t)
    again ← require store_error_later answer
    if is_passed_row again then pure (lifted_outcome join, "", none) else pure expired

  finish : Bool → ℤ → ℤ → ℕ → Block Decided Decided
  unfolding lost_race
  finish join chat user attempt = do
    answer ← move env chat user attempt passing passed
    moved ← require store_error_later answer
    if not moved.1
        then lost_race join chat user
        else (do delete_ids env moved.0; pure (lifted_outcome join, "", none))

  -- Captcha.decidePress
  pub decide_press : CaptchaPress → Block Decided Decided
  unfolding known open_row check lift finish
  decide_press p = do
    key ← known (parse_captcha_data p.data_)
    let chat = key.0
    let user = key.1
    let attempt = key.2
    stop_if (not (same p.presser_id user)) (Outcome.wrong_user, "", none)
    answer ← query env (λ _ t. get_captcha chat user t)
    found ← require store_error answer
    now ← observe env env.clock
    row ← open_row attempt (unix now) found
    let join = is_join_request row.mode
    check challenged store_error join chat user attempt row.created_at
    pressed_at ← observe env env.clock
    answer' ← write env (mark_captcha_passing chat user attempt (unix pressed_at))
    marked ← require store_error answer'
    stop_if (not marked.1) expired
    check passing store_error_later join chat user attempt row.created_at
    lift join chat user
    finish join chat user attempt

  -- Captcha.OnPress
  pub on_press : {R : Type 0} → CaptchaPress → Block R Handled
  unfolding decide_press
  on_press p = do
    d ← enter (decide_press p)
    let answer = if str_eq d.1 "" then captcha_answer d.0 else d.1
    call env (answer_callback p.id answer)
    count d.0
    pure (d.0, d.2)
