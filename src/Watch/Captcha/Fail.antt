-- ===== src/Watch/Captcha/Fail.antt =====
-- internal/watch/captcha.go: the end of a challenge that failed, and the retries before it.
pub mod Sound
use telegram_antispam.Common.{
  ℕ, suc, leb, ℤ, Bool, true, false, ◌&&◌, not, if◌then◌else◌, List, [], ◌∷◌, Option, none, some,
}
use telegram_antispam.Store.Captcha.{
  CaptchaState, failing, failed, cancelled, CaptchaRow, retry_captcha,
}
use telegram_antispam.Config.Captcha.{
  FailAction, unset_action, kick, keep_muted, unrestrict, decline, other_action,
}
use telegram_antispam.Incident.World.{Failure, Result, ok, err}
use telegram_antispam.Watch.World.{
  Outcome, unrestrict_member, ban_member, unban_member, decline_join_request, Env, Block, ◌>>=◌,
  ◌>>◌, pure, count, write, call, observe, sanctioned, unix_after,
}
use telegram_antispam.Watch.Captcha.{
  captcha_give_up_tries, captcha_retry_delay, transition, log_error,
}

abbrev is_keep_muted : FailAction → Bool
is_keep_muted keep_muted = true
is_keep_muted _ = false

abbrev is_unrestrict : FailAction → Bool
is_unrestrict unrestrict = true
is_unrestrict _ = false

module _ (env : Env) {R : Type 0} where
  -- Captcha.finishFail
  pub finish_fail : CaptchaRow → CaptchaState → Outcome → Block R (Unit {0})
  finish_fail row to out = do transition env row (failing ∷ []) to; count out

  -- Captcha.giveUp
  pub give_up : CaptchaRow → Block R (Unit {0})
  unfolding finish_fail
  give_up row =
      finish_fail row (if is_unrestrict row.fail_action then cancelled else failed) Outcome.gave_up

  -- Captcha.retry
  pub retry : CaptchaRow → Block R (Unit {0})
  retry row = do
    now ← observe env env.clock
    write env
        (retry_captcha row.chat_id row.user_id row.attempt (unix_after now captcha_retry_delay))
    log_error

  -- What follows a call that a failed challenge waits for.
  or_retry : CaptchaRow → Result (Unit {0}) → Block R (Unit {0}) → Block R (Unit {0})
  unfolding retry
  or_retry row (ok _) rest = rest
  or_retry row (err e) rest = retry row

  cancel_sanctioned : Option (CaptchaRow × Bool) → Block R (Unit {0})
  cancel_sanctioned none = log_error
  cancel_sanctioned (some (row, true)) = count Outcome.cancelled_sanction
  cancel_sanctioned (some (row, false)) = pure tt

  release : CaptchaRow → Option Bool → Block R (Unit {0})
  unfolding or_retry finish_fail cancel_sanctioned
  release row none = log_error
  release row (some true) = do
    moved ← transition env row (failing ∷ []) cancelled
    cancel_sanctioned moved
  release row (some false) = do
    lifted ← call env (unrestrict_member row.chat_id row.user_id)
    or_retry row lifted (finish_fail row cancelled Outcome.released)

  -- The switch of fail.
  fail_by : CaptchaRow → FailAction → Block R (Unit {0})
  unfolding release or_retry finish_fail give_up
  fail_by row unrestrict = do
    s ← sanctioned env row.chat_id row.user_id row.created_at
    release row s
  fail_by row kick = do
    banned ← call env (ban_member row.chat_id row.user_id)
    or_retry row banned (do
      freed ← call env (unban_member row.chat_id row.user_id)
      or_retry row freed (finish_fail row failed Outcome.failed_kick))
  fail_by row keep_muted = finish_fail row failed Outcome.failed_muted
  fail_by row decline = do
    declined ← call env (decline_join_request row.chat_id row.user_id)
    or_retry row declined (finish_fail row failed Outcome.failed_decline)
  fail_by row unset_action = give_up row
  fail_by row (other_action s) = give_up row

  -- Captcha.fail
  pub fail : CaptchaRow → Block R (Unit {0})
  unfolding fail_by give_up
  fail row =
      if not (is_keep_muted row.fail_action) && leb captcha_give_up_tries row.tries
      then give_up row
      else fail_by row row.fail_action
