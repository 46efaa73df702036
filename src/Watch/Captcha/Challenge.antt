-- ===== src/Watch/Captcha/Challenge.antt =====
-- internal/watch/captcha.go and captcha_join_request.go: the functions given to Captcha.Go. The label of
-- the button is left out.
pub mod Sound
use telegram_antispam.Common.{
  ℕ, suc, ◌==◌, ℤ, pos, Bool, true, false, ◌&&◌, ◌||◌, not, if◌then◌else◌, List, [], ◌∷◌, ◌++◌,
  Option, none, some, is_empty,
}
use telegram_antispam.Store.MessageIds.{Text}
use telegram_antispam.Store.Captcha.{
  CaptchaState, fresh, challenged, cancelled, same_state, CaptchaRow, zero_row, get_captcha,
  fail_captcha, set_captcha_prompt,
}
use telegram_antispam.Config.Captcha.{CaptchaPolicy, FailAction}
use telegram_antispam.Incident.World.{Failure, Result, ok, err}
use telegram_antispam.Watch.World.{
  Outcome, restrict_member, approve_join_request, send_captcha_ephemeral, send_captcha_message,
  JoinEvent, JoinRequest, Task, challenge_task, challenge_join_task, approve_task, Env, Block,
  ◌>>=◌, ◌>>◌, pure, exit, enter, count, write, query, call, send, observe, unix_after,
}
use telegram_antispam.Watch.Captcha.{captcha_data, move, delete_ids, untrack, log_error}
use telegram_antispam.Watch.Captcha.Fail.{fail}

-- The ids of a prompt that was just sent, as a row to delete it by.
abbrev sent_row : ℤ → ℤ → ℤ → ℤ → ℤ → CaptchaRow
sent_row chat user dest ephemeral message = record zero_row {
  chat_id = chat;
  user_id = user;
  prompt_chat_id = dest;
  ephemeral_id = ephemeral;
  message_id = message;
}

abbrev is_cancelled : Option CaptchaRow → Bool
is_cancelled none = false
is_cancelled (some row) = same_state row.state cancelled

-- The saved prompt belongs to another attempt, or its challenge is over.
abbrev superseded : ℕ → CaptchaRow → Bool
superseded attempt saved = not (saved.attempt == attempt) || not (same_state saved.state challenged)

addressed : Text → Text → Text
addressed name text = if is_empty name then text else name ++ (b',' ∷ b' ' ∷ text)

module _ (env : Env) where
  note_row : {R : Type 0} → Option (Option CaptchaRow) → Block R (Unit {0})
  note_row none = log_error
  note_row (some row) = if is_cancelled row then count Outcome.restrict_after_cancel else pure tt

  -- Captcha.noteRestrictAfterCancel
  pub note_restrict_after_cancel : {R : Type 0} → ℤ → ℤ → Block R (Unit {0})
  unfolding note_row
  note_restrict_after_cancel chat user = do
    row ← query env (λ _ t. get_captcha chat user t)
    note_row row

  or_log : Option (CaptchaRow × Bool) → Block (Unit {0}) (CaptchaRow × Bool)
  or_log none = do log_error; exit tt
  or_log (some r) = pure r

  -- FailCaptcha with the action "unrestrict": the challenge is given up before its prompt stands.
  fail_open : ℤ → ℤ → ℕ → Block (Unit {0}) (CaptchaRow × Bool)
  unfolding or_log
  fail_open chat user attempt = do
    answer ← write env (fail_captcha chat user attempt (challenged ∷ []) FailAction.unrestrict)
    or_log answer

  fail_if : {R : Type 0} → CaptchaRow × Bool → Block R (Unit {0})
  fail_if r = if r.1 then fail env r.0 else pure tt

  module _ (chat user : ℤ) (attempt : ℕ) where
    -- The member must be muted for the challenge to go on.
    muted : Result (Unit {0}) → Block (Unit {0}) (Unit {0})
    muted (ok _) = pure tt
    muted (err e) = do move env chat user attempt fresh cancelled; log_error; exit tt

    opened : Option (CaptchaRow × Bool) → Block (Unit {0}) (Unit {0})
    unfolding note_restrict_after_cancel
    opened none = do log_error; note_restrict_after_cancel chat user; exit tt
    opened (some (row, true)) = pure tt
    opened (some (row, false)) = do note_restrict_after_cancel chat user; exit tt

    -- The prompt's two ids: the private one, or the message in the group where that fails.
    or_message : Text → Text → Result ℤ → Block (Unit {0}) (Result (ℤ × ℤ))
    or_message name text (ok id) = pure (ok (id, pos 0))
    or_message name text (err e) = do
      sent ←
          send env
            (send_captcha_message chat (addressed name text) (captcha_data chat user attempt))
      pure (message_ids sent)
      where
        message_ids : Result ℤ → Result (ℤ × ℤ)
        message_ids (ok id) = ok (pos 0, id)
        message_ids (err e) = err e

    delivered : Result (ℤ × ℤ) → Block (Unit {0}) (ℤ × ℤ)
    unfolding fail_open fail_if
    delivered (ok ids) = pure ids
    delivered (err e) = do r ← fail_open chat user attempt; fail_if r; exit tt

    prompted : ℤ × ℤ → Option CaptchaRow → Block (Unit {0}) (Unit {0})
    unfolding fail_open fail_if
    prompted ids none = do
      r ← fail_open chat user attempt
      delete_ids env (sent_row chat user (pos 0) ids.0 ids.1)
      fail_if r
    prompted ids (some saved) = if superseded attempt saved then delete_ids env saved else pure tt

  challenge_body : JoinEvent → ℕ → CaptchaPolicy → Text → Block (Unit {0}) (Unit {0})
  unfolding muted opened or_message delivered prompted
  challenge_body ev attempt pol name = do
    restricted ← call env (restrict_member ev.chat_id ev.user_id)
    muted ev.chat_id ev.user_id attempt restricted
    moved ← move env ev.chat_id ev.user_id attempt fresh challenged
    opened ev.chat_id ev.user_id attempt moved
    private ← send env (
        send_captcha_ephemeral ev.chat_id ev.user_id pol.text
          (captcha_data ev.chat_id ev.user_id attempt))
    sent ← or_message ev.chat_id ev.user_id attempt name pol.text private
    ids ← delivered ev.chat_id ev.user_id attempt sent
    sent_at ← observe env env.clock
    saved ← write env (
        set_captcha_prompt ev.chat_id ev.user_id attempt (pos 0) ids.0 ids.1
          (unix_after sent_at pol.timeout))
    prompted ev.chat_id ev.user_id attempt ids saved

  -- Captcha.challenge
  pub challenge : {R : Type 0} → JoinEvent → ℕ → CaptchaPolicy → Text → Block R (Unit {0})
  unfolding challenge_body
  challenge ev attempt pol name = do
    enter (challenge_body ev attempt pol name)
    untrack ev.chat_id ev.user_id

  join_opened : Option (CaptchaRow × Bool) → Block (Unit {0}) (Unit {0})
  join_opened none = do log_error; exit tt
  join_opened (some (row, true)) = pure tt
  join_opened (some (row, false)) = exit tt

  -- A transition whose failure is only logged.
  or_logged : Option (CaptchaRow × Bool) → Block (Unit {0}) (Unit {0})
  or_logged none = log_error
  or_logged (some r) = pure tt

  join_delivered : JoinRequest → ℕ → Result ℤ → Block (Unit {0}) ℤ
  unfolding or_logged
  join_delivered r attempt (ok id) = pure id
  join_delivered r attempt (err e) = do
    moved ← move env r.chat_id r.user_id attempt challenged cancelled
    or_logged moved
    count Outcome.prompt_failed
    exit tt

  join_prompted : JoinRequest → ℕ → ℤ → Option CaptchaRow → Block (Unit {0}) (Unit {0})
  unfolding or_logged
  join_prompted r attempt id none = do
    moved ← move env r.chat_id r.user_id attempt challenged cancelled
    or_logged moved
    delete_ids env (sent_row r.chat_id r.user_id r.user_chat_id (pos 0) id)
    count Outcome.prompt_failed
  join_prompted r attempt id (some saved) =
      if superseded attempt saved
      then delete_ids env (sent_row r.chat_id r.user_id r.user_chat_id (pos 0) id)
      else pure tt

  challenge_join_body : JoinRequest → ℕ → CaptchaPolicy → Block (Unit {0}) (Unit {0})
  unfolding join_opened join_delivered join_prompted
  challenge_join_body r attempt pol = do
    moved ← move env r.chat_id r.user_id attempt fresh challenged
    join_opened moved
    sent ←
        send env
          (send_captcha_message r.user_chat_id pol.text (captcha_data r.chat_id r.user_id attempt))
    id ← join_delivered r attempt sent
    sent_at ← observe env env.clock
    saved ← write env (
        set_captcha_prompt r.chat_id r.user_id attempt r.user_chat_id (pos 0) id
          (unix_after sent_at pol.timeout))
    join_prompted r attempt id saved

  -- Captcha.challengeJoin
  pub challenge_join : {R : Type 0} → JoinRequest → ℕ → CaptchaPolicy → Block R (Unit {0})
  unfolding challenge_join_body
  challenge_join r attempt pol = do
    enter (challenge_join_body r attempt pol)
    untrack r.chat_id r.user_id

  approved : {R : Type 0} → Result (Unit {0}) → Block R (Unit {0})
  approved (ok _) = pure tt
  approved (err e) = log_error

  -- A function given to Captcha.Go
  pub run_task : {R : Type 0} → Task → Block R (Unit {0})
  unfolding approved challenge challenge_join
  run_task (challenge_task ev attempt pol name) = challenge ev attempt pol name
  run_task (challenge_join_task r attempt pol) = challenge_join r attempt pol
  run_task (approve_task chat user) = do r ← call env (approve_join_request chat user); approved r
