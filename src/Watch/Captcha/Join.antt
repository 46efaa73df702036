-- ===== src/Watch/Captcha/Join.antt =====
-- internal/watch/captcha.go and captcha_join_request.go: who is challenged as a member joins or asks to,
-- and an administrator's change to a member who is.
pub mod Sound
use telegram_antispam.Common.{
  ℕ, zero, suc, ltb, ℤ, same, Bool, true, false, ◌&&◌, ◌||◌, not, if◌then◌else◌, List, [], ◌∷◌,
  Option, none, some,
}
use telegram_antispam.Store.MessageIds.{Text, trim_space}
use telegram_antispam.Store.Captcha.{
  CaptchaState, fresh, challenged, cancelled, CaptchaRow, get_captcha, captcha_passed,
  begin_captcha, in_states, transition_captcha,
}
use telegram_antispam.Config.Captcha.{CaptchaMode, CaptchaPolicy}
use telegram_antispam.Detect.Trust.{trust_count}
use telegram_antispam.Watch.World.{
  Outcome, JoinEvent, JoinRequest, Task, challenge_task, challenge_join_task, approve_task, Env,
  Block, ◌>>=◌, ◌>>◌, pure, exit, write, query, observe, unix, unix_after,
}
use telegram_antispam.Watch.Captcha.{
  WatchError, store_failed, Gate, opened, closed, broken, gate, delete_ids, track, spawn,
  is_join_request, stop_if, require,
}

-- What a handler returns: an outcome and an error.
abbrev pub Handled : Type 0
Handled = Outcome × Option WatchError

abbrev pub store_error : Handled
store_error = (Outcome.error, some store_failed)

abbrev pub pass_gate : Gate → Block Handled CaptchaPolicy
pass_gate (opened pol) = pure pol
pass_gate (closed out) = exit (out, none)
pass_gate (broken e) = exit (Outcome.error, some e)

-- type MemberChange
pub record MemberChange : Type 0 where
  pub chat_id : ℤ
  pub user_id : ℤ
  pub actor_id : ℤ

module _ (env : Env) where
  -- The challenge is begun, unless one is pending.
  begin : CaptchaPolicy → ℤ → ℤ → CaptchaMode → Block Handled CaptchaRow
  begin pol chat user mode = do
    now ← observe env env.clock
    begun ←
        write env
          (λ t. some (begin_captcha chat user (unix now) (unix_after now pol.timeout) mode t))
    r ← require store_error begun
    stop_if (not r.1) (Outcome.skip_pending, none)
    pure r.0

  -- Captcha.OnJoin
  pub on_join : JoinEvent → Text → Block Handled Handled
  unfolding begin
  on_join ev display_name = do
    g ← gate env ev.chat_id
    pol ← pass_gate g
    stop_if (is_join_request pol.mode) (Outcome.skip_mode, none)
    stop_if ev.restricted (Outcome.skip_restricted, none)
    blocked ← observe env (λ n. env.listed n ev.user_id)
    stop_if blocked (Outcome.skip_blocklisted, none)
    answer ← query env (λ _ t. captcha_passed ev.chat_id ev.user_id t)
    passed ← require store_error answer
    stop_if passed (Outcome.skip_known, none)
    answer' ← query env (λ n _. trust_count ev.chat_id ev.user_id (env.trust n))
    trust ← require store_error answer'
    stop_if (ltb 0 trust) (Outcome.skip_known, none)
    row ← begin pol ev.chat_id ev.user_id CaptchaMode.button
    track ev.chat_id ev.user_id
    spawn (challenge_task ev row.attempt pol (trim_space display_name))
    pure (Outcome.challenged, none)

  -- Captcha.OnJoinRequest
  pub on_join_request : JoinRequest → Block Handled Handled
  unfolding begin
  on_join_request r = do
    g ← gate env r.chat_id
    pol ← pass_gate g
    stop_if (not (is_join_request pol.mode)) (Outcome.skip_mode, none)
    blocked ← observe env (λ n. env.listed n r.user_id)
    stop_if blocked (Outcome.skip_blocklisted, none)
    answer ← query env (λ _ t. captcha_passed r.chat_id r.user_id t)
    passed ← require store_error answer
    answer' ← query env (λ n _. trust_count r.chat_id r.user_id (env.trust n))
    trust ← require store_error answer'
    if passed || ltb 0 trust
        then (do spawn (approve_task r.chat_id r.user_id); pure (Outcome.approved_known, none))
        else (do
          row ← begin pol r.chat_id r.user_id CaptchaMode.join_request
          track r.chat_id r.user_id
          spawn (challenge_join_task r row.attempt pol)
          pure (Outcome.challenged, none))

  abbrev pub still_open : List CaptchaState
  still_open = fresh ∷ challenged ∷ []

  found_open : Option CaptchaRow → Block Handled CaptchaRow
  found_open none = exit (Outcome.skip, none)
  found_open (some row) = if in_states still_open row then pure row else exit (Outcome.skip, none)

  -- Captcha.OnMemberChange
  pub on_member_change : MemberChange → Block Handled Handled
  unfolding found_open
  on_member_change ch = do
    answer ← query env (λ _ t. get_captcha ch.chat_id ch.user_id t)
    found ← require store_error answer
    row ← found_open found
    stop_if (same ch.actor_id env.self_id || same ch.actor_id ch.user_id) (Outcome.skip, none)
    answer' ← write env (transition_captcha ch.chat_id ch.user_id row.attempt still_open cancelled)
    updated ← require store_error answer'
    stop_if (not updated.1) (Outcome.skip, none)
    delete_ids env updated.0
    pure (Outcome.cancelled_by_admin, none)
