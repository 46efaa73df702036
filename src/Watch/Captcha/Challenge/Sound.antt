-- ===== src/Watch/Captcha/Challenge/Sound.antt =====
-- internal/watch/captcha.go and captcha_join_request.go: the functions given to Captcha.Go keep what Sound
-- states.
use telegram_antispam.Common.{ℕ, ℤ, Bool, true, false, Option, none, some, ◌≡◌, refl}
use telegram_antispam.Store.MessageIds.{Text}
use telegram_antispam.Store.Captcha.{CaptchaRow}
use telegram_antispam.Store.Captcha.Life.{all_forward}
use telegram_antispam.Config.Captcha.{CaptchaPolicy}
use telegram_antispam.Incident.World.{Result, ok, err}
use telegram_antispam.Watch.World.{
  Env, JoinEvent, JoinRequest, Task, challenge_task, challenge_join_task, approve_task,
}
use telegram_antispam.Watch.Captcha.Challenge.{
  note_row, note_restrict_after_cancel, or_log, fail_open, fail_if, muted, opened, or_message,
  delivered, prompted, challenge_body, challenge, join_opened, or_logged, join_delivered,
  join_prompted, challenge_join_body, challenge_join, approved, run_task,
}
use telegram_antispam.Watch.Sound.{
  Sound, Sound-bind, Sound-pure, Sound-observe, Sound-query, Sound-call, Sound-send,
  Sound-transition, Sound-fail_captcha, Sound-set_captcha_prompt,
}
use telegram_antispam.Watch.Captcha.Sound.{captcha_rules, Sound-delete_ids}
use telegram_antispam.Watch.Captcha.Fail.Sound.{Sound-fail}

module _ (env : Env) (honest : (n : ℕ) → all_forward (env.others n) ≡ true) where
  Sound-note_row : {R : Type 0} (o : Option (Option CaptchaRow)) → Sound {R = R} (note_row env o)
  unfolding note_row
  Sound-note_row none = search captcha_rules
  Sound-note_row (some row) = search captcha_rules

  Sound-note :
      {R : Type 0} (chat user : ℤ) → Sound {R = R} (note_restrict_after_cancel env chat user)
  unfolding note_restrict_after_cancel
  Sound-note chat user = search (captcha_rules, Sound-query env honest, Sound-note_row)

  Sound-or_log : (o : Option (CaptchaRow × Bool)) → Sound (or_log env o)
  unfolding or_log
  Sound-or_log none = search captcha_rules
  Sound-or_log (some r) = search captcha_rules

  Sound-fail_open : (chat user : ℤ) (attempt : ℕ) → Sound (fail_open env chat user attempt)
  unfolding fail_open
  Sound-fail_open chat user attempt =
      search (captcha_rules, Sound-fail_captcha env honest, Sound-or_log)

  Sound-fail_if : {R : Type 0} (r : CaptchaRow × Bool) → Sound {R = R} (fail_if env r)
  unfolding fail_if
  Sound-fail_if r = search (captcha_rules, Sound-fail env honest)

  module _ (chat user : ℤ) (attempt : ℕ) where
    Sound-muted : (r : Result (Unit {0})) → Sound (muted env chat user attempt r)
    unfolding muted
    Sound-muted (ok u) = search captcha_rules
    Sound-muted (err e) = search (captcha_rules, Sound-transition env honest)

    Sound-opened : (o : Option (CaptchaRow × Bool)) → Sound (opened env chat user attempt o)
    unfolding opened
    Sound-opened none = search (captcha_rules, Sound-note)
    Sound-opened (some (row, true)) = search captcha_rules
    Sound-opened (some (row, false)) = search (captcha_rules, Sound-note)

    Sound-or_message :
        (name text : Text) (r : Result ℤ) → Sound (or_message env chat user attempt name text r)
    unfolding or_message
    Sound-or_message name text (ok id) = Sound-pure _
    Sound-or_message name text (err e) =
        Sound-bind _ _ (Sound-send env honest _ (λ r es. refl)) (λ r. Sound-pure _)

    Sound-delivered : (r : Result (ℤ × ℤ)) → Sound (delivered env chat user attempt r)
    unfolding delivered
    Sound-delivered (ok ids) = Sound-pure _
    Sound-delivered (err e) = search (captcha_rules, Sound-fail_open, Sound-fail_if)

    Sound-prompted :
        (ids : ℤ × ℤ) (o : Option CaptchaRow) → Sound (prompted env chat user attempt ids o)
    unfolding prompted
    Sound-prompted ids none =
        search (captcha_rules, Sound-fail_open, Sound-fail_if, Sound-delete_ids env honest)
    Sound-prompted ids (some saved) = search (captcha_rules, Sound-delete_ids env honest)

  Sound-challenge_body :
      (ev : JoinEvent) (attempt : ℕ) (pol : CaptchaPolicy) (name : Text)
      → Sound (challenge_body env ev attempt pol name)
  unfolding challenge_body
  Sound-challenge_body ev attempt pol name =
      search
        (
          captcha_rules,
          Sound-call env honest,
          Sound-send env honest,
          Sound-muted,
          Sound-transition env honest,
          Sound-opened,
          Sound-or_message,
          Sound-delivered,
          Sound-observe env honest,
          Sound-set_captcha_prompt env honest,
          Sound-prompted,
        )
        depth 24

  pub Sound-challenge :
      {R : Type 0} (ev : JoinEvent) (attempt : ℕ) (pol : CaptchaPolicy) (name : Text)
      → Sound {R = R} (challenge env ev attempt pol name)
  unfolding challenge
  Sound-challenge ev attempt pol name = search (captcha_rules, Sound-challenge_body)

  Sound-join_opened : (o : Option (CaptchaRow × Bool)) → Sound (join_opened env o)
  unfolding join_opened
  Sound-join_opened none = search captcha_rules
  Sound-join_opened (some (row, true)) = search captcha_rules
  Sound-join_opened (some (row, false)) = search captcha_rules

  Sound-or_logged : (o : Option (CaptchaRow × Bool)) → Sound (or_logged env o)
  unfolding or_logged
  Sound-or_logged none = search captcha_rules
  Sound-or_logged (some r) = search captcha_rules

  Sound-join_delivered :
      (r : JoinRequest) (attempt : ℕ) (o : Result ℤ) → Sound (join_delivered env r attempt o)
  unfolding join_delivered
  Sound-join_delivered r attempt (ok id) = Sound-pure _
  Sound-join_delivered r attempt (err e) =
      search (captcha_rules, Sound-transition env honest, Sound-or_logged)

  Sound-join_prompted :
      (r : JoinRequest) (attempt : ℕ) (id : ℤ) (o : Option CaptchaRow)
      → Sound (join_prompted env r attempt id o)
  unfolding join_prompted
  Sound-join_prompted r attempt id none =
      search
        (captcha_rules, Sound-transition env honest, Sound-or_logged, Sound-delete_ids env honest)
  Sound-join_prompted r attempt id (some saved) =
      search (captcha_rules, Sound-delete_ids env honest)

  Sound-challenge_join_body :
      (r : JoinRequest) (attempt : ℕ) (pol : CaptchaPolicy)
      → Sound (challenge_join_body env r attempt pol)
  unfolding challenge_join_body
  Sound-challenge_join_body r attempt pol =
      search
        (
          captcha_rules,
          Sound-transition env honest,
          Sound-join_opened,
          Sound-send env honest,
          Sound-join_delivered,
          Sound-observe env honest,
          Sound-set_captcha_prompt env honest,
          Sound-join_prompted,
        )
        depth 24

  pub Sound-challenge_join :
      {R : Type 0} (r : JoinRequest) (attempt : ℕ) (pol : CaptchaPolicy)
      → Sound {R = R} (challenge_join env r attempt pol)
  unfolding challenge_join
  Sound-challenge_join r attempt pol = search (captcha_rules, Sound-challenge_join_body)

  Sound-approved : {R : Type 0} (r : Result (Unit {0})) → Sound {R = R} (approved env r)
  unfolding approved
  Sound-approved (ok u) = search captcha_rules
  Sound-approved (err e) = search captcha_rules

  pub Sound-run_task : {R : Type 0} (t : Task) → Sound {R = R} (run_task env t)
  unfolding run_task
  Sound-run_task (challenge_task ev attempt pol name) = Sound-challenge ev attempt pol name
  Sound-run_task (challenge_join_task r attempt pol) = Sound-challenge_join r attempt pol
  Sound-run_task (approve_task chat user) =
      Sound-bind _ _ (Sound-call env honest _ (λ r es. refl)) (λ r. Sound-approved r)
