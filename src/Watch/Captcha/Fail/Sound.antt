-- ===== src/Watch/Captcha/Fail/Sound.antt =====
-- internal/watch/captcha.go: the end of a failed challenge keeps what Sound states.
use telegram_antispam.Common.{
  ℕ, Bool, true, false, if◌then◌else◌, [], ◌∷◌, Option, none, some, ◌≡◌, refl,
}
use telegram_antispam.Store.Captcha.{CaptchaState, failing, failed, cancelled, CaptchaRow}
use telegram_antispam.Store.Captcha.Life.{all_forward, all_lead}
use telegram_antispam.Config.Captcha.{
  FailAction, unset_action, kick, keep_muted, unrestrict, decline, other_action,
}
use telegram_antispam.Incident.World.{Result, ok, err}
use telegram_antispam.Watch.World.{Outcome, Env, Block}
use telegram_antispam.Watch.Captcha.Fail.{
  is_unrestrict, finish_fail, give_up, retry, or_retry, cancel_sanctioned, release, fail_by, fail,
}
use telegram_antispam.Watch.Sound.{
  Sound, Sound-bind, Sound-if, Sound-observe, Sound-call, Sound-transition, Sound-retry_captcha,
  lift_keeps, Sound-after_check,
}
use telegram_antispam.Watch.Captcha.Sound.{captcha_rules}

cancelled_or_failed : (b : Bool) → all_lead (failing ∷ []) (if b then cancelled else failed) ≡ true
cancelled_or_failed true = refl
cancelled_or_failed false = refl

module _ (env : Env) (honest : (n : ℕ) → all_forward (env.others n) ≡ true) {R : Type 0} where
  Sound-finish_fail :
      (row : CaptchaRow) (to : CaptchaState) (out : Outcome)
      → all_lead (failing ∷ []) to ≡ true
      → Sound {R = R} (finish_fail env row to out)
  unfolding finish_fail
  Sound-finish_fail row to out h = search (captcha_rules, Sound-transition env honest)

  pub Sound-give_up : (row : CaptchaRow) → Sound {R = R} (give_up env row)
  unfolding give_up
  Sound-give_up row =
      Sound-finish_fail row _ _ (cancelled_or_failed (is_unrestrict row.fail_action))

  pub Sound-retry : (row : CaptchaRow) → Sound {R = R} (retry env row)
  unfolding retry
  Sound-retry row = search (captcha_rules, Sound-observe env honest, Sound-retry_captcha env honest)

  Sound-or_retry :
      (row : CaptchaRow) (r : Result (Unit {0})) (rest : Block R (Unit {0}))
      → Sound rest
      → Sound (or_retry env row r rest)
  unfolding or_retry
  Sound-or_retry row (ok u) rest h = h
  Sound-or_retry row (err e) rest h = Sound-retry row

  Sound-cancel_sanctioned :
      (o : Option (CaptchaRow × Bool)) → Sound {R = R} (cancel_sanctioned env o)
  unfolding cancel_sanctioned
  Sound-cancel_sanctioned none = search captcha_rules
  Sound-cancel_sanctioned (some (row, true)) = search captcha_rules
  Sound-cancel_sanctioned (some (row, false)) = search captcha_rules

  Sound-fail_by : (row : CaptchaRow) (a : FailAction) → Sound {R = R} (fail_by env row a)
  unfolding fail_by release
  Sound-fail_by row unrestrict =
      Sound-after_check env honest row.chat_id row.user_id row.created_at (release env row)
        (search captcha_rules)
        (search (captcha_rules, Sound-transition env honest, Sound-cancel_sanctioned))
        (λ w c.
          lift_keeps env honest row.chat_id row.user_id _ w c
            (λ r. Sound-or_retry row r _ (Sound-finish_fail row cancelled Outcome.released refl)))
  Sound-fail_by row kick = Sound-bind _ _ (Sound-call env honest _ (λ r es. refl)) (λ r.
      Sound-or_retry row r _ (
        Sound-bind _ _ (Sound-call env honest _ (λ r es. refl))
          (λ r'. Sound-or_retry row r' _ (Sound-finish_fail row failed Outcome.failed_kick refl))))
  Sound-fail_by row keep_muted = Sound-finish_fail row failed Outcome.failed_muted refl
  Sound-fail_by row decline =
      Sound-bind _ _ (Sound-call env honest _ (λ r es. refl))
        (λ r. Sound-or_retry row r _ (Sound-finish_fail row failed Outcome.failed_decline refl))
  Sound-fail_by row unset_action = Sound-give_up row
  Sound-fail_by row (other_action s) = Sound-give_up row

  pub Sound-fail : (row : CaptchaRow) → Sound {R = R} (fail env row)
  unfolding fail
  Sound-fail row = Sound-if _ _ _ (Sound-give_up row) (Sound-fail_by row row.fail_action)
