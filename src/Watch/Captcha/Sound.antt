-- ===== src/Watch/Captcha/Sound.antt =====
-- internal/watch/captcha.go: the gate, the end of a prompt and the bookkeeping keep what Sound states.
use telegram_antispam.Common.{ℕ, ℤ, pos, same, Bool, true, false, Option, none, some, ◌≡◌, refl}
use telegram_antispam.Store.Captcha.{CaptchaRow}
use telegram_antispam.Store.Captcha.Life.{all_forward}
use telegram_antispam.Watch.World.{Outcome, counted, Config, Task, Env, count}
use telegram_antispam.Watch.Captcha.{
  gate_config, gate, delete_private, delete_ids, track, untrack, tracking, spawn, stop_if, require,
}
use telegram_antispam.Watch.Sound.{
  Sound, Sound-bind, Sound-then, Sound-pure, Sound-exit, Sound-if, Sound-emit, Sound-query,
  Sound-observe, Sound-call, sound_rules, Sound-enter, Keeps_refl, Keeps,
}

pub Sound-count : {R : Type 0} (out : Outcome) → Sound {R = R} (count out)
Sound-count out = Sound-emit (counted out) (λ es. refl)

pub Sound-stop_if : {R : Type 0} (b : Bool) (r : R) → Sound (stop_if b r)
Sound-stop_if true r = Sound-exit r
Sound-stop_if false r = Sound-pure tt

pub Sound-require : {R A : Type 0} (r : R) (o : Option A) → Sound (require r o)
Sound-require r none = Sound-exit r
Sound-require r (some a) = Sound-pure a

module _ {R : Type 0} where
  pub Sound-track : (chat user : ℤ) → Sound {R = R} (track chat user)
  unfolding track
  Sound-track chat user = record {
    run = λ w. record { advances = (Keeps_refl w).advances; distinct = λ d. d; checked = λ h. h };
  }

  pub Sound-untrack : (chat user : ℤ) → Sound {R = R} (untrack chat user)
  unfolding untrack
  Sound-untrack chat user = record {
    run = λ w. record { advances = (Keeps_refl w).advances; distinct = λ d. d; checked = λ h. h };
  }

  pub Sound-tracking : (chat user : ℤ) → Sound {R = R} (tracking chat user)
  unfolding tracking
  Sound-tracking chat user = record { run = λ w. Keeps_refl w }

  pub Sound-spawn : (t : Task) → Sound {R = R} (spawn t)
  unfolding spawn
  Sound-spawn t = record {
    run = λ w. record { advances = (Keeps_refl w).advances; distinct = λ d. d; checked = λ h. h };
  }

module _ (env : Env) (honest : (n : ℕ) → all_forward (env.others n) ≡ true) {R : Type 0} where
  Sound-gate_config : (chat : ℤ) (o : Option Config) → Sound {R = R} (gate_config env chat o)
  unfolding gate_config
  Sound-gate_config chat none = search sound_rules
  Sound-gate_config chat (some cfg) = search (sound_rules, Sound-query env honest)

  pub Sound-gate : (chat : ℤ) → Sound {R = R} (gate env chat)
  unfolding gate
  Sound-gate chat = search (sound_rules, Sound-observe env honest, Sound-gate_config)

  pub Sound-delete_ids : (row : CaptchaRow) → Sound {R = R} (delete_ids env row)
  unfolding delete_ids delete_private
  Sound-delete_ids row =
      Sound-then _ _
        (Sound-if (same row.ephemeral_id (pos 0)) _ _ (Sound-pure tt)
          (Sound-then _ _ (Sound-call env honest _ (λ r es. refl)) (Sound-pure tt)))
        (Sound-if (same row.message_id (pos 0)) _ _ (Sound-pure tt)
          (Sound-then _ _ (Sound-call env honest _ (λ r es. refl)) (Sound-pure tt)))

pub ruleset captcha_rules = (
  Sound-bind, Sound-then, Sound-pure, Sound-exit, Sound-if, Sound-count, Sound-stop_if,
  Sound-require, Sound-track, Sound-untrack, Sound-tracking, Sound-spawn, Sound-enter,
)
