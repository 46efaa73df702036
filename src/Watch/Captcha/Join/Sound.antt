-- ===== src/Watch/Captcha/Join/Sound.antt =====
-- internal/watch/captcha.go and captcha_join_request.go: the handlers of a join, of a request and of a
-- change keep what Sound states.
use telegram_antispam.Common.{ℕ, ℤ, true, Option, none, some, ◌≡◌}
use telegram_antispam.Store.MessageIds.{Text}
use telegram_antispam.Store.Captcha.{CaptchaRow}
use telegram_antispam.Store.Captcha.Life.{all_forward}
use telegram_antispam.Config.Captcha.{CaptchaMode, CaptchaPolicy}
use telegram_antispam.Watch.World.{Env, JoinEvent, JoinRequest}
use telegram_antispam.Watch.Captcha.{Gate, opened, closed, broken}
use telegram_antispam.Watch.Captcha.Join.{
  pass_gate, begin, on_join, on_join_request, found_open, MemberChange, on_member_change,
}
use telegram_antispam.Watch.Sound.{
  Sound, Sound-pure, Sound-observe, Sound-query, Sound-begin, Sound-transition,
}
use telegram_antispam.Watch.Captcha.Sound.{captcha_rules, Sound-gate, Sound-delete_ids}

Sound-pass_gate : (g : Gate) → Sound (pass_gate g)
Sound-pass_gate (opened pol) = Sound-pure pol
Sound-pass_gate (closed out) = search captcha_rules
Sound-pass_gate (broken e) = search captcha_rules

module _ (env : Env) (honest : (n : ℕ) → all_forward (env.others n) ≡ true) where
  Sound-begin_challenge :
      (pol : CaptchaPolicy) (chat user : ℤ) (mode : CaptchaMode)
      → Sound (begin env pol chat user mode)
  unfolding begin
  Sound-begin_challenge pol chat user mode =
      search (captcha_rules, Sound-observe env honest, Sound-begin env honest)

  pub Sound-on_join : (ev : JoinEvent) (name : Text) → Sound (on_join env ev name)
  unfolding on_join
  Sound-on_join ev name =
      search
        (
          captcha_rules,
          Sound-gate env honest,
          Sound-pass_gate,
          Sound-observe env honest,
          Sound-query env honest,
          Sound-begin_challenge,
        )
        depth 24

  pub Sound-on_join_request : (r : JoinRequest) → Sound (on_join_request env r)
  unfolding on_join_request
  Sound-on_join_request r =
      search
        (
          captcha_rules,
          Sound-gate env honest,
          Sound-pass_gate,
          Sound-observe env honest,
          Sound-query env honest,
          Sound-begin_challenge,
        )
        depth 24

  Sound-found_open : (o : Option CaptchaRow) → Sound (found_open env o)
  unfolding found_open
  Sound-found_open none = search captcha_rules
  Sound-found_open (some row) = search captcha_rules

  pub Sound-on_member_change : (ch : MemberChange) → Sound (on_member_change env ch)
  unfolding on_member_change
  Sound-on_member_change ch =
      search
        (
          captcha_rules,
          Sound-query env honest,
          Sound-found_open,
          Sound-transition env honest,
          Sound-delete_ids env honest,
        )
        depth 24
