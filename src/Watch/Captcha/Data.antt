-- ===== src/Watch/Captcha/Data.antt =====
-- internal/watch/captcha.go: parseCaptchaData reads what captchaData writes.
use telegram_antispam.Common.{ℕ, suc, ℤ, pos, ◌∷◌, ◌++◌, some, ◌≡◌, refl}
use telegram_antispam.Store.MessageIds.{itoa}
use telegram_antispam.Store.MessageIds.Digits.{InRange, atoi-itoa, plain-itoa}
use telegram_antispam.Store.MessageIds.RoundTrip.{split_on-plain, split_on-append}
use telegram_antispam.Watch.Captcha.{
  captcha_data, cut_prefix, at_least_one, three_parts, parse_parts, parse_captcha_data,
}

three_parts-some :
    (chat user : ℤ) (n : ℕ)
    → three_parts (some chat) (some user) (some (pos (suc n))) ≡ some (chat, user, suc n)
unfolding three_parts at_least_one
three_parts-some chat user n = refl

-- The data of a button that is sent for an attempt is read back as that chat, user and attempt, for ids
-- of 64 bits and an attempt from 1 on.
pub parse_captcha_data-captcha_data :
    (chat user : ℤ) (attempt : ℕ)
    → InRange chat
    → InRange user
    → InRange (pos (suc attempt))
    → parse_captcha_data (captcha_data chat user (suc attempt)) ≡ some (chat, user, suc attempt)
unfolding parse_captcha_data captcha_data cut_prefix parse_parts
parse_captcha_data-captcha_data chat user attempt hc hu ha =
    let a = pos (suc attempt) in
    rw
      (
        split_on-append b':' (itoa chat) (itoa user ++ (b':' ∷ itoa a)) refl (plain-itoa chat),
        split_on-append b':' (itoa user) (itoa a) refl (plain-itoa user),
        split_on-plain b':' (itoa a) refl (plain-itoa a),
        atoi-itoa chat hc,
        atoi-itoa user hu,
        atoi-itoa a ha,
      )
      (three_parts-some chat user attempt)
