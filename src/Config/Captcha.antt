-- ===== src/Config/Captcha.antt =====
-- internal/config/config.go: the captcha block, its defaults, what Validate accepts and what For
-- resolves for a chat. Which field an error names is left out of the error.
pub mod Resolved
use telegram_antispam.Common.{
  ℕ, ℤ, pos, negsuc, same, le_id, ltb, leb, Bool, true, false, ◌&&◌, ◌||◌, not, if◌then◌else◌, List,
  [], ◌∷◌, Option, none, some, length, is_empty,
}
use telegram_antispam.Store.MessageIds.{Text, trim_space}
use telegram_antispam.Config.{ChatsPolicy, entry, entries_allowed, telegram_message_runes}

-- The strings of `mode`; the empty one is unset.
pub data CaptchaMode : Type 0 where
  unset_mode button join_request : CaptchaMode
  other_mode : Text → CaptchaMode

-- The strings of `on_fail`, and those that the program itself stores as a row's fail_action.
pub data FailAction : Type 0 where
  unset_action kick keep_muted unrestrict decline : FailAction
  other_action : Text → FailAction

-- type CaptchaChat
pub record CaptchaChat : Type 0 where
  pub enabled : Option Bool
  pub mode : CaptchaMode
  pub timeout : ℤ
  pub on_fail : FailAction
  pub text : Text
  pub button_text : Text

-- type Captcha
pub record Captcha : Type 0 where
  pub enabled : Option Bool
  pub mode : CaptchaMode
  pub timeout : Option ℤ
  pub on_fail : FailAction
  pub text : Option Text
  pub button_text : Option Text
  pub chats : List (ℤ × CaptchaChat)

-- type CaptchaPolicy
pub record CaptchaPolicy : Type 0 where
  pub mode : CaptchaMode
  pub timeout : ℤ
  pub on_fail : FailAction
  pub text : Text
  pub button_text : Text

abbrev pub second : ℕ
second = 1000000000

abbrev pub captcha_timeout_min : ℤ
captcha_timeout_min = pos 30000000000

abbrev pub captcha_timeout_max : ℤ
captcha_timeout_max = pos 3600000000000

abbrev pub two_minutes : ℤ
two_minutes = pos 120000000000

abbrev pub captcha_button_runes : ℕ
captcha_button_runes = 64

-- captchaDuration and captchaString
unfoldable pub captcha_duration : Option ℤ → ℤ → ℤ
captcha_duration none fallback = fallback
captcha_duration (some d) fallback = d

unfoldable pub captcha_string : Option Text → Text → Text
captcha_string none fallback = fallback
captcha_string (some s) fallback = trim_space s

abbrev pub mode_or : CaptchaMode → CaptchaMode → CaptchaMode
mode_or unset_mode m = m
mode_or n m = n

abbrev pub action_or : FailAction → FailAction → FailAction
action_or unset_action a = a
action_or b a = b

abbrev pub timeout_or : ℤ → ℤ → ℤ
timeout_or t u = if same t (pos 0) then u else t

abbrev pub text_or : Text → Text → Text
text_or [] u = u
text_or (c ∷ cs) u = trim_space (c ∷ cs)

-- The entry of a chat over what the block says.
override_policy : Option CaptchaChat → CaptchaPolicy → CaptchaPolicy
override_policy none p = p
override_policy (some ch) p = record {
  mode = mode_or ch.mode p.mode;
  timeout = timeout_or ch.timeout p.timeout;
  on_fail = action_or ch.on_fail p.on_fail;
  text = text_or ch.text p.text;
  button_text = text_or ch.button_text p.button_text;
}

abbrev pub or_false : Option Bool → Bool
or_false none = false
or_false (some b) = b

abbrev pub override_enabled : Option CaptchaChat → Bool → Bool
override_enabled none on = on
override_enabled (some ch) on = elim ch.enabled [ none ↦ on | some b ↦ b ]

-- The texts that the program falls back on, which are arguments.
module _ (default_text default_button : Text) where
  block_policy : Captcha → CaptchaPolicy
  unfolding captcha_duration captcha_string
  block_policy c = record {
    mode = c.mode;
    timeout = captcha_duration c.timeout two_minutes;
    on_fail = c.on_fail;
    text = captcha_string c.text default_text;
    button_text = captcha_string c.button_text default_button;
  }

  -- Captcha.For
  unfoldable pub captcha_for : Captcha → ℤ → CaptchaPolicy × Bool
  unfolding override_policy block_policy
  captcha_for c chat =
      let e = entry chat c.chats in
      (override_policy e (block_policy c), override_enabled e (or_false c.enabled))

  -- applyCaptchaDefaults
  unfoldable pub apply_captcha_defaults : Captcha → Captcha
  apply_captcha_defaults c = record c {
    enabled = some (or_false c.enabled);
    mode = mode_or c.mode button;
    timeout = elim c.timeout [ none ↦ some two_minutes | some d ↦ some d ];
    on_fail = action_or c.on_fail kick;
    text = elim c.text [ none ↦ some default_text | some s ↦ some s ];
    button_text = elim c.button_text [ none ↦ some default_button | some s ↦ some s ];
  }

-- The errors of validateCaptcha.
pub data CaptchaError : Type 0 where
  bad_mode bad_on_fail bad_timeout bad_text bad_button not_allowed empty_while_enabled :
      CaptchaError

-- captchaMode
abbrev pub captcha_mode : CaptchaMode → Bool
captcha_mode (other_mode s) = false
captcha_mode _ = true

-- captchaOnFail
abbrev pub captcha_on_fail : FailAction → Bool
captcha_on_fail unset_action = true
captcha_on_fail kick = true
captcha_on_fail keep_muted = true
captcha_on_fail _ = false

-- captchaTimeout
abbrev pub captcha_timeout : ℤ → Bool → Bool
captcha_timeout d required =
    if same d (pos 0) && not required
    then true
    else le_id captcha_timeout_min d && le_id d captcha_timeout_max

-- captchaText and captchaButton
abbrev pub captcha_text : ℕ → Text → Bool → Bool
captcha_text limit text reject_empty =
    if reject_empty && is_empty (trim_space text)
    then false
    else leb (length (trim_space text)) limit

-- captchaFields
captcha_fields : CaptchaMode → FailAction → Text → Text → ℤ → Bool → Bool → Option CaptchaError
captcha_fields mode on_fail text label timeout required reject_empty =
    if not (captcha_mode mode)
    then some bad_mode
    else if not (captcha_on_fail on_fail)
    then some bad_on_fail
    else if not (captcha_timeout timeout required)
    then some bad_timeout
    else if not (captcha_text telegram_message_runes text reject_empty)
    then some bad_text
    else if not (captcha_text captcha_button_runes label reject_empty)
    then some bad_button
    else none

or_else : Option CaptchaError → Option CaptchaError → Option CaptchaError
or_else none rest = rest
or_else (some e) rest = some e

module _ (default_text default_button : Text) where
  check_resolved : CaptchaPolicy × Bool → Option CaptchaError → Option CaptchaError
  check_resolved r rest =
      if r.1 && (is_empty r.0.text || is_empty r.0.button_text)
      then some empty_while_enabled
      else rest

  -- The loop over the entries.
  validate_chats : Captcha → List (ℤ × CaptchaChat) → Option CaptchaError
  unfolding captcha_fields check_resolved or_else
  validate_chats g [] = none
  validate_chats g (e ∷ es) =
      or_else (captcha_fields e.1.mode e.1.on_fail e.1.text e.1.button_text e.1.timeout false false)
        (check_resolved (captcha_for default_text default_button g e.0) (validate_chats g es))

  -- validateCaptcha
  unfoldable pub validate_captcha : ChatsPolicy → Captcha → Option CaptchaError
  unfolding validate_chats
  validate_captcha p g =
      or_else
        (captcha_fields g.mode g.on_fail (captcha_string g.text [])
          (captcha_string g.button_text []) (captcha_duration g.timeout (pos 0)) true true)
        (if not (entries_allowed p g.chats) then some not_allowed else validate_chats g g.chats)
