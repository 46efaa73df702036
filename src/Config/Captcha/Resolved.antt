-- ===== src/Config/Captcha/Resolved.antt =====
-- internal/config/config.go: what For resolves from a captcha block that Validate accepts.
use telegram_antispam.Common.{
  ℕ, ℤ, pos, same, le_id, leb, Bool, true, false, ◌&&◌, ◌||◌, not, if◌then◌else◌, List, [], ◌∷◌,
  Option, none, some, length, is_empty, ◌≡◌, refl, sym, subst, inl, inr, arith, Option-cases,
}
use telegram_antispam.Store.MessageIds.{Text}
use telegram_antispam.Store.MessageIds.Trim.{trim_space-trim_space, trim_space_empty}
use telegram_antispam.Config.{ChatsPolicy, entry, entry_cases, telegram_message_runes}
use telegram_antispam.Config.Captcha.{
  CaptchaMode, unset_mode, button, join_request, other_mode, FailAction, unset_action, kick,
  keep_muted, unrestrict, decline, other_action, CaptchaChat, Captcha, CaptchaPolicy,
  captcha_timeout_min, captcha_timeout_max, captcha_button_runes, captcha_duration, captcha_string,
  mode_or, action_or, timeout_or, text_or, override_policy, block_policy, captcha_for,
  apply_captcha_defaults, captcha_mode, captcha_on_fail, captcha_timeout, captcha_text,
  captcha_fields, check_resolved, CaptchaError, two_minutes, or_else, validate_chats,
  validate_captcha,
}

abbrev is_known_mode : CaptchaMode → Bool
is_known_mode button = true
is_known_mode join_request = true
is_known_mode _ = false

abbrev is_known_action : FailAction → Bool
is_known_action kick = true
is_known_action keep_muted = true
is_known_action _ = false

abbrev in_bounds : ℤ → Bool
in_bounds d = le_id captcha_timeout_min d && le_id d captcha_timeout_max

abbrev fits : ℕ → Text → Bool
fits limit s = not (is_empty s) && leb (length s) limit

-- A policy that the captcha can act on.
abbrev pub usable : CaptchaPolicy → Bool
usable p =
    is_known_mode p.mode
    && in_bounds p.timeout
    && is_known_action p.on_fail
    && fits telegram_message_runes p.text
    && fits captcha_button_runes p.button_text

mode_or-known :
    (m n : CaptchaMode)
    → captcha_mode m ≡ true
    → is_known_mode n ≡ true
    → is_known_mode (mode_or m n) ≡ true
mode_or-known unset_mode n h k = k
mode_or-known button n h k = refl
mode_or-known join_request n h k = refl
mode_or-known (other_mode s) n h k = absurd cc

action_or-known :
    (a b : FailAction)
    → captcha_on_fail a ≡ true
    → is_known_action b ≡ true
    → is_known_action (action_or a b) ≡ true
action_or-known unset_action b h k = k
action_or-known kick b h k = refl
action_or-known keep_muted b h k = refl
action_or-known unrestrict b h k = absurd cc
action_or-known decline b h k = absurd cc
action_or-known (other_action s) b h k = absurd cc

timeout_or-in_bounds :
    (t u : ℤ)
    → captcha_timeout t false ≡ true
    → in_bounds u ≡ true
    → in_bounds (timeout_or t u) ≡ true
timeout_or-in_bounds t u h k = ground (arith, h, k)

text_or-short :
    (limit : ℕ) (s u : Text)
    → captcha_text limit s false ≡ true
    → leb (length u) limit ≡ true
    → leb (length (text_or s u)) limit ≡ true
text_or-short limit [] u h k = k
text_or-short limit (c ∷ cs) u h k = h

-- What captchaFields accepts.
fields_accepted :
    (m : CaptchaMode) (a : FailAction) (s l : Text) (t : ℤ) (r : Bool)
    → captcha_fields m a s l t r r ≡ none
    → (captcha_mode m ≡ true)
      × (captcha_on_fail a ≡ true)
      × (captcha_timeout t r ≡ true)
      × (captcha_text telegram_message_runes s r ≡ true)
      × (captcha_text captcha_button_runes l r ≡ true)
unfolding captcha_fields
fields_accepted m a s l t r h = ground (arith, h)

string_fits :
    (limit : ℕ) (o : Option Text) (d : Text)
    → captcha_text limit (captcha_string o []) true ≡ true
    → fits limit (captcha_string o d) ≡ true
unfolding captcha_string
string_fits limit none d h = absurd ground (arith, h, trim_space_empty)
string_fits limit (some s) d h =
    let k =
      subst (λ t. (if is_empty t then false else leb (length t) limit) ≡ true)
        (trim_space-trim_space s) h in
    ground (arith, k)

duration_bounds :
    (o : Option ℤ) (d : ℤ)
    → captcha_timeout (captcha_duration o (pos 0)) true ≡ true
    → in_bounds (captcha_duration o d) ≡ true
unfolding captcha_duration same le_id
duration_bounds none d h = absurd cc
duration_bounds (some t) d h = ground (arith, h)

defaulted_mode :
    (m : CaptchaMode)
    → captcha_mode (mode_or m button) ≡ true
    → is_known_mode (mode_or m button) ≡ true
defaulted_mode unset_mode h = refl
defaulted_mode button h = refl
defaulted_mode join_request h = refl
defaulted_mode (other_mode s) h = absurd cc

defaulted_action :
    (a : FailAction)
    → captcha_on_fail (action_or a kick) ≡ true
    → is_known_action (action_or a kick) ≡ true
defaulted_action unset_action h = refl
defaulted_action kick h = refl
defaulted_action keep_muted h = refl
defaulted_action unrestrict h = absurd cc
defaulted_action decline h = absurd cc
defaulted_action (other_action s) h = absurd cc

both : (a b : Option CaptchaError) → or_else a b ≡ none → (a ≡ none) × (b ≡ none)
unfolding or_else
both none b h = (refl, h)
both (some e) b h = absurd cc

module _ (default_text default_button : Text) where
  -- What the loop checks of an entry.
  EntryAccepted : Captcha → ℤ → CaptchaChat → Type 0
  EntryAccepted g chat ch =
      let r = captcha_for default_text default_button g chat in
      (captcha_fields ch.mode ch.on_fail ch.text ch.button_text ch.timeout false false ≡ none)
      × ((r.1 && (is_empty r.0.text || is_empty r.0.button_text)) ≡ false)

  first_accepted :
      (g : Captcha) (e : ℤ × CaptchaChat) (es : List (ℤ × CaptchaChat))
      → validate_chats default_text default_button g (e ∷ es) ≡ none
      → EntryAccepted g e.0 e.1 × (validate_chats default_text default_button g es ≡ none)
  unfolding validate_chats or_else check_resolved EntryAccepted
  first_accepted g e es h =
      let (f, k) =
        both (captcha_fields e.1.mode e.1.on_fail e.1.text e.1.button_text e.1.timeout false false)
          _ h in
      ((f, ground (arith, k)), ground (arith, k))

  entry_accepted :
      (g : Captcha) (es : List (ℤ × CaptchaChat)) (chat : ℤ) (ch : CaptchaChat)
      → validate_chats default_text default_button g es ≡ none
      → entry chat es ≡ some ch
      → EntryAccepted g chat ch
  entry_accepted g [] chat ch h k = absurd cc
  entry_accepted g (e ∷ es) chat ch h k =
      let (first, rest) = first_accepted g e es h in
      elim (entry_cases chat e es k) [
        | inl (same_chat, same_entry) ↦ rw (sym same_chat, sym same_entry) first
        | inr k' ↦ entry_accepted g es chat ch rest k'
      ]

  block_usable :
      (g : Captcha)
      → is_known_mode g.mode ≡ true
      → is_known_action g.on_fail ≡ true
      → captcha_fields g.mode g.on_fail
          (captcha_string g.text [])
          (captcha_string g.button_text [])
          (captcha_duration g.timeout (pos 0))
          true
          true
        ≡ none
      → usable (block_policy default_text default_button g) ≡ true
  unfolding block_policy
  block_usable g m a h =
      let (mode, action, timeout, text, label) =
        fields_accepted g.mode g.on_fail (captcha_string g.text [])
          (captcha_string g.button_text []) (captcha_duration g.timeout (pos 0)) true h in
      rw
        (
          m,
          a,
          duration_bounds g.timeout two_minutes timeout,
          string_fits telegram_message_runes g.text default_text text,
          string_fits captcha_button_runes g.button_text default_button label,
        )
        refl

  override_usable :
      (ch : CaptchaChat) (p : CaptchaPolicy)
      → usable p ≡ true
      → captcha_fields ch.mode ch.on_fail ch.text ch.button_text ch.timeout false false ≡ none
      → (is_empty (override_policy (some ch) p).text
          || is_empty (override_policy (some ch) p).button_text)
        ≡ false
      → usable (override_policy (some ch) p) ≡ true
  unfolding override_policy
  override_usable ch p u h k =
      let (mode, action, timeout, text, label) =
        fields_accepted ch.mode ch.on_fail ch.text ch.button_text ch.timeout false h in
      rw
        (
          mode_or-known ch.mode p.mode mode (ground (arith, u)),
          action_or-known ch.on_fail p.on_fail action (ground (arith, u)),
          timeout_or-in_bounds ch.timeout p.timeout timeout (ground (arith, u)),
          text_or-short telegram_message_runes ch.text p.text text (ground (arith, u)),
          text_or-short captcha_button_runes ch.button_text p.button_text label (ground (arith, u)),
        )
        (ground (arith, k))

  resolved_usable :
      (g : Captcha) (chat : ℤ)
      → usable (block_policy default_text default_button g) ≡ true
      → validate_chats default_text default_button g g.chats ≡ none
      → (captcha_for default_text default_button g chat).1 ≡ true
      → usable (captcha_for default_text default_button g chat).0 ≡ true
  unfolding captcha_for EntryAccepted
  resolved_usable g chat u h on = elim (Option-cases (entry chat g.chats)) [
    | inl e ↦ rw e u
    | inr (ch, e) ↦
        let k = entry_accepted g g.chats chat ch h e in
        rw e (
          override_usable ch (block_policy default_text default_button g) u k.0 (
            subst
              (λ o.
                (is_empty (override_policy o (block_policy default_text default_button g)).text
                  || is_empty
                      (override_policy o (block_policy default_text default_button g)).button_text)
                ≡ false)
              e (ground (arith, k.1, on))))
  ]

  block_accepted :
      (p : ChatsPolicy) (g : Captcha)
      → validate_captcha default_text default_button p g ≡ none
      → (captcha_fields g.mode g.on_fail
            (captcha_string g.text [])
            (captcha_string g.button_text [])
            (captcha_duration g.timeout (pos 0))
            true
            true
          ≡ none)
        × (validate_chats default_text default_button g g.chats ≡ none)
  unfolding validate_captcha
  block_accepted p g h =
      let (f, k) =
        both
          (captcha_fields g.mode g.on_fail (captcha_string g.text [])
            (captcha_string g.button_text []) (captcha_duration g.timeout (pos 0)) true true)
          _ h in
      (f, ground (arith, k))

  -- Where Validate accepts a captcha block to which the defaults were applied, For gives a chat in
  -- which the captcha is on a known mode and action, a timeout from 30 seconds to an hour, and texts
  -- that are not empty and within their limits.
  pub validated_usable :
      (p : ChatsPolicy) (c : Captcha) (chat : ℤ)
      → validate_captcha default_text default_button p
          (apply_captcha_defaults default_text default_button c)
        ≡ none
      → (captcha_for default_text default_button
          (apply_captcha_defaults default_text default_button c)
          chat).1
        ≡ true
      → usable
          (captcha_for default_text default_button
            (apply_captcha_defaults default_text default_button c)
            chat).0
        ≡ true
  unfolding apply_captcha_defaults
  validated_usable p c chat h on =
      let g = apply_captcha_defaults default_text default_button c in
      let (fields, chats) = block_accepted p g h in
      let (mode, action, timeout, text, label) =
        fields_accepted g.mode g.on_fail (captcha_string g.text [])
          (captcha_string g.button_text []) (captcha_duration g.timeout (pos 0)) true fields in
      resolved_usable g chat
        (block_usable g (defaulted_mode c.mode mode) (defaulted_action c.on_fail action) fields)
        chats on
