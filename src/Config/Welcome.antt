-- ===== src/Config/Welcome.antt =====
-- internal/config/config.go: the welcome block, what Validate accepts and what For resolves.
use telegram_antispam.Common.{
  ℤ, pos, le_id, is_some, ltb, Bool, false, ◌&&◌, ◌||◌, not, if◌then◌else◌, List, [], ◌∷◌, Option,
  none, some, length, is_empty, ◌≡◌, arith, Bool-cases, Option-cases, sym, subst, ap, ◌≤◌, inl, inr,
}
use mathlib.Core.Option.{some-injective}
use telegram_antispam.Store.MessageIds.{Text, trim_space}
use telegram_antispam.Config.{
  ChatsPolicy, entry, entries_allowed, entry_cases, telegram_message_runes,
}

-- type WelcomeChat
pub record WelcomeChat : Type 0 where
  pub enabled : Option Bool
  pub text : Text

-- type Welcome, with the fields that For and validateWelcome read
pub record Welcome : Type 0 where
  pub enabled : Option Bool
  pub text : Text
  pub max_per_minute : Option ℤ
  pub chats : List (ℤ × WelcomeChat)

abbrev on_or : Option Bool → Bool → Bool
on_or none on = on
on_or (some b) on = b

abbrev text_over : Text → Text → Text
text_over [] u = u
text_over (c ∷ cs) u = c ∷ cs

abbrev entry_enabled : Option WelcomeChat → Bool → Bool
entry_enabled none on = on
entry_enabled (some ch) on = on_or ch.enabled on

entry_text : Option WelcomeChat → Text → Text
entry_text none u = u
entry_text (some ch) u = text_over (trim_space ch.text) u

resolve : Bool → Text → Option Text
resolve on text = if not on || is_empty text then none else some text

-- Welcome.For: `none` where its second result is false.
unfoldable pub welcome_for : Welcome → ℤ → Option Text
unfolding entry_text resolve
welcome_for w chat =
    let e = entry chat w.chats in
    resolve (entry_enabled e (on_or w.enabled false)) (entry_text e (trim_space w.text))

pub data WelcomeError : Type 0 where
  bad_rate text_too_long text_empty not_allowed entry_too_long entry_empty : WelcomeError

abbrev too_long : Text → Bool
too_long s = ltb telegram_message_runes (length (trim_space s))

abbrev below_one : Option ℤ → Bool
below_one none = false
below_one (some n) = not (le_id (pos 1) n)

-- The loop over the entries.
validate_entries : Welcome → List (ℤ × WelcomeChat) → Option WelcomeError
validate_entries w [] = none
validate_entries w (e ∷ es) =
    let rest = validate_entries w es in
    if too_long e.1.text
    then some entry_too_long
    else if on_or e.1.enabled (on_or w.enabled false) && not (is_some (welcome_for w e.0))
    then some entry_empty
    else rest

-- validateWelcome
unfoldable pub validate_welcome : ChatsPolicy → Welcome → Option WelcomeError
unfolding validate_entries
validate_welcome p w =
    if below_one w.max_per_minute
    then some bad_rate
    else if too_long w.text
    then some text_too_long
    else if on_or w.enabled false && is_empty (trim_space w.text)
    then some text_empty
    else if not (entries_allowed p w.chats)
    then some not_allowed
    else validate_entries w w.chats

-- What the loop checks of the entry of a chat.
Checked : Welcome → ℤ → WelcomeChat → Type 0
Checked w chat ch =
    (too_long ch.text ≡ false)
    × ((on_or ch.enabled (on_or w.enabled false) && not (is_some (welcome_for w chat))) ≡ false)

first_checked :
    (w : Welcome) (e : ℤ × WelcomeChat) (es : List (ℤ × WelcomeChat))
    → validate_entries w (e ∷ es) ≡ none
    → (too_long e.1.text ≡ false)
      × ((on_or e.1.enabled (on_or w.enabled false) && not (is_some (welcome_for w e.0))) ≡ false)
      × (validate_entries w es ≡ none)
unfolding validate_entries
first_checked w e es h = ground (arith, h)

entry-Checked :
    (w : Welcome) (es : List (ℤ × WelcomeChat)) (chat : ℤ) (ch : WelcomeChat)
    → validate_entries w es ≡ none
    → entry chat es ≡ some ch
    → Checked w chat ch
unfolding validate_entries Checked
entry-Checked w [] chat ch h k = absurd cc
entry-Checked w (e ∷ es) chat ch h k =
    let (long, empty, rest) = first_checked w e es h in
    elim (entry_cases chat e es k) [
      | inl (same_chat, same_entry) ↦ rw (sym same_chat, sym same_entry) (long, empty)
      | inr k' ↦ entry-Checked w es chat ch rest k'
    ]

accepted :
    (p : ChatsPolicy) (w : Welcome)
    → validate_welcome p w ≡ none
    → (too_long w.text ≡ false)
      × ((on_or w.enabled false && is_empty (trim_space w.text)) ≡ false)
      × (validate_entries w w.chats ≡ none)
unfolding validate_welcome
accepted p w h = ground (arith, h)

-- A greeting that Telegram takes.
abbrev pub Fits : Text → Type 0
Fits t = (is_empty t ≡ false) × (length t ≤ telegram_message_runes)

resolve-Fits :
    (on : Bool) (text : Text)
    → ltb telegram_message_runes (length text) ≡ false
    → (t : Text) → resolve on text ≡ some t
    → Fits t
unfolding resolve
resolve-Fits on text h t q = elim (Bool-cases (not on || is_empty text)) [
  | inl e ↦ absurd ground (arith, q, e)
  | inr e ↦
      subst Fits (some-injective text t (ground (arith, q, e)))
        (ground (arith, e), ground (arith, h))
]

resolve_on :
    (on : Bool) (text : Text)
    → (on && not (is_some (resolve on text))) ≡ false
    → is_some (resolve on text) ≡ on
unfolding resolve
resolve_on on text h = ground (arith, h)

text_over_fits :
    (s u : Text)
    → ltb telegram_message_runes (length s) ≡ false
    → ltb telegram_message_runes (length u) ≡ false
    → ltb telegram_message_runes (length (text_over s u)) ≡ false
text_over_fits [] u h k = k
text_over_fits (c ∷ cs) u h k = h

-- Is the welcome on in the chat?
abbrev pub enabled_in : Welcome → ℤ → Bool
enabled_in w chat = entry_enabled (entry chat w.chats) (on_or w.enabled false)

-- Where Validate accepts the welcome block, For greets with a text in every chat where the welcome
-- is on, and whatever it greets with is not empty and within Telegram's limit.
pub validated_greets :
    (p : ChatsPolicy) (w : Welcome) (chat : ℤ)
    → validate_welcome p w ≡ none
    → (is_some (welcome_for w chat) ≡ enabled_in w chat)
      × ((t : Text) → welcome_for w chat ≡ some t → Fits t)
unfolding welcome_for entry_text Checked
validated_greets p w chat h =
    let (long, empty, checked) = accepted p w h in
    elim (Option-cases (entry chat w.chats)) [
      | inl e ↦
          rw e
            (ground (arith, empty), resolve-Fits (on_or w.enabled false) (trim_space w.text) long)
      | inr (ch, e) ↦
          let (l, g) = entry-Checked w w.chats chat ch checked e in
          let on =
            subst (λ o. (o && not (is_some (welcome_for w chat))) ≡ false)
              (sym (ap (λ o. entry_enabled o (on_or w.enabled false)) e)) g in
          (
            resolve_on (enabled_in w chat) (entry_text (entry chat w.chats) (trim_space w.text)) on,
            rw e (
                resolve-Fits (on_or ch.enabled (on_or w.enabled false))
                  (text_over (trim_space ch.text) (trim_space w.text))
                  (text_over_fits (trim_space ch.text) (trim_space w.text) l long)),
          )
    ]
