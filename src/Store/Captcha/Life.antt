-- ===== src/Store/Captcha/Life.antt =====
-- internal/store/captcha.go: the life of a challenge under the operations that the program makes.
pub mod Forward
use telegram_antispam.Common.{
  ℕ, suc, ltb, leb, ◌==◌, ==_refl, ℤ, same, same_refl, same_key, Bool, true, false, ◌&&◌, ◌||◌, not,
  if◌then◌else◌, List, [], ◌∷◌, ◌++◌, Option, none, some, any, count_if, ◌≡◌, refl, sym, ap, ◌∙◌,
  subst, ◌⊎◌, inl, inr, arith, Bool-cases, Option-cases,
}
use mathlib.Core.Option
use mathlib.Core.Option.{some-injective}
use telegram_antispam.Config.Captcha.{CaptchaMode, FailAction}
use telegram_antispam.Store.Tables.{update_where, find_where}
use telegram_antispam.Store.Tables.Laws.{find_where-append}
use telegram_antispam.Store.Captcha.{
  CaptchaState, fresh, challenged, passing, passed, failing, failed, cancelled, state_code,
  same_state, CaptchaRow, Challenges, of_member, get_captcha, in_states, of_attempt, ended, new_row,
  restartable, begin_over, begin_captcha, of_states, updated_row, with_table, update_captcha,
  transition_captcha, mark_captcha_passing, fail_captcha, retry_captcha, set_prompt,
  set_captcha_prompt,
}

-- A call that writes, with its arguments.
pub data Operation : Type 0 where
  begin : ℤ → ℤ → ℕ → ℕ → CaptchaMode → Operation
  transition : ℤ → ℤ → ℕ → List CaptchaState → CaptchaState → Operation
  mark_passing : ℤ → ℤ → ℕ → ℕ → Operation
  fail : ℤ → ℤ → ℕ → List CaptchaState → FailAction → Operation
  retry : ℤ → ℤ → ℕ → ℕ → Operation
  prompt : ℤ → ℤ → ℕ → ℤ → ℤ → ℤ → ℕ → Operation

-- The table after a transaction: as it was where an error rolled it back.
abbrev pub kept {ℓ} : {A : Type ℓ} → Challenges → Option (Challenges × A) → Challenges
kept t none = t
kept t (some (t', a)) = t'

unfoldable pub apply : Operation → Challenges → Challenges
apply (begin chat user now deadline mode) t = (begin_captcha chat user now deadline mode t).0
apply (transition chat user attempt from to) t =
    kept t (transition_captcha chat user attempt from to t)
apply (mark_passing chat user attempt deadline) t =
    kept t (mark_captcha_passing chat user attempt deadline t)
apply (fail chat user attempt from action) t = kept t (fail_captcha chat user attempt from action t)
apply (retry chat user attempt next) t = kept t (retry_captcha chat user attempt next t)
apply (prompt chat user attempt dest ephemeral message deadline) t =
    kept t (set_captcha_prompt chat user attempt dest ephemeral message deadline t)

unfoldable pub run : List Operation → Challenges → Challenges
run [] t = t
run (o ∷ os) t = run os (apply o t)

-- An attempt moves from a state to itself or to a later one, never out of passed, failed and
-- cancelled, and never from passing to failing or failed.
abbrev leads_code : ℕ → ℕ → Bool
leads_code a b =
    a == b || (ltb a b && not (a == 3 || a == 5 || a == 6) && not (a == 2 && (b == 4 || b == 5)))

abbrev pub leads : CaptchaState → CaptchaState → Bool
leads a b = leads_code (state_code a) (state_code b)

abbrev pub all_lead : List CaptchaState → CaptchaState → Bool
all_lead [] to = true
all_lead (s ∷ from) to = leads s to && all_lead from to

-- The operations that the program makes move an attempt forward only.
abbrev pub forward : Operation → Bool
forward (transition chat user attempt from to) = all_lead from to
forward (fail chat user attempt from action) = all_lead from failing
forward _ = true

abbrev pub all_forward : List Operation → Bool
all_forward [] = true
all_forward (o ∷ os) = forward o && all_forward os

-- A later row of the same member: a later attempt, of one who has not passed, or the same attempt
-- with the same time of creation, in a state that it leads to.
abbrev advanced : CaptchaRow → CaptchaRow → Bool
advanced r r' =
    (ltb r.attempt r'.attempt && not (state_code r.state == 3))
    || (r.attempt == r'.attempt && r.created_at == r'.created_at && leads r.state r'.state)

pub Advances : Option CaptchaRow → Option CaptchaRow → Type 0
Advances none o = Unit
Advances (some r) none = ⊥
Advances (some r) (some r') = advanced r r' ≡ true

pub Advances-refl : (o : Option CaptchaRow) → Advances o o
unfolding Advances
Advances-refl none = tt
Advances-refl (some r) = ground arith

advanced_trans :
    (a b c : CaptchaRow) → advanced a b ≡ true → advanced b c ≡ true → advanced a c ≡ true
advanced_trans a b c h k = ground (arith, h, k)

pub Advances-trans : (a b c : Option CaptchaRow) → Advances a b → Advances b c → Advances a c
unfolding Advances
Advances-trans none b c h k = tt
Advances-trans (some a) none c h k = absurd h
Advances-trans (some a) (some b) none h k = k
Advances-trans (some a) (some b) (some c) h k = advanced_trans a b c h k
