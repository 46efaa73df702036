-- ===== src/Watch/Captcha.antt =====
-- internal/watch/captcha.go and captcha_join_request.go: what the handlers of the captcha share, the
-- button's data, the gate of a chat, the store's operations as statements and the end of a prompt.
-- strings.CutPrefix, strings.Split, strconv.ParseInt and fmt's %d are Go's; ParseInt in base 10 and 64
-- bits reads what Atoi reads.
pub mod Data
pub mod Sound
pub mod Join
pub mod Fail
pub mod Challenge
pub mod Press
pub mod Sweep
pub mod Activity
use telegram_antispam.Common.{
  ℕ, zero, suc, ltb, ℤ, pos, negsuc, same, String, Bool, true, false, not, ◌==◌, if◌then◌else◌,
  ◌&&◌, any, List, [], ◌∷◌, ◌++◌, Option, none, some,
}
use telegram_antispam.Store.MessageIds.{Text, itoa, atoi, split_on}
use telegram_antispam.Store.Tables.{delete_where}
use telegram_antispam.Store.Captcha.{
  CaptchaState, CaptchaRow, get_captcha, captcha_passed, transition_captcha, mark_captcha_passing,
  fail_captcha, retry_captcha, set_captcha_prompt, begin_captcha, due_captchas,
}
use telegram_antispam.Config.{ChatsPolicy, registered_chat, dry_run_for, dry_run_default}
use telegram_antispam.Config.Captcha.{CaptchaMode, FailAction, CaptchaPolicy, captcha_for}
use telegram_antispam.Incident.World.{Failure, Result, ok, err}
use telegram_antispam.Watch.World.{
  Outcome, Event, delete_ephemeral, delete_messages, ChatRow, Config, Env, Block, ◌>>=◌, ◌>>◌, pure,
  Flow, goes_on, Task, exit, count, write, query, call, observe,
}

-- The errors that the handlers return.
pub data WatchError : Type 0 where
  no_config store_failed context_done : WatchError
  call_failed : Failure → WatchError

-- const captchaGiveUpTries, and captchaRetryDelay in nanoseconds
abbrev pub captcha_give_up_tries : ℕ
captcha_give_up_tries = 5

abbrev pub captcha_retry_delay : ℤ
captcha_retry_delay = pos 60000000000

abbrev prefix : Text → Text
prefix t = b'c' ∷ b'a' ∷ b'p' ∷ b':' ∷ t

-- captchaData
unfoldable pub captcha_data : ℤ → ℤ → ℕ → Text
unfolding itoa
captcha_data chat user attempt =
    prefix (itoa chat ++ (b':' ∷ (itoa user ++ (b':' ∷ itoa (pos attempt)))))

-- strings.CutPrefix, for the prefix of length four
cut_prefix : Text → Option Text
cut_prefix (a ∷ (b ∷ (c ∷ (d ∷ t)))) =
    if a == b'c'
    then if b == b'a' then if c == b'p' then if d == b':' then some t else none else none else none
    else none
cut_prefix _ = none

-- attempt < 1 is refused.
at_least_one : ℤ → Option ℕ
at_least_one (pos zero) = none
at_least_one (pos (suc n)) = some (suc n)
at_least_one (negsuc n) = none

three_parts : Option ℤ → Option ℤ → Option ℤ → Option (ℤ × ℤ × ℕ)
unfolding at_least_one
three_parts (some chat) (some user) (some attempt) = elim (at_least_one attempt) [
  | none ↦ none
  | some n ↦ some (chat, user, n)
]
three_parts _ _ _ = none

parse_parts : List Text → Option (ℤ × ℤ × ℕ)
unfolding three_parts atoi
parse_parts (a ∷ (b ∷ (c ∷ []))) = three_parts (atoi a) (atoi b) (atoi c)
parse_parts _ = none

-- parseCaptchaData: `none` where it is not ok.
unfoldable pub parse_captcha_data : Text → Option (ℤ × ℤ × ℕ)
unfolding cut_prefix parse_parts split_on
parse_captcha_data data_ = elim (cut_prefix data_) [
  | none ↦ none
  | some rest ↦ parse_parts (split_on b':' rest)
]

-- What the gate says: the policy of a chat in which the captcha acts, the outcome of any other chat, or
-- an error.
pub data Gate : Type 0 where
  opened : CaptchaPolicy → Gate
  closed : Outcome → Gate
  broken : WatchError → Gate

stored_dry_run : ChatsPolicy → Option ChatRow → Bool
stored_dry_run p none = dry_run_default p
stored_dry_run p (some row) = row.dry_run

is_disabled : Option ChatRow → Bool
is_disabled none = false
is_disabled (some row) = not row.enabled

module _ (env : Env) where
  gate_row : ℤ → Config → CaptchaPolicy → Option (Option ChatRow) → Gate
  unfolding stored_dry_run is_disabled
  gate_row chat cfg pol none = broken store_failed
  gate_row chat cfg pol (some row) =
      if is_disabled row
      then closed Outcome.skip_chat_disabled
      else if dry_run_for cfg.chats chat (stored_dry_run cfg.chats row)
      then closed Outcome.skip_dry_run
      else opened pol

  gate_config : {R : Type 0} → ℤ → Option Config → Block R Gate
  unfolding gate_row
  gate_config chat none = pure (broken no_config)
  gate_config chat (some cfg) =
      if not (registered_chat cfg.chats chat)
      then pure (closed Outcome.skip_not_admitted)
      else (let r = captcha_for env.default_text env.default_button cfg.captcha chat in
          if not r.1
          then pure (closed Outcome.skip_disabled)
          else (do row ← query env (λ n _. env.chat_row n chat); pure (gate_row chat cfg r.0 row)))

  -- Captcha.gate
  pub gate : {R : Type 0} → ℤ → Block R Gate
  unfolding gate_config
  gate chat = do cfg ← observe env env.config; gate_config chat cfg

  -- The store's operations; `none` is an error.
  abbrev pub transition :
      {R : Type 0}
      → CaptchaRow
      → List CaptchaState
      → CaptchaState
      → Block R (Option (CaptchaRow × Bool))
  transition row from to =
      write env (transition_captcha row.chat_id row.user_id row.attempt from to)

  abbrev pub move :
      {R : Type 0} → ℤ → ℤ → ℕ → CaptchaState → CaptchaState → Block R (Option (CaptchaRow × Bool))
  move chat user attempt from to = write env (transition_captcha chat user attempt (from ∷ []) to)

  -- The prompt in the group, for the member alone.
  delete_private : {R : Type 0} → CaptchaRow → Block R (Unit {0})
  delete_private row =
      if same row.ephemeral_id (pos 0)
      then pure tt
      else (do call env (delete_ephemeral row.chat_id row.user_id row.ephemeral_id); pure tt)

  abbrev pub prompt_chat : CaptchaRow → ℤ
  prompt_chat row = if same row.prompt_chat_id (pos 0) then row.chat_id else row.prompt_chat_id

  -- Captcha.deleteIDs
  pub delete_ids : {R : Type 0} → CaptchaRow → Block R (Unit {0})
  unfolding delete_private
  delete_ids row = do
    delete_private row
    if same row.message_id (pos 0)
        then pure tt
        else (do call env (delete_messages (prompt_chat row) (row.message_id ∷ [])); pure tt)

-- Captcha.track and untrack
pub track : {R : Type 0} → ℤ → ℤ → Block R (Unit {0})
track chat user w = (goes_on tt, record w { inflight = (chat, user) ∷ w.inflight })

pub untrack : {R : Type 0} → ℤ → ℤ → Block R (Unit {0})
untrack chat user w = (
  goes_on tt,
  record w { inflight = delete_where (λ k. same k.0 chat && same k.1 user) w.inflight },
)

-- Captcha.tracking
pub tracking : {R : Type 0} → ℤ → ℤ → Block R Bool
tracking chat user w = (goes_on (any (λ k. same k.0 chat && same k.1 user) w.inflight), w)

-- Captcha.Go
pub spawn : {R : Type 0} → Task → Block R (Unit {0})
spawn t w = (goes_on tt, record w { tasks = w.tasks ++ t ∷ [] })

abbrev pub is_join_request : CaptchaMode → Bool
is_join_request CaptchaMode.join_request = true
is_join_request _ = false

-- An early return where a test holds, and where the store reported an error.
abbrev pub stop_if : {R : Type 0} → Bool → R → Block R (Unit {0})
stop_if true r = exit r
stop_if false r = pure tt

abbrev pub require : {R A : Type 0} → R → Option A → Block R A
require r none = exit r
require r (some a) = pure a

-- Captcha.log
abbrev pub log_error : {R : Type 0} → Block R (Unit {0})
log_error = count Outcome.error
