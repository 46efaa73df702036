-- ===== src/Store/Captcha.antt =====
-- internal/store/captcha.go: the table captcha_challenges, a row for each chat and user, and its
-- operations. The column updated_at, which nothing reads, is left out. A transaction that returns an
-- error is rolled back: it is `none`. RowsAffected counts the rows that the condition holds of.
pub mod Life
pub mod Keys
pub mod Due
pub mod Sanctions
use telegram_antispam.Common.{
  ℕ, zero, suc, ◌+◌, ltb, leb, ◌==◌, ℤ, pos, same, le_id, Bool, true, false, ◌&&◌, ◌||◌, not,
  if◌then◌else◌, List, [], ◌∷◌, ◌++◌, Option, none, some, any, keep, count_if, is_empty, str_eq,
}
use telegram_antispam.Domain.{IncidentState, pending, evidenced, sanction_unknown}
use telegram_antispam.Config.Captcha.{CaptchaMode, button, FailAction, unset_action}
use telegram_antispam.Store.Tables.{Row, Audit, Db, update_where, find_where}
use telegram_antispam.Store.Incidents.{audit_of, is_punitive, is_finished}
use telegram_antispam.Store.Decisions.{manual_override_claim}

-- The constants Captcha*
pub data CaptchaState : Type 0 where
  fresh challenged passing passed failing failed cancelled : CaptchaState

-- Equality of two states, as SQL's IN tests it.
abbrev pub state_code : CaptchaState → ℕ
state_code fresh = 0
state_code challenged = 1
state_code passing = 2
state_code passed = 3
state_code failing = 4
state_code failed = 5
state_code cancelled = 6

abbrev pub same_state : CaptchaState → CaptchaState → Bool
same_state a b = state_code a == state_code b

-- type CaptchaRow; a time is in seconds.
pub record CaptchaRow : Type 0 where
  pub chat_id : ℤ
  pub user_id : ℤ
  pub attempt : ℕ
  pub state : CaptchaState
  pub deadline : ℕ
  pub fail_action : FailAction
  pub tries : ℕ
  pub ephemeral_id : ℤ
  pub message_id : ℤ
  pub created_at : ℕ
  pub mode : CaptchaMode
  pub prompt_chat_id : ℤ

-- CaptchaRow{}
abbrev pub zero_row : CaptchaRow
zero_row = record {
  chat_id = pos 0;
  user_id = pos 0;
  attempt = 0;
  state = fresh;
  deadline = 0;
  fail_action = unset_action;
  tries = 0;
  ephemeral_id = pos 0;
  message_id = pos 0;
  created_at = 0;
  mode = button;
  prompt_chat_id = pos 0;
}

abbrev pub Challenges : Type 0
Challenges = List CaptchaRow

-- WHERE chat_id=? AND user_id=?
abbrev pub of_member : ℤ → ℤ → CaptchaRow → Bool
of_member chat user r = same r.chat_id chat && same r.user_id user

-- loadCaptchaTx and GetCaptcha
abbrev pub get_captcha : ℤ → ℤ → Challenges → Option CaptchaRow
get_captcha chat user t = find_where (of_member chat user) t

abbrev pub or_zero : Option CaptchaRow → CaptchaRow
or_zero none = zero_row
or_zero (some r) = r

abbrev pub in_states : List CaptchaState → CaptchaRow → Bool
in_states from r = any (same_state r.state) from

-- WHERE chat_id=? AND user_id=? AND attempt=?
abbrev pub of_attempt : ℤ → ℤ → ℕ → CaptchaRow → Bool
of_attempt chat user attempt r = of_member chat user r && r.attempt == attempt

abbrev pub ended : List CaptchaState
ended = failed ∷ cancelled ∷ []

abbrev pub new_row : ℤ → ℤ → ℕ → ℕ → ℕ → CaptchaMode → CaptchaRow
new_row chat user attempt now deadline mode = record {
  chat_id = chat;
  user_id = user;
  attempt = attempt;
  state = fresh;
  deadline = deadline;
  fail_action = unset_action;
  tries = 0;
  ephemeral_id = pos 0;
  message_id = pos 0;
  created_at = now;
  mode = mode;
  prompt_chat_id = pos 0;
}

-- The row whose UPDATE begins another attempt.
abbrev pub restartable : ℤ → ℤ → CaptchaRow → Bool
restartable chat user r = of_member chat user r && in_states ended r

begin_over :
    ℤ → ℤ → ℕ → ℕ → CaptchaMode → Option CaptchaRow → Challenges → Challenges × (CaptchaRow × Bool)
begin_over chat user now deadline mode none t =
    let new = new_row chat user 1 now deadline mode in (t ++ new ∷ [], (new, true))
begin_over chat user now deadline mode (some old) t =
    if not (in_states ended old)
    then (t, (old, false))
    else (let new = new_row chat user (suc old.attempt) now deadline mode in
        let t' = update_where (restartable chat user) (λ r. new) t in
        if count_if (restartable chat user) t == 1
        then (t', (new, true))
        else (t', (or_zero (get_captcha chat user t'), false)))

-- BeginCaptcha: the row, and whether it was started.
unfoldable pub begin_captcha :
    ℤ → ℤ → ℕ → ℕ → CaptchaMode → Challenges → Challenges × (CaptchaRow × Bool)
unfolding begin_over
begin_captcha chat user now deadline mode t =
    begin_over chat user now deadline mode (get_captcha chat user t) t

abbrev is_passed : CaptchaState → Bool
is_passed passed = true
is_passed _ = false

-- CaptchaPassed
unfoldable pub captcha_passed : ℤ → ℤ → Challenges → Bool
captcha_passed chat user t = elim (get_captcha chat user t) [
  | none ↦ false
  | some r ↦ is_passed r.state
]

-- What an UPDATE of one attempt in one of some states rewrites.
abbrev pub of_states : ℤ → ℤ → ℕ → List CaptchaState → CaptchaRow → Bool
of_states chat user attempt from r = of_attempt chat user attempt r && in_states from r

-- The row that updateCaptcha returns: one that moved cannot be missing.
updated_row : Bool → Option CaptchaRow → Option (CaptchaRow × Bool)
updated_row true none = none
updated_row false none = some (zero_row, false)
updated_row moved (some r) = some (r, moved)

with_table {ℓ} : {A : Type ℓ} → Challenges → Option A → Option (Challenges × A)
with_table t none = none
with_table t (some a) = some (t, a)

-- updateCaptcha: the row, and whether it moved.
unfoldable pub update_captcha :
    ℤ
    → ℤ
    → ℕ
    → List CaptchaState
    → (CaptchaRow → CaptchaRow)
    → Challenges
    → Option (Challenges × (CaptchaRow × Bool))
unfolding updated_row with_table
update_captcha chat user attempt [] set t = none
update_captcha chat user attempt (s ∷ from) set t =
    let where_ = of_states chat user attempt (s ∷ from) in
    let t' = update_where where_ set t in
    with_table t' (updated_row (count_if where_ t == 1) (get_captcha chat user t'))

-- TransitionCaptcha
unfoldable pub transition_captcha :
    ℤ
    → ℤ
    → ℕ
    → List CaptchaState
    → CaptchaState
    → Challenges
    → Option (Challenges × (CaptchaRow × Bool))
transition_captcha chat user attempt from to t =
    update_captcha chat user attempt from (λ r. record r { state = to }) t

-- MarkCaptchaPassing
unfoldable pub mark_captcha_passing :
    ℤ → ℤ → ℕ → ℕ → Challenges → Option (Challenges × (CaptchaRow × Bool))
mark_captcha_passing chat user attempt deadline t =
    update_captcha chat user attempt (challenged ∷ [])
      (λ r. record r { state = passing; deadline = deadline }) t

-- FailCaptcha
unfoldable pub fail_captcha :
    ℤ
    → ℤ
    → ℕ
    → List CaptchaState
    → FailAction
    → Challenges
    → Option (Challenges × (CaptchaRow × Bool))
fail_captcha chat user attempt from action t =
    update_captcha chat user attempt from (λ r. record r { state = failing; fail_action = action })
      t

-- RetryCaptcha
unfoldable pub retry_captcha : ℤ → ℤ → ℕ → ℕ → Challenges → Option (Challenges × Unit {0})
retry_captcha chat user attempt next t =
    let where_ = of_states chat user attempt (failing ∷ passing ∷ []) in
    if count_if where_ t == 1
    then some (update_where where_ (λ r. record r { tries = suc r.tries; deadline = next }) t, tt)
    else none

abbrev pub set_prompt : ℤ → ℤ → ℤ → ℕ → CaptchaRow → CaptchaRow
set_prompt prompt_chat ephemeral message deadline r = record r {
  ephemeral_id = ephemeral;
  message_id = message;
  prompt_chat_id = prompt_chat;
  deadline = if same_state r.state challenged then deadline else r.deadline;
}

-- SetCaptchaPrompt
unfoldable pub set_captcha_prompt :
    ℤ → ℤ → ℕ → ℤ → ℤ → ℤ → ℕ → Challenges → Option (Challenges × CaptchaRow)
unfolding with_table
set_captcha_prompt chat user attempt prompt_chat ephemeral message deadline t =
    let t' =
      update_where (of_attempt chat user attempt)
        (set_prompt prompt_chat ephemeral message deadline) t in
    if count_if (of_attempt chat user attempt) t == 1
    then with_table t' (get_captcha chat user t')
    else none

abbrev pub swept : List CaptchaState
swept = fresh ∷ challenged ∷ failing ∷ passing ∷ []

-- WHERE state IN (…) AND deadline<=?
abbrev pub is_due : ℕ → CaptchaRow → Bool
is_due now r = in_states swept r && leb r.deadline now

-- ORDER BY deadline, chat_id, user_id
abbrev pub before : CaptchaRow → CaptchaRow → Bool
before a b =
    if ltb a.deadline b.deadline
    then true
    else if ltb b.deadline a.deadline
    then false
    else if same a.chat_id b.chat_id
    then le_id a.user_id b.user_id
    else le_id a.chat_id b.chat_id

insert_row : CaptchaRow → Challenges → Challenges
insert_row a [] = a ∷ []
insert_row a (b ∷ bs) = let rest = insert_row a bs in if before a b then a ∷ b ∷ bs else b ∷ rest

order_rows : Challenges → Challenges
unfolding insert_row
order_rows [] = []
order_rows (a ∷ as') = insert_row a (order_rows as')

-- LIMIT
abbrev pub take_rows : ℕ → Challenges → Challenges
take_rows zero t = []
take_rows (suc n) [] = []
take_rows (suc n) (r ∷ t) = r ∷ take_rows n t

-- DueCaptchas: there is nothing where the limit is 0.
unfoldable pub due_captchas : ℕ → ℕ → Challenges → Challenges
unfolding order_rows
due_captchas now limit t = take_rows limit (order_rows (keep (is_due now) t))

-- i.dry_run=0 AND i.state IN (…) AND EXISTS (SELECT 1 FROM audit …)
abbrev pub sanction_in_flight : Db → Row → Bool
sanction_in_flight db i =
    not i.dry_run
    && elim i.state [ pending ↦ true | evidenced ↦ true | s ↦ is_finished s ]
    && any (λ a. audit_of i.id a && is_punitive a.action) db.audit

abbrev pub is_sanction_unknown : IncidentState → Bool
is_sanction_unknown sanction_unknown = true
is_sanction_unknown _ = false

-- SanctionSince, with the column created_at of an incident as a function of its number.
unfoldable pub sanction_since : (ℕ → ℕ) → ℤ → ℤ → ℕ → Db → Bool
sanction_since created_at chat user since db =
    any
      (λ i.
        same i.chat_id chat
        && same i.user_id user
        && leb since (created_at i.id)
        && (str_eq i.decision manual_override_claim
            || is_sanction_unknown i.state
            || sanction_in_flight db i))
      db.incidents
