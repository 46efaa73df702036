-- ===== src/Watch/Captcha/Sweep.antt =====
-- internal/watch/captcha.go and captcha_join_request.go: the sweep over the challenges that are due.
pub mod Sound
use telegram_antispam.Common.{
  ℕ, zero, suc, ◌+◌, leb, ◌==◌, ℤ, pos, same, Bool, true, false, ◌&&◌, ◌||◌, not, if◌then◌else◌,
  List, [], ◌∷◌, Option, none, some,
}
use telegram_antispam.Store.Captcha.{
  CaptchaState, fresh, challenged, passing, passed, failing, failed, cancelled, same_state,
  CaptchaRow, fail_captcha, due_captchas,
}
use telegram_antispam.Config.Captcha.{CaptchaPolicy, FailAction}
use telegram_antispam.Incident.World.{Failure, Result, ok, err}
use telegram_antispam.Watch.World.{
  Outcome, unrestrict_member, approve_join_request, Env, Block, ◌>>=◌, ◌>>◌, pure, exit, enter,
  count, write, query, call, observe, sanctioned, unix,
}
use telegram_antispam.Watch.Captcha.{
  WatchError, store_failed, context_done, captcha_give_up_tries, Gate, opened, closed, broken, gate,
  transition, delete_ids, tracking, is_join_request, log_error, stop_if,
}
use telegram_antispam.Watch.Captcha.Fail.{fail, retry}

-- A function without results.
abbrev Quietly : Type 0
Quietly = Block (Unit {0}) (Unit {0})

abbrev is_kick : FailAction → Bool
is_kick FailAction.kick = true
is_kick _ = false

-- No prompt is on record.
abbrev pub unprompted : CaptchaRow → Bool
unprompted row = same row.ephemeral_id (pos 0) && same row.message_id (pos 0)

module _ (env : Env) where
  -- What an UPDATE moved, and the early return where it failed or moved nothing.
  if_moved : Option (CaptchaRow × Bool) → Block (Unit {0}) CaptchaRow
  if_moved none = do log_error; exit tt
  if_moved (some (row, true)) = pure row
  if_moved (some (row, false)) = exit tt

  logged : {A : Type 0} → Option A → Block (Unit {0}) A
  logged none = do log_error; exit tt
  logged (some a) = pure a

  start_failing : CaptchaRow → CaptchaState → FailAction → Block (Unit {0}) CaptchaRow
  unfolding if_moved
  start_failing row from action = do
    answer ← write env (fail_captcha row.chat_id row.user_id row.attempt (from ∷ []) action)
    if_moved answer

  -- Captcha.cancelJoin
  pub cancel_join : CaptchaRow → CaptchaState → Bool → Quietly
  unfolding if_moved
  cancel_join row from drop = do
    moved ← transition env row (from ∷ []) cancelled
    updated ← if_moved moved
    if drop then delete_ids env updated else pure tt
    count Outcome.left_pending

  -- A member who was sanctioned keeps the mute.
  cancel_sanctioned : CaptchaRow → CaptchaState → Quietly
  unfolding if_moved
  cancel_sanctioned row from = do
    moved ← transition env row (from ∷ []) cancelled
    updated ← if_moved moved
    delete_ids env updated
    count Outcome.cancelled_sanction

  gate_action : CaptchaRow → Gate → Block (Unit {0}) FailAction
  unfolding cancel_sanctioned logged
  gate_action row (broken e) = do log_error; exit tt
  gate_action row (closed out) = pure FailAction.unrestrict
  gate_action row (opened pol) = if unprompted row then pure FailAction.unrestrict else (do
    answer ← sanctioned env row.chat_id row.user_id row.created_at
    s ← logged answer
    if s then (do cancel_sanctioned row challenged; exit tt) else pure pol.on_fail)

  -- Captcha.sweepChallenged
  pub sweep_challenged : CaptchaRow → Quietly
  unfolding gate_action start_failing
  sweep_challenged row = do
    g ← gate env row.chat_id
    action ← gate_action row g
    updated ← start_failing row challenged action
    delete_ids env updated
    fail env updated

  -- The row is given up while its mute cannot be lifted.
  give_up_passing : CaptchaRow → Quietly
  unfolding if_moved
  give_up_passing row = do
    moved ← transition env row (passing ∷ []) cancelled
    if_moved moved
    delete_ids env row
    count Outcome.gave_up

  -- A call that must succeed before the row passes.
  or_retry : CaptchaRow → Result (Unit {0}) → Quietly
  or_retry row (ok _) = pure tt
  or_retry row (err e) = do retry env row; exit tt

  record_passed : CaptchaRow → Outcome → Quietly
  unfolding if_moved
  record_passed row out = do
    moved ← transition env row (passing ∷ []) passed
    updated ← if_moved moved
    delete_ids env updated
    count out

  -- Captcha.sweepJoinPassing
  pub sweep_join_passing : CaptchaRow → Quietly
  unfolding give_up_passing or_retry record_passed
  sweep_join_passing row = if leb captcha_give_up_tries row.tries then give_up_passing row else (do
    r ← call env (approve_join_request row.chat_id row.user_id)
    or_retry row r
    record_passed row Outcome.approved)

  lift_passing : CaptchaRow → Quietly
  unfolding give_up_passing or_retry record_passed
  lift_passing row = if leb captcha_give_up_tries row.tries then give_up_passing row else (do
    r ← call env (unrestrict_member row.chat_id row.user_id)
    or_retry row r
    record_passed row Outcome.passed)

  -- Captcha.sweepPassing
  pub sweep_passing : CaptchaRow → Quietly
  unfolding sweep_join_passing logged cancel_sanctioned lift_passing
  sweep_passing row = if is_join_request row.mode then sweep_join_passing row else (do
    answer ← sanctioned env row.chat_id row.user_id row.created_at
    s ← logged answer
    if s then cancel_sanctioned row passing else lift_passing row)

  join_declines : CaptchaRow → Gate → Bool
  join_declines row (opened pol) = is_kick pol.on_fail && not (same row.message_id (pos 0))
  join_declines row g = false

  join_by_gate : CaptchaRow → Gate → Quietly
  unfolding join_declines start_failing cancel_join
  join_by_gate row (broken e) = log_error
  join_by_gate row g =
      if not (join_declines row g)
      then cancel_join row challenged (not (same row.message_id (pos 0)))
      else (do
        updated ← start_failing row challenged FailAction.decline
        delete_ids env updated
        fail env updated)

  -- Captcha.sweepJoinChallenged
  pub sweep_join_challenged : CaptchaRow → Quietly
  unfolding join_by_gate
  sweep_join_challenged row = do g ← gate env row.chat_id; join_by_gate row g

  sweep_new : CaptchaRow → Quietly
  unfolding cancel_join start_failing
  sweep_new row =
      if is_join_request row.mode
      then cancel_join row fresh false
      else (do updated ← start_failing row fresh FailAction.unrestrict; fail env updated)

  -- The switch of Sweep, on a row: whether it is counted.
  sweep_row : {R : Type 0} → CaptchaRow → CaptchaState → Block R Bool
  unfolding sweep_new sweep_join_challenged sweep_challenged sweep_passing
  sweep_row row fresh = do
    live ← tracking row.chat_id row.user_id
    if live then pure false else (do enter (sweep_new row); pure true)
  sweep_row row challenged = do
    live ← tracking row.chat_id row.user_id
    if not (is_join_request row.mode) && live
        then pure false
        else if is_join_request row.mode
        then (do enter (sweep_join_challenged row); pure true)
        else (do enter (sweep_challenged row); pure true)
  sweep_row row failing = do fail env row; pure true
  sweep_row row passing = do enter (sweep_passing row); pure true
  sweep_row row _ = pure false

  -- The loop of Sweep, after `n` rows were counted.
  sweep_rows : ℕ → List CaptchaRow → Block (ℕ × Option WatchError) (ℕ × Option WatchError)
  unfolding sweep_row
  sweep_rows n [] = pure (n, none)
  sweep_rows n (row ∷ rows) = do
    stopped ← observe env env.stopped
    stop_if stopped (n, some context_done)
    counted ← sweep_row row row.state
    sweep_rows (if counted then suc n else n) rows

  due_or_exit : Option (List CaptchaRow) → Block (ℕ × Option WatchError) (List CaptchaRow)
  due_or_exit none = exit (0, some store_failed)
  due_or_exit (some rows) = pure rows

  -- Captcha.Sweep
  pub sweep : Block (ℕ × Option WatchError) (ℕ × Option WatchError)
  unfolding sweep_rows due_or_exit
  sweep = do
    now ← observe env env.clock
    answer ← query env (λ _ t. due_captchas (unix now) 100 t)
    due ← due_or_exit answer
    sweep_rows 0 due
