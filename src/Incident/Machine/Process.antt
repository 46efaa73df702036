-- ===== src/Incident/Machine/Process.antt =====
-- internal/incident/machine.go: process, override and handle.
pub mod Calls
pub mod Evidence
pub mod Handle
use telegram_antispam.Common.{
  ℕ, ℤ, pos, String, Bool, true, false, ◌&&◌, ◌||◌, not, same, if◌then◌else◌, List, [], ◌∷◌, Option,
  none, some, is_empty, is_some, str_eq,
}
use telegram_antispam.Domain.{
  IncidentState, evidenced, done, evidence_failed, not_acted, Verdict, is_actionable, is_quarantine,
  Incident,
}
use telegram_antispam.Store.Incidents.{
  insert_pending, add_evidence, IncidentRow, get_incident, set_incident_state,
}
use telegram_antispam.Store.Decisions.{Claim, claim_manual_override, finish_manual_override}
use telegram_antispam.Incident.World.{
  Result, ok, err, CopyError, copy_failed, nothing_copied, CardError, send_failed,
  card_not_recorded, Effect, override_note, Env, admin_notify, evidence_copy, evidence_store,
  held_back, not_enforced, M, ◌>>=◌, ◌>>◌, pure, write_log, transact, execute,
}
use telegram_antispam.Incident.Machine.{
  Machine, Error, no_message_ids, insert_pending_failed, evidence_not_saved, state_not_saved,
  claim_failed, not_notified, no_evidence, admin_not_sent, not_promoted, Outcome,
  acts_without_evidence, is_manual, first_id, set_state, enforce, send_card, save_album,
  save_tokens, bare_card, evidence_card, card_message,
}
use telegram_antispam.Incident.Machine.Port

abbrev title_or_empty : Result String → String
title_or_empty (ok t) = t
title_or_empty (err e) = ""

-- What process returns: whether the sanction landed, and the error.
abbrev pub Report : Type 0
Report = Bool × Option Error

abbrev is_unrecorded : CardError → Bool
is_unrecorded card_not_recorded = true
is_unrecorded (send_failed e) = false

abbrev with_ids : Incident → List ℤ → Incident
with_ids inc [] = inc
with_ids inc (n ∷ ns) = record inc { message_ids = n ∷ ns }

abbrev is_review_row : Option (Option IncidentRow) → Bool
is_review_row (some (some r)) = is_quarantine r.action
is_review_row _ = false

abbrev is_read : Option (Option IncidentRow) → Bool
is_read (some (some r)) = true
is_read _ = false

-- errors.Join
abbrev join_errors : Bool → Bool → Option Error
join_errors read finished =
    if read && finished then none else some (not_promoted (not read) (not finished))

-- The live gate of handle: an automatic verdict that may replace a review.
abbrev pub may_promote : Incident → Bool
may_promote inc =
    not inc.dry_run
    && not inc.verdict.review_only
    && is_actionable inc.verdict
    && not (is_quarantine inc.verdict.action)

module _ (env : Env) (m : Machine) where
  after_bare_card : ℕ → CopyError → Bool → Option CardError → M (Option Error)
  after_bare_card id e true none = pure none
  after_bare_card id e true (some c) = do
    set_state env id not_acted
    write_log (not_enforced id admin_notify)
    pure (some (admin_not_sent c))
  after_bare_card id e false none = do
    write_log (not_enforced id evidence_copy)
    pure (some (no_evidence e))
  after_bare_card id e false (some c) = do
    write_log (not_enforced id admin_notify)
    pure (some (not_notified e c))

  -- The branch of process where no evidence reached the admin chat; `none` is to go on.
  pub notify_without_evidence : ℕ → Incident → String → CopyError → M (Option Error)
  unfolding after_bare_card
  notify_without_evidence id inc title e = do
    if acts_without_evidence inc.verdict then pure tt else set_state env id evidence_failed
    sent ← send_card env m id (bare_card env m id inc title e)
    after_bare_card id e (acts_without_evidence inc.verdict) sent

  -- The copies of a card that is not registered are removed again.
  roll_back : List ℤ → CardError → M (Unit {0})
  roll_back copies c =
      if is_unrecorded c
      then (do Port.delete_messages env m.admin_chat_id copies; pure tt)
      else pure tt

  after_card : ℕ → List ℤ → Option CardError → M (Option Error)
  unfolding roll_back
  after_card id copies (some c) = do
    roll_back copies c
    set_state env id not_acted
    write_log (not_enforced id admin_notify)
    pure (some (admin_not_sent c))
  after_card id copies none = do
    saved ← execute env (add_evidence id m.admin_chat_id copies)
    if saved then (do set_state env id evidenced; pure none) else (do
      set_state env id not_acted
      write_log (not_enforced id evidence_store)
      pure (some evidence_not_saved))

  -- The branch where evidence was copied.
  pub notify_with_evidence : ℕ → Incident → String → List ℤ → M (Option Error)
  unfolding after_card
  notify_with_evidence id inc title copies = do
    sent ← send_card env m id (evidence_card env m id inc title copies)
    after_card id copies sent

  -- Copies that came back as an empty list are a failed copy.
  pub notify : ℕ → Incident → Result (List ℤ) → String → M (Option Error)
  notify id inc (err e) title = notify_without_evidence id inc title (copy_failed e)
  notify id inc (ok []) title = notify_without_evidence id inc title nothing_copied
  notify id inc (ok (c ∷ cs)) title = notify_with_evidence id inc title (c ∷ cs)

  -- The last write of process.
  pub mark_done : ℕ → Bool → M Report
  mark_done id sanctioned = do
    saved ← execute env (set_incident_state id done)
    pure (sanctioned, if saved then none else some state_not_saved)

  -- Best effort: the ephemeral notice to the sender.
  pub send_notice : Incident → M (Unit {0})
  send_notice inc =
      if m.ephemeral_notice
        && not (str_eq m.ephemeral_text "")
        && not (same inc.sender.user_id (pos 0))
      then (do Port.send_ephemeral env inc.chat_id inc.sender.user_id m.ephemeral_text; pure tt)
      else pure tt

  after_enforce : ℕ → Incident → Outcome → M Report
  after_enforce id inc out =
      if is_some out.error
      then pure (out.sanctioned, out.error)
      else (do send_notice inc; mark_done id out.sanctioned)

  -- A review verdict or a dry run: nothing is applied.
  pub hold_back : ℕ → Incident → M Report
  hold_back id inc = do
    write_log (not_enforced id (held_back inc.dry_run inc.verdict.review_only))
    mark_done id false

  sanction_now : ℕ → Incident → M Report
  unfolding after_enforce
  sanction_now id inc = do out ← enforce env id inc; after_enforce id inc out

  -- The end of process, after the admins were told.
  pub act : ℕ → Incident → M Report
  act id inc =
      if inc.dry_run || inc.verdict.review_only then hold_back id inc else sanction_now id inc

  abbrev act_unless : ℕ → Incident → Option Error → M Report
  act_unless id inc (some e) = pure (false, some e)
  act_unless id inc none = act id inc

  -- process
  pub process : ℕ → Incident → M Report
  process id inc = do
    save_album env m id inc
    save_tokens env m id inc
    copies ← Port.copy_messages env m.admin_chat_id inc.chat_id inc.message_ids
    title ← Port.chat_title env inc.chat_id
    stopped ← notify id inc copies (title_or_empty title)
    act_unless id inc stopped

  -- What override does with a review that is still one.
  promote_claimed : ℕ → Incident → List ℤ → M Report
  promote_claimed id inc ids = do
    (done', e) ← process id (with_ids inc ids)
    execute env (finish_manual_override id inc.verdict done')
    pure (true, e)

  -- What it does where the row was decided meanwhile, or cannot be read.
  give_back : ℕ → Incident → Option (Option IncidentRow) → M Report
  give_back id inc row = do
    finished ← execute env (finish_manual_override id inc.verdict false)
    pure (false, join_errors (is_read row) finished)

  promote_if : ℕ → Incident → List ℤ → Option (Option IncidentRow) → M Report
  unfolding promote_claimed give_back
  promote_if id inc ids row =
      if is_review_row row then promote_claimed id inc ids else give_back id inc row

  -- The automatic half of override: a review that an edit promotes goes through process again.
  pub promote : ℕ → Incident → List ℤ → M Report
  unfolding promote_if
  promote id inc ids = do
    row ← transact env (λ db. (db, get_incident id db))
    promote_if id inc ids row

  abbrev mark_done_if : ℕ → Outcome → M (Unit {0})
  mark_done_if id out =
      if out.sanctioned && not (is_some out.error) then set_state env id done else pure tt

  -- The moderator's half of override: the sanction now, on the evidence that is there.
  pub carry_out : ℕ → Incident → Claim → M Report
  carry_out id inc claim = do
    let inc' = with_ids inc claim.message_ids
    out ← enforce env id inc'
    mark_done_if id out
    send_card env m id (
        card_message env m id inc' claim.evidence_ids
          (record {
            id = id;
            incident = inc';
            title = "";
            note = override_note (record { sanctioned = out.sanctioned; deleted = out.deleted });
            will_act = out.sanctioned;
          })
          false)
    execute env (finish_manual_override id inc.verdict out.sanctioned)
    if is_some out.error then pure (true, out.error) else (do send_notice inc'; pure (true, none))

  with_claim : ℕ → Incident → Option Claim → M Report
  with_claim id inc none = pure (false, some claim_failed)
  with_claim id inc (some claim) =
      if claim.claimed
      then (if is_manual inc.verdict
          then carry_out id inc claim
          else promote id inc claim.message_ids)
      else pure (false, none)

  -- override
  pub override : ℕ → Incident → M Report
  unfolding with_claim
  override id inc = do claim ← transact env (claim_manual_override id); with_claim id inc claim

  after_insert : Incident → Option (ℕ × Bool) → M Report
  after_insert inc none = pure (false, some insert_pending_failed)
  after_insert inc (some (id, true)) = do (done', e) ← process id inc; pure (true, e)
  after_insert inc (some (id, false)) =
      if is_manual inc.verdict || may_promote inc then override id inc else pure (false, none)

  -- HandleReport: whether this message was acted on now, and the error.
  pub handle_report : Incident → M Report
  unfolding after_insert
  handle_report inc = if is_empty inc.message_ids then pure (false, some no_message_ids) else (do
    inserted ← transact env (
        insert_pending inc.chat_id (first_id inc.message_ids) inc.sender.user_id
          inc.sender.sender_chat_id inc.dry_run inc.verdict)
    after_insert inc inserted)

  -- Handle
  pub handle : Incident → M (Option Error)
  handle inc = do (fresh, e) ← handle_report inc; pure e
