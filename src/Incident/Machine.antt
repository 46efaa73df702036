-- ===== src/Incident/Machine.antt =====
-- internal/incident/machine.go: Handle, process, override and Enforce, call by call.
-- An error is a value beside what the method returns; a method that only logs its failures returns
-- nothing. The lines of logOutcome are kept, those about a failed write are not.
pub mod Port
pub mod Process
pub mod Calls
pub mod Enforce
use telegram_antispam.Common.{
  ℕ, ℤ, pos, String, Bool, true, false, ◌&&◌, ◌||◌, not, ◌==◌, ltb, same, if◌then◌else◌, List, [],
  ◌∷◌, Option, none, some, length, is_empty, is_some, any, str_eq,
}
use telegram_antispam.Domain.{
  Action, none_action, delete_mute, mute, ban, delete_only, quarantine, IncidentState, evidenced,
  acted, cleaned, done, evidence_failed, not_acted, Verdict, is_actionable, is_quarantine, Incident,
  Signal, SenderKind, external_channel, Sender,
}
use telegram_antispam.Store.Tables.{Db}
use telegram_antispam.Store.Incidents.{
  insert_pending, set_incident_state, mark_sanction_unknown, mark_sanction_refused, add_evidence,
  save_incident_message_ids, save_incident_tokens, save_incident_card, IncidentRow, get_incident,
  is_punitive,
}
use telegram_antispam.Store.Decisions.{Claim, claim_manual_override, finish_manual_override}
use telegram_antispam.Incident.World.{
  Failure, Result, ok, err, is_ok, CopyError, copy_failed, nothing_copied, CardError, send_failed,
  card_not_recorded, Effect, Note, no_note, copy_note, incomplete, override_note, CardText,
  AdminMessage, Env, Stage, admin_notify, evidence_copy, evidence_store, held_back, enforced,
  not_enforced, World, M, ◌>>=◌, ◌>>◌, pure, write_log, transact, execute,
}
use Port

-- type Machine; `has_buttons` says whether SetButtons was called.
pub record Machine : Type 0 where
  pub admin_chat_id : ℤ
  pub has_buttons : Bool
  pub ephemeral_notice : Bool
  pub ephemeral_text : String

-- The errors of applyAction.
pub data ApplyError : Type 0 where
  call_failed : Failure → ApplyError
  unknown_action : ApplyError

-- The errors that Handle and Enforce return, each with what it wraps.
pub data Error : Type 0 where
  no_message_ids insert_pending_failed evidence_not_saved state_not_saved claim_failed : Error
  not_notified : CopyError → CardError → Error
  no_evidence : CopyError → Error
  admin_not_sent : CardError → Error
  apply_failed : ApplyError → Bool → Error
  originals_not_deleted : Failure → Error
  not_promoted : Bool → Bool → Error

pub record Outcome : Type 0 where
  pub sanctioned : Bool
  pub deleted : Bool
  pub error : Option Error

abbrev is_manual_signal : Signal → Bool
is_manual_signal s = str_eq s.name "manual_spam" || str_eq s.name "manual_ban"

-- actsWithoutEvidence
unfoldable pub acts_without_evidence : Verdict → Bool
acts_without_evidence v = any (λ s. str_eq s.name "blocklist" || is_manual_signal s) v.signals

-- isManual
unfoldable pub is_manual : Verdict → Bool
is_manual v = any is_manual_signal v.signals

abbrev first_id : List ℤ → ℤ
first_id [] = pos 0
first_id (n ∷ ns) = n

abbrev to_apply_error : Result (Unit {0}) → Option ApplyError
to_apply_error (ok _) = none
to_apply_error (err e) = some (call_failed e)

abbrev is_channel : SenderKind → Bool
is_channel external_channel = true
is_channel _ = false

abbrev enforce_error : Option ApplyError → Result (Unit {0}) → Option Error
enforce_error none (ok _) = none
enforce_error none (err e) = some (originals_not_deleted e)
enforce_error (some a) r = some (apply_failed a (is_ok r))

module _ (env : Env) where
  -- The last switch of applyAction.
  apply_to_member : Incident → Action → M (Option ApplyError)
  apply_to_member inc ban = do
    r ← Port.ban_member env inc.chat_id inc.sender.user_id
    pure (to_apply_error r)
  apply_to_member inc mute = do
    r ← Port.restrict_member env inc.chat_id inc.sender.user_id
    pure (to_apply_error r)
  apply_to_member inc delete_mute = do
    r ← Port.restrict_member env inc.chat_id inc.sender.user_id
    pure (to_apply_error r)
  apply_to_member inc delete_only = pure none
  apply_to_member inc quarantine = pure none
  apply_to_member inc none_action = pure none
  apply_to_member inc _ = pure (some unknown_action)

  -- applyAction
  pub apply_action : Incident → M (Option ApplyError)
  unfolding apply_to_member
  apply_action inc =
      if is_channel inc.sender.kind
        && not (same inc.sender.sender_chat_id (pos 0))
        && is_punitive inc.verdict.action
      then (do
        r ← Port.ban_sender_chat env inc.chat_id inc.sender.sender_chat_id
        pure (to_apply_error r))
      else apply_to_member inc inc.verdict.action

  -- setState: a failed write is logged only.
  pub set_state : ℕ → IncidentState → M (Unit {0})
  set_state id st = do execute env (set_incident_state id st); pure tt

  -- How the attempt is recorded: only Telegram's refusal proves that no sanction landed.
  pub record_attempt : ℕ → Incident → Option ApplyError → M (Unit {0})
  record_attempt id inc none = set_state id acted
  record_attempt id inc (some (call_failed Failure.refused)) = do
    execute env (mark_sanction_refused id)
    pure tt
  record_attempt id inc (some _) = do
    execute env (mark_sanction_unknown id inc.verdict.action)
    pure tt

  -- The last switch of Enforce: with no error the state is cleaned.
  pub mark_cleaned : ℕ → Option Error → M (Unit {0})
  mark_cleaned id none = set_state id cleaned
  mark_cleaned id (some _) = pure tt

  -- The end of Enforce: its last state, its line in the log, its result.
  pub close_attempt : ℕ → Option ApplyError → Result (Unit {0}) → M Outcome
  close_attempt id act_err del = do
    mark_cleaned id (enforce_error act_err del)
    write_log (enforced id (record { sanctioned = not (is_some act_err); deleted = is_ok del }))
    pure (record {
      sanctioned = not (is_some act_err);
      deleted = is_ok del;
      error = enforce_error act_err del;
    })

  -- Enforce: the sanction, then the deletion, whether or not the sanction landed.
  pub enforce : ℕ → Incident → M Outcome
  enforce id inc = do
    act_err ← apply_action inc
    record_attempt id inc act_err
    del ← Port.delete_messages env inc.chat_id inc.message_ids
    close_attempt id act_err del

abbrev missing_note : ℕ → ℕ → Note
missing_note got want = if ltb got want then incomplete got want else no_note

module _ (env : Env) (m : Machine) where
  -- sendCard's rollback of a card that could not be registered.
  withdraw_card : ℤ → M (Unit {0})
  withdraw_card mid = do
    r ← Port.delete_messages env m.admin_chat_id (mid ∷ [])
    if is_ok r then pure tt else (do Port.edit_admin_markup env m.admin_chat_id mid; pure tt)

  register_card : ℕ → Result ℤ → M (Option CardError)
  unfolding withdraw_card
  register_card id (err e) = pure (some (send_failed e))
  register_card id (ok mid) = do
    saved ←
        execute env (save_incident_card id (record { chat_id = m.admin_chat_id; message_id = mid }))
    if saved then pure none else (do withdraw_card mid; pure (some card_not_recorded))

  -- sendCard
  pub send_card : ℕ → AdminMessage → M (Option CardError)
  unfolding register_card
  send_card id msg = do sent ← Port.send_admin env m.admin_chat_id msg; register_card id sent

  -- Best effort: the album's ids, where there is more than one.
  pub save_album : ℕ → Incident → M (Unit {0})
  save_album id inc =
      if ltb 1 (length inc.message_ids)
      then (do execute env (save_incident_message_ids id inc.message_ids); pure tt)
      else pure tt

  -- Best effort: the tokens, where there are any.
  pub save_tokens : ℕ → Incident → M (Unit {0})
  save_tokens id inc =
      if is_empty inc.tokens
      then pure tt
      else (do execute env (save_incident_tokens id inc.tokens); pure tt)

  abbrev pub buttons_for : Bool → Option Bool
  buttons_for unenforced = if m.has_buttons then some unenforced else none

  abbrev pub card_message : ℕ → Incident → List ℤ → CardText → Bool → AdminMessage
  card_message id inc copies text unenforced = record {
    text = text;
    incident_key = id;
    source_chat_id = inc.chat_id;
    copied_from_chat_id = inc.chat_id;
    copy_message_ids = copies;
    buttons = buttons_for unenforced;
  }

  -- The card of an incident with no evidence in the admin chat.
  abbrev pub bare_card : ℕ → Incident → String → CopyError → AdminMessage
  bare_card id inc title e =
      let acting = acts_without_evidence inc.verdict in
      card_message id inc []
        (record {
          id = id;
          incident = inc;
          title = title;
          note = copy_note e acting;
          will_act = acting && not inc.dry_run;
        })
        false

  abbrev pub evidence_card : ℕ → Incident → String → List ℤ → AdminMessage
  evidence_card id inc title copies =
      card_message id inc copies
        (record {
          id = id;
          incident = inc;
          title = title;
          note = missing_note (length copies) (length inc.message_ids);
          will_act = not inc.dry_run;
        })
        inc.dry_run
