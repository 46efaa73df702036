-- ===== src/Tests/Stored.antt =====
-- An incident on record: its column of message ids, a moderator's confirmation and a sanction.
use telegram_antispam.Common.{
  ◌||◌, pos, negsuc, same, true, false, not, [], ◌∷◌, some, ◌≡◌, refl, arith, is_some,
}
use telegram_antispam.Domain.{IncidentState}
use telegram_antispam.Store.MessageIds.{parse_message_ids, join_ids}
use telegram_antispam.Store.MessageIds.RoundTrip.{parse_message_ids-join_ids}
use telegram_antispam.Store.Tables.{Db, Row, Audit, empty, find_where, update_where}
use telegram_antispam.Store.Incidents.{insert_pending}
use telegram_antispam.Store.Decisions.{
  claim_manual_override, finish_manual_override, manual_override_claim,
}
use telegram_antispam.Store.Decisions.Claims.{row_of}
use telegram_antispam.Store.Decisions.Override.{audit_row, undoable, finish_final}
use telegram_antispam.Store.Operations.{Operation, run}
use telegram_antispam.Incident.World.{World, Result, is_ok, Call}
use telegram_antispam.Incident.Machine.{enforce, apply_action}
use telegram_antispam.Incident.Machine.Enforce.{
  state_of, state_after, state-enforce, enforce-deletes,
}
use telegram_antispam.Tests.Incidents.{bayes, spam, willing}

parse_message_ids-join_ids_example :
    parse_message_ids (join_ids (pos 42 ∷ negsuc 6 ∷ [])) (pos 9) ≡ pos 42 ∷ negsuc 6 ∷ []
parse_message_ids-join_ids_example =
    parse_message_ids-join_ids (pos 42 ∷ negsuc 6 ∷ []) (pos 9) (λ e. absurd cc)
      (omega arith, (omega arith, tt))

-- A dry-run incident that a moderator has claimed.
abbrev claimed_db : Db
claimed_db =
    run (Operation.insert (negsuc 100) (pos 7) (pos 42) (pos 0) true bayes ∷ Operation.claim 1 ∷ [])
      empty

abbrev claimed_row : Row
claimed_row = record {
  id = 1;
  chat_id = negsuc 100;
  message_id = pos 7;
  user_id = pos 42;
  sender_chat_id = pos 0;
  state = IncidentState.pending;
  dry_run = true;
  decision = manual_override_claim;
  message_ids = [];
}

abbrev claimed_audit : Audit
claimed_audit = record {
  incident_id = 1;
  action = bayes.action;
  scope = bayes.scope;
  reason = bayes.reason;
  signals = bayes.signals;
}

finish_final_example :
    let db' = finish_manual_override 1 bayes true claimed_db in
    let undone = finish_manual_override 1 bayes false claimed_db in
    ((row_of 1 db'
        ≡ some (record claimed_row { decision = ""; dry_run = false; state = IncidentState.acted }))
      × ((claim_manual_override 1 db').1.claimed ≡ false)
      × (undoable 1 db' ≡ true))
    × ((row_of 1 undone ≡ some (record claimed_row { decision = "" }))
        × (audit_row 1 undone ≡ some claimed_audit)
        × ((not true || (claim_manual_override 1 undone).1.claimed) ≡ true))
unfolding run insert_pending claim_manual_override find_where update_where same
finish_final_example = finish_final 1 bayes claimed_db claimed_row claimed_audit refl refl refl refl

-- One incident on record, before the sanction.
abbrev recorded : World
recorded = record {
  db = (run (Operation.insert (negsuc 100) (pos 7) (pos 42) (pos 0) false bayes ∷ []) empty);
  calls = [];
  statements = 0;
  log = [];
}

state-enforce_example :
    state_of 1 (enforce willing 1 spam recorded).1.db
    ≡ some (state_after (enforce willing 1 spam recorded).0.error IncidentState.pending)
unfolding run insert_pending find_where same
state-enforce_example =
    state-enforce willing (λ n. refl) 1 spam recorded
      {r = record claimed_row { dry_run = false; decision = "" }} refl

enforce-deletes_example :
    (r : Result (Unit {0})) × ((enforce willing 1 spam recorded).1.calls
      ≡ Call.delete_messages (negsuc 100) (pos 7 ∷ []) r
        ∷ (apply_action willing spam recorded).1.calls)
    × ((enforce willing 1 spam recorded).0.deleted ≡ is_ok r)
    × ((enforce willing 1 spam recorded).0.sanctioned
        ≡ not (is_some (apply_action willing spam recorded).0))
enforce-deletes_example = enforce-deletes willing 1 spam recorded
