-- ===== src/Store/Operations.antt =====
-- internal/store: every operation on an incident as a value, and runs of them in any order, as the
-- machine, the admin chat's buttons and the command line interleave them.
pub mod Invariant
pub mod Decision
use telegram_antispam.Common.{ℕ, ℤ, String, Bool, List, [], ◌∷◌}
use telegram_antispam.Domain.{IncidentState, Action, Verdict}
use telegram_antispam.Store.Tables.{IncidentCard, Db}
use telegram_antispam.Store.Incidents.{
  insert_pending, set_incident_state, mark_sanction_unknown, mark_sanction_refused, add_evidence,
  save_incident_message_ids, save_incident_tokens, save_incident_card, delete_evidence_set,
  delete_evidence_rows, delete_incident_tokens,
}
use telegram_antispam.Store.Decisions.{
  claim_manual_override, release_decision, finish_manual_override, record_decision,
  mark_incident_enforced,
}

-- A call that writes, with its arguments.
pub data Operation : Type 0 where
  insert : ℤ → ℤ → ℤ → ℤ → Bool → Verdict → Operation
  set_state : ℕ → IncidentState → Operation
  unknown : ℕ → Action → Operation
  refuse : ℕ → Operation
  evidence : ℕ → ℤ → List ℤ → Operation
  album : ℕ → List ℤ → Operation
  tokens : ℕ → List String → Operation
  card : ℕ → IncidentCard → Operation
  drop_copies : ℕ → ℤ → List ℤ → Operation
  drop_evidence : ℕ → Operation
  drop_tokens : ℕ → Operation
  claim : ℕ → Operation
  finish : ℕ → Verdict → Bool → Operation
  decide : ℕ → String → Operation
  release : ℕ → String → Operation
  enforced : ℕ → Action → Operation

unfoldable pub apply : Operation → Db → Db
apply (insert c k u s d v) db = (insert_pending c k u s d v db).0
apply (set_state id st) db = set_incident_state id st db
apply (unknown id a) db = mark_sanction_unknown id a db
apply (refuse id) db = mark_sanction_refused id db
apply (evidence id chat ids) db = add_evidence id chat ids db
apply (album id ids) db = save_incident_message_ids id ids db
apply (tokens id ts) db = save_incident_tokens id ts db
apply (card id c) db = save_incident_card id c db
apply (drop_copies id chat ids) db = delete_evidence_set id chat ids db
apply (drop_evidence id) db = delete_evidence_rows id db
apply (drop_tokens id) db = delete_incident_tokens id db
apply (claim id) db = (claim_manual_override id db).0
apply (finish id v s) db = finish_manual_override id v s db
apply (decide id d) db = (record_decision id d db).0
apply (release id d) db = release_decision id d db
apply (enforced id a) db = mark_incident_enforced id a db

-- The operations one after another, the first of the list first.
unfoldable pub run : List Operation → Db → Db
unfolding apply
run [] db = db
run (o ∷ os) db = run os (apply o db)
