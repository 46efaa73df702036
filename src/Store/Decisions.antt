-- ===== src/Store/Decisions.antt =====
-- internal/store/incidents.go and undo.go: the one decision that an incident carries. A claim is a
-- conditional UPDATE: its condition and its write are one step on the database.
pub mod Claims
pub mod Override
use telegram_antispam.Common.{
  ℕ, ℤ, String, Bool, true, false, ◌&&◌, ◌||◌, not, ◌==◌, if◌then◌else◌, List, [], Option, none,
  some, any, str_eq,
}
use telegram_antispam.Domain.{
  IncidentState, pending, evidenced, evidence_failed, not_acted, sanction_unknown, acted, Action,
  delete_only, Verdict,
}
use telegram_antispam.Store.MessageIds.{parse_message_ids}
use telegram_antispam.Store.Tables.{Row, has_id, Audit, Db, update_where, find_where}
use telegram_antispam.Store.Incidents.{
  audit_of, update_row, update_audit, evidence_ids, is_punitive, is_finished,
}

-- const ManualOverrideClaim
abbrev pub manual_override_claim : String
manual_override_claim = "enf"

-- The states in which the machine stopped before a sanction landed, or cannot tell.
abbrev pub is_unfinished : IncidentState → Bool
is_unfinished pending = true
is_unfinished evidenced = true
is_unfinished evidence_failed = true
is_unfinished not_acted = true
is_unfinished sanction_unknown = true
is_unfinished _ = false

-- a.action IN (ban, mute, delete_mute, delete_only)
abbrev pub removes : Action → Bool
removes delete_only = true
removes a = is_punitive a

abbrev pub sanctions_recorded : ℕ → Db → Bool
sanctions_recorded id db = any (λ a. audit_of id a && removes a.action) db.audit

-- The WHERE clause of ClaimManualOverride.
abbrev pub claimable : Db → ℕ → Row → Bool
claimable db id r =
    str_eq r.decision "" && (r.dry_run || is_unfinished r.state || not (sanctions_recorded id db))

pub record Claim : Type 0 where
  pub claimed : Bool
  pub message_ids : List ℤ
  pub evidence_ids : List ℤ

abbrev refused : Claim
refused = record { claimed = false; message_ids = []; evidence_ids = [] }

claim_row : ℕ → Db → Option Row → Db × Claim
claim_row id db none = (db, refused)
claim_row id db (some r) =
    if claimable db id r
    then (
      update_row id (λ q. record q { decision = manual_override_claim }) db,
      record {
        claimed = true;
        message_ids = parse_message_ids r.message_ids r.message_id;
        evidence_ids = evidence_ids id db;
      },
    )
    else (db, refused)

-- ClaimManualOverride
unfoldable pub claim_manual_override : ℕ → Db → Db × Claim
unfolding claim_row
claim_manual_override id db = claim_row id db (find_where (has_id id) db.incidents)

abbrev pub release : String → Row → Row
release decision r = if str_eq r.decision decision then record r { decision = "" } else r

-- ReleaseDecision
unfoldable pub release_decision : ℕ → String → Db → Db
release_decision id decision db = update_row id (release decision) db

abbrev pub landed : Row → Row
landed r = record r { dry_run = false; state = if is_finished r.state then r.state else acted }

-- FinishManualOverride
unfoldable pub finish_manual_override : ℕ → Verdict → Bool → Db → Db
finish_manual_override id v true db = update_row id (release manual_override_claim) (
    update_audit id
      (λ a. record a { action = v.action; scope = v.scope; reason = v.reason; signals = v.signals })
      (update_row id landed db))
finish_manual_override id v false db = update_row id (release manual_override_claim) db

decide_row : ℕ → String → Db → Option Row → Db × Option (Bool × String)
decide_row id decision db none = (db, none)
decide_row id decision db (some r) =
    if str_eq r.decision ""
    then (update_row id (λ q. record q { decision = decision }) db, some (true, ""))
    else (db, some (false, r.decision))

-- RecordDecision: whether this call took the claim, and otherwise the decision that stands;
-- `none` is sql.ErrNoRows.
unfoldable pub record_decision : ℕ → String → Db → Db × Option (Bool × String)
unfolding decide_row
record_decision id decision db = decide_row id decision db (find_where (has_id id) db.incidents)

-- MarkIncidentEnforced
unfoldable pub mark_incident_enforced : ℕ → Action → Db → Db
mark_incident_enforced id action db =
    update_audit id (λ a. record a { action = action })
      (update_row id (λ r. record r { dry_run = false }) db)
