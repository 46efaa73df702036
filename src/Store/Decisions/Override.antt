-- ===== src/Store/Decisions/Override.antt =====
-- A manual override from its claim to its end: what it leaves, and that it cannot be repeated.
use telegram_antispam.Common.{
  ℕ, ℤ, Bool, true, false, ◌&&◌, ◌||◌, not, eq_refl, ==_refl, if◌then◌else◌, List, [], ◌∷◌, Option,
  none, some, ◌≡◌, refl, ap, ◌∙◌, arith, Bool-cases, inl, inr, eq_iff, any,
}
use mathlib.Core.Option
use telegram_antispam.Domain.{IncidentState, Verdict}
use telegram_antispam.Store.Tables.{Row, Audit, Db, find_where}
use telegram_antispam.Store.Tables.Laws.{row-update_where, find_where-update_self}
use telegram_antispam.Store.Incidents.{
  update_row, update_audit, audit_of, IncidentRow, get_incident, sanctioned, is_finished,
  is_punitive,
}
use telegram_antispam.Store.MessageIds.{parse_message_ids}
use telegram_antispam.Store.Decisions.{
  manual_override_claim, claimable, removes, sanctions_recorded, claim_row, claim_manual_override,
  release, landed, finish_manual_override,
}
use telegram_antispam.Store.Decisions.Claims.{row_of}

-- The audit row of an incident.
abbrev pub audit_row : ℕ → Db → Option Audit
audit_row id db = find_where (audit_of id) db.audit

pub row-update_self :
    (id : ℕ) (f : Row → Row) (db : Db) {r : Row}
    → ((x : Row) → (f x).id ≡ x.id)
    → row_of id db ≡ some r
    → row_of id (update_row id f db) ≡ some (f r)
row-update_self id f db h e = rw (row-update_where id id f db.incidents h, ==_refl id, e)

abbrev rewritten : Verdict → Audit → Audit
rewritten v a = record a {
  action = v.action;
  scope = v.scope;
  reason = v.reason;
  signals = v.signals;
}

-- The row after a finished override whose sanction landed.
row-finish :
    (id : ℕ) (v : Verdict) (db : Db) {r : Row}
    → row_of id db ≡ some r
    → row_of id (finish_manual_override id v true db)
      ≡ some (release manual_override_claim (landed r))
unfolding finish_manual_override
row-finish id v db h =
    row-update_self id (release manual_override_claim)
      (update_audit id (rewritten v) (update_row id landed db)) (λ x. ground arith)
      (row-update_self id landed db (λ x. refl) h)

audit-finish :
    (id : ℕ) (v : Verdict) (db : Db) {a : Audit}
    → audit_row id db ≡ some a
    → audit_row id (finish_manual_override id v true db) ≡ some (rewritten v a)
unfolding finish_manual_override
audit-finish id v db h =
    find_where-update_self (audit_of id) (rewritten v) db.audit (λ x. refl)
    ∙ ap (Option.map (rewritten v)) h

-- A row that is found and passes makes the search for any such row succeed.
any_of_find :
    (id : ℕ) (p : Audit → Bool) (xs : List Audit) (a : Audit)
    → find_where (audit_of id) xs ≡ some a
    → p a ≡ true
    → any (λ x. audit_of id x && p x) xs ≡ true
unfolding find_where
any_of_find id p [] a e h = cc
any_of_find id p (x ∷ xs) a e h = elim (Bool-cases (audit_of id x)) [
  | inl t ↦ ground (arith, e, t, h)
  | inr t ↦ ground (arith, any_of_find id p xs a, e, t, h)
]

claim_row-refuses :
    (id : ℕ) (db : Db) (o : Option Row) (r : Row)
    → o ≡ some r
    → claimable db id r ≡ false
    → (claim_row id db o).1.claimed ≡ false
unfolding claim_row
claim_row-refuses id db o r e h = rw (e, claim_row) (rw h)

landed_unclaimable :
    (db : Db) (id : ℕ) (r : Row)
    → sanctions_recorded id db ≡ true
    → claimable db id (release manual_override_claim (landed r)) ≡ false
landed_unclaimable db id r h = ground (arith, h)

abbrev incident_of : Row → Audit → List ℤ → IncidentRow
incident_of r a ids = record {
  id = r.id;
  chat_id = r.chat_id;
  user_id = r.user_id;
  sender_chat_id = r.sender_chat_id;
  message_ids = ids;
  dry_run = r.dry_run;
  state = r.state;
  action = a.action;
}

sanctioned_landed :
    (r : Row) (a : Audit) (v : Verdict) (ids : List ℤ)
    → is_punitive v.action ≡ true
    → sanctioned (incident_of (release manual_override_claim (landed r)) (rewritten v a) ids) ≡ true
unfolding sanctioned
sanctioned_landed r a v ids h = ground (arith, h)

abbrev is_undoable : Option IncidentRow → Bool
is_undoable none = false
is_undoable (some r) = sanctioned r

-- Whether the incident carries a sanction that the admin chat can lift.
abbrev pub undoable : ℕ → Db → Bool
undoable id db = is_undoable (get_incident id db)

get_incident-finish :
    (id : ℕ) (v : Verdict) (db : Db) (r : Row) (a : Audit)
    → row_of id db ≡ some r
    → audit_row id db ≡ some a
    → get_incident id (finish_manual_override id v true db)
      ≡ some (
          incident_of (release manual_override_claim (landed r)) (rewritten v a) (
            parse_message_ids
              (release manual_override_claim (landed r)).message_ids
              (release manual_override_claim (landed r)).message_id))
unfolding get_incident
get_incident-finish id v db r a hr ha = rw (row-finish id v db hr, audit-finish id v db ha)

undoable-finish :
    (id : ℕ) (v : Verdict) (db : Db) (r : Row) (a : Audit)
    → row_of id db ≡ some r
    → audit_row id db ≡ some a
    → is_punitive v.action ≡ true
    → undoable id (finish_manual_override id v true db) ≡ true
undoable-finish id v db r a hr ha p =
    ap is_undoable (get_incident-finish id v db r a hr ha) ∙ sanctioned_landed r a v _ p

release_taken :
    (r : Row)
    → r.decision ≡ manual_override_claim
    → release manual_override_claim r ≡ record r { decision = "" }
release_taken r h = ground (arith, eq_iff r.decision manual_override_claim)

-- The row and the audit row after a finished override whose sanction did not land.
row-unlanded :
    (id : ℕ) (v : Verdict) (db : Db) (r : Row)
    → row_of id db ≡ some r
    → r.decision ≡ manual_override_claim
    → row_of id (finish_manual_override id v false db) ≡ some (record r { decision = "" })
unfolding finish_manual_override
row-unlanded id v db r h d =
    row-update_self id (release manual_override_claim) db (λ x. ground arith) h
    ∙ ap some (release_taken r d)

audit-unlanded :
    (id : ℕ) (v : Verdict) (db : Db)
    → audit_row id (finish_manual_override id v false db) ≡ audit_row id db
unfolding finish_manual_override
audit-unlanded id v db = refl

retried :
    (db : Db) (id : ℕ) (r : Row) (b : Bool)
    → claimable db id (record r { decision = "" }) ≡ b
    → (not r.dry_run || b) ≡ true
retried db id r b h = ground (arith, h, eq_refl "")

claim_row-claimed :
    (id : ℕ) (db : Db) (r : Row) → (claim_row id db (some r)).1.claimed ≡ claimable db id r
unfolding claim_row
claim_row-claimed id db r = elim (Bool-cases (claimable db id r)) [
  | inl e ↦ rw e refl
  | inr e ↦ rw e refl
]

claim_row-retries :
    (id : ℕ) (db : Db) (o : Option Row) (r : Row)
    → o ≡ some (record r { decision = "" })
    → (not r.dry_run || (claim_row id db o).1.claimed) ≡ true
claim_row-retries id db o r e =
    rw (e, claim_row-claimed id db (record r { decision = "" }))
      (retried db id r (claimable db id (record r { decision = "" })) refl)

-- FinishManualOverride of an incident on record with its audit row, whose decision is the claim, with a
-- verdict whose action is a ban or a mute. Where the sanction landed: the claim is given back, the
-- incident is no longer a dry run and its state is at least acted, no further claim succeeds, so the
-- sanction is not applied a second time, and the admin chat can lift it. Where it did not: the claim is
-- given back, nothing else of the incident and its audit row changes, and a further claim succeeds if
-- the incident is a dry run.
pub finish_final :
    (id : ℕ) (v : Verdict) (db : Db) (r : Row) (a : Audit)
    → row_of id db ≡ some r
    → audit_row id db ≡ some a
    → r.decision ≡ manual_override_claim
    → is_punitive v.action ≡ true
    → let db' = finish_manual_override id v true db in
      let undone = finish_manual_override id v false db in
      ((row_of id db'
          ≡ some (record r {
            decision = "";
            dry_run = false;
            state = if is_finished r.state then r.state else IncidentState.acted;
          }))
        × ((claim_manual_override id db').1.claimed ≡ false)
        × (undoable id db' ≡ true))
      × ((row_of id undone ≡ some (record r { decision = "" }))
          × (audit_row id undone ≡ some a)
          × ((not r.dry_run || (claim_manual_override id undone).1.claimed) ≡ true))
unfolding claim_manual_override
finish_final id v db r a hr ha d p = (
  (
    row-finish id v db hr ∙ ap some (release_taken (landed r) d),
    claim_row-refuses id (finish_manual_override id v true db) _ _ (row-finish id v db hr) (
        landed_unclaimable (finish_manual_override id v true db) id r (
          any_of_find id (λ x. removes x.action) _ _ (audit-finish id v db ha)
            (ground (arith, p)))),
    undoable-finish id v db r a hr ha p,
  ),
  (
    row-unlanded id v db r hr d,
    audit-unlanded id v db ∙ ha,
    claim_row-retries id (finish_manual_override id v false db) _ r (row-unlanded id v db r hr d),
  ),
)
