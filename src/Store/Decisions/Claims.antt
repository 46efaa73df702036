-- ===== src/Store/Decisions/Claims.antt =====
-- What a claim of an incident reads and writes, by the row that it finds.
use telegram_antispam.Common.{
  ℕ, if◌then◌else◌, String, false, Option, none, some, ◌≡◌, refl, ◌⊎◌, inl, inr, Bool-cases, str_eq,
}
use telegram_antispam.Store.Tables.{Row, has_id, Db, find_where}
use telegram_antispam.Store.Incidents.{update_row}
use telegram_antispam.Store.Decisions.{
  manual_override_claim, claimable, refused, claim_row, claim_manual_override, decide_row,
  record_decision,
}

-- The row of an incident.
abbrev pub row_of : ℕ → Db → Option Row
row_of id db = find_where (has_id id) db.incidents

abbrev pub taken : String → Row → Row
taken d r = record r { decision = d }

claim_row-db :
    (id : ℕ) (db : Db) (o : Option Row)
    → ((claim_row id db o).0 ≡ db)
      ⊎ ((claim_row id db o).0 ≡ update_row id (taken manual_override_claim) db)
unfolding claim_row
claim_row-db id db none = inl refl
claim_row-db id db (some r) = elim (Bool-cases (claimable db id r)) [
  | inl e ↦ rw e (inr refl)
  | inr e ↦ rw e (inl refl)
]

claim_row-row :
    (id : ℕ) (db : Db) (o : Option Row) (r : Row)
    → o ≡ some r
    → ((claim_row id db o).1.claimed ≡ claimable db id r)
      × ((claim_row id db o).0
          ≡ (if claimable db id r then update_row id (taken manual_override_claim) db else db))
unfolding claim_row
claim_row-row id db o r e = elim (Bool-cases (claimable db id r)) [
  | inl c ↦ rw (e, claim_row) (rw c (refl, refl))
  | inr c ↦ rw (e, claim_row) (rw c (refl, refl))
]

-- A claim by the row that it finds.
pub claim_manual_override-row :
    (id : ℕ) (db : Db) (r : Row)
    → row_of id db ≡ some r
    → ((claim_manual_override id db).1.claimed ≡ claimable db id r)
      × ((claim_manual_override id db).0
          ≡ (if claimable db id r then update_row id (taken manual_override_claim) db else db))
unfolding claim_manual_override
claim_manual_override-row id db r e = claim_row-row id db (row_of id db) r e

-- A claim changes nothing, or the decision of its row.
pub claim_manual_override-db :
    (id : ℕ) (db : Db)
    → ((claim_manual_override id db).0 ≡ db)
      ⊎ ((claim_manual_override id db).0 ≡ update_row id (taken manual_override_claim) db)
unfolding claim_manual_override
claim_manual_override-db id db = claim_row-db id db (row_of id db)

decide_row-db :
    (id : ℕ) (d : String) (db : Db) (o : Option Row)
    → ((decide_row id d db o).0 ≡ db) ⊎ ((decide_row id d db o).0 ≡ update_row id (taken d) db)
unfolding decide_row
decide_row-db id d db none = inl refl
decide_row-db id d db (some r) = elim (Bool-cases (str_eq r.decision "")) [
  | inl e ↦ rw e (inr refl)
  | inr e ↦ rw e (inl refl)
]

pub record_decision-db :
    (id : ℕ) (d : String) (db : Db)
    → ((record_decision id d db).0 ≡ db)
      ⊎ ((record_decision id d db).0 ≡ update_row id (taken d) db)
unfolding record_decision
record_decision-db id d db = decide_row-db id d db (row_of id db)

-- A row whose decision is taken is not claimed, and keeps the database as it is.
claim_row-of_taken :
    (id : ℕ) (db : Db) (o : Option Row) {r : Row}
    → o ≡ some r
    → str_eq r.decision "" ≡ false
    → claim_row id db o ≡ (db, refused)
unfolding claim_row
claim_row-of_taken id db o e h = rw (e, claim_row) (rw h)

pub claim_manual_override-of_taken :
    (id : ℕ) (db : Db) {r : Row}
    → row_of id db ≡ some r
    → str_eq r.decision "" ≡ false
    → claim_manual_override id db ≡ (db, refused)
unfolding claim_manual_override
claim_manual_override-of_taken id db e h = claim_row-of_taken id db (row_of id db) e h

decide_row-of_taken :
    (id : ℕ) (d : String) (db : Db) (o : Option Row) {r : Row}
    → o ≡ some r
    → str_eq r.decision "" ≡ false
    → decide_row id d db o ≡ (db, some (false, r.decision))
unfolding decide_row
decide_row-of_taken id d db o e h = rw (e, decide_row) (rw h)

pub record_decision-of_taken :
    (id : ℕ) (d : String) (db : Db) {r : Row}
    → row_of id db ≡ some r
    → str_eq r.decision "" ≡ false
    → record_decision id d db ≡ (db, some (false, r.decision))
unfolding record_decision
record_decision-of_taken id d db e h = decide_row-of_taken id d db (row_of id db) e h
