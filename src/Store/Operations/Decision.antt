-- ===== src/Store/Operations/Decision.antt =====
-- A decision on an incident stands until it is released: whoever else presses a button, types a
-- command or runs the command line meanwhile.
use telegram_antispam.Common.{
  ℕ, ℤ, String, Bool, true, false, ◌&&◌, ◌==◌, ==_iff, List, [], ◌∷◌, some, ◌≡◌, refl, ap, ◌∙◌, ◌≢◌,
  arith, Bool-cases, Option-cases, inl, inr, str_eq, eq_iff, any,
}
use telegram_antispam.Domain.{Verdict}
use telegram_antispam.Store.Tables.{Row, has_id, Db, find_where}
use telegram_antispam.Store.Tables.Laws.{row-update_where, find_where-append}
use telegram_antispam.Store.Incidents.{
  has_key, update_row, update_audit, insert_pending, set_incident_state, mark_sanction_unknown,
  mark_sanction_refused, add_evidence, delete_evidence_set, save_incident_message_ids,
  save_incident_tokens, save_incident_card, delete_evidence_rows, delete_incident_tokens,
}
use telegram_antispam.Store.Decisions.{
  manual_override_claim, claim_manual_override, release, landed, release_decision,
  finish_manual_override, record_decision, mark_incident_enforced,
}
use telegram_antispam.Store.Decisions.Claims.{
  row_of, taken, claim_manual_override-db, record_decision-db, claim_manual_override-of_taken,
  record_decision-of_taken,
}
use telegram_antispam.Store.Operations.{
  Operation, insert, set_state, unknown, refuse, evidence, album, tokens, card, drop_copies,
  drop_evidence, drop_tokens, claim, finish, decide, Operation.release as release_op, enforced,
  apply, run,
}

-- The incident is on record with this decision.
abbrev pub Holds : ℕ → String → Db → Type 0
Holds id d db = (r : Row) × (row_of id db ≡ some r) × (r.decision ≡ d)

-- The operations that give the decision back: ReleaseDecision of it, and FinishManualOverride where
-- it is the claim of a manual override.
abbrev pub releases : ℕ → String → Operation → Bool
releases id d (release_op j e) = j == id && str_eq d e
releases id d (finish j v s) = j == id && str_eq d manual_override_claim
releases id d _ = false

Holds-update_row :
    (id j : ℕ) (d : String) (f : Row → Row) (db : Db)
    → ((r : Row) → (f r).id ≡ r.id)
    → ((r : Row) → r.decision ≡ d → (j == id) ≡ true → (f r).decision ≡ d)
    → Holds id d db
    → Holds id d (update_row j f db)
Holds-update_row id j d f db h k (r, e, q) = elim (Bool-cases (j == id)) [
  | inl t ↦ (f r, row-update_where j id f db.incidents h ∙ rw (t, e), k r q t)
  | inr t ↦ (r, row-update_where j id f db.incidents h ∙ rw (t, e), q)
]

Holds-of_eq : (id : ℕ) (d : String) {a b : Db} → a ≡ b → Holds id d b → Holds id d a
Holds-of_eq id d e h = rw e h

-- A taken incident is not claimed again.
Holds-claim :
    (id j : ℕ) (d : String) (db : Db)
    → str_eq d "" ≡ false
    → Holds id d db
    → Holds id d (claim_manual_override j db).0
Holds-claim id j d db ne (r, e, q) = elim (Bool-cases (j == id)) [
  | inl t ↦
      let same_id : j ≡ id = (==_iff j id).0 t in
      Holds-of_eq id d
        (ap (λ x. x.0) (claim_manual_override-of_taken j db {r = r} (rw same_id e) (rw q ne)))
        (r, e, q)
  | inr t ↦ elim (claim_manual_override-db j db) [
    | inl c ↦ Holds-of_eq id d c (r, e, q)
    | inr c ↦
        Holds-of_eq id d c
          (Holds-update_row id j d (taken _) db (λ x. refl) (λ x p u. cc) (r, e, q))
  ]
]

Holds-decide :
    (id j : ℕ) (d d' : String) (db : Db)
    → str_eq d "" ≡ false
    → Holds id d db
    → Holds id d (record_decision j d' db).0
Holds-decide id j d d' db ne (r, e, q) = elim (Bool-cases (j == id)) [
  | inl t ↦
      let same_id : j ≡ id = (==_iff j id).0 t in
      Holds-of_eq id d
        (ap (λ x. x.0) (record_decision-of_taken j d' db {r = r} (rw same_id e) (rw q ne)))
        (r, e, q)
  | inr t ↦ elim (record_decision-db j d' db) [
    | inl c ↦ Holds-of_eq id d c (r, e, q)
    | inr c ↦
        Holds-of_eq id d c
          (Holds-update_row id j d (taken _) db (λ x. refl) (λ x p u. cc) (r, e, q))
  ]
]

-- Releasing another decision leaves this one.
Holds-release :
    (id j : ℕ) (d e : String) (db : Db)
    → (j == id && str_eq d e) ≡ false
    → Holds id d db
    → Holds id d (update_row j (release e) db)
Holds-release id j d e db nr h =
    Holds-update_row id j d (release e) db (λ r. ground arith) (λ r q t. ground (arith, q, t, nr)) h

Holds-finish :
    (id j : ℕ) (d : String) (v : Verdict) (s : Bool) (db : Db)
    → (j == id && str_eq d manual_override_claim) ≡ false
    → Holds id d db
    → Holds id d (finish_manual_override j v s db)
unfolding finish_manual_override
Holds-finish id j d v false db nr h = Holds-release id j d manual_override_claim db nr h
Holds-finish id j d v true db nr h =
    Holds-release id j d manual_override_claim
      (update_audit j
        (λ a. record a {
          action = v.action;
          scope = v.scope;
          reason = v.reason;
          signals = v.signals;
        })
        (update_row j landed db))
      nr (Holds-update_row id j d landed db (λ r. refl) (λ r q t. q) h)

Holds-insert :
    (id : ℕ) (d : String) (chat mid user sender : ℤ) (dry : Bool) (v : Verdict) (db : Db)
    → Holds id d db
    → Holds id d (insert_pending chat mid user sender dry v db).0
unfolding insert_pending
Holds-insert id d chat mid user sender dry v db (r, e, q) =
    elim (Option-cases (find_where (has_key chat mid) db.incidents)) [
      | inr (x, f) ↦ rw (f, insert_pending) (r, e, q)
      | inl f ↦ rw (f, insert_pending) (r, find_where-append (has_id id) db.incidents _ e, q)
    ]

Holds-drop_copies :
    (id j : ℕ) (d : String) (chat : ℤ) (is : List ℤ) (db : Db)
    → Holds id d db
    → Holds id d (delete_evidence_set j chat is db)
unfolding delete_evidence_set
Holds-drop_copies id j d chat [] db h = h
Holds-drop_copies id j d chat (mid ∷ is) db (r, e, q) = Holds-drop_copies id j d chat is _ (r, e, q)

Holds-tokens :
    (id j : ℕ) (d : String) (ts : List String) (db : Db)
    → Holds id d db
    → Holds id d (save_incident_tokens j ts db)
unfolding save_incident_tokens
Holds-tokens id j d [] db h = h
Holds-tokens id j d (t ∷ ts) db (r, e, q) = (r, e, q)

-- An update of other columns.
Holds-other :
    (id j : ℕ) (d : String) (f : Row → Row) (db : Db)
    → ((r : Row) → (f r).id ≡ r.id)
    → ((r : Row) → (f r).decision ≡ r.decision)
    → Holds id d db
    → Holds id d (update_row j f db)
Holds-other id j d f db h k = Holds-update_row id j d f db h (λ r q t. k r ∙ q)

apply-Holds :
    (id : ℕ) (d : String) (o : Operation) (db : Db)
    → str_eq d "" ≡ false
    → releases id d o ≡ false
    → Holds id d db
    → Holds id d (apply o db)
unfolding apply set_incident_state mark_sanction_unknown mark_sanction_refused add_evidence
    save_incident_message_ids save_incident_card delete_evidence_rows delete_incident_tokens
    release_decision mark_incident_enforced
apply-Holds id d (insert c k u s y v) db ne nr h = Holds-insert id d c k u s y v db h
apply-Holds id d (set_state j st) db ne nr h = Holds-other id j d _ db (λ r. refl) (λ r. refl) h
apply-Holds id d (unknown j a) db ne nr h = Holds-other id j d _ db (λ r. refl) (λ r. refl) h
apply-Holds id d (refuse j) db ne nr h =
    Holds-other id j d _ db (λ r. ground arith) (λ r. ground arith) h
apply-Holds id d (evidence j chat is) db ne nr (r, e, q) = (r, e, q)
apply-Holds id d (album j is) db ne nr h = Holds-other id j d _ db (λ r. refl) (λ r. refl) h
apply-Holds id d (tokens j ts) db ne nr h = Holds-tokens id j d ts db h
apply-Holds id d (card j c) db ne nr (r, e, q) = (r, e, q)
apply-Holds id d (drop_copies j chat is) db ne nr h = Holds-drop_copies id j d chat is db h
apply-Holds id d (drop_evidence j) db ne nr (r, e, q) = (r, e, q)
apply-Holds id d (drop_tokens j) db ne nr (r, e, q) = (r, e, q)
apply-Holds id d (claim j) db ne nr h = Holds-claim id j d db ne h
apply-Holds id d (finish j v s) db ne nr h = Holds-finish id j d v s db nr h
apply-Holds id d (decide j d') db ne nr h = Holds-decide id j d d' db ne h
apply-Holds id d (release_op j e) db ne nr h = Holds-release id j d e db nr h
apply-Holds id d (enforced j a) db ne nr h = Holds-other id j d _ db (λ r. refl) (λ r. refl) h

run-Holds :
    (id : ℕ) (d : String) (os : List Operation) (db : Db)
    → str_eq d "" ≡ false
    → any (releases id d) os ≡ false
    → Holds id d db
    → Holds id d (run os db)
unfolding run
run-Holds id d [] db ne nr h = h
run-Holds id d (o ∷ os) db ne nr h =
    run-Holds id d os (apply o db) ne (ground arith) (apply-Holds id d o db ne (ground arith) h)

-- An incident carries one decision. If it is on record with a decision that is not empty, then
-- after any operations that do not give that decision back, in any order, it still carries it, a
-- claim for a manual override is refused, and a press of a button is told that decision.
pub decision_stands :
    (id : ℕ) (d : String) (os : List Operation) (db : Db)
    → d ≢ ""
    → any (releases id d) os ≡ false
    → Holds id d db
    → Holds id d (run os db)
      × ((claim_manual_override id (run os db)).1.claimed ≡ false)
      × ((d' : String) → (record_decision id d' (run os db)).1 ≡ some (false, d))
decision_stands id d os db ne nr h =
    let free : str_eq d "" ≡ false = ground (arith, eq_iff d "") in
    let kept : Holds id d (run os db) = run-Holds id d os db free nr h in
    (
      kept,
      ap (λ x. x.1.claimed)
          (claim_manual_override-of_taken id (run os db) {r = kept.0} kept.1 (rw (kept.2) free)),
      λ d'.
          ap (λ x. x.1)
            (record_decision-of_taken id d' (run os db) {r = kept.0} kept.1 (rw (kept.2) free))
          ∙ ap (λ (t : String). some (false, t)) kept.2,
    )
