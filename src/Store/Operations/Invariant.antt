-- ===== src/Store/Operations/Invariant.antt =====
-- The tables stay well formed: one row for each message of a chat, and one audit row for each row.
use telegram_antispam.Common.{
  ℕ, suc, ℤ, ◌<◌, String, Bool, true, false, ◌&&◌, ◌==◌, same, List, [], ◌∷◌, ◌++◌, map, any,
  any-append, ◌≡◌, refl, sym, ◌∙◌, arith, Option-cases, inl, inr,
}
use mathlib.Core.List.{map-append}
use telegram_antispam.Domain.{Verdict}
use telegram_antispam.Store.Tables.{Row, has_id, Audit, Db, empty, find_where}
use telegram_antispam.Store.Tables.Laws.{map-update_where, any_of_find_none}
use telegram_antispam.Store.Incidents.{
  audit_of, has_key, update_row, update_audit, insert_pending, set_incident_state,
  mark_sanction_unknown, mark_sanction_refused, add_evidence, delete_evidence_set,
  save_incident_message_ids, save_incident_tokens, save_incident_card, delete_evidence_rows,
  delete_incident_tokens,
}
use telegram_antispam.Store.Decisions.{
  claim_manual_override, release_decision, finish_manual_override, record_decision,
  mark_incident_enforced,
}
use telegram_antispam.Store.Decisions.Claims.{taken, claim_manual_override-db, record_decision-db}
use telegram_antispam.Store.Operations.{
  Operation, insert, set_state, unknown, refuse, evidence, album, tokens, card, drop_copies,
  drop_evidence, drop_tokens, claim, finish, decide, release, enforced, apply, run,
}

-- The column `id` and the key of the unique index, of all rows.
abbrev pub ids : Db → List ℕ
ids db = map (λ (r : Row). r.id) db.incidents

abbrev key_of : Row → ℤ × ℤ
key_of r = (r.chat_id, r.message_id)

abbrev pub keys : Db → List (ℤ × ℤ)
keys db = map key_of db.incidents

abbrev pub same_key : ℤ × ℤ → ℤ × ℤ → Bool
same_key a b = same b.0 a.0 && same b.1 a.1

-- Every number is below `n`, and no two are the same.
abbrev pub Below : ℕ → List ℕ → Type 0
Below n [] = Unit
Below n (i ∷ is) = (i < n) × Below n is

-- No element equals a later one.
abbrev pub Distinct : {A : Type 0} → (A → A → Bool) → List A → Type 0
Distinct eq [] = Unit
Distinct eq (x ∷ xs) = (any (λ y. eq y x) xs ≡ false) × Distinct eq xs

pub record IsValid (db : Db) : Type 0 where
  pub below : Below db.next_id (ids db)
  pub distinct_ids : Distinct ◌==◌ (ids db)
  pub distinct_keys : Distinct same_key (keys db)
  pub audited : map (λ (a : Audit). a.incident_id) db.audit ≡ ids db

-- An update that keeps ids, keys, audited ids and the counter keeps the tables well formed.
record Same (db db' : Db) : Type 0 where
  same_ids : ids db' ≡ ids db
  same_keys : keys db' ≡ keys db
  same_audit :
      map (λ (a : Audit). a.incident_id) db'.audit ≡ map (λ (a : Audit). a.incident_id) db.audit
  same_next : db'.next_id ≡ db.next_id

Same-IsValid : (db db' : Db) → Same db db' → IsValid db → IsValid db'
Same-IsValid db db' s v = record {
  below = rw (s.same_next, s.same_ids) v.below;
  distinct_ids = rw s.same_ids v.distinct_ids;
  distinct_keys = rw s.same_keys v.distinct_keys;
  audited = s.same_audit ∙ v.audited ∙ sym s.same_ids;
}

Same-refl : (db : Db) → Same db db
Same-refl db = record { same_ids = refl; same_keys = refl; same_audit = refl; same_next = refl }

Same-trans : (a b c : Db) → Same a b → Same b c → Same a c
Same-trans a b c p q = record {
  same_ids = q.same_ids ∙ p.same_ids;
  same_keys = q.same_keys ∙ p.same_keys;
  same_audit = q.same_audit ∙ p.same_audit;
  same_next = q.same_next ∙ p.same_next;
}

-- An update of a row that keeps its id and its key.
Same-update_row :
    (id : ℕ) (f : Row → Row) (db : Db)
    → ((r : Row) → (f r).id ≡ r.id)
    → ((r : Row) → key_of (f r) ≡ key_of r)
    → Same db (update_row id f db)
Same-update_row id f db h k = record {
  same_ids = map-update_where (λ (r : Row). r.id) (has_id id) f db.incidents h;
  same_keys = map-update_where key_of (has_id id) f db.incidents k;
  same_audit = refl;
  same_next = refl;
}

Same-update_audit :
    (id : ℕ) (f : Audit → Audit) (db : Db)
    → ((a : Audit) → (f a).incident_id ≡ a.incident_id)
    → Same db (update_audit id f db)
Same-update_audit id f db h = record {
  same_ids = refl;
  same_keys = refl;
  same_audit = map-update_where (λ (a : Audit). a.incident_id) (audit_of id) f db.audit h;
  same_next = refl;
}

Below-append : (n : ℕ) (is : List ℕ) → Below n is → Below (suc n) (is ++ n ∷ [])
Below-append n [] h = (omega arith, tt)
Below-append n (i ∷ is) h = (omega arith, Below-append n is h.1)

not_any-Below : (n : ℕ) (is : List ℕ) → Below n is → any (λ i. n == i) is ≡ false
not_any-Below n [] h = refl
not_any-Below n (i ∷ is) h = ground (arith, not_any-Below n is h.1)

Distinct-append :
    {A : Type 0} (eq : A → A → Bool) (xs : List A) (x : A)
    → Distinct eq xs
    → any (λ y. eq x y) xs ≡ false
    → Distinct eq (xs ++ x ∷ [])
Distinct-append eq [] x d h = (refl, tt)
Distinct-append eq (y ∷ xs) x d h = (
  ground (arith, any-append (λ z. eq z y) xs (x ∷ [])),
  Distinct-append eq xs x d.1 (ground arith),
)

-- No row has the key that a search did not find.
keys_unfound :
    (chat mid : ℤ) (rows : List Row)
    → any (has_key chat mid) rows ≡ false
    → any (λ y. same_key (chat, mid) y) (map key_of rows) ≡ false
keys_unfound chat mid [] h = refl
keys_unfound chat mid (r ∷ rows) h = ground (arith, keys_unfound chat mid rows)

insert-IsValid :
    (chat mid user sender : ℤ) (dry : Bool) (v : Verdict) (db : Db)
    → IsValid db
    → IsValid (insert_pending chat mid user sender dry v db).0
unfolding insert_pending
insert-IsValid chat mid user sender dry v db h =
    elim (Option-cases (find_where (has_key chat mid) db.incidents)) [
      | inr (r, e) ↦ rw (e, insert_pending) h
      | inl e ↦
          rw (e, insert_pending)
            (record {
              below = rw (map-append) (Below-append db.next_id (ids db) h.below);
              distinct_ids = rw (map-append) (
                  Distinct-append ◌==◌ (ids db) db.next_id h.distinct_ids
                    (not_any-Below db.next_id (ids db) h.below));
              distinct_keys = rw (map-append) (
                  Distinct-append same_key (keys db) (chat, mid) h.distinct_keys
                    (keys_unfound chat mid db.incidents
                      (any_of_find_none (has_key chat mid) db.incidents e)));
              audited = rw (map-append, h.audited, map-append);
            })
    ]

Same-of_eq : (db : Db) {a b : Db} → a ≡ b → Same db b → Same db a
Same-of_eq db e s = rw e s

Same-taken : (id : ℕ) (d : String) (db : Db) → Same db (update_row id (taken d) db)
Same-taken id d db = Same-update_row id (taken d) db (λ r. refl) (λ r. refl)

Same-claim : (id : ℕ) (db : Db) → Same db (claim_manual_override id db).0
Same-claim id db = elim (claim_manual_override-db id db) [
  | inl e ↦ Same-of_eq db e (Same-refl db)
  | inr e ↦ Same-of_eq db e (Same-taken id _ db)
]

Same-decide : (id : ℕ) (d : String) (db : Db) → Same db (record_decision id d db).0
Same-decide id d db = elim (record_decision-db id d db) [
  | inl e ↦ Same-of_eq db e (Same-refl db)
  | inr e ↦ Same-of_eq db e (Same-taken id d db)
]

Same-drop_copies :
    (id : ℕ) (chat : ℤ) (is : List ℤ) (db : Db) → Same db (delete_evidence_set id chat is db)
unfolding delete_evidence_set
Same-drop_copies id chat [] db = Same-refl db
Same-drop_copies id chat (mid ∷ is) db =
    Same-trans db _ _
      (record { same_ids = refl; same_keys = refl; same_audit = refl; same_next = refl })
      (Same-drop_copies id chat is _)

Same-tokens : (id : ℕ) (ts : List String) (db : Db) → Same db (save_incident_tokens id ts db)
unfolding save_incident_tokens
Same-tokens id [] db = Same-refl db
Same-tokens id (t ∷ ts) db = record {
  same_ids = refl;
  same_keys = refl;
  same_audit = refl;
  same_next = refl;
}

Same-finish :
    (id : ℕ) (v : Verdict) (s : Bool) (db : Db) → Same db (finish_manual_override id v s db)
unfolding finish_manual_override
Same-finish id v true db =
    Same-trans db _ _
      (Same-trans db _ _ (Same-update_row id _ db (λ r. refl) (λ r. refl))
        (Same-update_audit id _ _ (λ a. refl)))
      (Same-update_row id _ _ (λ r. ground arith) (λ r. ground arith))
Same-finish id v false db = Same-update_row id _ db (λ r. ground arith) (λ r. ground arith)

-- Every operation but an insertion keeps ids, keys and the counter.
Same-set :
    (id : ℕ) (f : Row → Row) (g : Audit → Audit) (db : Db)
    → ((r : Row) → (f r).id ≡ r.id)
    → ((r : Row) → key_of (f r) ≡ key_of r)
    → ((a : Audit) → (g a).incident_id ≡ a.incident_id)
    → Same db (update_audit id g (update_row id f db))
Same-set id f g db h k l =
    Same-trans db _ _ (Same-update_row id f db h k) (Same-update_audit id g _ l)

apply-IsValid : (o : Operation) (db : Db) → IsValid db → IsValid (apply o db)
unfolding apply set_incident_state mark_sanction_unknown mark_sanction_refused add_evidence
    save_incident_message_ids save_incident_card delete_evidence_rows delete_incident_tokens
    release_decision mark_incident_enforced
apply-IsValid (insert c k u s d v) db h = insert-IsValid c k u s d v db h
apply-IsValid (set_state id st) db h =
    Same-IsValid db _ (Same-update_row id _ db (λ r. refl) (λ r. refl)) h
apply-IsValid (unknown id a) db h =
    Same-IsValid db _ (Same-set id _ _ db (λ r. refl) (λ r. refl) (λ x. refl)) h
apply-IsValid (refuse id) db h =
    Same-IsValid db _ (Same-update_row id _ db (λ r. ground arith) (λ r. ground arith)) h
apply-IsValid (evidence id chat is) db h = record {
  below = h.below;
  distinct_ids = h.distinct_ids;
  distinct_keys = h.distinct_keys;
  audited = h.audited;
}
apply-IsValid (album id is) db h =
    Same-IsValid db _ (Same-update_row id _ db (λ r. refl) (λ r. refl)) h
apply-IsValid (tokens id ts) db h = Same-IsValid db _ (Same-tokens id ts db) h
apply-IsValid (card id c) db h = record {
  below = h.below;
  distinct_ids = h.distinct_ids;
  distinct_keys = h.distinct_keys;
  audited = h.audited;
}
apply-IsValid (drop_copies id chat is) db h = Same-IsValid db _ (Same-drop_copies id chat is db) h
apply-IsValid (drop_evidence id) db h = record {
  below = h.below;
  distinct_ids = h.distinct_ids;
  distinct_keys = h.distinct_keys;
  audited = h.audited;
}
apply-IsValid (drop_tokens id) db h = record {
  below = h.below;
  distinct_ids = h.distinct_ids;
  distinct_keys = h.distinct_keys;
  audited = h.audited;
}
apply-IsValid (claim id) db h = Same-IsValid db _ (Same-claim id db) h
apply-IsValid (finish id v s) db h = Same-IsValid db _ (Same-finish id v s db) h
apply-IsValid (decide id d) db h = Same-IsValid db _ (Same-decide id d db) h
apply-IsValid (release id d) db h =
    Same-IsValid db _ (Same-update_row id _ db (λ r. ground arith) (λ r. ground arith)) h
apply-IsValid (enforced id a) db h =
    Same-IsValid db _ (Same-set id _ _ db (λ r. refl) (λ r. refl) (λ x. refl)) h

empty-IsValid : IsValid empty
empty-IsValid = record { below = tt; distinct_ids = tt; distinct_keys = tt; audited = refl }

run-IsValid : (os : List Operation) (db : Db) → IsValid db → IsValid (run os db)
unfolding run
run-IsValid [] db h = h
run-IsValid (o ∷ os) db h = run-IsValid os (apply o db) (apply-IsValid o db h)

-- After any operations on an empty database, in any order and with any arguments: no two incidents
-- have the same id or the same chat and message, each id is below the counter, and the audit rows
-- belong one by one to the incidents.
pub run-empty-IsValid : (os : List Operation) → IsValid (run os empty)
run-empty-IsValid os = run-IsValid os empty empty-IsValid
