-- ===== src/Store/Captcha/Sanctions.antt =====
-- internal/store/captcha.go and incidents.go: SanctionSince sees the sanctions that the incident tables
-- record, before they are carried out and after.
use telegram_antispam.Common.{
  ℕ, leb, ==_iff, same_refl, str_eq, Bool, true, false, ◌||◌, not, if◌then◌else◌, List, [], ◌∷◌,
  some, any, ◌≡◌, refl, sym, subst, arith, Bool-cases, inl, inr,
}
use telegram_antispam.Domain.{IncidentState, Action}
use telegram_antispam.Store.Tables.{Row, Db, has_id, find_where}
use telegram_antispam.Store.Incidents.{mark_sanction_unknown, update_row}
use telegram_antispam.Store.Decisions.{claimable, claim_manual_override, manual_override_claim}
use telegram_antispam.Store.Decisions.Claims.{row_of, taken, claim_manual_override-row}
use telegram_antispam.Store.Decisions.Override.{row-update_self}
use telegram_antispam.Store.Tables.Laws.{find_where_holds}
use telegram_antispam.Store.Captcha.{sanction_since, is_sanction_unknown, sanction_in_flight}

-- A row that is found and passes makes the search for any such row succeed.
any_of_row :
    (id : ℕ) (p : Row → Bool) (xs : List Row) (r : Row)
    → find_where (has_id id) xs ≡ some r
    → p r ≡ true
    → any p xs ≡ true
unfolding find_where
any_of_row id p [] r e h = cc
any_of_row id p (x ∷ xs) r e h = elim (Bool-cases (has_id id x)) [
  | inl t ↦ ground (arith, e, t, h)
  | inr t ↦ ground (arith, any_of_row id p xs r, e, t, h)
]

module _ (created_at : ℕ → ℕ) (id : ℕ) where
  -- A row of the member, old enough, that is claimed or whose sanction may have landed.
  since_row :
      (db : Db) (r : Row) (since : ℕ)
      → row_of id db ≡ some r
      → r.id ≡ id
      → leb since (created_at id) ≡ true
      → (str_eq r.decision manual_override_claim || is_sanction_unknown r.state) ≡ true
      → sanction_since created_at r.chat_id r.user_id since db ≡ true
  unfolding sanction_since
  since_row db r since e k h s = any_of_row id _ db.incidents r e (
      rw
        (
          subst (λ n. leb since (created_at n) ≡ true) (sym k) h,
          same_refl r.chat_id,
          same_refl r.user_id,
        )
        (protected (str_eq r.decision manual_override_claim) (is_sanction_unknown r.state)
          (sanction_in_flight db r) s))
    where
      protected : (a b c : Bool) → (a || b) ≡ true → (a || b || c) ≡ true
      protected a b c h = ground (arith, h)

  found_id : (db : Db) (r : Row) → row_of id db ≡ some r → r.id ≡ id
  found_id db r e = (==_iff r.id id).0 (find_where_holds (has_id id) db.incidents e)

  claim_protects :
      (db : Db) (r : Row) (since : ℕ)
      → row_of id db ≡ some r
      → leb since (created_at id) ≡ true
      → (not (claim_manual_override id db).1.claimed
          || sanction_since created_at r.chat_id r.user_id since (claim_manual_override id db).0)
        ≡ true
  claim_protects db r since e h =
      let (c, d) = claim_manual_override-row id db r e in
      let row = record r { decision = manual_override_claim } in
      let db' = update_row id (taken manual_override_claim) db in
      let s =
        since_row db' row since (row-update_self id (taken manual_override_claim) db (λ x. refl) e)
          (found_id db r e) h (ground arith) in
      rw (c, d) (either (claimable db id r) db' db s)
    where
      either :
          (b : Bool) (db' db : Db)
          → sanction_since created_at r.chat_id r.user_id since db' ≡ true
          → (not b || sanction_since created_at r.chat_id r.user_id since (if b then db' else db))
            ≡ true
      either true db' db s = s
      either false db' db s = refl

  unknown_protects :
      (db : Db) (r : Row) (since : ℕ) (attempted : Action)
      → row_of id db ≡ some r
      → leb since (created_at id) ≡ true
      → sanction_since created_at r.chat_id r.user_id since (mark_sanction_unknown id attempted db)
        ≡ true
  unfolding mark_sanction_unknown
  unknown_protects db r since attempted e h =
      since_row (mark_sanction_unknown id attempted db)
        (record r { state = IncidentState.sanction_unknown }) since
        (row-update_self id (λ (x : Row). record x { state = IncidentState.sanction_unknown }) db
          (λ x. refl) e)
        (found_id db r e) h (ground arith)

  -- A manual override of one of the member's incidents that were recorded since then, once it is
  -- claimed, is seen by SanctionSince; and so is a sanction of which Telegram's answer was lost.
  pub sanction_since-protects :
      (db : Db) (r : Row) (since : ℕ) (attempted : Action)
      → row_of id db ≡ some r
      → leb since (created_at id) ≡ true
      → ((not (claim_manual_override id db).1.claimed
            || sanction_since created_at r.chat_id r.user_id since (claim_manual_override id db).0)
          ≡ true)
        × (sanction_since created_at r.chat_id r.user_id since
              (mark_sanction_unknown id attempted db)
            ≡ true)
  sanction_since-protects db r since attempted e h =
      (claim_protects db r since e h, unknown_protects db r since attempted e h)
