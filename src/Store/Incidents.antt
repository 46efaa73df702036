-- ===== src/Store/Incidents.antt =====
-- internal/store/incidents.go, undo.go and cards.go: the operations on an incident. Each one is a
-- transaction, so it is a function on the whole database; a statement that fails is the caller's
-- environment (Incident/World.antt) and leaves the database as it was.
use telegram_antispam.Common.{
  ℕ, suc, ℤ, String, Bool, true, false, ◌&&◌, not, ◌==◌, same, if◌then◌else◌, List, [], ◌∷◌, ◌++◌,
  map, Option, none, some, any, pos, keep, le_id,
}
use telegram_antispam.Domain.{
  IncidentState, pending, acted, cleaned, done, not_acted, sanction_unknown, Action, other,
  delete_mute, mute, ban, Verdict,
}
use telegram_antispam.Store.MessageIds.{join_ids, parse_message_ids}
use telegram_antispam.Store.Tables.{
  Row, has_id, Audit, Evidence, IncidentCard, CardRow, TokenRow, Db, update_where, find_where,
  delete_where,
}

abbrev pub audit_of : ℕ → Audit → Bool
audit_of id a = a.incident_id == id

abbrev pub has_key : ℤ → ℤ → Row → Bool
has_key chat_id message_id r = same r.chat_id chat_id && same r.message_id message_id

abbrev evidence_of : ℕ → Evidence → Bool
evidence_of id e = e.incident_id == id

abbrev pub update_row : ℕ → (Row → Row) → Db → Db
update_row id f db = record db { incidents = update_where (has_id id) f db.incidents }

abbrev pub update_audit : ℕ → (Audit → Audit) → Db → Db
update_audit id f db = record db { audit = update_where (audit_of id) f db.audit }

pub insert_row : ℤ → ℤ → ℤ → ℤ → Bool → Db → Row
insert_row chat_id message_id user_id sender_chat_id dry_run db = record {
  id = db.next_id;
  chat_id = chat_id;
  message_id = message_id;
  user_id = user_id;
  sender_chat_id = sender_chat_id;
  state = pending;
  dry_run = dry_run;
  decision = "";
  message_ids = [];
}

pub insert_audit : Verdict → Db → Audit
insert_audit v db = record {
  incident_id = db.next_id;
  action = v.action;
  scope = v.scope;
  reason = v.reason;
  signals = v.signals;
}

-- What InsertPending does by the row that has the key already, if any.
pub insert_unless : Option Row → Row → Verdict → Db → Db × (ℕ × Bool)
unfolding insert_audit
insert_unless (some r) new v db = (db, (r.id, false))
insert_unless none new v db = (
  record db {
    incidents = db.incidents ++ new ∷ [];
    audit = db.audit ++ insert_audit v db ∷ [];
    next_id = suc db.next_id;
  },
  (db.next_id, true),
)

-- InsertPending: the row and its audit row, or the id of the row that has the key.
unfoldable pub insert_pending : ℤ → ℤ → ℤ → ℤ → Bool → Verdict → Db → Db × (ℕ × Bool)
unfolding insert_row insert_unless
insert_pending chat_id message_id user_id sender_chat_id dry_run v db =
    insert_unless (find_where (has_key chat_id message_id) db.incidents)
      (insert_row chat_id message_id user_id sender_chat_id dry_run db) v db

-- SetIncidentState
unfoldable pub set_incident_state : ℕ → IncidentState → Db → Db
set_incident_state id st db = update_row id (λ r. record r { state = st }) db

-- MarkSanctionUnknown
unfoldable pub mark_sanction_unknown : ℕ → Action → Db → Db
mark_sanction_unknown id attempted db =
    update_audit id (λ a. record a { action = attempted })
      (update_row id (λ r. record r { state = sanction_unknown }) db)

abbrev pub is_unknown : IncidentState → Bool
is_unknown sanction_unknown = true
is_unknown _ = false

-- MarkSanctionRefused
unfoldable pub mark_sanction_refused : ℕ → Db → Db
mark_sanction_refused id db =
    update_row id (λ r. if is_unknown r.state then r else record r { state = not_acted }) db

-- AddEvidence
unfoldable pub add_evidence : ℕ → ℤ → List ℤ → Db → Db
add_evidence id admin_chat_id ids db = record db {
  evidence =
      db.evidence
      ++ map
          (λ mid. record {
            incident_id = id;
            admin_chat_id = admin_chat_id;
            admin_message_id = mid;
          })
          ids;
}

-- SaveIncidentMessageIDs
unfoldable pub save_incident_message_ids : ℕ → List ℤ → Db → Db
save_incident_message_ids id ids db =
    update_row id (λ r. record r { message_ids = join_ids ids }) db

abbrev tokens_of : ℕ → TokenRow → Bool
tokens_of id t = t.incident_id == id

-- SaveIncidentTokens: INSERT OR REPLACE, and nothing at all for an empty list.
unfoldable pub save_incident_tokens : ℕ → List String → Db → Db
save_incident_tokens id [] db = db
save_incident_tokens id (t ∷ ts) db = record db {
  tokens =
      delete_where (tokens_of id) db.tokens ++ record { incident_id = id; tokens = t ∷ ts } ∷ [];
}

abbrev card_of : ℕ → CardRow → Bool
card_of id c = c.incident_id == id

-- SaveIncidentCard: INSERT … ON CONFLICT DO UPDATE.
unfoldable pub save_incident_card : ℕ → IncidentCard → Db → Db
save_incident_card id card db = record db {
  cards =
      if any (card_of id) db.cards
      then update_where (card_of id) (λ c. record c { card = card }) db.cards
      else db.cards ++ record { incident_id = id; card = card } ∷ [];
}

same_card : IncidentCard → IncidentCard → Bool
same_card a b = same a.chat_id b.chat_id && same a.message_id b.message_id

-- IsIncidentCard: no other card is registered for the incident.
unfoldable pub is_incident_card : ℕ → IncidentCard → Db → Bool
unfolding same_card
is_incident_card id card db = not (any (λ c. card_of id c && not (same_card c.card card)) db.cards)

is_copy : ℕ → ℤ → ℤ → Evidence → Bool
is_copy id chat mid e =
    e.incident_id == id && same e.admin_chat_id chat && same e.admin_message_id mid

-- DeleteEvidenceSet
unfoldable pub delete_evidence_set : ℕ → ℤ → List ℤ → Db → Db
unfolding is_copy
delete_evidence_set id chat [] db = db
delete_evidence_set id chat (mid ∷ ids) db =
    delete_evidence_set id chat ids
      (record db { evidence = delete_where (is_copy id chat mid) db.evidence })

-- DeleteEvidenceRows
unfoldable pub delete_evidence_rows : ℕ → Db → Db
delete_evidence_rows id db = record db { evidence = delete_where (evidence_of id) db.evidence }

-- DeleteIncidentTokens
unfoldable pub delete_incident_tokens : ℕ → Db → Db
delete_incident_tokens id db = record db { tokens = delete_where (tokens_of id) db.tokens }

insert_sorted : ℤ → List ℤ → List ℤ
insert_sorted a [] = a ∷ []
insert_sorted a (b ∷ bs) = if le_id a b then a ∷ b ∷ bs else b ∷ insert_sorted a bs

-- ORDER BY admin_message_id
order_by : List ℤ → List ℤ
unfolding insert_sorted
order_by [] = []
order_by (a ∷ as') = insert_sorted a (order_by as')

-- SELECT admin_message_id FROM evidence WHERE incident_id=? ORDER BY admin_message_id
unfoldable pub evidence_ids : ℕ → Db → List ℤ
unfolding order_by
evidence_ids id db = order_by (map (λ e. e.admin_message_id) (keep (evidence_of id) db.evidence))

-- GetIncidentTokens: `none` where nothing is stored.
unfoldable pub get_incident_tokens : ℕ → Db → Option (List String)
get_incident_tokens id db = elim (find_where (tokens_of id) db.tokens) [
  | none ↦ none
  | some t ↦ some t.tokens
]

-- GetIncidentState; `none` is sql.ErrNoRows.
unfoldable pub get_incident_state : ℕ → Db → Option IncidentState
get_incident_state id db = elim (find_where (has_id id) db.incidents) [
  | none ↦ none
  | some r ↦ some r.state
]

-- GetIncidentChat
unfoldable pub get_incident_chat : ℕ → Db → Option ℤ
get_incident_chat id db = elim (find_where (has_id id) db.incidents) [
  | none ↦ none
  | some r ↦ some r.chat_id
]

-- type IncidentRow; an absent audit row leaves the action empty.
pub record IncidentRow : Type 0 where
  pub id : ℕ
  pub chat_id : ℤ
  pub user_id : ℤ
  pub sender_chat_id : ℤ
  pub message_ids : List ℤ
  pub dry_run : Bool
  pub state : IncidentState
  pub action : Action

action_of : Option Audit → Action
action_of none = other ""
action_of (some a) = a.action

join_row : Option Row → Option Audit → Option IncidentRow
unfolding action_of
join_row none a = none
join_row (some r) a = some (record {
  id = r.id;
  chat_id = r.chat_id;
  user_id = r.user_id;
  sender_chat_id = r.sender_chat_id;
  message_ids = parse_message_ids r.message_ids r.message_id;
  dry_run = r.dry_run;
  state = r.state;
  action = action_of a;
})

-- GetIncident: the row joined with its audit row; `none` is sql.ErrNoRows.
unfoldable pub get_incident : ℕ → Db → Option IncidentRow
unfolding join_row
get_incident id db =
    join_row (find_where (has_id id) db.incidents) (find_where (audit_of id) db.audit)

abbrev pub is_punitive : Action → Bool
is_punitive ban = true
is_punitive mute = true
is_punitive delete_mute = true
is_punitive _ = false

abbrev pub is_finished : IncidentState → Bool
is_finished acted = true
is_finished cleaned = true
is_finished done = true
is_finished _ = false

-- IncidentRow.Sanctioned
unfoldable pub sanctioned : IncidentRow → Bool
sanctioned r =
    if is_unknown r.state
    then is_punitive r.action
    else if r.dry_run
    then false
    else if not (same r.sender_chat_id (pos 0)) && same r.user_id (pos 0)
    then (if is_finished r.state then is_punitive r.action else false)
    else if is_finished r.state
    then is_punitive r.action
    else false
