-- ===== src/Admin/Effects.antt =====
-- internal/admin/callbacks.go: who may press, and what a press does in Telegram, in the corpus and in the
-- evidence.
pub mod Guarded
use telegram_antispam.Common.{
  ℕ, zero, suc, ◌==◌, ℤ, pos, negsuc, same, le_id, String, str_eq, Bool, true, false, ◌&&◌, ◌||◌,
  not, if◌then◌else◌, List, [], ◌∷◌, ◌++◌, Option, none, some, any, keep, is_empty, length, map,
}
use telegram_antispam.Domain.{Action, ban, mute, delete_mute, IncidentState, sanction_unknown}
use telegram_antispam.Store.MessageIds.{Text, atoi}
use telegram_antispam.Store.Tables.{Db, Evidence, IncidentCard}
use telegram_antispam.Store.Incidents.{
  IncidentRow, get_incident, is_incident_card, get_incident_tokens, delete_incident_tokens,
  delete_evidence_set, sanctioned, is_unknown,
}
use telegram_antispam.Store.Decisions.{record_decision, release_decision}
use telegram_antispam.Incident.World.{Failure, Result, ok, err, Effect}
use telegram_antispam.Admin.World.{
  Reply, invalid_callback, invalid_incident, incident_not_found, store_unavailable, rights_unknown,
  not_authorized, press_again, stale_card, unknown_action, enforcement_unavailable,
  already_enforced, no_evidence, already_decided, deleted_evidence, joined, Button, false_positive,
  lift_no_learn, confirm_spam, delete_evidence, enforce, Sample, Event, unban_member,
  unrestrict_member, unban_sender_chat, edit_admin_markup, delete_messages, answer_callback, Env,
  World, Block, ◌>>=◌, ◌>>◌, pure, exit, enter, transact, insert_sample, call, get_administrators,
  train_corpus, enforce_incident,
}
use telegram_antispam.Admin.Parse.{button_text}

insert_evidence : Evidence → List Evidence → List Evidence
insert_evidence a [] = a ∷ []
insert_evidence a (b ∷ bs) =
    let rest = insert_evidence a bs in
    if le_id a.admin_message_id b.admin_message_id then a ∷ b ∷ bs else b ∷ rest

order_evidence : List Evidence → List Evidence
unfolding insert_evidence
order_evidence [] = []
order_evidence (a ∷ as') = insert_evidence a (order_evidence as')

last_chat : ℤ → List Evidence → ℤ
last_chat chat [] = chat
last_chat chat (e ∷ es) = last_chat e.admin_chat_id es

-- ListEvidence, with a card
unfoldable pub list_evidence : ℕ → IncidentCard → Db → ℤ × List ℤ
unfolding order_evidence last_chat
list_evidence id card db =
    let rows =
      if is_incident_card id card db
      then order_evidence (keep (λ e. e.incident_id == id) db.evidence)
      else [] in
    (last_chat (pos 0) rows, map (λ e. e.admin_message_id) rows)

-- decisionScope
abbrev pub decision_scope : String
decision_scope = "incident"

abbrev pub sample : Button → String → ℕ → Sample
sample act origin id = record {
  scope = decision_scope;
  label = button_text act;
  origin = origin;
  key = id;
}

abbrev is_ban : Action → Bool
is_ban ban = true
is_ban _ = false

module _ (env : Env) where
  -- Handler.Authorized; `none` is an error.
  authorized_by : {R : Type 0} → ℤ → Result (List ℤ) → Block R (Option Bool)
  authorized_by presser (err e) = pure none
  authorized_by presser (ok admins) = pure (some (any (λ a. same a presser) admins))

  pub is_authorized : {R : Type 0} → ℤ → ℤ → Block R (Option Bool)
  unfolding authorized_by
  is_authorized chat presser =
      if any (λ a. same a presser) env.operators
      then pure (some true)
      else (do admins ← get_administrators env chat; authorized_by presser admins)

  -- A call that must succeed, and the rest of the function.
  must : {R A : Type 0} → Result (Unit {0}) → Block R (Option A) → Block R (Option A)
  must (ok _) rest = rest
  must (err e) rest = pure none

  -- Handler.undoUnknown
  undo_unknown : {R : Type 0} → IncidentRow → Block R (Option String)
  unfolding must
  undo_unknown inc = do
    freed ← call env (unban_member inc.chat_id inc.user_id)
    must freed (do
      unmuted ← call env (unrestrict_member inc.chat_id inc.user_id)
      must unmuted (pure (some (if is_ban inc.action then "unbanned" else "unmuted"))))

  unmute : {R : Type 0} → IncidentRow → Block R (Option String)
  unfolding must
  unmute inc = do
    unmuted ← call env (unrestrict_member inc.chat_id inc.user_id)
    must unmuted (pure (some "unmuted"))

  undo_action : {R : Type 0} → IncidentRow → Action → Block R (Option String)
  unfolding must unmute
  undo_action inc ban = do
    freed ← call env (unban_member inc.chat_id inc.user_id)
    must freed (pure (some "unbanned"))
  undo_action inc mute = unmute inc
  undo_action inc delete_mute = unmute inc
  undo_action inc _ = pure (some "")

  undo_channel : {R : Type 0} → IncidentRow → Block R (Option String)
  unfolding must
  undo_channel inc = do
    freed ← call env (unban_sender_chat inc.chat_id inc.sender_chat_id)
    must freed (pure (some "channel unbanned"))

  -- Handler.undo
  pub undo : {R : Type 0} → IncidentRow → Block R (Option String)
  unfolding undo_channel undo_unknown undo_action
  undo inc =
      if not (sanctioned inc)
      then pure (some "")
      else if not (same inc.sender_chat_id (pos 0))
      then undo_channel inc
      else if same inc.user_id (pos 0)
      then pure (some "")
      else if is_unknown inc.state
      then undo_unknown inc
      else undo_action inc inc.action

  -- trainIncident: the phrase for the reply.
  train_tokens :
      {R : Type 0} → IncidentRow → String → String → Option (Option (List String)) → Block R String
  train_tokens inc label phrase none = pure "not trained"
  train_tokens inc label phrase (some none) = pure "not trained"
  train_tokens inc label phrase (some (some tokens)) = do
    learned ← train_corpus env inc.chat_id label tokens
    if learned
        then (do transact env (λ db. (delete_incident_tokens inc.id db, tt)); pure phrase)
        else pure "not trained"

  -- Handler.train, with the phrase of a success.
  pub train : {R : Type 0} → IncidentRow → String → String → Block R String
  unfolding train_tokens
  train inc label phrase = if not env.has_trainer then pure "" else (do
    tokens ← transact env (λ db. (db, get_incident_tokens inc.id db))
    train_tokens inc label phrase tokens)

  -- RecordConfirmation: the phrase, `none` where the sample was not written.
  pub record_confirmation : {R : Type 0} → IncidentRow → String → Block R (Option String)
  unfolding train
  record_confirmation inc origin = do
    saved ← insert_sample env (sample confirm_spam origin inc.id)
    if not saved then pure none else (do p ← train inc "spam" "trained spam"; pure (some p))

  dropped : {R : Type 0} → ℕ → ℤ → List ℤ → Result (Unit {0}) → Block R (Option ℕ)
  dropped id chat ids (err e) = pure none
  dropped id chat ids (ok _) = do
    saved ← transact env (λ db. (delete_evidence_set id chat ids db, tt))
    pure (elim saved [ none ↦ none | some u ↦ some (length ids) ])

  delete_copies : {R : Type 0} → ℕ → Option (ℤ × List ℤ) → Block R (Option ℕ)
  unfolding dropped
  delete_copies id none = pure none
  delete_copies id (some (chat, ids)) =
      if is_empty ids
      then pure (some 0)
      else (do r ← call env (delete_messages chat ids); dropped id chat ids r)

  -- Handler.deleteEvidence: how many copies were deleted, `none` for an error.
  pub delete_evidence_of : {R : Type 0} → ℕ → IncidentCard → Block R (Option ℕ)
  unfolding delete_copies
  delete_evidence_of id card = do
    listed ← transact env (λ db. (db, list_evidence id card db))
    delete_copies id listed
