-- ===== src/Admin/Callbacks.antt =====
-- internal/admin/callbacks.go: a press of a button on an evidence card. The text of a reply is kept as
-- the arguments of joinReply; a log line is not kept. An error that enforcement reports beside what it
-- did is logged by the program only, so it is left out of the enforcer's answer.
pub mod Claimed
pub mod Guarded
pub mod Kept
use telegram_antispam.Common.{
  ℕ, zero, suc, ◌==◌, ℤ, pos, negsuc, same, le_id, String, str_eq, Bool, true, false, ◌&&◌, ◌||◌,
  not, if◌then◌else◌, List, [], ◌∷◌, ◌++◌, Option, none, some, any, keep, is_empty, length, map,
}
use telegram_antispam.Domain.{Action, ban, mute, delete_mute, IncidentState, sanction_unknown}
use telegram_antispam.Store.MessageIds.{Text, atoi}
use telegram_antispam.Store.Tables.{Db, Evidence, IncidentCard}
use telegram_antispam.Store.Incidents.{
  IncidentRow, get_incident, is_incident_card, get_incident_tokens, delete_incident_tokens,
  delete_evidence_set, sanctioned, is_unknown,
}
use telegram_antispam.Store.Decisions.{record_decision, release_decision}
use telegram_antispam.Incident.World.{Failure, Result, ok, err, Effect}
use telegram_antispam.Admin.World.{
  record_claim, Reply, invalid_callback, invalid_incident, incident_not_found, store_unavailable,
  rights_unknown, not_authorized, press_again, stale_card, unknown_action, enforcement_unavailable,
  already_enforced, no_evidence, already_decided, deleted_evidence, joined, Button, false_positive,
  lift_no_learn, confirm_spam, delete_evidence, enforce, Sample, Event, unban_member,
  unrestrict_member, unban_sender_chat, edit_admin_markup, delete_messages, answer_callback, Env,
  World, Block, ◌>>=◌, ◌>>◌, pure, exit, enter, transact, insert_sample, call, get_administrators,
  train_corpus, enforce_incident,
}
use telegram_antispam.Admin.Parse.{button_text, parse_callback, enforce_reply, decision_label}
use telegram_antispam.Admin.Effects.{
  sample, is_authorized, undo, train, record_confirmation, delete_evidence_of,
}

-- type Callback
pub record Callback : Type 0 where
  pub id : String
  pub data_ : Text
  pub presser_id : ℤ
  pub admin_chat_id : ℤ
  pub message_id : ℤ

-- The errors that Handle returns, each with what it wraps.
pub data HandleError : Type 0 where
  lookup_failed authorize_failed dispatch_failed : HandleError

abbrev pub is_delete : Button → Bool
is_delete delete_evidence = true
is_delete _ = false

abbrev pub card_of : Callback → IncidentCard
card_of cb = record { chat_id = cb.admin_chat_id; message_id = cb.message_id }

module _ (env : Env) where
  -- Handler.releaseClaim
  pub release_claim : {R : Type 0} → ℕ → Button → Block R (Unit {0})
  release_claim id act = do
    transact env (λ db. (release_decision id (button_text act) db, tt))
    pure tt

  -- Handler.staleCard
  pub mark_stale : {R : Type 0} → Callback → Block R Reply
  mark_stale cb = do call env (edit_admin_markup cb.admin_chat_id cb.message_id); pure stale_card

  -- What a statement of a press must yield for the press to go on.
  pub or_fail : {A : Type 0} → Option A → Block (Option Reply) A
  or_fail none = exit none
  or_fail (some a) = pure a

  -- Not claimed: the card is stale, or the incident is decided already.
  pub refuse : Callback → ℕ → String → Block (Option Reply) IncidentRow
  unfolding mark_stale or_fail
  refuse cb id existing =
      if str_eq existing "enf" then exit (some (already_decided (decision_label existing))) else (do
        answer ← transact env (λ db. (db, is_incident_card id (card_of cb) db))
        current ← or_fail answer
        if current
            then exit (some (already_decided (decision_label existing)))
            else (do r ← mark_stale cb; exit (some r)))

  pub or_release : ℕ → Button → Option (Option IncidentRow) → Block (Option Reply) IncidentRow
  unfolding release_claim
  or_release id act (some (some fresh)) = pure fresh
  or_release id act _ = do release_claim id act; exit none

  -- The claim of the one decision on the incident, and the incident as it is then.
  pub claim : Button → Callback → ℕ → Block (Option Reply) IncidentRow
  unfolding or_fail refuse or_release
  claim act cb id = do
    answer ← record_claim env id (button_text act)
    found ← or_fail answer
    r ← or_fail found
    if r.0
        then (do fresh ← transact env (λ db. (db, get_incident id db)); or_release id act fresh)
        else refuse cb id r.1

  pub release_unless_delete : Button → ℕ → Block (Option Reply) (Unit {0})
  unfolding release_claim
  release_unless_delete act id = if is_delete act then pure tt else release_claim id act

  -- The card must be the incident's current one.
  pub check_card : Button → Callback → ℕ → Option Bool → Block (Option Reply) (Unit {0})
  unfolding release_unless_delete mark_stale
  check_card act cb id none = do release_unless_delete act id; exit none
  check_card act cb id (some true) = pure tt
  check_card act cb id (some false) =
      if is_delete act
      then exit (some stale_card)
      else (do release_claim id act; r ← mark_stale cb; exit (some r))

  pub or_hand_back : {A : Type 0} → ℕ → Button → Option A → Block (Option Reply) A
  unfolding release_claim
  or_hand_back id act none = do release_claim id act; exit none
  or_hand_back id act (some a) = pure a

  pub release_if_marked : ℕ → Option (Option IncidentRow) → Block (Option Reply) (Unit {0})
  unfolding release_claim
  release_if_marked id (some (some row)) = if row.dry_run then pure tt else release_claim id enforce
  release_if_marked id _ = pure tt

  -- What follows an enforcement, by what landed.
  pub enforced_part : IncidentRow → Effect → Block (Option Reply) (Option Reply)
  unfolding release_claim release_if_marked
  enforced_part inc e =
      if not e.sanctioned && not e.deleted
      then (do release_claim inc.id enforce; pure none)
      else if not e.sanctioned
      then (do release_claim inc.id enforce; pure (some (joined (enforce_reply e) "" "")))
      else (do
        row ← transact env (λ db. (db, get_incident inc.id db))
        release_if_marked inc.id row
        saved ← insert_sample env (sample enforce "user" inc.id)
        if not saved then pure none else (do
          p ← train env inc "spam" "trained spam"
          pure (some (joined (enforce_reply e) "" p))))

  -- The switch of dispatch.
  pub act_on : Button → IncidentRow → Callback → Block (Option Reply) (Option Reply)
  unfolding or_hand_back enforced_part or_fail
  act_on false_positive inc cb = do
    undone ← undo env inc
    lifted ← or_hand_back inc.id false_positive undone
    saved ← insert_sample env (sample false_positive "user" inc.id)
    if not saved then pure none else (do
      p ← train env inc "ham" "trained ham"
      pure (some (joined "marked false positive" lifted p)))
  act_on confirm_spam inc cb = do
    recorded ← record_confirmation env inc "user"
    p ← or_hand_back inc.id confirm_spam recorded
    pure (some (joined "confirmed spam" "" p))
  act_on lift_no_learn inc cb = do
    undone ← undo env inc
    lifted ← or_hand_back inc.id lift_no_learn undone
    transact env (λ db. (delete_incident_tokens inc.id db, tt))
    pure (some (joined "lifted (not learned)" lifted ""))
  act_on enforce inc cb =
      if not env.has_enforcer
      then (do release_claim inc.id enforce; pure (some enforcement_unavailable))
      else if not inc.dry_run
      then (do release_claim inc.id enforce; pure (some already_enforced))
      else (do e ← enforce_incident env inc; enforced_part inc e)
  act_on delete_evidence inc cb = do
    answer ← delete_evidence_of env inc.id (card_of cb)
    n ← or_fail answer
    pure (some (if n == 0 then no_evidence else deleted_evidence n))

  -- Handler.dispatch: `none` is an error.
  pub dispatch : Button → IncidentRow → Callback → Block (Option Reply) (Option Reply)
  unfolding claim check_card act_on
  dispatch act inc cb = do
    inc' ← if is_delete act then pure inc else claim act cb inc.id
    current ← transact env (λ db. (db, is_incident_card inc'.id (card_of cb) db))
    check_card act cb inc'.id current
    act_on act inc' cb

  -- The reply is sent, and the error returned.
  pub answer :
      Callback → Reply → Option HandleError → Block (Option HandleError) (Option HandleError)
  answer cb reply e = do call env (answer_callback cb.id reply); pure e

  abbrev pub or_answer :
      {A : Type 0} → Callback → Reply → Option HandleError → Option A → Block (Option HandleError) A
  or_answer cb reply e none = do r ← answer cb reply e; exit r
  or_answer cb reply e (some a) = pure a

  unfoldable pub incident_of : ℤ → Db → Option IncidentRow
  incident_of (pos n) db = get_incident n db
  incident_of (negsuc n) db = none

  pub reply_to : Callback → Option Reply → Block (Option HandleError) (Option HandleError)
  unfolding answer
  reply_to cb none = answer cb press_again (some dispatch_failed)
  reply_to cb (some r) = answer cb r none

  -- The press of an authorized presser, or the refusal of any other.
  pub by_rights :
      Callback → Button → IncidentRow → Bool → Block (Option HandleError) (Option HandleError)
  unfolding answer reply_to dispatch
  by_rights cb act inc allowed =
      if not allowed
      then answer cb not_authorized none
      else (do reply ← enter (dispatch act inc cb); reply_to cb reply)

  -- Handler.Handle, with a database
  pub handle : Callback → Block (Option HandleError) (Option HandleError)
  unfolding answer incident_of by_rights
  handle cb = do
    parsed ← or_answer cb invalid_callback none (parse_callback cb.data_)
    id ← or_answer cb invalid_incident none (atoi parsed.1)
    looked ← transact env (λ db. (db, incident_of id db))
    found ← or_answer cb store_unavailable (some lookup_failed) looked
    inc ← or_answer cb incident_not_found (some lookup_failed) found
    checked ← is_authorized env inc.chat_id cb.presser_id
    allowed ← or_answer cb rights_unknown (some authorize_failed) checked
    by_rights cb parsed.0 inc allowed
