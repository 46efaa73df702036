-- ===== src/Incident/Machine/Enforce.antt =====
-- What Enforce does, on every branch: the calls that it makes and the state that it records.
use telegram_antispam.Common.{
  ℕ, pos, false, not, ◌&&◌, ==_refl, same, if◌then◌else◌, ◌∷◌, Option, none, some, ◌≡◌, refl, ap,
  ◌∙◌, arith, Bool-cases, inl, inr, is_some,
}
use mathlib.Core.Option
use telegram_antispam.Domain.{
  Action, ban, IncidentState, acted, cleaned, not_acted, sanction_unknown, Incident,
}
use telegram_antispam.Store.Tables.{Row, Db}
use telegram_antispam.Store.Tables.Laws.{row-update_where}
use telegram_antispam.Store.Decisions.Claims.{row_of}
use telegram_antispam.Store.Incidents.{
  set_incident_state, mark_sanction_unknown, mark_sanction_refused, is_unknown, is_punitive,
  update_row,
}
use telegram_antispam.Incident.World.{Failure, Result, ok, err, is_ok, Call, Env, World, execute}
use telegram_antispam.Incident.Machine.{
  ApplyError, call_failed, unknown_action, Error, apply_failed, originals_not_deleted,
  enforce_error, is_channel, apply_to_member, apply_action, set_state, record_attempt, mark_cleaned,
  close_attempt, enforce,
}
use telegram_antispam.Incident.Machine.Port.{
  ban_member, restrict_member, ban_sender_chat, delete_messages,
}

-- The state that an attempt leaves, by its error and the state before it.
abbrev pub state_after : Option Error → IncidentState → IncidentState
state_after none st = cleaned
state_after (some (originals_not_deleted e)) st = acted
state_after (some (apply_failed (call_failed Failure.refused) deleted)) st =
    if is_unknown st then st else not_acted
state_after (some _) st = sanction_unknown

-- The state of an incident.
abbrev pub state_of : ℕ → Db → Option IncidentState
state_of id db = Option.map (λ (r : Row). r.state) (row_of id db)

-- After the sanction, before the deletion.
abbrev attempted : Option ApplyError → IncidentState → IncidentState
attempted none st = acted
attempted (some (call_failed Failure.refused)) st = if is_unknown st then st else not_acted
attempted (some _) st = sanction_unknown

state-update_row :
    (id : ℕ) (f : Row → Row) (db : Db) {r : Row}
    → ((x : Row) → (f x).id ≡ x.id)
    → row_of id db ≡ some r
    → state_of id (update_row id f db) ≡ some (f r).state
state-update_row id f db h e = rw (row-update_where id id f db.incidents h, ==_refl id, e)

module _ (env : Env) (sound : (n : ℕ) → env.statement_fails n ≡ false) where
  state-record_attempt :
      (id : ℕ) (inc : Incident) (e : Option ApplyError) (w : World) {r : Row}
      → row_of id w.db ≡ some r
      → state_of id (record_attempt env id inc e w).1.db ≡ some (attempted e r.state)
  unfolding record_attempt set_state execute set_incident_state mark_sanction_unknown
      mark_sanction_refused
  state-record_attempt id inc none w h =
      rw (sound w.statements) (state-update_row id _ w.db (λ x. refl) h)
  state-record_attempt id inc (some (call_failed Failure.refused)) w {r} h =
      rw (sound w.statements) (state-update_row id _ w.db (λ x. ground arith) h ∙ ground arith)
  state-record_attempt id inc (some (call_failed Failure.lost)) w h =
      rw (sound w.statements) (state-update_row id _ w.db (λ x. refl) h)
  state-record_attempt id inc (some unknown_action) w h =
      rw (sound w.statements) (state-update_row id _ w.db (λ x. refl) h)

  state_of_set :
      (id : ℕ) (st : IncidentState) (w : World) {s : IncidentState}
      → state_of id w.db ≡ some s
      → state_of id (set_state env id st w).1.db ≡ some st
  unfolding set_state execute set_incident_state
  state_of_set id st w h = rw (sound w.statements) (
      rw
        (
          row-update_where id id (λ r. record r { state = st }) w.db.incidents (λ x. refl),
          ==_refl id,
        )
        (ground (arith, h)))

  state-close_attempt :
      (id : ℕ) (e : Option ApplyError) (del : Result (Unit {0})) (w : World) (st : IncidentState)
      → state_of id w.db ≡ some (attempted e st)
      → state_of id (close_attempt env id e del w).1.db
        ≡ some (state_after (enforce_error e del) st)
  unfolding close_attempt mark_cleaned
  state-close_attempt id none (ok u) w st h = state_of_set id cleaned w h
  state-close_attempt id none (err f) w st h = h
  state-close_attempt id (some (call_failed Failure.refused)) del w st h = h
  state-close_attempt id (some (call_failed Failure.lost)) del w st h = h
  state-close_attempt id (some unknown_action) del w st h = h

  -- The sanction itself writes nothing to the database.
  db-apply_to_member :
      (inc : Incident) (a : Action) (w : World) → (apply_to_member env inc a w).1.db ≡ w.db
  unfolding apply_to_member ban_member restrict_member
  db-apply_to_member inc ban w = refl
  db-apply_to_member inc _ w = refl

  db-apply_action : (inc : Incident) (w : World) → (apply_action env inc w).1.db ≡ w.db
  unfolding apply_action ban_sender_chat
  db-apply_action inc w =
      elim (Bool-cases (
        is_channel inc.sender.kind
        && not (same inc.sender.sender_chat_id (pos 0))
        && is_punitive inc.verdict.action)) [
          | inl e ↦ rw e
          | inr e ↦ rw e (db-apply_to_member inc inc.verdict.action w)
        ]

  -- Enforce, where no statement fails and the incident is on record: the state that it leaves is
  -- cleaned if the sanction and the deletion went through, acted if only the sanction did,
  -- not_acted if Telegram refused the sanction and the state was not sanction_unknown already, and
  -- sanction_unknown if the sanction failed in any other way.
  pub state-enforce :
      (id : ℕ) (inc : Incident) (w : World) {r : Row}
      → row_of id w.db ≡ some r
      → state_of id (enforce env id inc w).1.db
        ≡ some (state_after (enforce env id inc w).0.error r.state)
  unfolding enforce close_attempt delete_messages
  state-enforce id inc w {r} h =
      let (e, w') = apply_action env inc w in
      state-close_attempt id e _ _ r.state
        (state-record_attempt id inc e w' {r = r} (rw (db-apply_action inc w) h))

module _ (env : Env) where
  calls-execute : (f : Db → Db) (w : World) → (execute env f w).1.calls ≡ w.calls
  unfolding execute
  calls-execute f w = ground arith

  calls-record_attempt :
      (id : ℕ) (inc : Incident) (e : Option ApplyError) (w : World)
      → (record_attempt env id inc e w).1.calls ≡ w.calls
  unfolding record_attempt set_state
  calls-record_attempt id inc none w = calls-execute _ w
  calls-record_attempt id inc (some (call_failed Failure.refused)) w = calls-execute _ w
  calls-record_attempt id inc (some (call_failed Failure.lost)) w = calls-execute _ w
  calls-record_attempt id inc (some unknown_action) w = calls-execute _ w

  calls-close_attempt :
      (id : ℕ) (e : Option ApplyError) (del : Result (Unit {0})) (w : World)
      → (close_attempt env id e del w).1.calls ≡ w.calls
  unfolding close_attempt mark_cleaned set_state
  calls-close_attempt id none (ok u) w = calls-execute _ w
  calls-close_attempt id none (err f) w = refl
  calls-close_attempt id (some a) del w = refl

  -- Enforce asks for the deletion of the incident's messages on every branch, also where the
  -- sanction failed, and after the sanction: the deletion is its last call, the calls before it are
  -- those of the sanction alone, and the outcome reports the two answers apart.
  pub enforce-deletes :
      (id : ℕ) (inc : Incident) (w : World)
      → (r : Result (Unit {0})) × ((enforce env id inc w).1.calls
          ≡ Call.delete_messages inc.chat_id inc.message_ids r ∷ (apply_action env inc w).1.calls)
        × ((enforce env id inc w).0.deleted ≡ is_ok r)
        × ((enforce env id inc w).0.sanctioned ≡ not (is_some (apply_action env inc w).0))
  unfolding enforce close_attempt delete_messages
  enforce-deletes id inc w =
      let (e, w') = apply_action env inc w in
      let w'' = (record_attempt env id inc e w').1 in
      let r = env.delete_messages w''.calls inc.chat_id inc.message_ids in
      (
        r,
        calls-close_attempt id e r _
            ∙ ap (λ cs. Call.delete_messages inc.chat_id inc.message_ids r ∷ cs)
                (calls-record_attempt id inc e w'),
        refl,
        refl,
      )
