-- ===== src/Admin/Callbacks/Guarded.antt =====
-- internal/admin/callbacks.go: the events of a press, with who pressed, what was claimed before and the
-- answers.
use telegram_antispam.Common.{
  if◌then◌else◌, pos, refl, ==_refl, ◌==◌, ℤ, Bool, true, false, List, [], Option, none, some,
  count_if, ◌≡◌, arith,
}
use telegram_antispam.Store.Incidents.{IncidentRow}
use telegram_antispam.Admin.World.{
  Block, tick, pure, Flow, returns, goes_on, Reply, invalid_callback, invalid_incident,
  incident_not_found, store_unavailable, rights_unknown, Button, Event, Env, World, ◌>>=◌, transact,
}
use telegram_antispam.Admin.Effects.{is_authorized}
use telegram_antispam.Admin.Callbacks.{
  Callback, parse_callback, HandleError, lookup_failed, authorize_failed, or_answer, by_rights,
  incident_of, handle,
}
use telegram_antispam.Store.MessageIds.{Text, atoi}
use telegram_antispam.Admin.Guard.{
  Press, holds, guarded, is_answer, Triple, Triple-exit, Triple-bind, Post,
}
use telegram_antispam.Admin.Effects.Guarded.{granted, Triple-is_authorized}
use telegram_antispam.Admin.Callbacks.Claimed.{Triple-answer, Triple-or_answer, Triple-by_rights}

-- The press of a callback on an incident that was found, or on none.
unfoldable pub press_of : Env → Callback → Option IncidentRow → Press
press_of env cb none = record {
  user = cb.presser_id;
  operators = env.operators;
  chat = pos 0;
  id = 0;
}
press_of env cb (some inc) = record {
  user = cb.presser_id;
  operators = env.operators;
  chat = inc.chat_id;
  id = inc.id;
}

row_of_id : Env → World → Option ℤ → Option IncidentRow
row_of_id env w none = none
row_of_id env w (some id) = incident_of env id (tick env w).db

row_of_data : Env → World → Option (Button × Text) → Option IncidentRow
unfolding row_of_id
row_of_data env w none = none
row_of_data env w (some (act, key)) = row_of_id env w (atoi key)

-- The incident that the data of a press names, as its lookup finds it.
unfoldable pub incident_pressed : Env → Callback → World → Option IncidentRow
unfolding row_of_data
incident_pressed env cb w = row_of_data env w (parse_callback cb.data_)

module _ (env : Env) (cb : Callback) where
  from_incident : Button → IncidentRow → Block (Option HandleError) (Option HandleError)
  from_incident act inc = is_authorized env inc.chat_id cb.presser_id >>= λ o.
      or_answer env cb rights_unknown (some authorize_failed) o >>= by_rights env cb act inc

  abbrev from_found : Button → Option IncidentRow → Block (Option HandleError) (Option HandleError)
  from_found act found =
      or_answer env cb incident_not_found (some lookup_failed) found >>= from_incident act

  from_lookup :
      Button → Option (Option IncidentRow) → Block (Option HandleError) (Option HandleError)
  from_lookup act looked =
      or_answer env cb store_unavailable (some lookup_failed) looked >>= from_found act

  from_id : Button → Option ℤ → Block (Option HandleError) (Option HandleError)
  from_id act o = or_answer env cb invalid_incident none o >>= λ id.
      transact env (λ db. (db, incident_of env id db)) >>= from_lookup act

  from_data : Option (Button × Text) → Block (Option HandleError) (Option HandleError)
  from_data o =
      or_answer env cb invalid_callback none o >>= λ parsed. from_id parsed.0 (atoi parsed.1)

abbrev start : Press → List Event → Bool
start p = holds p 0 false false

abbrev answered : Press → List Event → Bool
answered p = holds p 1 false false

-- A press is answered from here on.
abbrev Answers : Press → Block (Option HandleError) (Option HandleError) → Type 0
Answers p m = Triple (start p) (λ _. answered p) (answered p) m

Triple-absurd :
    {R A : Type 0} {E : List Event → Bool} (Q : A → List Event → Bool) (m : Block R A)
    → Triple (λ _. false) Q E m
Triple-absurd Q m = record { run = λ w h. absurd (let k : false ≡ true = h in cc) }

Triple-into :
    {R A B : Type 0} {P E : List Event → Bool} (Q : B → List Event → Bool) (a : A)
    (k : A → Block R B)
    → Triple P Q E (k a)
    → Triple P Q E (pure a >>= k)
Triple-into Q a k h = record { run = h.run }

module _ (env : Env) (cb : Callback) where
  Answers-refusal :
      {A : Type 0} (p : Press) (reply : Reply) (e : Option HandleError)
      (k : A → Block (Option HandleError) (Option HandleError))
      → Answers p (or_answer env cb reply e none >>= k)
  Answers-refusal p reply e k =
      Triple-bind (λ _ _. false) (λ _. answered p) _ _
        (Triple-bind (λ _. answered p) (λ _ _. false) _ _ (Triple-answer env p false cb reply e)
          (λ r. Triple-exit (λ _ _. false) r (λ es h. h)))
        (λ a. Triple-absurd (λ _. answered p) (k a))

  Answers-from_incident :
      (act : Button) (inc : IncidentRow)
      → Answers (press_of env cb (some inc)) (from_incident env cb act inc)
  unfolding from_incident press_of
  Answers-from_incident act inc =
      let p = press_of env cb (some inc) in
      Triple-bind (λ o. holds p 0 (granted o) false) (λ _. answered p) _ _
        (Triple-is_authorized env p refl)
        (λ o.
          Triple-bind (λ a. holds p 0 (granted (some a)) false) (λ _. answered p) _ _
            (Triple-or_answer env p granted cb rights_unknown (some authorize_failed) o)
            (λ allowed. Triple-by_rights env p cb act inc allowed (==_refl inc.id)))

  Answers-from_lookup :
      (act : Button) (found : Option IncidentRow)
      → Answers (press_of env cb found) (from_lookup env cb act (some found))
  unfolding from_lookup
  Answers-from_lookup act none =
      let p = press_of env cb none in
      Triple-into {A = Option IncidentRow} (λ _. answered p) none (from_found env cb act)
        (Answers-refusal {A = IncidentRow} p incident_not_found (some lookup_failed)
          (from_incident env cb act))
  Answers-from_lookup act (some inc) =
      let Q = λ (r : Option HandleError). answered (press_of env cb (some inc)) in
      Triple-into {A = Option IncidentRow} Q (some inc) (from_found env cb act) (
        Triple-into {A = IncidentRow} Q inc (from_incident env cb act)
          (Answers-from_incident act inc))

  Answers-no_lookup : (p : Press) (act : Button) → Answers p (from_lookup env cb act none)
  unfolding from_lookup
  Answers-no_lookup p act = Answers-refusal p store_unavailable (some lookup_failed) _

after_lookup :
    (Q : Option HandleError → List Event → Bool) (E : List Event → Bool) (b : Bool)
    (v : Option IncidentRow) (w : World)
    (k : Option (Option IncidentRow) → Block (Option HandleError) (Option HandleError))
    → Post Q E (k none w)
    → Post Q E (k (some v) w)
    → Post Q E (
        ◌>>=◌ {R = Option HandleError}
          (λ (x : World). if b then (goes_on none, w) else (goes_on (some v), w))
          k
          w)
after_lookup Q E true v w k h h' = h
after_lookup Q E false v w k h h' = h'

module _ (env : Env) (cb : Callback) (w : World) (quiet : w.events ≡ []) where
  starts : (p : Press) → start p w.events ≡ true
  starts p = rw quiet refl

  -- What holds of a world that a press was answered in.
  Done : Option IncidentRow → Flow (Option HandleError) (Option HandleError) × World → Type 0
  Done found x = Post (λ _. answered (press_of env cb found)) (answered (press_of env cb found)) x

  Done-from_id : (act : Button) (o : Option ℤ) → Done (row_of_id env w o) (from_id env cb act o w)
  unfolding Done from_id row_of_id transact
  Done-from_id act none =
      (Answers-refusal env cb (press_of env cb none) invalid_incident none _).run w (starts _)
  Done-from_id act (some id) =
      let found = incident_of env id (tick env w).db in
      let p = press_of env cb found in
      after_lookup (λ _. answered p) (answered p) (env.fails w.ticks) found (tick env w)
        (from_lookup env cb act) ((Answers-no_lookup env cb p act).run (tick env w) (starts p))
        ((Answers-from_lookup env cb act found).run (tick env w) (starts p))

  Done-from_data : (o : Option (Button × Text)) → Done (row_of_data env w o) (from_data env cb o w)
  unfolding Done from_data row_of_data
  Done-from_data none =
      (Answers-refusal env cb (press_of env cb none) invalid_callback none _).run w (starts _)
  Done-from_data (some (act, key)) = Done-from_id act (atoi key)

left_off :
    {A R : Type 0} (E : List Event → Bool) (x : Flow R A × World)
    → Post (λ _. E) E x
    → E x.1.events ≡ true
left_off E (returns r, w) h = h
left_off E (goes_on a, w) h = h

both :
    (p : Press) (es : List Event)
    → holds p 1 false false es ≡ true
    → (guarded p es ≡ true) × ((count_if is_answer es == 1) ≡ true)
both p es h = ground (arith, h)

handle-from_data :
    (env : Env) (cb : Callback) → handle env cb ≡ from_data env cb (parse_callback cb.data_)
unfolding handle from_data from_id from_lookup from_incident
handle-from_data env cb = refl

Done-pressed :
    (env : Env) (cb : Callback) (w : World)
    → w.events ≡ []
    → let p = press_of env cb (incident_pressed env cb w) in
      Post (λ _. answered p) (answered p) (from_data env cb (parse_callback cb.data_) w)
unfolding Done incident_pressed
Done-pressed env cb w h = Done-from_data env cb w h (parse_callback cb.data_)

-- Whatever other statements change between those of a press, whatever of its statements and calls fail:
-- from a world with no event yet, a press leaves events in which no decision was recorded and nothing
-- deleted, edited, lifted, enforced or learned unless the presser is an operator or the administrators
-- fetched before, for the chat of the incident that the lookup found, name the presser; no sanction was
-- lifted or applied and nothing learned before RecordDecision gave the press the decision on that
-- incident; and exactly one answer was sent.
pub handle-guarded :
    (env : Env) (cb : Callback) (w : World)
    → w.events ≡ []
    → let p = press_of env cb (incident_pressed env cb w) in
      (guarded p (handle env cb w).1.events ≡ true)
      × ((count_if is_answer (handle env cb w).1.events == 1) ≡ true)
handle-guarded env cb w h =
    let p = press_of env cb (incident_pressed env cb w) in
    rw (handle-from_data env cb) (
      both p (from_data env cb (parse_callback cb.data_) w).1.events (
        left_off (answered p) (from_data env cb (parse_callback cb.data_) w)
          (Done-pressed env cb w h)))
