-- ===== src/Admin/World.antt =====
-- What the buttons of the admin chat act on: the incident tables, the samples, the calls made so far and
-- the clock of statements. Each statement of the database and each call takes one tick, before which the
-- machine, a command or another press may have made any operations on the incidents. The trainer and
-- the enforcer are the functions that SetTrainer and SetEnforcer install; like Telegram they answer as
-- they like.
use telegram_antispam.Common.{
  ℕ, suc, ◌==◌, ℤ, String, str_eq, Bool, true, false, ◌&&◌, if◌then◌else◌, List, [], ◌∷◌, ◌++◌,
  Option, none, some, any,
}
pub use telegram_antispam.Flow.{Flow, returns, goes_on, Body, ◌>>=◌, ◌>>◌, pure, exit, enter}
use telegram_antispam.Store.Tables.{Db}
use telegram_antispam.Store.Incidents.{IncidentRow}
use telegram_antispam.Store.Decisions.{record_decision}
use telegram_antispam.Store.Operations.{Operation, run}
use telegram_antispam.Incident.World.{Result, Effect}

-- type Action of internal/admin
pub data Button : Type 0 where
  false_positive lift_no_learn confirm_spam delete_evidence enforce : Button

-- A row of `samples`.
pub record Sample : Type 0 where
  pub scope : String
  pub label : String
  pub origin : String
  pub key : ℕ

-- What a press is answered, in so many words or with the parts of a reply.
pub data Reply : Type 0 where
  invalid_callback invalid_incident incident_not_found store_unavailable rights_unknown : Reply
  not_authorized press_again stale_card unknown_action enforcement_unavailable : Reply
  already_enforced no_evidence : Reply
  already_decided : String → Reply
  deleted_evidence : ℕ → Reply
  joined : String → String → String → Reply

-- A call of Telegram, of the trainer, of the enforcer or of RecordDecision, with its answer; `none` is an
-- error.
pub data Event : Type 0 where
  decision_recorded : ℕ → String → Option (Option (Bool × String)) → Event
  chat_administrators : ℤ → Result (List ℤ) → Event
  unban_member unrestrict_member unban_sender_chat : ℤ → ℤ → Result (Unit {0}) → Event
  edit_admin_markup : ℤ → ℤ → Result (Unit {0}) → Event
  delete_messages : ℤ → List ℤ → Result (Unit {0}) → Event
  answer_callback : String → Reply → Result (Unit {0}) → Event
  trained : ℤ → String → List String → Bool → Event
  enforced : IncidentRow → Effect → Event

pub record Env : Type 0 where
  pub operators : List ℤ
  pub has_trainer : Bool
  pub has_enforcer : Bool
  pub others : ℕ → List Operation
  pub fails : ℕ → Bool
  pub administrators : ℕ → Result (List ℤ)
  pub answers : ℕ → Result (Unit {0})
  pub trains : ℕ → Bool
  pub enforces : ℕ → Effect

-- `events` has the latest first.
pub record World : Type 0 where
  pub db : Db
  pub samples : List Sample
  pub events : List Event
  pub ticks : ℕ

abbrev pub Block : Type 0 → Type 0 → Type 0
Block R A = Body World R A

abbrev pub same_sample : Sample → Sample → Bool
same_sample a b = str_eq a.scope b.scope && str_eq a.label b.label && a.key == b.key

module _ (env : Env) where
  abbrev pub tick : World → World
  tick w = record w { db = run (env.others w.ticks) w.db; ticks = suc w.ticks }

  -- A transaction of the store, `none` where it fails.
  unfoldable pub transact : {R A : Type 0} → (Db → Db × A) → Block R (Option A)
  transact f w =
      if env.fails w.ticks
      then (goes_on none, tick w)
      else (let (db', a) = f (tick w).db in (goes_on (some a), record (tick w) { db = db' }))

  -- RecordDecision
  unfoldable pub record_claim :
      {R : Type 0} → ℕ → String → Block R (Option (Option (Bool × String)))
  record_claim id decision w =
      if env.fails w.ticks
      then (
        goes_on none,
        record (tick w) { events = decision_recorded id decision none ∷ w.events },
      )
      else (let (db', a) = record_decision id decision (tick w).db in
          (
            goes_on (some a),
            record (tick w) {
              db = db';
              events = decision_recorded id decision (some a) ∷ w.events;
            },
          ))

  -- InsertSample: whether the statement went through; a sample that is there already is left.
  unfoldable pub insert_sample : {R : Type 0} → Sample → Block R Bool
  insert_sample s w = if env.fails w.ticks then (goes_on false, tick w) else (
    goes_on true,
    record (tick w) {
      samples = if any (same_sample s) w.samples then w.samples else w.samples ++ s ∷ [];
    },
  )

  -- A call of Telegram.
  unfoldable pub call : {R : Type 0} → (Result (Unit {0}) → Event) → Block R (Result (Unit {0}))
  call e w = (
    goes_on (env.answers w.ticks),
    record (tick w) { events = e (env.answers w.ticks) ∷ w.events },
  )

  unfoldable pub get_administrators : {R : Type 0} → ℤ → Block R (Result (List ℤ))
  get_administrators chat w = (
    goes_on (env.administrators w.ticks),
    record (tick w) { events = chat_administrators chat (env.administrators w.ticks) ∷ w.events },
  )

  -- The calls of the trainer and of the enforcer.
  unfoldable pub train_corpus : {R : Type 0} → ℤ → String → List String → Block R Bool
  train_corpus chat label tokens w = (
    goes_on (env.trains w.ticks),
    record (tick w) { events = trained chat label tokens (env.trains w.ticks) ∷ w.events },
  )

  unfoldable pub enforce_incident : {R : Type 0} → IncidentRow → Block R Effect
  enforce_incident inc w = (
    goes_on (env.enforces w.ticks),
    record (tick w) { events = enforced inc (env.enforces w.ticks) ∷ w.events },
  )
