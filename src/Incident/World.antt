-- ===== src/Incident/World.antt =====
-- What the incident machine acts on: the database of internal/store behind the Repo interface, the
-- calls made so far to internal/telegram's Port, and the outcome lines of the log.
-- Telegram is a parameter: it answers each call as it likes, from all the calls before it. So is
-- the failure of a database statement, which leaves the database as it was.
use telegram_antispam.Common.{
  ℕ, suc, ℤ, String, Bool, true, false, List, ◌∷◌, Option, none, some, if◌then◌else◌,
}
use telegram_antispam.Domain.{Incident}
use telegram_antispam.Store.Tables.{Db}

-- How a call of Telegram fails: its own refusal (telegram.ErrRefused), or an answer that was lost.
pub data Failure : Type 0 where
  refused lost : Failure

pub data Result {ℓ} (A : Type ℓ) : Type ℓ where
  ok : A → Result A
  err : Failure → Result A

abbrev pub is_ok {ℓ} : {A : Type ℓ} → Result A → Bool
is_ok (ok a) = true
is_ok (err e) = false

-- A failed copy, or the error errNothingCopied.
pub data CopyError : Type 0 where
  copy_failed : Failure → CopyError
  nothing_copied : CopyError

-- A card that was not sent, or the error errCardNotRecorded.
pub data CardError : Type 0 where
  send_failed : Failure → CardError
  card_not_recorded : CardError

-- type Outcome, without its error.
pub record Effect : Type 0 where
  pub sanctioned : Bool
  pub deleted : Bool

-- The note on a card.
pub data Note : Type 0 where
  no_note : Note
  copy_note : CopyError → Bool → Note
  incomplete : ℕ → ℕ → Note
  override_note : Effect → Note

-- The arguments of formatCard, which renders them as text.
pub record CardText : Type 0 where
  pub id : ℕ
  pub incident : Incident
  pub title : String
  pub note : Note
  pub will_act : Bool

-- type AdminMessage; `buttons` holds the arguments of buttonsFor, or nothing where it is unset.
pub record AdminMessage : Type 0 where
  pub text : CardText
  pub incident_key : ℕ
  pub source_chat_id : ℤ
  pub copied_from_chat_id : ℤ
  pub copy_message_ids : List ℤ
  pub buttons : Option Bool

-- A call of Port that was made, with its arguments and its answer.
pub data Call : Type 0 where
  copy_messages : ℤ → ℤ → List ℤ → Result (List ℤ) → Call
  delete_messages : ℤ → List ℤ → Result (Unit {0}) → Call
  ban_member : ℤ → ℤ → Result (Unit {0}) → Call
  restrict_member : ℤ → ℤ → Result (Unit {0}) → Call
  ban_sender_chat : ℤ → ℤ → Result (Unit {0}) → Call
  send_admin : ℤ → AdminMessage → Result ℤ → Call
  chat_title : ℤ → Result String → Call
  edit_admin_markup : ℤ → ℤ → Result (Unit {0}) → Call
  send_ephemeral : ℤ → ℤ → String → Result ℤ → Call

-- The answers of Telegram, each from the calls before it (latest first), and which of the database's
-- statements fail, by their number.
pub record Env : Type 0 where
  pub copy_messages : List Call → ℤ → ℤ → List ℤ → Result (List ℤ)
  pub delete_messages : List Call → ℤ → List ℤ → Result (Unit {0})
  pub ban_member : List Call → ℤ → ℤ → Result (Unit {0})
  pub restrict_member : List Call → ℤ → ℤ → Result (Unit {0})
  pub ban_sender_chat : List Call → ℤ → ℤ → Result (Unit {0})
  pub send_admin : List Call → ℤ → AdminMessage → Result ℤ
  pub chat_title : List Call → ℤ → Result String
  pub edit_admin_markup : List Call → ℤ → ℤ → Result (Unit {0})
  pub send_ephemeral : List Call → ℤ → ℤ → String → Result ℤ
  pub statement_fails : ℕ → Bool

-- Where an incident that was not enforced stopped.
pub data Stage : Type 0 where
  admin_notify evidence_copy evidence_store : Stage
  held_back : Bool → Bool → Stage

-- A line of logOutcome: the incident, and what was done about it.
pub data LogLine : Type 0 where
  enforced : ℕ → Effect → LogLine
  not_enforced : ℕ → Stage → LogLine

pub record World : Type 0 where
  pub db : Db
  pub calls : List Call
  pub statements : ℕ
  pub log : List LogLine

-- A method of the machine: it acts on the world and returns a value.
abbrev pub M {ℓ} : Type ℓ → Type ℓ
M A = World → A × World

infixl 5 ◌>>=◌ ◌>>◌
abbrev pub ◌>>=◌ {ℓ κ} : {A : Type ℓ} {B : Type κ} → M A → (A → M B) → M B
◌>>=◌ m f w = let (a, w') = m w in f a w'

abbrev pub ◌>>◌ {ℓ κ} : {A : Type ℓ} {B : Type κ} → M A → M B → M B
◌>>◌ m k w = let (a, w') = m w in k w'

abbrev pub pure {ℓ} : {A : Type ℓ} → A → M A
pure a w = (a, w)

-- Call of the port: the answer is recorded with the call.
abbrev pub record_call : Call → World → World
record_call c w = record w { calls = c ∷ w.calls }

abbrev pub write_log : LogLine → M (Unit {0})
write_log l w = (tt, record w { log = l ∷ w.log })

module _ (env : Env) where
  -- A transaction of the store, `none` where a statement fails.
  unfoldable pub transact {ℓ} : {A : Type ℓ} → (Db → Db × A) → M (Option A)
  transact f w =
      if env.statement_fails w.statements
      then (none, record w { statements = suc w.statements })
      else (let (db', a) = f w.db in (some a, record w { db = db'; statements = suc w.statements }))

  -- A write that returns only an error: whether it went through.
  unfoldable pub execute : (Db → Db) → M Bool
  execute f w =
      if env.statement_fails w.statements
      then (false, record w { statements = suc w.statements })
      else (true, record w { db = f w.db; statements = suc w.statements })
