-- ===== src/Watch/World.antt =====
-- What the captcha of internal/watch acts on. Every statement of the database, every call of Telegram
-- and every reading of the clock takes one tick. Before each, other goroutines may have made any
-- operations on the challenges, and what else is stored and configured may be anything: the record
-- Env says what it is at each tick, how Telegram answers and which statements fail.
use telegram_antispam.Common.{
  ℕ, suc, ◌+◌, ◌-◌, ◌/◌, String, ℤ, pos, negsuc, Bool, if◌then◌else◌, List, ◌∷◌, Option, none, some,
}
pub use telegram_antispam.Flow.{Flow, returns, goes_on, Body, ◌>>=◌, ◌>>◌, pure, exit, enter}
use telegram_antispam.Store.MessageIds.{Text}
use telegram_antispam.Store.Tables.{Db}
use telegram_antispam.Store.Captcha.{Challenges, sanction_since}
use telegram_antispam.Store.Captcha.Life.{Operation, run}
use telegram_antispam.Config.{ChatsPolicy}
use telegram_antispam.Config.Captcha.{Captcha, CaptchaPolicy}
use telegram_antispam.Detect.Trust.{TrustTables}
use telegram_antispam.Incident.World.{Result}

-- type CaptchaOutcome
pub data Outcome : Type 0 where
  skip skip_not_admitted skip_disabled skip_chat_disabled skip_dry_run skip_restricted : Outcome
  skip_blocklisted skip_known skip_pending skip_mode approved_known prompt_failed approved : Outcome
  failed_decline left_pending challenged passed restrict_after_cancel released failed_kick : Outcome
  failed_muted gave_up cancelled_by_admin invalid wrong_user expired cancelled_sanction error :
      Outcome

-- A call of Telegram with its arguments and its answer, a reading of SanctionSince, or a count.
pub data Event : Type 0 where
  restrict_member unrestrict_member ban_member unban_member : ℤ → ℤ → Result (Unit {0}) → Event
  approve_join_request decline_join_request : ℤ → ℤ → Result (Unit {0}) → Event
  send_captcha_ephemeral : ℤ → ℤ → Text → Text → Result ℤ → Event
  send_captcha_message : ℤ → Text → Text → Result ℤ → Event
  delete_ephemeral : ℤ → ℤ → ℤ → Result (Unit {0}) → Event
  delete_messages : ℤ → List ℤ → Result (Unit {0}) → Event
  answer_callback : String → String → Result (Unit {0}) → Event
  sanction_read : ℤ → ℤ → ℕ → Option Bool → Event
  counted : Outcome → Event

-- type ChatRow, without LinkedChatID
pub record ChatRow : Type 0 where
  pub enabled : Bool
  pub dry_run : Bool

-- type Config, the parts that the captcha reads
pub record Config : Type 0 where
  pub chats : ChatsPolicy
  pub captcha : Captcha

-- JoinEvent and JoinRequest
pub record JoinEvent : Type 0 where
  pub chat_id : ℤ
  pub user_id : ℤ
  pub restricted : Bool

pub record JoinRequest : Type 0 where
  pub chat_id : ℤ
  pub user_id : ℤ
  pub user_chat_id : ℤ

-- The functions that Captcha.Go was given to run.
pub data Task : Type 0 where
  challenge_task : JoinEvent → ℕ → CaptchaPolicy → Text → Task
  challenge_join_task : JoinRequest → ℕ → CaptchaPolicy → Task
  approve_task : ℤ → ℤ → Task

pub record Env : Type 0 where
  pub self_id : ℤ
  pub default_text : Text
  pub default_button : Text
  pub created_at : ℕ → ℕ
  pub others : ℕ → List Operation
  pub fails : ℕ → Bool
  pub clock : ℕ → ℕ
  pub answers : ℕ → Result (Unit {0})
  pub sends : ℕ → Result ℤ
  pub config : ℕ → Option Config
  pub chat_row : ℕ → ℤ → Option ChatRow
  pub trust : ℕ → TrustTables
  pub incidents : ℕ → Db
  pub listed : ℕ → ℤ → Bool
  pub stopped : ℕ → Bool

-- `events` has the latest first; `inflight` is the map of that name.
pub record World : Type 0 where
  pub table : Challenges
  pub events : List Event
  pub ticks : ℕ
  pub inflight : List (ℤ × ℤ)
  pub tasks : List Task

abbrev pub Block : Type 0 → Type 0 → Type 0
Block R A = Body World R A

abbrev pub emit : {R : Type 0} → Event → Block R (Unit {0})
emit e w = (goes_on tt, record w { events = e ∷ w.events })

-- Captcha.count, for an outcome that is counted.
abbrev pub count : {R : Type 0} → Outcome → Block R (Unit {0})
count out = emit (counted out)

module _ (env : Env) where
  abbrev pub tick : World → World
  tick w = record w { table = run (env.others w.ticks) w.table; ticks = suc w.ticks }

  abbrev pub settle : {R A : Type 0} → World → Option (Challenges × A) → Flow R (Option A) × World
  settle w none = (goes_on none, w)
  settle w (some (t, a)) = (goes_on (some a), record w { table = t })

  -- A transaction on the challenges: `none` where it fails.
  unfoldable pub write :
      {R A : Type 0} → (Challenges → Option (Challenges × A)) → Block R (Option A)
  write f w =
      if env.fails w.ticks then (goes_on none, tick w) else settle (tick w) (f (tick w).table)

  -- A query, of the challenges or of what is stored at that tick.
  unfoldable pub query : {R A : Type 0} → (ℕ → Challenges → A) → Block R (Option A)
  query f w =
      (goes_on (if env.fails w.ticks then none else some (f w.ticks (tick w).table)), tick w)

  -- SanctionSince, which is also recorded as an event.
  unfoldable pub sanctioned : {R : Type 0} → ℤ → ℤ → ℕ → Block R (Option Bool)
  sanctioned chat user since w =
      let a =
        if env.fails w.ticks
        then none
        else some (sanction_since env.created_at chat user since (env.incidents w.ticks)) in
      (goes_on a, record (tick w) { events = sanction_read chat user since a ∷ w.events })

  -- A call of Telegram.
  unfoldable pub call : {R : Type 0} → (Result (Unit {0}) → Event) → Block R (Result (Unit {0}))
  call e w = (
    goes_on (env.answers w.ticks),
    record (tick w) { events = e (env.answers w.ticks) ∷ w.events },
  )

  unfoldable pub send : {R : Type 0} → (Result ℤ → Event) → Block R (Result ℤ)
  send e w =
      (goes_on (env.sends w.ticks), record (tick w) { events = e (env.sends w.ticks) ∷ w.events })

  -- Captcha.now, in nanoseconds, and any other value that may change between two ticks.
  unfoldable pub observe : {R A : Type 0} → (ℕ → A) → Block R A
  observe f w = (goes_on (f w.ticks), tick w)

-- Time.Unix, and Time.Add of a duration before it.
abbrev pub unix : ℕ → ℕ
unix n = n / 1000000000

abbrev pub unix_after : ℕ → ℤ → ℕ
unix_after n (pos d) = unix (n + d)
unix_after n (negsuc d) = unix (n - suc d)
