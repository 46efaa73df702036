-- ===== src/Store/Tables.antt =====
-- internal/store/migrate.go: the tables of an incident. A table is the list of its rows, oldest
-- first; the column created_at is left out. AUTOINCREMENT is the counter `next_id`.
pub mod Laws
use telegram_antispam.Common.{
  ℕ, zero, suc, ℤ, String, Bool, true, false, ◌==◌, if◌then◌else◌, List, [], ◌∷◌, ◌++◌, Option,
  none, some, ◌≡◌, refl, arith, ==_iff,
}
use telegram_antispam.Domain.{IncidentState, Action, Scope, Signal}
use telegram_antispam.Store.MessageIds.{Text}

-- A row of `incidents`.
pub record Row : Type 0 where
  pub id : ℕ
  pub chat_id : ℤ
  pub message_id : ℤ
  pub user_id : ℤ
  pub sender_chat_id : ℤ
  pub state : IncidentState
  pub dry_run : Bool
  pub decision : String
  pub message_ids : Text

-- WHERE id=?
abbrev pub has_id : ℕ → Row → Bool
has_id id r = r.id == id

-- A row of `audit`.
pub record Audit : Type 0 where
  pub incident_id : ℕ
  pub action : Action
  pub scope : Scope
  pub reason : String
  pub signals : List Signal

-- A row of `evidence`.
pub record Evidence : Type 0 where
  pub incident_id : ℕ
  pub admin_chat_id : ℤ
  pub admin_message_id : ℤ

-- type IncidentCard
pub record IncidentCard : Type 0 where
  pub chat_id : ℤ
  pub message_id : ℤ

-- A row of `incident_cards`.
pub record CardRow : Type 0 where
  pub incident_id : ℕ
  pub card : IncidentCard

-- A row of `incident_tokens`.
pub record TokenRow : Type 0 where
  pub incident_id : ℕ
  pub tokens : List String

pub record Db : Type 0 where
  pub incidents : List Row
  pub audit : List Audit
  pub evidence : List Evidence
  pub cards : List CardRow
  pub tokens : List TokenRow
  pub next_id : ℕ

abbrev pub empty : Db
empty = record { incidents = []; audit = []; evidence = []; cards = []; tokens = []; next_id = 1 }

-- UPDATE … WHERE: every row that passes is rewritten.
module _ {ℓ} {A : Type ℓ} where
  unfoldable pub update_where : (A → Bool) → (A → A) → List A → List A
  update_where p f [] = []
  update_where p f (x ∷ xs) = (if p x then f x else x) ∷ update_where p f xs

  -- SELECT … WHERE, of a key: the first row that passes.
  unfoldable pub find_where : (A → Bool) → List A → Option A
  find_where p [] = none
  find_where p (x ∷ xs) = if p x then some x else find_where p xs

  -- DELETE … WHERE
  unfoldable pub delete_where : (A → Bool) → List A → List A
  delete_where p [] = []
  delete_where p (x ∷ xs) = let rest = delete_where p xs in if p x then rest else x ∷ rest
