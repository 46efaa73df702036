-- ===== src/Domain.antt =====
-- internal/domain: the types that the packages share. A Go string type whose constants the program
-- compares is a data type with a constructor for each constant.
use telegram_antispam.Common.{ℕ, String, ℤ, Bool, true, false, List}

-- type SenderKind
pub data SenderKind : Type 0 where
  user external_channel anon_admin linked_channel bot : SenderKind

-- type Action; `other` is any further string, such as the zero value "".
pub data Action : Type 0 where
  none_action delete_mute mute ban delete_only quarantine : Action
  other : String → Action

-- type Scope; `unset` is the zero value "".
pub data Scope : Type 0 where
  global chat unset : Scope

-- type IncidentState
pub data IncidentState : Type 0 where
  pending evidenced acted cleaned done evidence_failed not_acted sanction_unknown : IncidentState

-- type Sender
pub record Sender : Type 0 where
  pub kind : SenderKind
  pub user_id : ℤ
  pub sender_chat_id : ℤ
  pub username : String
  pub display_name : String

-- type Signal
pub record Signal : Type 0 where
  pub name : String
  pub detail : String

-- type Verdict; the confidence is in hundredths.
pub record Verdict : Type 0 where
  pub action : Action
  pub scope : Scope
  pub confidence : ℕ
  pub signals : List Signal
  pub reason : String
  pub review_only : Bool

-- Verdict.IsActionable
abbrev pub is_actionable : Verdict → Bool
is_actionable v = elim v.action [ none_action ↦ false | _ ↦ true ]

abbrev pub is_quarantine : Action → Bool
is_quarantine quarantine = true
is_quarantine _ = false

-- type Incident
pub record Incident : Type 0 where
  pub chat_id : ℤ
  pub message_ids : List ℤ
  pub thread_id : ℤ
  pub sender : Sender
  pub verdict : Verdict
  pub state : IncidentState
  pub dry_run : Bool
  pub admin_message_ids : List ℤ
  pub tokens : List String
