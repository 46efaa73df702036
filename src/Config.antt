-- ===== src/Config.antt =====
-- internal/config/config.go: what an operator configures for the chats, the captcha and the welcome.
-- A duration is a number of nanoseconds, a text the list of its code points. A pointer is an Option,
-- and a map the list of its entries, of which the first with a key is read.
pub mod Captcha
pub mod Welcome
use telegram_antispam.Common.{
  ℕ, ℤ, same, Bool, true, false, if◌then◌else◌, List, [], ◌∷◌, Option, none, some, any, ◌≡◌, ◌⊎◌,
  inl, inr, Bool-cases, same_iff, arith,
}

-- ChatsPolicy.Mode
pub data ChatsMode : Type 0 where
  auto allowlist owners_only : ChatsMode

-- type ChatsPolicy, without Operators
pub record ChatsPolicy : Type 0 where
  pub mode : ChatsMode
  pub start_in_dry_run : Option Bool
  pub allowlist : List ℤ
  pub enforce : List ℤ
  pub force_dry_run : List ℤ

-- containsChat
abbrev pub contains_chat : List ℤ → ℤ → Bool
contains_chat ids chat = any (λ id. same id chat) ids

-- ChatsPolicy.DryRunFor
unfoldable pub dry_run_for : ChatsPolicy → ℤ → Bool → Bool
dry_run_for p chat stored =
    if contains_chat p.force_dry_run chat
    then true
    else if contains_chat p.enforce chat
    then false
    else stored

-- ChatsPolicy.DryRunDefault
unfoldable pub dry_run_default : ChatsPolicy → Bool
dry_run_default p = elim p.start_in_dry_run [ none ↦ true | some b ↦ b ]

-- RegisteredChat
unfoldable pub registered_chat : ChatsPolicy → ℤ → Bool
registered_chat p chat = elim p.mode [ allowlist ↦ contains_chat p.allowlist chat | _ ↦ true ]

-- A map from chats: the entry of a chat.
abbrev pub entry {ℓ} : {A : Type ℓ} → ℤ → List (ℤ × A) → Option A
entry chat [] = none
entry chat (e ∷ es) = let rest = entry chat es in if same e.0 chat then some e.1 else rest

abbrev pub is_allowlist : ChatsMode → Bool
is_allowlist allowlist = true
is_allowlist _ = false

pub entry_cases {ℓ} :
    {A : Type ℓ} (chat : ℤ) (e : ℤ × A) (es : List (ℤ × A)) {a : A}
    → entry chat (e ∷ es) ≡ some a
    → ((e.0 ≡ chat) × (e.1 ≡ a)) ⊎ (entry chat es ≡ some a)
entry_cases chat e es h = elim (Bool-cases (same e.0 chat)) [
  | inl s ↦ inl ((same_iff e.0 chat).0 s, ground (arith, h, s))
  | inr s ↦ inr (ground (arith, h, s))
]

-- The check of Validate that every entry is a chat of the allowlist, where there is one.
abbrev pub all_listed {ℓ} : {A : Type ℓ} → List ℤ → List (ℤ × A) → Bool
all_listed ids [] = true
all_listed ids (e ∷ es) =
    let rest = all_listed ids es in if contains_chat ids e.0 then rest else false

abbrev pub entries_allowed {ℓ} : {A : Type ℓ} → ChatsPolicy → List (ℤ × A) → Bool
entries_allowed p es = if is_allowlist p.mode then all_listed p.allowlist es else true

-- telegramMessageRunes
abbrev pub telegram_message_runes : ℕ
telegram_message_runes = 4096
