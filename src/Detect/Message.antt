-- ===== src/Detect/Message.antt =====
-- internal/domain's Message and internal/detect's NormalizedMessage: the fields that the detectors
-- read. The texts are strings; where the code counts or compares runes, `runes` gives their list.
use telegram_antispam.Common.{ℕ, String, ℤ, Bool, false, not, List, [], ◌∷◌, is_empty}
use telegram_antispam.Domain.{Sender}
use telegram_antispam.Store.MessageIds.{trim_space}
use Prim.Native.Char.{code}
use mathlib.Core.Path.{◌≡◌, refl}
use Prim.Native.String.{[] as empty_string, ◌∷◌ as ◌∷ˢ◌}

-- type Message
pub record Message : Type 0 where
  pub chat_id : ℤ
  pub message_id : ℤ
  pub thread_id : ℤ
  pub sender : Sender
  pub text : String
  pub sender_tag : String
  pub media_kinds : List String
  pub has_keyboard : Bool
  pub via_bot : Bool

-- type NormalizedMessage
pub record NormalizedMessage : Type 0 where
  pub text : String
  pub links : List String
  pub mentions : List String
  pub has_custom_emoji : Bool
  pub sender_tag_norm : String
  pub raw_len : ℕ
  pub has_own_text : Bool
  pub own_len : ℕ
  pub link_count : ℕ
  pub mention_count : ℕ
  pub emoji_count : ℕ
  pub media_kinds : List String
  pub document_extensions : List String
  pub document_mime_types : List String
  pub forwarded : Bool
  pub forwarded_from_chat : Bool
  pub has_keyboard : Bool
  pub via_bot : Bool

-- []rune(s)
unfoldable pub runes : String → List ℕ
runes empty_string = []
runes (c ∷ˢ s) = code c ∷ runes s

-- strings.TrimSpace(s) != ""
unfoldable pub has_text : String → Bool
unfolding runes trim_space
has_text s = not (is_empty (trim_space (runes s)))

blank : has_text "  " ≡ false
unfolding has_text
blank = refl
