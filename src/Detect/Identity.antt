-- ===== src/Detect/Identity.antt =====
-- internal/detect/identity.go: who sent a message, from the ids of the update.
use telegram_antispam.Common.{
  ℤ, pos, same, Bool, false, ◌&&◌, ◌||◌, not, if◌then◌else◌, ◌≡◌, ◌≢◌, arith, same_iff, ◌⊎◌, ◌↔◌,
}
use telegram_antispam.Domain.{SenderKind, user, external_channel, anon_admin, linked_channel, bot}

abbrev pub anon_admin_bot_id : ℤ
anon_admin_bot_id = pos 1087968824

-- type ClassifyInput; SenderChatType is read nowhere.
pub record ClassifyInput : Type 0 where
  pub from_id : ℤ
  pub is_bot : Bool
  pub sender_chat_id : ℤ
  pub chat_id : ℤ
  pub linked_chat_id : ℤ
  pub is_automatic_forward : Bool

-- ClassifySender
unfoldable pub classify_sender : ClassifyInput → SenderKind
classify_sender i =
    if not (same i.sender_chat_id (pos 0))
    then (if same i.sender_chat_id i.chat_id || same i.from_id anon_admin_bot_id
        then anon_admin
        else if i.is_automatic_forward
            && (same i.linked_chat_id (pos 0) || same i.sender_chat_id i.linked_chat_id)
        then linked_channel
        else external_channel)
    else if i.is_bot
    then bot
    else user

-- ClassifySender on a post in the name of a chat: it is an external channel's exactly when it is neither
-- the group's own name nor the anonymous administrator's account, and the server did not forward it from
-- the linked channel. The linked channel's id is compared only where the caller knows it.
pub classify_sender_iff :
    (i : ClassifyInput)
    → i.sender_chat_id ≢ pos 0
    → (classify_sender i ≡ external_channel) ↔ (
        (i.sender_chat_id ≢ i.chat_id)
        × (i.from_id ≢ anon_admin_bot_id)
        × ((i.is_automatic_forward ≡ false)
            ⊎ ((i.linked_chat_id ≢ pos 0) × (i.sender_chat_id ≢ i.linked_chat_id))))
unfolding classify_sender
classify_sender_iff i h =
    let z = same_iff i.sender_chat_id (pos 0) in
    let a = same_iff i.sender_chat_id i.chat_id in
    let b = same_iff i.from_id anon_admin_bot_id in
    let c = same_iff i.linked_chat_id (pos 0) in
    let d = same_iff i.sender_chat_id i.linked_chat_id in ground (arith, h, z, a, b, c, d)
