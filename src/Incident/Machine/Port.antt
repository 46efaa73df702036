-- ===== src/Incident/Machine/Port.antt =====
-- internal/telegram/port.go: the calls of Port that the incident machine makes. Each one asks the
-- environment for its answer and is recorded with it.
use telegram_antispam.Common.{ℤ, String, List}
use telegram_antispam.Incident.World.{Result, AdminMessage, Call, Env, M, record_call}

module _ (env : Env) where
  unfoldable pub copy_messages : ℤ → ℤ → List ℤ → M (Result (List ℤ))
  copy_messages dst src ids w =
      let r = env.copy_messages w.calls dst src ids in
      (r, record_call (Call.copy_messages dst src ids r) w)

  unfoldable pub delete_messages : ℤ → List ℤ → M (Result (Unit {0}))
  delete_messages chat ids w =
      let r = env.delete_messages w.calls chat ids in
      (r, record_call (Call.delete_messages chat ids r) w)

  unfoldable pub ban_member : ℤ → ℤ → M (Result (Unit {0}))
  ban_member chat user w =
      let r = env.ban_member w.calls chat user in (r, record_call (Call.ban_member chat user r) w)

  -- RestrictMember with the permission to send taken away, for good.
  unfoldable pub restrict_member : ℤ → ℤ → M (Result (Unit {0}))
  restrict_member chat user w =
      let r = env.restrict_member w.calls chat user in
      (r, record_call (Call.restrict_member chat user r) w)

  unfoldable pub ban_sender_chat : ℤ → ℤ → M (Result (Unit {0}))
  ban_sender_chat chat sender w =
      let r = env.ban_sender_chat w.calls chat sender in
      (r, record_call (Call.ban_sender_chat chat sender r) w)

  unfoldable pub send_admin : ℤ → AdminMessage → M (Result ℤ)
  send_admin chat msg w =
      let r = env.send_admin w.calls chat msg in (r, record_call (Call.send_admin chat msg r) w)

  unfoldable pub chat_title : ℤ → M (Result String)
  chat_title chat w =
      let r = env.chat_title w.calls chat in (r, record_call (Call.chat_title chat r) w)

  -- EditAdminMarkup with no buttons.
  unfoldable pub edit_admin_markup : ℤ → ℤ → M (Result (Unit {0}))
  edit_admin_markup chat mid w =
      let r = env.edit_admin_markup w.calls chat mid in
      (r, record_call (Call.edit_admin_markup chat mid r) w)

  unfoldable pub send_ephemeral : ℤ → ℤ → String → M (Result ℤ)
  send_ephemeral chat user text w =
      let r = env.send_ephemeral w.calls chat user text in
      (r, record_call (Call.send_ephemeral chat user text r) w)
