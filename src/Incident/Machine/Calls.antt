-- ===== src/Incident/Machine/Calls.antt =====
-- Which calls each step of the incident machine makes.
use telegram_antispam.Common.{
  ℕ, ℤ, String, same_refl, List, [], ◌∷◌, Option, none, some, refl, arith,
}
use telegram_antispam.Domain.{Action, ban, IncidentState, Incident}
use telegram_antispam.Incident.World.{Failure, Result, ok, err, AdminMessage, Env}
use telegram_antispam.Incident.Trace.{
  Quiet, quiet_rules, Quiet-pure, Aimed, Aimed-bind, Aimed-then, aimed_rules, Aimed-of_Quiet,
  same_ids_refl,
}
use telegram_antispam.Incident.Machine.{
  Machine, ApplyError, call_failed, unknown_action, Error, apply_to_member, apply_action, set_state,
  record_attempt, mark_cleaned, close_attempt, enforce, withdraw_card, register_card, send_card,
  save_album, save_tokens,
}
use telegram_antispam.Incident.Machine.Port.{
  delete_messages, ban_member, restrict_member, ban_sender_chat, send_admin, chat_title,
  edit_admin_markup, send_ephemeral,
}

module _ (env : Env) (admin : ℤ) where
  pub Quiet-send_admin : (chat : ℤ) (msg : AdminMessage) → Quiet admin (send_admin env chat msg)
  unfolding send_admin
  Quiet-send_admin chat msg = record { adds = record { run = λ w. (_ ∷ [], refl, refl) } }

  pub Quiet-chat_title : (chat : ℤ) → Quiet admin (chat_title env chat)
  unfolding chat_title
  Quiet-chat_title chat = record { adds = record { run = λ w. (_ ∷ [], refl, refl) } }

  pub Quiet-edit_admin_markup : (chat mid : ℤ) → Quiet admin (edit_admin_markup env chat mid)
  unfolding edit_admin_markup
  Quiet-edit_admin_markup chat mid = record { adds = record { run = λ w. (_ ∷ [], refl, refl) } }

  pub Quiet-send_ephemeral :
      (chat user : ℤ) (text : String) → Quiet admin (send_ephemeral env chat user text)
  unfolding send_ephemeral
  Quiet-send_ephemeral chat user text = record { adds = record { run = λ w. (_ ∷ [], refl, refl) } }

  -- Deletions in the admin chat itself.
  pub Quiet-delete_messages : (ids : List ℤ) → Quiet admin (delete_messages env admin ids)
  unfolding delete_messages
  Quiet-delete_messages ids = record {
    adds = record { run = λ w. (_ ∷ [], refl, rw (same_refl admin)) };
  }

  pub Quiet-set_state : (id : ℕ) (st : IncidentState) → Quiet admin (set_state env id st)
  unfolding set_state
  Quiet-set_state id st = search quiet_rules

  pub Quiet-record_attempt :
      (id : ℕ) (inc : Incident) (e : Option ApplyError) → Quiet admin (record_attempt env id inc e)
  unfolding record_attempt
  Quiet-record_attempt id inc none = Quiet-set_state id IncidentState.acted
  Quiet-record_attempt id inc (some (call_failed Failure.refused)) = search quiet_rules
  Quiet-record_attempt id inc (some (call_failed Failure.lost)) = search quiet_rules
  Quiet-record_attempt id inc (some unknown_action) = search quiet_rules

  pub Quiet-mark_cleaned : (id : ℕ) (e : Option Error) → Quiet admin (mark_cleaned env id e)
  unfolding mark_cleaned
  Quiet-mark_cleaned id none = Quiet-set_state id IncidentState.cleaned
  Quiet-mark_cleaned id (some e) = search quiet_rules

  pub Quiet-close_attempt :
      (id : ℕ) (e : Option ApplyError) (r : Result (Unit {0}))
      → Quiet admin (close_attempt env id e r)
  unfolding close_attempt
  Quiet-close_attempt id e r = search (quiet_rules, Quiet-mark_cleaned)

module _ (env : Env) (m : Machine) where
  Quiet-withdraw_card : (mid : ℤ) → Quiet m.admin_chat_id (withdraw_card env m mid)
  unfolding withdraw_card
  Quiet-withdraw_card mid = search (
    quiet_rules,
    Quiet-delete_messages env m.admin_chat_id,
    Quiet-edit_admin_markup env m.admin_chat_id,
  )

  Quiet-register_card : (id : ℕ) (r : Result ℤ) → Quiet m.admin_chat_id (register_card env m id r)
  unfolding register_card
  Quiet-register_card id (err e) = search quiet_rules
  Quiet-register_card id (ok mid) = search (quiet_rules, Quiet-withdraw_card)

  pub Quiet-send_card :
      (id : ℕ) (msg : AdminMessage) → Quiet m.admin_chat_id (send_card env m id msg)
  unfolding send_card
  Quiet-send_card id msg = search (
    quiet_rules,
    Quiet-send_admin env m.admin_chat_id m.admin_chat_id msg,
    Quiet-register_card id,
  )

  pub Quiet-save_album : (id : ℕ) (inc : Incident) → Quiet m.admin_chat_id (save_album env m id inc)
  unfolding save_album
  Quiet-save_album id inc = search quiet_rules

  pub Quiet-save_tokens :
      (id : ℕ) (inc : Incident) → Quiet m.admin_chat_id (save_tokens env m id inc)
  unfolding save_tokens
  Quiet-save_tokens id inc = search quiet_rules

module _ (env : Env) (admin : ℤ) (inc : Incident) where
  Aimed-ban_member :
      (user : ℤ) → Aimed admin inc.chat_id inc.message_ids (ban_member env inc.chat_id user)
  unfolding ban_member
  Aimed-ban_member user = record {
    adds = record { run = λ w. (_ ∷ [], refl, rw (same_refl inc.chat_id)) };
  }

  Aimed-restrict_member :
      (user : ℤ) → Aimed admin inc.chat_id inc.message_ids (restrict_member env inc.chat_id user)
  unfolding restrict_member
  Aimed-restrict_member user = record {
    adds = record { run = λ w. (_ ∷ [], refl, rw (same_refl inc.chat_id)) };
  }

  Aimed-ban_sender_chat :
      (sender : ℤ)
      → Aimed admin inc.chat_id inc.message_ids (ban_sender_chat env inc.chat_id sender)
  unfolding ban_sender_chat
  Aimed-ban_sender_chat sender = record {
    adds = record { run = λ w. (_ ∷ [], refl, rw (same_refl inc.chat_id)) };
  }

  Aimed-delete_originals :
      Aimed admin inc.chat_id inc.message_ids (delete_messages env inc.chat_id inc.message_ids)
  unfolding delete_messages
  Aimed-delete_originals = record {
    adds = record {
      run =
          λ w. (_ ∷ [], refl, ground (arith, same_refl inc.chat_id, same_ids_refl inc.message_ids));
    };
  }

  Aimed-pure : {A : Type 0} (a : A) → Aimed admin inc.chat_id inc.message_ids (λ w. (a, w))
  Aimed-pure a = Aimed-of_Quiet _ (Quiet-pure a)

  ruleset member_calls =
      (aimed_rules, Aimed-pure, Aimed-ban_member, Aimed-restrict_member, Aimed-ban_sender_chat)

  Aimed-apply_to_member :
      (a : Action) → Aimed admin inc.chat_id inc.message_ids (apply_to_member env inc a)
  unfolding apply_to_member
  Aimed-apply_to_member ban = search member_calls
  Aimed-apply_to_member _ = search member_calls

  Aimed-apply_action : Aimed admin inc.chat_id inc.message_ids (apply_action env inc)
  unfolding apply_action
  Aimed-apply_action = search (member_calls, Aimed-apply_to_member)

  -- Whatever Enforce does to a chat, it does to the incident's chat and messages.
  pub Aimed-enforce : (id : ℕ) → Aimed admin inc.chat_id inc.message_ids (enforce env id inc)
  unfolding enforce
  Aimed-enforce id = Aimed-bind _ _ Aimed-apply_action λ e.
      Aimed-then _ _ (Aimed-of_Quiet _ (Quiet-record_attempt env admin id inc e)) (
        Aimed-bind _ _ Aimed-delete_originals
          λ r. Aimed-of_Quiet _ (Quiet-close_attempt env admin id e r))
