-- ===== src/Incident/Machine/Process/Calls.antt =====
-- Which calls each step of process makes.
use telegram_antispam.Common.{ℕ, ℤ, String, Bool, true, false, List, [], ◌∷◌, Option, none, some}
use telegram_antispam.Domain.{Incident}
use telegram_antispam.Incident.World.{Result, ok, err, CopyError, CardError, Env}
use telegram_antispam.Incident.Trace.{
  Quiet, quiet_rules, Aimed, Aimed-of_Quiet, Aimed-if, Quiet-pure, Aimed-bind,
}
use telegram_antispam.Incident.Machine.{Machine, Error, Outcome}
use telegram_antispam.Incident.Machine.Calls.{
  Quiet-set_state, Quiet-send_card, Quiet-delete_messages, Quiet-send_ephemeral, Aimed-enforce,
}
use telegram_antispam.Incident.Machine.Process.{
  after_bare_card, notify_without_evidence, roll_back, after_card, notify_with_evidence, notify,
  mark_done, send_notice, after_enforce, hold_back, sanction_now, act, act_unless,
}

module _ (env : Env) (m : Machine) where
  Quiet-after_bare_card :
      (id : ℕ) (e : CopyError) (acting : Bool) (sent : Option CardError)
      → Quiet m.admin_chat_id (after_bare_card env m id e acting sent)
  unfolding after_bare_card
  Quiet-after_bare_card id e true none = search quiet_rules
  Quiet-after_bare_card id e true (some c) = search (quiet_rules, Quiet-set_state)
  Quiet-after_bare_card id e false none = search quiet_rules
  Quiet-after_bare_card id e false (some c) = search quiet_rules

  pub Quiet-notify_without_evidence :
      (id : ℕ) (inc : Incident) (title : String) (e : CopyError)
      → Quiet m.admin_chat_id (notify_without_evidence env m id inc title e)
  unfolding notify_without_evidence
  Quiet-notify_without_evidence id inc title e =
      search (quiet_rules, Quiet-set_state, Quiet-send_card, Quiet-after_bare_card)

  Quiet-roll_back :
      (copies : List ℤ) (c : CardError) → Quiet m.admin_chat_id (roll_back env m copies c)
  unfolding roll_back
  Quiet-roll_back copies c = search (quiet_rules, Quiet-delete_messages)

  Quiet-after_card :
      (id : ℕ) (copies : List ℤ) (sent : Option CardError)
      → Quiet m.admin_chat_id (after_card env m id copies sent)
  unfolding after_card
  Quiet-after_card id copies none = search (quiet_rules, Quiet-set_state)
  Quiet-after_card id copies (some c) = search (quiet_rules, Quiet-set_state, Quiet-roll_back)

  pub Quiet-notify_with_evidence :
      (id : ℕ) (inc : Incident) (title : String) (copies : List ℤ)
      → Quiet m.admin_chat_id (notify_with_evidence env m id inc title copies)
  unfolding notify_with_evidence
  Quiet-notify_with_evidence id inc title copies =
      search (quiet_rules, Quiet-send_card, Quiet-after_card)

  pub Quiet-notify :
      (id : ℕ) (inc : Incident) (copies : Result (List ℤ)) (title : String)
      → Quiet m.admin_chat_id (notify env m id inc copies title)
  unfolding notify
  Quiet-notify id inc (err e) title = Quiet-notify_without_evidence id inc title _
  Quiet-notify id inc (ok []) title = Quiet-notify_without_evidence id inc title _
  Quiet-notify id inc (ok (c ∷ cs)) title = Quiet-notify_with_evidence id inc title _

  pub Quiet-mark_done : (id : ℕ) (s : Bool) → Quiet m.admin_chat_id (mark_done env m id s)
  unfolding mark_done
  Quiet-mark_done id s = search quiet_rules

  pub Quiet-send_notice : (inc : Incident) → Quiet m.admin_chat_id (send_notice env m inc)
  unfolding send_notice
  Quiet-send_notice inc = search (quiet_rules, Quiet-send_ephemeral)

  Quiet-after_enforce :
      (id : ℕ) (inc : Incident) (out : Outcome)
      → Quiet m.admin_chat_id (after_enforce env m id inc out)
  unfolding after_enforce
  Quiet-after_enforce id inc out = search (quiet_rules, Quiet-send_notice, Quiet-mark_done)

  pub Quiet-hold_back : (id : ℕ) (inc : Incident) → Quiet m.admin_chat_id (hold_back env m id inc)
  unfolding hold_back
  Quiet-hold_back id inc = search (quiet_rules, Quiet-mark_done)

  Aimed-sanction_now :
      (id : ℕ) (inc : Incident)
      → Aimed m.admin_chat_id inc.chat_id inc.message_ids (sanction_now env m id inc)
  unfolding sanction_now
  Aimed-sanction_now id inc =
      Aimed-bind _ _ (Aimed-enforce env m.admin_chat_id inc id)
        λ out. Aimed-of_Quiet _ (Quiet-after_enforce id inc out)

  Aimed-act :
      (id : ℕ) (inc : Incident)
      → Aimed m.admin_chat_id inc.chat_id inc.message_ids (act env m id inc)
  unfolding act
  Aimed-act id inc =
      Aimed-if _ _ _ (Aimed-of_Quiet _ (Quiet-hold_back id inc)) (Aimed-sanction_now id inc)

  pub Aimed-act_unless :
      (id : ℕ) (inc : Incident) (e : Option Error)
      → Aimed m.admin_chat_id inc.chat_id inc.message_ids (act_unless env m id inc e)
  Aimed-act_unless id inc none = Aimed-act id inc
  Aimed-act_unless id inc (some e) = Aimed-of_Quiet _ (Quiet-pure _)
