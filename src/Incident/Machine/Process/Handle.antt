-- ===== src/Incident/Machine/Process/Handle.antt =====
-- Handle as a whole: the order of its calls, and the verdicts that it only reports.
use telegram_antispam.Common.{
  ℕ, ℤ, Bool, true, false, ◌||◌, List, [], ◌∷◌, Option, none, some, refl, ◌≡◌, arith,
}
use telegram_antispam.Domain.{Incident}
use telegram_antispam.Incident.World.{Call, Env}
use telegram_antispam.Incident.Trace.{Quiet, quiet_rules, Quiet-pure, evidence_first}
use telegram_antispam.Incident.Machine.{Machine, Error, is_manual}
use telegram_antispam.Incident.Machine.Port.{copy_messages}
use telegram_antispam.Incident.Machine.Calls.{Quiet-save_album, Quiet-save_tokens, Quiet-chat_title}
use telegram_antispam.Incident.Machine.Process.Calls.{Quiet-notify, Quiet-hold_back}
use telegram_antispam.Incident.Machine.Process.{
  act, act_unless, process, may_promote, after_insert, handle_report,
}

module _ (env : Env) (m : Machine) where
  Quiet-copy_messages :
      (dst src : ℤ) (ids : List ℤ) → Quiet m.admin_chat_id (copy_messages env dst src ids)
  unfolding copy_messages
  Quiet-copy_messages dst src ids = record { adds = record { run = λ w. (_ ∷ [], refl, refl) } }

  Quiet-act :
      (id : ℕ) (inc : Incident)
      → (inc.dry_run || inc.verdict.review_only) ≡ true
      → Quiet m.admin_chat_id (act env m id inc)
  unfolding act
  Quiet-act id inc h = rw h (Quiet-hold_back env m id inc)

  Quiet-act_unless :
      (id : ℕ) (inc : Incident) (e : Option Error)
      → (inc.dry_run || inc.verdict.review_only) ≡ true
      → Quiet m.admin_chat_id (act_unless env m id inc e)
  Quiet-act_unless id inc none h = Quiet-act id inc h
  Quiet-act_unless id inc (some e) h = Quiet-pure _

  -- process on an incident that is only to be reported makes no destructive call.
  Quiet-process :
      (id : ℕ) (inc : Incident)
      → (inc.dry_run || inc.verdict.review_only) ≡ true
      → Quiet m.admin_chat_id (process env m id inc)
  unfolding process
  Quiet-process id inc h =
      search
        (
          quiet_rules,
          Quiet-save_album env m,
          Quiet-save_tokens env m,
          Quiet-chat_title env m.admin_chat_id,
          Quiet-copy_messages,
          Quiet-notify env m,
          Quiet-act_unless,
        )
        depth 9

  -- handle does not promote what is only to be reported.
  may_promote-false :
      (inc : Incident) → (inc.dry_run || inc.verdict.review_only) ≡ true → may_promote inc ≡ false
  may_promote-false inc h = ground arith

  Quiet-after_insert :
      (inc : Incident) (inserted : Option (ℕ × Bool))
      → (inc.dry_run || inc.verdict.review_only) ≡ true
      → is_manual inc.verdict ≡ false
      → Quiet m.admin_chat_id (after_insert env m inc inserted)
  unfolding after_insert
  Quiet-after_insert inc none h k = Quiet-pure _
  Quiet-after_insert inc (some (id, true)) h k = search (quiet_rules, Quiet-process id inc h)
  Quiet-after_insert inc (some (id, false)) h k = rw (k, may_promote-false inc h) (Quiet-pure _)

  -- A report that is not a moderator's command, in a chat under observation (dry run) or on a
  -- review-only verdict, makes no ban, no mute, no ban of a sender chat and no deletion outside
  -- the admin chat, whatever Telegram answers, whichever writes fail, and whether or not the
  -- message is on record already.
  pub handle_report-spares :
      (inc : Incident)
      → (inc.dry_run || inc.verdict.review_only) ≡ true
      → is_manual inc.verdict ≡ false
      → Quiet m.admin_chat_id (handle_report env m inc)
  unfolding handle_report
  handle_report-spares inc h k =
      search (quiet_rules, λ (o : Option (ℕ × Bool)). Quiet-after_insert inc o h k)

  -- The calls keep the order for the messages `ids` of the incident's chat.
  abbrev Ordered : Incident → List Call → Type 0
  Ordered inc xs = (ids : List ℤ) × (evidence_first m.admin_chat_id inc.chat_id ids xs ≡ true)
