-- ===== src/Tests/Incidents.antt =====
-- The incident machine and its tables on a small deployment: one chat, one message, an admin chat.
use telegram_antispam.Common.{
  pos, negsuc, same, String, true, false, List, [], ◌∷◌, some, ◌≡◌, refl, arith, eq_iff,
}
use telegram_antispam.Domain.{user, delete_mute, global, pending, Sender, Verdict, Incident}
use telegram_antispam.Store.Tables.{Db, empty, find_where, update_where}
use telegram_antispam.Store.Incidents.{insert_pending}
use telegram_antispam.Store.Decisions.{claim_manual_override, record_decision}
use telegram_antispam.Store.Operations.{Operation, run}
use telegram_antispam.Store.Operations.Invariant.{IsValid, run-empty-IsValid}
use telegram_antispam.Store.Operations.Decision.{Holds, decision_stands}
use telegram_antispam.Incident.World.{ok, Env, World}
use telegram_antispam.Incident.Trace.{Quiet}
use telegram_antispam.Incident.Machine.{Machine, is_manual}
use telegram_antispam.Incident.Machine.Process.{handle_report}
use telegram_antispam.Incident.Machine.Process.Handle.{handle_report-spares}

abbrev pub sender : Sender
sender = record {
  kind = user;
  user_id = pos 42;
  sender_chat_id = pos 0;
  username = "mallory";
  display_name = "Mallory";
}

abbrev pub bayes : Verdict
bayes = record {
  action = delete_mute;
  scope = global;
  confidence = 100;
  signals = record { name = "bayes"; detail = "" } ∷ [];
  reason = "bayes";
  review_only = false;
}

abbrev pub spam : Incident
spam = record {
  chat_id = negsuc 100;
  message_ids = pos 7 ∷ [];
  thread_id = pos 0;
  sender = sender;
  verdict = bayes;
  state = pending;
  dry_run = false;
  admin_message_ids = [];
  tokens = "casino" ∷ [];
}

abbrev observed : Incident
observed = record spam { dry_run = true }

abbrev pub machine : Machine
machine = record {
  admin_chat_id = negsuc 900;
  has_buttons = true;
  ephemeral_notice = false;
  ephemeral_text = "";
}

-- Telegram does all that it is asked, and no statement fails.
abbrev pub willing : Env
willing = record {
  copy_messages = λ h dst src ids. ok (pos 501 ∷ []);
  delete_messages = λ h chat ids. ok tt;
  ban_member = λ h chat u. ok tt;
  restrict_member = λ h chat u. ok tt;
  ban_sender_chat = λ h chat s. ok tt;
  send_admin = λ h chat msg. ok (pos 502);
  chat_title = λ h chat. ok "Test chat";
  edit_admin_markup = λ h chat mid. ok tt;
  send_ephemeral = λ h chat u t. ok (pos 1);
  statement_fails = λ n. false;
}

abbrev start : World
start = record { db = empty; calls = []; statements = 0; log = [] }

handle_report-spares_example : Quiet (negsuc 900) (handle_report willing machine observed)
unfolding is_manual
handle_report-spares_example = handle_report-spares willing machine observed refl refl

abbrev reported : List Operation
reported =
    Operation.insert (negsuc 100) (pos 7) (pos 42) (pos 0) true bayes
    ∷ Operation.decide 1 "spam"
    ∷ Operation.insert (negsuc 100) (pos 7) (pos 42) (pos 0) true bayes
    ∷ []

run-empty-IsValid_example : IsValid (run reported empty)
run-empty-IsValid_example = run-empty-IsValid reported

abbrev decided_db : Db
decided_db = run reported empty

decided_Holds : Holds 1 "spam" decided_db
unfolding run insert_pending record_decision find_where update_where same
decided_Holds = (_, refl, refl)

decision_stands_example :
    Holds 1 "spam" (run (Operation.claim 1 ∷ Operation.decide 1 "fp" ∷ []) decided_db)
    × ((claim_manual_override 1
          (run (Operation.claim 1 ∷ Operation.decide 1 "fp" ∷ []) decided_db)).1.claimed
        ≡ false)
    × ((d' : String)
        → (record_decision 1 d'
            (run (Operation.claim 1 ∷ Operation.decide 1 "fp" ∷ []) decided_db)).1
          ≡ some (false, "spam"))
decision_stands_example =
    decision_stands 1 "spam" (Operation.claim 1 ∷ Operation.decide 1 "fp" ∷ []) decided_db
      (ground (arith, eq_iff "spam" "")) refl decided_Holds
