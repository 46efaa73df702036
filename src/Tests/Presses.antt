-- ===== src/Tests/Presses.antt =====
-- A press on the card of an incident, by an administrator of its group and by a stranger.
use telegram_antispam.Common.{
  ◌==◌, ℤ, pos, negsuc, true, false, [], ◌∷◌, some, ◌≡◌, refl, count_if, map, arith,
}
use telegram_antispam.Domain.{IncidentState}
use telegram_antispam.Store.MessageIds.{itoa}
use telegram_antispam.Store.Tables.{Db, empty, Row}
use telegram_antispam.Incident.World.{ok}
use telegram_antispam.Admin.World.{Env, World, Button}
use telegram_antispam.Admin.Guard.{guarded, is_answer}
use telegram_antispam.Admin.Parse.{encode, buttons}
use telegram_antispam.Admin.Parse.Data.{read_press, read_press-buttons}
use telegram_antispam.Admin.Callbacks.{Callback, handle}
use telegram_antispam.Admin.Callbacks.Guarded.{press_of, incident_pressed, handle-guarded}

abbrev group : ℤ
group = negsuc 100

abbrev muted : Row
muted = record {
  id = 1;
  chat_id = group;
  message_id = pos 9;
  user_id = pos 42;
  sender_chat_id = pos 0;
  state = IncidentState.acted;
  dry_run = false;
  decision = "";
  message_ids = [];
}

abbrev on_record : Db
on_record = record empty { incidents = muted ∷ [] }

abbrev untouched : World
untouched = record { db = on_record; samples = []; events = []; ticks = 0 }

-- The one administrator of the group is 7.
abbrev calm : Env
calm = record {
  operators = [];
  has_trainer = true;
  has_enforcer = true;
  others = λ n. [];
  fails = λ n. false;
  administrators = λ n. ok (pos 7 ∷ []);
  answers = λ n. ok tt;
  trains = λ n. true;
  enforces = λ n. record { sanctioned = true; deleted = true };
}

abbrev press : Callback
press = record {
  id = "q";
  data_ = encode Button.false_positive (itoa (pos 1));
  presser_id = pos 7;
  admin_chat_id = negsuc 500;
  message_id = pos 3;
}

handle-guarded_example :
    let p = press_of calm press (incident_pressed calm press untouched) in
    (guarded p (handle calm press untouched).1.events ≡ true)
    × ((count_if is_answer (handle calm press untouched).1.events == 1) ≡ true)
handle-guarded_example = handle-guarded calm press untouched refl

read_press-buttons_example :
    map (map read_press) (buttons (itoa (pos 12)) true)
    ≡ (some (Button.false_positive, pos 12) ∷ some (Button.lift_no_learn, pos 12) ∷ [])
      ∷ (some (Button.confirm_spam, pos 12) ∷ some (Button.delete_evidence, pos 12) ∷ [])
      ∷ (some (Button.enforce, pos 12) ∷ [])
      ∷ []
read_press-buttons_example = read_press-buttons (pos 12) true (omega arith)
