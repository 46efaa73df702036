-- ===== src/Tests/Challenges.antt =====
-- A member of a group who is challenged, and the configuration of the captcha and of the welcome.
use telegram_antispam.Common.{
  ℤ, pos, negsuc, Bool, true, false, [], ◌∷◌, List, some, none, ◌≡◌, refl, same, le_id, length, ◌≤◌,
  ◌++◌, is_some, ◌||◌, not, ◌⊎◌, count_if, arith, ◌&&◌, leb,
}
use telegram_antispam.Domain.{IncidentState, Action}
use telegram_antispam.Config.{ChatsPolicy, ChatsMode}
use telegram_antispam.Config.Welcome.{
  Welcome, validate_welcome, welcome_for, enabled_in, Fits, validated_greets,
}
use telegram_antispam.Config.Captcha.{
  CaptchaMode, FailAction, Captcha, validate_captcha, captcha_for, apply_captcha_defaults,
  CaptchaPolicy,
}
use telegram_antispam.Config.Captcha.Resolved.{usable, validated_usable}
use telegram_antispam.Store.MessageIds.{Text, trim_space}
use telegram_antispam.Store.Tables.{update_where, find_where, Db, empty, Row}
use telegram_antispam.Store.Incidents.{mark_sanction_unknown}
use telegram_antispam.Store.Decisions.{claim_manual_override}
use telegram_antispam.Store.Captcha.Sanctions.{sanction_since-protects}
use telegram_antispam.Store.Captcha.{
  CaptchaState, CaptchaRow, Challenges, get_captcha, begin_captcha, due_captchas, sanction_since,
}
use telegram_antispam.Store.Captcha.Life.{Operation, run, Advances}
use telegram_antispam.Store.Captcha.Life.Forward.{run-Advances}
use telegram_antispam.Store.Captcha.Keys.{Distinct, Begun, begin_captcha-Begun}
use telegram_antispam.Store.Captcha.Due.{is_open, Sorted, AllDue, due_captchas-earliest}
use telegram_antispam.Incident.World.{Result}
use telegram_antispam.Watch.World.{Env, World, JoinEvent, Task}
use telegram_antispam.Watch.Captcha.{captcha_data, parse_captcha_data}
use telegram_antispam.Watch.Captcha.Data.{parse_captcha_data-captcha_data}
use telegram_antispam.Watch.Captcha.Activity.{Activity, act_all, act_all-Advances}

abbrev group : ℤ
group = negsuc 100

abbrev member : ℤ
member = pos 42

abbrev hello : Text
hello = b'h' ∷ b'i' ∷ []

abbrev everywhere : ChatsPolicy
everywhere = record {
  mode = ChatsMode.auto;
  start_in_dry_run = some false;
  allowlist = [];
  enforce = [];
  force_dry_run = [];
}

abbrev greeting : Welcome
greeting = record {
  enabled = some true;
  text = b' ' ∷ hello;
  max_per_minute = some (pos 20);
  chats = (group, record { enabled = none; text = hello }) ∷ [];
}

validated_greets_example :
    (is_some (welcome_for greeting group) ≡ enabled_in greeting group)
    × ((t : Text) → welcome_for greeting group ≡ some t → Fits t)
unfolding validate_welcome welcome_for trim_space same le_id
validated_greets_example = validated_greets everywhere greeting group refl

abbrev block : Captcha
block = record {
  enabled = some true;
  mode = CaptchaMode.unset_mode;
  timeout = none;
  on_fail = FailAction.unset_action;
  text = none;
  button_text = none;
  chats =
      (
        group,
        record {
          enabled = none;
          mode = CaptchaMode.unset_mode;
          timeout = pos 45000000000;
          on_fail = FailAction.keep_muted;
          text = [];
          button_text = [];
        },
      )
      ∷ [];
}

validated_usable_example :
    usable (captcha_for hello hello (apply_captcha_defaults hello hello block) group).0 ≡ true
unfolding validate_captcha captcha_for apply_captcha_defaults trim_space same le_id
validated_usable_example = validated_usable hello hello everywhere block group refl refl

-- The member is challenged, prompted and presses the button; the mute is lifted.
abbrev life : List Operation
life =
    Operation.begin group member 100 220 CaptchaMode.button
    ∷ Operation.transition group member 1 (CaptchaState.fresh ∷ []) CaptchaState.challenged
    ∷ Operation.prompt group member 1 (pos 0) (pos 7) (pos 0) 221
    ∷ Operation.mark_passing group member 1 150
    ∷ Operation.transition group member 1 (CaptchaState.passing ∷ []) CaptchaState.passed
    ∷ []

run-Advances_example :
    Advances (get_captcha group member []) (get_captcha group member (run life []))
run-Advances_example = run-Advances group member life [] refl

abbrev failed_row : CaptchaRow
failed_row = record {
  chat_id = group;
  user_id = member;
  attempt = 3;
  state = CaptchaState.failed;
  deadline = 90;
  fail_action = FailAction.kick;
  tries = 1;
  ephemeral_id = pos 7;
  message_id = pos 0;
  created_at = 10;
  mode = CaptchaMode.button;
  prompt_chat_id = pos 0;
}

begin_captcha-Begun_example :
    Begun group member 100 220 CaptchaMode.button
      (some failed_row)
      (begin_captcha group member 100 220 CaptchaMode.button (failed_row ∷ []))
unfolding find_where same
begin_captcha-Begun_example =
    begin_captcha-Begun group member 100 220 CaptchaMode.button (failed_row ∷ []) (refl, tt)

starts_over :
    (begin_captcha group member 100 220 CaptchaMode.button (failed_row ∷ [])).1.0.attempt ≡ 4
unfolding begin_captcha find_where same update_where
starts_over = refl

-- Two open challenges that are due, one of them over the limit.
abbrev overdue : Challenges
overdue =
    record failed_row { state = CaptchaState.challenged }
    ∷ failed_row
    ∷ record failed_row { state = CaptchaState.passing; deadline = 80 }
    ∷ record failed_row { state = CaptchaState.failing; deadline = 101 }
    ∷ []

due_captchas-earliest_example :
    (length (due_captchas 100 1 overdue) ≤ 1)
    × (rest : Challenges) × Sorted (due_captchas 100 1 overdue ++ rest)
    × AllDue 100 (due_captchas 100 1 overdue ++ rest)
    × ((p : CaptchaRow → Bool)
        → count_if p (due_captchas 100 1 overdue ++ rest)
          ≡ count_if (λ r. p r && is_open r.state && leb r.deadline 100) overdue)
    × ((rest ≡ []) ⊎ (length (due_captchas 100 1 overdue) ≡ 1))
due_captchas-earliest_example = due_captchas-earliest 100 1 overdue

parse_captcha_data-captcha_data_example :
    parse_captcha_data (captcha_data group member 1) ≡ some (group, member, 1)
parse_captcha_data-captcha_data_example =
    parse_captcha_data-captcha_data group member 0 (omega arith) (omega arith) (omega arith)

-- No statement fails, Telegram does as it is told, and the program is alone.
abbrev calm : Env
calm = record {
  self_id = pos 1;
  default_text = hello;
  default_button = hello;
  created_at = λ id. 0;
  others = λ n. [];
  fails = λ n. false;
  clock = λ n. 100000000000;
  answers = λ n. Result.ok tt;
  sends = λ n. Result.ok (pos 7);
  config = λ n. some (record { chats = everywhere; captcha = block });
  chat_row = λ n chat. none;
  trust = λ n. record { meaningful_count = λ c u. 0; seen = λ c u. [] };
  incidents = λ n. empty;
  listed = λ n user. false;
  stopped = λ n. false;
}

abbrev still : World
still = record { table = []; events = []; ticks = 0; inflight = []; tasks = [] }

abbrev policy : CaptchaPolicy
policy = record {
  mode = CaptchaMode.button;
  timeout = pos 45000000000;
  on_fail = FailAction.keep_muted;
  text = hello;
  button_text = hello;
}

abbrev joined : JoinEvent
joined = record { chat_id = group; user_id = member; restricted = false }

abbrev day : List Activity
day =
    Activity.join joined hello
    ∷ Activity.task (Task.challenge_task joined 1 policy hello)
    ∷ Activity.press (record { id = "p"; data_ = captcha_data group member 1; presser_id = member })
    ∷ Activity.sweeping
    ∷ []

act_all-Advances_example :
    Advances
      (get_captcha group member still.table)
      (get_captcha group member (act_all calm day still).table)
    × Distinct (act_all calm day still).table
act_all-Advances_example = act_all-Advances calm (λ n. refl) day still group member tt

-- A dry-run incident of the member.
abbrev recorded : Row
recorded = record {
  id = 1;
  chat_id = group;
  message_id = pos 9;
  user_id = member;
  sender_chat_id = pos 0;
  state = IncidentState.pending;
  dry_run = true;
  decision = "";
  message_ids = [];
}

abbrev incident_db : Db
incident_db = record empty { incidents = recorded ∷ [] }

sanction_since-protects_example :
    ((not (claim_manual_override 1 incident_db).1.claimed
        || sanction_since (λ id. 120) group member 100 (claim_manual_override 1 incident_db).0)
      ≡ true)
    × (sanction_since (λ id. 120) group member 100 (mark_sanction_unknown 1 Action.mute incident_db)
        ≡ true)
unfolding find_where
sanction_since-protects_example =
    sanction_since-protects (λ id. 120) 1 incident_db recorded 100 Action.mute refl refl
