-- ===== src/Tests/Decisions.antt =====
-- The cascade on a small deployment: one administrator, no blocklist, the rules and windows of the other tests.
use telegram_antispam.Common.{
  ℕ, ◌+◌, leb, pos, same, String, true, false, [], ◌∷◌, Option, none, some, ◌≡◌, refl, ◌⊎◌,
}
use telegram_antispam.Domain.{none_action, delete_mute, global, Signal}
use telegram_antispam.Detect.FakeAdmin.{classify_fake_admin}
use telegram_antispam.Detect.History.{MemHistory, new_mem_history}
use telegram_antispam.Detect.Rules.{check}
use telegram_antispam.Detect.Trust.{is_trusted}
use telegram_antispam.Detect.Cascade.{
  Floats, CascadeCfg, Sources, scored, decide, review_candidate, review_signal, review_unless_admin,
  is_current_admin, admin_answer, actionable,
}
use telegram_antispam.Detect.Cascade.Grounds.{Grounds, decide-Justified}
use telegram_antispam.Detect.Cascade.Windows.{observed, decide-observes}
use telegram_antispam.Detect.Cascade.Review.{Reviewable, AsksOnly, review_candidate-AsksOnly}
use telegram_antispam.Tests.Detectors.{
  message, admin, fake_admin_cfg, windows, behavior_cfg, normalized, rules, functions,
}

-- Ratios are whole numbers here.
abbrev floats : Floats ℕ
floats = record {
  at_least = λ a b. leb b a;
  is_positive = λ a. leb 1 a;
  within_band = λ t r b. leb t (r + b);
  show = λ a b. "ratio";
}

abbrev cfg : CascadeCfg ℕ
cfg = record {
  behavior = behavior_cfg;
  trust_threshold = pos 5;
  default_action = delete_mute;
  default_scope = global;
  bayes_enabled = true;
  bayes_threshold = 4;
  bayes_borderline_band = 1;
  bayes_always_borderline = false;
  fake_admin = fake_admin_cfg;
  blocklist_enabled = false;
  caption_min_len = 0;
  review_keyboard = true;
}

-- The administrators come from the cache, with the error of a failed refresh or without.
abbrev sources : Option String → Sources ℕ MemHistory
sources failure = record {
  normalize = λ m. record normalized { links = []; text = m.text; has_keyboard = true };
  trust_count = λ c u. some 0;
  history = windows;
  check_rules = check functions rules;
  admins = some (λ c. (record admin { username = "boss" } ∷ [], failure));
  blocklist = none;
  bayes_score = λ c n. scored 1 true;
  to_lower = λ s. s;
  dup_hash = λ s. s;
  decimal = λ n. "n";
  decimal_id = λ n. "1";
  show_kinds = λ ks n. "kinds";
}

decide-Justified_example :
    let (admins, failure) =
      admin_answer floats cfg (sources none) (sources none).admins message.chat_id in
    let (s', v, acts) = decide floats cfg (sources none) message false new_mem_history in
    ((acts ≡ false) × (v.action ≡ none_action))
    ⊎ ((failure ≡ none)
        × (is_current_admin admins message.sender.user_id ≡ false)
        × (sig : Signal) × Grounds floats cfg
            (sources none)
            message
            admins
            false
            new_mem_history
            sig
        × (v ≡ actionable floats cfg (sources none) sig)
        × (acts ≡ true))
decide-Justified_example = decide-Justified floats cfg (sources none) message false new_mem_history

decide-observes_example :
    (decide floats cfg (sources (some "timeout")) message true new_mem_history).0
    ≡ observed floats cfg (sources (some "timeout")) message new_mem_history
unfolding decide is_current_admin same
decide-observes_example =
    decide-observes floats cfg (sources (some "timeout")) message true new_mem_history refl refl

review_candidate-AsksOnly_example :
    Reviewable floats cfg (sources none) message
    × AsksOnly floats cfg (sources none) (review_candidate floats cfg (sources none) message).0
unfolding review_candidate review_signal review_unless_admin is_current_admin same is_trusted
    classify_fake_admin
review_candidate-AsksOnly_example = review_candidate-AsksOnly floats cfg (sources none) message refl
