-- ===== src/Tests/Detectors.antt =====
-- The detectors on small inputs.
use telegram_antispam.Common.{
  ℕ, ◌≤◌, ℤ, pos, negsuc, same, le_id, same_iff, String, str_eq, true, false, List, [], ◌∷◌, ◌≡◌,
  ◌≢◌, refl, arith, ◌↔◌, ◌⊎◌, is_some,
}
use telegram_antispam.Domain.{user, external_channel, Sender}
use telegram_antispam.Detect.Message.{Message, NormalizedMessage, has_text}
use telegram_antispam.Detect.Identity.{
  ClassifyInput, classify_sender, classify_sender_iff, anon_admin_bot_id,
}
use telegram_antispam.Detect.Trust.{TrustTables, trust_count}
use telegram_antispam.Detect.Trust.Distinct.{
  Bump, bump_all, sent_by, new_ones, at_most, bump_all-counts_distinct,
}
use telegram_antispam.Detect.Levenshtein.{levenshtein_within}
use telegram_antispam.Detect.Levenshtein.Edits.{Edits}
use telegram_antispam.Detect.Levenshtein.Correct.{levenshtein_within_iff}
use telegram_antispam.Detect.FakeAdmin.{AdminIdentity, FakeAdminCfg, classify_fake_admin}
use telegram_antispam.Detect.FakeAdmin.Strength.{strength_of, classify_fake_admin-strength}
use telegram_antispam.Detect.History.{
  MemHistory, new_mem_history, record_and_count_dup, recent_short_count, prune, put,
}
use telegram_antispam.Detect.History.Windows.{
  Request, dup, short, sweep_all, answers, expected_all, answers-expected,
}
use telegram_antispam.Detect.Behavior.{
  History, BehaviorCfg, check_behavior, observe_behavior, dup_eligible, short_flood_eligible,
  check_short_flood,
}
use telegram_antispam.Detect.Behavior.Observation.{check_behavior-observe}
use telegram_antispam.Detect.Rules.{Rules, TextFunctions, check}
use telegram_antispam.Detect.Rules.Fires.{
  DeniedWord, DeniedWhole, BannedDomain, BannedDocument, Excessive, check-fires,
}

-- A channel that posts in a group which it does not belong to.
abbrev foreign_post : ClassifyInput
foreign_post = record {
  from_id = pos 136817688;
  is_bot = true;
  sender_chat_id = negsuc 700;
  chat_id = negsuc 100;
  linked_chat_id = pos 0;
  is_automatic_forward = false;
}

classify_sender_iff_example : (classify_sender foreign_post ≡ external_channel) ↔ (
    (negsuc 700 ≢ negsuc 100)
    × (pos 136817688 ≢ anon_admin_bot_id)
    × ((false ≡ false) ⊎ ((pos 0 ≢ pos 0) × (negsuc 700 ≢ pos 0))))
classify_sender_iff_example = classify_sender_iff foreign_post (λ e.
    let h = (same_iff (negsuc 700) (pos 0)).1 e in
    absurd (unfold same in let k : false ≡ true = h in cc))

abbrev bump : ℤ → String → Bump
bump u f = record { chat = negsuc 100; user = u; fingerprint = f }

-- Three messages of one member, one of them repeated, and one of another.
abbrev bumps : List Bump
bumps = bump (pos 42) "hi" ∷ bump (pos 7) "hi" ∷ bump (pos 42) "hi" ∷ bump (pos 42) "bye" ∷ []

abbrev no_rows : TrustTables
no_rows = record { meaningful_count = λ c u. 0; seen = λ c u. [] }

bump_all-counts_distinct_example :
    trust_count (negsuc 100) (pos 42) (bump_all 5 bumps no_rows)
    ≡ at_most 5 (new_ones [] (sent_by (negsuc 100) (pos 42) bumps))
bump_all-counts_distinct_example =
    bump_all-counts_distinct (negsuc 100) (pos 42) 5 bumps no_rows (omega arith)
      (refl, (refl, (refl, (refl, tt)))) refl refl

levenshtein_within_iff_example :
    (levenshtein_within (b'c' ∷ b'e' ∷ b'o' ∷ []) (b'c' ∷ b'f' ∷ b'o' ∷ []) 1 ≡ true)
    ↔ ((n : ℕ) × Edits n (b'c' ∷ b'e' ∷ b'o' ∷ []) (b'c' ∷ b'f' ∷ b'o' ∷ []) × (n ≤ 1))
levenshtein_within_iff_example =
    levenshtein_within_iff (b'c' ∷ b'e' ∷ b'o' ∷ []) (b'c' ∷ b'f' ∷ b'o' ∷ []) 1

abbrev pub member : Sender
member = record {
  kind = user;
  user_id = pos 42;
  sender_chat_id = pos 0;
  username = "alice_admin";
  display_name = "Bob";
}

abbrev pub message : Message
message = record {
  chat_id = negsuc 100;
  message_id = pos 7;
  thread_id = pos 0;
  sender = member;
  text = "ok";
  sender_tag = "";
  media_kinds = [];
  has_keyboard = false;
  via_bot = false;
}

abbrev pub admin : AdminIdentity
admin = record {
  user_id = pos 1;
  username = "alice_admim";
  display_name = "Alice";
  custom_title = "";
}

abbrev pub fake_admin_cfg : FakeAdminCfg
fake_admin_cfg = record {
  enabled = true;
  suspicious_tags = [];
  max_distance = 1;
  name_match_sanction = false;
  min_fuzzy_len = 5;
}

classify_fake_admin-strength_example :
    (classify_fake_admin (λ s. s) (λ n. "1") message (admin ∷ []) fake_admin_cfg).1
    ≡ strength_of (λ s. s) (λ n. "1") fake_admin_cfg message (admin ∷ [])
classify_fake_admin-strength_example =
    classify_fake_admin-strength (λ s. s) (λ n. "1") fake_admin_cfg message (admin ∷ [])

-- Two equal messages within the window, a sweep, and a third one after the window.
abbrev requests : List Request
requests =
    dup (negsuc 100) (pos 42) "a" 10
    ∷ dup (negsuc 100) (pos 42) "a" 20
    ∷ short (negsuc 100) (pos 42) 20
    ∷ sweep_all 60 50
    ∷ dup (negsuc 100) (pos 42) "a" 60
    ∷ []

answers-expected_example : answers 30 30 requests new_mem_history ≡ expected_all 30 30 [] requests
answers-expected_example = answers-expected 30 30 requests (
  omega arith,
  tt,
  (
    omega arith,
    tt,
    (omega arith, tt, (omega arith, (omega arith, omega arith), (omega arith, tt, tt))),
  ),
)

abbrev pub windows : History MemHistory
windows = record {
  record_and_count_dup = λ c u t w s. record_and_count_dup c u t w 100 s;
  recent_short_count = λ c u w s. recent_short_count c u w 100 s;
}

abbrev pub behavior_cfg : BehaviorCfg
behavior_cfg = record {
  dup_threshold = 3;
  dup_window = 30;
  short_len = pos 10;
  short_flood_threshold = 5;
  short_window = 30;
  flag_edits = false;
}

abbrev pub normalized : NormalizedMessage
normalized = record {
  text = "ok";
  links = "bit.ly/x" ∷ [];
  mentions = [];
  has_custom_emoji = false;
  sender_tag_norm = "";
  raw_len = 2;
  has_own_text = true;
  own_len = 2;
  link_count = 1;
  mention_count = 0;
  emoji_count = 0;
  media_kinds = [];
  document_extensions = [];
  document_mime_types = [];
  forwarded = false;
  forwarded_from_chat = false;
  has_keyboard = false;
  via_bot = false;
}

check_behavior-observe_example :
    (check_behavior windows
      (λ s. s)
      (λ n. "n")
      (negsuc 100)
      (pos 42)
      normalized
      true
      false
      behavior_cfg
      new_mem_history).0
    ≡ observe_behavior windows
        (λ s. s)
        (λ n. "n")
        (negsuc 100)
        (pos 42)
        normalized
        behavior_cfg
        new_mem_history
unfolding check_behavior dup_eligible short_flood_eligible check_short_flood record_and_count_dup
    recent_short_count has_text prune put same le_id
check_behavior-observe_example =
    check_behavior-observe windows (λ s. s) (λ n. "n") (negsuc 100) (pos 42) normalized true false
      behavior_cfg new_mem_history refl

abbrev pub rules : Rules
rules = record {
  deny_stopwords = "casino" ∷ [];
  allow_stopwords = [];
  deny_exact = "ok" ∷ [];
  block_links_for_untrusted = true;
  allow_google_maps_links = false;
  banned_domains = [];
  banned_document_extensions = ".apk" ∷ [];
  banned_document_mime_types = [];
  max_links = 2;
  max_mentions = 0;
  max_emoji = 0;
}

abbrev pub functions : TextFunctions
functions = record {
  contains = str_eq;
  to_lower = λ s. s;
  trim_space = λ s. s;
  deobfuscate = λ s. s;
  extract_host = λ s. s;
  allowed_google_maps_url = λ s. false;
  canonical_document_extension = λ s. s;
  canonical_mime_type = λ s. s;
  count_and_limit = λ n m. "over";
}

check-fires_example : (is_some (check functions rules normalized true) ≡ true) ↔ (
    (((DeniedWord functions rules normalized ⊎ DeniedWhole functions rules normalized)
        ⊎ BannedDomain functions rules normalized)
      ⊎ BannedDocument functions rules normalized)
    ⊎ ((true ≡ false) × Excessive functions rules normalized))
check-fires_example = check-fires functions rules normalized true
