-- ===== src/Detect/Cascade.antt =====
-- internal/detect/cascade.go: the order of the detectors. What the cascade is given stands in two
-- records: its configuration, and the sources and detectors that it calls. Floating-point numbers are
-- a parameter with the tests on them that the cascade makes.
pub mod Windows
pub mod Grounds
pub mod Review
use telegram_antispam.Common.{
  ℕ, ltb, leb, ℤ, pos, same, String, Bool, true, false, ◌&&◌, ◌||◌, not, if◌then◌else◌, Option,
  none, some, List, [], ◌∷◌, ◌++◌, any, is_empty,
}
use telegram_antispam.Domain.{Action, none_action, quarantine, other, Scope, unset, Signal, Verdict}
use telegram_antispam.Detect.Message.{Message, NormalizedMessage, has_text}
use telegram_antispam.Detect.Trust.{is_trusted}
use telegram_antispam.Detect.Behavior.{History, BehaviorCfg, observe_behavior, check_behavior}
use telegram_antispam.Detect.FakeAdmin.{
  AdminIdentity, FakeAdminCfg, FakeAdminStrength, no_match, name_only, strong, classify_fake_admin,
}

-- What bayesScore returns: an error, or the ratio and whether there was anything to score.
pub data BayesScore (F : Type 0) : Type 0 where
  unreadable : BayesScore F
  scored : F → Bool → BayesScore F

-- The tests on float64: `>=`, `> 0`, and whether threshold - ratio <= band.
pub record Floats (F : Type 0) : Type 0 where
  pub at_least : F → F → Bool
  pub is_positive : F → Bool
  pub within_band : F → F → F → Bool
  pub show : F → F → String

-- type Cascade: its configuration
pub record CascadeCfg (F : Type 0) : Type 0 where
  pub behavior : BehaviorCfg
  pub trust_threshold : ℤ
  pub default_action : Action
  pub default_scope : Scope
  pub bayes_enabled : Bool
  pub bayes_threshold : F
  pub bayes_borderline_band : F
  pub bayes_always_borderline : Bool
  pub fake_admin : FakeAdminCfg
  pub blocklist_enabled : Bool
  pub caption_min_len : ℕ
  pub review_keyboard : Bool

-- type Cascade: what it calls. An answer about administrators is a list, which may come with an error.
pub record Sources (F S : Type 0) : Type 0 where
  pub normalize : Message → NormalizedMessage
  pub trust_count : ℤ → ℤ → Option ℕ
  pub history : History S
  pub check_rules : NormalizedMessage → Bool → Option Signal
  pub admins : Option (ℤ → List AdminIdentity × Option String)
  pub blocklist : Option (ℤ → Bool)
  pub bayes_score : ℤ → NormalizedMessage → BayesScore F
  pub to_lower : String → String
  pub dup_hash : String → String
  pub decimal : ℕ → String
  pub decimal_id : ℤ → String
  pub show_kinds : List String → ℕ → String

-- isCurrentAdmin
unfoldable pub is_current_admin : List AdminIdentity → ℤ → Bool
is_current_admin admins user =
    if same user (pos 0) then false else any (λ a. same a.user_id user) admins

abbrev pub reason_admin_lookup_unavailable : String
reason_admin_lookup_unavailable = "admin_lookup_unavailable"

-- Verdict{Action: ActionNone} with these signals and this reason
abbrev pub pass : List Signal → String → Verdict
pass signals reason = record {
  action = none_action;
  scope = unset;
  confidence = 0;
  signals = signals;
  reason = reason;
  review_only = false;
}

-- Verdict{}
abbrev pub zero_verdict : Verdict
zero_verdict = record (pass [] "") { action = other "" }

abbrev pub named : String → String → Signal
named name detail = record { name = name; detail = detail }

abbrev pub strong_signal : Signal × FakeAdminStrength → Option Signal
strong_signal (sig, strong) = some sig
strong_signal (sig, _) = none

abbrev pub weak_signal : Signal × FakeAdminStrength → Option Signal
weak_signal (sig, name_only) = some sig
weak_signal (sig, _) = none

module _ {F S : Type 0} (floats : Floats F) (cfg : CascadeCfg F) (src : Sources F S) where
  -- Cascade.actionable
  abbrev pub actionable : Signal → Verdict
  actionable sig = record {
    action = cfg.default_action;
    scope = cfg.default_scope;
    confidence = 100;
    signals = sig ∷ [];
    reason = sig.name;
    review_only = false;
  }

  -- Cascade.review
  abbrev pub review : Signal → Verdict
  review sig = record {
    action = quarantine;
    scope = cfg.default_scope;
    confidence = 0;
    signals = sig ∷ [];
    reason = sig.name;
    review_only = true;
  }

  -- IsTrusted of the sender
  abbrev pub trusts : Message → Bool
  trusts m = is_trusted (src.trust_count m.chat_id m.sender.user_id) cfg.trust_threshold

  -- c.Admins.AdminIdentities, or no list and no error where there is no source
  abbrev pub admin_answer :
      Option (ℤ → List AdminIdentity × Option String) → ℤ → List AdminIdentity × Option String
  admin_answer none chat = ([], none)
  admin_answer (some f) chat = f chat

  abbrev pub is_listed : Option (ℤ → Bool) → ℤ → Bool
  is_listed none user = false
  is_listed (some listed) user = cfg.blocklist_enabled && listed user

  -- The Bayes stage of Decide.
  unfoldable pub bayes_stage : NormalizedMessage → BayesScore F → Verdict × Bool
  bayes_stage n unreadable = (pass [] "", false)
  bayes_stage n (scored ratio true) =
      let detail = floats.show ratio cfg.bayes_threshold in
      if floats.at_least ratio cfg.bayes_threshold
      then (actionable (named "bayes" detail), true)
      else if cfg.bayes_always_borderline
          || (floats.is_positive cfg.bayes_borderline_band
              && floats.within_band cfg.bayes_threshold ratio cfg.bayes_borderline_band)
      then (pass (named "bayes_borderline" detail ∷ []) "", false)
      else (pass (named "bayes_pass" detail ∷ []) "", false)
  bayes_stage n (scored ratio false) =
      if floats.is_positive cfg.bayes_borderline_band && has_text n.text
      then (pass (named "bayes_borderline" "" ∷ []) "", false)
      else (pass [] "", false)

  -- Decide from CheckBehavior's answer on, with the windows that it left.
  unfoldable pub after_behavior :
      Message → NormalizedMessage → Bool → S → Option Signal → S × Verdict × Bool
  unfolding bayes_stage
  after_behavior m n trusted s (some sig) = (s, actionable sig, true)
  after_behavior m n trusted s none =
      let (v, acts) =
        if cfg.bayes_enabled && not trusted
        then bayes_stage n (src.bayes_score m.chat_id n)
        else (pass [] "", false) in
      (s, v, acts)

  -- Decide from CheckBehavior on.
  unfoldable pub behavior_stage : Message → NormalizedMessage → Bool → Bool → S → S × Verdict × Bool
  unfolding check_behavior after_behavior
  behavior_stage m n edited trusted s =
      let (s', hit) =
        check_behavior src.history src.dup_hash src.decimal m.chat_id m.sender.user_id n edited
          trusted cfg.behavior s in
      after_behavior m n trusted s' hit

  -- The stage of the impersonators: the signal of a strong match.
  abbrev pub fake_admin_hit : Message → List AdminIdentity → Bool → Option Signal
  fake_admin_hit m admins trusted =
      if cfg.fake_admin.enabled && not trusted
      then strong_signal (classify_fake_admin src.to_lower src.decimal_id m admins cfg.fake_admin)
      else none

  -- Decide from IsTrusted on.
  unfoldable pub stages : Message → List AdminIdentity → Bool → S → S × Verdict × Bool
  unfolding behavior_stage classify_fake_admin
  stages m admins edited s =
      let n = src.normalize m in
      let trusted = trusts m in
      if is_listed src.blocklist m.sender.user_id
      then (s, actionable (named "blocklist" ""), true)
      else elim (src.check_rules n trusted) [
        | some sig ↦ (s, actionable sig, true)
        | none ↦ elim (fake_admin_hit m admins trusted) [
          | some sig ↦ (s, actionable sig, true)
          | none ↦ behavior_stage m n edited trusted s
        ]
      ]

  -- Cascade.Decide, with the state of the windows
  unfoldable pub decide : Message → Bool → S → S × Verdict × Bool
  unfolding stages is_current_admin observe_behavior
  decide m edited s =
      let (admins, failure) = admin_answer src.admins m.chat_id in
      if is_current_admin admins m.sender.user_id then (s, pass [] "", false) else elim failure [
        | some message ↦ (
          observe_behavior src.history src.dup_hash src.decimal m.chat_id m.sender.user_id
              (src.normalize m) cfg.behavior s,
          pass (named reason_admin_lookup_unavailable message ∷ []) reason_admin_lookup_unavailable,
          false,
        )
        | none ↦ stages m admins edited s
      ]

  -- Cascade.reviewSignal
  unfoldable pub review_signal : NormalizedMessage → Option Signal
  review_signal n =
      if not (is_empty n.media_kinds) && ltb n.raw_len cfg.caption_min_len
      then some (named "captionless_media" (src.show_kinds n.media_kinds n.raw_len))
      else if cfg.review_keyboard && n.has_keyboard && not n.via_bot
      then some (named "bot_keyboard" "")
      else none

  abbrev pub to_list : Option Signal → List Signal
  to_list none = []
  to_list (some sig) = sig ∷ []

  abbrev pub review_of : List Signal → Verdict × Bool
  review_of [] = (zero_verdict, false)
  review_of (sig ∷ sigs) = (record (review sig) { signals = sig ∷ sigs }, true)

  -- The second half of ReviewCandidate: the administrators' names.
  abbrev pub name_signal : Message → List AdminIdentity → List Signal
  name_signal m admins =
      to_list
        (weak_signal (classify_fake_admin src.to_lower src.decimal_id m admins cfg.fake_admin))

  abbrev pub is_failure : Option String → Bool
  is_failure none = false
  is_failure (some message) = true

  -- ReviewCandidate from the administrators on, with the signals found before.
  unfoldable pub review_unless_admin :
      Message → List Signal → Option (ℤ → List AdminIdentity × Option String) → Verdict × Bool
  unfolding classify_fake_admin is_current_admin
  review_unless_admin m signals none = review_of signals
  review_unless_admin m signals (some f) =
      let (admins, failure) = f m.chat_id in
      if is_failure failure || is_current_admin admins m.sender.user_id
      then (zero_verdict, false)
      else review_of (signals ++ name_signal m admins)

  -- Cascade.ReviewCandidate
  unfoldable pub review_candidate : Message → Verdict × Bool
  unfolding review_signal review_unless_admin
  review_candidate m =
      if leb cfg.caption_min_len 0 && not cfg.review_keyboard && not cfg.fake_admin.enabled
      then (zero_verdict, false)
      else if trusts m
      then (zero_verdict, false)
      else review_unless_admin m (to_list (review_signal (src.normalize m))) src.admins
