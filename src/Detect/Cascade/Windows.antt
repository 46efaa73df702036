-- ===== src/Detect/Cascade/Windows.antt =====
-- What Decide leaves of the behavioral windows.
use telegram_antispam.Common.{
  Bool, true, false, Option, none, some, List, ◌≡◌, refl, ◌∙◌, Bool-cases, Option-cases, inl, inr,
}
use telegram_antispam.Domain.{Signal}
use telegram_antispam.Detect.Message.{Message, NormalizedMessage}
use telegram_antispam.Detect.Behavior.{observe_behavior, check_behavior}
use telegram_antispam.Detect.Behavior.Observation.{check_behavior-observe}
use telegram_antispam.Detect.FakeAdmin.{AdminIdentity}
use telegram_antispam.Detect.Cascade.{
  Floats, CascadeCfg, Sources, is_current_admin, decide, admin_answer, stages, behavior_stage,
  after_behavior, fake_admin_hit, trusts, is_listed,
}

module _ {F S : Type 0} (floats : Floats F) (cfg : CascadeCfg F) (src : Sources F S) where
  abbrev pub observed : Message → S → S
  observed m s =
      observe_behavior src.history src.dup_hash src.decimal m.chat_id m.sender.user_id
        (src.normalize m) cfg.behavior s

  abbrev checked : Message → Bool → Bool → S → S × Option Signal
  checked m edited trusted s =
      check_behavior src.history src.dup_hash src.decimal m.chat_id m.sender.user_id
        (src.normalize m) edited trusted cfg.behavior s

  after_behavior-idle :
      (m : Message) (n : NormalizedMessage) (trusted : Bool) (s : S) (hit : Option Signal)
      → (after_behavior floats cfg src m n trusted s hit).2 ≡ false
      → (hit ≡ none) × ((after_behavior floats cfg src m n trusted s hit).0 ≡ s)
  unfolding after_behavior
  after_behavior-idle m n trusted s none h = (refl, refl)
  after_behavior-idle m n trusted s (some sig) h = absurd (let k : true ≡ false = h in cc)

  behavior_stage-observes :
      (m : Message) (edited trusted : Bool) (s : S)
      → (behavior_stage floats cfg src m (src.normalize m) edited trusted s).2 ≡ false
      → (behavior_stage floats cfg src m (src.normalize m) edited trusted s).0 ≡ observed m s
  unfolding behavior_stage
  behavior_stage-observes m edited trusted s h =
      let (miss, same_windows) =
        after_behavior-idle m (src.normalize m) trusted (checked m edited trusted s).0
          (checked m edited trusted s).1 h in
      same_windows
      ∙ check_behavior-observe src.history src.dup_hash src.decimal m.chat_id m.sender.user_id
          (src.normalize m) edited trusted cfg.behavior s (rw miss refl)

  stages-observes :
      (m : Message) (admins : List AdminIdentity) (edited : Bool) (s : S)
      → (stages floats cfg src m admins edited s).2 ≡ false
      → (stages floats cfg src m admins edited s).0 ≡ observed m s
  unfolding stages
  stages-observes m admins edited s h =
      elim (Bool-cases (is_listed floats cfg src src.blocklist m.sender.user_id)) [
        | inl listed ↦ absurd (let k : true ≡ false = rw listed at h in cc)
        | inr unlisted ↦
            elim (Option-cases (src.check_rules (src.normalize m) (trusts floats cfg src m))) [
              | inr (sig, hit) ↦ absurd (let k : true ≡ false = rw (unlisted, hit) at h in cc)
              | inl miss ↦
                  elim (Option-cases
                    (fake_admin_hit floats cfg src m admins (trusts floats cfg src m))) [
                      | inr (sig, hit) ↦
                          absurd (let k : true ≡ false = rw (unlisted, miss, hit) at h in cc)
                      | inl other ↦
                          rw (unlisted, miss, other)
                            (behavior_stage-observes m edited _ s (rw (unlisted, miss, other) at h))
                    ]
            ]
      ]

  -- Decide on any message that it does not act on and whose sender is not on the list of administrators: the
  -- behavioral windows are left as ObserveBehavior leaves them. So every message that is let through is
  -- counted, edited or not, trusted sender or not, and also while the administrators cannot be looked up.
  pub decide-observes :
      (m : Message) (edited : Bool) (s : S)
      → is_current_admin (admin_answer floats cfg src src.admins m.chat_id).0 m.sender.user_id
        ≡ false
      → (decide floats cfg src m edited s).2 ≡ false
      → (decide floats cfg src m edited s).0 ≡ observed m s
  unfolding decide
  decide-observes m edited s member idle =
      elim (Option-cases (admin_answer floats cfg src src.admins m.chat_id).1) [
        | inr (message, e) ↦ rw (member, e) refl
        | inl e ↦ rw (member, e) (stages-observes m _ edited s (rw (member, e) at idle))
      ]
