-- ===== src/Detect/Cascade/Grounds.antt =====
-- What an actionable decision of Decide rests on.
use telegram_antispam.Common.{
  Bool, true, false, ◌&&◌, not, if◌then◌else◌, Option, none, some, List, ◌≡◌, refl, Bool-cases,
  Option-cases, inl, inr, arith, ◌⊎◌,
}
use telegram_antispam.Domain.{Verdict, Signal, none_action}
use telegram_antispam.Detect.Message.{Message}
use telegram_antispam.Detect.Behavior.{check_behavior}
use telegram_antispam.Detect.FakeAdmin.{
  AdminIdentity, FakeAdminStrength, strong, name_only, no_match, classify_fake_admin,
}
use telegram_antispam.Detect.Cascade.{
  Floats, CascadeCfg, Sources, BayesScore, scored, unreadable, is_current_admin, named, decide,
  admin_answer, stages, actionable, trusts, is_listed, bayes_stage, behavior_stage, strong_signal,
  after_behavior, fake_admin_hit,
}

strong_signal_lem :
    (r : Signal × FakeAdminStrength) (sig : Signal) → strong_signal r ≡ some sig → r ≡ (sig, strong)
strong_signal_lem (x, strong) sig h = cc
strong_signal_lem (x, name_only) sig h = absurd cc
strong_signal_lem (x, no_match) sig h = absurd cc

module _ {F S : Type 0} (floats : Floats F) (cfg : CascadeCfg F) (src : Sources F S) where
  -- A detector that fired, with its signal; for those that spare a trusted member, with that.
  pub data Grounds (m : Message) (admins : List AdminIdentity) (edited : Bool) (s : S)
      : Signal → Type 0 where
    listed :
        is_listed floats cfg src src.blocklist m.sender.user_id ≡ true
        → Grounds m admins edited s (named "blocklist" "")
    ruled :
        {sig : Signal}
        → src.check_rules (src.normalize m) (trusts floats cfg src m) ≡ some sig
        → Grounds m admins edited s sig
    imitates :
        {sig : Signal}
        → trusts floats cfg src m ≡ false
        → classify_fake_admin src.to_lower src.decimal_id m admins cfg.fake_admin ≡ (sig, strong)
        → Grounds m admins edited s sig
    behaves :
        {sig : Signal}
        → (check_behavior src.history src.dup_hash src.decimal m.chat_id m.sender.user_id
            (src.normalize m)
            edited
            (trusts floats cfg src m)
            cfg.behavior
            s).1
          ≡ some sig
        → Grounds m admins edited s sig
    scores :
        {ratio : F}
        → trusts floats cfg src m ≡ false
        → cfg.bayes_enabled ≡ true
        → src.bayes_score m.chat_id (src.normalize m) ≡ scored ratio true
        → floats.at_least ratio cfg.bayes_threshold ≡ true
        → Grounds m admins edited s (named "bayes" (floats.show ratio cfg.bayes_threshold))

  -- Either nothing is to be done, or the verdict is the configured one for a detector that fired.
  abbrev pub Justified : Message → List AdminIdentity → Bool → S → Verdict × Bool → Type 0
  Justified m admins edited s (v, acts) =
      ((acts ≡ false) × (v.action ≡ none_action))
      ⊎ ((sig : Signal) × Grounds m admins edited s sig
          × (v ≡ actionable floats cfg src sig)
          × (acts ≡ true))

  idle_if :
      (b : Bool) (r r' : Verdict × Bool)
      → (r.1 ≡ false) × (r.0.action ≡ none_action)
      → (r'.1 ≡ false) × (r'.0.action ≡ none_action)
      → ((if b then r else r').1 ≡ false) × ((if b then r else r').0.action ≡ none_action)
  idle_if true r r' h h' = h
  idle_if false r r' h h' = h'

  bayes_stage-Justified :
      (m : Message) (admins : List AdminIdentity) (edited : Bool) (s : S)
      → trusts floats cfg src m ≡ false
      → cfg.bayes_enabled ≡ true
      → (b : BayesScore F) → src.bayes_score m.chat_id (src.normalize m) ≡ b
      → Justified m admins edited s (bayes_stage floats cfg src (src.normalize m) b)
  unfolding bayes_stage
  bayes_stage-Justified m admins edited s t on unreadable e = inl (refl, refl)
  bayes_stage-Justified m admins edited s t on (scored ratio true) e =
      elim (Bool-cases (floats.at_least ratio cfg.bayes_threshold)) [
        | inl spam ↦ rw spam (inr (_, scores t on e spam, refl, refl))
        | inr below ↦ rw below (inl (idle_if _ _ _ (refl, refl) (refl, refl)))
      ]
  bayes_stage-Justified m admins edited s t on (scored ratio false) e =
      inl (idle_if _ _ _ (refl, refl) (refl, refl))

  after_behavior-Justified :
      (m : Message) (admins : List AdminIdentity) (edited : Bool) (s s' : S) (hit : Option Signal)
      → (check_behavior src.history src.dup_hash src.decimal m.chat_id m.sender.user_id
          (src.normalize m)
          edited
          (trusts floats cfg src m)
          cfg.behavior
          s).1
        ≡ hit
      → Justified m admins edited s (
          let r =
            after_behavior floats cfg src m (src.normalize m) (trusts floats cfg src m) s' hit in
          (r.1, r.2))
  unfolding after_behavior
  after_behavior-Justified m admins edited s s' (some sig) e = inr (sig, behaves e, refl, refl)
  after_behavior-Justified m admins edited s s' none e =
      elim (Bool-cases (cfg.bayes_enabled && not (trusts floats cfg src m))) [
        | inr off ↦ rw off (inl (refl, refl))
        | inl on ↦
            let on' : cfg.bayes_enabled ≡ true = ground arith in
            let t : trusts floats cfg src m ≡ false = ground arith in
            rw on (bayes_stage-Justified m admins edited s t on' _ refl)
      ]

  strong-hit :
      (m : Message) (admins : List AdminIdentity) (trusted : Bool) (sig : Signal)
      → fake_admin_hit floats cfg src m admins trusted ≡ some sig
      → (trusted ≡ false)
        × (classify_fake_admin src.to_lower src.decimal_id m admins cfg.fake_admin ≡ (sig, strong))
  strong-hit m admins trusted sig h = elim (Bool-cases (cfg.fake_admin.enabled && not trusted)) [
    | inr off ↦ absurd (let k : none ≡ some sig = rw off at h in cc)
    | inl on ↦ (ground arith, strong_signal_lem _ sig (rw on at h))
  ]

  stages-Justified :
      (m : Message) (admins : List AdminIdentity) (edited : Bool) (s : S)
      → Justified m admins edited s (let r = stages floats cfg src m admins edited s in (r.1, r.2))
  unfolding stages behavior_stage
  stages-Justified m admins edited s =
      elim (Bool-cases (is_listed floats cfg src src.blocklist m.sender.user_id)) [
        | inl hit ↦ rw hit (inr (_, listed hit, refl, refl))
        | inr unlisted ↦
            elim (Option-cases (src.check_rules (src.normalize m) (trusts floats cfg src m))) [
              | inr (sig, hit) ↦ rw (unlisted, hit) (inr (sig, ruled hit, refl, refl))
              | inl miss ↦
                  elim (Option-cases
                    (fake_admin_hit floats cfg src m admins (trusts floats cfg src m))) [
                      | inr (sig, hit) ↦
                          let (t, e) = strong-hit m admins _ sig hit in
                          rw (unlisted, miss, hit) (inr (sig, imitates t e, refl, refl))
                      | inl other ↦
                          rw (unlisted, miss, other)
                            (after_behavior-Justified m admins edited s _ _ refl)
                    ]
            ]
      ]

  -- Decide on any message: it either does nothing, or the list of administrators came without an error and
  -- does not name the sender, a detector fired, and the verdict is the configured action with that detector's
  -- signal. A trusted sender answers only for the blocklist, the rules and the behavior, never for a name
  -- that resembles an administrator's nor for a Bayes score.
  pub decide-Justified :
      (m : Message) (edited : Bool) (s : S)
      → let (admins, failure) = admin_answer floats cfg src src.admins m.chat_id in
        let (s', v, acts) = decide floats cfg src m edited s in
        ((acts ≡ false) × (v.action ≡ none_action))
        ⊎ ((failure ≡ none)
            × (is_current_admin admins m.sender.user_id ≡ false)
            × (sig : Signal) × Grounds m admins edited s sig
            × (v ≡ actionable floats cfg src sig)
            × (acts ≡ true))
  unfolding decide
  decide-Justified m edited s =
      elim (Bool-cases
        (is_current_admin (admin_answer floats cfg src src.admins m.chat_id).0 m.sender.user_id)) [
          | inl admin ↦ rw admin (inl (refl, refl))
          | inr member ↦ elim (Option-cases (admin_answer floats cfg src src.admins m.chat_id).1) [
            | inr (message, e) ↦ rw (member, e) (inl (refl, refl))
            | inl e ↦
                elim (stages-Justified m (admin_answer floats cfg src src.admins m.chat_id).0 edited
                  s) [
                    | inl idle ↦ rw (member, e) (inl idle)
                    | inr (sig, g, v, acts) ↦ rw (member, e) (inr (refl, refl, sig, g, v, acts))
                  ]
          ]
        ]
