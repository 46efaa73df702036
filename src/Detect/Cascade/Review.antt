-- ===== src/Detect/Cascade/Review.antt =====
-- When ReviewCandidate asks for a human look.
use telegram_antispam.Common.{
  leb, ℤ, String, true, false, ◌&&◌, ◌||◌, not, Option, none, some, List, [], ◌∷◌, ◌≡◌, refl,
  Bool-cases, inl, inr, arith,
}
use telegram_antispam.Domain.{Verdict, Signal, quarantine}
use telegram_antispam.Detect.Message.{Message}
use telegram_antispam.Detect.FakeAdmin.{AdminIdentity}
use telegram_antispam.Detect.Cascade.{
  Floats, CascadeCfg, Sources, is_current_admin, admin_answer, trusts, review_of, review_candidate,
  review_unless_admin, is_failure,
}

module _ {F S : Type 0} (floats : Floats F) (cfg : CascadeCfg F) (src : Sources F S) where
  -- A verdict that asks and never sanctions.
  pub record AsksOnly (v : Verdict) : Type 0 where
    pub quarantines : v.action ≡ quarantine
    pub review_only : v.review_only ≡ true
    pub unsure : v.confidence ≡ 0

  -- What must hold of a message before a moderator is asked about it.
  pub record Reviewable (m : Message) : Type 0 where
    pub untrusted : trusts floats cfg src m ≡ false
    pub resolved :
        is_failure floats cfg src (admin_answer floats cfg src src.admins m.chat_id).1 ≡ false
    pub member :
        is_current_admin (admin_answer floats cfg src src.admins m.chat_id).0 m.sender.user_id
        ≡ false

  review_of-AsksOnly :
      (sigs : List Signal)
      → (review_of floats cfg src sigs).1 ≡ true
      → AsksOnly (review_of floats cfg src sigs).0
  review_of-AsksOnly [] h = absurd (let k : false ≡ true = h in cc)
  review_of-AsksOnly (sig ∷ sigs) h = record {
    quarantines = refl;
    review_only = refl;
    unsure = refl;
  }

  review_unless_admin-member :
      (m : Message) (sigs : List Signal) (o : Option (ℤ → List AdminIdentity × Option String))
      → (review_unless_admin floats cfg src m sigs o).1 ≡ true
      → (is_failure floats cfg src (admin_answer floats cfg src o m.chat_id).1 ≡ false)
        × (is_current_admin (admin_answer floats cfg src o m.chat_id).0 m.sender.user_id ≡ false)
        × AsksOnly (review_unless_admin floats cfg src m sigs o).0
  unfolding review_unless_admin is_current_admin
  review_unless_admin-member m sigs none h = (refl, ground arith, review_of-AsksOnly sigs h)
  review_unless_admin-member m sigs (some f) h =
      elim (Bool-cases (
        is_failure floats cfg src (f m.chat_id).1
        || is_current_admin (f m.chat_id).0 m.sender.user_id)) [
          | inl barred ↦ absurd (let k : false ≡ true = rw barred at h in cc)
          | inr fine ↦ (ground arith, ground arith, rw fine (review_of-AsksOnly _ (rw fine at h)))
        ]

  -- ReviewCandidate on any message that it takes up: the sender is not trusted, the administrators could be
  -- looked up and the sender is none of them; and the verdict is a quarantine for review at confidence 0.
  pub review_candidate-AsksOnly :
      (m : Message)
      → (review_candidate floats cfg src m).1 ≡ true
      → Reviewable m × AsksOnly (review_candidate floats cfg src m).0
  unfolding review_candidate
  review_candidate-AsksOnly m h =
      elim (Bool-cases
        (leb cfg.caption_min_len 0 && not cfg.review_keyboard && not cfg.fake_admin.enabled)) [
          | inl off ↦ absurd (let k : false ≡ true = rw off at h in cc)
          | inr on ↦ elim (Bool-cases (trusts floats cfg src m)) [
            | inl t ↦ absurd (let k : false ≡ true = rw (on, t) at h in cc)
            | inr t ↦
                let (r, n, asks) = review_unless_admin-member m _ src.admins (rw (on, t) at h) in
                rw (on, t) (record { untrusted = t; resolved = r; member = n }, asks)
          ]
        ]
