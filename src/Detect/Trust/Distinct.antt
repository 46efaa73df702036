-- ===== src/Detect/Trust/Distinct.antt =====
-- What the count of BumpTrustDistinct is: a member's different messages, up to the limit.
use telegram_antispam.Common.{
  ℕ, suc, ◌+◌, ◌≤◌, ◌<◌, ltb, leb, ℤ, same, same_refl, same_key, leb→le, String, str_eq, true,
  false, ◌&&◌, if◌then◌else◌, List, [], ◌∷◌, any, ◌≡◌, refl, sym, ap, ◌∙◌, arith, Bool-cases, inl,
  inr,
}
use native.Mathlib.Nat.{zero-add}
use telegram_antispam.Detect.Trust.{TrustTables, bump_trust, bump_trust_distinct, trust_count}

-- A meaningful message, as MaybeBump passes it on.
pub record Bump : Type 0 where
  pub chat : ℤ
  pub user : ℤ
  pub fingerprint : String

unfoldable pub bump_all : ℕ → List Bump → TrustTables → TrustTables
bump_all limit [] t = t
bump_all limit (b ∷ bs) t =
    bump_all limit bs (bump_trust_distinct b.chat b.user b.fingerprint limit t).0

abbrev pub sent_by : ℤ → ℤ → List Bump → List String
sent_by c u [] = []
sent_by c u (b ∷ bs) =
    let rest = sent_by c u bs in
    if same c b.chat && same u b.user then b.fingerprint ∷ rest else rest

-- How many texts are neither among those seen before nor a repetition.
abbrev pub new_ones : List String → List String → ℕ
new_ones seen [] = 0
new_ones seen (f ∷ fs) =
    let old = new_ones seen fs in
    let more = suc (new_ones (f ∷ seen) fs) in if any (str_eq f) seen then old else more

abbrev pub at_most : ℕ → ℕ → ℕ
at_most limit n = if ltb limit n then limit else n

-- Every message has a fingerprint.
abbrev pub AllNamed : List Bump → Type 0
AllNamed [] = Unit
AllNamed (b ∷ bs) = (str_eq b.fingerprint "" ≡ false) × AllNamed bs

other_key :
    (c u : ℤ) (b : Bump) (limit : ℕ) (t : TrustTables)
    → (same c b.chat && same u b.user) ≡ false
    → let t' = (bump_trust_distinct b.chat b.user b.fingerprint limit t).0 in
      (t'.meaningful_count c u ≡ t.meaningful_count c u) × (t'.seen c u ≡ t.seen c u)
unfolding bump_trust_distinct bump_trust
other_key c u b limit t h = ground arith

-- One message of the member: nothing at the limit or on a repetition, else one more.
full_up :
    (b : Bump) (limit : ℕ) (t : TrustTables)
    → str_eq b.fingerprint "" ≡ false
    → 0 < limit
    → limit ≤ t.meaningful_count b.chat b.user
    → (bump_trust_distinct b.chat b.user b.fingerprint limit t).0 ≡ t
unfolding bump_trust_distinct bump_trust
full_up b limit t h l k = ground arith

repeated :
    (b : Bump) (limit : ℕ) (t : TrustTables)
    → str_eq b.fingerprint "" ≡ false
    → any (str_eq b.fingerprint) (t.seen b.chat b.user) ≡ true
    → (bump_trust_distinct b.chat b.user b.fingerprint limit t).0 ≡ t
unfolding bump_trust_distinct bump_trust
repeated b limit t h k = ground arith

counted :
    (b : Bump) (limit : ℕ) (t : TrustTables)
    → str_eq b.fingerprint "" ≡ false
    → t.meaningful_count b.chat b.user < limit
    → any (str_eq b.fingerprint) (t.seen b.chat b.user) ≡ false
    → let t' = (bump_trust_distinct b.chat b.user b.fingerprint limit t).0 in
      (t'.meaningful_count b.chat b.user ≡ suc (t.meaningful_count b.chat b.user))
      × (t'.seen b.chat b.user ≡ b.fingerprint ∷ t.seen b.chat b.user)
unfolding bump_trust_distinct bump_trust
counted b limit t h l k =
    let p = same_refl b.chat in let q = same_refl b.user in ground (arith, p, q)

at_most-full : (limit k n : ℕ) → limit ≤ k → k ≤ limit → at_most limit (k + n) ≡ k
at_most-full limit k n h l = ground arith

-- A member's message, where `end` is the count that the later messages lead to.
own_message :
    (b : Bump) (limit : ℕ) (t : TrustTables) (later : List String) (end : TrustTables → ℕ)
    → 0 < limit
    → str_eq b.fingerprint "" ≡ false
    → t.meaningful_count b.chat b.user ≤ limit
    → ((t' : TrustTables)
        → t'.meaningful_count b.chat b.user ≤ limit
        → end t'
          ≡ at_most limit
              (t'.meaningful_count b.chat b.user + new_ones (t'.seen b.chat b.user) later))
    → end (bump_trust_distinct b.chat b.user b.fingerprint limit t).0
      ≡ at_most limit (
          t.meaningful_count b.chat b.user
          + new_ones (t.seen b.chat b.user) (b.fingerprint ∷ later))
own_message b limit t later end l named k ih =
    elim (Bool-cases (any (str_eq b.fingerprint) (t.seen b.chat b.user))) [
      | inl old ↦ rw (repeated b limit t named old, old) (ih t k)
      | inr new ↦ elim (Bool-cases (leb limit (t.meaningful_count b.chat b.user))) [
        | inl full ↦
            let m = leb→le limit (t.meaningful_count b.chat b.user) full in
            rw (full_up b limit t named l m)
              (ih t k ∙ at_most-full limit _ _ m k ∙ sym (at_most-full limit _ _ m k))
        | inr room ↦
            let m : t.meaningful_count b.chat b.user < limit = ground arith in
            let (p, q) = counted b limit t named m new in
            let h =
              ih (bump_trust_distinct b.chat b.user b.fingerprint limit t).0 (rw p (omega arith)) in
            rw (h, p, q, new) (ap (at_most limit) (omega arith))
      ]
    ]

own_key_message :
    (c u : ℤ) (b : Bump) (limit : ℕ) (t : TrustTables) (later : List String) (end : TrustTables → ℕ)
    → (c ≡ b.chat) × (u ≡ b.user)
    → 0 < limit
    → str_eq b.fingerprint "" ≡ false
    → t.meaningful_count c u ≤ limit
    → ((t' : TrustTables)
        → t'.meaningful_count c u ≤ limit
        → end t' ≡ at_most limit (t'.meaningful_count c u + new_ones (t'.seen c u) later))
    → end (bump_trust_distinct b.chat b.user b.fingerprint limit t).0
      ≡ at_most limit (t.meaningful_count c u + new_ones (t.seen c u) (b.fingerprint ∷ later))
own_key_message c u b limit t later end (ec, eu) l named k ih =
    rw (ec, eu)
      (own_message b limit t later end l named (rw (ec, eu) at k)
        (λ t' k'. rw (ec, eu) at (ih t' (rw (ec, eu) k'))))

bump_all-from :
    (c u : ℤ) (limit : ℕ) (bs : List Bump) (t : TrustTables)
    → 0 < limit
    → AllNamed bs
    → t.meaningful_count c u ≤ limit
    → (bump_all limit bs t).meaningful_count c u
      ≡ at_most limit (t.meaningful_count c u + new_ones (t.seen c u) (sent_by c u bs))
unfolding bump_all
bump_all-from c u limit [] t l n k = ground arith
bump_all-from c u limit (b ∷ bs) t l (named, ns) k =
    elim (Bool-cases (same c b.chat && same u b.user)) [
      | inr other ↦
          let (p, q) = other_key c u b limit t other in
          rw
            (
              bump_all-from c u limit bs (bump_trust_distinct b.chat b.user b.fingerprint limit t).0
                  l ns (rw p k),
              p,
              q,
              other,
            )
            refl
      | inl own ↦ rw own (
          own_key_message c u b limit t (sent_by c u bs)
            (λ t'. (bump_all limit bs t').meaningful_count c u) (same_key c u b.chat b.user own) l
            named k (λ t'. bump_all-from c u limit bs t' l ns))
    ]

-- A member of a chat who starts without a record, among any messages of all the members of all the
-- chats that have a fingerprint: the member's count of meaningful messages is the number of the member's
-- different fingerprints, up to the limit. A repeated message earns nothing.
pub bump_all-counts_distinct :
    (c u : ℤ) (limit : ℕ) (bs : List Bump) (t : TrustTables)
    → 0 < limit
    → AllNamed bs
    → t.meaningful_count c u ≡ 0
    → t.seen c u ≡ []
    → trust_count c u (bump_all limit bs t) ≡ at_most limit (new_ones [] (sent_by c u bs))
bump_all-counts_distinct c u limit bs t l n z e =
    rw (bump_all-from c u limit bs t l n (rw z (omega arith)), z, e, zero-add) refl
