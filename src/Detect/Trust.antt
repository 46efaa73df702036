-- ===== src/Detect/Trust.antt =====
-- internal/detect/trust.go and internal/store/trust.go: a member's count of meaningful messages, which
-- of them count, and when the member is trusted. The tables `users` and `trust_seen` are functions of
-- their keys; a statement does not fail here, but a read of the count may.
pub mod Distinct
use telegram_antispam.Common.{
  ℕ, zero, suc, ◌+◌, ltb, leb, ℤ, pos, negsuc, same, String, str_eq, Bool, true, false, ◌&&◌,
  if◌then◌else◌, Option, none, some, List, [], ◌∷◌, any,
}
use telegram_antispam.Detect.Message.{NormalizedMessage, has_text}

-- IsTrusted, on the answer of TrustSource: `none` is an error. A threshold may be negative.
unfoldable pub is_trusted : Option ℕ → ℤ → Bool
is_trusted none threshold = false
is_trusted (some count) (pos threshold) = leb threshold count
is_trusted (some count) (negsuc threshold) = true

abbrev pub meaningful_min_len_default : ℕ
meaningful_min_len_default = 3

abbrev pub min_len_or_default : ℤ → ℕ
min_len_or_default (pos zero) = meaningful_min_len_default
min_len_or_default (pos (suc n)) = suc n
min_len_or_default (negsuc n) = meaningful_min_len_default

-- IsMeaningful
unfoldable pub is_meaningful : NormalizedMessage → ℤ → Bool
is_meaningful n min_len =
    if ltb n.raw_len (min_len_or_default min_len) then false else has_text n.text

-- The rows of `users` (0 where there is none) and of `trust_seen`.
pub record TrustTables : Type 0 where
  pub meaningful_count : ℤ → ℤ → ℕ
  pub seen : ℤ → ℤ → List String

abbrev pub bump_row : ℤ → ℤ → (ℤ → ℤ → ℕ) → ℤ → ℤ → ℕ
bump_row chat user f c u = if same c chat && same u user then suc (f c u) else f c u

-- DB.BumpTrust: the new count
unfoldable pub bump_trust : ℤ → ℤ → TrustTables → TrustTables × ℕ
bump_trust chat user t = (
  record t { meaningful_count = bump_row chat user t.meaningful_count },
  suc (t.meaningful_count chat user),
)

-- DB.TrustCount
abbrev pub trust_count : ℤ → ℤ → TrustTables → ℕ
trust_count chat user t = t.meaningful_count chat user

abbrev pub see_row : ℤ → ℤ → String → (ℤ → ℤ → List String) → ℤ → ℤ → List String
see_row chat user fingerprint f c u =
    if same c chat && same u user then fingerprint ∷ f c u else f c u

-- DB.BumpTrustDistinct: the count and whether it was bumped
unfoldable pub bump_trust_distinct : ℤ → ℤ → String → ℕ → TrustTables → TrustTables × ℕ × Bool
unfolding bump_trust
bump_trust_distinct chat user fingerprint limit t =
    let count = t.meaningful_count chat user in
    if str_eq fingerprint ""
    then (let (t', n) = bump_trust chat user t in (t', n, true))
    else if ltb 0 limit && leb limit count
    then (t, count, false)
    else if any (str_eq fingerprint) (t.seen chat user)
    then (t, count, false)
    else (let (t', n) = bump_trust chat user t in
        (record t' { seen = see_row chat user fingerprint t.seen }, n, true))
