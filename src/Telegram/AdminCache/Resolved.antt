-- ===== src/Telegram/AdminCache/Resolved.antt =====
-- internal/telegram/admincache.go: a list that comes with no error names an administrator.
use telegram_antispam.Common.{
  ℕ, ◌≤◌, ◌==◌, ℤ, pos, same, Bool, true, false, ◌&&◌, ◌||◌, not, List, [], ◌∷◌, Option, none, some,
  any, map, is_some, ◌≡◌, refl, arith, Bool-cases, inl, inr,
}
use telegram_antispam.Incident.World.{Result, ok, err}
use telegram_antispam.Detect.FakeAdmin.{AdminIdentity}
use telegram_antispam.Telegram.AdminCache.{
  Member, FetchError, AdminEntry, Answer, AdminCache, no_entry, new_admin_cache, put, Lookup,
  answered, waits, fetches, miss, lookup_entry, lookup, any_identifiable, failure_of, identity_of,
  members_of, entry_or_zero, fall_back, commit_result, commit_locked, invalidate, Operation, look,
  complete, abandon, invalidating, looked, step, answers,
}

abbrev pub identified : List AdminIdentity → Bool
identified ids = any (λ a. not (same a.user_id (pos 0))) ids

-- An answer that resolves who the administrators are, or says that it does not.
abbrev pub resolved : Option Answer → Bool
resolved none = true
resolved (some a) = is_some a.error || identified a.ids

abbrev pub all_resolved : List (Option Answer) → Bool
all_resolved [] = true
all_resolved (a ∷ as') = resolved a && all_resolved as'

abbrev sound : Option AdminEntry → Bool
sound none = true
sound (some e) =
    (e.fetched_at == 0 || identified e.ids) && (e.last_fail_at == 0 || is_some e.last_err)

Sound : AdminCache → Type 0
Sound c = (chat : ℤ) → sound (c.entries chat) ≡ true

-- The clock of each call is at least a time to live after the zero time.
abbrev pub Late : ℕ → List Operation → Type 0
Late ttl [] = Unit
Late ttl (look chat now ∷ os) = (ttl ≤ now) × Late ttl os
Late ttl (_ ∷ os) = Late ttl os

module _ (ttl : ℕ) where
  miss-resolved : (chat : ℤ) (c : AdminCache) → resolved (looked chat (miss chat c) c).1 ≡ true
  miss-resolved chat c = ground arith

  lookup-resolved :
      (chat : ℤ) (now : ℕ) (c : AdminCache) (o : Option AdminEntry)
      → sound o ≡ true
      → ttl ≤ now
      → resolved (looked chat (lookup_entry ttl chat now c o) c).1 ≡ true
  lookup-resolved chat now c none h l = ground arith
  lookup-resolved chat now c (some e) h l = ground (arith, h, l)

  looked-entries :
      (chat : ℤ) (l : Lookup) (c : AdminCache) → (looked chat l c).0.entries ≡ c.entries
  looked-entries chat (answered a) c = refl
  looked-entries chat waits c = refl
  looked-entries chat (fetches gen prev) c = refl

identified-map :
    (members : List Member) → identified (map identity_of members) ≡ any_identifiable members
identified-map [] = refl
identified-map (m ∷ ms) = ground (arith, identified-map ms)

put-sound :
    (chat : ℤ) (o : Option AdminEntry) (f : ℤ → Option AdminEntry)
    → sound o ≡ true
    → ((c : ℤ) → sound (f c) ≡ true)
    → (c : ℤ) → sound (put chat o f c) ≡ true
unfolding put
put-sound chat o f h g c = ground (arith, h, g c)

failed-sound :
    (o : Option AdminEntry) (now : ℕ) (e : FetchError)
    → sound o ≡ true
    → sound (some (record (entry_or_zero o) { last_fail_at = now; last_err = some e })) ≡ true
failed-sound none now e h = ground arith
failed-sound (some x) now e h = ground (arith, h)

-- A commit keeps the cache sound, and its answer is resolved.
Kept : AdminCache × Answer → Type 0
Kept x = Sound x.0 × (resolved (some x.1) ≡ true)

fall_back-resolved :
    (ttl now : ℕ) (e : FetchError) (prev : Option AdminEntry)
    → resolved (some (fall_back ttl now e prev)) ≡ true
fall_back-resolved ttl now e none = refl
fall_back-resolved ttl now e (some p) = refl

installed-sound :
    (members : List Member) (now : ℕ)
    → any_identifiable members ≡ true
    → sound (some (record no_entry { ids = map identity_of members; fetched_at = now })) ≡ true
installed-sound members now h = ground (arith, h, identified-map members)

module _ (ttl : ℕ) (chat : ℤ) (prev : Option AdminEntry) (now : ℕ) (c : AdminCache) where
  failure-Kept :
      (gone : Bool) (members : List Member) (e : FetchError)
      → Sound c
      → Kept (commit_result ttl chat gone prev members now (some e) c)
  unfolding Kept Sound
  failure-Kept true members e h = (h, refl)
  failure-Kept false members e h = (
    put-sound chat _ c.entries (failed-sound (c.entries chat) now e (h chat)) h,
    fall_back-resolved ttl now e prev,
  )

  success-Kept :
      (gone : Bool) (members : List Member)
      → any_identifiable members ≡ true
      → Sound c
      → Kept (commit_result ttl chat gone prev members now none c)
  unfolding Kept Sound
  success-Kept true members a h = (h, refl)
  success-Kept false members a h = (
    put-sound chat _ c.entries (installed-sound members now a) h,
    ground (arith, a, identified-map members),
  )

  commit_result-Kept :
      (gone : Bool) (r : Result (List Member))
      → Sound c
      → Kept (commit_result ttl chat gone prev (members_of r) now (failure_of r) c)
  commit_result-Kept gone (err e) h = failure-Kept gone [] _ h
  commit_result-Kept gone (ok members) h = elim (Bool-cases (any_identifiable members)) [
    | inl a ↦ rw a (success-Kept gone members a h)
    | inr a ↦ rw a (failure-Kept gone members _ h)
  ]

step-Sound : (ttl : ℕ) (o : Operation) (c : AdminCache) → Sound c → Sound (step ttl o c).0
unfolding Sound Kept step commit_locked invalidate
step-Sound ttl (look chat now) c h x = rw (looked-entries ttl chat (lookup ttl chat now c) c) (h x)
step-Sound ttl (complete chat gen prev r now) c h x =
    (commit_result-Kept ttl chat prev now c (not (c.gens chat == gen)) r h).0 x
step-Sound ttl (abandon chat) c h x = h x
step-Sound ttl (invalidating chat) c h x = put-sound chat none c.entries refl h x

step-resolved :
    (ttl : ℕ) (o : Operation) (os : List Operation) (c : AdminCache)
    → Sound c
    → Late ttl (o ∷ os)
    → (resolved (step ttl o c).1 ≡ true) × Late ttl os
unfolding Sound Kept step lookup commit_locked
step-resolved ttl (look chat now) os c h l =
    (lookup-resolved ttl chat now c (c.entries chat) (h chat) l.0, l.1)
step-resolved ttl (complete chat gen prev r now) os c h l =
    ((commit_result-Kept ttl chat prev now c (not (c.gens chat == gen)) r h).1, l)
step-resolved ttl (abandon chat) os c h l = (refl, l)
step-resolved ttl (invalidating chat) os c h l = (refl, l)

answers-all_resolved :
    (ttl : ℕ) (os : List Operation) (c : AdminCache)
    → Sound c
    → Late ttl os
    → all_resolved (answers ttl os c) ≡ true
unfolding answers
answers-all_resolved ttl [] c h l = refl
answers-all_resolved ttl (o ∷ os) c h l =
    let (r, l') = step-resolved ttl o os c h l in
    ground (arith, r, answers-all_resolved ttl os (step ttl o c).0 (step-Sound ttl o c h) l')

-- Whatever the goroutines do and in whatever order, whatever Telegram answers and whatever they claim to
-- have seen before: from an empty cache, with a clock at least a time to live after the zero time, each
-- answer of AdminIdentities has an error or lists an administrator with a user id.
pub answers-new_admin_cache :
    (ttl : ℕ) (os : List Operation)
    → Late ttl os
    → all_resolved (answers ttl os new_admin_cache) ≡ true
answers-new_admin_cache ttl os l =
    answers-all_resolved ttl os new_admin_cache (unfold Sound in λ c. refl) l
