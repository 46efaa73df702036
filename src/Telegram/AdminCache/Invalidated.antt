-- ===== src/Telegram/AdminCache/Invalidated.antt =====
-- internal/telegram/admincache.go: a list that was invalidated while it was fetched is not used.
use telegram_antispam.Common.{
  ℕ, suc, ◌+◌, ◌%◌, ◌==◌, ◌<◌, ℤ, same, same_iff, Bool-cases, inl, inr, Bool, true, false, not,
  if◌then◌else◌, List, [], ◌∷◌, Option, none, some, is_some, count_if, ◌≡◌, refl, arith,
}
use telegram_antispam.Incident.World.{Result}
use telegram_antispam.Telegram.AdminCache.{
  Member, FetchError, AdminEntry, Answer, AdminCache, put, Lookup, answered, waits, fetches, lookup,
  failure_of, members_of, commit_result, commit_locked, invalidate, Operation, look, complete,
  abandon, invalidating, looked, step, run,
}

abbrev pub invalidates : ℤ → Operation → Bool
invalidates chat (invalidating c) = same chat c
invalidates chat _ = false

looked-gens : (chat : ℤ) (l : Lookup) (c : AdminCache) → (looked chat l c).0.gens ≡ c.gens
looked-gens chat (answered a) c = refl
looked-gens chat waits c = refl
looked-gens chat (fetches gen prev) c = refl

committed-gens :
    (ttl : ℕ) (chat : ℤ) (gone : Bool) (prev : Option AdminEntry) (ms : List Member) (now : ℕ)
    (e : Option FetchError) (c : AdminCache)
    → (commit_result ttl chat gone prev ms now e c).0.gens ≡ c.gens
committed-gens ttl chat true prev ms now (some e) c = refl
committed-gens ttl chat false prev ms now (some e) c = refl
committed-gens ttl chat true prev ms now none c = refl
committed-gens ttl chat false prev ms now none c = refl

wrap :
    (g n : ℕ)
    → ((g + 1) % 18446744073709551616 + n) % 18446744073709551616
      ≡ (g + suc n) % 18446744073709551616
wrap g n = omega arith

moved :
    (g n : ℕ)
    → g < 18446744073709551616
    → 0 < n
    → n < 18446744073709551616
    → ((g + n) % 18446744073709551616 == g) ≡ false
moved g n h p q = ground (arith, h, p, q)

put_at :
    (x chat : ℤ) (f : ℤ → ℕ) (g : ℕ → ℕ)
    → put x (g (f x)) f chat ≡ (if same chat x then g (f chat) else f chat)
unfolding put
put_at x chat f g = elim (Bool-cases (same chat x)) [
  | inl e ↦ rw e (rw ((same_iff chat x).0 e) refl)
  | inr e ↦ rw e refl
]

step-gens :
    (ttl : ℕ) (chat : ℤ) (o : Operation) (c : AdminCache)
    → (step ttl o c).0.gens chat
      ≡ (if invalidates chat o then (c.gens chat + 1) % 18446744073709551616 else c.gens chat)
unfolding step commit_locked invalidate put
step-gens ttl chat (look x now) c = rw (looked-gens x (lookup ttl x now c) c) refl
step-gens ttl chat (complete x gen prev r now) c =
    rw (committed-gens ttl x (not (c.gens x == gen)) prev (members_of r) now (failure_of r) c) refl
step-gens ttl chat (abandon x) c = refl
step-gens ttl chat (invalidating x) c = put_at x chat c.gens (λ g. (g + 1) % 18446744073709551616)

run-gens :
    (ttl : ℕ) (chat : ℤ) (os : List Operation) (c : AdminCache)
    → c.gens chat < 18446744073709551616
    → (run ttl os c).gens chat
      ≡ (c.gens chat + count_if (invalidates chat) os) % 18446744073709551616
unfolding run
run-gens ttl chat [] c h = omega (arith, h)
run-gens ttl chat (o ∷ os) c h =
    let s = step-gens ttl chat o c in
    let b : (step ttl o c).0.gens chat < 18446744073709551616 = ground (arith, s, h) in
    let r = run-gens ttl chat os (step ttl o c).0 b in
    elim (Bool-cases (invalidates chat o)) [
      | inl e ↦ rw (r, s, e) (wrap (c.gens chat) (count_if (invalidates chat) os))
      | inr e ↦ rw (r, s, e) refl
    ]

-- The result of a commit that finds its generation gone.
pub Discarded : AdminCache → AdminCache × Answer → Type 0
Discarded c x = (x.0 ≡ c) × (x.1.ids ≡ []) × (is_some x.1.error ≡ true)

gone-Discarded :
    (ttl : ℕ) (chat : ℤ) (prev : Option AdminEntry) (ms : List Member) (now : ℕ)
    (e : Option FetchError) (c : AdminCache)
    → Discarded c (commit_result ttl chat true prev ms now e c)
unfolding Discarded
gone-Discarded ttl chat prev ms now none c = (refl, refl, refl)
gone-Discarded ttl chat prev ms now (some e) c = (refl, refl, refl)

-- Where a fetch saw the generation of its chat in the cache, and anything but 2 ^ 64 or more calls of
-- Invalidate for that chat, and at least one, happened since: whatever the fetch brings, its commit
-- leaves the cache as it is and answers with an error and no list.
pub commit_locked-discards :
    (ttl : ℕ) (chat : ℤ) (c : AdminCache) (os : List Operation) (prev : Option AdminEntry)
    (r : Result (List Member)) (now : ℕ)
    → c.gens chat < 18446744073709551616
    → 0 < count_if (invalidates chat) os
    → count_if (invalidates chat) os < 18446744073709551616
    → Discarded (run ttl os c) (commit_locked ttl chat (c.gens chat) prev r now (run ttl os c))
unfolding commit_locked
commit_locked-discards ttl chat c os prev r now g p q =
    let moved_on : ((run ttl os c).gens chat == c.gens chat) ≡ false =
      rw (run-gens ttl chat os c g) (moved (c.gens chat) (count_if (invalidates chat) os) g p q) in
    rw moved_on (gone-Discarded ttl chat prev (members_of r) now (failure_of r) (run ttl os c))
