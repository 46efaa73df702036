-- ===== src/Telegram/AdminCache.antt =====
-- internal/telegram/admincache.go: the cache of the lists of administrators. An operation is what happens
-- under one lock of the mutex: the start of AdminIdentities, its end, where the fetch came back or was
-- abandoned, and Invalidate. A time is a number of nanoseconds since the zero time, and a caller that
-- waits gets the answer at the end of the fetch that it waits for.
pub mod Invalidated
pub mod Resolved
use telegram_antispam.Common.{
  ℕ, ◌+◌, ◌*◌, ◌%◌, ltb, ◌==◌, ℤ, pos, same, String, Bool, true, false, ◌&&◌, ◌||◌, not,
  if◌then◌else◌, List, [], ◌∷◌, Option, none, some, any, map,
}
use telegram_antispam.Incident.World.{Failure, Result, ok, err}
use telegram_antispam.Detect.FakeAdmin.{AdminIdentity}

-- type Member
pub record Member : Type 0 where
  pub user_id : ℤ
  pub status : String
  pub username : String
  pub display_name : String
  pub custom_title : String

pub data FetchError : Type 0 where
  empty_admin_list list_invalidated fetch_aborted : FetchError
  call_failed : Failure → FetchError

-- type adminEntry; a time of 0 is the zero time.
pub record AdminEntry : Type 0 where
  pub ids : List AdminIdentity
  pub fetched_at : ℕ
  pub last_fail_at : ℕ
  pub last_err : Option FetchError

-- What AdminIdentities returns.
pub record Answer : Type 0 where
  pub ids : List AdminIdentity
  pub error : Option FetchError

-- type AdminCache; `inflight` has the chats with a fetch under way.
pub record AdminCache : Type 0 where
  pub entries : ℤ → Option AdminEntry
  pub gens : ℤ → ℕ
  pub inflight : ℤ → Bool

abbrev pub no_entry : AdminEntry
no_entry = record { ids = []; fetched_at = 0; last_fail_at = 0; last_err = none }

-- NewAdminCache
abbrev pub new_admin_cache : AdminCache
new_admin_cache = record { entries = λ c. none; gens = λ c. 0; inflight = λ c. false }

-- An assignment to a map.
unfoldable pub put : {A : Type 0} → ℤ → A → (ℤ → A) → ℤ → A
put chat a f c = if same c chat then a else f c

-- adminEntry.stale
abbrev pub stale : ℕ → ℕ → AdminEntry → Answer
stale now grace e = record {
  ids = if ltb now (e.fetched_at + grace) then e.ids else [];
  error = e.last_err;
}

abbrev pub grace_of : ℕ → ℕ
grace_of ttl = 2 * ttl

-- How a call of AdminIdentities goes on: it returns, it waits for the fetch under way, or it fetches,
-- with the generation and the entry that it saw.
pub data Lookup : Type 0 where
  answered : Answer → Lookup
  waits : Lookup
  fetches : ℕ → Option AdminEntry → Lookup

abbrev pub is_fresh : ℕ → ℕ → AdminEntry → Bool
is_fresh ttl now e = ltb now (e.fetched_at + ttl)

abbrev pub backs_off : ℕ → ℕ → AdminEntry → Bool
backs_off ttl now e = not (e.last_fail_at == 0) && ltb now (e.last_fail_at + ttl)

abbrev pub miss : ℤ → AdminCache → Lookup
miss chat c = if c.inflight chat then waits else fetches (c.gens chat) (c.entries chat)

abbrev pub lookup_entry : ℕ → ℤ → ℕ → AdminCache → Option AdminEntry → Lookup
lookup_entry ttl chat now c none = miss chat c
lookup_entry ttl chat now c (some e) =
    if is_fresh ttl now e
    then answered (record { ids = e.ids; error = none })
    else if backs_off ttl now e
    then answered (stale now (grace_of ttl) e)
    else miss chat c

-- AdminIdentities up to the fetch
unfoldable pub lookup : ℕ → ℤ → ℕ → AdminCache → Lookup
lookup ttl chat now c = lookup_entry ttl chat now c (c.entries chat)

-- anyIdentifiable
abbrev pub any_identifiable : List Member → Bool
any_identifiable members = any (λ m. not (same m.user_id (pos 0))) members

-- The failure of a fetch: that of the call, or a list that names nobody.
abbrev pub failure_of : Result (List Member) → Option FetchError
failure_of (err e) = some (call_failed e)
failure_of (ok members) = if any_identifiable members then none else some empty_admin_list

abbrev pub identity_of : Member → AdminIdentity
identity_of m = record {
  user_id = m.user_id;
  username = m.username;
  display_name = m.display_name;
  custom_title = m.custom_title;
}

abbrev pub members_of : Result (List Member) → List Member
members_of (ok members) = members
members_of (err e) = []

abbrev pub entry_or_zero : Option AdminEntry → AdminEntry
entry_or_zero none = no_entry
entry_or_zero (some e) = e

abbrev pub fall_back : ℕ → ℕ → FetchError → Option AdminEntry → Answer
fall_back ttl now e none = record { ids = []; error = some e }
fall_back ttl now e (some prev) = stale now (grace_of ttl) (record prev { last_err = some e })

abbrev pub record_failure : ℤ → ℕ → FetchError → AdminCache → AdminCache
record_failure chat now e c = record c {
  entries =
      put chat
        (some (record (entry_or_zero (c.entries chat)) { last_fail_at = now; last_err = some e }))
        c.entries;
}

abbrev pub refused : FetchError → Answer
refused e = record { ids = []; error = some e }

abbrev pub commit_result :
    ℕ
    → ℤ
    → Bool
    → Option AdminEntry
    → List Member
    → ℕ
    → Option FetchError
    → AdminCache
    → AdminCache × Answer
commit_result ttl chat invalidated prev members now (some e) c =
    if invalidated then (c, refused e) else (record_failure chat now e c, fall_back ttl now e prev)
commit_result ttl chat invalidated prev members now none c =
    if invalidated then (c, refused list_invalidated) else (
      record c {
        entries =
            put chat (some (record no_entry { ids = map identity_of members; fetched_at = now }))
              c.entries;
      },
      record { ids = map identity_of members; error = none },
    )

-- commitLocked
unfoldable pub commit_locked :
    ℕ → ℤ → ℕ → Option AdminEntry → Result (List Member) → ℕ → AdminCache → AdminCache × Answer
commit_locked ttl chat gen prev r now c =
    commit_result ttl chat (not (c.gens chat == gen)) prev (members_of r) now (failure_of r) c

abbrev pub release : ℤ → AdminCache → AdminCache
release chat c = record c { inflight = put chat false c.inflight }

-- Invalidate; a generation is a uint64.
unfoldable pub invalidate : ℤ → AdminCache → AdminCache
invalidate chat c = record c {
  entries = put chat none c.entries;
  gens = put chat ((c.gens chat + 1) % 18446744073709551616) c.gens;
}

-- What a goroutine does under the lock. The end of a fetch carries what its call saw at the start.
pub data Operation : Type 0 where
  look : ℤ → ℕ → Operation
  complete : ℤ → ℕ → Option AdminEntry → Result (List Member) → ℕ → Operation
  abandon invalidating : ℤ → Operation

abbrev pub looked : ℤ → Lookup → AdminCache → AdminCache × Option Answer
looked chat (answered a) c = (c, some a)
looked chat waits c = (c, none)
looked chat (fetches gen prev) c = (record c { inflight = put chat true c.inflight }, none)

abbrev pub completed : ℤ → AdminCache × Answer → AdminCache × Option Answer
completed chat (c, a) = (release chat c, some a)

-- An operation, and the answer that it gives, if any.
unfoldable pub step : ℕ → Operation → AdminCache → AdminCache × Option Answer
step ttl (look chat now) c = looked chat (lookup ttl chat now c) c
step ttl (complete chat gen prev r now) c = completed chat (commit_locked ttl chat gen prev r now c)
step ttl (abandon chat) c = (release chat c, some (refused fetch_aborted))
step ttl (invalidating chat) c = (invalidate chat c, none)

-- Operations of any goroutines in the order in which they get the lock.
unfoldable pub run : ℕ → List Operation → AdminCache → AdminCache
run ttl [] c = c
run ttl (o ∷ os) c = run ttl os (step ttl o c).0

unfoldable pub answers : ℕ → List Operation → AdminCache → List (Option Answer)
answers ttl [] c = []
answers ttl (o ∷ os) c = (step ttl o c).1 ∷ answers ttl os (step ttl o c).0
