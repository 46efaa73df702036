-- ===== src/Blocklist/Cas.antt =====
-- internal/blocklist/cas.go: the check of one user, with its cache and its breaker. What Listed does under
-- the lock before the request and what it does after it are two operations, between which other goroutines may
-- run. The limiter, the context and the request answer as they like. A time is a number of nanoseconds and 0
-- is the zero time.
pub mod Bounded
use telegram_antispam.Common.{
  ℕ, suc, ◌+◌, ◌==◌, ltb, leb, ℤ, pos, le_id, same, Bool, true, false, ◌&&◌, ◌||◌, not,
  if◌then◌else◌, List, [], ◌∷◌, ◌++◌, Option, none, some, any, keep, length, map,
}

-- CASConfig, with the durations that NewCASChecker has made positive.
pub record CasConfig : Type 0 where
  pub positive_ttl : ℕ
  pub negative_ttl : ℕ
  pub max_entries : ℕ

-- type casEntry
pub record CasEntry : Type 0 where
  pub user_id : ℤ
  pub listed : Bool
  pub expires : ℕ

-- type CASChecker
pub record CasChecker : Type 0 where
  pub cache : List CasEntry
  pub errors : ℕ
  pub open_until : ℕ

abbrev pub new_cas_checker : CasChecker
new_cas_checker = record { cache = []; errors = 0; open_until = 0 }

abbrev pub cas_breaker_errors : ℕ
cas_breaker_errors = 3

abbrev pub cas_breaker_pause : ℕ
cas_breaker_pause = 60000000000

abbrev pub is_of : ℤ → CasEntry → Bool
is_of user e = same e.user_id user

unfoldable pub find_entry : ℤ → List CasEntry → Option CasEntry
find_entry user [] = none
find_entry user (e ∷ es) = let rest = find_entry user es in if is_of user e then some e else rest

-- How a call of Listed goes on: it answers, with what it counts, or it makes a request.
pub data Counted : Type 0 where
  nothing breaker_open rate_limited error listed_result clean : Counted

pub data Begun : Type 0 where
  answers : Bool → Counted → Begun
  requests : Begun

abbrev pub uncached : Bool → Bool → ℕ → CasChecker → Begun
uncached done allowed now c =
    if done
    then answers false nothing
    else if ltb now c.open_until
    then answers false breaker_open
    else if not allowed
    then answers false rate_limited
    else requests

abbrev pub begin_cached : Bool → Bool → ℕ → CasChecker → Option CasEntry → Begun
begin_cached done allowed now c none = uncached done allowed now c
begin_cached done allowed now c (some e) =
    if ltb now e.expires then answers e.listed nothing else uncached done allowed now c

-- Listed up to the request
unfoldable pub begin : ℤ → Bool → Bool → ℕ → CasChecker → Begun
begin user done allowed now c =
    if le_id user (pos 0)
    then answers false nothing
    else begin_cached done allowed now c (find_entry user c.cache)

abbrev pub set_entry : ℤ → CasEntry → CasEntry → CasEntry
set_entry user e x = if is_of user x then e else x

-- The assignment to the map, where the user is there or there is room.
unfoldable pub store_entry : ℕ → CasEntry → List CasEntry → List CasEntry
store_entry limit e es =
    if any (is_of e.user_id) es
    then map (set_entry e.user_id e) es
    else if ltb (length es) limit
    then es ++ e ∷ []
    else es

abbrev pub make_room : ℕ → ℕ → List CasEntry → List CasEntry
make_room limit now es = if leb limit (length es) then keep (λ e. ltb now e.expires) es else es

-- Listed after the request; `none` is an error.
unfoldable pub finish : CasConfig → ℤ → Option Bool → ℕ → CasChecker → CasChecker × (Bool × Counted)
finish cfg user none now c = (
  record c {
    errors = suc c.errors;
    open_until =
        if leb cas_breaker_errors (suc c.errors) && not (ltb now c.open_until)
        then now + cas_breaker_pause
        else c.open_until;
  },
  (false, error),
)
finish cfg user (some listed) now c = (
  record {
    cache =
        store_entry cfg.max_entries
          (record {
            user_id = user;
            listed = listed;
            expires = now + (if listed then cfg.positive_ttl else cfg.negative_ttl);
          })
          (make_room cfg.max_entries now c.cache);
    errors = 0;
    open_until = 0;
  },
  (listed, if listed then listed_result else clean),
)

-- A request that came back, in the order in which the goroutines get the lock.
pub record Response : Type 0 where
  pub user_id : ℤ
  pub result : Option Bool
  pub now : ℕ

unfoldable pub run : CasConfig → List Response → CasChecker → CasChecker
run cfg [] c = c
run cfg (r ∷ rs) c = run cfg rs (finish cfg r.user_id r.result r.now c).0
