-- ===== src/Detect/History.antt =====
-- internal/detect/memhistory.go: the sliding windows of MemHistory. Its map of buckets is a function,
-- the clock is an argument of each operation, and a time is a number of nanoseconds; a window is not
-- negative. The mutex makes each operation one step.
pub mod Prune
pub mod Windows
use telegram_antispam.Common.{
  ℕ, zero, suc, ◌+◌, String, str_eq, ℤ, same, Bool, true, false, ◌&&◌, not, leb, if◌then◌else◌,
  List, [], ◌∷◌, ◌++◌, Option, none, some, length, is_empty, any, keep, count_if,
}

-- type dupEvent
pub record DupEvent : Type 0 where
  pub hash : String
  pub ts : ℕ

-- type shortEvent
pub record ShortEvent : Type 0 where
  pub ts : ℕ

-- type historyBucket
pub record HistoryBucket : Type 0 where
  pub dup : List DupEvent
  pub short : List ShortEvent

-- MemHistory.buckets, by the two fields of a historyKey
abbrev pub MemHistory : Type 0
MemHistory = ℤ → ℤ → Option HistoryBucket

-- NewMemHistory
abbrev pub new_mem_history : MemHistory
new_mem_history chat user = none

-- withinWindow: now - ts <= window
abbrev pub within_window : ℕ → ℕ → ℕ → Bool
within_window ts now window = leb now (ts + window)

-- The loops of the two prune functions: one looks for a stale event, one copies the others.
unfoldable pub prune : {E : Type 0} → (E → Bool) → List E → List E
prune fresh events = if any (λ e. not (fresh e)) events then keep fresh events else events

-- pruneDupEvents
abbrev pub prune_dup_events : List DupEvent → ℕ → ℕ → List DupEvent
prune_dup_events events now window = prune (λ e. within_window e.ts now window) events

-- pruneShortEvents
abbrev pub prune_short_events : List ShortEvent → ℕ → ℕ → List ShortEvent
prune_short_events events now window = prune (λ e. within_window e.ts now window) events

abbrev pub bucket_or_new : Option HistoryBucket → HistoryBucket
bucket_or_new none = record { dup = []; short = [] }
bucket_or_new (some b) = b

-- The assignment to h.buckets[key], of a bucket or of its removal.
unfoldable pub put : ℤ → ℤ → Option HistoryBucket → MemHistory → MemHistory
put chat user b h chat' user' = if same chat' chat && same user' user then b else h chat' user'

-- MemHistory.RecordAndCountDup
unfoldable pub record_and_count_dup : ℤ → ℤ → String → ℕ → ℕ → MemHistory → MemHistory × ℕ
record_and_count_dup chat user text_hash window now h =
    let b = bucket_or_new (h chat user) in
    let dup = prune_dup_events b.dup now window ++ record { hash = text_hash; ts = now } ∷ [] in
    (put chat user (some (record b { dup = dup })) h, count_if (λ e. str_eq e.hash text_hash) dup)

-- MemHistory.RecentShortCount
unfoldable pub recent_short_count : ℤ → ℤ → ℕ → ℕ → MemHistory → MemHistory × ℕ
recent_short_count chat user window now h =
    let b = bucket_or_new (h chat user) in
    let short = prune_short_events b.short now window ++ record { ts = now } ∷ [] in
    (put chat user (some (record b { short = short })) h, length short)

-- One round of Sweep: a bucket is removed once both of its slices are empty.
abbrev pub sweep_bucket : ℕ → ℕ → Option HistoryBucket → Option HistoryBucket
sweep_bucket max_age now none = none
sweep_bucket max_age now (some b) =
    let dup = prune_dup_events b.dup now max_age in
    let short = prune_short_events b.short now max_age in
    if is_empty dup && is_empty short then none else some (record { dup = dup; short = short })

-- MemHistory.Sweep
unfoldable pub sweep : ℕ → ℕ → MemHistory → MemHistory
sweep max_age now h chat user = sweep_bucket max_age now (h chat user)
