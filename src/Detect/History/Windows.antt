-- ===== src/Detect/History/Windows.antt =====
-- MemHistory against the log of all that it was ever asked: pruning and sweeping never change an answer.
use telegram_antispam.Common.{
  ℕ, suc, ◌≤◌, String, str_eq, ℤ, same, Bool, true, ◌&&◌, if◌then◌else◌, List, [], ◌∷◌, ◌++◌,
  Option, none, some, length, length-append, is_empty, keep, count_if, ◌≡◌, refl, ◌∙◌, arith,
  Bool-cases, inl, inr, same_key, eq_refl,
}
use mathlib.Core.List.{append-nil}
use telegram_antispam.Detect.History.{
  DupEvent, ShortEvent, HistoryBucket, MemHistory, new_mem_history, within_window, prune,
  bucket_or_new, put, record_and_count_dup, recent_short_count, sweep, sweep_bucket,
}
use telegram_antispam.Detect.History.Prune.{
  prune-keep, keep-prune, keep-prune-add, within_window-later,
}

-- One call of MemHistory, with the chat, the user and the time of the clock.
pub data Request : Type 0 where
  dup : ℤ → ℤ → String → ℕ → Request
  short : ℤ → ℤ → ℕ → Request
  sweep_all : ℕ → ℕ → Request

abbrev pub time : Request → ℕ
time (dup chat user hash now) = now
time (short chat user now) = now
time (sweep_all max_age now) = now

-- The events that a log of requests holds for a user of a chat, however old.
unfoldable pub dup_events : ℤ → ℤ → List Request → List DupEvent
dup_events c u [] = []
dup_events c u (dup chat user hash now ∷ past) =
    let rest = dup_events c u past in
    if same c chat && same u user then record { hash = hash; ts = now } ∷ rest else rest
dup_events c u (_ ∷ past) = dup_events c u past

unfoldable pub short_events : ℤ → ℤ → List Request → List ShortEvent
short_events c u [] = []
short_events c u (short chat user now ∷ past) =
    let rest = short_events c u past in
    if same c chat && same u user then record { ts = now } ∷ rest else rest
short_events c u (_ ∷ past) = short_events c u past

dup_events-append :
    (c u : ℤ) (xs ys : List Request)
    → dup_events c u (xs ++ ys) ≡ dup_events c u xs ++ dup_events c u ys
unfolding dup_events
dup_events-append c u [] ys = refl
dup_events-append c u (dup chat user hash now ∷ xs) ys = ground (arith, dup_events-append c u xs ys)
dup_events-append c u (short chat user now ∷ xs) ys = dup_events-append c u xs ys
dup_events-append c u (sweep_all age now ∷ xs) ys = dup_events-append c u xs ys

short_events-append :
    (c u : ℤ) (xs ys : List Request)
    → short_events c u (xs ++ ys) ≡ short_events c u xs ++ short_events c u ys
unfolding short_events
short_events-append c u [] ys = refl
short_events-append c u (dup chat user hash now ∷ xs) ys = short_events-append c u xs ys
short_events-append c u (short chat user now ∷ xs) ys =
    ground (arith, short_events-append c u xs ys)
short_events-append c u (sweep_all age now ∷ xs) ys = short_events-append c u xs ys

count_if-latest :
    {E : Type 0} (p : E → Bool) (es : List E) (e : E)
    → p e ≡ true
    → count_if p (es ++ e ∷ []) ≡ suc (count_if p es)
count_if-latest p [] e h = rw h refl
count_if-latest p (x ∷ es) e h = ground (arith, count_if-latest p es e h)

length-latest : {E : Type 0} (es : List E) (e : E) → length (es ++ e ∷ []) ≡ suc (length es)
length-latest es e = omega (arith, length-append es (e ∷ []))

module _ (dup_window short_window : ℕ) where
  abbrev pub answer : Request → MemHistory → MemHistory × ℕ
  unfolding record_and_count_dup recent_short_count sweep
  answer (dup chat user hash now) h = record_and_count_dup chat user hash dup_window now h
  answer (short chat user now) h = recent_short_count chat user short_window now h
  answer (sweep_all max_age now) h = (sweep max_age now h, 0)

  abbrev pub answers : List Request → MemHistory → List ℕ
  answers [] h = []
  answers (r ∷ rs) h = let (h', n) = answer r h in n ∷ answers rs h'

  -- The specification: the events of the whole past that lie within the window, and the new one.
  abbrev pub expected : List Request → Request → ℕ
  expected past (dup chat user hash now) = suc (
      count_if (λ e. str_eq e.hash hash)
        (keep (λ e. within_window e.ts now dup_window) (dup_events chat user past)))
  expected past (short chat user now) =
      suc (length (keep (λ e. within_window e.ts now short_window) (short_events chat user past)))
  expected past (sweep_all max_age now) = 0

  abbrev pub expected_all : List Request → List Request → List ℕ
  expected_all past [] = []
  expected_all past (r ∷ rs) = expected past r ∷ expected_all (past ++ r ∷ []) rs

  -- A sweep must not be shorter than a window.
  abbrev pub IsLongEnough : Request → Type 0
  IsLongEnough (sweep_all max_age now) = (dup_window ≤ max_age) × (short_window ≤ max_age)
  IsLongEnough _ = Unit

  -- The clock does not run backwards.
  abbrev pub InOrder : ℕ → List Request → Type 0
  InOrder t [] = Unit
  InOrder t (r ∷ rs) = (t ≤ time r) × IsLongEnough r × InOrder (time r) rs

  -- From the time t on, the buckets show what the log shows.
  record Shows (t : ℕ) (past : List Request) (h : MemHistory) : Type 0 where
    dup :
        (c u : ℤ) (later : ℕ)
        → t ≤ later
        → keep (λ e. within_window e.ts later dup_window) (bucket_or_new (h c u)).dup
          ≡ keep (λ e. within_window e.ts later dup_window) (dup_events c u past)
    short :
        (c u : ℤ) (later : ℕ)
        → t ≤ later
        → keep (λ e. within_window e.ts later short_window) (bucket_or_new (h c u)).short
          ≡ keep (λ e. within_window e.ts later short_window) (short_events c u past)

  dup_events-latest :
      (c u chat user : ℤ) (past : List Request) (hash : String) (now : ℕ)
      → dup_events c u (past ++ dup chat user hash now ∷ [])
        ≡ dup_events c u past
          ++ (if same c chat && same u user then record { hash = hash; ts = now } ∷ [] else [])
  unfolding dup_events
  dup_events-latest c u chat user past hash now = dup_events-append c u past _

  short_events-latest :
      (c u chat user : ℤ) (past : List Request) (now : ℕ)
      → short_events c u (past ++ short chat user now ∷ [])
        ≡ short_events c u past
          ++ (if same c chat && same u user then record { ts = now } ∷ [] else [])
  unfolding short_events
  short_events-latest c u chat user past now = short_events-append c u past _

  short_events-dup :
      (c u chat user : ℤ) (past : List Request) (hash : String) (now : ℕ)
      → short_events c u (past ++ dup chat user hash now ∷ []) ≡ short_events c u past
  unfolding short_events
  short_events-dup c u chat user past hash now = short_events-append c u past _ ∙ append-nil _

  dup_events-short :
      (c u chat user : ℤ) (past : List Request) (now : ℕ)
      → dup_events c u (past ++ short chat user now ∷ []) ≡ dup_events c u past
  unfolding dup_events
  dup_events-short c u chat user past now = dup_events-append c u past _ ∙ append-nil _

  events-sweep :
      (c u : ℤ) (past : List Request) (age now : ℕ)
      → (dup_events c u (past ++ sweep_all age now ∷ []) ≡ dup_events c u past)
        × (short_events c u (past ++ sweep_all age now ∷ []) ≡ short_events c u past)
  unfolding dup_events short_events
  events-sweep c u past age now =
      (dup_events-append c u past _ ∙ append-nil _, short_events-append c u past _ ∙ append-nil _)

  dup-Shows :
      {t : ℕ} {past : List Request} {h : MemHistory} (chat user : ℤ) (hash : String) (now : ℕ)
      → t ≤ now
      → Shows t past h
      → Shows now (past ++ dup chat user hash now ∷ []) (answer (dup chat user hash now) h).0
  unfolding answer record_and_count_dup put
  dup-Shows {t} {past} {h} chat user hash now le s = record {
    dup = λ c u later l. elim (Bool-cases (same c chat && same u user)) [
      | inl k ↦
          let (ec, eu) = same_key c u chat user k in
          rw (dup_events-latest c u chat user past hash now, k, ec, eu)
            (keep-prune-add _ _ _ (dup_events chat user past) (record { hash = hash; ts = now })
              (λ e. within_window-later e.ts now later dup_window dup_window l (omega arith))
              (s.dup chat user later (omega arith)))
      | inr k ↦
          rw (dup_events-latest c u chat user past hash now, k, append-nil)
            (s.dup c u later (omega arith))
    ];
    short = λ c u later l. elim (Bool-cases (same c chat && same u user)) [
      | inl k ↦
          let (ec, eu) = same_key c u chat user k in
          rw (short_events-dup c u chat user past hash now, k, ec, eu)
            (s.short chat user later (omega arith))
      | inr k ↦
          rw (short_events-dup c u chat user past hash now, k) (s.short c u later (omega arith))
    ];
  }

  short-Shows :
      {t : ℕ} {past : List Request} {h : MemHistory} (chat user : ℤ) (now : ℕ)
      → t ≤ now
      → Shows t past h
      → Shows now (past ++ short chat user now ∷ []) (answer (short chat user now) h).0
  unfolding answer recent_short_count put
  short-Shows {t} {past} {h} chat user now le s = record {
    dup = λ c u later l. elim (Bool-cases (same c chat && same u user)) [
      | inl k ↦
          let (ec, eu) = same_key c u chat user k in
          rw (dup_events-short c u chat user past now, k, ec, eu)
            (s.dup chat user later (omega arith))
      | inr k ↦ rw (dup_events-short c u chat user past now, k) (s.dup c u later (omega arith))
    ];
    short = λ c u later l. elim (Bool-cases (same c chat && same u user)) [
      | inl k ↦
          let (ec, eu) = same_key c u chat user k in
          rw (short_events-latest c u chat user past now, k, ec, eu)
            (keep-prune-add _ _ _ (short_events chat user past) (record { ts = now })
              (λ e. within_window-later e.ts now later short_window short_window l (omega arith))
              (s.short chat user later (omega arith)))
      | inr k ↦
          rw (short_events-latest c u chat user past now, k, append-nil)
            (s.short c u later (omega arith))
    ];
  }

  -- A bucket that is removed shows what the empty one does.
  removed_or_kept :
      (d : List DupEvent) (s : List ShortEvent)
      → bucket_or_new
          (if is_empty d && is_empty s then none else some (record { dup = d; short = s }))
        ≡ record { dup = d; short = s }
  removed_or_kept [] [] = refl
  removed_or_kept [] (x ∷ s) = refl
  removed_or_kept (x ∷ d) s = refl

  swept :
      (age now : ℕ) (b : Option HistoryBucket)
      → bucket_or_new (sweep_bucket age now b) ≡ record {
        dup = prune (λ e. within_window e.ts now age) (bucket_or_new b).dup;
        short = prune (λ e. within_window e.ts now age) (bucket_or_new b).short;
      }
  unfolding prune
  swept age now none = refl
  swept age now (some b) = removed_or_kept _ _

  sweep-Shows :
      {t : ℕ} {past : List Request} {h : MemHistory} (age now : ℕ)
      → t ≤ now
      → (dup_window ≤ age) × (short_window ≤ age)
      → Shows t past h
      → Shows now (past ++ sweep_all age now ∷ []) (answer (sweep_all age now) h).0
  unfolding answer sweep
  sweep-Shows {t} {past} {h} age now le long s = record {
    dup = λ c u later l.
        rw ((events-sweep c u past age now).0, swept age now (h c u))
          (keep-prune _ _ _ (dup_events c u past)
            (λ e. within_window-later e.ts now later dup_window age l long.0)
            (s.dup c u later (omega arith)));
    short = λ c u later l.
        rw ((events-sweep c u past age now).1, swept age now (h c u))
          (keep-prune _ _ _ (short_events c u past)
            (λ e. within_window-later e.ts now later short_window age l long.1)
            (s.short c u later (omega arith)));
  }

  answer-Shows :
      {t : ℕ} {past : List Request} {h : MemHistory} (r : Request)
      → t ≤ time r
      → IsLongEnough r
      → Shows t past h
      → Shows (time r) (past ++ r ∷ []) (answer r h).0
  answer-Shows (dup chat user hash now) le long s = dup-Shows chat user hash now le s
  answer-Shows (short chat user now) le long s = short-Shows chat user now le s
  answer-Shows (sweep_all age now) le long s = sweep-Shows age now le long s

  answer-expected :
      {t : ℕ} {past : List Request} {h : MemHistory} (r : Request)
      → t ≤ time r
      → Shows t past h
      → (answer r h).1 ≡ expected past r
  unfolding answer record_and_count_dup recent_short_count
  answer-expected {h = h} (dup chat user hash now) le s =
      rw
        (
          prune-keep (λ e. within_window e.ts now dup_window) (bucket_or_new (h chat user)).dup,
          s.dup chat user now le,
        )
        (count_if-latest (λ e. str_eq e.hash hash) _ _ (eq_refl hash))
  answer-expected {h = h} (short chat user now) le s =
      rw
        (
          prune-keep (λ e. within_window e.ts now short_window) (bucket_or_new (h chat user)).short,
          s.short chat user now le,
        )
        (length-latest _ _)
  answer-expected (sweep_all age now) le s = refl

  answers-Shows :
      (t : ℕ) (past rs : List Request) (h : MemHistory)
      → InOrder t rs
      → Shows t past h
      → answers rs h ≡ expected_all past rs
  answers-Shows t past [] h o s = refl
  answers-Shows t past (r ∷ rs) h (le, long, o) s =
      rw
        (
          answer-expected r le s,
          answers-Shows (time r) (past ++ r ∷ []) rs _ o (answer-Shows r le long s),
        )
        refl

-- MemHistory from its start, on calls of RecordAndCountDup, RecentShortCount and Sweep in the order of
-- the clock, with a fixed window for each count and no sweep shorter than a window: each call answers the
-- number of that user's messages in that chat, in the whole past, that lie within the window (those of the
-- same hash for the first), plus the message itself. Pruning and sweeping lose nothing that counts.
pub answers-expected :
    (dup_window short_window : ℕ) (rs : List Request)
    → InOrder dup_window short_window 0 rs
    → answers dup_window short_window rs new_mem_history
      ≡ expected_all dup_window short_window [] rs
answers-expected d w rs o = answers-Shows d w 0 [] rs new_mem_history o (record {
  dup = λ c u later l. unfold dup_events in refl;
  short = λ c u later l. unfold short_events in refl;
})
