-- ===== src/Telegram/Sequencer.antt =====
-- internal/telegram/sequencer.go: the interleavings of Submit, the workers and Wait, as a step relation.
-- A step is what happens between two points where another goroutine may run: TrySubmit is one step
-- under the lock and one at its select, a worker's round is one step, with the job that it runs.
-- A chat's lane also keeps what TrySubmit accepted and what was run, in order.
pub mod Order
pub mod Drain
pub mod Shutdown
use telegram_antispam.Common.{
  ℕ, suc, ◌+◌, ◌≤◌, ◌<◌, ℤ, same, Bool, true, false, if◌then◌else◌, List, [], ◌∷◌, ◌++◌, length,
  ◌≡◌, refl,
}

-- A job, and whether it panics.
pub record Job : Type 0 where
  pub id : ℕ
  pub panics : Bool

-- Where the goroutine of worker stands: not started, in its loop, in the loop of the shutdown, returned.
pub data Worker : Type 0 where
  absent looping draining returned : Worker

-- `entering` holds the jobs of the calls of TrySubmit between the lock and the select.
pub record Lane : Type 0 where
  pub worker : Worker
  pub queue : List Job
  pub entering : List Job
  pub accepted : List Job
  pub ran : List Job

-- type Sequencer; quit is closed where `closed` is set.
pub record Sequencer : Type 0 where
  pub closed : Bool
  pub lanes : ℤ → Lane
  pub dropped : ℕ
  pub panicked : ℕ

-- The capacity of a queue, a numeral that no proof looks into.
pub capacity : ℕ
capacity = 1024

abbrev pub no_lane : Lane
no_lane = record { worker = absent; queue = []; entering = []; accepted = []; ran = [] }

-- NewSequencer
abbrev pub new_sequencer : Sequencer
new_sequencer = record { closed = false; lanes = λ c. no_lane; dropped = 0; panicked = 0 }

unfoldable pub set_lane : ℤ → Lane → Sequencer → Sequencer
set_lane c l s = record s { lanes = λ d. if same d c then l else s.lanes d }

-- The first use of a chat starts its worker.
abbrev pub start : Worker → Worker
start absent = looping
start w = w

-- TrySubmit under the lock
abbrev pub entered : Job → Lane → Lane
entered j l = record l { worker = start l.worker; entering = j ∷ l.entering }

-- The send of TrySubmit's select
abbrev pub sent : Job → List Job → Lane → Lane
sent j others l = record l {
  queue = l.queue ++ j ∷ [];
  entering = others;
  accepted = l.accepted ++ j ∷ [];
}

-- Sequencer.run
abbrev pub run_job : Job → List Job → Lane → Lane
run_job j rest l = record l { queue = rest; ran = l.ran ++ j ∷ [] }

abbrev pub panics_more : Job → ℕ → ℕ
panics_more j n = if j.panics then suc n else n

-- A worker that takes jobs.
abbrev pub is_running : Worker → Bool
is_running looping = true
is_running draining = true
is_running _ = false

pub data Step (s : Sequencer) : Sequencer → Type 0 where
  -- TrySubmit finds the sequencer closed.
  refuse : s.closed ≡ true → Step s s
  -- TrySubmit passes the lock.
  enter : (c : ℤ) (j : Job) → s.closed ≡ false → Step s (set_lane c (entered j (s.lanes c)) s)
  -- Its select sends the job: it returns true.
  send :
      (c : ℤ) (j : Job) (before after : List Job)
      → (s.lanes c).entering ≡ before ++ j ∷ after
      → length (s.lanes c).queue < capacity
      → Step s (set_lane c (sent j (before ++ after) (s.lanes c)) s)
  -- Its select sees quit closed: it returns false.
  turn_away :
      (c : ℤ) (j : Job) (before after : List Job)
      → (s.lanes c).entering ≡ before ++ j ∷ after
      → s.closed ≡ true
      → Step s (set_lane c (record (s.lanes c) { entering = before ++ after }) s)
  -- Its select finds neither ready and drops the job: it returns false.
  drop :
      (c : ℤ) (j : Job) (before after : List Job)
      → (s.lanes c).entering ≡ before ++ j ∷ after
      → capacity ≤ length (s.lanes c).queue
      → s.closed ≡ false
      → Step s (record (set_lane c (record (s.lanes c) { entering = before ++ after }) s) {
        dropped = suc s.dropped;
      })
  -- The worker takes a job and runs it, in either of its loops.
  take :
      (c : ℤ) (j : Job) (rest : List Job)
      → is_running (s.lanes c).worker ≡ true
      → (s.lanes c).queue ≡ j ∷ rest
      → Step s (record (set_lane c (run_job j rest (s.lanes c)) s) {
        panicked = panics_more j s.panicked;
      })
  -- The worker sees quit closed.
  see_quit :
      (c : ℤ)
      → (s.lanes c).worker ≡ looping
      → s.closed ≡ true
      → Step s (set_lane c (record (s.lanes c) { worker = draining }) s)
  -- The worker finds its queue empty in the shutdown and returns.
  exit :
      (c : ℤ)
      → (s.lanes c).worker ≡ draining
      → (s.lanes c).queue ≡ []
      → Step s (set_lane c (record (s.lanes c) { worker = returned }) s)
  -- Wait closes quit.
  close : Step s (record s { closed = true })

-- Any interleaving.
pub data Steps (s : Sequencer) : Sequencer → Type 0 where
  stay : Steps s s
  followed_by : {t u : Sequencer} → Steps s t → Step t u → Steps s u
