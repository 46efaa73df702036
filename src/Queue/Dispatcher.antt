-- ===== src/Queue/Dispatcher.antt =====
-- internal/queue/dispatcher.go: Submit and Run as a step relation, in any interleaving of any number of
-- submitters with the one loop of Run. The n-th reserved sequence number belongs to a submission for the
-- chat `owner n`, where owner is any assignment. The rate limits and what Run does with the error are
-- left out: a job that is to be retried is submitted again, as any other. A sequence number stays
-- below 2 ^ 64.
pub mod Chats
use telegram_antispam.Common.{
  ℕ, ◌==◌, ℤ, if◌then◌else◌, List, [], ◌∷◌, ◌++◌, Option, none, some, ◌≡◌,
}
use telegram_antispam.Queue.{Job, Queue, new_queue, reserve_seq, push_seq, pop}

-- type Dispatcher, with the calls of Submit under way (a number is reserved, or also recorded in `jobs`)
-- and what Run took: each job with the chat that it looked up, or none where there is no entry.
pub record Dispatcher : Type 0 where
  pub queue : Queue
  pub jobs : ℕ → Option ℤ
  pub stamped : List Job
  pub recorded : List Job
  pub taken : List (Job × Option ℤ)

-- NewDispatcher
abbrev pub new_dispatcher : Dispatcher
new_dispatcher = record {
  queue = new_queue;
  jobs = λ n. none;
  stamped = [];
  recorded = [];
  taken = [];
}

-- The assignment d.jobs[seq] = chat, or its deletion.
abbrev pub set_chat : ℕ → Option ℤ → (ℕ → Option ℤ) → ℕ → Option ℤ
set_chat n c jobs m = if m == n then c else jobs m

-- Submit reserves a number.
abbrev pub reserve : Job → Dispatcher → Dispatcher
reserve j d =
    let (q, n) = reserve_seq d.queue in
    record d { queue = q; stamped = record j { seq = n } ∷ d.stamped }

-- Submit records the chat, under the lock of the map.
abbrev pub record_chat : ℤ → Job → List Job → Dispatcher → Dispatcher
record_chat chat j others d = record d {
  jobs = set_chat j.seq (some chat) d.jobs;
  stamped = others;
  recorded = j ∷ d.recorded;
}

-- Submit pushes the job.
abbrev pub push_job : Job → List Job → Dispatcher → Dispatcher
push_job j others d = record d { queue = push_seq j d.queue; recorded = others }

-- Run, on a job that it popped.
abbrev pub run_popped : Queue → Job → Dispatcher → Dispatcher
run_popped q j d = record d {
  queue = q;
  jobs = set_chat j.seq none d.jobs;
  taken = (j, d.jobs j.seq) ∷ d.taken;
}

module _ (owner : ℕ → ℤ) where
  pub data Step (d : Dispatcher) : Dispatcher → Type 0 where
    reserve_step : (j : Job) → Step d (reserve j d)
    record_step :
        (j : Job) (before after : List Job)
        → d.stamped ≡ before ++ j ∷ after
        → Step d (record_chat (owner j.seq) j (before ++ after) d)
    push_step :
        (j : Job) (before after : List Job)
        → d.recorded ≡ before ++ j ∷ after
        → Step d (push_job j (before ++ after) d)
    run_step : (q : Queue) (j : Job) → pop d.queue ≡ (q, some j) → Step d (run_popped q j d)

  pub data Steps (d : Dispatcher) : Dispatcher → Type 0 where
    stay : Steps d d
    followed_by : {e f : Dispatcher} → Steps d e → Step e f → Steps d f
