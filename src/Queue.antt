-- ===== src/Queue.antt =====
-- internal/queue/queue.go: the outbound queue. container/heap keeps the jobs in some order
-- and pops one that is least by Less; here the jobs are a list in the order of their pushes.
-- What a job runs is a number here.
pub mod Priority
pub mod Dispatcher
use telegram_antispam.Common.{
  ℕ, zero, suc, ◌==◌, ltb, ℤ, Bool, true, false, if◌then◌else◌, List, [], ◌∷◌, ◌++◌, Option, none,
  some,
}

-- type Job: its priority (0 is PrioHigh), its number, and what Run stands for.
pub record Job : Type 0 where
  pub priority : ℕ
  pub run : ℕ
  pub seq : ℕ

-- pqueue.Less
unfoldable pub less : Job → Job → Bool
less a b = if a.priority == b.priority then ltb a.seq b.seq else ltb a.priority b.priority

-- type Queue
pub record Queue : Type 0 where
  pub pq : List Job
  pub next : ℕ

-- New
abbrev pub new_queue : Queue
new_queue = record { pq = []; next = 0 }

-- Queue.reserveSeq
abbrev pub reserve_seq : Queue → Queue × ℕ
reserve_seq q = (record q { next = suc q.next }, q.next)

-- Queue.pushSeq
abbrev pub push_seq : Job → Queue → Queue
push_seq j q = record q { pq = q.pq ++ j ∷ [] }

-- Queue.Push
abbrev pub push : Job → Queue → Queue
push j q = record q { pq = q.pq ++ record j { seq = q.next } ∷ []; next = suc q.next }

-- heap.Pop: the least job and the others.
unfoldable pub pop_least : Job → List Job → Job × List Job
pop_least j [] = (j, [])
pop_least j (k ∷ ks) =
    let (least, others) = pop_least k ks in
    if less least j then (least, j ∷ others) else (j, k ∷ ks)

-- Queue.pop
unfoldable pub pop : Queue → Queue × Option Job
unfolding pop_least less
pop q = elim q.pq [
  | [] ↦ (q, none)
  | j ∷ js ↦ let (least, others) = pop_least j js in (record q { pq = others }, some least)
]

-- A queue that is popped until it is empty, on fuel: as many rounds as there are jobs are enough.
unfoldable pub drain : ℕ → Queue → List Job
unfolding pop
drain zero q = []
drain (suc n) q =
    let (q', popped) = pop q in
    let rest = drain n q' in elim popped [ none ↦ [] | some j ↦ j ∷ rest ]
