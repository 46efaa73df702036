-- ===== src/Queue/Dispatcher/Chats.antt =====
-- Run never takes a job whose chat it does not know.
use telegram_antispam.Common.{
  ℕ, ◌+◌, ◌≤◌, ◌==◌, ==_refl, ==_iff, ltb, ℤ, Bool, true, if◌then◌else◌, List, [], ◌∷◌, ◌++◌,
  Option, none, some, count_if, ◌≡◌, refl, sym, ap, ◌∙◌, arith, Bool-cases, inl, inr,
}
use telegram_antispam.Queue.{Job, Queue, pop, pop_least}
use telegram_antispam.Queue.Priority.{pop_least-Taken, count_if-middle}
use telegram_antispam.Queue.Dispatcher.{
  Dispatcher, new_dispatcher, reserve, record_chat, push_job, run_popped, Step, Steps, reserve_step,
  record_step, push_step, run_step, stay, followed_by,
}

abbrev pub has_seq : ℕ → Job → Bool
has_seq n j = j.seq == n

abbrev pub took_seq : ℕ → Job × Option ℤ → Bool
took_seq n (j, c) = j.seq == n

-- How often a number is on its way into the queue, and in how many places it is at all.
abbrev pub visible : ℕ → Dispatcher → ℕ
visible n d = count_if (has_seq n) d.queue.pq + count_if (has_seq n) d.recorded

abbrev pub places : ℕ → Dispatcher → ℕ
places n d = visible n d + count_if (has_seq n) d.stamped + count_if (took_seq n) d.taken

count_if-add :
    (p : Job → Bool) (js : List Job) (j : Job) → count_if p (js ++ j ∷ []) ≡ count_if p (j ∷ js)
count_if-add p [] j = refl
count_if-add p (k ∷ js) j = ground (arith, count_if-add p js j)

seq_twice : (n : ℕ) (j : Job) → (n == j.seq) ≡ true → has_seq n j ≡ true
seq_twice n j h = ground (arith, h)

-- A job taken out of the queue.
record Popped (q q' : Queue) (j : Job) : Type 0 where
  before : List Job
  after : List Job
  stood : q.pq ≡ before ++ j ∷ after
  left : q'.pq ≡ before ++ after
  same_next : q'.next ≡ q.next

pop-Popped :
    (js : List Job) (next : ℕ) (q : Queue) (j : Job)
    → pop (record { pq = js; next = next }) ≡ (q, some j)
    → Popped (record { pq = js; next = next }) q j
unfolding pop
pop-Popped [] next q j e = absurd (let k : none ≡ some j = ap (λ r. r.1) e in cc)
pop-Popped (k ∷ js) next q j e =
    let t = pop_least-Taken k js in
    let eq : record { pq = (pop_least k js).1; next = next } ≡ q = ap (λ r. r.0) e in
    let ej : some (pop_least k js).0 ≡ some j = ap (λ r. r.1) e in
    let el : (pop_least k js).0 ≡ j = cc in
    record {
      before = t.before;
      after = t.after;
      stood = t.stood ∙ ap (λ x. t.before ++ x ∷ t.after) el;
      left = ap (λ x. x.pq) (sym eq) ∙ t.left;
      same_next = ap (λ x. x.next) (sym eq);
    }

module _ (owner : ℕ → ℤ) where
  abbrev pub AllOwned : List (Job × Option ℤ) → Type 0
  AllOwned [] = Unit
  AllOwned ((j, c) ∷ rest) = (c ≡ some (owner j.seq)) × AllOwned rest

  pub record Sound (d : Dispatcher) : Type 0 where
    pub once : (n : ℕ) → places n d ≡ (if ltb n d.queue.next then 1 else 0)
    pub mapped : (n : ℕ) → 1 ≤ visible n d → d.jobs n ≡ some (owner n)
    pub owned : AllOwned d.taken

  reserve-Sound : {d : Dispatcher} (j : Job) → Sound d → Sound (reserve j d)
  reserve-Sound {d} j s = record {
    once = λ n. let h = s.once n in ground (arith, h);
    mapped = s.mapped;
    owned = s.owned;
  }

  record-Sound :
      {d : Dispatcher} (j : Job) (before after : List Job)
      → d.stamped ≡ before ++ j ∷ after
      → Sound d
      → Sound (record_chat (owner j.seq) j (before ++ after) d)
  record-Sound {d} j before after e s = record {
    once = λ n.
        let h = s.once n in
        let m = ap (count_if (has_seq n)) e ∙ count_if-middle (has_seq n) j before after in
        ground (arith, h, m);
    mapped = λ n l. elim (Bool-cases (n == j.seq)) [
      | inl own ↦ rw (own, (==_iff n j.seq).0 own) refl
      | inr other ↦ rw other (s.mapped n (ground (arith, l)))
    ];
    owned = s.owned;
  }

  push-Sound :
      {d : Dispatcher} (j : Job) (before after : List Job)
      → d.recorded ≡ before ++ j ∷ after
      → Sound d
      → Sound (push_job j (before ++ after) d)
  push-Sound {d} j before after e s =
      let m = λ (n : ℕ). ap (count_if (has_seq n)) e ∙ count_if-middle (has_seq n) j before after in
      let p = λ (n : ℕ). count_if-add (has_seq n) d.queue.pq j in
      record {
        once = λ n. let h = s.once n in let m' = m n in let p' = p n in ground (arith, h, m', p');
        mapped = λ n l. let m' = m n in let p' = p n in s.mapped n (ground (arith, l, m', p'));
        owned = s.owned;
      }

  run-Sound :
      {d : Dispatcher} (q : Queue) (j : Job)
      → Popped d.queue q j
      → Sound d
      → Sound (run_popped q j d)
  run-Sound {d} q j t s =
      let m = λ (n : ℕ).
        ap (count_if (has_seq n)) t.stood
        ∙ count_if-middle (has_seq n) j t.before t.after
        ∙ ap (λ xs. count_if (has_seq n) (j ∷ xs)) (sym t.left) in
      record {
        once = λ n. let h = s.once n in let m' = m n in rw t.same_next (ground (arith, h, m'));
        mapped = λ n l.
            let h = s.once n in
            let m' = m n in
            elim (Bool-cases (n == j.seq)) [
              | inl own ↦ absurd (let o = seq_twice n j own in ground (arith, h, m', o, l))
              | inr other ↦ rw other (s.mapped n (ground (arith, l, m')))
            ];
        owned = (
          s.mapped j.seq (let m' = m j.seq in let o = ==_refl j.seq in ground (arith, m', o)),
          s.owned,
        );
      }

  Step-Sound : {d e : Dispatcher} → Step owner d e → Sound d → Sound e
  Step-Sound (reserve_step j) s = reserve-Sound j s
  Step-Sound (record_step j before after e) s = record-Sound j before after e s
  Step-Sound (push_step j before after e) s = push-Sound j before after e s
  Step-Sound {d = d} (run_step q j e) s = run-Sound q j (pop-Popped d.queue.pq d.queue.next q j e) s

  -- Submit and Run from a new dispatcher, in any interleaving: every job that Run took was looked up with the
  -- chat that it was submitted for, never without an entry in `jobs`; and every sequence number that was
  -- reserved is in exactly one place, with a call of Submit, in the queue or taken by Run, so no job is lost
  -- and none runs twice.
  pub Steps-Sound : {d : Dispatcher} → Steps owner new_dispatcher d → Sound d
  Steps-Sound stay = record {
    once = λ n. ground arith;
    mapped = λ n l. absurd (omega (arith, l));
    owned = tt;
  }
  Steps-Sound (followed_by past last) = Step-Sound last (Steps-Sound past)
