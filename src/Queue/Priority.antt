-- ===== src/Queue/Priority.antt =====
-- Which job is popped, and that no job is lost.
use telegram_antispam.Common.{
  ℕ, zero, suc, length, count_if, ◌≤◌, ◌<◌, Bool, true, false, List, [], ◌∷◌, ◌++◌, ◌≡◌, refl, ◌∙◌,
  ap, sym, subst, arith, Bool-cases, inl, inr, ◌⊎◌,
}
use telegram_antispam.Queue.{Job, Queue, less, pop_least, pop, drain}

-- a is no less urgent than b: a higher priority, or the same and pushed no later.
abbrev pub Before : Job → Job → Type 0
Before a b = (a.priority < b.priority) ⊎ ((a.priority ≡ b.priority) × (a.seq ≤ b.seq))

abbrev pub AllAfter : Job → List Job → Type 0
AllAfter a [] = Unit
AllAfter a (j ∷ js) = Before a j × AllAfter a js

less-Before : (a b : Job) → less a b ≡ true → Before a b
unfolding less
less-Before a b h = ground arith

not_less-Before : (a b : Job) → less a b ≡ false → Before b a
unfolding less
not_less-Before a b h = ground arith

Before-trans : (a b c : Job) → Before a b → Before b c → Before a c
Before-trans a b c h k = ground (arith, h, k)

AllAfter-trans : (a b : Job) (js : List Job) → Before a b → AllAfter b js → AllAfter a js
AllAfter-trans a b [] h k = tt
AllAfter-trans a b (j ∷ js) h k = (Before-trans a b j h k.0, AllAfter-trans a b js h k.1)

AllAfter-insert :
    (a b : Job) (xs ys : List Job) → Before a b → AllAfter a (xs ++ ys) → AllAfter a (xs ++ b ∷ ys)
AllAfter-insert a b [] ys h k = (h, k)
AllAfter-insert a b (x ∷ xs) ys h k = (k.0, AllAfter-insert a b xs ys h k.1)

AllAfter-remove :
    (a b : Job) (xs ys : List Job) → AllAfter a (xs ++ b ∷ ys) → Before a b × AllAfter a (xs ++ ys)
AllAfter-remove a b [] ys k = k
AllAfter-remove a b (x ∷ xs) ys k = let (h, r) = AllAfter-remove a b xs ys k.1 in (h, (k.0, r))

-- A job taken out of a list, from which all others come later.
pub record Taken (j : Job) (all others : List Job) : Type 0 where
  pub before : List Job
  pub after : List Job
  pub stood : all ≡ before ++ j ∷ after
  pub left : others ≡ before ++ after
  pub first : AllAfter j others

pub pop_least-Taken :
    (j : Job) (js : List Job) → let (least, others) = pop_least j js in Taken least (j ∷ js) others
unfolding pop_least
pop_least-Taken j [] = record { before = []; after = []; stood = refl; left = refl; first = tt }
pop_least-Taken j (k ∷ ks) =
    let (least, others) = pop_least k ks in
    let t = pop_least-Taken k ks in
    elim (Bool-cases (less least j)) [
      | inl sooner ↦ rw sooner (record {
        before = j ∷ t.before;
        after = t.after;
        stood = ap (λ l. j ∷ l) t.stood;
        left = ap (λ l. j ∷ l) t.left;
        first = (less-Before least j sooner, t.first);
      })
      | inr later ↦
          let h = not_less-Before least j later in
          rw later (record {
            before = [];
            after = k ∷ ks;
            stood = refl;
            left = refl;
            first = subst (AllAfter j) (sym t.stood) (
                AllAfter-insert j least t.before t.after h
                  (AllAfter-trans j least _ h (subst (AllAfter least) t.left t.first)));
          })
    ]

-- The jobs that count for p, before and after one is taken out.
pub count_if-middle :
    (p : Job → Bool) (j : Job) (xs ys : List Job)
    → count_if p (xs ++ j ∷ ys) ≡ count_if p (j ∷ xs ++ ys)
count_if-middle p j [] ys = refl
count_if-middle p j (x ∷ xs) ys = ground (arith, count_if-middle p j xs ys)

length-middle : (j : Job) (xs ys : List Job) → length (xs ++ j ∷ ys) ≡ suc (length (xs ++ ys))
length-middle j [] ys = refl
length-middle j (x ∷ xs) ys = omega (arith, length-middle j xs ys)

-- In the order of urgency.
abbrev pub Sorted : List Job → Type 0
Sorted [] = Unit
Sorted (j ∷ js) = AllAfter j js × Sorted js

drain-AllAfter :
    (n next : ℕ) (js : List Job) (a : Job)
    → AllAfter a js
    → AllAfter a (drain n (record { pq = js; next = next }))
unfolding drain pop
drain-AllAfter zero next js a h = tt
drain-AllAfter (suc n) next [] a h = tt
drain-AllAfter (suc n) next (j ∷ js) a h =
    let t = pop_least-Taken j js in
    let (first, others) =
      AllAfter-remove a (pop_least j js).0 t.before t.after (subst (AllAfter a) t.stood h) in
    (first, drain-AllAfter n next (pop_least j js).1 a (subst (AllAfter a) (sym t.left) others))

drain-Sorted : (n next : ℕ) (js : List Job) → Sorted (drain n (record { pq = js; next = next }))
unfolding drain pop
drain-Sorted zero next js = tt
drain-Sorted (suc n) next [] = tt
drain-Sorted (suc n) next (j ∷ js) = (
  drain-AllAfter n next (pop_least j js).1 (pop_least j js).0 (pop_least-Taken j js).first,
  drain-Sorted n next (pop_least j js).1,
)

drain-keeps :
    (p : Job → Bool) (n next : ℕ) (js : List Job)
    → length js ≤ n
    → count_if p (drain n (record { pq = js; next = next })) ≡ count_if p js
unfolding drain pop
drain-keeps p zero next [] h = refl
drain-keeps p zero next (j ∷ js) h = absurd (omega arith)
drain-keeps p (suc n) next [] h = refl
drain-keeps p (suc n) next (j ∷ js) h =
    let t = pop_least-Taken j js in
    let least = (pop_least j js).0 in
    let others = (pop_least j js).1 in
    let l : length (j ∷ js) ≡ suc (length others) =
      ap length t.stood
      ∙ length-middle least t.before t.after
      ∙ ap (λ xs. suc (length xs)) (sym t.left) in
    let rest = drain-keeps p n next others (omega arith) in
    let here : count_if p (j ∷ js) ≡ count_if p (least ∷ others) =
      ap (count_if p) t.stood
      ∙ count_if-middle p least t.before t.after
      ∙ ap (λ xs. count_if p (least ∷ xs)) (sym t.left) in
    ground (arith, rest, here)

-- Popping any queue until it is empty gives its jobs in the order of urgency, the higher priority first and,
-- within a priority, the earlier sequence number first; and it gives each of them: for every test, as many
-- jobs pass it as there are in the queue.
pub drain-in_order :
    (q : Queue)
    → Sorted (drain (length q.pq) q)
      × ((p : Job → Bool) → count_if p (drain (length q.pq) q) ≡ count_if p q.pq)
drain-in_order q = (
  drain-Sorted (length q.pq) q.next q.pq,
  λ p. drain-keeps p (length q.pq) q.next q.pq (omega arith),
)
