-- ===== src/Telegram/Sequencer/Drain.antt =====
-- internal/telegram/sequencer.go: the steps that a worker makes by itself after quit is closed.
use telegram_antispam.Common.{
  ℕ, suc, ◌+◌, ℤ, same, same_iff, same_refl, Bool, true, false, List, [], ◌∷◌, ◌++◌, length, ◌≡◌,
  refl, sym, ap, ◌∙◌, subst, arith, ◌≤◌, Bool-cases, inl, inr,
}
use mathlib.Core.List.{append-nil}
use telegram_antispam.Telegram.Sequencer.Order.{Steps-InOrder}
use telegram_antispam.Telegram.Sequencer.{
  Job, Worker, absent, looping, draining, returned, Lane, Sequencer, new_sequencer, set_lane, Step,
  Steps, refuse, enter, send, turn_away, drop, take, see_quit, exit, close, stay, followed_by,
  run_job, is_running,
}

-- A step of the worker of a chat.
unfoldable pub is_own : (c : ℤ) {s t : Sequencer} → Step s t → Bool
is_own c (take d j rest w e) = same d c
is_own c (see_quit d w k) = same d c
is_own c (exit d w e) = same d c
is_own c _ = false

-- Runs in which only the worker of a chat makes steps, by their length.
pub data OwnSteps (c : ℤ) (s : Sequencer) : ℕ → Sequencer → Type 0 where
  begins : OwnSteps c s 0 s
  goes_on :
      {n : ℕ} {t u : Sequencer}
      → OwnSteps c s n t
      → (last : Step t u) → is_own c last ≡ true
      → OwnSteps c s (suc n) u

-- The worker has no step to make.
abbrev pub Halted : ℤ → Sequencer → Type 0
Halted c t = (u : Sequencer) (next : Step t u) → is_own c next ≡ false

-- How many steps a worker has before it.
abbrev worker_steps : Worker → ℕ
worker_steps looping = 2
worker_steps draining = 1
worker_steps _ = 0

abbrev pub steps_left : Lane → ℕ
steps_left l = length l.queue + worker_steps l.worker

abbrev Closing : List Job → Worker → Type 0
Closing q absent = ⊥
Closing q looping = Unit
Closing q draining = Unit
Closing q returned = q ≡ []

-- What the worker of a closed sequencer keeps, with the jobs accepted before.
pub record Drains (accepted : List Job) (closed : Bool) (l : Lane) : Type 0 where
  is_closed : closed ≡ true
  same_accepted : l.accepted ≡ accepted
  at_work : Closing l.queue l.worker

own_lane : (c : ℤ) (l : Lane) (s : Sequencer) → (set_lane c l s).lanes c ≡ l
unfolding set_lane
own_lane c l s = rw (same_refl c) refl

emptied : (q : List Job) (w : Worker) → Closing q w → w ≡ returned → q ≡ []
emptied q absent h e = absurd h
emptied q looping h e = absurd cc
emptied q draining h e = absurd cc
emptied q returned h e = h

at_work_still : (q : List Job) (w : Worker) → is_running w ≡ true → Closing q w
at_work_still q absent h = absurd (let k : false ≡ true = h in cc)
at_work_still q looping h = tt
at_work_still q draining h = tt
at_work_still q returned h = absurd (let k : false ≡ true = h in cc)

-- What a step of the worker makes of its lane.
abbrev Next : List Job → Bool → Lane → Lane → Type 0
Next accepted closed l l' = Drains accepted closed l' × (suc (steps_left l') ≡ steps_left l)

set_lane-Next :
    (c d : ℤ) (l : Lane) (s : Sequencer) (accepted : List Job)
    → same d c ≡ true
    → (Drains accepted s.closed (s.lanes d) → Next accepted s.closed (s.lanes d) l)
    → Drains accepted s.closed (s.lanes c)
    → Next accepted s.closed (s.lanes c) ((set_lane d l s).lanes c)
set_lane-Next c d l s accepted o f =
    subst
      (λ x.
        Drains accepted s.closed (s.lanes x)
        → Next accepted s.closed (s.lanes x) ((set_lane d l s).lanes x))
      ((same_iff d c).0 o)
      (λ h. subst (Next accepted s.closed (s.lanes d)) (sym (own_lane d l s)) (f h))

-- A step of the worker takes one from the steps left.
Step-own :
    {s t : Sequencer} (c : ℤ) (accepted : List Job) (step : Step s t)
    → is_own c step ≡ true
    → Drains accepted s.closed (s.lanes c)
    → Drains accepted t.closed (t.lanes c) × (suc (steps_left (t.lanes c)) ≡ steps_left (s.lanes c))
unfolding is_own set_lane
Step-own {s} c accepted (take d j rest w e) o h =
    set_lane-Next c d (run_job j rest (s.lanes d)) s accepted o
      (λ h. (
        record {
          is_closed = h.is_closed;
          same_accepted = h.same_accepted;
          at_work = at_work_still rest (s.lanes d).worker w;
        },
        omega (arith, ap length e),
      ))
      h
Step-own {s} c accepted (see_quit d w k) o h =
    set_lane-Next c d (record (s.lanes d) { worker = draining }) s accepted o
      (λ h. (
        record { is_closed = h.is_closed; same_accepted = h.same_accepted; at_work = tt },
        omega (arith, ap worker_steps w),
      ))
      h
Step-own {s} c accepted (exit d w e) o h =
    set_lane-Next c d (record (s.lanes d) { worker = returned }) s accepted o
      (λ h. (
        record { is_closed = h.is_closed; same_accepted = h.same_accepted; at_work = e },
        omega (arith, ap worker_steps w),
      ))
      h
Step-own c accepted (refuse e) o h = absurd (let k : false ≡ true = o in cc)
Step-own c accepted (enter d j e) o h = absurd (let k : false ≡ true = o in cc)
Step-own c accepted (send d j before after e room) o h = absurd (let k : false ≡ true = o in cc)
Step-own c accepted (turn_away d j before after e k) o h = absurd (let k : false ≡ true = o in cc)
Step-own c accepted (drop d j before after e full k) o h = absurd (let k : false ≡ true = o in cc)
Step-own c accepted close o h = absurd (let k : false ≡ true = o in cc)

OwnSteps-Drains :
    (c : ℤ) (accepted : List Job) {s t : Sequencer} {n : ℕ}
    → OwnSteps c s n t
    → Drains accepted s.closed (s.lanes c)
    → Drains accepted t.closed (t.lanes c) × (n + steps_left (t.lanes c) ≡ steps_left (s.lanes c))
OwnSteps-Drains c accepted begins h = (h, omega arith)
OwnSteps-Drains c accepted (goes_on run last o) h =
    let (d, e) = OwnSteps-Drains c accepted run h in
    let (d', e') = Step-own c accepted last o d in (d', omega (arith, e, e'))

OwnSteps-Steps : (c : ℤ) {s t : Sequencer} {n : ℕ} → OwnSteps c s n t → Steps s t
OwnSteps-Steps c begins = stay
OwnSteps-Steps c (goes_on run last o) = followed_by (OwnSteps-Steps c run) last

and_then : {s t u : Sequencer} → Steps s t → Steps t u → Steps s u
and_then p stay = p
and_then p (followed_by q last) = followed_by (and_then p q) last

moves : (b : Bool) → b ≡ true → b ≡ false → ⊥
moves b h k = cc

-- A worker at work that has no step to make has returned.
over_when_stuck :
    (c : ℤ) (t : Sequencer) (w : Worker) (q : List Job)
    → (t.lanes c).worker ≡ w
    → (t.lanes c).queue ≡ q
    → t.closed ≡ true
    → Closing q w
    → Halted c t
    → w ≡ returned
unfolding is_own
over_when_stuck c t absent q e f k h stuck = absurd h
over_when_stuck c t returned q e f k h stuck = refl
over_when_stuck c t looping q e f k h stuck =
    absurd (moves (same c c) (same_refl c) (stuck _ (see_quit c e k)))
over_when_stuck c t draining [] e f k h stuck =
    absurd (moves (same c c) (same_refl c) (stuck _ (exit c e f)))
over_when_stuck c t draining (j ∷ q) e f k h stuck =
    absurd (moves (same c c) (same_refl c) (stuck _ (take c j q (rw e refl) f)))

all_ran : (ran accepted q : List Job) → accepted ≡ ran ++ q → q ≡ [] → ran ≡ accepted
all_ran ran accepted q e f = sym (e ∙ ap (λ x. ran ++ x) f ∙ append-nil ran)

starts_draining :
    (c : ℤ) (s : Sequencer)
    → s.closed ≡ true
    → (s.lanes c).worker ≡ looping
    → Drains (s.lanes c).accepted s.closed (s.lanes c)
starts_draining c s k w = record {
  is_closed = k;
  same_accepted = refl;
  at_work = at_work_still (s.lanes c).queue (s.lanes c).worker (rw w refl);
}

apart : (d c : ℤ) (P : ℤ → Type 0) → P d → ¬ P c → same d c ≡ false
apart d c P p q = elim (Bool-cases (same d c)) [
  | inl e ↦ absurd (q (subst P ((same_iff d c).0 e) p))
  | inr e ↦ e
]

-- A worker that has returned makes no step.
pub returned-Halted : (c : ℤ) (t : Sequencer) → (t.lanes c).worker ≡ returned → Halted c t
unfolding is_own
returned-Halted c t e u (take d j rest w q) =
    apart d c (λ x. is_running (t.lanes x).worker ≡ true) w
      (λ h. let k : false ≡ true = rw e at h in cc)
returned-Halted c t e u (see_quit d w k) =
    apart d c (λ x. (t.lanes x).worker ≡ looping) w
      (λ h. let k : returned ≡ looping = rw e at h in cc)
returned-Halted c t e u (exit d w q) =
    apart d c (λ x. (t.lanes x).worker ≡ draining) w
      (λ h. let k : returned ≡ draining = rw e at h in cc)
returned-Halted c t e u (refuse h) = refl
returned-Halted c t e u (enter d j h) = refl
returned-Halted c t e u (send d j before after h room) = refl
returned-Halted c t e u (turn_away d j before after h k) = refl
returned-Halted c t e u (drop d j before after h full k) = refl
returned-Halted c t e u close = refl

-- Once quit is closed and a chat's worker is in its loop, a run of the worker's own steps, whichever arms
-- its selects choose, has at most two steps more than jobs were queued.
pub OwnSteps-bounded :
    {s t : Sequencer} (c : ℤ) (n : ℕ)
    → s.closed ≡ true
    → (s.lanes c).worker ≡ looping
    → OwnSteps c s n t
    → n ≤ length (s.lanes c).queue + 2
OwnSteps-bounded {s} c n k w run =
    let (d, e) = OwnSteps-Drains c (s.lanes c).accepted run (starts_draining c s k w) in
    omega (arith, e, ap worker_steps w)

-- Wait on a chat: from any state that the sequencer reaches and in which quit is closed and the chat's
-- worker is in its loop, each run of the worker's own steps, whichever arms its selects choose, that
-- has come to a state in which the worker has no further step has as many steps as jobs were queued and
-- two more; the worker has returned, and has run every job that the chat's TrySubmit had accepted when
-- the run began, in that order.
pub wait-drains :
    {s t : Sequencer} (c : ℤ) (n : ℕ)
    → Steps new_sequencer s
    → s.closed ≡ true
    → (s.lanes c).worker ≡ looping
    → OwnSteps c s n t
    → Halted c t
    → ((t.lanes c).worker ≡ returned)
      × (n ≡ length (s.lanes c).queue + 2)
      × ((t.lanes c).ran ≡ (s.lanes c).accepted)
wait-drains {s} {t} c n past k w run stuck =
    let (d, e) = OwnSteps-Drains c (s.lanes c).accepted run (starts_draining c s k w) in
    let over =
      over_when_stuck c t (t.lanes c).worker (t.lanes c).queue refl refl d.is_closed d.at_work
        stuck in
    let empty = emptied (t.lanes c).queue (t.lanes c).worker d.at_work over in
    let whole = Steps-InOrder (and_then past (OwnSteps-Steps c run)) c in
    (
      over,
      omega (arith, e, ap worker_steps w, ap worker_steps over, ap length empty),
      all_ran (t.lanes c).ran (t.lanes c).accepted (t.lanes c).queue whole.in_order empty
          ∙ d.same_accepted,
    )
