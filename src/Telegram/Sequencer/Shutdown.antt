-- ===== src/Telegram/Sequencer/Shutdown.antt =====
-- internal/telegram/sequencer.go: TrySubmit against the shutdown.
use telegram_antispam.Common.{
  ◌≤◌, ℤ, same, same_iff, same_refl, true, false, List, [], ◌∷◌, ◌≡◌, refl, Bool-cases, inl, inr,
  arith, subst,
}
use telegram_antispam.Telegram.Sequencer.{
  Job, looping, draining, returned, Lane, Sequencer, capacity, new_sequencer, set_lane, Step, Steps,
  refuse, enter, send, turn_away, drop, take, see_quit, exit, close, stay, followed_by, no_lane,
  entered, sent,
}

-- A worker that has returned, with what had run by then.
pub record Over (ran : List Job) (l : Lane) : Type 0 where
  pub over : l.worker ≡ returned
  pub ran_only : l.ran ≡ ran

set_lane-Over :
    (c d : ℤ) (l : Lane) (s : Sequencer) (ran : List Job)
    → (Over ran (s.lanes c) → Over ran l)
    → Over ran (s.lanes d)
    → Over ran ((set_lane c l s).lanes d)
unfolding set_lane
set_lane-Over c d l s ran f o = elim (Bool-cases (same d c)) [
  | inl e ↦ rw e (f (subst (λ x. Over ran (s.lanes x)) ((same_iff d c).0 e) o))
  | inr e ↦ rw e o
]

Step-Over :
    {s t : Sequencer} (d : ℤ) (ran : List Job)
    → Step s t
    → Over ran (s.lanes d)
    → Over ran (t.lanes d)
Step-Over d ran (refuse e) o = o
Step-Over {s = s} d ran (enter c j e) o =
    set_lane-Over c d _ s ran (λ p. record { over = rw p.over refl; ran_only = p.ran_only }) o
Step-Over {s = s} d ran (send c j before after e room) o =
    set_lane-Over c d _ s ran (λ p. record { over = p.over; ran_only = p.ran_only }) o
Step-Over {s = s} d ran (turn_away c j before after e k) o =
    set_lane-Over c d _ s ran (λ p. record { over = p.over; ran_only = p.ran_only }) o
Step-Over {s = s} d ran (drop c j before after e full k) o =
    set_lane-Over c d _ s ran (λ p. record { over = p.over; ran_only = p.ran_only }) o
Step-Over {s = s} d ran (take c j rest w e) o =
    set_lane-Over c d _ s ran (λ p. absurd (let k : false ≡ true = rw p.over at w in cc)) o
Step-Over {s = s} d ran (see_quit c w k) o =
    set_lane-Over c d _ s ran (λ p. absurd (let h : returned ≡ looping = rw p.over at w in cc)) o
Step-Over {s = s} d ran (exit c w e) o =
    set_lane-Over c d _ s ran (λ p. record { over = refl; ran_only = p.ran_only }) o
Step-Over d ran close o = o

Steps-Over :
    {s t : Sequencer} (d : ℤ) (ran : List Job)
    → Steps s t
    → Over ran (s.lanes d)
    → Over ran (t.lanes d)
Steps-Over d ran stay o = o
Steps-Over d ran (followed_by past last) o = Step-Over d ran last (Steps-Over d ran past o)

pub one_fits : 1 ≤ capacity
unfolding capacity
one_fits = omega arith

-- TrySubmit against Wait, for any chat and job: some interleaving from a new sequencer makes TrySubmit
-- accept the job, because its select may choose the send although quit is closed, after the worker of the
-- chat has returned; and then no continuation ever runs the job.
pub accepted_never_ran :
    (c : ℤ) (j : Job)
    → (s : Sequencer) × Steps new_sequencer s
      × (s.closed ≡ true)
      × ((s.lanes c).accepted ≡ j ∷ [])
      × ((t : Sequencer) → Steps s t → (t.lanes c).ran ≡ [])
unfolding set_lane
accepted_never_ran c j =
    let s₁ = set_lane c (entered j no_lane) new_sequencer in
    let s₂ = record s₁ { closed = true } in
    let s₃ = set_lane c (record (s₂.lanes c) { worker = draining }) s₂ in
    let s₄ = set_lane c (record (s₃.lanes c) { worker = returned }) s₃ in
    let s₅ = set_lane c (sent j [] (s₄.lanes c)) s₄ in
    let run₁ : Steps new_sequencer s₁ = followed_by stay (enter c j refl) in
    let run₂ : Steps new_sequencer s₂ = followed_by run₁ close in
    let run₃ : Steps new_sequencer s₃ =
      followed_by run₂ (see_quit c (rw (same_refl c) refl) refl) in
    let run₄ : Steps new_sequencer s₄ =
      followed_by run₃ (exit c (rw (same_refl c) refl) (rw (same_refl c) refl)) in
    let run₅ : Steps new_sequencer s₅ =
      followed_by run₄ (send c j [] [] (rw (same_refl c) refl) (rw (same_refl c) one_fits)) in
    (
      s₅,
      run₅,
      refl,
      rw (same_refl c) refl,
      λ t more.
          let stuck : Over [] (s₅.lanes c) = record {
            over = rw (same_refl c) refl;
            ran_only = rw (same_refl c) refl;
          } in
          (Steps-Over c [] more stuck).ran_only,
    )
