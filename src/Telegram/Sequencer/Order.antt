-- ===== src/Telegram/Sequencer/Order.antt =====
-- A chat's jobs run in the order of their acceptance, each once.
use telegram_antispam.Common.{
  suc, ◌≤◌, ℤ, same, [], ◌∷◌, ◌++◌, length, length-append, ◌≡◌, refl, sym, ap, ◌∙◌, Bool-cases, inl,
  inr, arith,
}
use mathlib.Core.List.{append_assoc}
use telegram_antispam.Telegram.Sequencer.{
  Lane, Sequencer, capacity, new_sequencer, set_lane, Step, Steps, refuse, enter, send, turn_away,
  drop, take, see_quit, exit, close, stay, followed_by,
}

-- What a lane keeps: its accepted jobs are those that ran and then those that wait.
pub record InOrder (l : Lane) : Type 0 where
  pub in_order : l.accepted ≡ l.ran ++ l.queue
  pub bounded : length l.queue ≤ capacity

-- A property of every lane, after one lane was replaced.
pub set_lane-All :
    (P : Lane → Type 0) (c : ℤ) (l : Lane) (s : Sequencer)
    → P l
    → ((d : ℤ) → P (s.lanes d))
    → (d : ℤ) → P ((set_lane c l s).lanes d)
unfolding set_lane
set_lane-All P c l s p ps d = elim (Bool-cases (same d c)) [ inl e ↦ rw e p | inr e ↦ rw e (ps d) ]

Step-InOrder :
    {s t : Sequencer} → Step s t → ((d : ℤ) → InOrder (s.lanes d)) → (d : ℤ) → InOrder (t.lanes d)
Step-InOrder (refuse e) h = h
Step-InOrder {s = s} (enter c j e) h =
    set_lane-All InOrder c _ s (record { in_order = (h c).in_order; bounded = (h c).bounded }) h
Step-InOrder {s = s} (send c j before after e room) h =
    set_lane-All InOrder c _ s
      (record {
        in_order = rw (h c).in_order (append_assoc (s.lanes c).ran (s.lanes c).queue (j ∷ []));
        bounded = omega (arith, length-append (s.lanes c).queue (j ∷ []));
      })
      h
Step-InOrder {s = s} (turn_away c j before after e k) h =
    set_lane-All InOrder c _ s (record { in_order = (h c).in_order; bounded = (h c).bounded }) h
Step-InOrder {s = s} (drop c j before after e full k) h =
    set_lane-All InOrder c _ s (record { in_order = (h c).in_order; bounded = (h c).bounded }) h
Step-InOrder {s = s} (take c j rest w e) h =
    set_lane-All InOrder c _ s
      (record {
        in_order =
            (h c).in_order
            ∙ ap (λ q. (s.lanes c).ran ++ q) e
            ∙ sym (append_assoc (s.lanes c).ran (j ∷ []) rest);
        bounded =
            let b = (h c).bounded in
            let b' : suc (length rest) ≤ capacity = rw e at b in omega arith;
      })
      h
Step-InOrder {s = s} (see_quit c w k) h =
    set_lane-All InOrder c _ s (record { in_order = (h c).in_order; bounded = (h c).bounded }) h
Step-InOrder {s = s} (exit c w e) h =
    set_lane-All InOrder c _ s (record { in_order = (h c).in_order; bounded = (h c).bounded }) h
Step-InOrder close h = h

-- After any interleaving of submissions, workers and Wait from a new sequencer, the jobs that a chat's
-- TrySubmit accepted are those that ran, in the order in which they ran, followed by those in the chat's
-- queue; so a job runs at most once, never before an earlier one of its chat, and a panic or a full queue
-- loses none of the accepted ones. A queue never holds more than its capacity.
pub Steps-InOrder : {s : Sequencer} → Steps new_sequencer s → (c : ℤ) → InOrder (s.lanes c)
Steps-InOrder stay c = record { in_order = refl; bounded = omega arith }
Steps-InOrder (followed_by past last) c = Step-InOrder last (Steps-InOrder past) c
