-- ===== src/Tests/Ordering.antt =====
-- The sequencer on one chat with two jobs.
use telegram_antispam.Common.{ℤ, ◌+◌, ◌≤◌, length, negsuc, same, true, [], ◌∷◌, ◌≡◌, refl}
use telegram_antispam.Telegram.Sequencer.{
  Job, returned, Sequencer, new_sequencer, set_lane, Steps, enter, send, close, stay, followed_by,
  entered, sent, no_lane, draining, take, see_quit, exit, run_job,
}
use telegram_antispam.Telegram.Sequencer.Order.{InOrder, Steps-InOrder}
use telegram_antispam.Telegram.Sequencer.Shutdown.{one_fits, accepted_never_ran}
use telegram_antispam.Telegram.Sequencer.Drain.{
  is_own, OwnSteps, begins, goes_on, returned-Halted, OwnSteps-bounded, wait-drains,
}

abbrev chat : ℤ
chat = negsuc 100

abbrev job : Job
job = record { id = 1; panics = true }

abbrev submitted : Sequencer
submitted = set_lane (negsuc 100) (entered job no_lane) new_sequencer

abbrev accepted : Sequencer
accepted = record (set_lane (negsuc 100) (sent job [] (submitted.lanes (negsuc 100))) submitted) {
  closed = true;
}

accepted-Steps : Steps new_sequencer accepted
unfolding set_lane same
accepted-Steps =
    followed_by
      (followed_by (followed_by stay (enter (negsuc 100) job refl))
        (send (negsuc 100) job [] [] refl one_fits))
      close

Steps-InOrder_example : InOrder (accepted.lanes (negsuc 100))
Steps-InOrder_example = Steps-InOrder accepted-Steps (negsuc 100)

-- The worker sees quit, runs the job and returns.
abbrev quitting : Sequencer
quitting = set_lane chat (record (accepted.lanes chat) { worker = draining }) accepted

abbrev drained : Sequencer
drained = record (set_lane chat (run_job job [] (quitting.lanes chat)) quitting) { panicked = 1 }

abbrev ended : Sequencer
ended = set_lane chat (record (drained.lanes chat) { worker = returned }) drained

shutdown : OwnSteps chat accepted 3 ended
unfolding set_lane same is_own
shutdown =
    goes_on
      (goes_on (goes_on begins (see_quit chat refl refl) refl) (take chat job [] refl refl) refl)
      (exit chat refl refl) refl

ended-returned : (ended.lanes chat).worker ≡ returned
unfolding set_lane same
ended-returned = refl

wait-drains_example :
    ((ended.lanes chat).worker ≡ returned)
    × (3 ≡ length (accepted.lanes chat).queue + 2)
    × ((ended.lanes chat).ran ≡ (accepted.lanes chat).accepted)
unfolding set_lane same
wait-drains_example =
    wait-drains chat 3 accepted-Steps refl refl shutdown (returned-Halted chat ended ended-returned)

OwnSteps-bounded_example : 3 ≤ length (accepted.lanes chat).queue + 2
unfolding set_lane same
OwnSteps-bounded_example = OwnSteps-bounded chat 3 refl refl shutdown

accepted_never_ran_example :
    (s : Sequencer) × Steps new_sequencer s
    × (s.closed ≡ true)
    × ((s.lanes (negsuc 100)).accepted ≡ job ∷ [])
    × ((t : Sequencer) → Steps s t → (t.lanes (negsuc 100)).ran ≡ [])
accepted_never_ran_example = accepted_never_ran (negsuc 100) job
