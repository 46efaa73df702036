-- ===== src/Tests/Outbound.antt =====
-- The outbound queue on three jobs, and the dispatcher on one of them.
use telegram_antispam.Common.{ℕ, ℤ, negsuc, Bool, [], ◌∷◌, count_if, map, ◌≡◌, refl}
use telegram_antispam.Queue.{Job, Queue, new_queue, push, drain, pop, pop_least, less}
use telegram_antispam.Queue.Priority.{Sorted, drain-in_order}
use telegram_antispam.Queue.Dispatcher.{
  Dispatcher, new_dispatcher, reserve, record_chat, push_job, run_popped, Steps, reserve_step,
  record_step, push_step, run_step, stay, followed_by,
}
use telegram_antispam.Queue.Dispatcher.Chats.{Sound, Steps-Sound}

abbrev job : ℕ → ℕ → Job
job priority run = record { priority = priority; run = run; seq = 0 }

-- A notice, a deletion and another notice.
abbrev waiting : Queue
waiting = push (job 1 12) (push (job 0 11) (push (job 1 10) new_queue))

drain-waiting : map (λ j. j.run) (drain 3 waiting) ≡ 11 ∷ 10 ∷ 12 ∷ []
unfolding drain pop pop_least less
drain-waiting = refl

drain-in_order_example :
    Sorted (drain 3 waiting)
    × ((p : Job → Bool) → count_if p (drain 3 waiting) ≡ count_if p waiting.pq)
drain-in_order_example = drain-in_order waiting

abbrev owner : ℕ → ℤ
owner n = negsuc 100

abbrev pushed : Dispatcher
pushed =
    push_job (job 0 11) []
      (record_chat (negsuc 100) (job 0 11) [] (reserve (job 0 11) new_dispatcher))

abbrev taken : Dispatcher
taken = run_popped (record new_queue { next = 1 }) (job 0 11) pushed

taken-Steps : Steps owner new_dispatcher taken
unfolding pop pop_least
taken-Steps =
    followed_by
      (followed_by
        (followed_by (followed_by stay (reserve_step (job 0 11)))
          (record_step (job 0 11) [] [] refl))
        (push_step (job 0 11) [] [] refl))
      (run_step (record new_queue { next = 1 }) (job 0 11) refl)

Steps-Sound_example : Sound owner taken
Steps-Sound_example = Steps-Sound owner taken-Steps
