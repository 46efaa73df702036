-- ===== src/Watch/Captcha/Sweep/Sound.antt =====
-- internal/watch/captcha.go and captcha_join_request.go: the sweep keeps what Sound states.
use telegram_antispam.Common.{
  ℕ, suc, leb, Bool, true, false, if◌then◌else◌, List, [], ◌∷◌, Option, none, some, ◌≡◌, refl,
  Bool-cases, inl, inr,
}
use telegram_antispam.Store.Captcha.{
  CaptchaState, fresh, challenged, passing, passed, failing, failed, cancelled, CaptchaRow,
}
use telegram_antispam.Store.Captcha.Life.{all_forward, all_lead}
use telegram_antispam.Config.Captcha.{FailAction}
use telegram_antispam.Incident.World.{Result, ok, err}
use telegram_antispam.Watch.World.{Outcome, Env, World, ◌>>=◌}
use telegram_antispam.Watch.Captcha.{captcha_give_up_tries, Gate, opened, closed, broken}
use telegram_antispam.Watch.Captcha.Sweep.{
  if_moved, logged, start_failing, cancel_join, cancel_sanctioned, gate_action, sweep_challenged,
  give_up_passing, or_retry, record_passed, sweep_join_passing, lift_passing, sweep_passing,
  join_by_gate, sweep_join_challenged, sweep_new, sweep_row, sweep_rows, due_or_exit, sweep,
}
use telegram_antispam.Watch.Sound.{
  cleared, Keeps, Sound, Sound-bind, Sound-then, Sound-if, Sound-observe, Sound-query, Sound-call,
  Sound-sanctioned, Sound-transition, Sound-fail_captcha, lift_keeps, Sound-after_check,
}
use telegram_antispam.Watch.Captcha.Sound.{
  captcha_rules, Sound-stop_if, Sound-gate, Sound-delete_ids,
}
use telegram_antispam.Watch.Captcha.Fail.Sound.{Sound-fail, Sound-retry}

module _ (env : Env) (honest : (n : ℕ) → all_forward (env.others n) ≡ true) where
  Sound-if_moved : (o : Option (CaptchaRow × Bool)) → Sound (if_moved env o)
  unfolding if_moved
  Sound-if_moved none = search captcha_rules
  Sound-if_moved (some (row, true)) = search captcha_rules
  Sound-if_moved (some (row, false)) = search captcha_rules

  Sound-logged : {A : Type 0} (o : Option A) → Sound (logged env o)
  unfolding logged
  Sound-logged none = search captcha_rules
  Sound-logged (some a) = search captcha_rules

  Sound-start_failing :
      (row : CaptchaRow) (from : CaptchaState) (action : FailAction)
      → all_lead (from ∷ []) failing ≡ true
      → Sound (start_failing env row from action)
  unfolding start_failing
  Sound-start_failing row from action h =
      search (captcha_rules, Sound-fail_captcha env honest, Sound-if_moved)

  Sound-cancel_join :
      (row : CaptchaRow) (from : CaptchaState) (drop : Bool)
      → all_lead (from ∷ []) cancelled ≡ true
      → Sound (cancel_join env row from drop)
  unfolding cancel_join
  Sound-cancel_join row from drop h =
      search
        (captcha_rules, Sound-transition env honest, Sound-if_moved, Sound-delete_ids env honest)
        depth 12

  Sound-cancel_sanctioned :
      (row : CaptchaRow) (from : CaptchaState)
      → all_lead (from ∷ []) cancelled ≡ true
      → Sound (cancel_sanctioned env row from)
  unfolding cancel_sanctioned
  Sound-cancel_sanctioned row from h =
      search
        (captcha_rules, Sound-transition env honest, Sound-if_moved, Sound-delete_ids env honest)
        depth 12

  Sound-gate_action : (row : CaptchaRow) (g : Gate) → Sound (gate_action env row g)
  unfolding gate_action
  Sound-gate_action row (broken e) = search captcha_rules
  Sound-gate_action row (closed out) = search captcha_rules
  Sound-gate_action row (opened pol) =
      search (captcha_rules, Sound-sanctioned env honest, Sound-logged, Sound-cancel_sanctioned)
        depth 12

  pub Sound-sweep_challenged : (row : CaptchaRow) → Sound (sweep_challenged env row)
  unfolding sweep_challenged
  Sound-sweep_challenged row =
      search
        (
          captcha_rules,
          Sound-gate env honest,
          Sound-gate_action,
          Sound-start_failing,
          Sound-delete_ids env honest,
          Sound-fail env honest,
        )
        depth 12

  Sound-give_up_passing : (row : CaptchaRow) → Sound (give_up_passing env row)
  unfolding give_up_passing
  Sound-give_up_passing row =
      search
        (captcha_rules, Sound-transition env honest, Sound-if_moved, Sound-delete_ids env honest)
        depth 12

  Sound-or_retry : (row : CaptchaRow) (r : Result (Unit {0})) → Sound (or_retry env row r)
  unfolding or_retry
  Sound-or_retry row (ok u) = search captcha_rules
  Sound-or_retry row (err e) = search (captcha_rules, Sound-retry env honest)

  Sound-record_passed : (row : CaptchaRow) (out : Outcome) → Sound (record_passed env row out)
  unfolding record_passed
  Sound-record_passed row out =
      search
        (captcha_rules, Sound-transition env honest, Sound-if_moved, Sound-delete_ids env honest)
        depth 12

  Sound-sweep_join_passing : (row : CaptchaRow) → Sound (sweep_join_passing env row)
  unfolding sweep_join_passing
  Sound-sweep_join_passing row = Sound-if _ _ _ (Sound-give_up_passing row) (
      Sound-bind _ _ (Sound-call env honest _ (λ r es. refl))
        (λ r. search (captcha_rules, Sound-or_retry, Sound-record_passed)))

  -- The lift of a mute that a check cleared.
  lift_passing_keeps :
      (row : CaptchaRow) (w : World)
      → cleared row.chat_id row.user_id w.events ≡ true
      → Keeps w (lift_passing env row w).1
  unfolding lift_passing
  lift_passing_keeps row w c = elim (Bool-cases (leb captcha_give_up_tries row.tries)) [
    | inl e ↦ rw e ((Sound-give_up_passing row).run w)
    | inr e ↦ rw e (
        lift_keeps env honest row.chat_id row.user_id _ w c
          (λ r. search (captcha_rules, Sound-or_retry, Sound-record_passed)))
  ]

  Sound-sweep_passing : (row : CaptchaRow) → Sound (sweep_passing env row)
  unfolding sweep_passing logged
  Sound-sweep_passing row = Sound-if _ _ _ (Sound-sweep_join_passing row) (
      Sound-after_check env honest row.chat_id row.user_id row.created_at
        (λ a. logged env a >>= λ s.
          if s then cancel_sanctioned env row passing else lift_passing env row)
        (record { run = (Sound-logged {A = Bool} none).run })
        (record { run = (Sound-cancel_sanctioned row passing refl).run })
        (λ w c. lift_passing_keeps row w c))

  Sound-join_by_gate : (row : CaptchaRow) (g : Gate) → Sound (join_by_gate env row g)
  unfolding join_by_gate
  Sound-join_by_gate row (broken e) = search captcha_rules
  Sound-join_by_gate row (opened pol) =
      search
        (
          captcha_rules,
          Sound-cancel_join,
          Sound-start_failing,
          Sound-delete_ids env honest,
          Sound-fail env honest,
        )
        depth 12
  Sound-join_by_gate row (closed out) = search (captcha_rules, Sound-cancel_join)

  Sound-sweep_join_challenged : (row : CaptchaRow) → Sound (sweep_join_challenged env row)
  unfolding sweep_join_challenged
  Sound-sweep_join_challenged row =
      search (captcha_rules, Sound-gate env honest, Sound-join_by_gate)

  Sound-sweep_new : (row : CaptchaRow) → Sound (sweep_new env row)
  unfolding sweep_new
  Sound-sweep_new row =
      search (captcha_rules, Sound-cancel_join, Sound-start_failing, Sound-fail env honest) depth 12

  Sound-sweep_row :
      {R : Type 0} (row : CaptchaRow) (s : CaptchaState) → Sound {R = R} (sweep_row env row s)
  unfolding sweep_row
  Sound-sweep_row row fresh = search (captcha_rules, Sound-sweep_new) depth 10
  Sound-sweep_row row challenged =
      search (captcha_rules, Sound-sweep_challenged, Sound-sweep_join_challenged) depth 10
  Sound-sweep_row row failing = search (captcha_rules, Sound-fail env honest)
  Sound-sweep_row row passing = search (captcha_rules, Sound-sweep_passing)
  Sound-sweep_row row passed = search captcha_rules
  Sound-sweep_row row failed = search captcha_rules
  Sound-sweep_row row cancelled = search captcha_rules

  Sound-sweep_rows : (n : ℕ) (rows : List CaptchaRow) → Sound (sweep_rows env n rows)
  unfolding sweep_rows
  Sound-sweep_rows n [] = search captcha_rules
  Sound-sweep_rows n (row ∷ rows) = Sound-bind _ _ (Sound-observe env honest env.stopped) (λ b.
      Sound-then _ _ (Sound-stop_if b _) (
        Sound-bind _ _ (Sound-sweep_row row row.state)
          (λ c. Sound-sweep_rows (if c then suc n else n) rows)))

  Sound-due_or_exit : (o : Option (List CaptchaRow)) → Sound (due_or_exit env o)
  unfolding due_or_exit
  Sound-due_or_exit none = search captcha_rules
  Sound-due_or_exit (some rows) = search captcha_rules

  pub Sound-sweep : Sound (sweep env)
  unfolding sweep
  Sound-sweep =
      search
        (
          captcha_rules,
          Sound-observe env honest,
          Sound-query env honest,
          Sound-due_or_exit,
          Sound-sweep_rows,
        )
        depth 10
