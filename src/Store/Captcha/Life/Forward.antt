-- ===== src/Store/Captcha/Life/Forward.antt =====
-- internal/store/captcha.go: every operation that the program makes advances what is recorded of each
-- member.
use telegram_antispam.Common.{
  ℕ, suc, ◌==◌, ℤ, same_key, Bool, true, false, if◌then◌else◌, List, [], ◌∷◌, Option, none, some,
  count_if, ◌≡◌, refl, sym, ap, ◌∙◌, subst, inl, inr, arith, Bool-cases, Option-cases,
}
use mathlib.Core.Option
use mathlib.Core.Option.{some-injective}
use telegram_antispam.Config.Captcha.{CaptchaMode}
use telegram_antispam.Store.Tables.{update_where}
use telegram_antispam.Store.Tables.Laws.{
  find_where-append, find_where_holds, find_where-update_where,
}
use telegram_antispam.Store.Captcha.{
  CaptchaState, challenged, passing, failing, same_state, CaptchaRow, Challenges, of_member,
  get_captcha, in_states, of_attempt, ended, new_row, restartable, begin_over, begin_captcha,
  of_states, with_table, update_captcha, transition_captcha, mark_captcha_passing, fail_captcha,
  retry_captcha, set_prompt, set_captcha_prompt,
}
use telegram_antispam.Store.Captcha.Life.{
  Operation, begin, transition, mark_passing, fail, retry, prompt, kept, apply, run, leads,
  all_lead, forward, all_forward, advanced, Advances, Advances-refl, Advances-trans,
}

Advances-map :
    (q : CaptchaRow → Bool) (f : CaptchaRow → CaptchaRow) (o : Option CaptchaRow)
    → ((x : CaptchaRow) → o ≡ some x → q x ≡ true → advanced x (f x) ≡ true)
    → Advances o (Option.map (λ x. if q x then f x else x) o)
unfolding Advances
Advances-map q f none h = tt
Advances-map q f (some x) h = elim (Bool-cases (q x)) [
  | inl e ↦ rw e (h x refl e)
  | inr e ↦ rw e (ground arith)
]

module _ (c u : ℤ) where
  update-Advances :
      (q : CaptchaRow → Bool) (f : CaptchaRow → CaptchaRow) (t : Challenges)
      → ((x : CaptchaRow) → q x ≡ true → of_member c u (f x) ≡ of_member c u x)
      → ((x : CaptchaRow) → get_captcha c u t ≡ some x → q x ≡ true → advanced x (f x) ≡ true)
      → Advances (get_captcha c u t) (get_captcha c u (update_where q f t))
  update-Advances q f t h k =
      rw (find_where-update_where (of_member c u) q f t h) (Advances-map q f (get_captcha c u t) k)

  -- Both ends of a transaction.
  kept-with_table {ℓ} :
      {A : Type ℓ} (o : Option CaptchaRow) (t t' : Challenges) (a : Option A)
      → Advances o (get_captcha c u t)
      → Advances o (get_captcha c u t')
      → Advances o (get_captcha c u (kept t (with_table t' a)))
  unfolding with_table
  kept-with_table o t t' none h k = h
  kept-with_table o t t' (some a) h k = k

  kept_if {ℓ} :
      {A : Type ℓ} (o : Option CaptchaRow) (t : Challenges) (b : Bool) (x : Option (Challenges × A))
      → Advances o (get_captcha c u t)
      → Advances o (get_captcha c u (kept t x))
      → Advances o (get_captcha c u (kept t (if b then x else none)))
  kept_if o t true x h k = k
  kept_if o t false x h k = h

  -- updateCaptcha, where what it sets moves the states `from` forward.
  kept-update_captcha :
      (chat user : ℤ) (attempt : ℕ) (from : List CaptchaState) (f : CaptchaRow → CaptchaRow)
      (t : Challenges)
      → ((x : CaptchaRow) → of_member c u (f x) ≡ of_member c u x)
      → ((x : CaptchaRow) → in_states from x ≡ true → advanced x (f x) ≡ true)
      → Advances
          (get_captcha c u t)
          (get_captcha c u (kept t (update_captcha chat user attempt from f t)))
  unfolding update_captcha
  kept-update_captcha chat user attempt [] f t h k = Advances-refl (get_captcha c u t)
  kept-update_captcha chat user attempt (s ∷ from) f t h k =
      kept-with_table (get_captcha c u t) t _ _ (Advances-refl (get_captcha c u t)) (
        update-Advances (of_states chat user attempt (s ∷ from)) f t (λ x q. h x)
          (λ x e q. k x (ground (arith, q))))

  in_states-leads :
      (from : List CaptchaState) (to : CaptchaState) (x : CaptchaRow)
      → all_lead from to ≡ true
      → in_states from x ≡ true
      → leads x.state to ≡ true
  in_states-leads [] to x h k = absurd cc
  in_states-leads (s ∷ from) to x h k = elim (Bool-cases (same_state x.state s)) [
    | inl e ↦ ground (arith, h, e)
    | inr e ↦ in_states-leads from to x (ground (arith, h)) (ground (arith, k, e))
  ]

  kept-set_captcha_prompt :
      (chat user : ℤ) (attempt : ℕ) (dest eph msg : ℤ) (deadline : ℕ) (t : Challenges)
      → Advances
          (get_captcha c u t)
          (get_captcha c u (kept t (set_captcha_prompt chat user attempt dest eph msg deadline t)))
  unfolding set_captcha_prompt
  kept-set_captcha_prompt chat user attempt dest eph msg deadline t =
      kept_if (get_captcha c u t) t (count_if (of_attempt chat user attempt) t == 1) _
        (Advances-refl (get_captcha c u t))
        (kept-with_table (get_captcha c u t) t _ _ (Advances-refl (get_captcha c u t)) (
          update-Advances (of_attempt chat user attempt) (set_prompt dest eph msg deadline) t
            (λ x q. refl) (λ x e q. ground arith)))

  kept-retry_captcha :
      (chat user : ℤ) (attempt next : ℕ) (t : Challenges)
      → Advances
          (get_captcha c u t)
          (get_captcha c u (kept t (retry_captcha chat user attempt next t)))
  unfolding retry_captcha
  kept-retry_captcha chat user attempt next t =
      let where_ = of_states chat user attempt (failing ∷ passing ∷ []) in
      kept_if (get_captcha c u t) t (count_if where_ t == 1) _ (Advances-refl (get_captcha c u t)) (
        update-Advances where_
          (λ (r : CaptchaRow). record r { tries = suc r.tries; deadline = next }) t (λ x q. refl)
          (λ x e q. ground arith))

  of_member_new :
      (chat user : ℤ) (attempt now deadline : ℕ) (mode : CaptchaMode) (x : CaptchaRow)
      → of_member chat user x ≡ true
      → of_member c u (new_row chat user attempt now deadline mode) ≡ of_member c u x
  of_member_new chat user attempt now deadline mode x h =
      let (a, b) = same_key x.chat_id x.user_id chat user h in rw (a, b) refl

  -- The row of the member whose attempt is begun is the one that was read.
  same_row :
      (chat user : ℤ) (t : Challenges) (x old : CaptchaRow)
      → get_captcha c u t ≡ some x
      → get_captcha chat user t ≡ some old
      → of_member chat user x ≡ true
      → x ≡ old
  same_row chat user t x old e h q =
      let (a, b) = same_key x.chat_id x.user_id chat user q in
      let (a', b') = same_key x.chat_id x.user_id c u (find_where_holds (of_member c u) t e) in
      some-injective x old (
        sym e
        ∙ ap (λ k. get_captcha k u t) (sym a' ∙ a)
        ∙ ap (λ k. get_captcha chat k t) (sym b' ∙ b)
        ∙ h)

  restart-Advances :
      (chat user : ℤ) (now deadline : ℕ) (mode : CaptchaMode) (t : Challenges) (old : CaptchaRow)
      → get_captcha chat user t ≡ some old
      → in_states ended old ≡ true
      → Advances (get_captcha c u t) (
          get_captcha c u (
            update_where
              (restartable chat user)
              (λ _. new_row chat user (suc old.attempt) now deadline mode)
              t))
  restart-Advances chat user now deadline mode t old h k =
      update-Advances (restartable chat user)
        (λ _. new_row chat user (suc old.attempt) now deadline mode) t
        (λ x q. of_member_new chat user (suc old.attempt) now deadline mode x (ground (arith, q)))
        (λ x e q.
          subst (λ r. advanced r (new_row chat user (suc old.attempt) now deadline mode) ≡ true)
            (sym (same_row chat user t x old e h (ground (arith, q)))) (ground (arith, k)))

  begin_over-Advances :
      (chat user : ℤ) (now deadline : ℕ) (mode : CaptchaMode) (t : Challenges)
      (o : Option CaptchaRow)
      → get_captcha chat user t ≡ o
      → Advances
          (get_captcha c u t)
          (get_captcha c u (begin_over chat user now deadline mode o t).0)
  unfolding begin_over Advances
  begin_over-Advances chat user now deadline mode t none h =
      elim (Option-cases (get_captcha c u t)) [
        | inl e ↦ rw e tt
        | inr (r, e) ↦
            rw
              (
                e,
                find_where-append (of_member c u) t (new_row chat user 1 now deadline mode ∷ []) e,
              )
              (Advances-refl (some r))
      ]
  begin_over-Advances chat user now deadline mode t (some old) h =
      elim (Bool-cases (in_states ended old)) [
        | inl k ↦ elim (Bool-cases (count_if (restartable chat user) t == 1)) [
          | inl n ↦ rw (k, n) (restart-Advances chat user now deadline mode t old h k)
          | inr n ↦ rw (k, n) (restart-Advances chat user now deadline mode t old h k)
        ]
        | inr k ↦ rw k (Advances-refl (get_captcha c u t))
      ]

  pub apply-Advances :
      (o : Operation) (t : Challenges)
      → forward o ≡ true
      → Advances (get_captcha c u t) (get_captcha c u (apply o t))
  unfolding apply begin_captcha transition_captcha mark_captcha_passing fail_captcha
  apply-Advances (begin chat user now deadline mode) t h =
      begin_over-Advances chat user now deadline mode t (get_captcha chat user t) refl
  apply-Advances (transition chat user attempt from to) t h =
      kept-update_captcha chat user attempt from (λ (r : CaptchaRow). record r { state = to }) t
        (λ x. refl) (λ x q. ground (arith, in_states-leads from to x h q))
  apply-Advances (mark_passing chat user attempt deadline) t h =
      kept-update_captcha chat user attempt (challenged ∷ [])
        (λ (r : CaptchaRow). record r { state = passing; deadline = deadline }) t (λ x. refl)
        (λ x q. ground (arith, q))
  apply-Advances (fail chat user attempt from action) t h =
      kept-update_captcha chat user attempt from
        (λ (r : CaptchaRow). record r { state = failing; fail_action = action }) t (λ x. refl)
        (λ x q. ground (arith, in_states-leads from failing x h q))
  apply-Advances (retry chat user attempt next) t h = kept-retry_captcha chat user attempt next t
  apply-Advances (prompt chat user attempt dest eph msg deadline) t h =
      kept-set_captcha_prompt chat user attempt dest eph msg deadline t

  -- Whatever operations the program makes, in any order, what is recorded of a member only advances:
  -- the attempt's number does not fall; within an attempt the state only moves on, to no other state
  -- once it is passed, failed or cancelled, and from passing not to failed; one who passed keeps
  -- that attempt for good.
  pub run-Advances :
      (os : List Operation) (t : Challenges)
      → all_forward os ≡ true
      → Advances (get_captcha c u t) (get_captcha c u (run os t))
  unfolding run
  run-Advances [] t h = Advances-refl (get_captcha c u t)
  run-Advances (o ∷ os) t h =
      Advances-trans (get_captcha c u t) (get_captcha c u (apply o t))
        (get_captcha c u (run os (apply o t))) (apply-Advances o t (ground (arith, h)))
        (run-Advances os (apply o t) (ground (arith, h)))
