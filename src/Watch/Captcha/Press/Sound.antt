-- ===== src/Watch/Captcha/Press/Sound.antt =====
-- internal/watch/captcha.go: a press keeps what Sound states.
use telegram_antispam.Common.{
  ℕ, ℤ, Bool, true, false, if◌then◌else◌, [], ◌∷◌, Option, none, some, ◌≡◌, refl,
}
use telegram_antispam.Store.Captcha.{CaptchaState, passing, cancelled, CaptchaRow}
use telegram_antispam.Store.Captcha.Life.{all_forward, all_lead}
use telegram_antispam.Incident.World.{Result, ok, err}
use telegram_antispam.Watch.World.{
  Env, World, Flow, returns, goes_on, Block, ◌>>=◌, ◌>>◌, sanctioned, call, approve_join_request,
  exit, pure,
}
use telegram_antispam.Watch.Captcha.{require}
use telegram_antispam.Watch.Captcha.Press.{
  Decided, known, open_row, cancel, check, lift, lifted, lost_race, finish, CaptchaPress,
  decide_press, on_press, store_error_later,
}
use telegram_antispam.Watch.Sound.{
  Keeps, Sound, Sound-bind, Sound-then, Sound-pure, Sound-exit, Sound-observe, Sound-query,
  Sound-call, Sound-transition, Sound-mark_passing, lift_keeps, Sound-after_check, Sound-sanctioned,
}
use telegram_antispam.Watch.Captcha.Sound.{captcha_rules, Sound-delete_ids}

-- A block that returns in any case.
Ends : {R A : Type 0} → Block R A → Type 0
Ends {R} m = (w : World) → (r : R) × ((m w).0 ≡ returns r)

Ends-after :
    {R A B : Type 0} (k : A → Block R B) (x : Flow R A × World) (w : World)
    → ((a : A) → Ends (k a))
    → (r : R) × ((◌>>=◌ {R = R} (λ _. x) k w).0 ≡ returns r)
unfolding Ends
Ends-after k (returns r, w') w h = (r, refl)
Ends-after k (goes_on a, w') w h = h a w'

Ends-bind :
    {R A B : Type 0} (m : Block R A) (k : A → Block R B) → ((a : A) → Ends (k a)) → Ends (m >>= k)
unfolding Ends
Ends-bind m k h w = Ends-after k (m w) w h

Ends-then : {R A B : Type 0} (m : Block R A) (k : Block R B) → Ends k → Ends (m >> k)
unfolding Ends
Ends-then m k h w = Ends-after (λ _. k) (m w) w (λ _. h)

Ends-exit : (A : Type 0) {R : Type 0} (r : R) → Ends (exit {A = A} r)
unfolding Ends
Ends-exit A r w = (r, refl)

keeps_ended :
    {R A B : Type 0} (k : Block R B) (x : Flow R A × World) (w : World) {r : R}
    → x.0 ≡ returns r
    → Keeps w x.1
    → Keeps w (◌>>◌ {R = R} (λ _. x) k w).1
keeps_ended k (returns r, w') w e h = h
keeps_ended k (goes_on a, w') w e h = absurd cc

-- Nothing follows a block that returns.
Sound-ended : {R A B : Type 0} (m : Block R A) (k : Block R B) → Ends m → Sound m → Sound (m >> k)
unfolding Ends
Sound-ended m k e h = record { run = λ w. keeps_ended k (m w) w (e w).1 (h.run w) }

module _ (env : Env) (honest : (n : ℕ) → all_forward (env.others n) ≡ true) where
  Sound-known : (o : Option (ℤ × ℤ × ℕ)) → Sound (known env o)
  unfolding known
  Sound-known none = search captcha_rules
  Sound-known (some key) = Sound-pure key

  Sound-open_row : (attempt now : ℕ) (o : Option CaptchaRow) → Sound (open_row env attempt now o)
  unfolding open_row
  Sound-open_row attempt now none = search captcha_rules
  Sound-open_row attempt now (some row) = search captcha_rules

  Sound-cancel :
      (from : CaptchaState) (broken : Decided) (chat user : ℤ) (attempt : ℕ)
      → all_lead (from ∷ []) cancelled ≡ true
      → Sound (cancel env from broken chat user attempt)
  unfolding cancel
  Sound-cancel from broken chat user attempt h =
      search (captcha_rules, Sound-transition env honest, Sound-delete_ids env honest) depth 12

  Sound-check :
      (from : CaptchaState) (broken : Decided) (join : Bool) (chat user : ℤ) (attempt since : ℕ)
      → all_lead (from ∷ []) cancelled ≡ true
      → Sound (check env from broken join chat user attempt since)
  unfolding check
  Sound-check from broken true chat user attempt since h = search captcha_rules
  Sound-check from broken false chat user attempt since h =
      search (captcha_rules, Sound-sanctioned env honest, Sound-cancel)

  Sound-lifted : (r : Result (Unit {0})) → Sound (lifted env r)
  unfolding lifted
  Sound-lifted (ok u) = search captcha_rules
  Sound-lifted (err e) = search captcha_rules

  Sound-finish :
      (join : Bool) (chat user : ℤ) (attempt : ℕ) → Sound (finish env join chat user attempt)
  unfolding finish lost_race
  Sound-finish join chat user attempt =
      search
        (
          captcha_rules,
          Sound-transition env honest,
          Sound-query env honest,
          Sound-delete_ids env honest,
        )
        depth 14

  Ends-cancel :
      (from : CaptchaState) (broken : Decided) (chat user : ℤ) (attempt : ℕ)
      → Ends (cancel env from broken chat user attempt)
  unfolding cancel
  Ends-cancel from broken chat user attempt = search (Ends-bind, Ends-then, Ends-exit)

  approve-Sound :
      (chat user : ℤ) → Sound (call env (approve_join_request chat user) >>= λ r. lifted env r)
  approve-Sound chat user =
      Sound-bind _ _ (Sound-call env honest _ (λ r es. refl)) (λ r. Sound-lifted r)

  -- The second check, the lift and what follows it.
  Sound-check_and_lift :
      (join : Bool) (chat user : ℤ) (attempt since : ℕ) (rest : Block Decided Decided)
      → Sound rest
      → Sound (
          check env passing store_error_later join chat user attempt since
          >> (lift env join chat user >> rest))
  unfolding check lift sanctioned call
  Sound-check_and_lift true chat user attempt since rest h = search (captcha_rules, approve-Sound)
  Sound-check_and_lift false chat user attempt since rest h = record {
    run =
        (Sound-after_check env honest chat user since
          (λ a.
            (require store_error_later a >>= λ s.
            if s then cancel env passing store_error_later chat user attempt else pure tt)
            >> (lift env false chat user >> rest))
          (record { run = (Sound-exit {A = Decided} store_error_later).run })
          (record {
            run =
                (Sound-ended (cancel env passing store_error_later chat user attempt)
                  (lift env false chat user >> rest)
                  (Ends-cancel passing store_error_later chat user attempt)
                  (Sound-cancel passing store_error_later chat user attempt refl)).run;
          })
          (λ w c.
            lift_keeps env honest chat user (λ r. lifted env r >> rest) w c
              (λ r. Sound-then _ _ (Sound-lifted r) h))).run;
  }

  Sound-decide_press : (p : CaptchaPress) → Sound (decide_press env p)
  unfolding decide_press
  Sound-decide_press p =
      search
        (
          captcha_rules,
          Sound-known,
          Sound-query env honest,
          Sound-observe env honest,
          Sound-open_row,
          Sound-check,
          Sound-mark_passing env honest,
          Sound-check_and_lift,
          Sound-finish,
        )
        depth 30

  pub Sound-on_press : {R : Type 0} (p : CaptchaPress) → Sound {R = R} (on_press env p)
  unfolding on_press
  Sound-on_press p = search (captcha_rules, Sound-decide_press, Sound-call env honest) depth 10
