-- ===== src/Watch/Sound.antt =====
-- What every function of internal/watch/captcha.go keeps, whatever the other goroutines do in between:
-- the records of the challenges, and the calls that lift a mute. The rules follow the program's own
-- composition.
use telegram_antispam.Common.{
  ℕ, ℤ, same, same_refl, Bool, true, false, ◌&&◌, if◌then◌else◌, List, [], ◌∷◌, Option, none, some,
  ◌≡◌, refl, ap, ◌∙◌, Bool-cases, inl, inr,
}
use telegram_antispam.Config.Captcha.{CaptchaMode, FailAction}
use telegram_antispam.Store.Captcha.{
  CaptchaState, failing, Challenges, get_captcha, transition_captcha, mark_captcha_passing,
  fail_captcha, retry_captcha, set_captcha_prompt, begin_captcha,
}
use telegram_antispam.Store.Captcha.Keys.{Distinct, Distinct-run, Distinct-apply}
use telegram_antispam.Store.Captcha.Life.{
  Operation, begin, transition, mark_passing, prompt, kept, apply, all_lead, forward, all_forward,
  Advances, Advances-refl, Advances-trans,
}
use telegram_antispam.Store.Captcha.Life.Forward.{run-Advances, apply-Advances}
use telegram_antispam.Incident.World.{Result}
use telegram_antispam.Watch.World.{
  Event, unrestrict_member, sanction_read, Env, World, Flow, returns, goes_on, Block, ◌>>=◌, ◌>>◌,
  pure, exit, enter, emit, tick, write, query, sanctioned, call, send, observe, settle,
}

-- The latest event is a reading of SanctionSince that found no sanction of the member.
abbrev pub cleared : ℤ → ℤ → List Event → Bool
cleared chat user (sanction_read c u since (some false) ∷ es) = same c chat && same u user
cleared chat user _ = false

-- Events, the latest first, in which each call that lifts a mute comes directly after such a reading.
abbrev pub lifts_checked : List Event → Bool
lifts_checked [] = true
lifts_checked (unrestrict_member chat user r ∷ es) = cleared chat user es && lifts_checked es
lifts_checked (e ∷ es) = lifts_checked es

pub record Keeps (w w' : World) : Type 0 where
  pub advances : (c u : ℤ) → Advances (get_captcha c u w.table) (get_captcha c u w'.table)
  pub distinct : Distinct w.table → Distinct w'.table
  pub checked : lifts_checked w.events ≡ true → lifts_checked w'.events ≡ true

pub Keeps_refl : (w : World) → Keeps w w
Keeps_refl w = record {
  advances = λ c u. Advances-refl (get_captcha c u w.table);
  distinct = λ d. d;
  checked = λ h. h;
}

pub Keeps_trans : (w w' w'' : World) → Keeps w w' → Keeps w' w'' → Keeps w w''
Keeps_trans w w' w'' h k = record {
  advances = λ c u.
      Advances-trans (get_captcha c u w.table) (get_captcha c u w'.table)
        (get_captcha c u w''.table) (h.advances c u) (k.advances c u);
  distinct = λ d. k.distinct (h.distinct d);
  checked = λ c. k.checked (h.checked c);
}

pub record Sound {R A : Type 0} (m : Block R A) : Type 0 where
  pub run : (w : World) → Keeps w (m w).1

module _ {R A : Type 0} where
  pub Sound-pure : (a : A) → Sound {R = R} (pure a)
  Sound-pure a = record { run = λ w. Keeps_refl w }

  pub Sound-exit : (r : R) → Sound {A = A} (exit r)
  Sound-exit r = record { run = λ w. Keeps_refl w }

  pub Sound-if : (b : Bool) (m k : Block R A) → Sound m → Sound k → Sound (if b then m else k)
  Sound-if true m k h h' = h
  Sound-if false m k h h' = h'

module _ {R A B : Type 0} where
  -- The continuation after what a block came to.
  after_keeps :
      (x : Flow R A × World) (k : A → Block R B) (w : World)
      → Keeps w x.1
      → ((a : A) (w' : World) → Keeps w w' → Keeps w (k a w').1)
      → Keeps w (◌>>=◌ {R = R} (λ _. x) k w).1
  after_keeps (returns r, w') k w h g = h
  after_keeps (goes_on a, w') k w h g = g a w' h

  pub Sound-bind :
      (m : Block R A) (k : A → Block R B) → Sound m → ((a : A) → Sound (k a)) → Sound (m >>= k)
  Sound-bind m k h g = record {
    run = λ w.
        after_keeps (m w) k w (h.run w) (λ a w' j. Keeps_trans w w' (k a w').1 j ((g a).run w'));
  }

  pub Sound-then : (m : Block R A) (k : Block R B) → Sound m → Sound k → Sound (m >> k)
  Sound-then m k h g = Sound-bind m (λ _. k) h (λ _. g)

entered_keeps :
    (R : Type 0) {A : Type 0} (w : World) (x : Flow A A × World)
    → Keeps w x.1
    → Keeps w (enter {R = R} (λ _. x) w).1
entered_keeps R w (returns a, w') h = h
entered_keeps R w (goes_on a, w') h = h

pub Sound-enter : {R A : Type 0} (m : Block A A) → Sound m → Sound {R = R} (enter m)
Sound-enter {R} m h = record { run = λ w. entered_keeps R w (m w) (h.run w) }

-- An event that is not the call that lifts a mute.
pub Sound-emit :
    {R : Type 0} (e : Event)
    → ((es : List Event) → lifts_checked (e ∷ es) ≡ lifts_checked es)
    → Sound {R = R} (emit e)
Sound-emit e h = record {
  run = λ w. record {
    advances = λ c u. Advances-refl (get_captcha c u w.table);
    distinct = λ d. d;
    checked = λ k. h w.events ∙ k;
  };
}

-- Every operation of the other goroutines moves an attempt forward.
module _ (env : Env) (honest : (n : ℕ) → all_forward (env.others n) ≡ true) where
  Keeps-tick : (w : World) → Keeps w (tick env w)
  Keeps-tick w = record {
    advances = λ c u. run-Advances c u (env.others w.ticks) w.table (honest w.ticks);
    distinct = λ d. Distinct-run (env.others w.ticks) w.table d;
    checked = λ h. h;
  }

  -- A world with another table.
  Keeps-table :
      (w : World) (o : Operation) (t : Challenges)
      → forward o ≡ true
      → t ≡ apply o w.table
      → Keeps w (record w { table = t })
  Keeps-table w o t h e = rw e (record {
    advances = λ c u. apply-Advances c u o w.table h;
    distinct = λ d. Distinct-apply o w.table d;
    checked = λ k. k;
  })

  settle_keeps :
      (R : Type 0) {A : Type 0} (w : World) (o : Operation) (x : Option (Challenges × A))
      → forward o ≡ true
      → kept w.table x ≡ apply o w.table
      → Keeps w (settle env {R = R} w x).1
  settle_keeps R w o none h e = Keeps_refl w
  settle_keeps R w o (some (t, a)) h e = Keeps-table w o t h e

  module _ {R A : Type 0} where
    -- A statement that does what the operation does.
    pub Sound-write :
        (o : Operation) (f : Challenges → Option (Challenges × A))
        → forward o ≡ true
        → ((t : Challenges) → kept t (f t) ≡ apply o t)
        → Sound {R = R} (write env f)
    unfolding write
    Sound-write o f h e = record {
      run = λ w. elim (Bool-cases (env.fails w.ticks)) [
        | inl b ↦ rw b (Keeps-tick w)
        | inr b ↦ rw b (
            Keeps_trans w (tick env w) (settle env {R = R} (tick env w) (f (tick env w).table)).1
              (Keeps-tick w)
              (settle_keeps R (tick env w) o (f (tick env w).table) h (e (tick env w).table)))
      ];
    }

    pub Sound-query : (f : ℕ → Challenges → A) → Sound {R = R} (query env f)
    unfolding query
    Sound-query f = record { run = λ w. Keeps-tick w }

    pub Sound-observe : (f : ℕ → A) → Sound {R = R} (observe env f)
    unfolding observe
    Sound-observe f = record { run = λ w. Keeps-tick w }

  with_event :
      (w : World) (e : Event)
      → lifts_checked (e ∷ w.events) ≡ lifts_checked w.events
      → Keeps w (record (tick env w) { events = e ∷ w.events })
  with_event w e h = record {
    advances = (Keeps-tick w).advances;
    distinct = (Keeps-tick w).distinct;
    checked = λ k. h ∙ k;
  }

  module _ {R : Type 0} where
    pub Sound-call :
        (e : Result (Unit {0}) → Event)
        → ((r : Result (Unit {0})) (es : List Event) → lifts_checked (e r ∷ es) ≡ lifts_checked es)
        → Sound {R = R} (call env e)
    unfolding call
    Sound-call e h = record {
      run = λ w. with_event w (e (env.answers w.ticks)) (h (env.answers w.ticks) w.events);
    }

    pub Sound-send :
        (e : Result ℤ → Event)
        → ((r : Result ℤ) (es : List Event) → lifts_checked (e r ∷ es) ≡ lifts_checked es)
        → Sound {R = R} (send env e)
    unfolding send
    Sound-send e h = record {
      run = λ w. with_event w (e (env.sends w.ticks)) (h (env.sends w.ticks) w.events);
    }

    pub Sound-sanctioned :
        (chat user : ℤ) (since : ℕ) → Sound {R = R} (sanctioned env chat user since)
    unfolding sanctioned
    Sound-sanctioned chat user since = record { run = λ w. with_event w _ refl }

    -- The store's operations, each as the statement that runs it.
    pub Sound-begin :
        (chat user : ℤ) (now deadline : ℕ) (mode : CaptchaMode)
        → Sound {R = R} (write env (λ t. some (begin_captcha chat user now deadline mode t)))
    unfolding apply
    Sound-begin chat user now deadline mode =
        Sound-write (begin chat user now deadline mode) _ refl (λ t. refl)

    pub Sound-transition :
        (chat user : ℤ) (attempt : ℕ) (from : List CaptchaState) (to : CaptchaState)
        → all_lead from to ≡ true
        → Sound {R = R} (write env (transition_captcha chat user attempt from to))
    unfolding apply
    Sound-transition chat user attempt from to h =
        Sound-write (transition chat user attempt from to) _ h (λ t. refl)

    pub Sound-mark_passing :
        (chat user : ℤ) (attempt deadline : ℕ)
        → Sound {R = R} (write env (mark_captcha_passing chat user attempt deadline))
    unfolding apply
    Sound-mark_passing chat user attempt deadline =
        Sound-write (mark_passing chat user attempt deadline) _ refl (λ t. refl)

    pub Sound-fail_captcha :
        (chat user : ℤ) (attempt : ℕ) (from : List CaptchaState) (action : FailAction)
        → all_lead from failing ≡ true
        → Sound {R = R} (write env (fail_captcha chat user attempt from action))
    unfolding apply
    Sound-fail_captcha chat user attempt from action h =
        Sound-write (Operation.fail chat user attempt from action) _ h (λ t. refl)

    pub Sound-retry_captcha :
        (chat user : ℤ) (attempt next : ℕ)
        → Sound {R = R} (write env (retry_captcha chat user attempt next))
    unfolding apply
    Sound-retry_captcha chat user attempt next =
        Sound-write (Operation.retry chat user attempt next) _ refl (λ t. refl)

    pub Sound-set_captcha_prompt :
        (chat user : ℤ) (attempt : ℕ) (dest eph msg : ℤ) (deadline : ℕ)
        → Sound {R = R} (write env (set_captcha_prompt chat user attempt dest eph msg deadline))
    unfolding apply
    Sound-set_captcha_prompt chat user attempt dest eph msg deadline =
        Sound-write (prompt chat user attempt dest eph msg deadline) _ refl (λ t. refl)

  -- A mute is lifted: the check came directly before.
  pub lift_keeps :
      {R A : Type 0} (chat user : ℤ) (k : Result (Unit {0}) → Block R A) (w : World)
      → cleared chat user w.events ≡ true
      → ((r : Result (Unit {0})) → Sound (k r))
      → Keeps w ((call env (unrestrict_member chat user) >>= k) w).1
  unfolding call
  lift_keeps chat user k w c h =
      let r = env.answers w.ticks in
      let w' = record (tick env w) { events = unrestrict_member chat user r ∷ w.events } in
      Keeps_trans w w' (k r w').1
        (with_event w (unrestrict_member chat user r) (ap (λ b. b && lifts_checked w.events) c))
        ((h r).run w')

  module _ {R A : Type 0} (chat user : ℤ) (since : ℕ) (k : Option Bool → Block R A) where
    abbrev read_then : Option Bool → World → World
    read_then a w = record (tick env w) { events = sanction_read chat user since a ∷ w.events }

    after_answer :
        (a : Option Bool) (w : World)
        → Sound (k none)
        → Sound (k (some true))
        → ((w : World) → cleared chat user w.events ≡ true → Keeps w (k (some false) w).1)
        → Keeps w (k a (read_then a w)).1
    after_answer none w n t f =
        Keeps_trans w (read_then none w) (k none (read_then none w)).1 (with_event w _ refl)
          (n.run (read_then none w))
    after_answer (some true) w n t f =
        Keeps_trans w (read_then (some true) w) (k (some true) (read_then (some true) w)).1
          (with_event w _ refl) (t.run (read_then (some true) w))
    after_answer (some false) w n t f =
        Keeps_trans w (read_then (some false) w) (k (some false) (read_then (some false) w)).1
          (with_event w _ refl)
          (f (read_then (some false) w) (rw (same_refl chat, same_refl user) refl))

    -- What follows a check, by its answer.
    pub Sound-after_check :
        Sound (k none)
        → Sound (k (some true))
        → ((w : World) → cleared chat user w.events ≡ true → Keeps w (k (some false) w).1)
        → Sound (sanctioned env chat user since >>= k)
    unfolding sanctioned
    Sound-after_check n t f = record { run = λ w. after_answer _ w n t f }

pub ruleset sound_rules = (Sound-bind, Sound-then, Sound-pure, Sound-exit, Sound-if, Sound-enter)
