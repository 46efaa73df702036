-- ===== src/Admin/Guard.antt =====
-- What a press may do by when: rules that follow the composition of the program's functions.
use telegram_antispam.Common.{
  Option, none, some, refl, ℕ, ◌==◌, ℤ, same, String, Bool, true, false, ◌&&◌, ◌||◌, not,
  if◌then◌else◌, List, [], ◌∷◌, any, count_if, ◌≡◌, arith,
}
use telegram_antispam.Store.Tables.{Db}
use telegram_antispam.Store.Incidents.{IncidentRow}
use telegram_antispam.Incident.World.{ok, err, Result, Effect}
use telegram_antispam.Admin.World.{
  chat_administrators, get_administrators, record_claim, decision_recorded, Sample, Event,
  unban_member, unrestrict_member, unban_sender_chat, edit_admin_markup, delete_messages,
  answer_callback, trained, enforced, Env, World, Flow, returns, goes_on, Block, ◌>>=◌, ◌>>◌, pure,
  exit, enter, transact, insert_sample, call, train_corpus, enforce_incident,
}

-- A press: who pressed, the global operators, and the chat and the id of the incident.
pub record Press : Type 0 where
  pub user : ℤ
  pub operators : List ℤ
  pub chat : ℤ
  pub id : ℕ

abbrev pub names : ℤ → Result (List ℤ) → Bool
names user (ok admins) = any (λ a. same a user) admins
names user (err e) = false

-- The administrators of the incident's chat were fetched, and the presser is one of them.
abbrev pub is_authorization : Press → Event → Bool
is_authorization p (chat_administrators chat r) = same chat p.chat && names p.user r
is_authorization p _ = false

abbrev pub authorizes : Press → List Event → Bool
authorizes p es = any (λ a. same a p.user) p.operators || any (is_authorization p) es

abbrev pub took : Option (Option (Bool × String)) → Bool
took (some (some (b, d))) = b
took _ = false

-- RecordDecision gave the press the decision on the incident.
abbrev pub is_claim : Press → Event → Bool
is_claim p (decision_recorded id d a) = took a && id == p.id
is_claim p _ = false

abbrev pub is_answer : Event → Bool
is_answer (answer_callback id reply r) = true
is_answer _ = false

-- A sanction is lifted or applied, or the corpus learns.
abbrev pub decides : Event → Bool
decides (unban_member chat user r) = true
decides (unrestrict_member chat user r) = true
decides (unban_sender_chat chat sender r) = true
decides (trained chat label tokens b) = true
decides (enforced inc e) = true
decides _ = false

-- What only an authorized presser causes.
abbrev pub acts : Event → Bool
acts (decision_recorded id d a) = true
acts (edit_admin_markup chat mid r) = true
acts (delete_messages chat ids r) = true
acts e = decides e

-- Events, the latest first, in which the presser was found authorized before anything was done, and
-- the incident's decision was taken before anything was decided.
abbrev pub guarded : Press → List Event → Bool
guarded p [] = true
guarded p (e ∷ es) =
    (not (acts e) || authorizes p es) && (not (decides e) || any (is_claim p) es) && guarded p es

-- Guarded events with n answers, after an authorization and after a claim where these are asked for.
abbrev pub holds : Press → ℕ → Bool → Bool → List Event → Bool
holds p n auth claim es =
    guarded p es
    && count_if is_answer es == n
    && (not auth || authorizes p es)
    && (not claim || any (is_claim p) es)

-- What must hold after a block: Q where it goes on, E where it returned.
abbrev pub Post :
    {R A : Type 0} → (A → List Event → Bool) → (List Event → Bool) → Flow R A × World → Type 0
Post Q E (returns r, w) = E w.events ≡ true
Post Q E (goes_on a, w) = Q a w.events ≡ true

pub record Triple {R A : Type 0} (P : List Event → Bool) (Q : A → List Event → Bool)
    (E : List Event → Bool) (m : Block R A) : Type 0 where
  pub run : (w : World) → P w.events ≡ true → Post Q E (m w)

-- A block that keeps P, wherever it leaves off.
pub record Steady {R A : Type 0} (P : List Event → Bool) (m : Block R A) : Type 0 where
  pub run : (w : World) → P w.events ≡ true → P (m w).1.events ≡ true

module _ {P : List Event → Bool} where
  pub Steady-pure : {R A : Type 0} (a : A) → Steady {R = R} P (pure a)
  Steady-pure a = record { run = λ w h. h }

  pub Steady-exit : {R A : Type 0} (r : R) → Steady {A = A} P (exit r)
  Steady-exit r = record { run = λ w h. h }

  pub Steady-if :
      {R A : Type 0} (b : Bool) (m k : Block R A)
      → Steady P m
      → Steady P k
      → Steady P (if b then m else k)
  Steady-if true m k h h' = h
  Steady-if false m k h h' = h'

  carries_on :
      {R A B : Type 0} (k : A → Block R B) (x : Flow R A × World)
      → P x.1.events ≡ true
      → ((a : A) → Steady P (k a))
      → (w : World) → P (◌>>=◌ {R = R} (λ _. x) k w).1.events ≡ true
  carries_on k (returns r, w') h g w = h
  carries_on k (goes_on a, w') h g w = (g a).run w' h

  pub Steady-bind :
      {R A B : Type 0} (m : Block R A) (k : A → Block R B)
      → Steady P m
      → ((a : A) → Steady P (k a))
      → Steady P (m >>= k)
  Steady-bind m k h g = record { run = λ w p. carries_on k (m w) (h.run w p) g w }

  pub Steady-then :
      {R A B : Type 0} (m : Block R A) (k : Block R B) → Steady P m → Steady P k → Steady P (m >> k)
  Steady-then m k h g = Steady-bind m (λ _. k) h (λ _. g)

  pub Steady-transact :
      {R A : Type 0} (env : Env) (f : Db → Db × A) → Steady {R = R} P (transact env f)
  unfolding transact
  Steady-transact env f = record { run = λ w h. ground (arith, h) }

  pub Steady-insert_sample :
      {R : Type 0} (env : Env) (s : Sample) → Steady {R = R} P (insert_sample env s)
  unfolding insert_sample
  Steady-insert_sample env s = record { run = λ w h. ground (arith, h) }

  pub Steady-call :
      {R : Type 0} (env : Env) (e : Result (Unit {0}) → Event)
      → ((r : Result (Unit {0})) (es : List Event) → P es ≡ true → P (e r ∷ es) ≡ true)
      → Steady {R = R} P (call env e)
  unfolding call
  Steady-call env e k = record { run = λ w h. k (env.answers w.ticks) w.events h }

  pub Steady-train_corpus :
      {R : Type 0} (env : Env) (chat : ℤ) (label : String) (tokens : List String)
      → ((b : Bool) (es : List Event) → P es ≡ true → P (trained chat label tokens b ∷ es) ≡ true)
      → Steady {R = R} P (train_corpus env chat label tokens)
  unfolding train_corpus
  Steady-train_corpus env chat label tokens k = record {
    run = λ w h. k (env.trains w.ticks) w.events h;
  }

  pub Steady-enforce_incident :
      {R : Type 0} (env : Env) (inc : IncidentRow)
      → ((e : Effect) (es : List Event) → P es ≡ true → P (enforced inc e ∷ es) ≡ true)
      → Steady {R = R} P (enforce_incident env inc)
  unfolding enforce_incident
  Steady-enforce_incident env inc k = record { run = λ w h. k (env.enforces w.ticks) w.events h }

pub ruleset steady_rules = (
  Steady-bind, Steady-then, Steady-pure, Steady-exit, Steady-if, Steady-transact,
  Steady-insert_sample,
)

module _ {R A : Type 0} {P : List Event → Bool} {E : List Event → Bool} where
  pub Triple-pure :
      (Q : A → List Event → Bool) (a : A)
      → ((es : List Event) → P es ≡ true → Q a es ≡ true)
      → Triple {R = R} P Q E (pure a)
  Triple-pure Q a h = record { run = λ w p. h w.events p }

  pub Triple-exit :
      (Q : A → List Event → Bool) (r : R)
      → ((es : List Event) → P es ≡ true → E es ≡ true)
      → Triple P Q E (exit r)
  Triple-exit Q r h = record { run = λ w p. h w.events p }

  pub Triple-if :
      (Q : A → List Event → Bool) (b : Bool) (m k : Block R A)
      → Triple P Q E m
      → Triple P Q E k
      → Triple P Q E (if b then m else k)
  Triple-if Q true m k h h' = h
  Triple-if Q false m k h h' = h'

  leaves :
      (x : Flow R A × World)
      → P x.1.events ≡ true
      → ((es : List Event) → P es ≡ true → E es ≡ true)
      → Post (λ _. P) E x
  leaves (returns r, w) p e = e w.events p
  leaves (goes_on a, w) p e = p

  pub Triple-Steady :
      (m : Block R A)
      → Steady P m
      → ((es : List Event) → P es ≡ true → E es ≡ true)
      → Triple P (λ _. P) E m
  Triple-Steady m h e = record { run = λ w p. leaves (m w) (h.run w p) e }

module _ {R A B : Type 0} (Q : A → List Event → Bool) (S : B → List Event → Bool)
    {E : List Event → Bool} where
  lands :
      (x : Flow R A × World) (k : A → Block R B)
      → Post Q E x
      → ((a : A) → Triple (Q a) S E (k a))
      → Post S E (◌>>=◌ {R = R} (λ (w : World). x) k x.1)
  lands (returns r, w) k p h = p
  lands (goes_on a, w) k p h = (h a).run w p

  pub Triple-bind :
      {P : List Event → Bool} (m : Block R A) (k : A → Block R B)
      → Triple P Q E m
      → ((a : A) → Triple (Q a) S E (k a))
      → Triple P S E (m >>= k)
  Triple-bind m k h g = record { run = λ w p. lands (m w) k (h.run w p) g }

enters :
    (R : Type 0) {A : Type 0} (Q E : List Event → Bool) (x : Flow A A × World)
    → Post (λ _. Q) Q x
    → Post (λ _. Q) E (enter {R = R} (λ (w : World). x) x.1)
enters R Q E (returns a, w) p = p
enters R Q E (goes_on a, w) p = p

pub Triple-enter :
    {R A : Type 0} {E : List Event → Bool} (P Q : List Event → Bool) (m : Block A A)
    → Triple P (λ _. Q) Q m
    → Triple {R = R} P (λ _. Q) E (enter m)
Triple-enter {R} {E = E} P Q m h = record { run = λ w p. enters R Q E (m w) (h.run w p) }

relaxes :
    {R A : Type 0} (E : List Event → Bool) (Q Q' : A → List Event → Bool) (x : Flow R A × World)
    → Post Q E x
    → ((a : A) (es : List Event) → Q a es ≡ true → Q' a es ≡ true)
    → Post Q' E x
relaxes E Q Q' (returns r, w) p h = p
relaxes E Q Q' (goes_on a, w) p h = h a w.events p

pub Triple-weaken :
    {E : List Event → Bool} {R A : Type 0} {P P' : List Event → Bool} (Q Q' : A → List Event → Bool)
    (m : Block R A)
    → Triple P Q E m
    → ((es : List Event) → P' es ≡ true → P es ≡ true)
    → ((a : A) (es : List Event) → Q a es ≡ true → Q' a es ≡ true)
    → Triple P' Q' E m
Triple-weaken {E = E} Q Q' m h k g = record {
  run = λ w p. relaxes E Q Q' (m w) (h.run w (k w.events p)) g;
}

pub Triple-call :
    {R : Type 0} {P E : List Event → Bool} (Q : List Event → Bool) (env : Env)
    (e : Result (Unit {0}) → Event)
    → ((r : Result (Unit {0})) (es : List Event) → P es ≡ true → Q (e r ∷ es) ≡ true)
    → Triple {R = R} P (λ _. Q) E (call env e)
unfolding call
Triple-call Q env e h = record { run = λ w p. h (env.answers w.ticks) w.events p }

transacts :
    (R : Type 0) {A : Type 0} (P E : List Event → Bool) (b : Bool) (none_case some_case : A × World)
    → P none_case.1.events ≡ true
    → P some_case.1.events ≡ true
    → Post {R = R}
        (λ _. P)
        E
        (if b then (goes_on none_case.0, none_case.1) else (goes_on some_case.0, some_case.1))
transacts R P E true x y h h' = h
transacts R P E false x y h h' = h'

pub Triple-transact :
    {R A : Type 0} {P E : List Event → Bool} (env : Env) (f : Db → Db × A)
    → Triple {R = R} P (λ _. P) E (transact env f)
unfolding transact
Triple-transact {R} {P = P} {E} env f = record {
  run = λ w h. transacts R P E (env.fails w.ticks) _ _ h h;
}

-- A condition is known in its branches.
pub Triple-when :
    {R A : Type 0} {P E : List Event → Bool} (Q : A → List Event → Bool) (b : Bool)
    (m k : Block R A)
    → (b ≡ true → Triple P Q E m)
    → (b ≡ false → Triple P Q E k)
    → Triple P Q E (if b then m else k)
Triple-when Q true m k h h' = h refl
Triple-when Q false m k h h' = h' refl

pub Triple-get_administrators :
    {R : Type 0} {P E : List Event → Bool} (Q : Result (List ℤ) → List Event → Bool) (env : Env)
    (chat : ℤ)
    → ((r : Result (List ℤ)) (es : List Event)
        → P es ≡ true
        → Q r (chat_administrators chat r ∷ es) ≡ true)
    → Triple {R = R} P Q E (get_administrators env chat)
unfolding get_administrators
Triple-get_administrators Q env chat h = record {
  run = λ w p. h (env.administrators w.ticks) w.events p;
}

claim_recorded :
    (R : Type 0) (Q : Option (Option (Bool × String)) → List Event → Bool) (E : List Event → Bool)
    (b : Bool) (v : Option (Bool × String)) (failed landed : World)
    → Q none failed.events ≡ true
    → Q (some v) landed.events ≡ true
    → Post {R = R} Q E (if b then (goes_on none, failed) else (goes_on (some v), landed))
claim_recorded R Q E true v failed landed h h' = h
claim_recorded R Q E false v failed landed h h' = h'

pub Triple-record_claim :
    {R : Type 0} {P E : List Event → Bool} (Q : Option (Option (Bool × String)) → List Event → Bool)
    (env : Env) (id : ℕ) (decision : String)
    → ((a : Option (Option (Bool × String))) (es : List Event)
        → P es ≡ true
        → Q a (decision_recorded id decision a ∷ es) ≡ true)
    → Triple {R = R} P Q E (record_claim env id decision)
unfolding record_claim
Triple-record_claim {R} {E = E} Q env id decision h = record {
  run = λ w p.
      claim_recorded R Q E (env.fails w.ticks) _ _ _ (h none w.events p) (h (some _) w.events p);
}
