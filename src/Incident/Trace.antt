-- ===== src/Incident/Trace.antt =====
-- The calls of Telegram that a method of the incident machine adds to those made before it, and
-- rules that follow the machine's own composition.
use telegram_antispam.Common.{
  ℤ, Bool, true, false, ◌&&◌, ◌||◌, not, same, same_refl, List, [], ◌∷◌, ◌++◌, ◌≡◌, refl, ◌∙◌, ap,
  sym, any, any-append, arith, if◌then◌else◌,
}
use mathlib.Core.List.{append_assoc}
use telegram_antispam.Store.Tables.{Db}
use telegram_antispam.Incident.World.{
  Failure, Result, ok, err, Call, copy_messages, delete_messages, ban_member, restrict_member,
  ban_sender_chat, World, M, ◌>>=◌, ◌>>◌, pure, LogLine, write_log, Env, transact, execute,
}

abbrev pub same_ids : List ℤ → List ℤ → Bool
same_ids [] [] = true
same_ids (a ∷ as') (b ∷ bs) = same a b && same_ids as' bs
same_ids _ _ = false

-- A call that sanctions somebody, or that deletes messages anywhere but in the admin chat.
abbrev pub is_destructive : ℤ → Call → Bool
is_destructive admin (ban_member chat user r) = true
is_destructive admin (restrict_member chat user r) = true
is_destructive admin (ban_sender_chat chat sender r) = true
is_destructive admin (delete_messages chat ids r) = not (same chat admin)
is_destructive admin _ = false

-- A destructive call on the chat and, if it deletes, on just these messages.
abbrev pub acts_on : ℤ → List ℤ → Call → Bool
acts_on chat ids (ban_member c user r) = same c chat
acts_on chat ids (restrict_member c user r) = same c chat
acts_on chat ids (ban_sender_chat c sender r) = same c chat
acts_on chat ids (delete_messages c ids' r) = same c chat && same_ids ids' ids
acts_on chat ids _ = false

-- A copy of these messages into the admin chat that made at least one copy.
abbrev pub is_evidence : ℤ → ℤ → List ℤ → Call → Bool
is_evidence admin chat ids (copy_messages dst src ids' (ok (c ∷ cs))) =
    same dst admin && same src chat && same_ids ids' ids
is_evidence admin chat ids _ = false

-- Calls, the latest first, in which each destructive call acts on the chat's messages `ids` and
-- comes after evidence of them.
abbrev pub evidence_first : ℤ → ℤ → List ℤ → List Call → Bool
evidence_first admin chat ids [] = true
evidence_first admin chat ids (c ∷ cs) =
    (not (is_destructive admin c) || (acts_on chat ids c && any (is_evidence admin chat ids) cs))
    && evidence_first admin chat ids cs

-- Calls none of which is destructive.
abbrev pub harmless : ℤ → List Call → Bool
harmless admin cs = not (any (is_destructive admin) cs)

-- Calls each of which is harmless, or acts on the chat's messages `ids`.
abbrev pub aimed : ℤ → ℤ → List ℤ → List Call → Bool
aimed admin chat ids [] = true
aimed admin chat ids (c ∷ cs) =
    (not (is_destructive admin c) || acts_on chat ids c) && aimed admin chat ids cs

pub same_ids_refl : (ids : List ℤ) → same_ids ids ids ≡ true
same_ids_refl [] = refl
same_ids_refl (a ∷ as') = rw (same_refl a, same_ids_refl as')

-- What `m` returns, and the calls that it adds, satisfy `P`.
pub record Adds {A : Type 0} (P : A → List Call → Type 0) (m : M A) : Type 0 where
  pub run : (w : World) → (added : List Call) × ((m w).1.calls ≡ added ++ w.calls) × P (m w).0 added

pub Adds-bind :
    {A B : Type 0} {P : A → List Call → Type 0} {Q : A → B → List Call → Type 0}
    {R : B → List Call → Type 0} (m : M A) (f : A → M B)
    → Adds P m
    → ((a : A) → Adds (Q a) (f a))
    → ((a : A) (b : B) (xs ys : List Call) → P a ys → Q a b xs → R b (xs ++ ys))
    → Adds R (m >>= f)
Adds-bind m f hm hf join = record {
  run = λ w.
      let (ys, e, p) = hm.run w in
      let (xs, e', q) = (hf (m w).0).run (m w).1 in
      (
        xs ++ ys,
        e' ∙ ap (λ t. xs ++ t) e ∙ sym (append_assoc xs ys w.calls),
        join (m w).0 (f (m w).0 (m w).1).0 xs ys p q,
      );
}

pub Adds-weaken :
    {A : Type 0} {P Q : A → List Call → Type 0} (m : M A)
    → Adds P m
    → ((a : A) (xs : List Call) → P a xs → Q a xs)
    → Adds Q m
Adds-weaken m h k = record { run = λ w. let (xs, e, p) = h.run w in (xs, e, k (m w).0 xs p) }

-- Methods that make no destructive call.
pub record Quiet {A : Type 0} (admin : ℤ) (m : M A) : Type 0 where
  pub adds : Adds (λ _ xs. harmless admin xs ≡ true) m

pub harmless-append :
    (admin : ℤ) (xs ys : List Call)
    → harmless admin ys ≡ true
    → harmless admin xs ≡ true
    → harmless admin (xs ++ ys) ≡ true
harmless-append admin [] ys h k = h
harmless-append admin (x ∷ xs) ys h k = ground (arith, harmless-append admin xs ys h)

module _ {admin : ℤ} {A B : Type 0} where
  pub Quiet-bind :
      (m : M A) (f : A → M B)
      → Quiet admin m
      → ((a : A) → Quiet admin (f a))
      → Quiet admin (m >>= f)
  Quiet-bind m f h k = record {
    adds =
        Adds-bind m f h.adds (λ a. (k a).adds) (λ a b xs ys p q. harmless-append admin xs ys p q);
  }

  pub Quiet-then : (m : M A) (k : M B) → Quiet admin m → Quiet admin k → Quiet admin (m >> k)
  Quiet-then m k h h' = Quiet-bind m (λ _. k) h (λ _. h')

-- The rest of a block, by the value that the first statement returns.
module _ {admin : ℤ} {A : Type 0} where
  pub Quiet-bind_Bool :
      (m : M Bool) (f : Bool → M A)
      → Quiet admin m
      → Quiet admin (f true)
      → Quiet admin (f false)
      → Quiet admin (m >>= f)
  Quiet-bind_Bool m f h t e =
      Quiet-bind m f h (λ b. elim b as (λ c. Quiet admin (f c)) [ true ↦ t | false ↦ e ])

  pub Quiet-bind_Result :
      {B : Type 0} (m : M (Result B)) (f : Result B → M A)
      → Quiet admin m
      → ((b : B) → Quiet admin (f (ok b)))
      → ((e : Failure) → Quiet admin (f (err e)))
      → Quiet admin (m >>= f)
  Quiet-bind_Result m f h t e =
      Quiet-bind m f h (λ b. elim b as (λ c. Quiet admin (f c)) [ ok a ↦ t a | err a ↦ e a ])

module _ {admin : ℤ} {A : Type 0} where
  pub Quiet-pure : (a : A) → Quiet admin (pure a)
  Quiet-pure a = record { adds = record { run = λ w. ([], refl, refl) } }

  pub Quiet-if :
      (b : Bool) (m k : M A) → Quiet admin m → Quiet admin k → Quiet admin (if b then m else k)
  Quiet-if true m k h h' = h
  Quiet-if false m k h h' = h'

  pub Quiet-transact : (env : Env) (f : Db → Db × A) → Quiet admin (transact env f)
  unfolding transact
  Quiet-transact env f = record { adds = record { run = λ w. ([], ground arith, refl) } }

pub Quiet-execute : {admin : ℤ} (env : Env) (f : Db → Db) → Quiet admin (execute env f)
unfolding execute
Quiet-execute env f = record { adds = record { run = λ w. ([], ground arith, refl) } }

pub Quiet-write_log : {admin : ℤ} (l : LogLine) → Quiet admin (write_log l)
Quiet-write_log l = record { adds = record { run = λ w. ([], refl, refl) } }

pub ruleset quiet_rules = (
  Quiet-bind, Quiet-then, Quiet-pure, Quiet-if, Quiet-transact, Quiet-execute, Quiet-write_log,
  Quiet-bind_Bool, Quiet-bind_Result,
)

-- Once there is evidence of the messages, calls that aim at them alone keep the order.
pub evidence_first-append_aimed :
    (admin chat : ℤ) (ids : List ℤ) (xs ys : List Call)
    → any (is_evidence admin chat ids) ys ≡ true
    → evidence_first admin chat ids ys ≡ true
    → aimed admin chat ids xs ≡ true
    → evidence_first admin chat ids (xs ++ ys) ≡ true
evidence_first-append_aimed admin chat ids [] ys e h a = h
evidence_first-append_aimed admin chat ids (x ∷ xs) ys e h a = ground (
  arith,
  evidence_first-append_aimed admin chat ids xs ys e h,
  any-append (is_evidence admin chat ids) xs ys,
)

pub aimed-append :
    (admin chat : ℤ) (ids : List ℤ) (xs ys : List Call)
    → aimed admin chat ids ys ≡ true
    → aimed admin chat ids xs ≡ true
    → aimed admin chat ids (xs ++ ys) ≡ true
aimed-append admin chat ids [] ys h k = h
aimed-append admin chat ids (x ∷ xs) ys h k = ground (arith, aimed-append admin chat ids xs ys h)

pub aimed_of_harmless :
    (admin chat : ℤ) (ids : List ℤ) (xs : List Call)
    → harmless admin xs ≡ true
    → aimed admin chat ids xs ≡ true
aimed_of_harmless admin chat ids [] h = refl
aimed_of_harmless admin chat ids (x ∷ xs) h = ground (arith, aimed_of_harmless admin chat ids xs)

pub evidence_first_of_harmless :
    (admin chat : ℤ) (ids : List ℤ) (xs : List Call)
    → harmless admin xs ≡ true
    → evidence_first admin chat ids xs ≡ true
evidence_first_of_harmless admin chat ids [] h = refl
evidence_first_of_harmless admin chat ids (x ∷ xs) h =
    ground (arith, evidence_first_of_harmless admin chat ids xs)

-- Methods whose destructive calls all act on the chat's messages `ids`.
pub record Aimed {A : Type 0} (admin chat : ℤ) (ids : List ℤ) (m : M A) : Type 0 where
  pub adds : Adds (λ _ xs. aimed admin chat ids xs ≡ true) m

module _ {admin chat : ℤ} {ids : List ℤ} {A : Type 0} where
  pub Aimed-of_Quiet : (m : M A) → Quiet admin m → Aimed admin chat ids m
  Aimed-of_Quiet m h = record {
    adds = Adds-weaken m h.adds (λ a xs p. aimed_of_harmless admin chat ids xs p);
  }

  pub Aimed-if :
      (b : Bool) (m k : M A)
      → Aimed admin chat ids m
      → Aimed admin chat ids k
      → Aimed admin chat ids (if b then m else k)
  Aimed-if true m k h h' = h
  Aimed-if false m k h h' = h'

pub Aimed-bind :
    {admin chat : ℤ} {ids : List ℤ} {A B : Type 0} (m : M A) (f : A → M B)
    → Aimed admin chat ids m
    → ((a : A) → Aimed admin chat ids (f a))
    → Aimed admin chat ids (m >>= f)
Aimed-bind {admin} {chat} {ids} m f h k = record {
  adds =
      Adds-bind m f h.adds (λ a. (k a).adds)
        (λ a b xs ys p q. aimed-append admin chat ids xs ys p q);
}

pub Aimed-then :
    {admin chat : ℤ} {ids : List ℤ} {A B : Type 0} (m : M A) (k : M B)
    → Aimed admin chat ids m
    → Aimed admin chat ids k
    → Aimed admin chat ids (m >> k)
Aimed-then m k h h' = Aimed-bind m (λ _. k) h (λ _. h')

pub ruleset aimed_rules = (Aimed-bind, Aimed-then, Aimed-if)

-- Harmless calls made earlier do not disturb the order.
pub evidence_first-append_harmless :
    (admin chat : ℤ) (ids : List ℤ) (xs ys : List Call)
    → harmless admin ys ≡ true
    → evidence_first admin chat ids xs ≡ true
    → evidence_first admin chat ids (xs ++ ys) ≡ true
evidence_first-append_harmless admin chat ids [] ys h e =
    evidence_first_of_harmless admin chat ids ys h
evidence_first-append_harmless admin chat ids (x ∷ xs) ys h e = ground (
  arith,
  evidence_first-append_harmless admin chat ids xs ys h,
  any-append (is_evidence admin chat ids) xs ys,
)

-- Nor do harmless calls made later.
pub evidence_first-prepend_harmless :
    (admin chat : ℤ) (ids : List ℤ) (xs ys : List Call)
    → harmless admin xs ≡ true
    → evidence_first admin chat ids ys ≡ true
    → evidence_first admin chat ids (xs ++ ys) ≡ true
evidence_first-prepend_harmless admin chat ids [] ys h e = e
evidence_first-prepend_harmless admin chat ids (x ∷ xs) ys h e =
    ground (arith, evidence_first-prepend_harmless admin chat ids xs ys)
