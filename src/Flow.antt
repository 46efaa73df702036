-- ===== src/Flow.antt =====
-- Function bodies over a state: statements in sequence, some of which return from the function. No code of
-- the program is modelled here.

-- A function body comes to an early return, or goes on with a value.
pub data Flow (R A : Type 0) : Type 0 where
  returns : R → Flow R A
  goes_on : A → Flow R A

-- A part of the body of a function that acts on a state W and returns an R.
abbrev pub Body : Type 0 → Type 0 → Type 0 → Type 0
Body W R A = W → Flow R A × W

abbrev after : {W R A B : Type 0} → Flow R A × W → (A → Body W R B) → Flow R B × W
after (returns r, w) k = (returns r, w)
after (goes_on a, w) k = k a w

infixl 5 ◌>>=◌ ◌>>◌
abbrev pub ◌>>=◌ : {W R A B : Type 0} → Body W R A → (A → Body W R B) → Body W R B
◌>>=◌ m k w = after (m w) k

abbrev pub ◌>>◌ : {W R A B : Type 0} → Body W R A → Body W R B → Body W R B
◌>>◌ m k w = after (m w) (λ _. k)

abbrev pub pure : {W R A : Type 0} → A → Body W R A
pure a w = (goes_on a, w)

-- `return`
abbrev pub exit : {W R A : Type 0} → R → Body W R A
exit r w = (returns r, w)

abbrev entered : {W R A : Type 0} → Flow A A × W → Flow R A × W
entered (returns a, w) = (goes_on a, w)
entered (goes_on a, w) = (goes_on a, w)

-- The call of a function from another one.
abbrev pub enter : {W R A : Type 0} → Body W A A → Body W R A
enter m w = entered (m w)
