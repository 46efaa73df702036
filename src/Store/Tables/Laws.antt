-- ===== src/Store/Tables/Laws.antt =====
-- How the searches and the updates of a table meet.
use telegram_antispam.Common.{
  ℕ, Bool, true, false, ◌==◌, ==_iff, if◌then◌else◌, List, [], ◌∷◌, ◌++◌, map, any, none, some, ◌≡◌,
  refl, ap, subst, arith, Bool-cases, inl, inr,
}
use mathlib.Core.Option
use mathlib.Core.Option.{some-injective}
use telegram_antispam.Store.Tables.{update_where, find_where, Row, has_id}

module _ {ℓ} {A : Type ℓ} where
  -- An update that keeps the column `g` keeps all of it.
  pub map-update_where :
      {B : Type 0} (g : A → B) (p : A → Bool) (f : A → A) (xs : List A)
      → ((x : A) → g (f x) ≡ g x)
      → map g (update_where p f xs) ≡ map g xs
  unfolding update_where
  map-update_where g p f [] h = refl
  map-update_where g p f (x ∷ xs) h = elim (Bool-cases (p x)) [
    | inl e ↦ rw (e, h x, map-update_where g p f xs h)
    | inr e ↦ rw (e, map-update_where g p f xs h)
  ]

  -- The search for what an update rewrites, where the update keeps the test.
  pub find_where-update_self :
      (p : A → Bool) (f : A → A) (xs : List A)
      → ((x : A) → p (f x) ≡ p x)
      → find_where p (update_where p f xs) ≡ Option.map f (find_where p xs)
  unfolding update_where find_where
  find_where-update_self p f [] h = refl
  find_where-update_self p f (x ∷ xs) h = elim (Bool-cases (p x)) [
    | inl e ↦ rw (e, h x, e)
    | inr e ↦ rw (e, e, find_where-update_self p f xs h)
  ]

  -- The search for anything else.
  pub find_where-update_other :
      (p q : A → Bool) (f : A → A) (xs : List A)
      → ((x : A) → q x ≡ true → (p x ≡ false) × (p (f x) ≡ false))
      → find_where p (update_where q f xs) ≡ find_where p xs
  unfolding update_where find_where
  find_where-update_other p q f [] h = refl
  find_where-update_other p q f (x ∷ xs) h = elim (Bool-cases (q x)) [
    | inl e ↦ rw (e, (h x e).0, (h x e).1, find_where-update_other p q f xs h)
    | inr e ↦ rw (e, find_where-update_other p q f xs h)
  ]

  pub any_of_find_none : (p : A → Bool) (xs : List A) → find_where p xs ≡ none → any p xs ≡ false
  unfolding find_where
  any_of_find_none p [] h = refl
  any_of_find_none p (y ∷ xs) h = ground (arith, any_of_find_none p xs)

-- A row by its number, after an update of the row with another number or the same.
pub row-update_where :
    (id j : ℕ) (f : Row → Row) (xs : List Row)
    → ((x : Row) → (f x).id ≡ x.id)
    → find_where (has_id j) (update_where (has_id id) f xs)
      ≡ (if id == j then Option.map f (find_where (has_id j) xs) else find_where (has_id j) xs)
row-update_where id j f xs h = elim (Bool-cases (id == j)) [
  | inl e ↦ rw e (
      subst
        (λ (k : ℕ).
          find_where (has_id k) (update_where (has_id id) f xs)
          ≡ Option.map f (find_where (has_id k) xs))
        ((==_iff id j).0 e)
        (find_where-update_self (has_id id) f xs (λ x. ap (λ (k : ℕ). k == id) (h x))))
  | inr e ↦ rw e (
      find_where-update_other (has_id j) (has_id id) f xs
        (λ x q. (ground arith, ground (arith, h x))))
]

-- What was found is found after a row is appended.
pub find_where-append {ℓ} :
    {A : Type ℓ} (p : A → Bool) (xs ys : List A) {x : A}
    → find_where p xs ≡ some x
    → find_where p (xs ++ ys) ≡ some x
unfolding find_where
find_where-append p [] ys h = cc
find_where-append p (y ∷ xs) ys h = elim (Bool-cases (p y)) [
  | inl e ↦ ground (arith, h, e)
  | inr e ↦ rw e (find_where-append p xs ys (ground (arith, h, e)))
]

module _ {A : Type 0} where
  pub find_where_holds : (p : A → Bool) (t : List A) {x : A} → find_where p t ≡ some x → p x ≡ true
  unfolding find_where
  find_where_holds p [] h = absurd cc
  find_where_holds p (y ∷ t) {x} h = elim (Bool-cases (p y)) [
    | inl e ↦ subst (λ z. p z ≡ true) (some-injective y x (ground (arith, h, e))) e
    | inr e ↦ find_where_holds p t (ground (arith, h, e))
  ]

  -- The search for what an update keeps as it is searched for.
  pub find_where-update_where :
      (p q : A → Bool) (f : A → A) (t : List A)
      → ((x : A) → q x ≡ true → p (f x) ≡ p x)
      → find_where p (update_where q f t)
        ≡ Option.map (λ x. if q x then f x else x) (find_where p t)
  unfolding find_where update_where
  find_where-update_where p q f [] h = refl
  find_where-update_where p q f (x ∷ xs) h = elim (Bool-cases (q x)) [
    | inl e ↦ elim (Bool-cases (p x)) [
      | inl k ↦ rw (e, h x e, k, e) refl
      | inr k ↦ rw (e, h x e, k) (find_where-update_where p q f xs h)
    ]
    | inr e ↦ elim (Bool-cases (p x)) [
      | inl k ↦ rw (e, k, e) refl
      | inr k ↦ rw (e, k) (find_where-update_where p q f xs h)
    ]
  ]
