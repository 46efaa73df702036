-- ===== src/Blocklist/Sets.antt =====
-- A built set is in order and holds the ids that it was built from.
use telegram_antispam.Common.{
  ℤ, pos, negsuc, same, same_iff, le_id, Bool, true, false, ◌||◌, if◌then◌else◌, List, [], ◌∷◌, any,
  ◌≡◌, refl, sym, ap, ◌∙◌, arith, Bool-cases, inl, inr,
}
use telegram_antispam.Blocklist.{insert_id, sort_ids, is_head, compact, build_set, contains}

le_id-total : (a b : ℤ) → le_id a b ≡ false → le_id b a ≡ true
unfolding le_id
le_id-total (pos a) (pos b) h = ground arith
le_id-total (negsuc a) (negsuc b) h = ground arith
le_id-total (negsuc a) (pos b) h = absurd (let k : true ≡ false = h in cc)
le_id-total (pos a) (negsuc b) h = refl

le_id_trans : (a b c : ℤ) → le_id a b ≡ true → le_id b c ≡ true → le_id a c ≡ true
unfolding le_id
le_id_trans (pos a) (pos b) (pos c) h k = ground arith
le_id_trans (negsuc a) (negsuc b) (negsuc c) h k = ground arith
le_id_trans (negsuc a) b (pos c) h k = refl
le_id_trans (pos a) (negsuc b) c h k = absurd (let e : false ≡ true = h in cc)
le_id_trans (pos a) (pos b) (negsuc c) h k = absurd (let e : false ≡ true = k in cc)
le_id_trans (negsuc a) (pos b) (negsuc c) h k = absurd (let e : false ≡ true = k in cc)

le_id_refl : (a : ℤ) → le_id a a ≡ true
unfolding le_id
le_id_refl (pos a) = ground arith
le_id_refl (negsuc a) = ground arith

abbrev pub AllFrom : ℤ → List ℤ → Type 0
AllFrom a [] = Unit
AllFrom a (x ∷ xs) = (le_id a x ≡ true) × AllFrom a xs

abbrev pub Sorted : List ℤ → Type 0
Sorted [] = Unit
Sorted (x ∷ xs) = AllFrom x xs × Sorted xs

AllFrom-trans : (a b : ℤ) (xs : List ℤ) → le_id a b ≡ true → AllFrom b xs → AllFrom a xs
AllFrom-trans a b [] h k = tt
AllFrom-trans a b (x ∷ xs) h k = (le_id_trans a b x h k.0, AllFrom-trans a b xs h k.1)

AllFrom-insert_id :
    (a b : ℤ) (xs : List ℤ) → le_id a b ≡ true → AllFrom a xs → AllFrom a (insert_id b xs)
unfolding insert_id
AllFrom-insert_id a b [] h k = (h, tt)
AllFrom-insert_id a b (x ∷ xs) h k = elim (Bool-cases (le_id b x)) [
  | inl e ↦ rw e (h, k)
  | inr e ↦ rw e (k.0, AllFrom-insert_id a b xs h k.1)
]

insert_id-Sorted : (a : ℤ) (xs : List ℤ) → Sorted xs → Sorted (insert_id a xs)
unfolding insert_id
insert_id-Sorted a [] h = (tt, tt)
insert_id-Sorted a (x ∷ xs) h = elim (Bool-cases (le_id a x)) [
  | inl e ↦ rw e ((e, AllFrom-trans a x xs e h.0), h)
  | inr e ↦ rw e (AllFrom-insert_id x a xs (le_id-total a x e) h.0, insert_id-Sorted a xs h.1)
]

sort_ids-Sorted : (xs : List ℤ) → Sorted (sort_ids xs)
unfolding sort_ids
sort_ids-Sorted [] = tt
sort_ids-Sorted (x ∷ xs) = insert_id-Sorted x (sort_ids xs) (sort_ids-Sorted xs)

AllFrom-compact : (a : ℤ) (xs : List ℤ) → AllFrom a xs → AllFrom a (compact xs)
unfolding compact
AllFrom-compact a [] h = tt
AllFrom-compact a (x ∷ xs) h = elim (Bool-cases (is_head x xs)) [
  | inl e ↦ rw e (AllFrom-compact a xs h.1)
  | inr e ↦ rw e (h.0, AllFrom-compact a xs h.1)
]

compact-Sorted : (xs : List ℤ) → Sorted xs → Sorted (compact xs)
unfolding compact
compact-Sorted [] h = tt
compact-Sorted (x ∷ xs) h = elim (Bool-cases (is_head x xs)) [
  | inl e ↦ rw e (compact-Sorted xs h.1)
  | inr e ↦ rw e (AllFrom-compact x xs h.0, compact-Sorted xs h.1)
]

unfoldable pub has : ℤ → List ℤ → Bool
has u xs = any (same u) xs

has-insert_id : (u a : ℤ) (xs : List ℤ) → has u (insert_id a xs) ≡ (same u a || has u xs)
unfolding insert_id has
has-insert_id u a [] = refl
has-insert_id u a (x ∷ xs) = ground (arith, has-insert_id u a xs)

has-sort_ids : (u : ℤ) (xs : List ℤ) → has u (sort_ids xs) ≡ has u xs
unfolding sort_ids has
has-sort_ids u [] = refl
has-sort_ids u (x ∷ xs) =
    has-insert_id u x (sort_ids xs) ∙ ap (λ b. same u x || b) (has-sort_ids u xs)

has-head : (u x : ℤ) (xs : List ℤ) → is_head x xs ≡ true → (same u x || has u xs) ≡ has u xs
unfolding has
has-head u x [] h = absurd (let k : false ≡ true = h in cc)
has-head u x (y ∷ ys) h = rw ((same_iff x y).0 h) (ground arith)

has-compact : (u : ℤ) (xs : List ℤ) → has u (compact xs) ≡ has u xs
unfolding compact has
has-compact u [] = refl
has-compact u (x ∷ xs) = elim (Bool-cases (is_head x xs)) [
  | inl e ↦ rw e (has-compact u xs ∙ sym (has-head u x xs e))
  | inr e ↦ rw e (ap (λ b. same u x || b) (has-compact u xs))
]

-- A search in order finds what is there.
has-before : (u x : ℤ) (xs : List ℤ) → le_id x u ≡ false → AllFrom x xs → has u xs ≡ false
unfolding has
has-before u x [] h k = refl
has-before u x (y ∷ ys) h k = elim (Bool-cases (same u y)) [
  | inl e ↦ absurd (let l : le_id x u ≡ true = rw ((same_iff u y).0 e) k.0 in cc)
  | inr e ↦ rw e (has-before u x ys h k.1)
]

pub contains-has : (u : ℤ) (xs : List ℤ) → Sorted xs → contains u xs ≡ has u xs
unfolding contains has
contains-has u [] h = refl
contains-has u (x ∷ xs) h = elim (Bool-cases (le_id x u)) [
  | inl e ↦ rw e (ap (λ b. if same u x then true else b) (contains-has u xs h.1) ∙ ground arith)
  | inr e ↦ rw (e, has-before u x xs e h.0) (ground arith)
]

pub build_set-Sorted : (xs : List ℤ) → Sorted (build_set xs)
unfolding build_set
build_set-Sorted xs = compact-Sorted (sort_ids xs) (sort_ids-Sorted xs)

pub has-build_set : (u : ℤ) (xs : List ℤ) → has u (build_set xs) ≡ has u xs
unfolding build_set
has-build_set u xs = has-compact u (sort_ids xs) ∙ has-sort_ids u xs
