-- ===== src/Store/Captcha/Due.antt =====
-- internal/store/captcha.go: the rows that DueCaptchas gives to a sweep.
use telegram_antispam.Common.{
  ℕ, zero, suc, ◌≤◌, ℤ, pos, negsuc, same, same_iff, le_id, Bool, true, false, if◌then◌else◌, [],
  ◌∷◌, ◌++◌, keep, count_if, length, ◌≡◌, refl, sym, ap, ◌∙◌, subst, ◌⊎◌, inl, inr, arith,
  Bool-cases, ltb, leb, ◌<◌, ◌≢◌, any, ◌&&◌,
}
use telegram_antispam.Store.Captcha.{
  CaptchaState, fresh, challenged, passing, passed, failing, failed, cancelled, swept, same_state,
  CaptchaRow, Challenges, is_due, before, insert_row, order_rows, take_rows, due_captchas,
}

le_id_total : (a b : ℤ) → le_id a b ≡ false → le_id b a ≡ true
unfolding le_id
le_id_total (pos a) (pos b) h = ground (arith, h)
le_id_total (negsuc a) (negsuc b) h = ground (arith, h)
le_id_total (pos a) (negsuc b) h = refl
le_id_total (negsuc a) (pos b) h = absurd cc

same_sym : (a b : ℤ) → same a b ≡ true → same b a ≡ true
same_sym a b h = (same_iff b a).1 (sym ((same_iff a b).0 h))

before_total : (a b : CaptchaRow) → before a b ≡ false → before b a ≡ true
before_total a b h = ground (
  arith,
  h,
  le_id_total a.user_id b.user_id,
  le_id_total a.chat_id b.chat_id,
  same_sym b.chat_id a.chat_id,
  same_sym a.chat_id b.chat_id,
)

-- Each row is to be swept before the next one.
abbrev pub InOrder : Challenges → Type 0
InOrder [] = Unit
InOrder (a ∷ []) = Unit
InOrder (a ∷ (b ∷ t)) = (before a b ≡ true) × InOrder (b ∷ t)

InOrder-tail : (a : CaptchaRow) (t : Challenges) → InOrder (a ∷ t) → InOrder t
InOrder-tail a [] h = tt
InOrder-tail a (b ∷ t) h = h.1

InOrder-insert_row : (a : CaptchaRow) (t : Challenges) → InOrder t → InOrder (insert_row a t)
unfolding insert_row
InOrder-insert_row a [] h = tt
InOrder-insert_row a (b ∷ []) h = elim (Bool-cases (before a b)) [
  | inl e ↦ rw e (e, tt)
  | inr e ↦ rw e (before_total a b e, tt)
]
InOrder-insert_row a (b ∷ (c ∷ t)) h = elim (Bool-cases (before a b)) [
  | inl e ↦ rw e (e, h)
  | inr e ↦ elim (Bool-cases (before a c)) [
    | inl g ↦ rw (e, g) (before_total a b e, (g, h.1))
    | inr g ↦
        rw (e, g)
          (
            h.0,
            subst (λ r. InOrder r) (ap (λ k. if k then a ∷ c ∷ t else c ∷ insert_row a t) g)
                (InOrder-insert_row a (c ∷ t) h.1),
          )
  ]
]

InOrder-order_rows : (t : Challenges) → InOrder (order_rows t)
unfolding order_rows
InOrder-order_rows [] = tt
InOrder-order_rows (a ∷ t) = InOrder-insert_row a (order_rows t) (InOrder-order_rows t)

module _ (p : CaptchaRow → Bool) where
  count_if-insert_row :
      (a : CaptchaRow) (t : Challenges) → count_if p (insert_row a t) ≡ count_if p (a ∷ t)
  unfolding insert_row
  count_if-insert_row a [] = refl
  count_if-insert_row a (b ∷ t) = elim (Bool-cases (before a b)) [
    | inl e ↦ rw e refl
    | inr e ↦ rw e (ground (arith, count_if-insert_row a t))
  ]

  count_if-order_rows : (t : Challenges) → count_if p (order_rows t) ≡ count_if p t
  unfolding order_rows
  count_if-order_rows [] = refl
  count_if-order_rows (a ∷ t) =
      count_if-insert_row a (order_rows t)
      ∙ ap (λ n. if p a then suc n else n) (count_if-order_rows t)

abbrev pub drop_rows : ℕ → Challenges → Challenges
drop_rows zero t = t
drop_rows (suc n) [] = []
drop_rows (suc n) (r ∷ t) = drop_rows n t

take_rows-drop_rows : (n : ℕ) (t : Challenges) → take_rows n t ++ drop_rows n t ≡ t
take_rows-drop_rows zero t = refl
take_rows-drop_rows (suc n) [] = refl
take_rows-drop_rows (suc n) (r ∷ t) = ap (λ u. r ∷ u) (take_rows-drop_rows n t)

length-take_rows : (n : ℕ) (t : Challenges) → length (take_rows n t) ≤ n
length-take_rows zero t = omega arith
length-take_rows (suc n) [] = omega arith
length-take_rows (suc n) (r ∷ t) = omega (arith, length-take_rows n t)

all_or_full : (n : ℕ) (t : Challenges) → (drop_rows n t ≡ []) ⊎ (length (take_rows n t) ≡ n)
all_or_full zero t = inr refl
all_or_full (suc n) [] = inl refl
all_or_full (suc n) (r ∷ t) = elim (all_or_full n t) [ inl e ↦ inl e | inr e ↦ inr (ap suc e) ]

-- A challenge that is still open: all but passed, failed and cancelled.
abbrev pub is_open : CaptchaState → Bool
is_open fresh = true
is_open challenged = true
is_open passing = true
is_open failing = true
is_open passed = false
is_open failed = false
is_open cancelled = false

abbrev pub IsDue : ℕ → CaptchaRow → Type 0
IsDue now r = (is_open r.state ≡ true) × (r.deadline ≤ now)

swept_open : (s : CaptchaState) → any (same_state s) swept ≡ is_open s
swept_open fresh = refl
swept_open challenged = refl
swept_open passing = refl
swept_open failing = refl
swept_open passed = refl
swept_open failed = refl
swept_open cancelled = refl

is_due-IsDue : (now : ℕ) (r : CaptchaRow) → is_due now r ≡ true → IsDue now r
is_due-IsDue now r h = let e = swept_open r.state in (ground (arith, h, e), ground (arith, h))

-- The order of integers.
abbrev pub NotAbove : ℤ → ℤ → Type 0
NotAbove (pos a) (pos b) = a ≤ b
NotAbove (negsuc a) (negsuc b) = b ≤ a
NotAbove (negsuc a) (pos b) = Unit
NotAbove (pos a) (negsuc b) = ⊥

-- An earlier deadline, or the same one and a smaller chat, or the same chat too and no larger user.
abbrev pub Earlier : CaptchaRow → CaptchaRow → Type 0
Earlier a b =
    (a.deadline < b.deadline)
    ⊎ ((a.deadline ≡ b.deadline)
        × ((NotAbove a.chat_id b.chat_id × (a.chat_id ≢ b.chat_id))
            ⊎ ((a.chat_id ≡ b.chat_id) × NotAbove a.user_id b.user_id)))

le_id-NotAbove : (a b : ℤ) → le_id a b ≡ true → NotAbove a b
unfolding le_id
le_id-NotAbove (pos a) (pos b) h = ground (arith, h)
le_id-NotAbove (negsuc a) (negsuc b) h = ground (arith, h)
le_id-NotAbove (negsuc a) (pos b) h = tt
le_id-NotAbove (pos a) (negsuc b) h = absurd (let k : false ≡ true = h in cc)

before-same :
    (a b : CaptchaRow)
    → before a b ≡ true
    → a.deadline ≡ b.deadline
    → (if same a.chat_id b.chat_id then le_id a.user_id b.user_id else le_id a.chat_id b.chat_id)
      ≡ true
before-same a b h e = ground (arith, h, e)

not_equal : (a b : ℤ) → same a b ≡ false → a ≢ b
not_equal a b h e = let k : true ≡ false = sym ((same_iff a b).1 e) ∙ h in cc

before-Earlier : (a b : CaptchaRow) → before a b ≡ true → Earlier a b
before-Earlier a b h = elim (Bool-cases (ltb a.deadline b.deadline)) [
  | inl e ↦ inl (ground (arith, e))
  | inr e ↦
      let d : a.deadline ≡ b.deadline = ground (arith, h, e) in
      elim (Bool-cases (same a.chat_id b.chat_id)) [
        | inl f ↦ inr (
          d,
          inr (
            (same_iff a.chat_id b.chat_id).0 f,
            le_id-NotAbove a.user_id b.user_id (rw f at (before-same a b h d)),
          ),
        )
        | inr f ↦ inr (
          d,
          inl (
            le_id-NotAbove a.chat_id b.chat_id (rw f at (before-same a b h d)),
            not_equal a.chat_id b.chat_id f,
          ),
        )
      ]
]

-- Each row is to be swept no later than the next one.
abbrev pub Sorted : Challenges → Type 0
Sorted [] = Unit
Sorted (a ∷ []) = Unit
Sorted (a ∷ (b ∷ t)) = Earlier a b × Sorted (b ∷ t)

InOrder-Sorted : (t : Challenges) → InOrder t → Sorted t
InOrder-Sorted [] h = tt
InOrder-Sorted (a ∷ []) h = tt
InOrder-Sorted (a ∷ (b ∷ t)) h = (before-Earlier a b h.0, InOrder-Sorted (b ∷ t) h.1)

abbrev pub AllDue : ℕ → Challenges → Type 0
AllDue now [] = Unit
AllDue now (r ∷ t) = IsDue now r × AllDue now t

module _ (now : ℕ) where
  AllDue-keep : (t : Challenges) → AllDue now (keep (is_due now) t)
  AllDue-keep [] = tt
  AllDue-keep (r ∷ t) = elim (Bool-cases (is_due now r)) [
    | inl e ↦ rw e (is_due-IsDue now r e, AllDue-keep t)
    | inr e ↦ rw e (AllDue-keep t)
  ]

  AllDue-insert_row :
      (a : CaptchaRow) (t : Challenges) → IsDue now a → AllDue now t → AllDue now (insert_row a t)
  unfolding insert_row
  AllDue-insert_row a [] d h = (d, tt)
  AllDue-insert_row a (b ∷ t) d h = elim (Bool-cases (before a b)) [
    | inl e ↦ rw e (d, h)
    | inr e ↦ rw e (h.0, AllDue-insert_row a t d h.1)
  ]

  AllDue-order_rows : (t : Challenges) → AllDue now t → AllDue now (order_rows t)
  unfolding order_rows
  AllDue-order_rows [] h = tt
  AllDue-order_rows (a ∷ t) h = AllDue-insert_row a (order_rows t) h.0 (AllDue-order_rows t h.1)

  count_if-keep :
      (p : CaptchaRow → Bool) (t : Challenges)
      → count_if p (keep (is_due now) t)
        ≡ count_if (λ r. p r && is_open r.state && leb r.deadline now) t
  count_if-keep p [] = refl
  count_if-keep p (r ∷ t) = ground (arith, count_if-keep p t, swept_open r.state)

-- DueCaptchas returns no more rows than the limit. Together with some rest they are, each as often as
-- in the table, the rows whose state is still open and whose deadline is not after now, sorted by
-- deadline, then chat, then user; the rest is empty unless the limit is reached.
pub due_captchas-earliest :
    (now limit : ℕ) (t : Challenges)
    → (length (due_captchas now limit t) ≤ limit)
      × (rest : Challenges) × Sorted (due_captchas now limit t ++ rest)
      × AllDue now (due_captchas now limit t ++ rest)
      × ((p : CaptchaRow → Bool)
          → count_if p (due_captchas now limit t ++ rest)
            ≡ count_if (λ r. p r && is_open r.state && leb r.deadline now) t)
      × ((rest ≡ []) ⊎ (length (due_captchas now limit t) ≡ limit))
unfolding due_captchas
due_captchas-earliest now limit t =
    let due = keep (is_due now) t in
    let rows = order_rows due in
    let whole = sym (take_rows-drop_rows limit rows) in
    (
      length-take_rows limit rows,
      drop_rows limit rows,
      subst Sorted whole (InOrder-Sorted rows (InOrder-order_rows due)),
      subst (AllDue now) whole (AllDue-order_rows now due (AllDue-keep now t)),
      λ p.
          ap (count_if p) (take_rows-drop_rows limit rows)
          ∙ count_if-order_rows p due
          ∙ count_if-keep now p t,
      all_or_full limit rows,
    )
