-- ===== src/Store/Captcha/Keys.antt =====
-- internal/store/captcha.go: a member has one row at most, as PRIMARY KEY(chat_id, user_id) demands, and
-- what an operation does to that row and returns of it.
use telegram_antispam.Common.{
  ℕ, suc, ◌==◌, ℤ, same, same_refl, same_key, Bool, true, false, ◌&&◌, if◌then◌else◌, List, [], ◌∷◌,
  ◌++◌, Option, none, some, count_if, ◌≡◌, refl, sym, ap, ◌∙◌, subst, inl, inr, arith, Bool-cases,
}
use mathlib.Core.Option
use mathlib.Core.Option.{some-injective}
use telegram_antispam.Config.Captcha.{CaptchaMode}
use telegram_antispam.Store.Tables.{update_where, find_where}
use telegram_antispam.Store.Tables.Laws.{find_where_holds, find_where-update_where}
use telegram_antispam.Store.Captcha.{
  CaptchaState, failing, passing, CaptchaRow, Challenges, of_member, get_captcha, in_states,
  of_attempt, ended, new_row, restartable, begin_over, begin_captcha, of_states, updated_row,
  with_table, update_captcha, transition_captcha, mark_captcha_passing, fail_captcha, retry_captcha,
  set_prompt, set_captcha_prompt, or_zero,
}
use telegram_antispam.Store.Captcha.Life.{
  Operation, begin, transition, mark_passing, fail, retry, prompt, kept, apply, run,
}

abbrev pub Distinct : Challenges → Type 0
Distinct [] = Unit
Distinct (r ∷ t) = (get_captcha r.chat_id r.user_id t ≡ none) × Distinct t

-- An update that keeps the keys.
abbrev KeepsKey : (CaptchaRow → Bool) → (CaptchaRow → CaptchaRow) → Type 0
KeepsKey q f =
    (x : CaptchaRow) → q x ≡ true → ((f x).chat_id ≡ x.chat_id) × ((f x).user_id ≡ x.user_id)

get-update :
    (c u : ℤ) (q : CaptchaRow → Bool) (f : CaptchaRow → CaptchaRow) (t : Challenges)
    → KeepsKey q f
    → get_captcha c u (update_where q f t)
      ≡ Option.map (λ x. if q x then f x else x) (get_captcha c u t)
get-update c u q f t k =
    find_where-update_where (of_member c u) q f t (λ x h. rw ((k x h).0, (k x h).1) refl)

Distinct-update_where :
    (q : CaptchaRow → Bool) (f : CaptchaRow → CaptchaRow) (t : Challenges)
    → KeepsKey q f
    → Distinct t
    → Distinct (update_where q f t)
unfolding update_where
Distinct-update_where q f [] k d = tt
Distinct-update_where q f (x ∷ t) k d = elim (Bool-cases (q x)) [
  | inl e ↦
      rw (e, (k x e).0, (k x e).1)
        (
          get-update x.chat_id x.user_id q f t k
              ∙ ap (Option.map (λ x. if q x then f x else x)) d.0,
          Distinct-update_where q f t k d.1,
        )
  | inr e ↦ rw e (
    get-update x.chat_id x.user_id q f t k ∙ ap (Option.map (λ x. if q x then f x else x)) d.0,
    Distinct-update_where q f t k d.1,
  )
]

get-append_none :
    (c u : ℤ) (t : Challenges) (n : CaptchaRow)
    → get_captcha c u t ≡ none
    → get_captcha c u (t ++ n ∷ []) ≡ (if of_member c u n then some n else none)
unfolding find_where
get-append_none c u [] n h = refl
get-append_none c u (x ∷ t) n h = elim (Bool-cases (of_member c u x)) [
  | inl e ↦ absurd ground (arith, h, e)
  | inr e ↦ rw e (get-append_none c u t n (ground (arith, h, e)))
]

other_key :
    (x n : CaptchaRow)
    → of_member n.chat_id n.user_id x ≡ false
    → of_member x.chat_id x.user_id n ≡ false
other_key x n h = elim (Bool-cases (of_member x.chat_id x.user_id n)) [
  | inl e ↦
      let (a, b) = same_key n.chat_id n.user_id x.chat_id x.user_id e in
      let back = subst (λ k. same x.chat_id k ≡ true) (sym a) (same_refl x.chat_id) in
      let back' = subst (λ k. same x.user_id k ≡ true) (sym b) (same_refl x.user_id) in
      absurd ground (arith, back, back', h)
  | inr e ↦ e
]

Distinct-append :
    (t : Challenges) (n : CaptchaRow)
    → Distinct t
    → get_captcha n.chat_id n.user_id t ≡ none
    → Distinct (t ++ n ∷ [])
unfolding find_where
Distinct-append [] n d h = (refl, tt)
Distinct-append (x ∷ t) n d h = elim (Bool-cases (of_member n.chat_id n.user_id x)) [
  | inl e ↦ absurd ground (arith, h, e)
  | inr e ↦ (
    get-append_none x.chat_id x.user_id t n d.0
        ∙ ap (λ b. if b then some n else none) (other_key x n e),
    Distinct-append t n d.1 (ground (arith, h, e)),
  )
]

-- How many rows an update of one member rewrites.
count_none :
    (chat user : ℤ) (q : CaptchaRow → Bool) (t : Challenges)
    → ((x : CaptchaRow) → q x ≡ true → of_member chat user x ≡ true)
    → get_captcha chat user t ≡ none
    → count_if q t ≡ 0
unfolding find_where
count_none chat user q [] m h = refl
count_none chat user q (x ∷ t) m h = elim (Bool-cases (of_member chat user x)) [
  | inl e ↦ absurd ground (arith, h, e)
  | inr e ↦ elim (Bool-cases (q x)) [
    | inl g ↦ absurd ground (arith, m x g, e)
    | inr g ↦ rw g (count_none chat user q t m (ground (arith, h, e)))
  ]
]

one_or_none : (b : Bool) (n : ℕ) → n ≡ 0 → ((if b then suc n else n) == 1) ≡ b
one_or_none b n h = ground (arith, h)

count_one :
    (chat user : ℤ) (q : CaptchaRow → Bool) (t : Challenges) {r : CaptchaRow}
    → ((x : CaptchaRow) → q x ≡ true → of_member chat user x ≡ true)
    → Distinct t
    → get_captcha chat user t ≡ some r
    → (count_if q t == 1) ≡ q r
unfolding find_where
count_one chat user q [] m d h = absurd cc
count_one chat user q (x ∷ t) m d h = elim (Bool-cases (of_member chat user x)) [
  | inl e ↦
      let (a, b) = same_key x.chat_id x.user_id chat user e in
      let rest = count_none chat user q t m (
        subst (λ k. get_captcha k user t ≡ none) a
          (subst (λ k. get_captcha x.chat_id k t ≡ none) b d.0)) in
      subst (λ z. (count_if q (x ∷ t) == 1) ≡ q z) (some-injective x _ (ground (arith, h, e)))
        (one_or_none (q x) (count_if q t) rest)
  | inr e ↦ elim (Bool-cases (q x)) [
    | inl g ↦ absurd ground (arith, m x g, e)
    | inr g ↦ rw g (count_one chat user q t m d.1 (ground (arith, h, e)))
  ]
]

updated_row-some :
    (b : Bool) (r : CaptchaRow) (t : Challenges)
    → with_table t (updated_row b (some r)) ≡ some (t, (r, b))
unfolding updated_row with_table
updated_row-some true r t = refl
updated_row-some false r t = refl

module _ (chat user : ℤ) (attempt : ℕ) where
  -- What updateCaptcha does by the member's row `r`: the row moves if it is of the attempt and in one of
  -- the states, and it returns the row as it is then.
  pub update_captcha-row :
      (s : CaptchaState) (from : List CaptchaState) (f : CaptchaRow → CaptchaRow) (t : Challenges)
      {r : CaptchaRow}
      → ((x : CaptchaRow) → ((f x).chat_id ≡ x.chat_id) × ((f x).user_id ≡ x.user_id))
      → Distinct t
      → get_captcha chat user t ≡ some r
      → let q = of_states chat user attempt (s ∷ from) in
        let t' = update_where q f t in
        let r' = if q r then f r else r in
        (update_captcha chat user attempt (s ∷ from) f t ≡ some (t', (r', q r)))
        × (get_captcha chat user t' ≡ some r')
  unfolding update_captcha with_table
  update_captcha-row s from f t {r} k d h =
      let q = of_states chat user attempt (s ∷ from) in
      let g =
        get-update chat user q f t (λ x _. k x) ∙ ap (Option.map (λ x. if q x then f x else x)) h in
      let n = count_one chat user q t (λ x e. ground (arith, e)) d h in
      (rw (n, g) (updated_row-some (q r) _ _), g)

-- May another attempt begin, and with which number?
abbrev pub startable : Option CaptchaRow → Bool
startable none = true
startable (some r) = in_states ended r

abbrev pub next_attempt : Option CaptchaRow → ℕ
next_attempt none = 1
next_attempt (some r) = suc r.attempt

conj : (a b : Bool) → a ≡ true → b ≡ true → (a && b) ≡ true
conj a b h k = ground (arith, h, k)

module _ (chat user : ℤ) (now deadline : ℕ) (mode : CaptchaMode) where
  unfoldable pub Begun : Option CaptchaRow → Challenges × (CaptchaRow × Bool) → Type 0
  Begun old (t', (row, started)) =
      (started ≡ startable old)
      × (get_captcha chat user t' ≡ some row)
      × Distinct t'
      × (row ≡ (
          if startable old
          then new_row chat user (next_attempt old) now deadline mode
          else or_zero old))

  of_member_refl : (n : ℕ) → of_member chat user (new_row chat user n now deadline mode) ≡ true
  of_member_refl n = rw (same_refl chat, same_refl user) refl

  KeepsKey-new :
      (n : ℕ) → KeepsKey (restartable chat user) (λ _. new_row chat user n now deadline mode)
  KeepsKey-new n x h =
      let (a, b) = same_key x.chat_id x.user_id chat user (ground (arith, h)) in (sym a, sym b)

  begin_over-Begun :
      (t : Challenges) (o : Option CaptchaRow)
      → get_captcha chat user t ≡ o
      → Distinct t
      → Begun o (begin_over chat user now deadline mode o t)
  unfolding begin_over Begun
  begin_over-Begun t none h d = (
    refl,
    get-append_none chat user t (new_row chat user 1 now deadline mode) h
        ∙ ap (λ b. if b then some (new_row chat user 1 now deadline mode) else none)
            (of_member_refl 1),
    Distinct-append t (new_row chat user 1 now deadline mode) d h,
    refl,
  )
  begin_over-Begun t (some old) h d = elim (Bool-cases (in_states ended old)) [
    | inl e ↦
        let n = count_one chat user (restartable chat user) t (λ x k. ground (arith, k)) d h in
        let new = new_row chat user (suc old.attempt) now deadline mode in
        let held = find_where_holds (of_member chat user) t h in
        let hit = conj (of_member chat user old) (in_states ended old) held e in
        let g =
          get-update chat user (restartable chat user) (λ _. new) t (KeepsKey-new (suc old.attempt))
          ∙ ap (Option.map (λ x. if restartable chat user x then new else x)) h in
        rw (e, n ∙ hit)
          (
            refl,
            g ∙ ap (λ b. some (if b then new else old)) hit,
            Distinct-update_where (restartable chat user) (λ _. new) t
                (KeepsKey-new (suc old.attempt)) d,
            refl,
          )
    | inr e ↦ rw e (refl, h, d, refl)
  ]

Distinct-kept {ℓ} :
    {A : Type ℓ} (t t' : Challenges) (a : Option A)
    → Distinct t
    → Distinct t'
    → Distinct (kept t (with_table t' a))
unfolding with_table
Distinct-kept t t' none d d' = d
Distinct-kept t t' (some a) d d' = d'

Distinct-kept_if {ℓ} :
    {A : Type ℓ} (t : Challenges) (b : Bool) (x : Option (Challenges × A))
    → Distinct t
    → Distinct (kept t x)
    → Distinct (kept t (if b then x else none))
Distinct-kept_if t true x d d' = d'
Distinct-kept_if t false x d d' = d

Distinct-update_captcha :
    (chat user : ℤ) (attempt : ℕ) (from : List CaptchaState) (f : CaptchaRow → CaptchaRow)
    (t : Challenges)
    → ((x : CaptchaRow) → ((f x).chat_id ≡ x.chat_id) × ((f x).user_id ≡ x.user_id))
    → Distinct t
    → Distinct (kept t (update_captcha chat user attempt from f t))
unfolding update_captcha
Distinct-update_captcha chat user attempt [] f t k d = d
Distinct-update_captcha chat user attempt (s ∷ from) f t k d =
    Distinct-kept t _ _ d
      (Distinct-update_where (of_states chat user attempt (s ∷ from)) f t (λ x _. k x) d)

pub Distinct-apply : (o : Operation) (t : Challenges) → Distinct t → Distinct (apply o t)
unfolding apply begin_captcha transition_captcha mark_captcha_passing fail_captcha retry_captcha
    set_captcha_prompt Begun
Distinct-apply (begin chat user now deadline mode) t d =
    (begin_over-Begun chat user now deadline mode t (get_captcha chat user t) refl d).2
Distinct-apply (transition chat user attempt from to) t d =
    Distinct-update_captcha chat user attempt from _ t (λ x. (refl, refl)) d
Distinct-apply (mark_passing chat user attempt deadline) t d =
    Distinct-update_captcha chat user attempt _ _ t (λ x. (refl, refl)) d
Distinct-apply (fail chat user attempt from action) t d =
    Distinct-update_captcha chat user attempt from _ t (λ x. (refl, refl)) d
Distinct-apply (retry chat user attempt next) t d =
    let where_ = of_states chat user attempt (failing ∷ passing ∷ []) in
    Distinct-kept_if t (count_if where_ t == 1) _ d (
      Distinct-update_where where_
        (λ (r : CaptchaRow). record r { tries = suc r.tries; deadline = next }) t
        (λ x _. (refl, refl)) d)
Distinct-apply (prompt chat user attempt dest eph msg deadline) t d =
    Distinct-kept_if t (count_if (of_attempt chat user attempt) t == 1) _ d (
      Distinct-kept t _ _ d (
        Distinct-update_where (of_attempt chat user attempt) (set_prompt dest eph msg deadline) t
          (λ x _. (refl, refl)) d))

-- Whatever operations are made, in any order, no member has two rows.
pub Distinct-run : (os : List Operation) (t : Challenges) → Distinct t → Distinct (run os t)
unfolding run
Distinct-run [] t d = d
Distinct-run (o ∷ os) t d = Distinct-run os (apply o t) (Distinct-apply o t d)

-- BeginCaptcha starts an attempt exactly where the member has no row, or one that failed or was
-- cancelled; then the row is new and bears the next number, and otherwise it is the one on record. It
-- returns the row that the member has afterwards, and no member gets a second one.
pub begin_captcha-Begun :
    (chat user : ℤ) (now deadline : ℕ) (mode : CaptchaMode) (t : Challenges)
    → Distinct t
    → Begun chat user now deadline mode
        (get_captcha chat user t)
        (begin_captcha chat user now deadline mode t)
unfolding begin_captcha
begin_captcha-Begun chat user now deadline mode t d =
    begin_over-Begun chat user now deadline mode t (get_captcha chat user t) refl d
