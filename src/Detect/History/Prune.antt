-- ===== src/Detect/History/Prune.antt =====
-- What pruning leaves to a later look at the window.
use telegram_antispam.Common.{
  ℕ, ◌≤◌, Bool, true, false, not, List, [], ◌∷◌, ◌++◌, any, keep, ◌≡◌, refl, arith, Bool-cases, inl,
  inr,
}
use telegram_antispam.Detect.History.{within_window, prune}

module _ {E : Type 0} where
  keep-all : (p : E → Bool) (es : List E) → any (λ e. not (p e)) es ≡ false → keep p es ≡ es
  keep-all p [] h = refl
  keep-all p (e ∷ es) h = ground (arith, keep-all p es)

  -- Both loops together keep the events that are fresh.
  pub prune-keep : (p : E → Bool) (es : List E) → prune p es ≡ keep p es
  unfolding prune
  prune-keep p es = let h = keep-all p es in ground (arith, h)

  pub keep-append : (p : E → Bool) (es fs : List E) → keep p (es ++ fs) ≡ keep p es ++ keep p fs
  keep-append p [] fs = refl
  keep-append p (e ∷ es) fs = elim (Bool-cases (p e)) [
    | inl h ↦ rw (h, keep-append p es fs) refl
    | inr h ↦ rw (h, keep-append p es fs) refl
  ]

  -- A stricter test after a laxer one is the stricter test.
  pub keep-keep :
      (p q : E → Bool) (es : List E)
      → ((e : E) → p e ≡ true → q e ≡ true)
      → keep p (keep q es) ≡ keep p es
  keep-keep p q [] h = refl
  keep-keep p q (e ∷ es) h =
      let rest = keep-keep p q es h in
      elim (Bool-cases (q e)) [
        | inl k ↦ rw (k, rest) refl
        | inr k ↦ elim (Bool-cases (p e)) [
          | inl l ↦ absurd (let m = h e l in cc)
          | inr l ↦ rw (k, l, rest) refl
        ]
      ]

  -- What a look p sees after a look q, laxer than p, has pruned the slice and added an event.
  pub keep-prune :
      (p q : E → Bool) (es log : List E)
      → ((e : E) → p e ≡ true → q e ≡ true)
      → keep p es ≡ keep p log
      → keep p (prune q es) ≡ keep p log
  keep-prune p q es log h k = rw (prune-keep q es, keep-keep p q es h) k

  pub keep-prune-add :
      (p q : E → Bool) (es log : List E) (e : E)
      → ((e : E) → p e ≡ true → q e ≡ true)
      → keep p es ≡ keep p log
      → keep p (prune q es ++ e ∷ []) ≡ keep p (log ++ e ∷ [])
  keep-prune-add p q es log e h k =
      rw
        (keep-append p (prune q es) (e ∷ []), keep-append p log (e ∷ []), keep-prune p q es log h k)
        refl

-- An event that a later look through a window no longer than `age` keeps was kept by an earlier one.
pub within_window-later :
    (ts now later window age : ℕ)
    → now ≤ later
    → window ≤ age
    → within_window ts later window ≡ true
    → within_window ts now age ≡ true
within_window-later ts now later window age h k w = ground arith
