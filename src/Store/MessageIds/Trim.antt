-- ===== src/Store/MessageIds/Trim.antt =====
-- strings.TrimSpace leaves nothing to trim.
use telegram_antispam.Common.{
  ℕ, Bool, true, false, not, [], ◌∷◌, ◌≡◌, refl, ap, ◌∙◌, arith, Bool-cases, inl, inr,
}
use telegram_antispam.Store.MessageIds.{
  Text, is_space, trim_left, trim_right, snoc_trim, trim_space,
}

starts_clean : Text → Bool
starts_clean [] = true
starts_clean (c ∷ cs) = not (is_space c)

starts_clean-trim_left : (s : Text) → starts_clean (trim_left s) ≡ true
unfolding starts_clean trim_left
starts_clean-trim_left [] = refl
starts_clean-trim_left (c ∷ cs) = elim (Bool-cases (is_space c)) [
  | inl e ↦ rw e (starts_clean-trim_left cs)
  | inr e ↦ rw (e, e) refl
]

trim_left-clean : (s : Text) → starts_clean s ≡ true → trim_left s ≡ s
unfolding starts_clean trim_left
trim_left-clean [] h = refl
trim_left-clean (c ∷ cs) h = ground (arith, h)

starts_clean-snoc_trim :
    (c : ℕ) (r : Text) → is_space c ≡ false → starts_clean (snoc_trim c r) ≡ true
unfolding starts_clean snoc_trim
starts_clean-snoc_trim c [] h = ground (arith, h)
starts_clean-snoc_trim c (d ∷ ds) h = ground (arith, h)

starts_clean-trim_right : (s : Text) → starts_clean s ≡ true → starts_clean (trim_right s) ≡ true
unfolding starts_clean trim_right
starts_clean-trim_right [] h = refl
starts_clean-trim_right (c ∷ cs) h = starts_clean-snoc_trim c (trim_right cs) (ground (arith, h))

trim_right-snoc_trim :
    (c : ℕ) (r : Text) → trim_right r ≡ r → trim_right (snoc_trim c r) ≡ snoc_trim c r
unfolding trim_right snoc_trim
trim_right-snoc_trim c [] h = elim (Bool-cases (is_space c)) [
  | inl e ↦ rw e refl
  | inr e ↦ rw (e, e) refl
]
trim_right-snoc_trim c (d ∷ ds) h = ap (snoc_trim c) h

trim_right-trim_right : (s : Text) → trim_right (trim_right s) ≡ trim_right s
unfolding trim_right
trim_right-trim_right [] = refl
trim_right-trim_right (c ∷ cs) = trim_right-snoc_trim c (trim_right cs) (trim_right-trim_right cs)

pub trim_space-trim_space : (s : Text) → trim_space (trim_space s) ≡ trim_space s
unfolding trim_space
trim_space-trim_space s =
    ap trim_right (
      trim_left-clean (trim_right (trim_left s))
        (starts_clean-trim_right (trim_left s) (starts_clean-trim_left s)))
    ∙ trim_right-trim_right (trim_left s)

pub trim_space_empty : trim_space [] ≡ []
unfolding trim_space trim_left trim_right
trim_space_empty = refl
