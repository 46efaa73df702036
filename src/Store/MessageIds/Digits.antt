-- ===== src/Store/MessageIds/Digits.antt =====
-- strconv.Itoa and strconv.Atoi: what is printed is read back.
use telegram_antispam.Common.{
  ℕ, zero, suc, ◌+◌, ◌-◌, ◌*◌, ◌/◌, ◌%◌, ◌≤◌, ◌<◌, ℤ, pos, negsuc, Bool, true, false, ◌&&◌, ◌||◌,
  ◌==◌, ltb, leb, [], ◌∷◌, ◌++◌, some, ◌≡◌, refl, ◌∙◌, ap, arith, Bool-cases, inl, inr, le→leb,
}
use telegram_antispam.Store.MessageIds.{
  Text, digits_fuel, digits, itoa, is_digit, value_from, unsigned, int_max, in_range, bind_range,
  atoi,
}

-- A text of digits and signs.
abbrev pub plain : Text → Bool
plain [] = true
plain (c ∷ cs) = (c == b'-' || (leb 48 c && leb c 57)) && plain cs

value_from-append :
    (acc c v : ℕ) (cs : Text)
    → value_from acc cs ≡ some v
    → is_digit c ≡ true
    → value_from acc (cs ++ c ∷ []) ≡ some (v * 10 + (c - 48))
unfolding value_from
value_from-append acc c v [] h d = rw d (ground (arith, h))
value_from-append acc c v (x ∷ cs) h d = elim (Bool-cases (is_digit x)) [
  | inl e ↦ rw e (value_from-append (acc * 10 + (x - 48)) c v cs (rw e at h) d)
  | inr e ↦ absurd (ground (arith, h, e))
]

digit_of : (n : ℕ) → n < 10 → is_digit (48 + n) ≡ true
unfolding is_digit
digit_of n h = ground arith

value_from-digits_fuel : (f n : ℕ) → n < f → value_from 0 (digits_fuel f n) ≡ some n
unfolding digits_fuel value_from
value_from-digits_fuel zero n h = absurd (omega arith)
value_from-digits_fuel (suc f) n h = elim (Bool-cases (ltb n 10)) [
  | inl e ↦ rw (e, digit_of n (ground (arith, e))) (ap some (omega arith))
  | inr e ↦ rw e (
      value_from-append 0 (48 + n % 10) (n / 10) (digits_fuel f (n / 10))
        (value_from-digits_fuel f (n / 10) (ground (arith, e))) (digit_of (n % 10) (omega arith))
      ∙ ap some (omega arith))
]

plain-append : (xs ys : Text) → plain xs ≡ true → plain ys ≡ true → plain (xs ++ ys) ≡ true
plain-append [] ys h k = k
plain-append (x ∷ xs) ys h k = ground (arith, plain-append xs ys)

plain-digits_fuel : (f n : ℕ) → plain (digits_fuel f n) ≡ true
unfolding digits_fuel
plain-digits_fuel zero n = refl
plain-digits_fuel (suc f) n = elim (Bool-cases (ltb n 10)) [
  | inl e ↦ rw e (ground (arith, e))
  | inr e ↦
      rw e (plain-append (digits_fuel f (n / 10)) _ (plain-digits_fuel f (n / 10)) (ground arith))
]

-- The digits of a number start with a digit.
head_digit : Text → Bool
head_digit [] = false
head_digit (c ∷ cs) = leb 48 c && leb c 57

head_digit-append : (xs ys : Text) → head_digit xs ≡ true → head_digit (xs ++ ys) ≡ true
unfolding head_digit
head_digit-append [] ys h = cc
head_digit-append (x ∷ xs) ys h = h

head_digit-digits_fuel : (f n : ℕ) → n < f → head_digit (digits_fuel f n) ≡ true
unfolding digits_fuel head_digit
head_digit-digits_fuel zero n h = absurd (omega arith)
head_digit-digits_fuel (suc f) n h = elim (Bool-cases (ltb n 10)) [
  | inl e ↦ rw e (ground (arith, e))
  | inr e ↦ rw e (
      head_digit-append (digits_fuel f (n / 10)) _
        (head_digit-digits_fuel f (n / 10) (ground (arith, e))))
]

-- The integers that fit into int.
abbrev pub InRange : ℤ → Type 0
InRange (pos n) = n ≤ int_max
InRange (negsuc n) = n ≤ int_max

unsigned_of_head : (cs : Text) → head_digit cs ≡ true → unsigned cs ≡ value_from 0 cs
unfolding unsigned head_digit
unsigned_of_head [] h = cc
unsigned_of_head (c ∷ cs) h = refl

unsigned-digits : (n : ℕ) → unsigned (digits n) ≡ some n
unfolding digits
unsigned-digits n =
    unsigned_of_head (digits_fuel (suc n) n) (head_digit-digits_fuel (suc n) n (omega arith))
    ∙ value_from-digits_fuel (suc n) n (omega arith)

atoi_of_head : (cs : Text) → head_digit cs ≡ true → atoi cs ≡ bind_range false (unsigned cs)
unfolding atoi head_digit
atoi_of_head [] h = cc
atoi_of_head (c ∷ cs) h = ground (arith, h)

atoi_of_sign : (cs : Text) → atoi (b'-' ∷ cs) ≡ bind_range true (unsigned cs)
unfolding atoi
atoi_of_sign cs = refl

pub atoi-itoa : (z : ℤ) → InRange z → atoi (itoa z) ≡ some z
unfolding itoa bind_range in_range
atoi-itoa (pos n) h =
    atoi_of_head (digits n) (unfold digits in head_digit-digits_fuel (suc n) n (omega arith))
    ∙ ap (bind_range false) (unsigned-digits n)
    ∙ rw (le→leb n int_max h)
atoi-itoa (negsuc n) h =
    atoi_of_sign (digits (suc n))
    ∙ ap (bind_range true) (unsigned-digits (suc n))
    ∙ rw (le→leb n int_max h)

pub plain-itoa : (z : ℤ) → plain (itoa z) ≡ true
unfolding itoa digits
plain-itoa (pos n) = plain-digits_fuel (suc n) n
plain-itoa (negsuc n) = plain-digits_fuel (suc (suc n)) (suc n)
