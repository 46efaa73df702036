-- ===== src/Store/MessageIds/RoundTrip.antt =====
-- What SaveIncidentMessageIDs writes, parseMessageIDs reads back.
use telegram_antispam.Common.{
  ℕ, ℤ, Bool, false, true, ◌&&◌, ◌||◌, ◌==◌, leb, List, [], ◌∷◌, ◌++◌, map, ◌≡◌, ◌≢◌, refl, ap, ◌∙◌,
  arith,
}
use telegram_antispam.Store.MessageIds.{
  Text, itoa, is_space, trim_left, trim_right, snoc_trim, trim_space, push_front, split_on, join,
  join_ids, cons_some, parse_parts, or_keyed, parse_message_ids,
}
use telegram_antispam.Store.MessageIds.Digits.{plain, InRange, atoi-itoa, plain-itoa}

-- A text of digits and signs has no space to trim, and no comma.
trim_left-plain : (cs : Text) → plain cs ≡ true → trim_left cs ≡ cs
unfolding trim_left is_space
trim_left-plain [] h = refl
trim_left-plain (c ∷ cs) h = ground (arith, h)

trim_right-plain : (cs : Text) → plain cs ≡ true → trim_right cs ≡ cs
unfolding trim_right
trim_right-plain [] h = refl
trim_right-plain (c ∷ cs) h =
    rw (trim_right-plain cs (ground (arith, h))) (snoc_plain c cs (ground (arith, h)))
  where
    snoc_plain :
        (c : ℕ) (cs : Text) → (c == b'-' || (leb 48 c && leb c 57)) ≡ true → snoc_trim c cs ≡ c ∷ cs
    snoc_plain c [] h = unfold snoc_trim is_space in ground (arith, h)
    snoc_plain c (d ∷ ds) h = unfold snoc_trim in refl

trim_space-plain : (cs : Text) → plain cs ≡ true → trim_space cs ≡ cs
unfolding trim_space
trim_space-plain cs h = rw (trim_left-plain cs h) (trim_right-plain cs h)

-- Splitting what was joined.
abbrev pub plain_char : ℕ → Bool
plain_char c = c == b'-' || (leb 48 c && leb c 57)

pub split_on-plain :
    (sep : ℕ) (w : Text) → plain_char sep ≡ false → plain w ≡ true → split_on sep w ≡ w ∷ []
unfolding split_on push_front
split_on-plain sep [] s h = refl
split_on-plain sep (c ∷ cs) s h =
    rw (split_on-plain sep cs s (ground (arith, h))) (ground (arith, h, s))

pub split_on-append :
    (sep : ℕ) (w s : Text)
    → plain_char sep ≡ false
    → plain w ≡ true
    → split_on sep (w ++ (sep ∷ s)) ≡ w ∷ split_on sep s
unfolding split_on push_front
split_on-append sep [] s p h = ground arith
split_on-append sep (c ∷ cs) s p h =
    rw (split_on-append sep cs s p (ground (arith, h))) (ground (arith, h, p))

abbrev AllPlain : List Text → Type 0
AllPlain [] = Unit
AllPlain (w ∷ ws) = (plain w ≡ true) × AllPlain ws

split_on-join :
    (w : Text) (ws : List Text) → AllPlain (w ∷ ws) → split_on b',' (join b',' (w ∷ ws)) ≡ w ∷ ws
unfolding join
split_on-join w [] h = split_on-plain b',' w refl h.0
split_on-join w (v ∷ ws) h =
    split_on-append b',' w (join b',' (v ∷ ws)) refl h.0 ∙ ap (λ t. w ∷ t) (split_on-join v ws h.1)

abbrev pub AllInRange : List ℤ → Type 0
AllInRange [] = Unit
AllInRange (z ∷ zs) = InRange z × AllInRange zs

AllPlain-itoa : (ids : List ℤ) → AllPlain (map itoa ids)
AllPlain-itoa [] = tt
AllPlain-itoa (z ∷ zs) = (plain-itoa z, AllPlain-itoa zs)

parse_parts-itoa : (ids : List ℤ) → AllInRange ids → parse_parts (map itoa ids) ≡ ids
unfolding parse_parts cons_some
parse_parts-itoa [] h = refl
parse_parts-itoa (z ∷ zs) h =
    rw (trim_space-plain (itoa z) (plain-itoa z), atoi-itoa z h.0, parse_parts-itoa zs h.1)

-- The message ids of an incident survive their column: a list of ids that fit into int, and that is
-- not empty, is read back as it was saved, whatever the id on which the row is keyed.
pub parse_message_ids-join_ids :
    (ids : List ℤ) (keyed : ℤ)
    → ids ≢ []
    → AllInRange ids
    → parse_message_ids (join_ids ids) keyed ≡ ids
unfolding parse_message_ids join_ids or_keyed
parse_message_ids-join_ids [] keyed ne h = absurd (ne refl)
parse_message_ids-join_ids (z ∷ zs) keyed ne h =
    rw (split_on-join (itoa z) (map itoa zs) (AllPlain-itoa (z ∷ zs)))
      (rw (parse_parts-itoa (z ∷ zs) h))
