-- ===== src/Store/MessageIds.antt =====
-- internal/store/undo.go: the comma-separated column `message_ids` of an incident, as
-- SaveIncidentMessageIDs writes it and parseMessageIDs reads it. A text is its list of code points.
-- strings.Split, strings.TrimSpace, strings.Join, strconv.Itoa and strconv.Atoi are Go's.
pub mod Digits
pub mod RoundTrip
pub mod Trim
use telegram_antispam.Common.{
  ℕ, zero, suc, ◌+◌, ◌-◌, ◌*◌, ◌/◌, ◌%◌, ◌^◌, ℤ, pos, negsuc, ◌==◌, leb, ltb, if◌then◌else◌, Bool,
  true, false, ◌&&◌, ◌||◌, List, [], ◌∷◌, ◌++◌, map, Option, none, some,
}

abbrev pub Text : Type 0
Text = List ℕ

-- The decimal digits of a number, on fuel: the quotient by 10 falls, so `suc n` rounds do for n.
digits_fuel : ℕ → ℕ → Text
digits_fuel zero n = []
digits_fuel (suc f) n =
    let rest = digits_fuel f (n / 10) in
    if ltb n 10 then (48 + n) ∷ [] else rest ++ (48 + n % 10) ∷ []

digits : ℕ → Text
digits n = digits_fuel (suc n) n

-- strconv.Itoa
unfoldable pub itoa : ℤ → Text
unfolding digits digits_fuel
itoa (pos n) = digits n
itoa (negsuc n) = b'-' ∷ digits (suc n)

is_digit : ℕ → Bool
is_digit c = leb b'0' c && leb c b'9'

-- The value of a run of digits after those that `acc` stands for; `none` at any other character.
value_from : ℕ → Text → Option ℕ
unfolding is_digit
value_from acc [] = some acc
value_from acc (c ∷ cs) =
    let rest = value_from (acc * 10 + (c - 48)) cs in if is_digit c then rest else none

-- At least one digit.
unsigned : Text → Option ℕ
unsigned [] = none
unsigned (c ∷ cs) = value_from 0 (c ∷ cs)

abbrev pub int_max : ℕ
int_max = 9223372036854775807

-- A number within int, 64 bits wide; strconv.Atoi reports any other as an error.
in_range : Bool → ℕ → Option ℤ
in_range false n = if leb n int_max then some (pos n) else none
in_range true zero = some (pos zero)
in_range true (suc n) = if leb n int_max then some (negsuc n) else none

bind_range : Bool → Option ℕ → Option ℤ
unfolding in_range
bind_range negative none = none
bind_range negative (some n) = in_range negative n

-- strconv.Atoi
unfoldable pub atoi : Text → Option ℤ
unfolding unsigned bind_range value_from
atoi [] = none
atoi (c ∷ cs) =
    if c == b'-'
    then bind_range true (unsigned cs)
    else if c == b'+'
    then bind_range false (unsigned cs)
    else bind_range false (unsigned (c ∷ cs))

-- unicode.IsSpace
is_space : ℕ → Bool
is_space c =
    (leb 9 c && leb c 13)
    || c == 32
    || c == 0x85
    || c == 0xa0
    || c == 0x1680
    || (leb 0x2000 c && leb c 0x200a)
    || c == 0x2028
    || c == 0x2029
    || c == 0x202f
    || c == 0x205f
    || c == 0x3000

trim_left : Text → Text
trim_left [] = []
trim_left (c ∷ cs) = let rest = trim_left cs in if is_space c then rest else c ∷ cs

-- A space is dropped from the end where nothing but spaces follows it.
snoc_trim : ℕ → Text → Text
snoc_trim c [] = if is_space c then [] else c ∷ []
snoc_trim c (d ∷ ds) = c ∷ d ∷ ds

trim_right : Text → Text
unfolding snoc_trim
trim_right [] = []
trim_right (c ∷ cs) = snoc_trim c (trim_right cs)

-- strings.TrimSpace
unfoldable pub trim_space : Text → Text
unfolding trim_left trim_right is_space
trim_space s = trim_right (trim_left s)

push_front : ℕ → List Text → List Text
push_front c [] = (c ∷ []) ∷ []
push_front c (w ∷ ws) = (c ∷ w) ∷ ws

-- strings.Split with a separator of one character: there is always a part.
unfoldable pub split_on : ℕ → Text → List Text
unfolding push_front
split_on sep [] = [] ∷ []
split_on sep (c ∷ cs) =
    let rest = split_on sep cs in if c == sep then [] ∷ rest else push_front c rest

-- strings.Join with a separator of one character.
join : ℕ → List Text → Text
join sep [] = []
join sep (w ∷ []) = w
join sep (w ∷ (v ∷ ws)) = w ++ (sep ∷ join sep (v ∷ ws))

-- The text that SaveIncidentMessageIDs stores.
unfoldable pub join_ids : List ℤ → Text
unfolding join itoa digits digits_fuel
join_ids ids = join b',' (map itoa ids)

cons_some : Option ℤ → List ℤ → List ℤ
cons_some none ids = ids
cons_some (some n) ids = n ∷ ids

-- The loop of parseMessageIDs: blank and unparsable parts are skipped.
parse_parts : List Text → List ℤ
unfolding cons_some atoi trim_space value_from
parse_parts [] = []
parse_parts (w ∷ ws) = cons_some (atoi (trim_space w)) (parse_parts ws)

or_keyed : List ℤ → ℤ → List ℤ
or_keyed [] keyed = keyed ∷ []
or_keyed (n ∷ ns) keyed = n ∷ ns

-- parseMessageIDs
unfoldable pub parse_message_ids : Text → ℤ → List ℤ
unfolding or_keyed parse_parts split_on
parse_message_ids list keyed = or_keyed (parse_parts (split_on b',' list)) keyed
