-- ===== src/Admin/Parse/Data.antt =====
-- internal/admin/callbacks.go: ParseCallback reads what Buttons writes.
use telegram_antispam.Common.{
  ℤ, Bool, true, false, [], ◌∷◌, Option, none, some, ◌≡◌, refl, map, is_empty, if◌then◌else◌, arith,
}
use telegram_antispam.Store.MessageIds.{Text, atoi, itoa}
use telegram_antispam.Store.MessageIds.Digits.{InRange, atoi-itoa}
use telegram_antispam.Admin.World.{
  Button, false_positive, lift_no_learn, confirm_spam, delete_evidence, enforce,
}
use telegram_antispam.Admin.Parse.{
  button_code, encode, buttons, same_text, cut, button_of, parse_parts, parse_callback,
}

with_button : Button → Option ℤ → Option (Button × ℤ)
with_button b none = none
with_button b (some id) = some (b, id)

with_id : Option (Button × Text) → Option (Button × ℤ)
unfolding with_button
with_id none = none
with_id (some (b, key)) = with_button b (atoi key)

-- What Handle takes from the data of a press.
unfoldable pub read_press : Text → Option (Button × ℤ)
unfolding with_id
read_press t = with_id (parse_callback t)

parts-encode :
    (b : Button) (key : Text) → is_empty key ≡ false → parse_callback (encode b key) ≡ some (b, key)
unfolding parse_callback button_code cut parse_parts button_of same_text
parts-encode false_positive key h = ground (arith, h)
parts-encode lift_no_learn key h = ground (arith, h)
parts-encode confirm_spam key h = ground (arith, h)
parts-encode delete_evidence key h = ground (arith, h)
parts-encode enforce key h = ground (arith, h)

empty_unread : (z : ℤ) (t : Text) → atoi t ≡ some z → is_empty t ≡ false
unfolding atoi
empty_unread z [] h = cc
empty_unread z (c ∷ cs) h = refl

read_press-encode :
    (b : Button) (id : ℤ) → InRange id → read_press (encode b (itoa id)) ≡ some (b, id)
unfolding read_press with_id with_button
read_press-encode b id h =
    rw (parts-encode b (itoa id) (empty_unread id (itoa id) (atoi-itoa id h)), atoi-itoa id h) refl

-- Each button of a card is read back as itself and the incident of the card, for an id of 64 bits; the
-- button that enforces is there only where nothing has been enforced.
pub read_press-buttons :
    (id : ℤ) (unenforced : Bool)
    → InRange id
    → map (map read_press) (buttons (itoa id) unenforced)
      ≡ (some (false_positive, id) ∷ some (lift_no_learn, id) ∷ [])
        ∷ (some (confirm_spam, id) ∷ some (delete_evidence, id) ∷ [])
        ∷ (if unenforced then (some (enforce, id) ∷ []) ∷ [] else [])
unfolding buttons
read_press-buttons id true h = simp (λ (b : Button). read_press-encode b id h)
read_press-buttons id false h = simp (λ (b : Button). read_press-encode b id h)
