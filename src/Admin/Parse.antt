-- ===== src/Admin/Parse.antt =====
-- internal/admin/callbacks.go: the data of the buttons, and the words of a reply.
pub mod Data
use telegram_antispam.Common.{
  ℕ, zero, suc, ◌==◌, ℤ, pos, negsuc, same, le_id, String, str_eq, Bool, true, false, ◌&&◌, ◌||◌,
  not, if◌then◌else◌, List, [], ◌∷◌, ◌++◌, Option, none, some, any, keep, is_empty, length, map,
}
use telegram_antispam.Domain.{Action, ban, mute, delete_mute, IncidentState, sanction_unknown}
use telegram_antispam.Store.MessageIds.{Text, atoi}
use telegram_antispam.Store.Tables.{Db, Evidence, IncidentCard}
use telegram_antispam.Store.Incidents.{
  IncidentRow, get_incident, is_incident_card, get_incident_tokens, delete_incident_tokens,
  delete_evidence_set, sanctioned, is_unknown,
}
use telegram_antispam.Store.Decisions.{record_decision, release_decision}
use telegram_antispam.Incident.World.{Failure, Result, ok, err, Effect}
use telegram_antispam.Admin.World.{
  Reply, invalid_callback, invalid_incident, incident_not_found, store_unavailable, rights_unknown,
  not_authorized, press_again, stale_card, unknown_action, enforcement_unavailable,
  already_enforced, no_evidence, already_decided, deleted_evidence, joined, Button, false_positive,
  lift_no_learn, confirm_spam, delete_evidence, enforce, Sample, Event, unban_member,
  unrestrict_member, unban_sender_chat, edit_admin_markup, delete_messages, answer_callback, Env,
  World, Block, ◌>>=◌, ◌>>◌, pure, exit, enter, transact, insert_sample, call, get_administrators,
  train_corpus, enforce_incident,
}

-- The constants Act*, as they are stored.
unfoldable pub button_text : Button → String
button_text false_positive = "fp"
button_text lift_no_learn = "lift"
button_text confirm_spam = "confirm"
button_text delete_evidence = "delevi"
button_text enforce = "enf"

-- The same, as they stand in a button's data.
unfoldable pub button_code : Button → Text
button_code false_positive = b'f' ∷ b'p' ∷ []
button_code lift_no_learn = b'l' ∷ b'i' ∷ b'f' ∷ b't' ∷ []
button_code confirm_spam = b'c' ∷ b'o' ∷ b'n' ∷ b'f' ∷ b'i' ∷ b'r' ∷ b'm' ∷ []
button_code delete_evidence = b'd' ∷ b'e' ∷ b'l' ∷ b'e' ∷ b'v' ∷ b'i' ∷ []
button_code enforce = b'e' ∷ b'n' ∷ b'f' ∷ []

-- encode
abbrev pub encode : Button → Text → Text
encode b key = button_code b ++ (b':' ∷ key)

-- Buttons: the data of the buttons of a card, row by row.
unfoldable pub buttons : Text → Bool → List (List Text)
buttons key unenforced =
    let rows =
      (encode false_positive key ∷ encode lift_no_learn key ∷ [])
      ∷ (encode confirm_spam key ∷ encode delete_evidence key ∷ [])
      ∷ [] in
    if unenforced then rows ++ (encode enforce key ∷ []) ∷ [] else rows

same_text : Text → Text → Bool
same_text [] [] = true
same_text (a ∷ as') (b ∷ bs) = a == b && same_text as' bs
same_text _ _ = false

-- strings.Cut at a character
cut : ℕ → Text → Option (Text × Text)
cut sep [] = none
cut sep (c ∷ cs) =
    let rest = cut sep cs in
    if c == sep then some ([], cs) else elim rest [ none ↦ none | some p ↦ some (c ∷ p.0, p.1) ]

button_of : Text → Option Button
unfolding same_text button_code
button_of t =
    if same_text t (button_code false_positive)
    then some false_positive
    else if same_text t (button_code lift_no_learn)
    then some lift_no_learn
    else if same_text t (button_code confirm_spam)
    then some confirm_spam
    else if same_text t (button_code delete_evidence)
    then some delete_evidence
    else if same_text t (button_code enforce)
    then some enforce
    else none

parse_parts : Option (Text × Text) → Option (Button × Text)
unfolding button_of
parse_parts none = none
parse_parts (some (act, key)) =
    if is_empty act || is_empty key
    then none
    else elim (button_of act) [ none ↦ none | some b ↦ some (b, key) ]

-- ParseCallback
unfoldable pub parse_callback : Text → Option (Button × Text)
unfolding cut parse_parts
parse_callback data_ = parse_parts (cut b':' data_)

-- enforceReply
unfoldable pub enforce_reply : Effect → String
enforce_reply e =
    if e.sanctioned && e.deleted
    then "enforced: message removed, sanction applied"
    else if e.sanctioned
    then "sanction applied, but the message is STILL THERE — remove it by hand"
    else "message removed, but the sanction FAILED — press Enforce again or apply it by hand"

-- decisionLabel
unfoldable pub decision_label : String → String
decision_label d =
    if str_eq d "fp"
    then "false positive"
    else if str_eq d "confirm"
    then "confirmed spam"
    else if str_eq d "lift"
    then "lifted"
    else if str_eq d "enf"
    then "enforced"
    else if str_eq d ""
    then "unknown"
    else d
