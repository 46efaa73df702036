-- ===== src/Detect/FakeAdmin.antt =====
-- internal/detect/fakeadmin.go: does a sender's name imitate an administrator's? strings.ToLower and the
-- decimal form of an id are parameters.
pub mod Strength
use telegram_antispam.Common.{
  ℕ, leb, ltb, ℤ, String, str_eq, Bool, true, false, ◌&&◌, ◌||◌, not, if◌then◌else◌, Option, none,
  some, List, [], ◌∷◌, length, any,
}
use Prim.Native.String.{◌++◌ as ◌++ˢ◌}
use telegram_antispam.Domain.{Sender, Signal}
use telegram_antispam.Detect.Message.{Message, runes}
use telegram_antispam.Detect.Levenshtein.{levenshtein_within}

-- type AdminIdentity
pub record AdminIdentity : Type 0 where
  pub user_id : ℤ
  pub username : String
  pub display_name : String
  pub custom_title : String

-- type FakeAdminCfg; a distance or length below 0 is 0.
pub record FakeAdminCfg : Type 0 where
  pub enabled : Bool
  pub suspicious_tags : List String
  pub max_distance : ℕ
  pub name_match_sanction : Bool
  pub min_fuzzy_len : ℕ

-- FakeAdminCfg.nameMatch
unfoldable pub name_match : FakeAdminCfg → String → String → Bool
unfolding runes levenshtein_within
name_match cfg a b =
    if str_eq a "" || str_eq b ""
    then false
    else if leb cfg.max_distance 0
    then str_eq a b
    else if ltb (length (runes a)) cfg.min_fuzzy_len || ltb (length (runes b)) cfg.min_fuzzy_len
    then str_eq a b
    else levenshtein_within (runes a) (runes b) cfg.max_distance

-- type FakeAdminStrength
pub data FakeAdminStrength : Type 0 where
  no_match name_only strong : FakeAdminStrength

-- The names of the fields: domain.FakeAdminFieldUsername and its two kin.
pub data Field : Type 0 where
  username display_name custom_title : Field

abbrev pub field_name : Field → String
field_name username = "username"
field_name display_name = "display_name"
field_name custom_title = "custom_title"

abbrev pub is_display_name : Field → Bool
is_display_name display_name = true
is_display_name _ = false

-- Where the loops stand: they returned a strong match, or go on with the first of the weak ones.
pub data Scan : Type 0 where
  found : Signal → Scan
  going : Option Signal → Scan

abbrev pub or_first : Option Signal → Signal → Option Signal
or_first none s = some s
or_first (some t) s = some t

module _ (to_lower : String → String) (decimal : ℤ → String) where
  -- domain.FakeAdminMatchDetail
  abbrev pub match_detail : Field → Field → ℤ → Bool → String
  match_detail sender admin id exact =
      field_name sender
      ++ˢ "~"
      ++ˢ field_name admin
      ++ˢ " admin_id="
      ++ˢ decimal id
      ++ˢ (if exact then " exact" else " fuzzy")

  -- The loop over an administrator's fields, for one field of the sender.
  unfoldable pub scan_fields :
      FakeAdminCfg → Field → String → ℤ → List (Field × String) → Option Signal → Scan
  scan_fields cfg f value id [] weak = going weak
  scan_fields cfg f value id ((g, other) ∷ fields) weak =
      let sig : Signal = record {
        name = "fake_admin";
        detail = match_detail f g id (str_eq value other);
      } in
      let skip = scan_fields cfg f value id fields weak in
      let on = scan_fields cfg f value id fields (or_first weak sig) in
      if not (name_match cfg value other)
      then skip
      else if not (is_display_name g)
      then found sig
      else on

  -- The loop over the sender's fields.
  unfoldable pub scan_senders :
      FakeAdminCfg → List (Field × String) → ℤ → List (Field × String) → Option Signal → Scan
  unfolding scan_fields
  scan_senders cfg [] id fields weak = going weak
  scan_senders cfg ((f, value) ∷ senders) id fields weak =
      let skip = scan_senders cfg senders id fields weak in
      if str_eq value "" then skip else elim (scan_fields cfg f value id fields weak) [
        | found sig ↦ found sig
        | going weak' ↦ scan_senders cfg senders id fields weak'
      ]

  abbrev pub admin_fields : AdminIdentity → List (Field × String)
  admin_fields a =
      (username, to_lower a.username)
      ∷ (custom_title, to_lower a.custom_title)
      ∷ (display_name, to_lower a.display_name)
      ∷ []

  abbrev pub sender_fields : Message → List (Field × String)
  sender_fields m =
      (username, to_lower m.sender.username) ∷ (display_name, to_lower m.sender.display_name) ∷ []

  -- The loop over the administrators.
  unfoldable pub scan_admins : FakeAdminCfg → Message → List AdminIdentity → Option Signal → Scan
  unfolding scan_senders
  scan_admins cfg m [] weak = going weak
  scan_admins cfg m (a ∷ admins) weak =
      elim (scan_senders cfg (sender_fields m) a.user_id (admin_fields a) weak) [
        | found sig ↦ found sig
        | going weak' ↦ scan_admins cfg m admins weak'
      ]

  -- The suspicious tags.
  abbrev pub has_suspicious_tag : FakeAdminCfg → Message → Bool
  has_suspicious_tag cfg m =
      let tag = to_lower m.sender_tag in
      not (str_eq tag "") && any (λ t. str_eq tag (to_lower t)) cfg.suspicious_tags

  abbrev pub no_signal : Signal
  no_signal = record { name = ""; detail = "" }

  abbrev pub classify_weak : FakeAdminCfg → Option Signal → Signal × FakeAdminStrength
  classify_weak cfg none = (no_signal, no_match)
  classify_weak cfg (some sig) = if cfg.name_match_sanction then (sig, strong) else (sig, name_only)

  -- ClassifyFakeAdmin
  unfoldable pub classify_fake_admin :
      Message → List AdminIdentity → FakeAdminCfg → Signal × FakeAdminStrength
  unfolding scan_admins
  classify_fake_admin m admins cfg =
      if not cfg.enabled then (no_signal, no_match) else elim (scan_admins cfg m admins none) [
        | found sig ↦ (sig, strong)
        | going weak ↦
            if has_suspicious_tag cfg m
            then (record { name = "fake_admin"; detail = "sender_tag~suspicious_tags" }, strong)
            else classify_weak cfg weak
      ]

  -- CheckFakeAdmin
  abbrev pub check_fake_admin : Message → List AdminIdentity → FakeAdminCfg → Signal × Bool
  unfolding classify_fake_admin
  check_fake_admin m admins cfg =
      let (sig, strength) = classify_fake_admin m admins cfg in
      (sig, elim strength [ no_match ↦ false | _ ↦ true ])
