-- ===== src/Detect/FakeAdmin/Strength.antt =====
-- How strong a match is, read off the names without the loops.
use telegram_antispam.Common.{
  ℤ, String, str_eq, Bool, ◌&&◌, ◌||◌, not, if◌then◌else◌, Option, none, some, is_some, List, [],
  ◌∷◌, any, ◌≡◌, refl, arith, Bool-cases, inl, inr,
}
use telegram_antispam.Domain.{Signal}
use telegram_antispam.Detect.Message.{Message}
use telegram_antispam.Detect.FakeAdmin.{
  AdminIdentity, FakeAdminCfg, FakeAdminStrength, no_match, name_only, strong, Scan, found, going,
  name_match, scan_fields, scan_senders, scan_admins, classify_fake_admin, admin_fields,
  sender_fields, has_suspicious_tag, classify_weak,
}

or_assoc : (a b c : Bool) → ((a || b) || c) ≡ (a || (b || c))
or_assoc a b c = ground arith

module _ (to_lower : String → String) (decimal : ℤ → String) (cfg : FakeAdminCfg) where
  -- One of the sender's two names, where it is set, matches the text.
  abbrev pub sender_like : Message → String → Bool
  sender_like m text =
      let name = to_lower m.sender.username in
      let shown = to_lower m.sender.display_name in
      (not (str_eq name "") && name_match cfg name text)
      || (not (str_eq shown "") && name_match cfg shown text)

  abbrev pub imitates_strongly : Message → AdminIdentity → Bool
  imitates_strongly m a =
      sender_like m (to_lower a.username) || sender_like m (to_lower a.custom_title)

  abbrev pub imitates_weakly : Message → AdminIdentity → Bool
  imitates_weakly m a = sender_like m (to_lower a.display_name)

  abbrev pub strength_of : Message → List AdminIdentity → FakeAdminStrength
  strength_of m admins =
      if not cfg.enabled
      then no_match
      else if any (imitates_strongly m) admins || has_suspicious_tag to_lower decimal cfg m
      then strong
      else if not (any (imitates_weakly m) admins)
      then no_match
      else if cfg.name_match_sanction
      then strong
      else name_only

  -- Where a scan ends, up to the signals.
  abbrev outcome : Scan → Option Bool
  outcome (found sig) = none
  outcome (going weak) = some (is_some weak)

  admin-outcome :
      (m : Message) (a : AdminIdentity) (weak : Option Signal)
      → outcome (
          scan_senders to_lower decimal cfg
            (sender_fields to_lower decimal m)
            a.user_id
            (admin_fields to_lower decimal a)
            weak)
        ≡ (if imitates_strongly m a then none else some (is_some weak || imitates_weakly m a))
  unfolding scan_senders scan_fields
  admin-outcome m a none = ground arith
  admin-outcome m a (some s) = ground arith

  -- The loop goes on after one administrator.
  go_on :
      (next : Option Signal → Scan) (s w : Bool)
      → ((weak : Option Signal)
          → outcome (next weak) ≡ (if s then none else some (is_some weak || w)))
      → (r : Scan) (s' w' : Bool) → outcome r ≡ (if s' then none else some w')
      → outcome (elim r [ found sig ↦ found sig | going weak' ↦ next weak' ])
        ≡ (if s' || s then none else some (w' || w))
  go_on next s w ih (found sig) s' w' h = ground arith
  go_on next s w ih (going none) s' w' h = let k = ih none in ground (arith, k)
  go_on next s w ih (going (some x)) s' w' h = let k = ih (some x) in ground (arith, k)

  admins-outcome :
      (m : Message) (admins : List AdminIdentity) (weak : Option Signal)
      → outcome (scan_admins to_lower decimal cfg m admins weak) ≡ (
          if any (imitates_strongly m) admins
          then none
          else some (is_some weak || any (imitates_weakly m) admins))
  unfolding scan_admins
  admins-outcome m [] none = refl
  admins-outcome m [] (some s) = refl
  admins-outcome m (a ∷ admins) weak =
      rw (← or_assoc (is_some weak) (imitates_weakly m a) (any (imitates_weakly m) admins)) (
        go_on (scan_admins to_lower decimal cfg m admins) (any (imitates_strongly m) admins)
          (any (imitates_weakly m) admins) (admins-outcome m admins) _ (imitates_strongly m a)
          (is_some weak || imitates_weakly m a) (admin-outcome m a weak))

  -- What is left once the loops end.
  final :
      (m : Message) (r : Scan) (s w : Bool)
      → outcome r ≡ (if s then none else some w)
      → (elim r as (λ _. Signal × FakeAdminStrength) [
        | found sig ↦ (sig, strong)
        | going weak ↦
            if has_suspicious_tag to_lower decimal cfg m
            then (record { name = "fake_admin"; detail = "sender_tag~suspicious_tags" }, strong)
            else classify_weak to_lower decimal cfg weak
      ]).1
        ≡ (if s || has_suspicious_tag to_lower decimal cfg m
            then strong
            else if not w
            then no_match
            else if cfg.name_match_sanction
            then strong
            else name_only)
  final m (found sig) s w h = ground arith
  final m (going none) s w h = ground arith
  final m (going (some x)) s w h = ground arith

  -- ClassifyFakeAdmin on every message and administrator list: the strength is the one read off the names.
  -- It is strong exactly when the detector is on and a name that the sender has set matches some
  -- administrator's username or title, the tag is a suspicious one, or a display name matches and such
  -- matches are sanctioned; a match of display names alone is otherwise weak. The order of the
  -- administrators does not matter.
  pub classify_fake_admin-strength :
      (m : Message) (admins : List AdminIdentity)
      → (classify_fake_admin to_lower decimal m admins cfg).1 ≡ strength_of m admins
  unfolding classify_fake_admin
  classify_fake_admin-strength m admins = elim (Bool-cases cfg.enabled) [
    | inl on ↦ simp on (
        final m (scan_admins to_lower decimal cfg m admins none) _ _ (admins-outcome m admins none))
    | inr off ↦ simp off refl
  ]
