-- ===== src/Detect/Rules/Fires.antt =====
-- internal/detect/rules.go: when Rules.Check fires, said without its loops, tests and order of rules.
use telegram_antispam.Common.{
  ℕ, ◌<◌, ltb, String, str_eq, eq_iff, Bool, true, false, ◌&&◌, ◌||◌, not, some, is_some, List, [],
  ◌∷◌, ◌++◌, any, if◌then◌else◌, ◌≡◌, ◌≢◌, ◌↔◌, ◌⊎◌, inl, inr, refl, sym, ap, ◌∙◌, arith,
  Bool-cases,
}
use telegram_antispam.Detect.Message.{NormalizedMessage}
use telegram_antispam.Detect.Rules.{
  Rules, TextFunctions, first, unless_blank, offending_link, check,
}
use telegram_antispam.Detect.Rules.Sound.{
  has_denied, is_denied, has_banned_domain, has_banned_document, is_excessive, is_some-check,
}

abbrev pub Some : {A : Type 0} → (A → Type 0) → List A → Type 0
Some P [] = ⊥
Some P (x ∷ xs) = P x ⊎ Some P xs

abbrev pub All : {A : Type 0} → (A → Type 0) → List A → Type 0
All P [] = Unit
All P (x ∷ xs) = P x × All P xs

or_iff : {A B : Type 0} (a b : Bool) → (a ≡ true) ↔ A → (b ≡ true) ↔ B → ((a || b) ≡ true) ↔ (A ⊎ B)
or_iff true b f g = (λ h. inl (f.0 refl), λ h. refl)
or_iff false b f g = (
  λ h. inr (g.0 h),
  λ h. elim h [ inl x ↦ absurd (let k : false ≡ true = f.1 x in cc) | inr y ↦ g.1 y ],
)

and_iff :
    {A B : Type 0} (a b : Bool) → (a ≡ true) ↔ A → (b ≡ true) ↔ B → ((a && b) ≡ true) ↔ (A × B)
and_iff true b f g = (λ h. (f.0 refl, g.0 h), λ h. g.1 h.1)
and_iff false b f g = (λ h. absurd (let k : false ≡ true = h in cc), λ h. f.1 h.0)

not_iff : (b : Bool) → (not b ≡ true) ↔ (b ≡ false)
not_iff b = (λ h. ground (arith, h), λ h. ground (arith, h))

self_iff : (b : Bool) → (b ≡ true) ↔ (b ≡ true)
self_iff b = (λ h. h, λ h. h)

any_iff :
    {A : Type 0} (p : A → Bool) (P : A → Type 0) (xs : List A)
    → ((x : A) → (p x ≡ true) ↔ P x)
    → (any p xs ≡ true) ↔ Some P xs
any_iff p P [] f = (λ h. absurd (let k : false ≡ true = h in cc), λ h. absurd h)
any_iff p P (x ∷ xs) f = or_iff (p x) (any p xs) (f x) (any_iff p P xs f)

no_iff :
    {A : Type 0} (p : A → Bool) (P : A → Type 0) (xs : List A)
    → ((x : A) → (p x ≡ false) ↔ P x)
    → (not (any p xs) ≡ true) ↔ All P xs
no_iff p P [] f = (λ h. tt, λ h. refl)
no_iff p P (x ∷ xs) f =
    let g = no_iff p P xs f in
    (
      λ h. ((f x).0 (ground (arith, h)), g.0 (ground (arith, h))),
      λ h. let a = (f x).1 h.0 in let b = g.1 h.1 in ground (arith, a, b),
    )

differs_iff : (s t : String) → (not (str_eq s t) ≡ true) ↔ (s ≢ t)
differs_iff s t = (
  λ h e. let k : str_eq s t ≡ true = (eq_iff s t).1 e in let g : false ≡ true = rw k at h in cc,
  λ h. elim (Bool-cases (str_eq s t)) [
    | inl e ↦ absurd (h ((eq_iff s t).0 e))
    | inr e ↦ ground (arith, e)
  ],
)

-- The first element that is no map link is l.
abbrev pub FirstOther : (String → Bool) → List String → String → Type 0
FirstOther is_map links l =
    (before : List String) × (after : List String) × (links ≡ before ++ l ∷ after)
    × All (λ x. is_map x ≡ true) before
    × (is_map l ≡ false)

-- With map links allowed, the first other link is not empty; without, there is any link.
abbrev pub Offends : Bool → (String → Bool) → List String → Type 0
Offends true is_map links = (l : String) × FirstOther is_map links l × (l ≢ "")
Offends false is_map links = links ≢ []

named : (x : String) → is_some (unless_blank (some x)) ≡ not (str_eq x "")
named x = elim (Bool-cases (str_eq x "")) [ inl e ↦ rw e refl | inr e ↦ rw e refl ]

module _ (m : String → Bool) where
  first_other :
      (links : List String)
      → is_some (unless_blank (first (λ l. not (m l)) links)) ≡ true
      → Offends true m links
  first_other [] h = absurd (let k : false ≡ true = h in cc)
  first_other (x ∷ xs) h = elim (Bool-cases (m x)) [
    | inl e ↦
        let (l, (before, after, split, maps, other), filled) = first_other xs (rw e at h) in
        (l, (x ∷ before, after, ap (λ t. x ∷ t) split, (e, maps), other), filled)
    | inr e ↦
        let k : is_some (unless_blank (some x)) ≡ true = rw e at h in
        (x, ([], xs, refl, tt, e), (differs_iff x "").0 (sym (named x) ∙ k))
  ]

  other_first :
      (before after : List String) (l : String)
      → All (λ x. m x ≡ true) before
      → m l ≡ false
      → l ≢ ""
      → is_some (unless_blank (first (λ x. not (m x)) (before ++ l ∷ after))) ≡ true
  other_first [] after l a f g = rw f (named l ∙ (differs_iff l "").1 g)
  other_first (x ∷ before) after l a f g = rw a.0 (other_first before after l a.1 f g)

  first_other_iff :
      (links : List String)
      → (is_some (unless_blank (first (λ l. not (m l)) links)) ≡ true) ↔ Offends true m links
  first_other_iff links = (
    first_other links,
    λ (l, (before, after, split, maps, other), filled).
        rw split (other_first before after l maps other filled),
  )

  offending_cases :
      (b : Bool) (x : String) (xs : List String)
      → (is_some (if b then unless_blank (first (λ l. not (m l)) (x ∷ xs)) else some x) ≡ true)
        ↔ Offends b m (x ∷ xs)
  offending_cases true x xs = first_other_iff (x ∷ xs)
  offending_cases false x xs = (λ h e. cc, λ h. refl)

  no_link_iff : (b : Bool) → (false ≡ true) ↔ Offends b m []
  no_link_iff true = first_other_iff []
  no_link_iff false = (λ h. absurd cc, λ h. absurd (h refl))

module _ (fn : TextFunctions) (r : Rules) (n : NormalizedMessage) where
  abbrev pub folded_text : String
  folded_text = fn.to_lower (fn.trim_space n.text)

  abbrev pub DeniedWord : Type 0
  DeniedWord =
      Some (λ deny. fn.contains n.text (fn.deobfuscate deny) ≡ true) r.deny_stopwords
      × All (λ allow. fn.contains n.text (fn.deobfuscate allow) ≡ false) r.allow_stopwords

  abbrev pub DeniedWhole : Type 0
  DeniedWhole =
      ((folded_text ≢ "")
        × All (λ w. (w ≡ "") ⊎ (fn.contains folded_text (fn.to_lower (fn.deobfuscate w)) ≡ false))
            r.allow_stopwords)
      × Some (λ w. (w ≢ "") × (folded_text ≡ fn.to_lower (fn.deobfuscate (fn.trim_space w))))
          r.deny_exact

  abbrev pub BannedDomain : Type 0
  BannedDomain =
      Some (λ link. Some (λ d. fn.to_lower d ≡ fn.to_lower (fn.extract_host link)) r.banned_domains)
        n.links

  abbrev pub BannedDocument : Type 0
  BannedDocument =
      Some
        (λ e.
          Some (λ b. fn.canonical_document_extension e ≡ fn.canonical_document_extension b)
            r.banned_document_extensions)
        n.document_extensions
      ⊎ Some
          (λ e.
            Some (λ b. fn.canonical_mime_type e ≡ fn.canonical_mime_type b)
              r.banned_document_mime_types)
          n.document_mime_types

  -- A cap that is set and passed.
  abbrev pub Passed : ℕ → ℕ → Type 0
  Passed count limit = (0 < limit) × (limit < count)

  abbrev pub Excessive : Type 0
  Excessive =
      ((r.block_links_for_untrusted ≡ true)
        × Offends r.allow_google_maps_links fn.allowed_google_maps_url n.links)
      ⊎ (Passed n.link_count r.max_links
          ⊎ (Passed n.mention_count r.max_mentions ⊎ Passed n.emoji_count r.max_emoji))

  offending_iff :
      (links : List String)
      → (is_some (offending_link fn r links) ≡ true)
        ↔ Offends r.allow_google_maps_links fn.allowed_google_maps_url links
  offending_iff [] = no_link_iff fn.allowed_google_maps_url r.allow_google_maps_links
  offending_iff (x ∷ xs) = offending_cases fn.allowed_google_maps_url r.allow_google_maps_links x xs

  cap_iff : (count limit : ℕ) → ((ltb 0 limit && ltb limit count) ≡ true) ↔ Passed count limit
  cap_iff count limit = (
    λ h. (ground (arith, h), ground (arith, h)),
    λ h. let a = h.0 in let b = h.1 in ground (arith, a, b),
  )

  denied_word_iff : (has_denied fn r n ≡ true) ↔ DeniedWord
  denied_word_iff =
      and_iff _ _ (any_iff _ _ r.deny_stopwords (λ x. self_iff _))
        (no_iff _ _ r.allow_stopwords (λ x. (λ h. h, λ h. h)))

  unless_iff :
      (w : String) (b : Bool) → ((not (str_eq w "") && b) ≡ false) ↔ ((w ≡ "") ⊎ (b ≡ false))
  unless_iff w true = (
    λ h. elim (Bool-cases (str_eq w "")) [
      | inl e ↦ inl ((eq_iff w "").0 e)
      | inr e ↦ absurd (let k : true ≡ false = rw e at h in cc)
    ],
    λ h. elim h [
      | inl e ↦ rw ((eq_iff w "").1 e) refl
      | inr e ↦ absurd (let k : true ≡ false = e in cc)
    ],
  )
  unless_iff w false = (λ h. inr refl, λ h. ground arith)

  denied_whole_iff : (is_denied fn r n ≡ true) ↔ DeniedWhole
  denied_whole_iff =
      and_iff _ _
        (and_iff _ _ (differs_iff folded_text "")
          (no_iff _ _ r.allow_stopwords (λ w. unless_iff w _)))
        (any_iff _ _ r.deny_exact (λ w. and_iff _ _ (differs_iff w "") (eq_iff _ _)))

  banned_domain_iff : (has_banned_domain fn r n ≡ true) ↔ BannedDomain
  banned_domain_iff = any_iff _ _ n.links (λ link. any_iff _ _ r.banned_domains (λ d. eq_iff _ _))

  banned_document_iff : (has_banned_document fn r n ≡ true) ↔ BannedDocument
  banned_document_iff =
      or_iff _ _
        (any_iff _ _ n.document_extensions
          (λ e. any_iff _ _ r.banned_document_extensions (λ b. eq_iff _ _)))
        (any_iff _ _ n.document_mime_types
          (λ e. any_iff _ _ r.banned_document_mime_types (λ b. eq_iff _ _)))

  excessive_iff : (is_excessive fn r n ≡ true) ↔ Excessive
  excessive_iff = or_iff _ _ (and_iff _ _ (self_iff _) (offending_iff n.links)) (
      or_iff _ _ (cap_iff n.link_count r.max_links)
        (or_iff _ _ (cap_iff n.mention_count r.max_mentions) (cap_iff n.emoji_count r.max_emoji)))

  -- Rules.Check on any message fires exactly when the text holds a denied word and no allowed one; or it is not
  -- blank, is as a whole a denied one and holds no allowed one; or a link's host is a banned domain; or a
  -- document is of a banned type; or, for an untrusted sender, links are blocked and one offends, or a cap
  -- that is set is passed. A link offends where map links are not allowed; where they are, the first link
  -- that is none must be there and not be empty.
  pub check-fires :
      (trusted : Bool)
      → (is_some (check fn r n trusted) ≡ true) ↔ (
          (((DeniedWord ⊎ DeniedWhole) ⊎ BannedDomain) ⊎ BannedDocument)
          ⊎ ((trusted ≡ false) × Excessive))
  check-fires trusted = rw (is_some-check fn r n trusted) (
      or_iff _ _
        (or_iff _ _ (or_iff _ _ (or_iff _ _ denied_word_iff denied_whole_iff) banned_domain_iff)
          banned_document_iff)
        (and_iff _ _ (not_iff trusted) excessive_iff))
