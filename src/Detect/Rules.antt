-- ===== src/Detect/Rules.antt =====
-- internal/detect/rules.go: the hard rules over a normalized message. The functions on text are
-- parameters: strings.Contains, strings.ToLower, strings.TrimSpace, Deobfuscate, the host of a link by
-- net/url, the test for a map link and fmt's numbers.
pub mod Fires
pub mod Sound
use telegram_antispam.Common.{
  ℕ, ltb, String, str_eq, Bool, true, false, ◌&&◌, ◌||◌, not, if◌then◌else◌, Option, none, some,
  List, [], ◌∷◌, any, is_empty, map,
}
use telegram_antispam.Domain.{Signal}
use telegram_antispam.Detect.Message.{NormalizedMessage}

-- type Rules; a limit below 0 is 0.
pub record Rules : Type 0 where
  pub deny_stopwords : List String
  pub allow_stopwords : List String
  pub deny_exact : List String
  pub block_links_for_untrusted : Bool
  pub allow_google_maps_links : Bool
  pub banned_domains : List String
  pub banned_document_extensions : List String
  pub banned_document_mime_types : List String
  pub max_links : ℕ
  pub max_mentions : ℕ
  pub max_emoji : ℕ

pub record TextFunctions : Type 0 where
  pub contains : String → String → Bool
  pub to_lower : String → String
  pub trim_space : String → String
  pub deobfuscate : String → String
  pub extract_host : String → String
  pub allowed_google_maps_url : String → Bool
  pub canonical_document_extension : String → String
  pub canonical_mime_type : String → String
  pub count_and_limit : ℕ → ℕ → String

-- The first element that passes.
abbrev pub first : (String → Bool) → List String → Option String
first p [] = none
first p (x ∷ xs) = let rest = first p xs in if p x then some x else rest

-- The loop of checkLinkPolicy takes an empty link for none.
abbrev pub unless_blank : Option String → Option String
unless_blank none = none
unless_blank (some x) = if str_eq x "" then none else some x

-- The first check that hits.
abbrev pub or_else : Option Signal → Option Signal → Option Signal
or_else none later = later
or_else (some sig) later = some sig

abbrev pub hit : String → (String → String) → Option String → Option Signal
hit name detail none = none
hit name detail (some x) = some (record { name = name; detail = detail x })

module _ (fn : TextFunctions) (r : Rules) where
  -- Rules.checkDenyStopword
  unfoldable pub check_deny_stopword : NormalizedMessage → Option Signal
  check_deny_stopword n =
      let has_allow = any (λ allow. fn.contains n.text (fn.deobfuscate allow)) r.allow_stopwords in
      hit "deny_stopword" fn.to_lower
        (first (λ deny. fn.contains n.text (fn.deobfuscate deny) && not has_allow) r.deny_stopwords)

  -- Rules.checkDenyExact
  unfoldable pub check_deny_exact : NormalizedMessage → Option Signal
  check_deny_exact n =
      let text = fn.to_lower (fn.trim_space n.text) in
      if is_empty r.deny_exact
      then none
      else if str_eq text ""
      then none
      else if any (λ w. not (str_eq w "") && fn.contains text (fn.to_lower (fn.deobfuscate w)))
          r.allow_stopwords
      then none
      else hit "deny_exact" (λ w. w)
          (first
            (λ w. not (str_eq w "") && str_eq text (fn.to_lower (fn.deobfuscate (fn.trim_space w))))
            r.deny_exact)

  -- The link that checkLinkPolicy names.
  abbrev pub offending_link : List String → Option String
  offending_link [] = none
  offending_link (link ∷ links) =
      if r.allow_google_maps_links
      then unless_blank (first (λ l. not (fn.allowed_google_maps_url l)) (link ∷ links))
      else some link

  -- Rules.checkLinkPolicy
  unfoldable pub check_link_policy : NormalizedMessage → Bool → Option Signal
  check_link_policy n trusted =
      if not r.block_links_for_untrusted || trusted
      then none
      else hit "link_from_untrusted" (λ link. fn.to_lower (fn.extract_host link))
          (offending_link n.links)

  -- Rules.checkBannedDomain
  unfoldable pub check_banned_domain : NormalizedMessage → Option Signal
  check_banned_domain n =
      hit "banned_domain" (λ link. fn.to_lower (fn.extract_host link))
        (first
          (λ link.
            any (λ d. str_eq (fn.to_lower d) (fn.to_lower (fn.extract_host link))) r.banned_domains)
          n.links)

  -- Rules.checkBannedDocument
  unfoldable pub check_banned_document : NormalizedMessage → Option Signal
  check_banned_document n =
      or_else
        (hit "banned_document_extension" fn.canonical_document_extension (
          first
            (λ e.
              any
                (λ b.
                  str_eq (fn.canonical_document_extension e) (fn.canonical_document_extension b))
                r.banned_document_extensions)
            n.document_extensions))
        (hit "banned_document_mime" fn.canonical_mime_type (
          first
            (λ e.
              any (λ b. str_eq (fn.canonical_mime_type e) (fn.canonical_mime_type b))
                r.banned_document_mime_types)
            n.document_mime_types))

  -- One of the caps of checkLimits; 0 is no cap.
  abbrev pub over : String → ℕ → ℕ → Option Signal
  over name count limit =
      if ltb 0 limit && ltb limit count
      then some (record { name = name; detail = fn.count_and_limit count limit })
      else none

  -- Rules.checkLimits
  unfoldable pub check_limits : NormalizedMessage → Bool → Option Signal
  check_limits n trusted =
      if trusted
      then none
      else or_else (over "too_many_links" n.link_count r.max_links) (
          or_else (over "too_many_mentions" n.mention_count r.max_mentions)
            (over "too_many_emoji" n.emoji_count r.max_emoji))

  -- Rules.Check
  unfoldable pub check : NormalizedMessage → Bool → Option Signal
  check n trusted = or_else (check_deny_stopword n) (
      or_else (check_deny_exact n) (
        or_else (check_link_policy n trusted) (
          or_else (check_banned_domain n)
            (or_else (check_banned_document n) (check_limits n trusted)))))
