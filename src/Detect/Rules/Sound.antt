-- ===== src/Detect/Rules/Sound.antt =====
-- When a hard rule fires, without the order of the rules.
use telegram_antispam.Common.{
  ltb, String, str_eq, Bool, true, false, ◌&&◌, ◌||◌, not, Option, none, some, is_some, List, [],
  ◌∷◌, any, is_empty, ◌≡◌, refl, ◌∙◌, arith,
}
use telegram_antispam.Domain.{Signal}
use telegram_antispam.Detect.Message.{NormalizedMessage}
use telegram_antispam.Detect.Rules.{
  Rules, TextFunctions, first, or_else, hit, offending_link, check_deny_stopword, check_deny_exact,
  check_link_policy, check_banned_domain, check_banned_document, check_limits, check,
}

is_some-or_else : (a b : Option Signal) → is_some (or_else a b) ≡ (is_some a || is_some b)
is_some-or_else none b = refl
is_some-or_else (some sig) b = refl

is_some-first :
    (name : String) (detail : String → String) (p : String → Bool) (xs : List String)
    → is_some (hit name detail (first p xs)) ≡ any p xs
is_some-first name detail p [] = refl
is_some-first name detail p (x ∷ xs) = ground (arith, is_some-first name detail p xs)

is_some-hit :
    (name : String) (detail : String → String) (o : Option String)
    → is_some (hit name detail o) ≡ is_some o
is_some-hit name detail none = refl
is_some-hit name detail (some x) = refl

any-empty : (p : String → Bool) (xs : List String) → is_empty xs ≡ true → any p xs ≡ false
any-empty p [] h = refl
any-empty p (x ∷ xs) h = absurd (let k : false ≡ true = h in cc)

-- The rules for untrusted senders, taken together.
reorder :
    (a b c d l m blocks trusted : Bool)
    → (a || (b || ((blocks && not trusted && l) || (c || (d || (not trusted && m))))))
      ≡ (a || b || c || d || (not trusted && ((blocks && l) || m)))
reorder a b c d l m blocks trusted = ground arith

any-unless :
    (p : String → Bool) (b : Bool) (xs : List String)
    → any (λ x. p x && not b) xs ≡ (any p xs && not b)
any-unless p b [] = refl
any-unless p b (x ∷ xs) = ground (arith, any-unless p b xs)

module _ (fn : TextFunctions) (r : Rules) where
  abbrev pub has_denied : NormalizedMessage → Bool
  has_denied n =
      any (λ deny. fn.contains n.text (fn.deobfuscate deny)) r.deny_stopwords
      && not (any (λ allow. fn.contains n.text (fn.deobfuscate allow)) r.allow_stopwords)

  abbrev pub is_denied : NormalizedMessage → Bool
  is_denied n =
      let text = fn.to_lower (fn.trim_space n.text) in
      not (str_eq text "")
      && not (
          any (λ w. not (str_eq w "") && fn.contains text (fn.to_lower (fn.deobfuscate w)))
            r.allow_stopwords)
      && any
          (λ w. not (str_eq w "") && str_eq text (fn.to_lower (fn.deobfuscate (fn.trim_space w))))
          r.deny_exact

  abbrev pub has_banned_domain : NormalizedMessage → Bool
  has_banned_domain n =
      any
        (λ link.
          any (λ d. str_eq (fn.to_lower d) (fn.to_lower (fn.extract_host link))) r.banned_domains)
        n.links

  abbrev pub has_banned_document : NormalizedMessage → Bool
  has_banned_document n =
      any
        (λ e.
          any (λ b. str_eq (fn.canonical_document_extension e) (fn.canonical_document_extension b))
            r.banned_document_extensions)
        n.document_extensions
      || any
          (λ e.
            any (λ b. str_eq (fn.canonical_mime_type e) (fn.canonical_mime_type b))
              r.banned_document_mime_types)
          n.document_mime_types

  -- What only an untrusted sender answers for.
  abbrev pub is_excessive : NormalizedMessage → Bool
  is_excessive n =
      (r.block_links_for_untrusted && is_some (offending_link fn r n.links))
      || ((ltb 0 r.max_links && ltb r.max_links n.link_count)
          || ((ltb 0 r.max_mentions && ltb r.max_mentions n.mention_count)
              || (ltb 0 r.max_emoji && ltb r.max_emoji n.emoji_count)))

  is_some-check_deny_stopword :
      (n : NormalizedMessage) → is_some (check_deny_stopword fn r n) ≡ has_denied n
  unfolding check_deny_stopword
  is_some-check_deny_stopword n =
      is_some-first _ _ _ r.deny_stopwords ∙ any-unless _ _ r.deny_stopwords

  is_some-check_deny_exact :
      (n : NormalizedMessage) → is_some (check_deny_exact fn r n) ≡ is_denied n
  unfolding check_deny_exact
  is_some-check_deny_exact n =
      let text = fn.to_lower (fn.trim_space n.text) in
      let p = λ (w : String).
        not (str_eq w "") && str_eq text (fn.to_lower (fn.deobfuscate (fn.trim_space w))) in
      let h = is_some-first "deny_exact" (λ w. w) p r.deny_exact in
      let e = any-empty p r.deny_exact in ground (arith, h, e)

  is_some-check_link_policy :
      (n : NormalizedMessage) (trusted : Bool)
      → is_some (check_link_policy fn r n trusted)
        ≡ (r.block_links_for_untrusted && not trusted && is_some (offending_link fn r n.links))
  unfolding check_link_policy
  is_some-check_link_policy n trusted =
      let h =
        is_some-hit "link_from_untrusted" (λ link. fn.to_lower (fn.extract_host link))
          (offending_link fn r n.links) in
      ground (arith, h)

  is_some-check_banned_document :
      (n : NormalizedMessage) → is_some (check_banned_document fn r n) ≡ has_banned_document n
  unfolding check_banned_document
  is_some-check_banned_document n =
      rw
        (
          is_some-or_else,
          is_some-first "banned_document_extension",
          is_some-first "banned_document_mime",
        )
        refl

  is_some-check_banned_domain :
      (n : NormalizedMessage) → is_some (check_banned_domain fn r n) ≡ has_banned_domain n
  unfolding check_banned_domain
  is_some-check_banned_domain n = is_some-first _ _ _ n.links

  is_some-check_limits :
      (n : NormalizedMessage) (trusted : Bool)
      → is_some (check_limits fn r n trusted) ≡ (
          not trusted
          && ((ltb 0 r.max_links && ltb r.max_links n.link_count)
              || ((ltb 0 r.max_mentions && ltb r.max_mentions n.mention_count)
                  || (ltb 0 r.max_emoji && ltb r.max_emoji n.emoji_count))))
  unfolding check_limits
  is_some-check_limits n trusted = ground arith

  -- Rules.Check on any message: some rule fires exactly when the text holds a denied word and no allowed one,
  -- or is as a whole a denied one and holds no allowed one, or a link goes to a banned domain, or a document
  -- is of a banned type, or, for an untrusted sender only, a link is against the policy or a limit is passed.
  pub is_some-check :
      (n : NormalizedMessage) (trusted : Bool)
      → is_some (check fn r n trusted) ≡ (
          has_denied n
          || is_denied n
          || has_banned_domain n
          || has_banned_document n
          || (not trusted && is_excessive n))
  unfolding check
  is_some-check n trusted =
      rw
        (
          is_some-or_else,
          is_some-or_else,
          is_some-or_else,
          is_some-or_else,
          is_some-or_else,
          is_some-check_deny_stopword n,
          is_some-check_deny_exact n,
          is_some-check_link_policy n trusted,
          is_some-check_banned_domain n,
          is_some-check_banned_document n,
          is_some-check_limits n trusted,
        )
        (reorder (has_denied n) (is_denied n) (has_banned_domain n) (has_banned_document n)
          (is_some (offending_link fn r n.links))
          ((ltb 0 r.max_links && ltb r.max_links n.link_count)
            || ((ltb 0 r.max_mentions && ltb r.max_mentions n.mention_count)
                || (ltb 0 r.max_emoji && ltb r.max_emoji n.emoji_count)))
          r.block_links_for_untrusted trusted)
