-- ===== src/Blocklist/Cas/Bounded.antt =====
-- internal/blocklist/cas.go: the size of the cache, and when the breaker is open.
use telegram_antispam.Common.{
  ℕ, suc, ◌≤◌, ◌==◌, ltb, leb, ℤ, Bool, true, ◌||◌, List, [], ◌∷◌, ◌++◌, Option, none, some, keep,
  length, map, ◌≡◌, refl, arith,
}
use telegram_antispam.Blocklist.Cas.{
  CasConfig, CasEntry, CasChecker, new_cas_checker, cas_breaker_errors, set_entry, store_entry,
  make_room, finish, Response, run,
}

length-keep : (p : CasEntry → Bool) (es : List CasEntry) → length (keep p es) ≤ length es
length-keep p [] = omega arith
length-keep p (e ∷ es) = ground (arith, length-keep p es)

length-map : (f : CasEntry → CasEntry) (es : List CasEntry) → length (map f es) ≡ length es
length-map f [] = refl
length-map f (e ∷ es) = ground (arith, length-map f es)

length_snoc : (es : List CasEntry) (e : CasEntry) → length (es ++ e ∷ []) ≡ suc (length es)
length_snoc [] e = refl
length_snoc (x ∷ es) e = ground (arith, length_snoc es e)

length-make_room :
    (limit now : ℕ) (es : List CasEntry)
    → length es ≤ limit
    → length (make_room limit now es) ≤ limit
length-make_room limit now es h = ground (arith, h, length-keep (λ e. ltb now e.expires) es)

length-store_entry :
    (limit : ℕ) (e : CasEntry) (es : List CasEntry)
    → length es ≤ limit
    → length (store_entry limit e es) ≤ limit
unfolding store_entry
length-store_entry limit e es h =
    ground (arith, h, length-map (set_entry e.user_id e) es, length_snoc es e)

-- The breaker is only set where three errors are counted.
abbrev pub breaker_sound : CasChecker → Bool
breaker_sound c = leb cas_breaker_errors c.errors || c.open_until == 0

breaker_sound-finish :
    (cfg : CasConfig) (user : ℤ) (r : Option Bool) (now : ℕ) (c : CasChecker)
    → breaker_sound c ≡ true
    → breaker_sound (finish cfg user r now c).0 ≡ true
unfolding finish
breaker_sound-finish cfg user none now c h = ground (arith, h)
breaker_sound-finish cfg user (some b) now c h = refl

length-finish :
    (cfg : CasConfig) (user : ℤ) (r : Option Bool) (now : ℕ) (c : CasChecker)
    → length c.cache ≤ cfg.max_entries
    → length (finish cfg user r now c).0.cache ≤ cfg.max_entries
unfolding finish
length-finish cfg user none now c h = h
length-finish cfg user (some b) now c h =
    length-store_entry cfg.max_entries _ (make_room cfg.max_entries now c.cache)
      (length-make_room cfg.max_entries now c.cache h)

run_bounded :
    (cfg : CasConfig) (rs : List Response) (c : CasChecker)
    → length c.cache ≤ cfg.max_entries
    → breaker_sound c ≡ true
    → (length (run cfg rs c).cache ≤ cfg.max_entries) × (breaker_sound (run cfg rs c) ≡ true)
unfolding run
run_bounded cfg [] c h b = (h, b)
run_bounded cfg (r ∷ rs) c h b =
    run_bounded cfg rs (finish cfg r.user_id r.result r.now c).0
      (length-finish cfg r.user_id r.result r.now c h)
      (breaker_sound-finish cfg r.user_id r.result r.now c b)

-- Whatever requests come back, with whatever results and at whatever times, from an empty cache: it never
-- has more entries than the configuration allows, and the breaker is not set unless the
-- counter of errors, which each success sets to 0, is at least three.
pub run-new_cas_checker :
    (cfg : CasConfig) (rs : List Response)
    → (length (run cfg rs new_cas_checker).cache ≤ cfg.max_entries)
      × (breaker_sound (run cfg rs new_cas_checker) ≡ true)
run-new_cas_checker cfg rs = run_bounded cfg rs new_cas_checker (omega arith) refl
