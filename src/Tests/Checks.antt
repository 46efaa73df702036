-- ===== src/Tests/Checks.antt =====
-- Three users checked with CAS, in a cache of two entries, and then three failures.
use telegram_antispam.Common.{
  pos, true, false, List, [], ◌∷◌, none, some, ◌≡◌, refl, ◌≤◌, length, same,
}
use telegram_antispam.Blocklist.Cas.{CasConfig, Response, new_cas_checker, finish, store_entry, run}
use telegram_antispam.Blocklist.Cas.Bounded.{breaker_sound, run-new_cas_checker}

abbrev small : CasConfig
small = record { positive_ttl = 100; negative_ttl = 50; max_entries = 2 }

abbrev responses : List Response
responses =
    record { user_id = pos 1; result = some true; now = 10 }
    ∷ record { user_id = pos 2; result = some false; now = 20 }
    ∷ record { user_id = pos 3; result = some false; now = 30 }
    ∷ record { user_id = pos 3; result = none; now = 40 }
    ∷ record { user_id = pos 3; result = none; now = 41 }
    ∷ record { user_id = pos 3; result = none; now = 42 }
    ∷ []

run-new_cas_checker_example :
    (length (run small responses new_cas_checker).cache ≤ 2)
    × (breaker_sound (run small responses new_cas_checker) ≡ true)
run-new_cas_checker_example = run-new_cas_checker small responses

breaker_opens : (run small responses new_cas_checker).open_until ≡ 60000000042
unfolding run finish store_entry same
breaker_opens = refl
