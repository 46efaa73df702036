-- ===== src/Tests/Blocked.antt =====
-- The blocklist on a full list, a failed one, an empty one and a delta.
use telegram_antispam.Common.{
  pos, same, le_id, true, ◌&&◌, not, List, [], ◌∷◌, some, none, any, ◌≡◌, refl,
}
use telegram_antispam.Blocklist.{new_blocklist, listed, refresh_full, refresh_delta}
use telegram_antispam.Blocklist.Sync.{
  Refresh, full, delta, refresh_all, promised_all, listed-promised,
}

abbrev refreshes : List Refresh
refreshes =
    full (some (pos 9 ∷ pos 3 ∷ pos 9 ∷ []))
    ∷ full none
    ∷ full (some [])
    ∷ delta (some (pos 5 ∷ []))
    ∷ []

listed_test : listed (pos 9) (refresh_all refreshes new_blocklist) ≡ true
unfolding listed refresh_all refresh_full refresh_delta same le_id
listed_test = refl

listed-promised_example :
    listed (pos 9) (refresh_all refreshes new_blocklist)
    ≡ (not (same (pos 9) (pos 0)) && any (same (pos 9)) (promised_all refreshes []))
listed-promised_example = listed-promised refreshes (pos 9)
