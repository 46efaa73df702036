-- ===== src/Tests/Administrators.antt =====
-- Calls of the cache of administrators: a fetch that an invalidation overtakes, a list that names nobody, and
-- the back-off after a failed refetch.
use telegram_antispam.Common.{ℤ, pos, negsuc, true, List, [], ◌∷◌, none, ◌≡◌, arith, same}
use telegram_antispam.Incident.World.{ok}
use telegram_antispam.Telegram.AdminCache.{
  Member, new_admin_cache, Operation, look, complete, invalidating, run, answers, commit_locked,
}
use telegram_antispam.Telegram.AdminCache.Resolved.{all_resolved, answers-new_admin_cache}
use telegram_antispam.Telegram.AdminCache.Invalidated.{Discarded, commit_locked-discards}

abbrev group : ℤ
group = negsuc 100

abbrev owner : Member
owner = record {
  user_id = pos 7;
  status = "creator";
  username = "owner";
  display_name = "Owner";
  custom_title = "";
}

abbrev nobody : Member
nobody = record owner { user_id = pos 0 }

-- With a time to live of 60: a list is fetched at 100 and answered at 130; at 170 a refetch names nobody.
abbrev day : List Operation
day =
    look group 100
    ∷ complete group 0 none (ok (owner ∷ [])) 110
    ∷ look group 130
    ∷ look group 170
    ∷ complete group 0 none (ok (nobody ∷ [])) 171
    ∷ look group 180
    ∷ []

answers-new_admin_cache_example : all_resolved (answers 60 day new_admin_cache) ≡ true
answers-new_admin_cache_example =
    answers-new_admin_cache 60 day (omega arith, (omega arith, (omega arith, (omega arith, tt))))

abbrev overtaken : List Operation
overtaken = look group 100 ∷ invalidating group ∷ []

commit_locked-discards_example :
    Discarded
      (run 60 overtaken new_admin_cache)
      (commit_locked 60 group 0 none (ok (owner ∷ [])) 110 (run 60 overtaken new_admin_cache))
unfolding same
commit_locked-discards_example =
    commit_locked-discards 60 group new_admin_cache overtaken none (ok (owner ∷ [])) 110
      (omega arith) (omega arith) (omega arith)
