-- ===== src/Blocklist/Sync.antt =====
-- The blocklist against the ids that it promises to hold.
use telegram_antispam.Common.{
  ℤ, pos, same, Bool, true, false, ◌||◌, ◌&&◌, not, List, [], ◌∷◌, ◌++◌, Option, none, some,
  is_empty, any, any-append, ◌≡◌, refl, sym, ◌∙◌, arith, Bool-cases, inl, inr,
}
use telegram_antispam.Blocklist.{
  Blocklist, new_blocklist, build_set, listed, refresh_full, refresh_delta,
}
use telegram_antispam.Blocklist.Sets.{Sorted, has, contains-has, build_set-Sorted, has-build_set}

-- One refresh, with the answer of its fetch.
pub data Refresh : Type 0 where
  full : Option (List ℤ) → Refresh
  delta : Option (List ℤ) → Refresh

abbrev pub refresh : Refresh → Blocklist → Blocklist
unfolding refresh_full refresh_delta
refresh (full answer) b = (refresh_full answer b).0
refresh (delta answer) b = (refresh_delta answer b).0

unfoldable pub refresh_all : List Refresh → Blocklist → Blocklist
unfolding refresh
refresh_all [] b = b
refresh_all (r ∷ rs) b = refresh_all rs (refresh r b)

-- The specification: the last full list that was not empty, and the deltas after it; an error, or an
-- empty full list, changes nothing.
abbrev pub promised : Refresh → List ℤ → List ℤ
promised (full none) ids = ids
promised (full (some [])) ids = ids
promised (full (some (i ∷ is))) ids = i ∷ is
promised (delta none) ids = ids
promised (delta (some new)) ids = ids ++ new

abbrev pub promised_all : List Refresh → List ℤ → List ℤ
promised_all [] ids = ids
promised_all (r ∷ rs) ids = promised_all rs (promised r ids)

record Holds (ids : List ℤ) (b : Blocklist) : Type 0 where
  in_order : Sorted b.snap
  shown : (u : ℤ) → has u b.snap ≡ has u ids
  by_source :
      is_empty b.lols_full ≡ false → (u : ℤ) → (has u b.lols_full || has u b.lols_delta) ≡ has u ids

has-append : (u : ℤ) (xs ys : List ℤ) → has u (xs ++ ys) ≡ (has u xs || has u ys)
unfolding has
has-append u xs ys = any-append (same u) xs ys

or_nothing : (u : ℤ) (xs : List ℤ) → (has u xs || has u []) ≡ has u xs
unfolding has
or_nothing u xs = ground arith

or_assoc : (a b c : Bool) → (a || (b || c)) ≡ ((a || b) || c)
or_assoc a b c = ground arith

full-Holds :
    (i : ℤ) (is ids : List ℤ) (b : Blocklist)
    → Holds ids b
    → Holds (i ∷ is) (refresh (full (some (i ∷ is))) b)
unfolding refresh refresh_full
full-Holds i is ids b h = record {
  in_order = build_set-Sorted (build_set (i ∷ is));
  shown = λ u. has-build_set u (build_set (i ∷ is)) ∙ has-build_set u (i ∷ is);
  by_source = λ e u. or_nothing u (build_set (i ∷ is)) ∙ has-build_set u (i ∷ is);
}

-- The sources together, once a delta has arrived.
by_source-delta :
    (new ids : List ℤ) (b : Blocklist)
    → Holds ids b
    → is_empty b.lols_full ≡ false
    → (u : ℤ) → (has u b.lols_full || has u (build_set (b.lols_delta ++ new))) ≡ has u (ids ++ new)
by_source-delta new ids b h e u =
    rw
      (
        has-build_set u (b.lols_delta ++ new),
        has-append u b.lols_delta new,
        has-append u ids new,
        or_assoc (has u b.lols_full) (has u b.lols_delta) (has u new),
        h.by_source e u,
      )
      refl

delta-Holds :
    (new ids : List ℤ) (b : Blocklist)
    → Holds ids b
    → Holds (ids ++ new) (refresh (delta (some new)) b)
unfolding refresh refresh_delta
delta-Holds new ids b h = elim (Bool-cases (is_empty b.lols_full)) [
  | inl e ↦ rw e (record {
    in_order = build_set-Sorted (b.snap ++ new);
    shown = λ u.
        rw
          (
            has-build_set u (b.snap ++ new),
            has-append u b.snap new,
            has-append u ids new,
            h.shown u,
          )
          refl;
    by_source = λ f u. absurd (let k : true ≡ false = sym e ∙ f in cc);
  })
  | inr e ↦ rw e (record {
    in_order = build_set-Sorted (b.lols_full ++ build_set (b.lols_delta ++ new));
    shown = λ u.
        has-build_set u (b.lols_full ++ build_set (b.lols_delta ++ new))
        ∙ has-append u b.lols_full (build_set (b.lols_delta ++ new))
        ∙ by_source-delta new ids b h e u;
    by_source = λ f. by_source-delta new ids b h e;
  })
]

refresh-Holds :
    (r : Refresh) (ids : List ℤ) (b : Blocklist)
    → Holds ids b
    → Holds (promised r ids) (refresh r b)
unfolding refresh refresh_full refresh_delta
refresh-Holds (full none) ids b h = h
refresh-Holds (full (some [])) ids b h = h
refresh-Holds (full (some (i ∷ is))) ids b h = full-Holds i is ids b h
refresh-Holds (delta none) ids b h = h
refresh-Holds (delta (some new)) ids b h = delta-Holds new ids b h

refresh_all-Holds :
    (rs : List Refresh) (ids : List ℤ) (b : Blocklist)
    → Holds ids b
    → Holds (promised_all rs ids) (refresh_all rs b)
unfolding refresh_all
refresh_all-Holds [] ids b h = h
refresh_all-Holds (r ∷ rs) ids b h =
    refresh_all-Holds rs (promised r ids) (refresh r b) (refresh-Holds r ids b h)

-- Listed after any refreshes of a new blocklist, whatever their fetches answered: a user is listed exactly
-- when the id is not 0 and stands in the last full list that was not empty or in a delta after it (in any
-- delta, before the first such list). A failed fetch and an empty full list take nobody off the list.
pub listed-promised :
    (rs : List Refresh) (u : ℤ)
    → listed u (refresh_all rs new_blocklist)
      ≡ (not (same u (pos 0)) && any (same u) (promised_all rs []))
unfolding listed has
listed-promised rs u =
    let h : Holds [] new_blocklist = record {
      in_order = tt;
      shown = λ v. refl;
      by_source = λ e v. refl;
    } in
    let k = refresh_all-Holds rs [] new_blocklist h in
    rw (contains-has u (refresh_all rs new_blocklist).snap k.in_order, k.shown u) (ground arith)
