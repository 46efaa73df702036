-- ===== src/Blocklist.antt =====
-- internal/blocklist: set.go, blocklist.go and sync.go. sort.Slice is an insertion sort here, and
-- slices.BinarySearch a search that stops at the first id that is too large, so it needs the order too.
-- The answer of a fetch is an argument: none is an error. A refresh runs under its lock and the
-- snapshot is one atomic pointer, so each operation is one step.
pub mod Cas
pub mod Sets
pub mod Sync
use telegram_antispam.Common.{
  ℤ, pos, same, le_id, Bool, true, false, not, if◌then◌else◌, List, [], ◌∷◌, ◌++◌, Option, none,
  some, is_empty,
}

-- sort.Slice
unfoldable pub insert_id : ℤ → List ℤ → List ℤ
insert_id a [] = a ∷ []
insert_id a (x ∷ xs) = let rest = insert_id a xs in if le_id a x then a ∷ x ∷ xs else x ∷ rest

unfoldable pub sort_ids : List ℤ → List ℤ
unfolding insert_id
sort_ids [] = []
sort_ids (x ∷ xs) = insert_id x (sort_ids xs)

abbrev pub is_head : ℤ → List ℤ → Bool
is_head a [] = false
is_head a (x ∷ xs) = same a x

-- slices.Compact
unfoldable pub compact : List ℤ → List ℤ
compact [] = []
compact (x ∷ xs) = let rest = compact xs in if is_head x xs then rest else x ∷ rest

-- BuildSet, on the sources one after another
unfoldable pub build_set : List ℤ → List ℤ
unfolding sort_ids compact
build_set all = compact (sort_ids all)

-- Set.Contains
unfoldable pub contains : ℤ → List ℤ → Bool
contains a [] = false
contains a (x ∷ xs) =
    let rest = contains a xs in if same a x then true else if le_id x a then rest else false

-- type Blocklist
pub record Blocklist : Type 0 where
  pub snap : List ℤ
  pub lols_full : List ℤ
  pub lols_delta : List ℤ

-- New
abbrev pub new_blocklist : Blocklist
new_blocklist = record { snap = []; lols_full = []; lols_delta = [] }

-- Blocklist.Listed
unfoldable pub listed : ℤ → Blocklist → Bool
unfolding contains
listed user b = if same user (pos 0) then false else contains user b.snap

-- Blocklist.RefreshFull: whether it succeeded
unfoldable pub refresh_full : Option (List ℤ) → Blocklist → Blocklist × Bool
unfolding build_set
refresh_full none b = (b, false)
refresh_full (some []) b = (b, false)
refresh_full (some (i ∷ is)) b =
    let full = build_set (i ∷ is) in
    (record { snap = build_set full; lols_full = full; lols_delta = [] }, true)

-- Blocklist.RefreshDelta
unfoldable pub refresh_delta : Option (List ℤ) → Blocklist → Blocklist × Bool
unfolding build_set
refresh_delta none b = (b, false)
refresh_delta (some delta) b =
    let delta' = build_set (b.lols_delta ++ delta) in
    (
      record b {
        lols_delta = delta';
        snap =
            if is_empty b.lols_full
            then build_set (b.snap ++ delta)
            else build_set (b.lols_full ++ delta');
      },
      true,
    )
