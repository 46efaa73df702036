-- ===== src/Tests/Albums.antt =====
-- Two albums whose parts come interleaved, and a shutdown between them.
use telegram_antispam.Common.{
  Bool, count_if, ℤ, pos, negsuc, true, List, [], ◌∷◌, ◌++◌, ◌≡◌, refl, same,
}
use telegram_antispam.Telegram.Album.{
  AlbumKey, Operation, adding, firing, stopping, flushing, new_album_buffer, step, add, fire,
  buffer_part, stop, taken, flush, take_out, assign, run,
}
use telegram_antispam.Telegram.Album.Delivered.{
  delivered, timed, MeetsOnce, parts_of, run-new_album_buffer,
}
use telegram_antispam.Telegram.Album.Consecutive.{Placed, run-Placed}

abbrev Part : Type 0
Part = AlbumKey × ℤ

abbrev first : AlbumKey
first = record { chat = negsuc 100; group = "a" }

abbrev second : AlbumKey
second = record { chat = negsuc 100; group = "b" }

abbrev key_of : Part → AlbumKey
key_of p = p.0

-- A timer fires and Stop runs while the parts of the first album are in flight; the calls of flush come in
-- another order.
abbrev day : List (Operation Part)
day =
    adding (first, pos 1)
    ∷ adding (second, pos 2)
    ∷ adding (first, pos 3)
    ∷ firing first
    ∷ adding (first, pos 4)
    ∷ stopping (second ∷ first ∷ [])
    ∷ flushing 1
    ∷ flushing 1
    ∷ adding (first, pos 5)
    ∷ []

run-new_album_buffer_example :
    let b = run key_of day new_album_buffer in
    ((p : Part → Bool)
      → count_if p (delivered first b.flushed ++ (delivered first b.in_flight ++ b.pending first))
        ≡ count_if p (parts_of key_of first day))
    × (timed first b ≡ true)
unfolding MeetsOnce same
run-new_album_buffer_example = run-new_album_buffer key_of first day (refl, tt)

run-Placed_example : Placed first (parts_of key_of first day) (run key_of day new_album_buffer)
run-Placed_example = run-Placed key_of first day

-- The parts that were taken later are flushed first.
overtaken :
    delivered first (run key_of day new_album_buffer).flushed
    ≡ (first, pos 4) ∷ (first, pos 1) ∷ (first, pos 3) ∷ []
unfolding run step add fire buffer_part stop taken flush take_out assign same
overtaken = refl

parts_of_first :
    parts_of key_of first day
    ≡ (first, pos 1) ∷ (first, pos 3) ∷ (first, pos 4) ∷ (first, pos 5) ∷ []
unfolding parts_of same
parts_of_first = refl
