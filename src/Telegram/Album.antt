-- ===== src/Telegram/Album.antt =====
-- internal/telegram/album.go: the buffer of album parts, over any type of message with a chat and a media
-- group. An operation is what happens under the lock, or one call of flush: fire and Stop take the parts
-- under the lock and call flush after it, so between the two other goroutines may run. The calls of flush
-- are kept in order, each with the key that it is for.
pub mod Consecutive
pub mod Delivered
use telegram_antispam.Common.{
  ℕ, zero, suc, ℤ, same, Option, none, some, String, str_eq, Bool, true, false, ◌&&◌, not,
  if◌then◌else◌, List, [], ◌∷◌, ◌++◌, is_empty,
}

-- type albumKey
pub record AlbumKey : Type 0 where
  pub chat : ℤ
  pub group : String

abbrev pub same_album : AlbumKey → AlbumKey → Bool
same_album a b = same a.chat b.chat && str_eq a.group b.group

-- type AlbumBuffer; a timer is there where it is set. `in_flight` has the parts that fire and Stop took
-- under the lock and did not hand to flush yet.
pub record AlbumBuffer (A : Type 0) : Type 0 where
  pub pending : AlbumKey → List A
  pub timers : AlbumKey → Bool
  pub in_flight : List (AlbumKey × List A)
  pub flushed : List (AlbumKey × List A)

-- An assignment to a map.
unfoldable pub assign : {B : Type 0} → AlbumKey → B → (AlbumKey → B) → AlbumKey → B
assign k b f j = if same_album k j then b else f j

-- What some goroutine does next. A call of flush is named by its place among those in flight.
pub data Operation (A : Type 0) : Type 0 where
  adding : A → Operation A
  firing : AlbumKey → Operation A
  stopping : List AlbumKey → Operation A
  flushing : ℕ → Operation A

module _ {A : Type 0} where
  -- NewAlbumBuffer
  abbrev pub new_album_buffer : AlbumBuffer A
  new_album_buffer = record { pending = λ k. []; timers = λ k. false; in_flight = []; flushed = [] }

  -- The body of Add, with the key of the part.
  unfoldable pub buffer_part : AlbumKey → A → AlbumBuffer A → AlbumBuffer A
  buffer_part k m b = record b {
    pending = assign k (b.pending k ++ m ∷ []) b.pending;
    timers = if is_empty (b.pending k) then assign k true b.timers else b.timers;
  }

  -- Add: true for a message that stands alone.
  unfoldable pub add : (A → AlbumKey) → A → AlbumBuffer A → AlbumBuffer A × Bool
  add key_of m b =
      if str_eq (key_of m).group "" then (b, true) else (buffer_part (key_of m) m b, false)

  -- fire under the lock
  unfoldable pub fire : AlbumKey → AlbumBuffer A → AlbumBuffer A
  fire k b = record b {
    pending = assign k [] b.pending;
    timers = assign k false b.timers;
    in_flight = (k, b.pending k) ∷ b.in_flight;
  }

  -- The map that Stop takes, by its keys.
  unfoldable pub taken : List AlbumKey → (AlbumKey → List A) → List (AlbumKey × List A)
  taken [] pending = []
  taken (k ∷ ks) pending = (k, pending k) ∷ taken ks pending

  -- Stop under the lock
  unfoldable pub stop : List AlbumKey → AlbumBuffer A → AlbumBuffer A
  stop keys b = record b {
    pending = λ k. [];
    timers = λ k. false;
    in_flight = taken keys b.pending ++ b.in_flight;
  }

  -- fire and the loop of Stop after the lock: flush is called unless there are no parts.
  abbrev pub call_flush : AlbumKey × List A → List (AlbumKey × List A) → List (AlbumKey × List A)
  call_flush (k, parts) log = if is_empty parts then log else log ++ (k, parts) ∷ []

  -- The calls in flight without the one at a place, and that one.
  unfoldable pub take_out :
      ℕ → List (AlbumKey × List A) → List (AlbumKey × List A) × Option (AlbumKey × List A)
  take_out n [] = ([], none)
  take_out zero (c ∷ cs) = (cs, some c)
  take_out (suc n) (c ∷ cs) = let (rest, o) = take_out n cs in (c ∷ rest, o)

  abbrev pub flush_taken :
      AlbumBuffer A → List (AlbumKey × List A) × Option (AlbumKey × List A) → AlbumBuffer A
  flush_taken b (rest, none) = b
  flush_taken b (rest, some c) = record b { in_flight = rest; flushed = call_flush c b.flushed }

  -- A call of flush
  unfoldable pub flush : ℕ → AlbumBuffer A → AlbumBuffer A
  flush n b = flush_taken b (take_out n b.in_flight)

  unfoldable pub step : (A → AlbumKey) → Operation A → AlbumBuffer A → AlbumBuffer A
  step key_of (adding m) b = (add key_of m b).0
  step key_of (firing k) b = fire k b
  step key_of (stopping keys) b = stop keys b
  step key_of (flushing n) b = flush n b

  unfoldable pub run : (A → AlbumKey) → List (Operation A) → AlbumBuffer A → AlbumBuffer A
  run key_of [] b = b
  run key_of (o ∷ os) b = run key_of os (step key_of o b)
