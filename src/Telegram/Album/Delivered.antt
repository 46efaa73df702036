-- ===== src/Telegram/Album/Delivered.antt =====
-- internal/telegram/album.go: where the parts of an album are, and the timers.
use telegram_antispam.Common.{
  ℕ, zero, suc, ◌+◌, Option, none, some, same_iff, same_refl, str_eq, Bool, true, ◌&&◌, ◌||◌, not,
  if◌then◌else◌, List, [], ◌∷◌, ◌++◌, is_empty, count_if, ◌≡◌, refl, arith, Bool-cases, inl, inr,
}
use text.Mathlib.TextEquality.{eq_iff}
use telegram_antispam.Telegram.Album.{
  flushing, taken, call_flush, take_out, flush_taken, AlbumKey, same_album, AlbumBuffer, assign,
  Operation, adding, firing, stopping, new_album_buffer, flush, buffer_part, add, fire, stop, step,
  run,
}

pub same_album-true : (j k : AlbumKey) → same_album j k ≡ true → j ≡ k
same_album-true j k h =
    let c : j.chat ≡ k.chat = (same_iff j.chat k.chat).0 (ground (arith, h)) in
    let g : j.group ≡ k.group = (eq_iff j.group k.group).0 (ground (arith, h)) in
    λ i. record { chat = c i; group = g i }

abbrev pub only_if : {A : Type 0} → Bool → List A → List A
only_if b xs = if b then xs else []

-- The parts of the calls for a key, call by call.
abbrev pub delivered : {A : Type 0} → AlbumKey → List (AlbumKey × List A) → List A
delivered k [] = []
delivered k ((j, parts) ∷ log) = only_if (same_album j k) parts ++ delivered k log

module _ {A : Type 0} where
  -- The parts of an album that operations hand to Add, in order.
  unfoldable pub parts_of : (A → AlbumKey) → AlbumKey → List (Operation A) → List A
  parts_of key_of k [] = []
  parts_of key_of k (adding m ∷ os) =
      only_if (not (str_eq (key_of m).group "") && same_album (key_of m) k) (m ∷ [])
      ++ parts_of key_of k os
  parts_of key_of k (_ ∷ os) = parts_of key_of k os

  -- Each Stop meets the key once, as the range over a map does; a key with no part makes no difference.
  unfoldable pub MeetsOnce : AlbumKey → List (Operation A) → Type 0
  MeetsOnce k [] = Unit
  MeetsOnce k (stopping keys ∷ os) = (count_if (λ j. same_album j k) keys ≡ 1) × MeetsOnce k os
  MeetsOnce k (_ ∷ os) = MeetsOnce k os

  abbrev pub timed : AlbumKey → AlbumBuffer A → Bool
  timed k b = is_empty (b.pending k) || b.timers k

  timer_set :
      (k : AlbumKey) (xs : List A) (m : A) (f : AlbumKey → Bool)
      → (is_empty xs || f k) ≡ true
      → (is_empty (xs ++ m ∷ []) || (if is_empty xs then assign k true f else f) k) ≡ true
  unfolding assign
  timer_set k [] m f h = ground (arith, same_refl k.chat, (eq_iff k.group k.group).1 refl)
  timer_set k (x ∷ xs) m f h = h

  buffer_part-timed :
      (k j : AlbumKey) (m : A) (b : AlbumBuffer A)
      → timed k b ≡ true
      → timed k (buffer_part j m b) ≡ true
  unfolding buffer_part assign
  buffer_part-timed k j m b h = elim (Bool-cases (same_album j k)) [
    | inl e ↦ rw (e, same_album-true j k e) (timer_set k (b.pending k) m b.timers h)
    | inr e ↦ ground (arith, h, e)
  ]

  add-timed :
      (key_of : A → AlbumKey) (k : AlbumKey) (m : A) (b : AlbumBuffer A)
      → timed k b ≡ true
      → timed k (add key_of m b).0 ≡ true
  unfolding add
  add-timed key_of k m b h = elim (Bool-cases (str_eq (key_of m).group "")) [
    | inl e ↦ rw e h
    | inr e ↦ rw e (buffer_part-timed k (key_of m) m b h)
  ]

  flush_taken-timed :
      (k : AlbumKey) (b : AlbumBuffer A) (x : List (AlbumKey × List A) × Option (AlbumKey × List A))
      → timed k b ≡ true
      → timed k (flush_taken b x) ≡ true
  flush_taken-timed k b (rest, none) h = h
  flush_taken-timed k b (rest, some c) h = h

  step-timed :
      (key_of : A → AlbumKey) (k : AlbumKey) (o : Operation A) (b : AlbumBuffer A)
      → timed k b ≡ true
      → timed k (step key_of o b) ≡ true
  unfolding step fire stop assign flush
  step-timed key_of k (adding m) b h = add-timed key_of k m b h
  step-timed key_of k (firing j) b h = ground (arith, h)
  step-timed key_of k (stopping keys) b h = refl
  step-timed key_of k (flushing n) b h = flush_taken-timed k b (take_out n b.in_flight) h

  timed-run :
      (key_of : A → AlbumKey) (k : AlbumKey) (os : List (Operation A)) (b : AlbumBuffer A)
      → timed k b ≡ true
      → timed k (run key_of os b) ≡ true
  unfolding run
  timed-run key_of k [] b h = h
  timed-run key_of k (o ∷ os) b h =
      timed-run key_of k os (step key_of o b) (step-timed key_of k o b h)

module _ {A : Type 0} (p : A → Bool) where
  count_if-append : (xs ys : List A) → count_if p (xs ++ ys) ≡ count_if p xs + count_if p ys
  count_if-append [] ys = omega arith
  count_if-append (x ∷ xs) ys = ground (arith, count_if-append xs ys)

  abbrev count_for : AlbumKey → List (AlbumKey × List A) → ℕ
  count_for k [] = 0
  count_for k ((j, parts) ∷ log) =
      let rest = count_for k log in if same_album j k then count_if p parts + rest else rest

  count_for-append :
      (k : AlbumKey) (xs ys : List (AlbumKey × List A))
      → count_for k (xs ++ ys) ≡ count_for k xs + count_for k ys
  count_for-append k [] ys = omega arith
  count_for-append k ((j, parts) ∷ xs) ys = ground (arith, count_for-append k xs ys)

  count_if-delivered :
      (k : AlbumKey) (log : List (AlbumKey × List A))
      → count_if p (delivered k log) ≡ count_for k log
  count_if-delivered k [] = refl
  count_if-delivered k ((j, parts) ∷ log) =
      let a = count_if-append (only_if (same_album j k) parts) (delivered k log) in
      let h = count_if-delivered k log in
      elim (Bool-cases (same_album j k)) [
        | inl e ↦ rw (a, h, e) refl
        | inr e ↦ rw (a, h, e) (omega arith)
      ]

  -- How many parts of an album pass so far: those flushed, those in flight and those that wait.
  abbrev total : AlbumKey → AlbumBuffer A → ℕ
  total k b = count_for k b.flushed + count_for k b.in_flight + count_if p (b.pending k)

  abbrev count_one : Bool → A → ℕ
  count_one b m = if b && p m then 1 else 0

  buffer_part-total :
      (k j : AlbumKey) (m : A) (b : AlbumBuffer A)
      → total k (buffer_part j m b) ≡ total k b + count_one (same_album j k) m
  unfolding buffer_part assign
  buffer_part-total k j m b = elim (Bool-cases (same_album j k)) [
    | inl e ↦ rw (e, same_album-true j k e) (ground (arith, count_if-append (b.pending k) (m ∷ [])))
    | inr e ↦ rw e (omega arith)
  ]

  fire-total : (k j : AlbumKey) (b : AlbumBuffer A) → total k (fire j b) ≡ total k b
  unfolding fire assign
  fire-total k j b = elim (Bool-cases (same_album j k)) [
    | inl e ↦ rw (e, same_album-true j k e) (omega arith)
    | inr e ↦ rw e refl
  ]

  absent-taken :
      (k : AlbumKey) (keys : List AlbumKey) (pending : AlbumKey → List A)
      → count_if (λ j. same_album j k) keys ≡ 0
      → count_for k (taken keys pending) ≡ 0
  unfolding taken
  absent-taken k [] pending h = refl
  absent-taken k (j ∷ keys) pending h = ground (arith, h, absent-taken k keys pending)

  once-taken :
      (k : AlbumKey) (keys : List AlbumKey) (pending : AlbumKey → List A)
      → count_if (λ j. same_album j k) keys ≡ 1
      → count_for k (taken keys pending) ≡ count_if p (pending k)
  unfolding taken
  once-taken k [] pending h = absurd (omega (arith, h))
  once-taken k (j ∷ keys) pending h = elim (Bool-cases (same_album j k)) [
    | inl e ↦
        rw (e, same_album-true j k e)
          (omega (arith, absent-taken k keys pending (ground (arith, h, e))))
    | inr e ↦ rw e (once-taken k keys pending (ground (arith, h, e)))
  ]

  stop-total :
      (k : AlbumKey) (keys : List AlbumKey) (b : AlbumBuffer A)
      → count_if (λ j. same_album j k) keys ≡ 1
      → total k (stop keys b) ≡ total k b
  unfolding stop
  stop-total k keys b h =
      let a = count_for-append k (taken keys b.pending) b.in_flight in
      let t = once-taken k keys b.pending h in omega (arith, a, t)

  count_for-call_flush :
      (k : AlbumKey) (c : AlbumKey × List A) (log : List (AlbumKey × List A))
      → count_for k (call_flush c log) ≡ count_for k log + count_for k (c ∷ [])
  count_for-call_flush k (j, []) log = ground arith
  count_for-call_flush k (j, x ∷ xs) log = count_for-append k log ((j, x ∷ xs) ∷ [])

  abbrev count_taken : AlbumKey → Option (AlbumKey × List A) → ℕ
  count_taken k none = 0
  count_taken k (some c) = count_for k (c ∷ [])

  take_out-count :
      (k : AlbumKey) (n : ℕ) (cs : List (AlbumKey × List A))
      → count_for k (take_out n cs).0 + count_taken k (take_out n cs).1 ≡ count_for k cs
  unfolding take_out
  take_out-count k n [] = refl
  take_out-count k zero (c ∷ cs) = ground arith
  take_out-count k (suc n) (c ∷ cs) = ground (arith, take_out-count k n cs)

  flush_taken-total :
      (k : AlbumKey) (b : AlbumBuffer A) (x : List (AlbumKey × List A) × Option (AlbumKey × List A))
      → count_for k x.0 + count_taken k x.1 ≡ count_for k b.in_flight
      → total k (flush_taken b x) ≡ total k b
  flush_taken-total k b (rest, none) h = refl
  flush_taken-total k b (rest, some c) h = omega (arith, h, count_for-call_flush k c b.flushed)

  flush-total : (k : AlbumKey) (n : ℕ) (b : AlbumBuffer A) → total k (flush n b) ≡ total k b
  unfolding flush
  flush-total k n b =
      flush_taken-total k b (take_out n b.in_flight) (take_out-count k n b.in_flight)

  add-total :
      (key_of : A → AlbumKey) (k : AlbumKey) (m : A) (b : AlbumBuffer A)
      → total k (add key_of m b).0
        ≡ total k b + count_one (not (str_eq (key_of m).group "") && same_album (key_of m) k) m
  unfolding add
  add-total key_of k m b = elim (Bool-cases (str_eq (key_of m).group "")) [
    | inl e ↦ rw e (omega arith)
    | inr e ↦ rw e (buffer_part-total k (key_of m) m b)
  ]

  count_if-parts_of :
      (key_of : A → AlbumKey) (k : AlbumKey) (m : A) (os : List (Operation A))
      → count_if p (parts_of key_of k (adding m ∷ os))
        ≡ count_one (not (str_eq (key_of m).group "") && same_album (key_of m) k) m
          + count_if p (parts_of key_of k os)
  unfolding parts_of
  count_if-parts_of key_of k m os = ground arith

  total-run :
      (key_of : A → AlbumKey) (k : AlbumKey) (os : List (Operation A)) (b : AlbumBuffer A)
      → MeetsOnce k os
      → total k (run key_of os b) ≡ total k b + count_if p (parts_of key_of k os)
  unfolding run step MeetsOnce parts_of
  total-run key_of k [] b h = omega arith
  total-run key_of k (adding m ∷ os) b h =
      let rest = total-run key_of k os (add key_of m b).0 h in
      omega (arith, rest, add-total key_of k m b, count_if-parts_of key_of k m os)
  total-run key_of k (firing j ∷ os) b h =
      omega (arith, total-run key_of k os (fire j b) h, fire-total k j b)
  total-run key_of k (stopping keys ∷ os) b h =
      omega (arith, total-run key_of k os (stop keys b) h.1, stop-total k keys b h.0)
  total-run key_of k (flushing n ∷ os) b h =
      omega (arith, total-run key_of k os (flush n b) h, flush-total k n b)

  count_if-all :
      (k : AlbumKey) (b : AlbumBuffer A)
      → count_if p (delivered k b.flushed ++ (delivered k b.in_flight ++ b.pending k)) ≡ total k b
  count_if-all k b =
      let f = count_if-delivered k b.flushed in
      let i = count_if-delivered k b.in_flight in
      let a = count_if-append (delivered k b.flushed) (delivered k b.in_flight ++ b.pending k) in
      let c = count_if-append (delivered k b.in_flight) (b.pending k) in omega (arith, f, i, a, c)

-- From an empty buffer, whatever calls of Add and Stop, whatever timers and whatever calls of flush follow
-- each other, where each Stop meets the album's key once: the parts of an album given to flush, those
-- taken under the lock for a call of flush that is still to come and those that wait are those that were
-- handed to Add, each as often, and where parts wait a timer is set.
pub run-new_album_buffer :
    {A : Type 0} (key_of : A → AlbumKey) (k : AlbumKey) (os : List (Operation A))
    → MeetsOnce k os
    → let b = run key_of os new_album_buffer in
      ((p : A → Bool)
        → count_if p (delivered k b.flushed ++ (delivered k b.in_flight ++ b.pending k))
          ≡ count_if p (parts_of key_of k os))
      × (timed k b ≡ true)
run-new_album_buffer key_of k os h =
    let b = run key_of os new_album_buffer in
    (
      λ p. omega (arith, count_if-all p k b, total-run p key_of k os new_album_buffer h),
      timed-run key_of k os new_album_buffer refl,
    )
