-- ===== src/Telegram/Album/Consecutive.antt =====
-- internal/telegram/album.go: the order of the parts in the calls of flush.
use telegram_antispam.Common.{
  ℕ, zero, suc, Option, none, some, str_eq, ◌&&◌, not, List, [], ◌∷◌, ◌++◌, ◌≡◌, refl, ap, ◌∙◌, sym,
  subst, Bool-cases, inl, inr,
}
use mathlib.Core.List.{append_assoc, append-nil}
use telegram_antispam.Telegram.Album.{
  AlbumKey, same_album, AlbumBuffer, assign, Operation, adding, firing, stopping, flushing,
  new_album_buffer, buffer_part, add, fire, taken, stop, call_flush, take_out, flush_taken, flush,
  step, run,
}
use telegram_antispam.Telegram.Album.Delivered.{only_if, same_album-true, parts_of}

module _ {A : Type 0} where
  -- Elements that stand one after another in a list, and those that it ends with.
  abbrev pub Segment : List A → List A → Type 0
  Segment xs ys = (before : List A) × (after : List A) × (ys ≡ before ++ (xs ++ after))

  abbrev pub Ends : List A → List A → Type 0
  Ends xs ys = (before : List A) × (ys ≡ before ++ xs)

  -- Each call for an album has parts that stand one after another among all its parts.
  abbrev pub Segments : AlbumKey → List A → List (AlbumKey × List A) → Type 0
  Segments k all [] = Unit
  Segments k all ((j, parts) ∷ log) =
      Segment (only_if (same_album j k) parts) all × Segments k all log

  Segment-longer : (xs ys zs : List A) → Segment xs ys → Segment xs (ys ++ zs)
  Segment-longer xs ys zs (before, after, e) = (
    before,
    after ++ zs,
    ap (λ l. l ++ zs) e
        ∙ append_assoc before (xs ++ after) zs
        ∙ ap (λ l. before ++ l) (append_assoc xs after zs),
  )

  Segments-longer :
      (k : AlbumKey) (all more : List A) (log : List (AlbumKey × List A))
      → Segments k all log
      → Segments k (all ++ more) log
  Segments-longer k all more [] h = tt
  Segments-longer k all more ((j, parts) ∷ log) h = (
    Segment-longer (only_if (same_album j k) parts) all more h.0,
    Segments-longer k all more log h.1,
  )

  Segments-append :
      (k : AlbumKey) (all : List A) (xs ys : List (AlbumKey × List A))
      → Segments k all xs
      → Segments k all ys
      → Segments k all (xs ++ ys)
  Segments-append k all [] ys h g = g
  Segments-append k all (x ∷ xs) ys h g = (h.0, Segments-append k all xs ys h.1 g)

  Segment-end : (xs ys : List A) → Ends xs ys → Segment xs ys
  Segment-end xs ys (before, e) = (before, [], e ∙ ap (λ l. before ++ l) (sym (append-nil xs)))

  Segment-nothing : (ys : List A) → Segment [] ys
  Segment-nothing ys = (ys, [], sym (append-nil ys))

  Ends-nothing : (ys : List A) → Ends [] ys
  Ends-nothing ys = (ys, sym (append-nil ys))

  -- The parts that wait for a key, as a call for it.
  Segment-pending :
      (k j : AlbumKey) (all : List A) (pending : AlbumKey → List A)
      → Ends (pending k) all
      → Segment (only_if (same_album j k) (pending j)) all
  Segment-pending k j all pending h = elim (Bool-cases (same_album j k)) [
    | inl e ↦ rw (e, same_album-true j k e) (Segment-end (pending k) all h)
    | inr e ↦ rw e (Segment-nothing all)
  ]

  Segments-taken :
      (k : AlbumKey) (keys : List AlbumKey) (all : List A) (pending : AlbumKey → List A)
      → Ends (pending k) all
      → Segments k all (taken keys pending)
  unfolding taken
  Segments-taken k [] all pending h = tt
  Segments-taken k (j ∷ keys) all pending h =
      (Segment-pending k j all pending h, Segments-taken k keys all pending h)

  -- The parts that wait are the latest, and all calls have parts that came one after another.
  pub record Placed (k : AlbumKey) (all : List A) (b : AlbumBuffer A) : Type 0 where
    pub waiting : Ends (b.pending k) all
    pub to_come : Segments k all b.in_flight
    pub done : Segments k all b.flushed

  Ends-buffered :
      (k j : AlbumKey) (m : A) (all : List A) (pending : AlbumKey → List A)
      → Ends (pending k) all
      → Ends (assign j (pending j ++ m ∷ []) pending k) (all ++ only_if (same_album j k) (m ∷ []))
  unfolding assign
  Ends-buffered k j m all pending (before, e) = elim (Bool-cases (same_album j k)) [
    | inl h ↦
        rw (h, same_album-true j k h)
          (before, ap (λ l. l ++ m ∷ []) e ∙ append_assoc before (pending k) (m ∷ []))
    | inr h ↦ rw h (before, append-nil all ∙ e)
  ]

  Placed-buffer_part :
      (k j : AlbumKey) (m : A) (all : List A) (b : AlbumBuffer A)
      → Placed k all b
      → Placed k (all ++ only_if (same_album j k) (m ∷ [])) (buffer_part j m b)
  unfolding buffer_part
  Placed-buffer_part k j m all b h = record {
    waiting = Ends-buffered k j m all b.pending h.waiting;
    to_come = Segments-longer k all _ b.in_flight h.to_come;
    done = Segments-longer k all _ b.flushed h.done;
  }

  Placed-add :
      (key_of : A → AlbumKey) (k : AlbumKey) (m : A) (all : List A) (b : AlbumBuffer A)
      → Placed k all b
      → Placed k
          (all ++ only_if (not (str_eq (key_of m).group "") && same_album (key_of m) k) (m ∷ []))
          (add key_of m b).0
  unfolding add
  Placed-add key_of k m all b h = elim (Bool-cases (str_eq (key_of m).group "")) [
    | inl e ↦ rw e (subst (λ l. Placed k l b) (sym (append-nil all)) h)
    | inr e ↦ rw e (Placed-buffer_part k (key_of m) m all b h)
  ]

  Ends-cleared :
      (k j : AlbumKey) (all : List A) (pending : AlbumKey → List A)
      → Ends (pending k) all
      → Ends (assign j [] pending k) all
  unfolding assign
  Ends-cleared k j all pending h = elim (Bool-cases (same_album j k)) [
    | inl e ↦ rw e (Ends-nothing all)
    | inr e ↦ rw e h
  ]

  Placed-fire :
      (k j : AlbumKey) (all : List A) (b : AlbumBuffer A) → Placed k all b → Placed k all (fire j b)
  unfolding fire
  Placed-fire k j all b h = record {
    waiting = Ends-cleared k j all b.pending h.waiting;
    to_come = (Segment-pending k j all b.pending h.waiting, h.to_come);
    done = h.done;
  }

  Placed-stop :
      (k : AlbumKey) (keys : List AlbumKey) (all : List A) (b : AlbumBuffer A)
      → Placed k all b
      → Placed k all (stop keys b)
  unfolding stop
  Placed-stop k keys all b h = record {
    waiting = Ends-nothing all;
    to_come =
        Segments-append k all (taken keys b.pending) b.in_flight
          (Segments-taken k keys all b.pending h.waiting) h.to_come;
    done = h.done;
  }

  abbrev SegmentOf : AlbumKey → List A → Option (AlbumKey × List A) → Type 0
  SegmentOf k all none = Unit
  SegmentOf k all (some c) = Segments k all (c ∷ [])

  Segments-take_out :
      (k : AlbumKey) (all : List A) (n : ℕ) (cs : List (AlbumKey × List A))
      → Segments k all cs
      → Segments k all (take_out n cs).0 × SegmentOf k all (take_out n cs).1
  unfolding take_out
  Segments-take_out k all n [] h = (tt, tt)
  Segments-take_out k all zero (c ∷ cs) h = (h.1, (h.0, tt))
  Segments-take_out k all (suc n) (c ∷ cs) h =
      let (rest, one) = Segments-take_out k all n cs h.1 in ((h.0, rest), one)

  Segments-call_flush :
      (k : AlbumKey) (all : List A) (c : AlbumKey × List A) (log : List (AlbumKey × List A))
      → Segments k all log
      → Segments k all (c ∷ [])
      → Segments k all (call_flush c log)
  Segments-call_flush k all (j, []) log h g = h
  Segments-call_flush k all (j, x ∷ xs) log h g = Segments-append k all log ((j, x ∷ xs) ∷ []) h g

  Placed-flush_taken :
      (k : AlbumKey) (all : List A) (b : AlbumBuffer A)
      (x : List (AlbumKey × List A) × Option (AlbumKey × List A))
      → Placed k all b
      → Segments k all x.0
      → SegmentOf k all x.1
      → Placed k all (flush_taken b x)
  Placed-flush_taken k all b (rest, none) h r o = h
  Placed-flush_taken k all b (rest, some c) h r o = record {
    waiting = h.waiting;
    to_come = r;
    done = Segments-call_flush k all c b.flushed h.done o;
  }

  Placed-flush :
      (k : AlbumKey) (n : ℕ) (all : List A) (b : AlbumBuffer A)
      → Placed k all b
      → Placed k all (flush n b)
  unfolding flush
  Placed-flush k n all b h =
      let (rest, one) = Segments-take_out k all n b.in_flight h.to_come in
      Placed-flush_taken k all b (take_out n b.in_flight) h rest one

  Placed-run :
      (key_of : A → AlbumKey) (k : AlbumKey) (os : List (Operation A)) (all : List A)
      (b : AlbumBuffer A)
      → Placed k all b
      → Placed k (all ++ parts_of key_of k os) (run key_of os b)
  unfolding run step parts_of
  Placed-run key_of k [] all b h = subst (λ l. Placed k l b) (sym (append-nil all)) h
  Placed-run key_of k (adding m ∷ os) all b h =
      subst (λ l. Placed k l (run key_of os (add key_of m b).0)) (append_assoc all _ _)
        (Placed-run key_of k os _ (add key_of m b).0 (Placed-add key_of k m all b h))
  Placed-run key_of k (firing j ∷ os) all b h =
      Placed-run key_of k os all (fire j b) (Placed-fire k j all b h)
  Placed-run key_of k (stopping keys ∷ os) all b h =
      Placed-run key_of k os all (stop keys b) (Placed-stop k keys all b h)
  Placed-run key_of k (flushing n ∷ os) all b h =
      Placed-run key_of k os all (flush n b) (Placed-flush k n all b h)

-- From an empty buffer, whatever calls of Add and Stop, whatever timers and whatever calls of flush follow
-- each other: the parts of an album in each call of flush, made or still to come, are some that were handed
-- to Add one after another, in that order, and the parts that wait are the latest, in their order.
pub run-Placed :
    {A : Type 0} (key_of : A → AlbumKey) (k : AlbumKey) (os : List (Operation A))
    → Placed k (parts_of key_of k os) (run key_of os new_album_buffer)
run-Placed key_of k os =
    Placed-run key_of k os [] new_album_buffer
      (record { waiting = ([], refl); to_come = tt; done = tt })
