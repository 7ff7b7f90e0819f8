-- ===== src/Core/Playlist/Merged.antt =====
-- core/playlistmanager.go: `AddTrack` merges the segments of two playlists.
use livepeer.Base.{
  ℕ, zero, suc, ◌+◌, ◌≤◌, ◌<◌, ◌≡◌, ◌≢◌, refl, sym, subst, List, [], ◌∷◌, ◌++◌, ◌==◌, ==_iff, ltb,
  ltb→lt, if◌then◌else◌, length, Bool-cases, inl, inr, arith,
}
use livepeer.Core.Playlist.{JsonSeg, seq_at, insert_seg, sort_segments}

-- All sequence numbers are above a number; they increase.
abbrev pub AreAbove : ℕ → List JsonSeg → Type 0
AreAbove n [] = Unit
AreAbove n (s ∷ l) = (n < s.seq_no) × AreAbove n l

abbrev pub IsIncreasing : List JsonSeg → Type 0
IsIncreasing [] = Unit
IsIncreasing (s ∷ l) = AreAbove s.seq_no l × IsIncreasing l

-- How often a sequence number stands in a list.
abbrev pub count : ℕ → List JsonSeg → ℕ
count k [] = 0
count k (s ∷ l) = (if k == s.seq_no then 1 else 0) + count k l

pub count-append : (k : ℕ) (l m : List JsonSeg) → count k (l ++ m) ≡ count k l + count k m
count-append k [] m = omega arith
count-append k (s ∷ l) m = omega (arith, count-append k l m)

AreAbove-seq_at : (n : ℕ) (l : List JsonSeg) (i : ℕ) → AreAbove n l → i < length l → n < seq_at l i
AreAbove-seq_at n [] i h less = absurd (omega arith)
AreAbove-seq_at n (s ∷ l) zero h less = h.0
AreAbove-seq_at n (s ∷ l) (suc i) h less = AreAbove-seq_at n l i h.1 (omega arith)

pub seq_at_mono :
    (l : List JsonSeg) (i j : ℕ) → IsIncreasing l → i ≤ j → j < length l → seq_at l i ≤ seq_at l j
seq_at_mono [] i j h le less = absurd (omega arith)
seq_at_mono (s ∷ l) zero zero h le less = omega arith
seq_at_mono (s ∷ l) zero (suc j) h le less =
    let above = AreAbove-seq_at s.seq_no l j h.0 (omega arith) in omega (arith, above)
seq_at_mono (s ∷ l) (suc i) zero h le less = absurd (omega arith)
seq_at_mono (s ∷ l) (suc i) (suc j) h le less = seq_at_mono l i j h.1 (omega arith) (omega arith)

pub count_zero :
    (k : ℕ) (l : List JsonSeg) → ((j : ℕ) → j < length l → seq_at l j ≢ k) → count k l ≡ 0
count_zero k [] h = refl
count_zero k (s ∷ l) h =
    let first = h zero (omega arith) in
    let rest = count_zero k l (λ j less. h (suc j) (omega arith)) in ground (arith, first, rest)

pub count-seq_at : (l : List JsonSeg) (i : ℕ) → i < length l → 1 ≤ count (seq_at l i) l
count-seq_at [] i h = absurd (omega arith)
count-seq_at (s ∷ l) zero h = ground arith
count-seq_at (s ∷ l) (suc i) h = let ih = count-seq_at l i (omega arith) in omega (arith, ih)

AreAbove-below : (m n : ℕ) (l : List JsonSeg) → m ≤ n → AreAbove n l → AreAbove m l
AreAbove-below m n [] le h = tt
AreAbove-below m n (s ∷ l) le h = (let a = h.0 in omega (arith, a), AreAbove-below m n l le h.1)

AreAbove-append :
    (n : ℕ) (l : List JsonSeg) (s : JsonSeg)
    → AreAbove n l
    → n < s.seq_no
    → AreAbove n (l ++ s ∷ [])
AreAbove-append n [] s h less = (less, tt)
AreAbove-append n (t ∷ l) s h less = (h.0, AreAbove-append n l s h.1 less)

-- A segment behind all others.
pub IsIncreasing-append :
    (l : List JsonSeg) (s : JsonSeg)
    → IsIncreasing l
    → ((j : ℕ) → j < length l → seq_at l j < s.seq_no)
    → IsIncreasing (l ++ s ∷ [])
IsIncreasing-append [] s h below = (tt, tt)
IsIncreasing-append (t ∷ l) s h below = (
  AreAbove-append t.seq_no l s h.0 (below zero (omega arith)),
  IsIncreasing-append l s h.1 (λ j less. below (suc j) (omega arith)),
)

count-insert_seg :
    (k : ℕ) (s : JsonSeg) (l : List JsonSeg) → count k (insert_seg s l) ≡ count k (s ∷ l)
count-insert_seg k s [] = refl
count-insert_seg k s (t ∷ l) = elim (Bool-cases (ltb t.seq_no s.seq_no)) [
  | inl behind ↦ rw (behind) (omega (arith, count-insert_seg k s l))
  | inr before ↦ rw (before) refl
]

pub count-sort_segments : (k : ℕ) (l : List JsonSeg) → count k (sort_segments l) ≡ count k l
count-sort_segments k [] = refl
count-sort_segments k (s ∷ l) =
    omega (arith, count-insert_seg k s (sort_segments l), count-sort_segments k l)

insert_seg-AreAbove :
    (n : ℕ) (s : JsonSeg) (l : List JsonSeg)
    → n < s.seq_no
    → AreAbove n l
    → AreAbove n (insert_seg s l)
insert_seg-AreAbove n s [] less h = (less, tt)
insert_seg-AreAbove n s (t ∷ l) less h = elim (Bool-cases (ltb t.seq_no s.seq_no)) [
  | inl behind ↦ rw (behind) (h.0, insert_seg-AreAbove n s l less h.1)
  | inr before ↦ rw (before) (less, h)
]

insert_seg-IsIncreasing :
    (s : JsonSeg) (l : List JsonSeg)
    → count s.seq_no l ≡ 0
    → IsIncreasing l
    → IsIncreasing (insert_seg s l)
insert_seg-IsIncreasing s [] absent h = (tt, tt)
insert_seg-IsIncreasing s (t ∷ l) absent h = elim (Bool-cases (ltb t.seq_no s.seq_no)) [
  | inl behind ↦
      let rest : count s.seq_no l ≡ 0 = omega (arith, absent) in
      rw (behind) (
        insert_seg-AreAbove t.seq_no s l (ltb→lt t.seq_no s.seq_no behind) h.0,
        insert_seg-IsIncreasing s l rest h.1,
      )
  | inr before ↦
      let less : s.seq_no < t.seq_no = ground (arith, before, absent) in
      rw (before) ((less, AreAbove-below s.seq_no t.seq_no l (omega (arith, less)) h.0), h)
]

pub sort_segments-IsIncreasing :
    (l : List JsonSeg) → ((k : ℕ) → count k l ≤ 1) → IsIncreasing (sort_segments l)
sort_segments-IsIncreasing [] h = tt
sort_segments-IsIncreasing (s ∷ l) h =
    let absent : count s.seq_no (sort_segments l) ≡ 0 =
      let one = h s.seq_no in
      let same = count-sort_segments s.seq_no l in ground (arith, one, same) in
    insert_seg-IsIncreasing s (sort_segments l) absent
      (sort_segments-IsIncreasing l (λ k. let one = h k in omega (arith, one)))

-- In an increasing list a number stands at most once.
AreAbove-count : (n : ℕ) (l : List JsonSeg) → AreAbove n l → count n l ≡ 0
AreAbove-count n l h =
    count_zero n l
      (λ j less e. let above = AreAbove-seq_at n l j h less in absurd (omega (arith, above, e)))

pub count-IsIncreasing : (k : ℕ) (l : List JsonSeg) → IsIncreasing l → count k l ≤ 1
count-IsIncreasing k [] h = omega arith
count-IsIncreasing k (s ∷ l) h = elim (Bool-cases (k == s.seq_no)) [
  | inl same ↦
      let k_eq : s.seq_no ≡ k = sym ((==_iff k s.seq_no).0 same) in
      let none_left = subst (λ n. count n l ≡ 0) k_eq (AreAbove-count s.seq_no l h.0) in
      rw (same) (omega (arith, none_left))
  | inr other ↦ rw (other) (omega (arith, count-IsIncreasing k l h.1))
]
