-- ===== src/Core/Playlist/Tracks.antt =====
-- core/playlistmanager.go: the segments of a track after `AddTrack`.
use livepeer.Base.{
  ℕ, ◌+◌, ◌-◌, ◌≤◌, ◌<◌, ◌≡◌, ◌↔◌, sym, subst, Bool, false, ◌&&◌, List, [], ◌∷◌, ◌++◌, ◌==◌, ==_iff,
  ltb, leb, ltb→lt, lt→ltb, le→leb, leb→le, length, Bool-cases, inl, inr, arith,
}
use livepeer.Core.Playlist.{
  JsonSeg, seq_at, last_seq, search, sort_segments, add_segment, add_segments,
}
use livepeer.Core.Playlist.Search.{IsFirst, search-IsFirst}
use livepeer.Core.Playlist.Merged.{
  IsIncreasing, count, count-append, seq_at_mono, count_zero, count-seq_at, IsIncreasing-append,
  sort_segments-IsIncreasing, count-sort_segments, count-IsIncreasing,
}

-- The numbers of both lists, increasing.
pub record IsMerged (l segs r : List JsonSeg) : Type 0 where
  pub order : IsIncreasing r
  pub numbers : (k : ℕ) → (1 ≤ count k r) ↔ (1 ≤ count k l + count k segs)

-- The test of the binary search.
abbrev reaches : JsonSeg → List JsonSeg → ℕ → Bool
reaches s l j = leb s.seq_no (seq_at l j)

reaches-IsFirst :
    (s : JsonSeg) (l : List JsonSeg)
    → IsIncreasing l
    → IsFirst (reaches s l) (length l) (search (reaches s l) (length l) 0 (length l))
reaches-IsFirst s l h =
    search-IsFirst (reaches s l) (length l)
      (λ i j le less e.
        let mono = seq_at_mono l i j h le less in
        let at_i = leb→le s.seq_no (seq_at l i) e in
        le→leb s.seq_no (seq_at l j) (omega (arith, mono, at_i)))
      (length l) 0 (length l)
      (record {
        order = omega arith;
        bound = omega arith;
        below = λ j less. absurd (omega (arith, less));
        above = λ less. absurd (omega (arith, less));
      })
      (omega arith)

below_first :
    (s : JsonSeg) (l : List JsonSeg) (i j : ℕ)
    → IsFirst (reaches s l) (length l) i
    → j < i
    → seq_at l j < s.seq_no
below_first s l i j p less = let e = p.below j less in ground (arith, e)

-- A segment that is not found stands nowhere in the list.
absent_count :
    (s : JsonSeg) (l : List JsonSeg) (i : ℕ)
    → IsIncreasing l
    → IsFirst (reaches s l) (length l) i
    → (ltb i (length l) && (seq_at l i == s.seq_no)) ≡ false
    → count s.seq_no l ≡ 0
absent_count s l i h p e = count_zero s.seq_no l (λ j less same. elim (Bool-cases (ltb j i)) [
  | inl before ↦
      let lower = below_first s l i j p (ltb→lt j i before) in absurd (omega (arith, lower, same))
  | inr after ↦
      let le : i ≤ j = ground (arith, after) in
      let in_range : i < length l = omega (arith, le, less) in
      let mono = seq_at_mono l i j h le less in
      let reached = leb→le s.seq_no (seq_at l i) (p.here in_range) in
      let inside = lt→ltb i (length l) in_range in
      let equal : seq_at l i ≡ s.seq_no = omega (arith, mono, reached, same) in
      absurd (ground (arith, inside, equal, e))
])

appended-IsMerged :
    (s : JsonSeg) (l : List JsonSeg)
    → IsIncreasing l
    → ((j : ℕ) → j < length l → seq_at l j < s.seq_no)
    → IsMerged l (s ∷ []) (l ++ s ∷ [])
appended-IsMerged s l h below = record {
  order = IsIncreasing-append l s h below;
  numbers = λ k.
      let one = count-append k l (s ∷ []) in
      (λ a. omega (arith, a, one), λ a. omega (arith, a, one));
}

sorted-IsMerged :
    (s : JsonSeg) (l : List JsonSeg)
    → IsIncreasing l
    → count s.seq_no l ≡ 0
    → IsMerged l (s ∷ []) (sort_segments (l ++ s ∷ []))
sorted-IsMerged s l h absent =
    let total = λ (k : ℕ). count-append k l (s ∷ []) in
    record {
      order = sort_segments-IsIncreasing (l ++ s ∷ []) (λ k. elim (Bool-cases (k == s.seq_no)) [
        | inl same ↦
            let k_eq : s.seq_no ≡ k = sym ((==_iff k s.seq_no).0 same) in
            let none_there = subst (λ n. count n l ≡ 0) k_eq absent in
            let sum = total k in ground (arith, none_there, sum)
        | inr other ↦
            let one = count-IsIncreasing k l h in
            let sum = total k in ground (arith, one, sum, other)
      ]);
      numbers = λ k.
          let sum = total k in
          let same = count-sort_segments k (l ++ s ∷ []) in
          (λ a. omega (arith, a, sum, same), λ a. omega (arith, a, sum, same));
    }

present-IsMerged :
    (s : JsonSeg) (l : List JsonSeg) → IsIncreasing l → 1 ≤ count s.seq_no l → IsMerged l (s ∷ []) l
present-IsMerged s l h there = record {
  order = h;
  numbers = λ k. (
    λ a. omega (arith, a),
    λ a. elim (Bool-cases (k == s.seq_no)) [
      | inl same ↦ subst (λ n. 1 ≤ count n l) (sym ((==_iff k s.seq_no).0 same)) there
      | inr other ↦ ground (arith, a, other)
    ],
  );
}

add_segment-IsMerged :
    (s : JsonSeg) (l : List JsonSeg) → IsIncreasing l → IsMerged l (s ∷ []) (add_segment s l)
unfolding add_segment
add_segment-IsMerged s l h =
    let n = length l in
    let i = search (reaches s l) n 0 n in
    let p = reaches-IsFirst s l h in
    elim (Bool-cases (ltb (last_seq l) s.seq_no)) [
      | inl behind ↦
          let less = ltb→lt (last_seq l) s.seq_no behind in
          rw (behind) (
            appended-IsMerged s l h (λ j in_range.
              let mono =
                seq_at_mono l j (n - 1) h (omega (arith, in_range)) (omega (arith, in_range)) in
              omega (arith, mono, less)))
      | inr within ↦ elim (Bool-cases (ltb i n && (seq_at l i == s.seq_no))) [
        | inl found ↦
            let in_range : i < n = ground (arith, found) in
            let equal : seq_at l i ≡ s.seq_no = ground (arith, found) in
            rw (within, found)
              (present-IsMerged s l h
                (subst (λ k. 1 ≤ count k l) equal (count-seq_at l i in_range)))
        | inr absent ↦ elim (Bool-cases (ltb i n)) [
          | inl inside ↦
              rw (within, absent, inside) (sorted-IsMerged s l h (absent_count s l i h p absent))
          | inr outside ↦
              let all_below : n ≤ i = ground (arith, outside) in
              rw (within, absent, outside)
                (appended-IsMerged s l h
                  (λ j in_range. below_first s l i j p (omega (arith, in_range, all_below))))
        ]
      ]
    ]

-- Adding segments, in any order and with any repetitions, to a track whose sequence numbers increase
-- gives a track whose sequence numbers increase: those of the track and of the segments, each once.
pub add_segments-IsMerged :
    (segs l : List JsonSeg) → IsIncreasing l → IsMerged l segs (add_segments segs l)
unfolding add_segments
add_segments-IsMerged [] l h = record {
  order = h;
  numbers = λ k. (λ a. omega (arith, a), λ a. omega (arith, a));
}
add_segments-IsMerged (s ∷ segs) l h =
    let first = add_segment-IsMerged s l h in
    let rest = add_segments-IsMerged segs (add_segment s l) first.order in
    record {
      order = rest.order;
      numbers =
          λ k. let one = first.numbers k in let more = rest.numbers k in ground (arith, one, more);
    }
