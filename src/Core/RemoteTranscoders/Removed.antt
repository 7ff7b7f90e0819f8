-- ===== src/Core/RemoteTranscoders/Removed.antt =====
-- core/orchestrator.go: what `removeFromRemoteTranscoders` leaves.
use livepeer.Base.{
  ℕ, suc, ◌<◌, ◌≤◌, ◌≡◌, ◌≢◌, refl, ap, ◌∙◌, true, false, List, [], ◌∷◌, ◌++◌, ◌==◌, length, arith,
}
use livepeer.Core.RemoteTranscoders.{
  last_of, without_last, keep_neighbours, remove_from_remote_transcoders,
}

length-without_last : (t : ℕ) (l : List ℕ) → length (without_last t l) ≡ length l
length-without_last t [] = refl
length-without_last t (u ∷ l) = ap suc (length-without_last u l)

keep_neighbours_shorter :
    (rt before : ℕ) (l : List ℕ) → length (keep_neighbours rt before l) < suc (length l)
keep_neighbours_shorter rt before [] = omega arith
keep_neighbours_shorter rt before (t ∷ l) =
    let ih = keep_neighbours_shorter rt t l in ground (arith, ih)

-- A removal leaves fewer transcoders, whether or not the transcoder was there.
pub remove_shorter :
    (rt t : ℕ) (l : List ℕ) → length (remove_from_remote_transcoders rt (t ∷ l)) < suc (length l)
unfolding remove_from_remote_transcoders
remove_shorter rt t l =
    let last = length-without_last t l in
    let kept = keep_neighbours_shorter rt t l in ground (arith, last, kept)

pub remove_fewer :
    (rt : ℕ) (l : List ℕ) → 1 ≤ length l → length (remove_from_remote_transcoders rt l) < length l
remove_fewer rt [] h = absurd (omega arith)
remove_fewer rt (t ∷ l) h = remove_shorter rt t l

-- The transcoder does not stand in the list.
abbrev pub IsAbsent : ℕ → List ℕ → Type 0
IsAbsent rt [] = Unit
IsAbsent rt (t ∷ l) = (rt ≢ t) × IsAbsent rt l

last_of-IsAbsent : (rt t : ℕ) (l : List ℕ) → rt ≢ t → IsAbsent rt l → rt ≢ last_of t l
last_of-IsAbsent rt t [] ne h = ne
last_of-IsAbsent rt t (u ∷ l) ne h = last_of-IsAbsent rt u l h.0 h.1

keep_neighbours-IsAbsent :
    (rt before : ℕ) (l : List ℕ) → IsAbsent rt l → keep_neighbours rt before l ≡ []
keep_neighbours-IsAbsent rt before [] h = refl
keep_neighbours-IsAbsent rt before (t ∷ l) h =
    let ih = keep_neighbours-IsAbsent rt t l h.1 in
    let other : (t == rt) ≡ false = ground (arith, h.0) in rw (other) ih

keep_neighbours-append :
    (rt before t : ℕ) (first after : List ℕ)
    → IsAbsent rt first
    → rt ≢ t
    → keep_neighbours rt before (first ++ (t ∷ (rt ∷ after))) ≡ t ∷ after
keep_neighbours-append rt before t [] after h ne =
    let other : (t == rt) ≡ false = ground (arith, ne) in
    let self : (rt == rt) ≡ true = ground arith in rw (other, self) refl
keep_neighbours-append rt before t (u ∷ first) after h ne =
    let other : (u == rt) ≡ false = ground (arith, h.0) in
    rw (other) (keep_neighbours-append rt u t first after h.1 ne)

last_of-append : (t a : ℕ) (l after : List ℕ) → last_of t (l ++ (a ∷ after)) ≡ last_of a after
last_of-append t a [] after = refl
last_of-append t a (u ∷ l) after = last_of-append u a l after

-- Removing a transcoder does more than that. One that is not in the list empties it. One that
-- stands between others, with at least two in front of it, takes all of those with it but the one
-- just in front of it.
pub remove_from_remote_transcoders-lost :
    (rt t : ℕ) (l : List ℕ)
    → (rt ≢ t → IsAbsent rt l → remove_from_remote_transcoders rt (t ∷ l) ≡ [])
      × ((first : List ℕ) (u a : ℕ) (after : List ℕ)
          → l ≡ first ++ (u ∷ (rt ∷ (a ∷ after)))
          → IsAbsent rt (t ∷ first)
          → rt ≢ u
          → IsAbsent rt (a ∷ after)
          → remove_from_remote_transcoders rt (t ∷ l) ≡ u ∷ (a ∷ after))
unfolding remove_from_remote_transcoders
remove_from_remote_transcoders-lost rt t l = (
  λ ne absent.
      let last : (rt == last_of t l) ≡ false =
        let h = last_of-IsAbsent rt t l ne absent in ground (arith, h) in
      let first : (t == rt) ≡ false = ground (arith, ne) in
      rw (last, first) (keep_neighbours-IsAbsent rt t l absent),
  λ before u a after split absent ne behind.
      let at_end : last_of t l ≡ last_of a after =
        ap (last_of t) split ∙ last_of-append t u before (rt ∷ (a ∷ after)) in
      let last : (rt == last_of t l) ≡ false =
        let h = last_of-IsAbsent rt a after behind.0 behind.1 in ground (arith, h, at_end) in
      let first : (t == rt) ≡ false = let h = absent.0 in ground (arith, h) in
      rw (last, first)
        (ap (keep_neighbours rt t) split
          ∙ keep_neighbours-append rt t u before (a ∷ after) absent.1 ne),
)
