-- ===== src/Core/Playlist/Tests.antt =====
-- core/playlistmanager.go: JSON playlists at concrete inputs.
use livepeer.Base.{ℕ, ◌≡◌, refl, false, List, [], ◌∷◌, some, arith}
use livepeer.Core.Playlist.{
  JsonSeg, new_json_playlist, segments_of, search, add_segment, add_segments,
  add_discontinued_track,
}
use livepeer.Core.Playlist.Tracks.{IsMerged, add_segments-IsMerged}

abbrev seg : ℕ → JsonSeg
seg n = record { seq_no = n; uri = "u"; duration_ms = 2000; is_discontinuity = false }

abbrev numbers : List JsonSeg → List ℕ
numbers [] = []
numbers (s ∷ l) = s.seq_no ∷ numbers l

-- One segment is there already, one belongs in the middle, one is new.
merged :
    numbers (add_segments (seg 4 ∷ seg 3 ∷ seg 9 ∷ []) (seg 2 ∷ seg 4 ∷ seg 7 ∷ []))
    ≡ 2 ∷ 3 ∷ 4 ∷ 7 ∷ 9 ∷ []
unfolding add_segments add_segment search
merged = refl

-- The numbers go on after the last one.
continued :
    numbers (
      segments_of "t" (
        add_discontinued_track
          (record new_json_playlist { segments = λ t. some (seg 0 ∷ seg 1 ∷ []) })
          "t"
          (record new_json_playlist { segments = λ t. some (seg 5 ∷ []) })))
    ≡ 5 ∷ 6 ∷ 7 ∷ []
unfolding add_discontinued_track
continued = refl

add_segments-IsMerged_example :
    IsMerged
      (seg 2 ∷ seg 4 ∷ [])
      (seg 4 ∷ seg 3 ∷ [])
      (add_segments (seg 4 ∷ seg 3 ∷ []) (seg 2 ∷ seg 4 ∷ []))
add_segments-IsMerged_example =
    add_segments-IsMerged (seg 4 ∷ seg 3 ∷ []) (seg 2 ∷ seg 4 ∷ []) ((omega arith, tt), (tt, tt))
