-- ===== src/Core/Playlist.antt =====
-- core/playlistmanager.go: the JSON playlist of a recorded stream. Sequence numbers and durations are
-- 64 bit words. The mutex of the manager makes each call one step.
pub mod Search
pub mod Merged
pub mod Tracks
mod Tests
use Prim.Native.String.{String}
use livepeer.Base.{
  ℕ, zero, suc, ◌+◌, ◌-◌, ◌/◌, ◌%◌, ◌^◌, Bool, true, false, ◌&&◌, not, List, [], ◌∷◌, ◌++◌, Option,
  none, some, ◌==◌, ltb, leb, if◌then◌else◌, length,
}
use livepeer.Base.Maps.{empty_map, insert, string_eq}

-- `jsonSeg`
pub record JsonSeg : Type 0 where
  pub seq_no : ℕ
  pub uri : String
  pub duration_ms : ℕ
  pub is_discontinuity : Bool

-- `JsonMediaTrack`
pub record JsonMediaTrack : Type 0 where
  pub name : String
  pub bandwidth : ℕ
  pub resolution : String

-- `JsonPlaylist`
pub record JsonPlaylist : Type 0 where
  pub duration_ms : ℕ
  pub tracks : List JsonMediaTrack
  pub segments : String → Option (List JsonSeg)

-- `NewJSONPlaylist`
abbrev pub new_json_playlist : JsonPlaylist
new_json_playlist = record {
  duration_ms = 0;
  tracks = [];
  segments = empty_map string_eq (List JsonSeg);
}

-- The segments of a track, which are none for a missing key.
abbrev pub or_empty : Option (List JsonSeg) → List JsonSeg
or_empty none = []
or_empty (some l) = l

abbrev pub segments_of : String → JsonPlaylist → List JsonSeg
segments_of track p = or_empty (p.segments track)

abbrev pub set_segments : String → List JsonSeg → JsonPlaylist → JsonPlaylist
set_segments track l p = record p { segments = insert track l p.segments }

-- `hasTrack`
abbrev pub has_track : String → List JsonMediaTrack → Bool
has_track name [] = false
has_track name (t ∷ l) = if string_eq.beq t.name name then true else has_track name l

-- `AddMaster`
unfoldable pub add_tracks : List JsonMediaTrack → List JsonMediaTrack → List JsonMediaTrack
add_tracks [] tracks = tracks
add_tracks (t ∷ l) tracks =
    add_tracks l (if has_track t.name tracks then tracks else tracks ++ t ∷ [])

unfoldable pub add_master : JsonPlaylist → JsonPlaylist → JsonPlaylist
add_master other p = record p { tracks = add_tracks other.tracks p.tracks }

-- The sequence number at an index, and the last one, which is 0 in an empty list.
abbrev pub seq_at : List JsonSeg → ℕ → ℕ
seq_at [] i = 0
seq_at (s ∷ l) zero = s.seq_no
seq_at (s ∷ l) (suc i) = seq_at l i

abbrev pub last_seq : List JsonSeg → ℕ
last_seq l = seq_at l (length l - 1)

-- The loop of `AddDiscontinuedTrack`: the numbers go on from the last one, and the first segment is
-- marked.
abbrev pub shift_segments : ℕ → List JsonSeg → List JsonSeg
shift_segments next [] = []
shift_segments next (s ∷ l) =
    record s { seq_no = (s.seq_no + next) % 2 ^ 64 } ∷ shift_segments next l

abbrev pub mark_first : Bool → List JsonSeg → List JsonSeg
mark_first disc [] = []
mark_first disc (s ∷ l) = record s { is_discontinuity = disc } ∷ l

-- `AddDiscontinuedTrack`
unfoldable pub add_discontinued_track : JsonPlaylist → String → JsonPlaylist → JsonPlaylist
add_discontinued_track other track p =
    let l = segments_of track p in
    let has_some = ltb 0 (length l) in
    let next = if has_some then (last_seq l + 1) % 2 ^ 64 else 0 in
    set_segments track (l ++ mark_first has_some (shift_segments next (segments_of track other))) p

-- `sort.Search`, on the indices from `lo` to `hi`: it halves the range until nothing is left. The
-- fuel is the number of indices.
unfoldable pub search : (ℕ → Bool) → ℕ → ℕ → ℕ → ℕ
search f zero lo hi = lo
search f (suc fuel) lo hi =
    let h = (lo + hi) / 2 in
    let half : ℕ × ℕ = if f h then (lo, h) else (h + 1, hi) in
    let bounds : ℕ × ℕ = if ltb lo hi then half else (lo, hi) in search f fuel bounds.0 bounds.1

-- `sort.Slice` by the sequence numbers, which are all different where it is called.
abbrev pub insert_seg : JsonSeg → List JsonSeg → List JsonSeg
insert_seg s [] = s ∷ []
insert_seg s (t ∷ l) =
    let rest = insert_seg s l in if ltb t.seq_no s.seq_no then t ∷ rest else s ∷ t ∷ l

abbrev pub sort_segments : List JsonSeg → List JsonSeg
sort_segments [] = []
sort_segments (s ∷ l) = insert_seg s (sort_segments l)

-- A round of the loop of `AddTrack`.
unfoldable pub add_segment : JsonSeg → List JsonSeg → List JsonSeg
add_segment s l =
    let i = search (λ j. leb s.seq_no (seq_at l j)) (length l) 0 (length l) in
    let more = l ++ s ∷ [] in
    if ltb (last_seq l) s.seq_no
    then more
    else if ltb i (length l) && (seq_at l i == s.seq_no)
    then l
    else if ltb i (length l)
    then sort_segments more
    else more

unfoldable pub add_segments : List JsonSeg → List JsonSeg → List JsonSeg
add_segments [] l = l
add_segments (s ∷ segs) l = add_segments segs (add_segment s l)

-- `AddTrack`
unfoldable pub add_track : JsonPlaylist → String → JsonPlaylist → JsonPlaylist
add_track other track p =
    set_segments track (add_segments (segments_of track other) (segments_of track p)) p

-- `InsertHLSSegment` of the playlist, with the duration in milliseconds and what the library says of
-- the profile.
unfoldable pub insert_hls_segment : JsonMediaTrack → ℕ → String → ℕ → JsonPlaylist → JsonPlaylist
insert_hls_segment profile seq uri duration_ms p =
    let s : JsonSeg = record {
      seq_no = seq;
      uri = uri;
      duration_ms = duration_ms;
      is_discontinuity = false;
    } in
    let timed : JsonPlaylist = record p {
      duration_ms =
          if string_eq.beq profile.name "source"
          then (p.duration_ms + duration_ms) % 2 ^ 64
          else p.duration_ms;
    } in
    let listed : JsonPlaylist = elim (p.segments profile.name) [
      | none ↦ record timed { tracks = timed.tracks ++ profile ∷ [] }
      | some l ↦ timed
    ] in
    set_segments profile.name (segments_of profile.name p ++ s ∷ []) listed
