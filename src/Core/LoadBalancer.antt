-- ===== src/Core/LoadBalancer.antt =====
-- core/lb.go: the load balancer of local transcoders. Its mutex makes each call one step; devices and
-- jobs are numbers, and what a session does until it ends is not modelled. An `int` is a 64 bit word,
-- in two's complement; the resolutions may be negative, the frame rates are unsigned.
pub mod Least
pub mod Balanced
mod Tests
use livepeer.Base.{
  ℕ, zero, suc, ◌+◌, ◌-◌, ◌*◌, ◌/◌, ◌%◌, ◌^◌, Bool, List, [], ◌∷◌, Option, none, some, ◌==◌, ltb,
  if◌then◌else◌, length, get_or,
}

-- The fields of `ffmpeg.VideoProfile` that the cost reads; `resolution` is what
-- `ffmpeg.VideoProfileResolution` gives without an error.
pub record Rendition : Type 0 where
  pub resolution : Option (ℕ × ℕ)
  pub framerate : ℕ
  pub framerate_den : ℕ

-- The frames per second; a framerate of 0 counts as 30, a denominator of 0 as 1.
abbrev pub rate_of : ℕ → ℕ → ℕ
rate_of framerate den = (if framerate == 0 then 30 else framerate) / (if den == 0 then 1 else den)

-- `calculateCost`
unfoldable pub calculate_cost : List Rendition → ℕ
calculate_cost [] = 0
calculate_cost (v ∷ vs) = elim v.resolution [
  | none ↦ calculate_cost vs
  | some (w, h) ↦ (w * h * rate_of v.framerate v.framerate_den + calculate_cost vs) % 2 ^ 64
]

-- An open session: its job, its transcoder and its estimated cost.
pub record TranscoderSession : Type 0 where
  pub job : ℕ
  pub transcoder : ℕ
  pub cost : ℕ

-- `LoadBalancingTranscoder`; a transcoder without a load has load 0, and each job has at most one
-- session.
pub record LoadBalancer : Type 0 where
  pub transcoders : List ℕ
  pub load : ℕ → ℕ
  pub sessions : List TranscoderSession
  pub idx : ℕ

-- `NewLoadBalancingTranscoder`
abbrev pub new_load_balancer : List ℕ → LoadBalancer
new_load_balancer devices = record { transcoders = devices; load = λ t. 0; sessions = []; idx = 0 }

abbrev pub find_session : ℕ → List TranscoderSession → Option TranscoderSession
find_session job [] = none
find_session job (s ∷ l) = if job == s.job then some s else find_session job l

abbrev pub delete_session : ℕ → List TranscoderSession → List TranscoderSession
delete_session job [] = []
delete_session job (s ∷ l) = if job == s.job then l else s ∷ delete_session job l

-- The transcoder at an index; out of range stands for a panic.
abbrev pub transcoder_at : LoadBalancer → ℕ → ℕ
transcoder_at lb k = get_or lb.transcoders k 0

abbrev pub max_int64 : ℕ
max_int64 = 2 ^ 63 - 1

-- The numbers of all words in the order of the ints that they stand for.
abbrev pub int_order : ℕ → ℕ
int_order w = (w + 2 ^ 63) % 2 ^ 64

-- A round of the loop of `leastLoaded`, from the least load so far and its index.
abbrev pub less_loaded : LoadBalancer → ℕ → ℕ × ℕ → ℕ × ℕ
less_loaded lb k (least, best) =
    let load = lb.load (transcoder_at lb k) in
    if ltb (int_order load) (int_order least) then (load, k) else (least, best)

-- The rest of the rounds, from `i` on.
unfoldable pub scan_loads : LoadBalancer → ℕ → ℕ → ℕ × ℕ → ℕ
scan_loads lb zero i found = found.1
scan_loads lb (suc n) i found =
    scan_loads lb n (i + 1) (less_loaded lb ((i + lb.idx) % length lb.transcoders) found)

-- `leastLoaded`
unfoldable pub least_loaded : LoadBalancer → ℕ
unfolding scan_loads
least_loaded lb = transcoder_at lb (scan_loads lb (length lb.transcoders) 0 (max_int64, 0))

-- `createSession`; `starts` tells whether the detector starts, where the job has one.
unfoldable pub create_session :
    ℕ → ℕ → Bool → LoadBalancer → Option TranscoderSession × LoadBalancer
unfolding least_loaded
create_session job cost starts lb =
    let t = least_loaded lb in
    let s : TranscoderSession = record { job = job; transcoder = t; cost = cost } in
    let opened : LoadBalancer = record lb {
      load = λ u. if u == t then (lb.load u + cost) % 2 ^ 64 else lb.load u;
      sessions = s ∷ lb.sessions;
      idx = (lb.idx + 1) % length lb.transcoders;
    } in
    let result : Option TranscoderSession × LoadBalancer =
      if starts then (some s, opened) else (none, lb) in
    elim (find_session job lb.sessions) [
      | some open_session ↦ (some open_session, lb)
      | none ↦ result
    ]

-- `cleanupSession` of the session of a job, when its loop has ended.
unfoldable pub cleanup_session : ℕ → LoadBalancer → LoadBalancer
cleanup_session job lb = elim (find_session job lb.sessions) [
  | none ↦ lb
  | some s ↦ record lb {
    load = λ u.
        if u == s.transcoder then (lb.load u + (2 ^ 64 - s.cost % 2 ^ 64)) % 2 ^ 64 else lb.load u;
    sessions = delete_session job lb.sessions;
  }
]
