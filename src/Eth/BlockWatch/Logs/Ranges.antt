-- ===== src/Eth/BlockWatch/Logs/Ranges.antt =====
-- eth/blockwatch/block_watcher.go: the ranges of the requests.
use native.Mathlib.Nat.{div-add-mod, mod-lt, mul-le-mul_right, mul_comm}
use livepeer.Base.{
  ℕ, zero, suc, ◌+◌, ◌-◌, ◌*◌, ◌/◌, ◌%◌, ◌≤◌, ◌<◌, ◌≡◌, List, [], ◌∷◌, arith, ltb, if◌then◌else◌,
  Bool-cases, inl, inr, subst, refl,
}
use livepeer.Eth.BlockWatch.Logs.{BlockRange, min, sub_ranges, get_sub_block_ranges}

-- The ranges follow on one another from `start` to before `stop`, each with one to `size` blocks.
abbrev pub IsPartition : ℕ → ℕ → List BlockRange → ℕ → Type 0
IsPartition size start [] stop = start ≡ stop
IsPartition size start (r ∷ ranges) stop =
    (r.from_block ≡ start)
    × (r.from_block ≤ r.to_block)
    × (r.to_block + 1 ≤ r.from_block + size)
    × IsPartition size (r.to_block + 1) ranges stop

suc_mul : (i size : ℕ) → (i + 1) * size ≡ i * size + size
suc_mul i size = grind arith

sub_ranges-IsPartition :
    (from size len c i k : ℕ)
    → 0 < size
    → len ≤ c * size
    → (c - 1) * size < len
    → i + k ≡ c
    → IsPartition size (from + min (i * size) len) (sub_ranges from size len i k) (from + len)
unfolding sub_ranges
sub_ranges-IsPartition from size len c i zero pos above below e =
    let same : i ≡ c = omega arith in rw same (ground arith)
sub_ranges-IsPartition from size len c i (suc k) pos above below e =
    let bound : i * size ≤ (c - 1) * size = mul-le-mul_right size (omega arith) in
    let next = sub_ranges-IsPartition from size len c (i + 1) k pos above below (omega arith) in
    let shift : from + min ((i + 1) * size) len ≡ from + (min (i * size + size) len - 1) + 1 =
      ground (arith, suc_mul i size) in
    (
      ground arith,
      ground arith,
      ground arith,
      subst (λ start. IsPartition size start (sub_ranges from size len (i + 1) k) (from + len))
          shift next,
    )

less : (q size len : ℕ) → 0 < size → 0 < len → len ≡ q * size → (q - 1) * size < len
less zero size len pos some_block e = grind arith
less (suc q) size len pos some_block e =
    let step : suc q * size ≡ q * size + size = grind arith in
    let back : suc q - 1 ≡ q = omega arith in rw (back) (omega arith)

chunk_count :
    (len size : ℕ)
    → 0 < size
    → 0 < len
    → let c = if ltb 0 (len % size) then len / size + 1 else len / size in
      (len ≤ c * size) × ((c - 1) * size < len)
chunk_count len size pos some_block = elim (Bool-cases (ltb 0 (len % size))) [
  | inl h ↦
      let whole = div-add-mod len size in
      let part = mod-lt len pos in
      let add = suc_mul (len / size) size in
      let comm = mul_comm size (len / size) in
      let back : len / size + 1 - 1 ≡ len / size = omega arith in
      let positive : 0 < len % size = ground arith in rw (h, back) (omega arith, omega arith)
  | inr h ↦
      let whole = div-add-mod len size in
      let comm = mul_comm size (len / size) in
      let none_left : len % size ≡ 0 = ground arith in
      rw (h) (omega arith, less (len / size) size len pos some_block (omega arith))
]

-- For a range that does not end before it starts, the ranges of the requests follow on one another,
-- from its first block to its last, and have at most the given number of blocks each.
pub get_sub_block_ranges-IsPartition :
    (from to size : ℕ)
    → 0 < size
    → from ≤ to
    → IsPartition size from (get_sub_block_ranges from to size) (to + 1)
unfolding get_sub_block_ranges
get_sub_block_ranges-IsPartition from to size pos h =
    let len = to - from + 1 in
    let c = if ltb 0 (len % size) then len / size + 1 else len / size in
    elim (Bool-cases (ltb (to - from) size)) [
      | inl short ↦ rw (short) (refl, h, ground arith, refl)
      | inr long ↦
          let count = chunk_count len size pos (omega arith) in
          let all = sub_ranges-IsPartition from size len c 0 c pos count.0 count.1 (omega arith) in
          let start : from + min (0 * size) len ≡ from = ground arith in
          let stop : from + len ≡ to + 1 = omega arith in rw (long) (rw (start, stop) at all)
    ]
