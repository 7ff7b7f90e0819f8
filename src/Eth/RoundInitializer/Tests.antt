-- ===== src/Eth/RoundInitializer/Tests.antt =====
-- eth/roundinitializer.go at concrete inputs.
use livepeer.Base.{ℕ, ◌≡◌, ◌≢◌, ◌↔◌, refl, true, [], ◌∷◌, some, get_elem?, arith}
use livepeer.Crypto.Sample.{sample}
use livepeer.Eth.Watchers.TimeWatcher.{TimeWatcher, time_watcher}
use livepeer.Eth.RoundInitializer.{Client, skipped, rank_of, epoch_num, try_initialize}
use livepeer.Eth.RoundInitializer.Chosen.{try_initialize-one}

abbrev watcher : TimeWatcher
watcher = time_watcher 4 77 100 (some (some 118)) 3

abbrev client : Client
client = record {
  transcoder_pool = some (11 ∷ 12 ∷ 13 ∷ []);
  initialize_round = true;
  check_tx = true;
}

second_rank : rank_of 12 (11 ∷ 12 ∷ 13 ∷ []) ≡ some 1
second_rank = refl

-- The third epoch, and an L1 block before the start of the round.
third_epoch : epoch_num 118 105 ≡ 2
third_epoch = refl

early_epoch : epoch_num 104 105 ≡ 1
early_epoch = refl

try_initialize-one_example :
    (a : ℕ) × (i : ℕ) × (get_elem? (11 ∷ 12 ∷ 13 ∷ []) i ≡ some a)
    × ((caller : ℕ) → (try_initialize sample client caller watcher 105 ≢ skipped) ↔ (caller ≡ a))
try_initialize-one_example =
    try_initialize-one sample client watcher 105 118 11 (12 ∷ 13 ∷ []) refl refl
      ((ground arith, (ground arith, tt)), ((ground arith, tt), (tt, tt)))
