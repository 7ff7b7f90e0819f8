-- ===== src/Eth/Watchers/TimeWatcher/Tests.antt =====
-- eth/watchers/timewatcher.go at concrete inputs.
use livepeer.Base.{ℕ, ◌+◌, ◌≡◌, refl, false, List, [], ◌∷◌, Option, none, some}
use livepeer.Eth.Watchers.TimeWatcher.{
  TimeWatcher, LivepeerEthClient, BlockEvent, new_round, time_watcher, new_time_watcher,
  handle_block_events,
}
use livepeer.Eth.Watchers.TimeWatcher.Blocks.{
  IsAnnounced, last_number, numbers_of, handle_block_events-IsAnnounced,
}

abbrev client : LivepeerEthClient
client = record {
  last_initialized_round = some 6;
  block_hash_for_round = λ round. some (round + 70);
  current_round_start_block = some 100;
  get_transcoder_pool_size = some 3;
}

abbrev watcher : TimeWatcher
watcher = time_watcher 6 76 100 (some (some 104)) 3

created : new_time_watcher client (some (some (some 104))) ≡ some watcher
unfolding new_time_watcher
created = refl

abbrev event : Option ℕ → BlockEvent
event n = record {
  is_removed = false;
  l1_block_number = n;
  logs = record { log = new_round 7 77; is_removed = false; client = client } ∷ [];
}

abbrev events : List BlockEvent
events = event (some 104) ∷ event (some 105) ∷ event none ∷ event (some 105) ∷ []

announced_once : (handle_block_events events watcher).l1_block_feed ≡ 105 ∷ []
unfolding handle_block_events
announced_once = refl

handle_block_events-IsAnnounced_example :
    IsAnnounced watcher (handle_block_events events watcher)
    × ((handle_block_events events watcher).last_seen_l1_block
        ≡ last_number watcher.last_seen_l1_block (numbers_of events))
handle_block_events-IsAnnounced_example = handle_block_events-IsAnnounced events watcher
