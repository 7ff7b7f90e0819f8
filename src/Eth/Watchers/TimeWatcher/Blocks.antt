-- ===== src/Eth/Watchers/TimeWatcher/Blocks.antt =====
-- eth/watchers/timewatcher.go: which L1 blocks are announced.
use livepeer.Base.{
  ℕ, ◌≡◌, ◌≢◌, refl, ap, sym, ◌∙◌, subst, Bool, true, false, ◌||◌, List, [], ◌∷◌, ◌++◌, Option,
  none, some, some_inj, ==_iff, Bool-cases, Option-cases, inl, inr, arith,
}
use mathlib.Core.List.{append_assoc, append-nil}
use livepeer.Eth.Watchers.TimeWatcher.{
  TimeWatcher, LivepeerEthClient, RoundLog, new_round, undecodable, another_event, no_event,
  BlockLog, BlockEvent, same_block, handle_l1_block_num, announce_round, reload_round, handle_log,
  handle_logs, handle_block_events, set_last_initialized_round,
}

-- The last of the numbers after what was seen before.
abbrev pub last_number : Option ℕ → List ℕ → Option ℕ
last_number seen [] = seen
last_number seen (n ∷ l) = last_number (some n) l

-- No number is the one before it.
abbrev pub IsNews : Option ℕ → List ℕ → Type 0
IsNews seen [] = Unit
IsNews seen (n ∷ l) = (seen ≢ some n) × IsNews (some n) l

-- The L1 numbers of the events.
abbrev pub numbers_of : List BlockEvent → List ℕ
numbers_of [] = []
numbers_of (e ∷ l) = elim e.l1_block_number [ none ↦ numbers_of l | some n ↦ n ∷ numbers_of l ]

-- Blocks as they were before a call.
abbrev pub HasBlocks : TimeWatcher → TimeWatcher → Type 0
HasBlocks w w' =
    (w'.last_seen_l1_block ≡ w.last_seen_l1_block) × (w'.l1_block_feed ≡ w.l1_block_feed)

announce_round-HasBlocks :
    (c : LivepeerEthClient) (log : RoundLog) (w : TimeWatcher)
    → HasBlocks w (announce_round c log w).1
unfolding announce_round
announce_round-HasBlocks c log w = elim (Option-cases c.get_transcoder_pool_size) [
  | inl failed ↦ rw (announce_round, failed) (refl, refl)
  | inr (size, e) ↦ rw (announce_round, e) (refl, refl)
]

reload_round-HasBlocks :
    (c : LivepeerEthClient) (start_blk : ℕ) (log : RoundLog) (w : TimeWatcher)
    → HasBlocks w (reload_round c start_blk log w).1
unfolding reload_round
reload_round-HasBlocks c start_blk log w = elim (Option-cases c.last_initialized_round) [
  | inl failed ↦ rw (reload_round, failed) (refl, refl)
  | inr (lr, e) ↦ elim (Option-cases (c.block_hash_for_round lr)) [
    | inl failed ↦ rw (reload_round, e, failed) (refl, refl)
    | inr (bh, e') ↦
        rw (reload_round, e, e')
          (announce_round-HasBlocks c log (set_last_initialized_round lr bh start_blk w))
  ]
]

handle_log-HasBlocks :
    (c : LivepeerEthClient) (removed : Bool) (log : RoundLog) (w : TimeWatcher)
    → HasBlocks w (handle_log c removed log w).1
unfolding handle_log
handle_log-HasBlocks c removed no_event w = (refl, refl)
handle_log-HasBlocks c removed another_event w = (refl, refl)
handle_log-HasBlocks c removed undecodable w = (refl, refl)
handle_log-HasBlocks c removed (new_round round hash) w =
    elim (Option-cases c.current_round_start_block) [
      | inl failed ↦ rw (handle_log, failed) (refl, refl)
      | inr (start_blk, e) ↦ elim (Bool-cases removed) [
        | inl gone ↦
            rw (handle_log, e, gone) (reload_round-HasBlocks c start_blk (new_round round hash) w)
        | inr here ↦
            rw (handle_log, e, here)
              (announce_round-HasBlocks c (new_round round hash)
                (set_last_initialized_round round hash start_blk w))
      ]
    ]

handle_logs-HasBlocks :
    (removed : Bool) (logs : List BlockLog) (w : TimeWatcher)
    → HasBlocks w (handle_logs removed logs w)
unfolding handle_logs
handle_logs-HasBlocks removed [] w = (refl, refl)
handle_logs-HasBlocks removed (l ∷ logs) w =
    let one = handle_log-HasBlocks l.client (removed || l.is_removed) l.log w in
    let rest =
      handle_logs-HasBlocks removed logs
        (handle_log l.client (removed || l.is_removed) l.log w).1 in
    (rest.0 ∙ one.0, rest.1 ∙ one.1)

IsNews-append :
    (seen : Option ℕ) (l m : List ℕ)
    → IsNews seen l
    → IsNews (last_number seen l) m
    → IsNews seen (l ++ m)
IsNews-append seen [] m h h' = h'
IsNews-append seen (n ∷ l) m h h' = (h.0, IsNews-append (some n) l m h.1 h')

last_number-append :
    (seen : Option ℕ) (l m : List ℕ)
    → last_number seen (l ++ m) ≡ last_number (last_number seen l) m
last_number-append seen [] m = refl
last_number-append seen (n ∷ l) m = last_number-append (some n) l m

-- What was announced between two states: each change of the last block that was seen, once.
pub record IsAnnounced (w w' : TimeWatcher) : Type 0 where
  pub sent : List ℕ
  pub feed : w'.l1_block_feed ≡ w.l1_block_feed ++ sent
  pub news : IsNews w.last_seen_l1_block sent
  pub last : last_number w.last_seen_l1_block sent ≡ w'.last_seen_l1_block

blocks-IsAnnounced : (w w' : TimeWatcher) → HasBlocks w w' → IsAnnounced w w'
blocks-IsAnnounced w w' same = record {
  sent = [];
  feed = same.1 ∙ sym (append-nil w.l1_block_feed);
  news = tt;
  last = sym same.0;
}

then-IsAnnounced :
    (w w' w'' : TimeWatcher) → IsAnnounced w w' → IsAnnounced w' w'' → IsAnnounced w w''
then-IsAnnounced w w' w'' a b = record {
  sent = a.sent ++ b.sent;
  feed = b.feed ∙ ap (λ l. l ++ b.sent) a.feed ∙ append_assoc w.l1_block_feed a.sent b.sent;
  news =
      IsNews-append w.last_seen_l1_block a.sent b.sent a.news
        (subst (λ seen. IsNews seen b.sent) (sym a.last) b.news);
  last =
      last_number-append w.last_seen_l1_block a.sent b.sent
      ∙ ap (λ seen. last_number seen b.sent) a.last
      ∙ b.last;
}

same_block_iff : (seen : Option ℕ) (n : ℕ) → same_block seen n ≡ true → seen ≡ some n
same_block_iff none n e = ground (arith, e)
same_block_iff (some m) n e = ap some ((==_iff m n).0 e)

other_block : (seen : Option ℕ) (n : ℕ) → same_block seen n ≡ false → seen ≢ some n
other_block none n e h = ground (arith, h)
other_block (some m) n e h = let same = some_inj.0 h in ground (arith, e, same)

handle_l1_block_num-IsAnnounced :
    (number : Option ℕ) (w : TimeWatcher)
    → IsAnnounced w (handle_l1_block_num number w)
      × ((n : ℕ) → number ≡ some n → (handle_l1_block_num number w).last_seen_l1_block ≡ some n)
unfolding handle_l1_block_num
handle_l1_block_num-IsAnnounced none w =
    (blocks-IsAnnounced w w (refl, refl), λ n e. absurd (ground (arith, e)))
handle_l1_block_num-IsAnnounced (some n) w = elim (Bool-cases (same_block w.last_seen_l1_block n)) [
  | inl same ↦
      rw (handle_l1_block_num, same)
        (blocks-IsAnnounced w w (refl, refl), λ m e. same_block_iff w.last_seen_l1_block n same ∙ e)
  | inr other ↦
      rw (handle_l1_block_num, other)
        (
          record {
            sent = n ∷ [];
            feed = refl;
            news = (other_block w.last_seen_l1_block n other, tt);
            last = refl;
          },
          λ m e. e,
        )
]

seen_after :
    (number : Option ℕ) (w : TimeWatcher) (events : List BlockEvent)
    → last_number (handle_l1_block_num number w).last_seen_l1_block (numbers_of events)
      ≡ last_number w.last_seen_l1_block
          (elim number [ none ↦ numbers_of events | some n ↦ n ∷ numbers_of events ])
unfolding handle_l1_block_num
seen_after none w events = refl
seen_after (some n) w events =
    ap (λ seen. last_number seen (numbers_of events))
      ((handle_l1_block_num-IsAnnounced (some n) w).1 n refl)

-- Whatever logs the events of the block watcher carry, and whatever the client answers, the L1 blocks
-- that are announced while they are handled are exactly the changes of the last block seen: none
-- equals the one before it, and the last one is the block that is cached then, which is that
-- of the last event with an L1 number.
pub handle_block_events-IsAnnounced :
    (events : List BlockEvent) (w : TimeWatcher)
    → IsAnnounced w (handle_block_events events w)
      × ((handle_block_events events w).last_seen_l1_block
          ≡ last_number w.last_seen_l1_block (numbers_of events))
unfolding handle_block_events
handle_block_events-IsAnnounced [] w = (blocks-IsAnnounced w w (refl, refl), refl)
handle_block_events-IsAnnounced (e ∷ events) w =
    let w1 = handle_l1_block_num e.l1_block_number w in
    let w2 = handle_logs e.is_removed e.logs w1 in
    let same = handle_logs-HasBlocks e.is_removed e.logs w1 in
    let rest = handle_block_events-IsAnnounced events w2 in
    (
      then-IsAnnounced w w1 _ (handle_l1_block_num-IsAnnounced e.l1_block_number w).0
          (then-IsAnnounced w1 w2 _ (blocks-IsAnnounced w1 w2 same) rest.0),
      rest.1
          ∙ ap (λ seen. last_number seen (numbers_of events)) same.0
          ∙ seen_after e.l1_block_number w events,
    )
