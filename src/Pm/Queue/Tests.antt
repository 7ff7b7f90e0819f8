-- ===== src/Pm/Queue/Tests.antt =====
-- pm/queue.go at concrete inputs: the store is the list of the tickets that are not redeemed, and the
-- consumer is the sender monitor.
use livepeer.Pm.Sender.{SenderInfo}
use livepeer.Base.{
  zero, suc, ap, false, ℕ, ◌≡◌, refl, Bool, true, inl, inr, if◌then◌else◌, List, [], ◌∷◌, ◌++◌,
  none, some, length, arith,
}
use livepeer.Base.Int.{pos, ◌-ℤ◌, ◌+ℤ◌}
use livepeer.Base.Rat.{of_frac}
use livepeer.Base.Words.{int64_of_int}
use livepeer.Pm.Error.{ok, err, external, is_used_ticket}
use livepeer.Pm.Ticket.{SignedTicket}
use livepeer.Pm.Monitor.{Monitor, Chain, available_funds, add_float, sub_float}
use livepeer.Pm.Monitor.Redeem.{Broker, redeem_winning_ticket}
use livepeer.Pm.Queue.{
  TicketStore, Queue, Reply, answered, reply_of, is_settled, handle_block_event,
}
use livepeer.Pm.Queue.Redemptions.{QueueLaws, earliest}
use livepeer.Pm.Queue.Database.{Row, Table, db_tickets, db_tickets-QueueLaws, db_tickets-IsReliable}
use livepeer.Pm.Queue.Drain.{tickets_of, handle_block_event-drains}

abbrev ticket : ℕ → ℕ → SignedTicket
ticket nonce expiration = record {
  ticket = record {
    recipient = 11;
    sender = 22;
    face_value = 300;
    win_prob = 5;
    sender_nonce = nonce;
    recipient_rand_hash = 7;
    creation_round = pos 4;
    creation_round_block_hash = 9;
    params_expiration_block = expiration;
    price_per_pixel = of_frac 1 1;
  };
  sig = nonce ∷ [];
  recipient_rand = 8;
}

abbrev remove_first : List SignedTicket → List SignedTicket
remove_first [] = []
remove_first (t ∷ ts) = ts

-- The store marks a ticket only where the flag of the list allows it; marking is only asked for the
-- earliest ticket. A locked store fails to mark, and to tell who is active.
abbrev list_store : Bool → TicketStore (List SignedTicket)
list_store is_locked = record {
  select_earliest = λ sender min_round ts. ok (earliest ts);
  store_ticket = λ t ts. (none, ts ++ t ∷ []);
  mark_redeemed =
      λ t tx_hash ts. if is_locked then (some external, ts) else (none, remove_first ts);
  winning_ticket_count = λ sender min_round ts. ok (length ts);
  is_orch_active = λ addr round ts. if is_locked then err external else ok true;
}

unfoldable list_laws {κ} :
    {R : Type κ} (is_locked : Bool) (redeem : SignedTicket → R → Reply × R)
    → QueueLaws (list_store is_locked) redeem 22 (pos 4)
list_laws true redeem = record {
  view = λ ts. ts;
  is_active = λ addr. true;
  select = λ ts. inr refl;
  count = λ ts. inr refl;
  active = λ addr ts. inl (external, refl);
  mark = λ t tx_hash ts s e. inr (external, refl, e);
}
list_laws false redeem = record {
  view = λ ts. ts;
  is_active = λ addr. true;
  select = λ ts. inr refl;
  count = λ ts. inr refl;
  active = λ addr ts. inr refl;
  mark = λ t tx_hash ts s e. inl (refl, ap remove_first e);
}

abbrev info : SenderInfo
info = record {
  deposit = 1000;
  withdraw_round = 0;
  reserve = record { funds_remaining = pos 400; claimed_in_current_round = 100 };
}

abbrev chain : Chain
chain = record {
  sender_info = λ s. ok info;
  claimed_reserve = λ s. ok 20;
  pool_size = 5;
  last_initialized_round = pos 4;
}

abbrev broker : Broker
broker = record { is_used = ok false; gas_price = ok 1; redeem = ok 77; check_tx = none }

abbrev monitor : Monitor
monitor = record { senders = λ s. none; cfg = record { ttl = 60; redeem_gas = 10 }; announced = [] }

abbrev by_monitor : SignedTicket → Monitor → Reply × Monitor
by_monitor t m = let (r, m') = redeem_winning_ticket chain broker 5 6 t m in (reply_of r.0 r.1, m')

abbrev waiting : Queue (List SignedTicket) Monitor
waiting = record {
  tickets = ticket 1 10 ∷ ticket 2 12 ∷ ticket 3 30 ∷ [];
  consumer = monitor;
  sent = [];
}

-- The first two tickets are redeemed, the third one is not due.
redeems_two :
    (handle_block_event (list_store false) by_monitor 22 (pos 4) 12 waiting).tickets
    ≡ ticket 3 30 ∷ []
unfolding handle_block_event redeem_winning_ticket available_funds add_float sub_float ◌-ℤ◌ ◌+ℤ◌
redeems_two = refl

-- A locked store keeps the first ticket, which is redeemed in each round.
keeps_all :
    (handle_block_event (list_store true) by_monitor 22 (pos 4) 12 waiting).tickets
    ≡ waiting.tickets
unfolding handle_block_event redeem_winning_ticket available_funds add_float sub_float ◌-ℤ◌ ◌+ℤ◌
keeps_all = refl

-- A consumer that counts: the first ticket was used before, the others are redeemed.
abbrev counting : SignedTicket → ℕ → Reply × ℕ
counting t zero = (answered 0 (some is_used_ticket), 1)
counting t (suc c) = (answered 77 none, suc (suc c))

counting-settles : (t : SignedTicket) (c : ℕ) → is_settled (counting t c).0 ≡ true
counting-settles t zero = refl
counting-settles t (suc c) = refl

abbrev row : ℕ → ℕ → Row
row nonce expiration = record { ticket = ticket nonce expiration; is_redeemed = false }

-- The database with two tickets of the sender; every recipient is active.
abbrev table : Table
table = record { rows = row 1 10 ∷ row 2 12 ∷ []; keys = ((refl, tt), (tt, tt)) }

abbrev node_store : TicketStore Table
node_store = db_tickets (λ addr round. true)

abbrev node_laws : QueueLaws node_store counting 22 (pos 4)
node_laws = db_tickets-QueueLaws (λ addr round. true) counting 22 (pos 4)

abbrev due : Queue Table ℕ
due = record { tickets = table; consumer = 0; sent = [] }

handle_block_event-drains_example :
    let q' = handle_block_event node_store counting 22 (pos 4) 12 due in
    (node_laws.view q'.tickets ≡ [])
    × (tickets_of q'.sent ≡ tickets_of due.sent ++ node_laws.view due.tickets)
unfolding db_tickets-QueueLaws int64_of_int ◌-ℤ◌
handle_block_event-drains_example =
    handle_block_event-drains node_store counting 22 (pos 4) node_laws 12
      (db_tickets-IsReliable (λ addr round. true) counting 22 (pos 4) 12) due
      (refl, omega arith, (refl, omega arith, tt)) counting-settles
