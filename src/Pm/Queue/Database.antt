-- ===== src/Pm/Queue/Database.antt =====
-- common/db.go: the table of the winning tickets, in the order of their insertion. SQLite itself is taken
-- to execute every statement; the signature is the primary key. The orchestrators that are active in a
-- round are in another table, which is a parameter.
use livepeer.Base.{
  ℕ, ◌≡◌, refl, ap, ◌∙◌, subst, Bool, true, false, not, ◌&&◌, ◌||◌, List, [], ◌∷◌, ◌++◌, none, some,
  ◌==◌, if◌then◌else◌, length, Bool-cases, inl, inr, arith,
}
use livepeer.Base.Int.{ℤ, leb_ℤ}
use livepeer.Base.Rat.{zero_rat}
use livepeer.Pm.Error.{ok, external}
use livepeer.Pm.Ticket.{SignedTicket}
use livepeer.Pm.Queue.{TicketStore, Reply, min_creation_round}
use livepeer.Pm.Queue.Drain.{IsReliable}
use livepeer.Pm.Queue.Redemptions.{earliest, QueueLaws}

abbrev sig_eq : List ℕ → List ℕ → Bool
sig_eq [] [] = true
sig_eq [] (b ∷ m) = false
sig_eq (a ∷ l) [] = false
sig_eq (a ∷ l) (b ∷ m) = a == b && sig_eq l m

sig_eq_self : (s : List ℕ) → sig_eq s s ≡ true
sig_eq_self [] = refl
sig_eq_self (a ∷ l) = ground (arith, sig_eq_self l)

-- A row of `ticketQueue`; `is_redeemed` is that `redeemedAt` and `txHash` are set.
pub record Row : Type 0 where
  pub ticket : SignedTicket
  pub is_redeemed : Bool

abbrev pub IsNewSig : List ℕ → List Row → Type 0
IsNewSig s [] = Unit
IsNewSig s (r ∷ rows) = (sig_eq r.ticket.sig s ≡ false) × IsNewSig s rows

abbrev pub HasKeys : List Row → Type 0
HasKeys [] = Unit
HasKeys (r ∷ rows) = IsNewSig r.ticket.sig rows × HasKeys rows

abbrev pub has_sig : List ℕ → List Row → Bool
has_sig s [] = false
has_sig s (r ∷ rows) = sig_eq r.ticket.sig s || has_sig s rows

-- The statement `markWinningTicketRedeemed`
abbrev mark_row : List ℕ → Row → Row
mark_row s r = record r { is_redeemed = r.is_redeemed || sig_eq r.ticket.sig s }

abbrev mark_rows : List ℕ → List Row → List Row
mark_rows s [] = []
mark_rows s (r ∷ rows) = mark_row s r ∷ mark_rows s rows

-- What the statement `insertWinningTicket` keeps of a ticket: there is no column for the price.
abbrev new_row : SignedTicket → Row
new_row t = record {
  ticket = record t { ticket = record t.ticket { price_per_pixel = zero_rat } };
  is_redeemed = false;
}

-- The condition of the statements `selectEarliestWinningTicket` and `winningTicketCount`
abbrev is_waiting : ℕ → ℤ → Row → Bool
is_waiting sender min_round r =
    not r.is_redeemed
    && (r.ticket.ticket.sender == sender && leb_ℤ min_round r.ticket.ticket.creation_round)

abbrev pub waiting_tickets : ℕ → ℤ → List Row → List SignedTicket
waiting_tickets sender min_round [] = []
waiting_tickets sender min_round (r ∷ rows) =
    let rest = waiting_tickets sender min_round rows in
    if is_waiting sender min_round r then r.ticket ∷ rest else rest

IsNewSig-mark_rows :
    (s s' : List ℕ) (rows : List Row) → IsNewSig s rows → IsNewSig s (mark_rows s' rows)
IsNewSig-mark_rows s s' [] h = tt
IsNewSig-mark_rows s s' (r ∷ rows) (h, later) = (h, IsNewSig-mark_rows s s' rows later)

pub HasKeys-mark_rows : (s : List ℕ) (rows : List Row) → HasKeys rows → HasKeys (mark_rows s rows)
HasKeys-mark_rows s [] h = tt
HasKeys-mark_rows s (r ∷ rows) (h, later) =
    (IsNewSig-mark_rows r.ticket.sig s rows h, HasKeys-mark_rows s rows later)

sig_eq_sym : (a b : List ℕ) → sig_eq a b ≡ sig_eq b a
sig_eq_sym [] [] = refl
sig_eq_sym [] (b ∷ m) = refl
sig_eq_sym (a ∷ l) [] = refl
sig_eq_sym (a ∷ l) (b ∷ m) = ground (arith, sig_eq_sym l m)

IsNewSig-append :
    (s : List ℕ) (t : SignedTicket) (rows : List Row)
    → IsNewSig s rows
    → sig_eq t.sig s ≡ false
    → IsNewSig s (rows ++ new_row t ∷ [])
IsNewSig-append s t [] h new = (new, tt)
IsNewSig-append s t (r ∷ rows) (h, later) new = (h, IsNewSig-append s t rows later new)

pub HasKeys-append :
    (t : SignedTicket) (rows : List Row)
    → HasKeys rows
    → has_sig t.sig rows ≡ false
    → HasKeys (rows ++ new_row t ∷ [])
HasKeys-append t [] h new = (tt, tt)
HasKeys-append t (r ∷ rows) (h, later) new = (
  IsNewSig-append r.ticket.sig t rows h (sig_eq_sym t.sig r.ticket.sig ∙ ground (arith, new)),
  HasKeys-append t rows later (ground (arith, new)),
)

-- The table with its primary key.
pub record Table : Type 0 where
  pub rows : List Row
  pub keys : HasKeys rows

-- `StoreWinningTicket`, where a signature that is there already is an error.
abbrev inserted : (t : SignedTicket) (s : Table) (b : Bool) → has_sig t.sig s.rows ≡ b → Table
inserted t s true e = s
inserted t s false e = record {
  rows = s.rows ++ new_row t ∷ [];
  keys = HasKeys-append t s.rows s.keys e;
}

-- `MarkWinningTicketRedeemed`
abbrev marked : SignedTicket → Table → Table
marked t s = record { rows = mark_rows t.sig s.rows; keys = HasKeys-mark_rows t.sig s.rows s.keys }

module _ (is_active : ℕ → ℤ → Bool) where
  -- The ticket store of the node.
  unfoldable pub db_tickets : TicketStore Table
  db_tickets = record {
    select_earliest = λ sender min_round s. ok (earliest (waiting_tickets sender min_round s.rows));
    store_ticket = λ t s. (
      if has_sig t.sig s.rows then some external else none,
      inserted t s (has_sig t.sig s.rows) refl,
    );
    mark_redeemed =
        λ t tx_hash s. (if has_sig t.sig s.rows then none else some external, marked t s);
    winning_ticket_count =
        λ sender min_round s. ok (length (waiting_tickets sender min_round s.rows));
    is_orch_active = λ addr round s. ok (is_active addr round);
  }

cons_head : (a b : SignedTicket) (l m : List SignedTicket) → a ∷ l ≡ b ∷ m → a ≡ b
cons_head a b l m e = ap (λ o. elim o [ [] ↦ a | x ∷ _ ↦ x ]) e

cons_tail : (a b : SignedTicket) (l m : List SignedTicket) → a ∷ l ≡ b ∷ m → l ≡ m
cons_tail a b l m e = ap (λ o. elim o [ [] ↦ l | _ ∷ x ↦ x ]) e

module _ (sender : ℕ) (min_round : ℤ) where
  unmarked :
      (s : List ℕ) (r : Row)
      → sig_eq r.ticket.sig s ≡ false
      → is_waiting sender min_round (mark_row s r) ≡ is_waiting sender min_round r
  unmarked s r h = elim (Bool-cases r.is_redeemed) [
    | inl redeemed ↦ rw (redeemed)
    | inr open_row ↦ rw (open_row, h)
  ]

  redeemed_row :
      (s : List ℕ) (r : Row)
      → sig_eq r.ticket.sig s ≡ true
      → is_waiting sender min_round (mark_row s r) ≡ false
  redeemed_row s r h = elim (Bool-cases r.is_redeemed) [
    | inl redeemed ↦ rw (redeemed)
    | inr open_row ↦ rw (open_row, h)
  ]

  still_idle :
      (s : List ℕ) (r : Row)
      → is_waiting sender min_round r ≡ false
      → is_waiting sender min_round (mark_row s r) ≡ false
  still_idle s r h = elim (Bool-cases (sig_eq r.ticket.sig s)) [
    | inl same ↦ redeemed_row s r same
    | inr other ↦ unmarked s r other ∙ h
  ]

  -- Marking a signature that no row has changes no row.
  waiting_tickets-mark_rows :
      (s : List ℕ) (rows : List Row)
      → IsNewSig s rows
      → waiting_tickets sender min_round (mark_rows s rows) ≡ waiting_tickets sender min_round rows
  waiting_tickets-mark_rows s [] h = refl
  waiting_tickets-mark_rows s (r ∷ rows) (h, later) =
      rw (unmarked s r h, waiting_tickets-mark_rows s rows later) refl

  -- The first waiting ticket has a row, and it alone does not wait after it is marked.
  pub mark_rows-first :
      (rows : List Row) (t : SignedTicket) (ts : List SignedTicket)
      → HasKeys rows
      → waiting_tickets sender min_round rows ≡ t ∷ ts
      → (has_sig t.sig rows ≡ true) × (waiting_tickets sender min_round (mark_rows t.sig rows) ≡ ts)
  mark_rows-first [] t ts keys e = absurd (ground (arith, e))
  mark_rows-first (r ∷ rows) t ts (new, keys) e =
      elim (Bool-cases (is_waiting sender min_round r)) [
        | inl waits ↦
            let here : r.ticket ∷ waiting_tickets sender min_round rows ≡ t ∷ ts =
              rw (waits) at e in
            let same : r.ticket ≡ t = cons_head _ _ _ _ here in
            let rest = cons_tail _ _ _ _ here in
            let key : sig_eq r.ticket.sig t.sig ≡ true =
              subst (λ x. sig_eq r.ticket.sig x.sig ≡ true) same (sig_eq_self r.ticket.sig) in
            let fresh : IsNewSig t.sig rows = subst (λ x. IsNewSig x.sig rows) same new in
            (
              rw (key),
              rw (redeemed_row t.sig r key) (waiting_tickets-mark_rows t.sig rows fresh ∙ rest),
            )
        | inr idle ↦
            let later : waiting_tickets sender min_round rows ≡ t ∷ ts = rw (idle) at e in
            let (found, left) = mark_rows-first rows t ts keys later in
            (ground (arith, found), rw (still_idle t.sig r idle) left)
      ]

module _ {κ} {R : Type κ} (is_active : ℕ → ℤ → Bool) (redeem : SignedTicket → R → Reply × R)
    (sender : ℕ) (last_round : ℤ) where
  abbrev min_round_of : ℤ
  min_round_of = min_creation_round (db_tickets is_active) redeem sender last_round

  -- The node's store of tickets does what the queue relies on.
  unfoldable pub db_tickets-QueueLaws : QueueLaws (db_tickets is_active) redeem sender last_round
  unfolding db_tickets
  db_tickets-QueueLaws = record {
    view = λ s. waiting_tickets sender min_round_of s.rows;
    is_active = λ addr. is_active addr last_round;
    select = λ s. inr refl;
    count = λ s. inr refl;
    active = λ addr s. inr refl;
    mark = λ t tx_hash ts s e.
        let (found, left) = mark_rows-first sender min_round_of s.rows t ts s.keys e in
        inl (rw (found) refl, left);
  }

  -- It does not fail for a ticket that it has.
  pub db_tickets-IsReliable :
      (latest_block : ℕ)
      → IsReliable (db_tickets is_active) redeem sender last_round db_tickets-QueueLaws latest_block
  unfolding db_tickets-QueueLaws db_tickets
  db_tickets-IsReliable latest_block = record {
    selects = λ s. refl;
    counts = λ s. refl;
    marks = λ t tx_hash ts s e.
        let (found, left) = mark_rows-first sender min_round_of s.rows t ts s.keys e in
        rw (found) refl;
  }
