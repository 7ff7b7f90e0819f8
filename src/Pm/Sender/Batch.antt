-- ===== src/Pm/Sender/Batch.antt =====
-- pm/sender.go: a batch has one signed ticket for each consecutive nonce.
use livepeer.Base.{
  ℕ, zero, suc, ◌+◌, ◌^◌, ◌≤◌, ◌<◌, ◌≡◌, ap, refl, List, [], ◌∷◌, none, some, arith, count_from,
}
use livepeer.Base.Maps.{insert, nat_eq}
use livepeer.Base.Words.{incr32}
use livepeer.Crypto.{Crypto}
use livepeer.Pm.Error.{Result, ok, err}
use livepeer.Pm.Ticket.{
  TicketParams, TicketExpirationParams, TicketSenderParams, TicketBatch, new_ticket, hash,
}
use livepeer.Pm.Recipient.{TimeInfo}
use livepeer.Pm.Sender.{
  Sender, SenderInfo, Session, add_ticket, sign_tickets, create_ticket_batch,
  validate_ticket_params, batch_expiration_params,
}

abbrev pub nonces : List TicketSenderParams → List ℕ
nonces [] = []
nonces (p ∷ ps) = p.sender_nonce ∷ nonces ps

incr32_small : (n : ℕ) → n + 1 < 2 ^ 32 → incr32 n ≡ n + 1
unfolding incr32
incr32_small n h = omega arith

module _ (c : Crypto) (sign : List ℕ → Result (List ℕ)) (params : TicketParams)
    (expiration : TicketExpirationParams) (sender : ℕ) where
  -- Every entry has the signer's signature over the hash of its ticket.
  abbrev pub AllSigned : List TicketSenderParams → Type 0
  AllSigned [] = Unit {0}
  AllSigned (p ∷ ps) =
      (sign (c.hash_bytes (hash c (new_ticket params expiration sender p.sender_nonce))) ≡ ok p.sig)
      × AllSigned ps

  -- What signing k tickets from a nonce on gives, where nothing fails.
  abbrev IsSigned : ℕ → ℕ → Result (List TicketSenderParams) × ℕ → Type 0
  IsSigned k n (ok ps, final) = (nonces ps ≡ count_from k (n + 1)) × AllSigned ps × (final ≡ n + k)
  IsSigned k n (err e, final) = (n < final) × (final ≤ n + k)

  add_ticket-IsSigned :
      (k n : ℕ) (r : Result (List ℕ)) (rest : Result (List TicketSenderParams) × ℕ)
      → sign (c.hash_bytes (hash c (new_ticket params expiration sender (n + 1)))) ≡ r
      → IsSigned k (n + 1) rest
      → IsSigned (suc k) n (add_ticket (n + 1) r rest)
  unfolding add_ticket
  add_ticket-IsSigned k n (err e) rest s h = (omega arith, omega arith)
  add_ticket-IsSigned k n (ok sig) (ok ps, final) s h =
      (ap (◌∷◌ (n + 1)) h.0, (s, h.1), omega (arith, h.2))
  add_ticket-IsSigned k n (ok sig) (err e, final) s h = (omega (arith, h.0), omega (arith, h.1))

  sign_tickets-IsSigned :
      (k n : ℕ) → n + k < 2 ^ 32 → IsSigned k n (sign_tickets c sign params expiration sender k n)
  unfolding sign_tickets
  sign_tickets-IsSigned zero n h = (refl, tt, omega arith)
  sign_tickets-IsSigned (suc k) n h = rw (incr32_small n (omega arith)) (
      add_ticket-IsSigned k n _ (sign_tickets c sign params expiration sender k (n + 1)) refl
        (sign_tickets-IsSigned k (n + 1) (omega arith)))

-- The entry for a nonce, where the signer answers every request.
abbrev pub entry :
    Crypto → (List ℕ → List ℕ) → TicketParams → TicketExpirationParams → ℕ → ℕ → TicketSenderParams
entry c signature params expiration sender n = record {
  sender_nonce = n;
  sig = signature (c.hash_bytes (hash c (new_ticket params expiration sender n)));
}

abbrev pub entries :
    Crypto
    → (List ℕ → List ℕ)
    → TicketParams
    → TicketExpirationParams
    → ℕ
    → List ℕ
    → List TicketSenderParams
entries c signature params expiration sender [] = []
entries c signature params expiration sender (n ∷ ns) =
    entry c signature params expiration sender n ∷ entries c signature params expiration sender ns

sign_tickets-total :
    (c : Crypto) (signature : List ℕ → List ℕ) (params : TicketParams)
    (expiration : TicketExpirationParams) (sender k n : ℕ)
    → n + k < 2 ^ 32
    → sign_tickets c (λ m. ok (signature m)) params expiration sender k n
      ≡ (ok (entries c signature params expiration sender (count_from k (n + 1))), n + k)
unfolding sign_tickets
sign_tickets-total c signature params expiration sender zero n h = ground arith
sign_tickets-total c signature params expiration sender (suc k) n h =
    rw (incr32_small n (omega arith)) (
      ground
        (arith, sign_tickets-total c signature params expiration sender k (n + 1) (omega arith)))

-- In a session whose nonce does not wrap around, with parameters that the sender accepts for the
-- size of the batch and a signer that answers, the call returns the batch with one entry for each of
-- the next nonces, signed over its ticket's hash, and only the session's nonce changes, by the size.
pub create_ticket_batch-eq :
    (c : Crypto) (signature : List ℕ → List ℕ) (s : Sender) (tm : TimeInfo)
    (info : Result SenderInfo) (id size : ℕ) (x : Session)
    → s.sessions id ≡ some x
    → validate_ticket_params s tm info x.ticket_params size ≡ none
    → x.sender_nonce + size < 2 ^ 32
    → let expiration = batch_expiration_params tm x.ticket_params.expiration_params in
      create_ticket_batch c (λ m. ok (signature m)) s tm info id size ≡ (
        ok (record {
          ticket_params = x.ticket_params;
          ticket_expiration_params = expiration;
          sender = s.address;
          sender_params =
              entries c signature x.ticket_params expiration s.address
                (count_from size (x.sender_nonce + 1));
        }),
        record s {
          sessions = insert id (record x { sender_nonce = x.sender_nonce + size }) s.sessions;
        },
      )
unfolding create_ticket_batch
create_ticket_batch-eq c signature s tm info id size x known accepted small =
    rw
      (
        known,
        accepted,
        sign_tickets-total c signature x.ticket_params
            (batch_expiration_params tm x.ticket_params.expiration_params) s.address size
            x.sender_nonce small,
        create_ticket_batch,
      )
      refl

abbrev pub nonce_of : ℕ → Sender → ℕ
nonce_of id s = elim (s.sessions id) [ none ↦ 0 | some x ↦ x.sender_nonce ]

-- With any signer: a batch that is returned has the nonces after the session's, one after the other,
-- each signed by the signer, and the session goes on behind them.
pub create_ticket_batch-nonces :
    (c : Crypto) (sign : List ℕ → Result (List ℕ)) (s : Sender) (tm : TimeInfo)
    (info : Result SenderInfo) (id size : ℕ) (x : Session) (batch : TicketBatch)
    → s.sessions id ≡ some x
    → x.sender_nonce + size < 2 ^ 32
    → (create_ticket_batch c sign s tm info id size).0 ≡ ok batch
    → (nonces batch.sender_params ≡ count_from size (x.sender_nonce + 1))
      × AllSigned c sign x.ticket_params
          (batch_expiration_params tm x.ticket_params.expiration_params)
          s.address
          batch.sender_params
      × (nonce_of id (create_ticket_batch c sign s tm info id size).1 ≡ x.sender_nonce + size)
unfolding create_ticket_batch
create_ticket_batch-nonces c sign s tm info id size x batch known small made = ground (
  arith,
  sign_tickets-IsSigned c sign x.ticket_params
      (batch_expiration_params tm x.ticket_params.expiration_params) s.address size x.sender_nonce
      small,
)
