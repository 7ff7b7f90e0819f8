-- ===== src/Pm/Ticket.antt =====
-- pm/ticket.go: tickets, ticket parameters, batches, and the byte string that is hashed and signed.
-- Face values and win probabilities come off the wire by `SetBytes`, so they are not negative.
pub mod Flatten
use livepeer.Base.{
  ℕ, ◌+◌, ◌*◌, ◌≡◌, Bool, List, [], ◌∷◌, ◌++◌, map, ◌==◌, ◌&&◌, if◌then◌else◌, length, Option,
}
use livepeer.Base.Int.{ℤ, pos, abs, eq_ℤ}
use livepeer.Base.Rat.{Rat, of_int, of_frac, mul}
use livepeer.Base.Bytes.{big_bytes, Writer, make_writer, put}
use livepeer.Crypto.{Crypto}

abbrev pub address_size : ℕ
address_size = 20

abbrev pub uint256_size : ℕ
uint256_size = 32

abbrev pub bytes32_size : ℕ
bytes32_size = 32

pub record TicketExpirationParams : Type 0 where
  pub creation_round : ℤ
  pub creation_round_block_hash : ℕ

-- `PricePerPixel` is a big.Rat in lowest terms, `ExpirationParams` a pointer.
pub record TicketParams : Type 0 where
  pub recipient : ℕ
  pub face_value : ℕ
  pub win_prob : ℕ
  pub recipient_rand_hash : ℕ
  pub seed : ℕ
  pub expiration_block : ℕ
  pub price_per_pixel : Rat
  pub expiration_params : Option TicketExpirationParams

pub record TicketSenderParams : Type 0 where
  pub sender_nonce : ℕ
  pub sig : List ℕ

-- A batch embeds its ticket and expiration parameters.
pub record TicketBatch : Type 0 where
  pub ticket_params : TicketParams
  pub ticket_expiration_params : TicketExpirationParams
  pub sender : ℕ
  pub sender_params : List TicketSenderParams

pub record Ticket : Type 0 where
  pub recipient : ℕ
  pub sender : ℕ
  pub face_value : ℕ
  pub win_prob : ℕ
  pub sender_nonce : ℕ
  pub recipient_rand_hash : ℕ
  pub creation_round : ℤ
  pub creation_round_block_hash : ℕ
  pub params_expiration_block : ℕ
  pub price_per_pixel : Rat

pub record SignedTicket : Type 0 where
  pub ticket : Ticket
  pub sig : List ℕ
  pub recipient_rand : ℕ

-- `NewTicket`
unfoldable pub new_ticket : TicketParams → TicketExpirationParams → ℕ → ℕ → Ticket
new_ticket params expiration sender nonce = record {
  recipient = params.recipient;
  sender = sender;
  face_value = params.face_value;
  win_prob = params.win_prob;
  sender_nonce = nonce;
  recipient_rand_hash = params.recipient_rand_hash;
  creation_round = expiration.creation_round;
  creation_round_block_hash = expiration.creation_round_block_hash;
  params_expiration_block = params.expiration_block;
  price_per_pixel = params.price_per_pixel;
}

-- The ticket that `Tickets` makes of a batch and one entry of it: `ParamsExpirationBlock` and
-- `PricePerPixel` are left nil, here 0.
unfoldable pub batch_ticket : TicketBatch → TicketSenderParams → Ticket
batch_ticket b p = record {
  recipient = b.ticket_params.recipient;
  sender = b.sender;
  face_value = b.ticket_params.face_value;
  win_prob = b.ticket_params.win_prob;
  sender_nonce = p.sender_nonce;
  recipient_rand_hash = b.ticket_params.recipient_rand_hash;
  creation_round = b.ticket_expiration_params.creation_round;
  creation_round_block_hash = b.ticket_expiration_params.creation_round_block_hash;
  params_expiration_block = 0;
  price_per_pixel = of_int (pos 0);
}

-- `TicketBatch.Tickets`
unfoldable pub tickets : TicketBatch → List Ticket
unfolding batch_ticket
tickets b = map (batch_ticket b) b.sender_params

-- `ticketEV`, for a given maxWinProb
unfoldable pub ticket_ev : ℕ → ℕ → ℕ → Rat
ticket_ev max_win_prob face_value win_prob =
    mul (of_int (pos face_value)) (of_frac win_prob max_win_prob)

-- `Ticket.expirationParams`
unfoldable pub expiration_params : Ticket → TicketExpirationParams
expiration_params t = record {
  creation_round = t.creation_round;
  creation_round_block_hash = t.creation_round_block_hash;
}

module _ (c : Crypto) where
  -- `TicketExpirationParams.AuxData`: nothing where both values are zero.
  unfoldable pub aux_data : TicketExpirationParams → List ℕ
  aux_data e =
      if eq_ℤ e.creation_round (pos 0) && e.creation_round_block_hash == 0
      then []
      else c.left_pad (big_bytes (abs e.creation_round)) uint256_size
        ++ c.hash_bytes e.creation_round_block_hash

  -- `Ticket.AuxData`
  unfoldable pub ticket_aux_data : Ticket → List ℕ
  unfolding aux_data expiration_params
  ticket_aux_data t = aux_data (expiration_params t)

  -- The six fixed-size writes of `flatten`.
  pub write_fields : Ticket → Writer → Writer
  write_fields t w0 =
      let w1 = put w0 (c.address_bytes t.recipient) in
      let w2 = put w1 (c.address_bytes t.sender) in
      let w3 = put w2 (c.left_pad (big_bytes t.face_value) uint256_size) in
      let w4 = put w3 (c.left_pad (big_bytes t.win_prob) uint256_size) in
      let w5 = put w4 (c.left_pad (big_bytes t.sender_nonce) uint256_size) in
      put w5 (c.hash_bytes t.recipient_rand_hash)

  -- The last write, which is made only where there is auxiliary data.
  pub write_aux : Writer → List ℕ → List ℕ
  write_aux w [] = w.buf
  write_aux w (b ∷ bs) = (put w (b ∷ bs)).buf

  -- `flatten`
  unfoldable pub flatten : Ticket → List ℕ
  unfolding ticket_aux_data write_fields write_aux
  flatten t =
      let aux = ticket_aux_data t in
      let size =
        address_size
        + address_size
        + uint256_size
        + uint256_size
        + uint256_size
        + bytes32_size
        + length aux in
      write_aux (write_fields t (make_writer size)) aux

  -- `Ticket.Hash`
  unfoldable pub hash : Ticket → ℕ
  unfolding flatten
  hash t = c.keccak256 (flatten t)
