-- ===== src/Pm/Ticket/Flatten.antt =====
-- `flatten` packs a ticket into a byte string from which every hashed field can be read back.
use livepeer.Base.{
  ℕ, ◌+◌, ◌-◌, ◌^◌, ◌<◌, ◌≡◌, refl, ap, sym, ◌∙◌, Bool, List, [], ◌∷◌, ◌++◌, arith, length,
  replicate, length-append, length-replicate, true, false, ◌==◌, ◌&&◌, Bool-cases, inl, inr,
}
use mathlib.Core.List.{append-nil}
use mathlib.Core.Path.{subst}
use livepeer.Base.Int.{pos, abs, eq_ℤ}
use livepeer.Base.Bytes.{
  big_bytes, value, value-big_bytes, value-zeros, length-big_bytes, Writer, make_writer, put, Holds,
  make_writer-Holds, put-Holds, append_inj,
}
use livepeer.Crypto.{Crypto, CryptoLaws}
use livepeer.Pm.Ticket.{Ticket, ticket_aux_data, write_fields, write_aux, flatten}

-- The fields fit the Solidity types that the packing assumes, and the round is not negative.
pub record IsPackable (t : Ticket) : Type 0 where
  pub recipient_fits : t.recipient < 2 ^ 160
  pub sender_fits : t.sender < 2 ^ 160
  pub face_value_fits : t.face_value < 2 ^ 256
  pub win_prob_fits : t.win_prob < 2 ^ 256
  pub nonce_fits : t.sender_nonce < 2 ^ 32
  pub rand_hash_fits : t.recipient_rand_hash < 2 ^ 256
  pub round_nonneg : t.creation_round ≡ pos (abs t.creation_round)
  pub round_fits : abs t.creation_round < 2 ^ 63
  pub block_hash_fits : t.creation_round_block_hash < 2 ^ 256

same_length :
    (a b x y : List ℕ) {k : ℕ}
    → length a ≡ length b
    → length x ≡ k
    → length y ≡ k
    → length (a ++ x) ≡ length (b ++ y)
same_length a b x y h hx hy = omega (arith, length-append a x, length-append b y)

module _ (c : Crypto) (laws : CryptoLaws c) where
  open laws use {length-address, address_inj, length-hash, hash_inj, left_pad_short}

  abbrev word : ℕ → List ℕ
  word n = c.left_pad (big_bytes n) 32

  length-word : (n : ℕ) → n < 2 ^ 256 → length (word n) ≡ 32
  length-word n h = rw (left_pad_short (big_bytes n) 32 (length-big_bytes 32 n h)) (
      omega (
        arith,
        length-append (replicate (32 - length (big_bytes n)) 0) (big_bytes n),
        length-replicate {A = ℕ} (32 - length (big_bytes n)) 0,
        length-big_bytes 32 n h,
      ))

  value-word : (n : ℕ) → n < 2 ^ 256 → value (word n) ≡ n
  value-word n h =
      rw (left_pad_short (big_bytes n) 32 (length-big_bytes 32 n h))
        (value-zeros (32 - length (big_bytes n)) (big_bytes n) ∙ value-big_bytes n)

  word_inj : (m n : ℕ) → m < 2 ^ 256 → n < 2 ^ 256 → word m ≡ word n → m ≡ n
  word_inj m n hm hn e = sym (value-word m hm) ∙ ap value e ∙ value-word n hn

  put-Holds_of_eq :
      {w : Writer} {done : List ℕ} (src : List ℕ) (size room room' : ℕ)
      → length src ≡ size
      → room' ≡ size + room
      → Holds w done room'
      → Holds (put w src) (done ++ src) room
  put-Holds_of_eq {w} {done} src size room room' len e h =
      put-Holds src room (subst (λ r. Holds w done r) (rw len e) h)

  -- The hashed fields but the auxiliary data, as one byte string.
  abbrev fields : Ticket → List ℕ
  fields t =
      c.address_bytes t.recipient
      ++ c.address_bytes t.sender
      ++ word t.face_value
      ++ word t.win_prob
      ++ word t.sender_nonce
      ++ c.hash_bytes t.recipient_rand_hash

  write_fields-Holds :
      (t : Ticket) (n : ℕ)
      → IsPackable t
      → Holds (write_fields c t (make_writer (168 + n))) (fields t) n
  unfolding write_fields
  write_fields-Holds t n p = put-Holds_of_eq _ 32 n (32 + n) (length-hash _) refl (
      put-Holds_of_eq _ 32 (32 + n) (64 + n) (length-word t.sender_nonce (omega arith))
        (omega arith)
        (put-Holds_of_eq _ 32 (64 + n) (96 + n) (length-word t.win_prob p.win_prob_fits)
          (omega arith)
          (put-Holds_of_eq _ 32 (96 + n) (128 + n) (length-word t.face_value p.face_value_fits)
            (omega arith)
            (put-Holds_of_eq _ 20 (128 + n) (148 + n) (length-address _) (omega arith) (
              put-Holds_of_eq _ 20 (148 + n) (168 + n) (length-address _) (omega arith)
                (make_writer-Holds (168 + n)))))))

  write_aux-Holds :
      (w : Writer) (aux : List ℕ) {done : List ℕ}
      → Holds w done (length aux)
      → write_aux c w aux ≡ done ++ aux
  unfolding write_aux
  write_aux-Holds w [] h = h.text
  write_aux-Holds w (b ∷ bs) {done} h =
      (put-Holds_of_eq (b ∷ bs) (length (b ∷ bs)) 0 (length (b ∷ bs)) refl (omega arith) h).text
      ∙ append-nil (done ++ b ∷ bs)

  -- The buffer is exactly full: the bytes of the fields one after the other, nothing cut off.
  flatten-eq : (t : Ticket) → IsPackable t → flatten c t ≡ fields t ++ ticket_aux_data c t
  flatten-eq t p =
      unfold flatten in
      write_aux-Holds _ (ticket_aux_data c t)
        (write_fields-Holds t (length (ticket_aux_data c t)) p)

  length-fields : (t : Ticket) → IsPackable t → length (fields t) ≡ 168
  length-fields t p = simp length-append (
      omega (
        arith,
        length-address t.recipient,
        length-address t.sender,
        length-word t.face_value,
        length-word t.win_prob,
        length-word t.sender_nonce,
        length-hash t.recipient_rand_hash,
      ))

  abbrev round_bytes : Ticket → List ℕ
  round_bytes t = word (abs t.creation_round) ++ c.hash_bytes t.creation_round_block_hash

  -- Whether both expiration parameters are zero.
  abbrev is_unset : Ticket → Bool
  is_unset t = eq_ℤ t.creation_round (pos 0) && t.creation_round_block_hash == 0

  length-round_bytes : (t : Ticket) → IsPackable t → length (round_bytes t) ≡ 64
  length-round_bytes t p =
      simp length-append
        (omega (arith, length-word (abs t.creation_round), length-hash t.creation_round_block_hash))

  aux_unset : (t : Ticket) → is_unset t ≡ true → ticket_aux_data c t ≡ []
  unfolding ticket_aux_data
  aux_unset t h = rw h

  aux_set : (t : Ticket) → is_unset t ≡ false → ticket_aux_data c t ≡ round_bytes t
  unfolding ticket_aux_data
  aux_set t h = rw h

  -- The expiration parameters can be read back: no data stands for the zero values alone.
  aux_inj :
      (s t : Ticket)
      → IsPackable s
      → IsPackable t
      → ticket_aux_data c s ≡ ticket_aux_data c t
      → (s.creation_round ≡ t.creation_round)
        × (s.creation_round_block_hash ≡ t.creation_round_block_hash)
  aux_inj s t p q e = elim (Bool-cases (is_unset s)) [
    | inl s0 ↦ elim (Bool-cases (is_unset t)) [
      | inl t0 ↦ ground arith
      | inr t1 ↦
          let clash = ap length (sym (aux_unset s s0) ∙ e ∙ aux_set t t1) in
          absurd (omega (arith, clash, length-round_bytes t q))
    ]
    | inr s1 ↦ elim (Bool-cases (is_unset t)) [
      | inl t0 ↦
          let clash = ap length (sym (aux_set s s1) ∙ e ∙ aux_unset t t0) in
          absurd (omega (arith, clash, length-round_bytes s p))
      | inr t1 ↦
          let split =
            append_inj (word (abs s.creation_round)) _ (word (abs t.creation_round)) _
              (omega
                (arith, length-word (abs s.creation_round), length-word (abs t.creation_round)))
              (sym (aux_set s s1) ∙ e ∙ aux_set t t1) in
          let round = word_inj _ _ (omega arith) (omega arith) split.0 in
          (
            p.round_nonneg ∙ ap pos round ∙ sym q.round_nonneg,
            hash_inj _ _ p.block_hash_fits q.block_hash_fits split.1,
          )
    ]
  ]

  fields_inj :
      (s t : Ticket)
      → IsPackable s
      → IsPackable t
      → fields s ≡ fields t
      → (s.recipient ≡ t.recipient)
        × (s.sender ≡ t.sender)
        × (s.face_value ≡ t.face_value)
        × (s.win_prob ≡ t.win_prob)
        × (s.sender_nonce ≡ t.sender_nonce)
        × (s.recipient_rand_hash ≡ t.recipient_rand_hash)
  fields_inj s t p q e =
      let s2 = c.address_bytes s.recipient ++ c.address_bytes s.sender in
      let t2 = c.address_bytes t.recipient ++ c.address_bytes t.sender in
      let len2 : length s2 ≡ length t2 = simp (length-append, length-address) in
      let s3 = s2 ++ word s.face_value in
      let t3 = t2 ++ word t.face_value in
      let len3 : length s3 ≡ length t3 =
        same_length s2 t2 _ _ len2 (length-word s.face_value (omega arith))
          (length-word t.face_value (omega arith)) in
      let s4 = s3 ++ word s.win_prob in
      let t4 = t3 ++ word t.win_prob in
      let len4 : length s4 ≡ length t4 =
        same_length s3 t3 _ _ len3 (length-word s.win_prob (omega arith))
          (length-word t.win_prob (omega arith)) in
      let s5 = s4 ++ word s.sender_nonce in
      let t5 = t4 ++ word t.sender_nonce in
      let len5 : length s5 ≡ length t5 =
        same_length s4 t4 _ _ len4 (length-word s.sender_nonce (omega arith))
          (length-word t.sender_nonce (omega arith)) in
      let a6 = append_inj s5 _ t5 _ len5 e in
      let a5 = append_inj s4 _ t4 _ len4 a6.0 in
      let a4 = append_inj s3 _ t3 _ len3 a5.0 in
      let a3 = append_inj s2 _ t2 _ len2 a4.0 in
      let a2 =
        append_inj (c.address_bytes s.recipient) _ (c.address_bytes t.recipient) _
          (length-address _ ∙ sym (length-address _)) a3.0 in
      (
        address_inj _ _ p.recipient_fits q.recipient_fits a2.0,
        address_inj _ _ p.sender_fits q.sender_fits a2.1,
        word_inj _ _ p.face_value_fits q.face_value_fits a3.1,
        word_inj _ _ p.win_prob_fits q.win_prob_fits a4.1,
        word_inj _ _ (omega arith) (omega arith) a5.1,
        hash_inj _ _ p.rand_hash_fits q.rand_hash_fits a6.1,
      )

  -- Of two packable tickets with the same packed bytes every hashed field is the same: only the
  -- unhashed expiration block and price can differ.
  pub flatten_inj :
      (s t : Ticket)
      → IsPackable s
      → IsPackable t
      → flatten c s ≡ flatten c t
      → (s.recipient ≡ t.recipient)
        × (s.sender ≡ t.sender)
        × (s.face_value ≡ t.face_value)
        × (s.win_prob ≡ t.win_prob)
        × (s.sender_nonce ≡ t.sender_nonce)
        × (s.recipient_rand_hash ≡ t.recipient_rand_hash)
        × (s.creation_round ≡ t.creation_round)
        × (s.creation_round_block_hash ≡ t.creation_round_block_hash)
  flatten_inj s t p q e =
      let whole =
        append_inj (fields s) (ticket_aux_data c s) (fields t) (ticket_aux_data c t)
          (length-fields s p ∙ sym (length-fields t q))
          (sym (flatten-eq s p) ∙ e ∙ flatten-eq t q) in
      let aux = aux_inj s t p q whole.1 in
      let f = fields_inj s t p q whole.0 in (f.0, f.1, f.2, f.3, f.4, f.5, aux.0, aux.1)
