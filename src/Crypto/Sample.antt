-- ===== src/Crypto/Sample.antt =====
-- An instance of the cryptographic interface in which its laws hold, for tests.
use livepeer.Base.{
  ℕ, ◌+◌, ◌-◌, ◌%◌, ◌^◌, ◌<◌, ◌≡◌, refl, ap, sym, ◌∙◌, true, ◌++◌, length, replicate,
}
use livepeer.Base.Bytes.{fixed_bytes, length-fixed_bytes, value, value-fixed_bytes}
use livepeer.Crypto.{Crypto, CryptoLaws}

abbrev pub sample : Crypto
sample = record {
  address_bytes = fixed_bytes 20;
  hash_bytes = fixed_bytes 32;
  left_pad = λ bs k. replicate (k - length bs) 0 ++ bs;
  keccak256 = λ bs. value bs % 2 ^ 256;
  hmac_sha256 = λ key bs. (key + value bs) % 2 ^ 256;
  verify = λ a m s. true;
}

fixed_inj : (k a b : ℕ) → a < 256 ^ k → b < 256 ^ k → fixed_bytes k a ≡ fixed_bytes k b → a ≡ b
fixed_inj k a b ha hb e = sym (value-fixed_bytes k a ha) ∙ ap value e ∙ value-fixed_bytes k b hb

pub sample_laws : CryptoLaws sample
sample_laws = record {
  length-address = length-fixed_bytes 20;
  address_inj = λ a b ha hb e. fixed_inj 20 a b ha hb e;
  length-hash = length-fixed_bytes 32;
  hash_inj = λ a b ha hb e. fixed_inj 32 a b ha hb e;
  left_pad_short = λ bs k h. refl;
}
