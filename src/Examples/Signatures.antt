-- ===== src/Examples/Signatures.antt =====
-- The digest of a signed payload on concrete inputs.
use conduit_contracts.Base.{
  ℕ, zero, suc, ◌+◌, ◌*◌, ◌%◌, ◌≡◌, ◌⊎◌, refl, true, arith, [], ◌∷◌, length, pos,
}
use conduit_contracts.Factory.Signature.{Bytes, Crypto, SignaturePayload, to_be_bytes}
use conduit_contracts.Factory.Digest.{IsPayload, Collision, digest_binds}

abbrev repeated : ℕ → ℕ → Bytes
repeated zero byte = []
repeated (suc n) byte = byte ∷ repeated n byte

-- A checksum in the place of SHA-256.
abbrev checksum : Bytes → ℕ
checksum [] = 7
checksum (x ∷ xs) = (checksum xs * 31 + x) % 256

pub digest_of : Bytes → Bytes
digest_of b = repeated 32 (checksum b)

pub length-digest_of : (b : Bytes) → length (digest_of b) ≡ 32
unfolding digest_of
length-digest_of b = refl

instance abbrev pub toy_crypto : Crypto
toy_crypto = record {
  sha256 = digest_of;
  sha256_length = length-digest_of;
  ed25519_accepts = λ key message signature. true;
}

abbrev payload : SignaturePayload
payload = record {
  sender = repeated 32 1;
  recipient = repeated 32 2;
  token = repeated 32 3;
  deposit = pos 1_000;
  rate_per_sec = pos 10;
  start_time = 100;
  end_time = 200;
  clawback = true;
  nonce = 5;
  deadline = 90;
  network_passphrase = 84 ∷ 101 ∷ [];
}

-- 258 in two bytes.
two_bytes : to_be_bytes 2 258 ≡ 1 ∷ 2 ∷ []
unfolding to_be_bytes
two_bytes = refl

payload-IsPayload : IsPayload payload
payload-IsPayload = record {
  sender_length = refl;
  recipient_length = refl;
  token_length = refl;
  deposit_fits = refl;
  rate_fits = refl;
  start_fits = omega arith;
  end_fits = omega arith;
  nonce_fits = omega arith;
  deadline_fits = omega arith;
}

digest_binds_example : ((repeated 32 9 ≡ repeated 32 9) × (payload ≡ payload)) ⊎ Collision
digest_binds_example =
    digest_binds (repeated 32 9) (repeated 32 9) payload payload refl refl payload-IsPayload
      payload-IsPayload refl
