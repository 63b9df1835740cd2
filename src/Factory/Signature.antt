-- ===== src/Factory/Signature.antt =====
-- contracts/factory/src/signature.rs: the payload that is signed for a creation from another chain,
-- its encoding as bytes, its digest, and the check of a signature.
use conduit_contracts.Base.{
  ℕ, zero, suc, ◌-◌, ◌/◌, ◌%◌, ◌^◌, ◌≡◌, Bool, List, [], ◌∷◌, ◌++◌, length, ℤ, pos, negsuc, Outcome,
  ok, trap, call_failed, if◌then◌else◌,
}
use conduit_contracts.Factory.Storage.{Error}

abbrev pub Bytes : Type 0
Bytes = List ℕ

-- The host's cryptography: SHA-256, whose digests have 32 bytes, and the test that
-- `ed25519_verify` makes of a public key, a message and a signature.
pub record Crypto : Type 0 where
  pub sha256 : Bytes → Bytes
  pub sha256_length : (b : Bytes) → length (sha256 b) ≡ 32
  pub ed25519_accepts : Bytes → Bytes → Bytes → Bool

-- b"Conduit Stream Creation v1"
abbrev pub domain_separator_prefix : Bytes
domain_separator_prefix =
    67 ∷ 111 ∷ 110 ∷ 100 ∷ 117 ∷ 105 ∷ 116 ∷ 32 ∷ 83 ∷ 116 ∷ 114 ∷ 101 ∷ 97 ∷ 109 ∷ 32 ∷ 67 ∷ 114
    ∷ 101 ∷ 97 ∷ 116 ∷ 105 ∷ 111 ∷ 110 ∷ 32 ∷ 118 ∷ 49 ∷ []

pub record SignaturePayload : Type 0 where
  pub sender : Bytes
  pub recipient : Bytes
  pub token : Bytes
  pub deposit : ℤ
  pub rate_per_sec : ℤ
  pub start_time : ℕ
  pub end_time : ℕ
  pub clawback : Bool
  pub nonce : ℕ
  pub deadline : ℕ
  pub network_passphrase : Bytes

-- `to_be_bytes` of a number of `width` bytes: the lowest byte last.
unfoldable pub to_be_bytes : ℕ → ℕ → Bytes
to_be_bytes zero n = []
to_be_bytes (suc width) n = to_be_bytes width (n / 256) ++ (n % 256) ∷ []

-- The bit pattern of an `i128`, in two's complement.
abbrev pub to_word : ℤ → ℕ
to_word (pos n) = n
to_word (negsuc n) = 2 ^ 128 - 1 - n

abbrev pub encode_bool : Bool → ℕ
encode_bool val = if val then 1 else 0

abbrev pub encode_i128 : ℤ → Bytes
encode_i128 val = to_be_bytes 16 (to_word val)

abbrev pub encode_u64 : ℕ → Bytes
encode_u64 val = to_be_bytes 8 val

-- What `extend_from_slice` and `push_back` build up for the two inner digests.
abbrev pub domain_input : Bytes → Bytes
domain_input factory_address = domain_separator_prefix ++ factory_address

abbrev pub struct_input : SignaturePayload → Bytes
struct_input p =
    p.sender
    ++ (p.recipient
        ++ (p.token
            ++ (encode_i128 p.deposit
                ++ (encode_i128 p.rate_per_sec
                    ++ (encode_u64 p.start_time
                        ++ (encode_u64 p.end_time
                            ++ ((encode_bool p.clawback ∷ [])
                                ++ (encode_u64 p.nonce
                                    ++ (encode_u64 p.deadline ++ p.network_passphrase)))))))))

module _ ⦃crypto : Crypto⦄ where
  unfoldable pub hash_payload : Bytes → SignaturePayload → Bytes
  hash_payload factory_address payload =
      crypto.sha256
        (crypto.sha256 (domain_input factory_address) ++ crypto.sha256 (struct_input payload))

  -- `ed25519_verify` traps where it does not accept.
  unfoldable pub verify_signature :
      Bytes → SignaturePayload → Bytes → Bytes → Outcome Error (Unit {0})
  unfolding hash_payload
  verify_signature factory_address payload public_key signature =
      if crypto.ed25519_accepts public_key (hash_payload factory_address payload) signature
      then ok tt
      else trap call_failed
