-- ===== src/Factory/Digest.antt =====
-- What a digest of contracts/factory/src/signature.rs binds: the encoding of the payload loses
-- nothing, so two payloads with one digest are the same or show a collision of SHA-256.
use mathlib.Core.HLevel.{Discrete}
use native.Mathlib.Decide.{ℕ_discrete}
use conduit_contracts.Base.{
  ℕ, zero, suc, ◌*◌, ◌/◌, ◌%◌, ◌<◌, ◌≡◌, ◌≢◌, ◌⊎◌, inl, inr, refl, sym, ◌∙◌, Bool, true, arith, [],
  ◌∷◌, ◌++◌, length, length-append, ℤ, fits_i128, u64_limit,
}
use conduit_contracts.Factory.Signature.{
  Bytes, Crypto, SignaturePayload, to_be_bytes, to_word, encode_i128, encode_u64, encode_bool,
  domain_separator_prefix, domain_input, struct_input, hash_payload,
}

-- Lists whose first parts are equally long are equal part by part.
append_split :
    (xs ys rs ss : Bytes) → length xs ≡ length ys → xs ++ rs ≡ ys ++ ss → (xs ≡ ys) × (rs ≡ ss)
append_split [] [] rs ss l e = (refl, e)
append_split [] (y ∷ ys) rs ss l e = absurd (omega arith)
append_split (x ∷ xs) [] rs ss l e = absurd (omega arith)
append_split (x ∷ xs) (y ∷ ys) rs ss l e = ground (arith, append_split xs ys rs ss)

length-to_be_bytes : (width n : ℕ) → length (to_be_bytes width n) ≡ width
unfolding to_be_bytes
length-to_be_bytes zero n = refl
length-to_be_bytes (suc width) n = omega (
  arith,
  length-append (to_be_bytes width (n / 256)) ((n % 256) ∷ []),
  length-to_be_bytes width (n / 256),
)

-- 256 to the power of the width.
abbrev words : ℕ → ℕ
words zero = 1
words (suc width) = 256 * words width

to_be_bytes_injective :
    (width n m : ℕ)
    → n < words width
    → m < words width
    → to_be_bytes width n ≡ to_be_bytes width m
    → n ≡ m
unfolding to_be_bytes
to_be_bytes_injective zero n m p q e = omega arith
to_be_bytes_injective (suc width) n m p q e =
    let (high, low) =
      append_split (to_be_bytes width (n / 256)) (to_be_bytes width (m / 256)) ((n % 256) ∷ [])
        ((m % 256) ∷ [])
        (length-to_be_bytes width (n / 256) ∙ sym (length-to_be_bytes width (m / 256))) e in
    let same_high =
      to_be_bytes_injective width (n / 256) (m / 256) (omega arith) (omega arith) high in
    let same_low : n % 256 ≡ m % 256 = ground arith in omega arith

to_word_injective :
    (a b : ℤ) → fits_i128 a ≡ true → fits_i128 b ≡ true → to_word a ≡ to_word b → a ≡ b
to_word_injective a b p q e = ground arith

to_word_bound : (a : ℤ) → fits_i128 a ≡ true → to_word a < words 16
to_word_bound a p = ground arith

Bytes-discrete : Discrete Bytes
Bytes-discrete = hlevel ℕ_discrete

-- Each field in front of a rest is read back with the rest.
u64_split :
    (n m : ℕ) (rs ss : Bytes)
    → n < u64_limit
    → m < u64_limit
    → encode_u64 n ++ rs ≡ encode_u64 m ++ ss
    → (n ≡ m) × (rs ≡ ss)
u64_split n m rs ss p q e =
    let (same, rest) =
      append_split (encode_u64 n) (encode_u64 m) rs ss
        (length-to_be_bytes 8 n ∙ sym (length-to_be_bytes 8 m)) e in
    (to_be_bytes_injective 8 n m p q same, rest)

i128_split :
    (a b : ℤ) (rs ss : Bytes)
    → fits_i128 a ≡ true
    → fits_i128 b ≡ true
    → encode_i128 a ++ rs ≡ encode_i128 b ++ ss
    → (a ≡ b) × (rs ≡ ss)
i128_split a b rs ss p q e =
    let (same, rest) =
      append_split (encode_i128 a) (encode_i128 b) rs ss
        (length-to_be_bytes 16 (to_word a) ∙ sym (length-to_be_bytes 16 (to_word b))) e in
    (
      to_word_injective a b p q (
          to_be_bytes_injective 16 (to_word a) (to_word b) (to_word_bound a p) (to_word_bound b q)
            same),
      rest,
    )

bool_split :
    (a b : Bool) (rs ss : Bytes)
    → (encode_bool a ∷ []) ++ rs ≡ (encode_bool b ∷ []) ++ ss
    → (a ≡ b) × (rs ≡ ss)
bool_split a b rs ss e = (ground arith, ground arith)

-- What the types of the source say of a payload.
pub record IsPayload (p : SignaturePayload) : Type 0 where
  pub sender_length : length p.sender ≡ 32
  pub recipient_length : length p.recipient ≡ 32
  pub token_length : length p.token ≡ 32
  pub deposit_fits : fits_i128 p.deposit ≡ true
  pub rate_fits : fits_i128 p.rate_per_sec ≡ true
  pub start_fits : p.start_time < u64_limit
  pub end_fits : p.end_time < u64_limit
  pub nonce_fits : p.nonce < u64_limit
  pub deadline_fits : p.deadline < u64_limit

pub struct_input_injective :
    (p q : SignaturePayload) → IsPayload p → IsPayload q → struct_input p ≡ struct_input q → p ≡ q
struct_input_injective p q v w e =
    let (sender, e₁) =
      append_split p.sender q.sender _ _ (v.sender_length ∙ sym w.sender_length) e in
    let (recipient, e₂) =
      append_split p.recipient q.recipient _ _ (v.recipient_length ∙ sym w.recipient_length) e₁ in
    let (token, e₃) = append_split p.token q.token _ _ (v.token_length ∙ sym w.token_length) e₂ in
    let (deposit, e₄) = i128_split p.deposit q.deposit _ _ v.deposit_fits w.deposit_fits e₃ in
    let (rate, e₅) = i128_split p.rate_per_sec q.rate_per_sec _ _ v.rate_fits w.rate_fits e₄ in
    let (start, e₆) = u64_split p.start_time q.start_time _ _ v.start_fits w.start_fits e₅ in
    let (end, e₇) = u64_split p.end_time q.end_time _ _ v.end_fits w.end_fits e₆ in
    let (clawback, e₈) = bool_split p.clawback q.clawback _ _ e₇ in
    let (nonce, e₉) = u64_split p.nonce q.nonce _ _ v.nonce_fits w.nonce_fits e₈ in
    let (deadline, passphrase) =
      u64_split p.deadline q.deadline _ _ v.deadline_fits w.deadline_fits e₉ in
    ground arith

module _ ⦃crypto : Crypto⦄ where
  -- Two different messages with one digest.
  abbrev pub Collision : Type 0
  Collision = (x : Bytes) × (y : Bytes) × (x ≢ y) × (crypto.sha256 x ≡ crypto.sha256 y)

  sha256_same : (x y : Bytes) → crypto.sha256 x ≡ crypto.sha256 y → (x ≡ y) ⊎ Collision
  sha256_same x y e = elim (Bytes-discrete x y) [
    | yes same ↦ inl same
    | no differ ↦ inr (x, y, differ, e)
  ]

  inner_same :
      (f g : Bytes) (p q : SignaturePayload)
      → length f ≡ 32
      → length g ≡ 32
      → IsPayload p
      → IsPayload q
      → crypto.sha256 (domain_input f) ≡ crypto.sha256 (domain_input g)
      → crypto.sha256 (struct_input p) ≡ crypto.sha256 (struct_input q)
      → ((f ≡ g) × (p ≡ q)) ⊎ Collision
  inner_same f g p q lf lg v w d s = elim (sha256_same (domain_input f) (domain_input g) d) [
    | inr found ↦ inr found
    | inl same ↦ elim (sha256_same (struct_input p) (struct_input q) s) [
      | inr found ↦ inr found
      | inl same' ↦ inl (
        (append_split domain_separator_prefix domain_separator_prefix f g refl same).1,
        struct_input_injective p q v w same',
      )
    ]
  ]

  -- The digest that is signed binds the factory's address and every field of the payload: two
  -- signings with one digest are of the same payload for the same factory, or two different
  -- messages with one SHA-256 digest are at hand. The addresses have 32 bytes, and the fields are
  -- in the range of their types.
  pub digest_binds :
      (f g : Bytes) (p q : SignaturePayload)
      → length f ≡ 32
      → length g ≡ 32
      → IsPayload p
      → IsPayload q
      → hash_payload f p ≡ hash_payload g q
      → ((f ≡ g) × (p ≡ q)) ⊎ Collision
  unfolding hash_payload
  digest_binds f g p q lf lg v w e = elim (sha256_same _ _ e) [
    | inr found ↦ inr found
    | inl same ↦
        let (d, s) =
          append_split (crypto.sha256 (domain_input f)) (crypto.sha256 (domain_input g))
            (crypto.sha256 (struct_input p)) (crypto.sha256 (struct_input q))
            (crypto.sha256_length (domain_input f) ∙ sym (crypto.sha256_length (domain_input g)))
            same in
        inner_same f g p q lf lg v w d s
  ]
