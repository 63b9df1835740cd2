-- ===== src/Factory/Registry.antt =====
-- The registry of contracts/factory/src/lib.rs: identifiers, addresses and the two indices.
use mathlib.Core.Option
use native.Mathlib.Numerals.{add-one}
use conduit_contracts.Base.{
  ℕ, zero, suc, ◌+◌, ◌≤◌, ◌<◌, ◌≡◌, refl, Bool, Option, some, none, arith, ok, List, [], ◌∷◌, ◌++◌,
  length, ◌==◌, ℤ, Bool-cases, inl, inr, subst, sym, ap, ◌∙◌, >>=-ok, ◌>>=◌, pure,
}
use conduit_contracts.Host.{Address, Host, TtlRule}
use conduit_contracts.Factory.Storage.{Store, Env, at}
use conduit_contracts.Factory.Deploy.{Deployer, InitArgs}
use conduit_contracts.Factory.Creation.{
  create_stream, create_all, create_batch_streams, indexed, BatchStreamRequest, request_args,
  max_batch_size,
}
use conduit_contracts.Factory.Opening.{open_stream-Opened}
use conduit_contracts.Factory.Checks.{create_stream-Checked}

-- Strictly ascending from `lo`, and below `hi`.
abbrev pub Ascends : ℕ → List ℕ → ℕ → Type 0
Ascends lo [] hi = lo ≤ hi
Ascends lo (x ∷ xs) hi = (lo ≤ x) × Ascends (suc x) xs hi

Ascends-append : (lo hi : ℕ) (xs : List ℕ) → Ascends lo xs hi → Ascends lo (xs ++ hi ∷ []) (suc hi)
Ascends-append lo hi [] h = (h, omega arith)
Ascends-append lo hi (x ∷ xs) h = (h.0, Ascends-append (suc x) hi xs h.1)

Ascends-suc : (lo hi : ℕ) (xs : List ℕ) → Ascends lo xs hi → Ascends lo xs (suc hi)
Ascends-suc lo hi [] h = omega arith
Ascends-suc lo hi (x ∷ xs) h = (h.0, Ascends-suc (suc x) hi xs h.1)

abbrev pub count_of : Store → ℕ
count_of s = Option.get_or s.stream_count 0

pushed-Ascends :
    (f : Address → Option (List ℕ)) (k n : ℕ)
    → ((a : Address) → Ascends 0 (Option.get_or (f a) []) n)
    → (a : Address)
    → Ascends 0 (Option.get_or (at f k (some (Option.get_or (f k) [] ++ n ∷ [])) a) []) (n + 1)
pushed-Ascends f k n h a = elim (Bool-cases (a == k)) [
  | inl here ↦ rw (here, add-one) (Ascends-append 0 n (Option.get_or (f k) []) (h k))
  | inr there ↦ rw (there, add-one) (Ascends-suc 0 n (Option.get_or (f a) []) (h a))
]

module _ ⦃deployer : Deployer⦄ where
  -- Exactly the identifiers below the count have an address, the one that they were deployed at,
  -- and each index lists identifiers that were given out, each once and in order.
  pub record IsIndexed (self : Address) (s : Store) : Type 0 where
    pub given : (i : ℕ) → i < count_of s → s.stream_addr i ≡ some (deployer.address_of self i)
    pub unused : (i : ℕ) → count_of s ≤ i → s.stream_addr i ≡ none
    pub senders : (a : Address) → Ascends 0 (Option.get_or (s.by_sender a) []) (count_of s)
    pub recipients : (a : Address) → Ascends 0 (Option.get_or (s.by_recipient a) []) (count_of s)

  indexed-IsIndexed :
      ⦃rule : TtlRule⦄ (self sender recipient : Address) (s : Store)
      → IsIndexed self s
      → IsIndexed self (
          indexed
            (count_of s)
            (count_of s + 1)
            (deployer.address_of self (count_of s))
            sender
            recipient
            s)
  unfolding indexed
  indexed-IsIndexed self sender recipient s v = record {
    given = λ i lt. ground (arith, v.given i);
    unused = λ i le. ground (arith, v.unused i);
    senders = pushed-Ascends s.by_sender sender (count_of s) v.senders;
    recipients = pushed-Ascends s.by_recipient recipient (count_of s) v.recipients;
  }

-- `n` identifiers from `first` on.
abbrev pub ids_from : ℕ → ℕ → List ℕ
ids_from first zero = []
ids_from first (suc n) = first ∷ ids_from (first + 1) n

module _ {L : Type 0} ⦃host : Host L⦄ ⦃deployer : Deployer⦄ where
  -- A successful `create_stream` gives out the identifier that the count stood at, moves the count
  -- one up, and keeps the registry indexed.
  pub create_stream_indexes :
      (e e' : Env L) (args : InitArgs) (deposit : ℤ) (id : ℕ)
      → IsIndexed e.self e.store
      → create_stream args deposit e ≡ ok (id, e')
      → (id ≡ count_of e.store)
        × (count_of e'.store ≡ count_of e.store + 1)
        × (e'.store.stream_addr id ≡ some (deployer.address_of e.self id))
        × (e'.self ≡ e.self)
        × IsIndexed e.self e'.store
  unfolding indexed
  create_stream_indexes e e' args deposit id v h =
      let (_, _, opens) = create_stream-Checked e e' args deposit id h in
      let (code, mid, s, o) = open_stream-Opened e e' args deposit id opens in
      let place = λ (k : ℕ).
        indexed ⦃rule = host.ttl_rule⦄ k (k + 1) (deployer.address_of e.self k) args.sender
          args.recipient e.store in
      (
        o.id_is,
        ground (arith, o.registered, o.id_is),
        ground (arith, o.registered, o.id_is),
        o.same_self,
        subst (IsIndexed e.self) (sym (o.registered ∙ ap place o.id_is))
            (indexed-IsIndexed ⦃rule = host.ttl_rule⦄ e.self args.sender args.recipient e.store v),
      )

  pub create_all-cons :
      (e e' : Env L) (sender : Address) (clawback : Bool) (r : BatchStreamRequest)
      (rs : List BatchStreamRequest) (ids : List ℕ)
      → create_all sender clawback (r ∷ rs) e ≡ ok (ids, e')
      → (id : ℕ) × (ids' : List ℕ) × (mid : Env L) × (create_stream
            (request_args sender clawback r)
            r.deposit
            e
          ≡ ok (id, mid))
        × (create_all sender clawback rs mid ≡ ok (ids', e'))
        × (ids ≡ id ∷ ids')
  unfolding create_all
  create_all-cons e e' sender clawback r rs ids h =
      let create = create_stream (request_args sender clawback r) r.deposit in
      let all = create_all sender clawback rs in
      let (id, mid, one, k) =
        >>=-ok create (λ id. all >>= λ ids'. pure (id ∷ ids')) e ids e' (create e) refl h in
      let (ids', last, rest, done) =
        >>=-ok all (λ ids'. pure (id ∷ ids')) mid ids e' (all mid) refl k in
      (id, ids', mid, one, ground arith, ground arith)

  create_all_indexes :
      (e e' : Env L) (sender : Address) (clawback : Bool) (rs : List BatchStreamRequest)
      (ids : List ℕ)
      → IsIndexed e.self e.store
      → create_all sender clawback rs e ≡ ok (ids, e')
      → (ids ≡ ids_from (count_of e.store) (length rs))
        × (count_of e'.store ≡ count_of e.store + length rs)
        × IsIndexed e.self e'.store
  unfolding create_all
  create_all_indexes e e' sender clawback [] ids v h = ground arith
  create_all_indexes e e' sender clawback (r ∷ rs) ids v h =
      let (id, ids', mid, one, rest, cons) = create_all-cons e e' sender clawback r rs ids h in
      let (id_is, up, _, self_is, v') =
        create_stream_indexes e mid (request_args sender clawback r) r.deposit id v one in
      let (ids_are, up', v'') =
        create_all_indexes mid e' sender clawback rs ids'
          (subst (λ a. IsIndexed a mid.store) (sym self_is) v') rest in
      (
        ground (arith, cons, id_is, ids_are, up),
        omega (arith, up, up'),
        subst (λ a. IsIndexed a e'.store) self_is v'',
      )

  pub batch_steps :
      (e e' : Env L) (sender : Address) (clawback : Bool) (rs : List BatchStreamRequest)
      (ids : List ℕ)
      → create_batch_streams sender rs clawback e ≡ ok (ids, e')
      → (1 ≤ length rs)
        × (length rs ≤ max_batch_size)
        × (create_all sender clawback rs e ≡ ok (ids, e'))
  unfolding create_batch_streams
  batch_steps e e' sender clawback rs ids h = (ground arith, ground arith, ground arith)

  -- A successful batch has between 1 and 100 requests. It gives out as many consecutive
  -- identifiers, from the one that the count stood at and in the order of the requests, moves the
  -- count up by as many, and keeps the registry indexed.
  create_batch_indexes :
      (e e' : Env L) (sender : Address) (clawback : Bool) (rs : List BatchStreamRequest)
      (ids : List ℕ)
      → IsIndexed e.self e.store
      → create_batch_streams sender rs clawback e ≡ ok (ids, e')
      → (1 ≤ length rs)
        × (length rs ≤ max_batch_size)
        × (ids ≡ ids_from (count_of e.store) (length rs))
        × (count_of e'.store ≡ count_of e.store + length rs)
        × IsIndexed e.self e'.store
  create_batch_indexes e e' sender clawback rs ids v h =
      let (some_request, few, all) = batch_steps e e' sender clawback rs ids h in
      let (ids_are, up, v') = create_all_indexes e e' sender clawback rs ids v all in
      (some_request, few, ids_are, up, v')
