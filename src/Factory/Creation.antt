-- ===== src/Factory/Creation.antt =====
-- contracts/factory/src/lib.rs: `create_stream` and `create_batch_streams`.
use mathlib.Core.Option
use conduit_contracts.Base.{
  ℕ, ◌-◌, ltb, leb, ltb_ℤ, leb_ℤ, Bool, ◌&&◌, if◌then◌else◌, some, List, [], ◌∷◌, ◌++◌, ℤ, pos,
  checked_mul, checked_add_u64, length, pure, gets, fail_if, ok_or, or_trap, overflow, ◌>>=◌, ◌>>◌,
}
use conduit_contracts.Host.{Address, Host, TtlRule}
use conduit_contracts.Factory.Storage.{
  Store, Call, contract_paused, invalid_deposit, invalid_rate, insufficient_deposit,
  invalid_time_range, backdated_stream, arithmetic_overflow, not_initialized, empty_batch,
  batch_too_large, at, update, require_auth, is_paused, transfer,
}
use conduit_contracts.Factory.Ttl.{bump_instance, threshold, extend_to}
use conduit_contracts.Factory.Governance.{config, enforce_bounds}
use conduit_contracts.Factory.Deploy.{Deployer, InitArgs, deploy_stream}

abbrev pub max_batch_size : ℕ
max_batch_size = 100

-- storage.rs: one entry of a batch.
pub record BatchStreamRequest : Type 0 where
  pub recipient : Address
  pub token : Address
  pub deposit : ℤ
  pub rate_per_sec : ℤ
  pub start_time : ℕ
  pub end_time : ℕ

abbrev pub request_args : Address → Bool → BatchStreamRequest → InitArgs
request_args sender clawback r = record {
  sender = sender;
  recipient = r.recipient;
  token = r.token;
  rate_per_sec = r.rate_per_sec;
  start_time = r.start_time;
  end_time = r.end_time;
  clawback = clawback;
}

module _ {L : Type 0} where
  -- The checks of the arguments alone.
  unfoldable pub validate : ℤ → ℤ → ℕ → ℕ → Call L (Unit {0})
  validate deposit rate start end = do
    fail_if (leb_ℤ deposit (pos 0)) invalid_deposit
    fail_if (leb_ℤ rate (pos 0)) invalid_rate
    fail_if (ltb_ℤ deposit rate) insufficient_deposit
    fail_if (ltb 0 end && leb end start) invalid_time_range
    now ← gets (λ e. e.now)
    fail_if (ltb start now) backdated_stream
    if ltb 0 end
        then (do
          required ← ok_or (checked_mul rate (pos (end - start))) arithmetic_overflow
          fail_if (ltb_ℤ deposit required) insufficient_deposit)
        else pure tt

  -- The governor's bounds, read live.
  unfoldable pub check_bounds : ℤ → ℕ → ℕ → Call L (Unit {0})
  unfolding config enforce_bounds
  check_bounds rate start end = do
    governor ← (λ e. ok_or e.store.governor_address not_initialized e)
    c ← config governor
    enforce_bounds c rate start end

module _ ⦃rule : TtlRule⦄ where
  -- The three persistent entries of a new stream, and the count.
  unfoldable pub indexed : ℕ → ℕ → Address → Address → Address → Store → Store
  indexed stream_id next_count address sender recipient s = record s {
    stream_addr = at s.stream_addr stream_id (some address);
    stream_addr_ttl =
        at s.stream_addr_ttl stream_id
          (rule.extend_ttl threshold extend_to (s.stream_addr_ttl stream_id));
    stream_count = some next_count;
    by_sender =
        at s.by_sender sender (some (Option.get_or (s.by_sender sender) [] ++ stream_id ∷ []));
    by_sender_ttl =
        at s.by_sender_ttl sender (rule.extend_ttl threshold extend_to (s.by_sender_ttl sender));
    by_recipient =
        at s.by_recipient recipient
          (some (Option.get_or (s.by_recipient recipient) [] ++ stream_id ∷ []));
    by_recipient_ttl =
        at s.by_recipient_ttl recipient
          (rule.extend_ttl threshold extend_to (s.by_recipient_ttl recipient));
  }

module _ {L : Type 0} ⦃host : Host L⦄ ⦃deployer : Deployer⦄ where
  -- What follows the checks: the deposit is pulled, the stream deployed, funded and indexed.
  unfoldable pub open_stream : InitArgs → ℤ → Call L ℕ
  unfolding bump_instance deploy_stream
  open_stream args deposit = do
    bump_instance ⦃rule = host.ttl_rule⦄
    self ← gets (λ e. e.self)
    transfer args.token args.sender self deposit
    stream_id ← gets (λ e. Option.get_or e.store.stream_count 0)
    wasm_hash ← (λ e. ok_or e.store.stream_wasm_hash not_initialized e)
    address ← deploy_stream wasm_hash stream_id args
    transfer args.token self address deposit
    next_count ← or_trap (checked_add_u64 stream_id 1) overflow
    update (indexed ⦃rule = host.ttl_rule⦄ stream_id next_count address args.sender args.recipient)
    pure stream_id

  unfoldable pub create_stream : InitArgs → ℤ → Call L ℕ
  unfolding is_paused
  create_stream args deposit = do
    require_auth args.sender
    halted ← is_paused
    fail_if halted contract_paused
    validate deposit args.rate_per_sec args.start_time args.end_time
    check_bounds args.rate_per_sec args.start_time args.end_time
    open_stream args deposit

  -- The loop of the batch.
  unfoldable pub create_all : Address → Bool → List BatchStreamRequest → Call L (List ℕ)
  create_all sender clawback [] = pure []
  create_all sender clawback (r ∷ rs) = do
    stream_id ← create_stream (request_args sender clawback r) r.deposit
    stream_ids ← create_all sender clawback rs
    pure (stream_id ∷ stream_ids)

  unfoldable pub create_batch_streams : Address → List BatchStreamRequest → Bool → Call L (List ℕ)
  create_batch_streams sender requests clawback = do
    fail_if (leb (length requests) 0) empty_batch
    fail_if (ltb max_batch_size (length requests)) batch_too_large
    create_all sender clawback requests
