-- ===== src/Factory/Checks.antt =====
-- The checks of `create_stream` (contracts/factory/src/lib.rs and governance.rs): what a stream
-- that passes them is known to satisfy.
use mathlib.Core.Option
use conduit_contracts.Base.{
  ℕ, ◌-◌, ◌*◌, ◌≤◌, ◌<◌, ◌≡◌, ◌⊎◌, true, Option, some, none, arith, ℤ, pos, pos_part, ◌≤ℤ◌, ok,
  checked_mul, checked_sub_u64, pos-*ℤ-pos, pos_of_nonneg, committed, subst, ◌∙◌, false,
}
use conduit_contracts.Host.{Host}
use conduit_contracts.Governor.Storage.{Store as GovernorStore, empty_store}
use conduit_contracts.Governor.Invariant.{min_duration_of, max_duration_of, max_rate_of}
use conduit_contracts.Governor.Config.{load}
use conduit_contracts.Factory.Storage.{Env}
use conduit_contracts.Factory.Deploy.{Deployer, InitArgs}
use conduit_contracts.Factory.Creation.{create_stream, open_stream, validate, check_bounds}

-- The arguments are sound, and a bounded stream is funded for its whole length.
pub record IsSound (now : ℕ) (deposit rate : ℤ) (start end : ℕ) : Type 0 where
  pub deposit_positive : pos 1 ≤ℤ deposit
  pub rate_positive : pos 1 ≤ℤ rate
  pub one_second : rate ≤ℤ deposit
  pub in_order : (end ≡ 0) ⊎ (start < end)
  pub not_backdated : now ≤ start
  pub funded : 0 < end → pos (pos_part rate * (end - start)) ≤ℤ deposit

-- The bounds that a governor's storage sets.
pub record IsWithin (s : GovernorStore) (rate : ℤ) (start end : ℕ) : Type 0 where
  pub rate_capped : rate ≤ℤ max_rate_of s
  pub long_enough : 0 < end → min_duration_of s ≤ end - start
  pub short_enough : 0 < end → end - start ≤ max_duration_of s

abbrev pub governor_store : {L : Type 0} → Env L → Option GovernorStore
governor_store e = elim e.store.governor_address [ none ↦ none | some g ↦ e.governors g ]

module _ {L : Type 0} where
  pub validate-IsSound :
      (deposit rate : ℤ) (start end : ℕ) (e e' : Env L)
      → validate deposit rate start end e ≡ ok (tt, e')
      → (e' ≡ e) × IsSound e.now deposit rate start end
  unfolding validate checked_mul
  validate-IsSound deposit rate start end e e' h =
      (ground arith, ground (arith, pos-*ℤ-pos (pos_part rate) (end - start), pos_of_nonneg rate))

  pub check_bounds-IsWithin :
      (rate : ℤ) (start end : ℕ) (e e' : Env L)
      → check_bounds rate start end e ≡ ok (tt, e')
      → (e' ≡ e) × (s : GovernorStore) × (governor_store e ≡ some s) × IsWithin s rate start end
  unfolding check_bounds load checked_sub_u64
  check_bounds-IsWithin rate start end e e' h =
      (ground arith, Option.get_or (governor_store e) empty_store, ground arith, ground arith)

module _ {L : Type 0} ⦃host : Host L⦄ ⦃deployer : Deployer⦄ where
  -- What a call that got past the checks has shown.
  pub record Checked (e : Env L) (args : InitArgs) (deposit : ℤ) (s : GovernorStore) : Type 0 where
    pub authorized : e.auth args.sender ≡ true
    pub running : Option.get_or e.store.paused false ≡ false
    pub sound : IsSound e.now deposit args.rate_per_sec args.start_time args.end_time
    pub governor_is : governor_store e ≡ some s
    pub within : IsWithin s args.rate_per_sec args.start_time args.end_time

  create_stream-steps :
      (e e' : Env L) (args : InitArgs) (deposit : ℤ) (id : ℕ)
      → create_stream args deposit e ≡ ok (id, e')
      → (e₁ : Env L) × (e₂ : Env L) × (e.auth args.sender ≡ true)
        × (Option.get_or e.store.paused false ≡ false)
        × (validate deposit args.rate_per_sec args.start_time args.end_time e ≡ ok (tt, e₁))
        × (check_bounds args.rate_per_sec args.start_time args.end_time e₁ ≡ ok (tt, e₂))
        × (open_stream args deposit e₂ ≡ ok (id, e'))
  unfolding create_stream
  create_stream-steps e e' args deposit id h =
      let e₁ = committed (validate deposit args.rate_per_sec args.start_time args.end_time) e in
      (
        e₁,
        committed (check_bounds args.rate_per_sec args.start_time args.end_time) e₁,
        ground arith,
        ground arith,
        ground arith,
        ground arith,
        ground arith,
      )

  pub create_stream-Checked :
      (e e' : Env L) (args : InitArgs) (deposit : ℤ) (id : ℕ)
      → create_stream args deposit e ≡ ok (id, e')
      → (s : GovernorStore) × Checked e args deposit s × (open_stream args deposit e ≡ ok (id, e'))
  create_stream-Checked e e' args deposit id h =
      let (e₁, e₂, authorized, running, valid, bounded, opened) =
        create_stream-steps e e' args deposit id h in
      let (same, sound) =
        validate-IsSound deposit args.rate_per_sec args.start_time args.end_time e e₁ valid in
      let (same', s, governor_is, within) =
        check_bounds-IsWithin args.rate_per_sec args.start_time args.end_time e₁ e₂ bounded in
      (
        s,
        record {
          authorized = authorized;
          running = running;
          sound = sound;
          governor_is = subst (λ x. governor_store x ≡ some s) same governor_is;
          within = within;
        },
        subst (λ x. open_stream args deposit x ≡ ok (id, e')) (same' ∙ same) opened,
      )
