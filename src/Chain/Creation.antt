-- ===== src/Chain/Creation.antt =====
-- The calls of contracts/factory/src/lib.rs keep every stream sound, the ones that they create
-- included.
use conduit_contracts.Base.{ℕ, ◌≡◌, ◌≢◌, inl, inr, sym, ap, ◌∙◌, true, false, some, arith, ℤ, ok}
use conduit_contracts.Host.{Address, Host, TokenLaws}
use conduit_contracts.Stream.Sparing.{Spares, Spares-trans, transfer-Spares}
use conduit_contracts.Factory.Storage.{Env}
use conduit_contracts.Factory.Deploy.{Deployer, InitArgs}
use conduit_contracts.Factory.Creation.{create_stream}
use conduit_contracts.Factory.Checks.{create_stream-Checked}
use conduit_contracts.Factory.Opening.{open_stream-Opened, stream_info_of}
use conduit_contracts.Factory.Escrow.{create_stream_escrows}
use conduit_contracts.Factory.Solvency.{created_funded}
use conduit_contracts.Chain.Soundness.{Sound, Advances, Unsigned, kept-Holds, at_cases}

module _ {L : Type 0} ⦃host : Host L⦄ ⦃deployer : Deployer⦄ ⦃laws : TokenLaws L⦄ where
  unsigned_apart : (e : Env L) (a b : Address) → e.auth a ≡ true → e.auth b ≡ false → a ≢ b
  unsigned_apart e a b signed quiet q = cc (quiet, signed, q)

  -- Neither transfer of a creation takes from another contract.
  opened-Spares :
      (e e' : Env L) (args : InitArgs) (deposit : ℤ) (id code : ℕ) (mid : L) (a : Address)
      → host.transfer e.ledger args.token args.sender e.self deposit ≡ some mid
      → host.transfer mid args.token e.self (deployer.address_of e.self id) deposit ≡ some e'.ledger
      → a ≢ args.sender
      → a ≢ e.self
      → Spares e.ledger e'.ledger a
  opened-Spares e e' args deposit id code mid a pulled forwarded s f =
      Spares-trans e.ledger mid e'.ledger a
        (transfer-Spares e.ledger mid args.token args.sender e.self deposit a s pulled)
        (transfer-Spares mid e'.ledger args.token e.self (deployer.address_of e.self id) deposit a f
          forwarded)

  pub create_stream-Advances :
      (e e' : Env L) (args : InitArgs) (deposit : ℤ) (id : ℕ)
      → Sound e
      → Unsigned e
      → create_stream args deposit e ≡ ok (id, e')
      → Advances e e'
  create_stream-Advances e e' args deposit id sound (quiet, quiets) h =
      let (_, checked, opens) = create_stream-Checked e e' args deposit id h in
      let (code, mid, s, o) = open_stream-Opened e e' args deposit id opens in
      let stream = deployer.address_of e.self id in
      let sf = unsigned_apart e args.sender e.self checked.authorized quiet in
      let ss = unsigned_apart e args.sender stream checked.authorized (quiets id) in
      let (_, _, _, _, _, _, _, valid, _) = create_stream_escrows e e' args deposit id sf ss h in
      record {
        same_self = o.same_self;
        same_auth = o.same_auth;
        same_now = o.same_now;
        sound = λ a i there.
            elim (at_cases e.streams stream (record { code = code; store = s }) a i
              (sym (ap (λ f. f a) o.deployed) ∙ there)) [
                | inl (here, is) ↦ record {
                  id = id;
                  located = here ∙ ap (λ x. deployer.address_of x id) (sym o.same_self);
                  info = stream_info_of args;
                  stored = ap (λ x. x.store.config) is ∙ o.configured;
                  valid = rw o.same_now valid;
                  guarded = λ b _. inr (rw here (created_funded e e' args deposit id sf ss h b));
                }
                | inr (other, before) ↦
                    let k = sound a i before in
                    kept-Holds e e' a i o.same_self (omega (arith, o.same_now))
                      (opened-Spares e e' args deposit id code mid a o.pulled o.forwarded
                        (λ q.
                          unsigned_apart e args.sender (deployer.address_of e.self k.id)
                            checked.authorized (quiets k.id) (sym q ∙ k.located))
                        (λ q. deployer.address_of_fresh e.self k.id (sym k.located ∙ q)))
                      k
              ];
      }
