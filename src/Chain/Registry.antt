-- ===== src/Chain/Registry.antt =====
-- The registry of contracts/factory/src/storage.rs against the streams that stand on the chain, over
-- the calls of contracts/factory/src/lib.rs.
use conduit_contracts.Base.{
  ℕ, ◌≡◌, ◌≢◌, inl, inr, refl, sym, ap, ◌∙◌, some, arith, ℤ, ok, List, [], ◌∷◌, ◌++◌, length,
  get_elem?, get_elem?-append_left, get_elem?-append_end, get_elem?-append_cases,
  get_elem?-lt-length, ==-refl, ==-false,
}
use conduit_contracts.Host.{Address, Host}
use conduit_contracts.Stream.Storage.{StreamInfo}
use conduit_contracts.Factory.Storage.{Env, Instance, at}
use conduit_contracts.Factory.Deploy.{Deployer, InitArgs}
use conduit_contracts.Factory.Creation.{create_stream}
use conduit_contracts.Factory.Checks.{create_stream-Checked}
use conduit_contracts.Factory.Opening.{open_stream-Opened, stream_info_of}
use conduit_contracts.Factory.Log.{Entry, Represents}
use conduit_contracts.Factory.Refinement.{entry_of, create_stream-Appends}
use conduit_contracts.Chain.Soundness.{at_cases}

pub at_same : {V : Type 0} (f : Address → V) (k : Address) (v : V) → at f k v k ≡ v
at_same f k v = ground (arith, ==-refl k)

pub at_other :
    {V : Type 0} (f : Address → V) (k : Address) (v : V) (a : Address) → a ≢ k → at f k v a ≡ f a
at_other f k v a ne = ground (arith, ==-false a k ne)

module _ {L : Type 0} ⦃host : Host L⦄ ⦃deployer : Deployer⦄ where
  -- The stream with identifier `id` stands at its address and has the sender of the entry.
  pub record Owned (e : Env L) (id : ℕ) (x : Entry) : Type 0 where
    pub contract : Instance
    pub info : StreamInfo
    pub deployed : e.streams (deployer.address_of e.self id) ≡ some contract
    pub stored : contract.store.config ≡ some info
    pub same_sender : info.sender ≡ x.sender

  -- The registry stands for the log, every entry has its stream, and every stream its entry.
  pub record Registered (e : Env L) (log : List Entry) : Type 0 where
    pub represents : Represents e.self log e.store
    pub placed : (id : ℕ) (x : Entry) → get_elem? log id ≡ some x → Owned e id x
    pub known :
        (a : Address) (s : Instance)
        → e.streams a ≡ some s
        → (id : ℕ) × (x : Entry) × (get_elem? log id ≡ some x) × (a ≡ deployer.address_of e.self id)

  abbrev pub IsRegistered : Env L → Type 0
  IsRegistered e = (log : List Entry) × Registered e log

  pub same-Registered :
      (e e' : Env L) (log : List Entry)
      → e'.self ≡ e.self
      → e'.streams ≡ e.streams
      → Represents e.self log e'.store
      → Registered e log
      → Registered e' log
  same-Registered e e' log self_is streams_are represents r = record {
    represents = rw self_is represents;
    placed = λ id x h.
        let o = r.placed id x h in
        record {
          contract = o.contract;
          info = o.info;
          deployed = rw (self_is, streams_are) o.deployed;
          stored = o.stored;
          same_sender = o.same_sender;
        };
    known = λ a s there. rw self_is (r.known a s (ap (λ f. f a) (sym streams_are) ∙ there));
  }

  pub create_stream-Registered :
      (e e' : Env L) (args : InitArgs) (deposit : ℤ) (id : ℕ) (log : List Entry)
      → Registered e log
      → create_stream args deposit e ≡ ok (id, e')
      → Registered e' (log ++ entry_of args ∷ [])
  create_stream-Registered e e' args deposit id log r h =
      let (_, _, opens) = create_stream-Checked e e' args deposit id h in
      let (code, _, s, o) = open_stream-Opened e e' args deposit id opens in
      let stream = deployer.address_of e.self id in
      let id_is : id ≡ length log = o.id_is ∙ r.represents.counted in
      let made : Instance = record { code = code; store = s } in
      record {
        represents =
            rw o.same_self (create_stream-Appends e e' args deposit id log r.represents h).0;
        placed = λ i x there. elim (get_elem?-append_cases log (entry_of args) i x there) [
          | inl before ↦
              let old = r.placed i x before in
              let apart : deployer.address_of e.self i ≢ stream = λ q. absurd (
                omega (
                  arith,
                  get_elem?-lt-length log i x before,
                  deployer.address_of_injective e.self i id q,
                  id_is,
                )) in
              record {
                contract = old.contract;
                info = old.info;
                deployed = rw o.same_self (
                    ap (λ f. f (deployer.address_of e.self i)) o.deployed
                    ∙ at_other e.streams stream (some made) (deployer.address_of e.self i) apart
                    ∙ old.deployed);
                stored = old.stored;
                same_sender = old.same_sender;
              }
          | inr (last, same) ↦ record {
            contract = made;
            info = stream_info_of args;
            deployed =
                rw (o.same_self, last, ← id_is)
                  (ap (λ f. f stream) o.deployed ∙ at_same e.streams stream (some made));
            stored = o.configured;
            same_sender = rw same refl;
          }
        ];
        known = λ a i there.
            elim (at_cases e.streams stream made a i (sym (ap (λ f. f a) o.deployed) ∙ there)) [
              | inl (here, _) ↦ (
                id,
                entry_of args,
                rw id_is (get_elem?-append_end log (entry_of args)),
                rw o.same_self here,
              )
              | inr (_, before) ↦
                  let (j, x, listed, at_j) = r.known a i before in
                  (
                    j,
                    x,
                    get_elem?-append_left log (entry_of args ∷ []) j x listed,
                    rw o.same_self at_j,
                  )
            ];
      }
