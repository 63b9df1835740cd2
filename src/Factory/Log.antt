-- ===== src/Factory/Log.antt =====
-- The abstract view of the factory's registry: the log of the streams created, in order. It stands
-- for the four entries of contracts/factory/src/storage.rs that index the streams.
use mathlib.Core.Option
use conduit_contracts.Base.{
  ℕ, ◌+◌, ◌≡◌, refl, Bool, Option, some, none, arith, List, [], ◌∷◌, ◌++◌, length, length-append,
  ◌==◌, ltb, if◌then◌else◌,
}
use conduit_contracts.Host.{Address, TtlRule}
use conduit_contracts.Factory.Storage.{Store, at}
use conduit_contracts.Factory.Deploy.{Deployer}
use conduit_contracts.Factory.Creation.{indexed}
use conduit_contracts.Factory.Registry.{count_of}

pub record Entry : Type 0 where
  pub sender : Address
  pub recipient : Address

-- The places of the entries that pass a test, counted from `first`.
abbrev pub positions : {A : Type 0} → (A → Bool) → ℕ → List A → List ℕ
positions p first [] = []
positions p first (x ∷ xs) =
    let rest = positions p (first + 1) xs in if p x then first ∷ rest else rest

positions-append :
    {A : Type 0} (p : A → Bool) (first : ℕ) (xs : List A) (x : A)
    → positions p first (xs ++ x ∷ [])
      ≡ (if p x then positions p first xs ++ (first + length xs) ∷ [] else positions p first xs)
positions-append p first [] x = ground arith
positions-append p first (y ∷ xs) x = ground (arith, positions-append p (first + 1) xs x)

abbrev pub sent_by : Address → Entry → Bool
sent_by a x = a == x.sender

abbrev pub received_by : Address → Entry → Bool
received_by a x = a == x.recipient

module _ ⦃deployer : Deployer⦄ where
  -- The storage of the factory at `self` holds exactly the log.
  pub record Represents (self : Address) (log : List Entry) (s : Store) : Type 0 where
    pub counted : count_of s ≡ length log
    pub addressed :
        (i : ℕ)
        → s.stream_addr i ≡ (if ltb i (length log) then some (deployer.address_of self i) else none)
    pub senders : (a : Address) → Option.get_or (s.by_sender a) [] ≡ positions (sent_by a) 0 log
    pub recipients :
        (a : Address) → Option.get_or (s.by_recipient a) [] ≡ positions (received_by a) 0 log

  pushed :
      (f : Address → Option (List ℕ)) (k n : ℕ) (log : List Entry) (p : Address → Entry → Bool)
      (x : Entry)
      → ((a : Address) → Option.get_or (f a) [] ≡ positions (p a) 0 log)
      → n ≡ length log
      → ((a : Address) → p a x ≡ (a == k))
      → (a : Address)
      → Option.get_or (at f k (some (Option.get_or (f k) [] ++ n ∷ [])) a) []
        ≡ positions (p a) 0 (log ++ x ∷ [])
  pushed f k n log p x h e q a = ground (arith, h a, h k, q a, positions-append (p a) 0 log x)

  pub indexed-Represents :
      ⦃rule : TtlRule⦄ (self : Address) (log : List Entry) (x : Entry) (s : Store)
      → Represents self log s
      → Represents self (log ++ x ∷ []) (
          indexed
            (count_of s)
            (count_of s + 1)
            (deployer.address_of self (count_of s))
            x.sender
            x.recipient
            s)
  unfolding indexed
  indexed-Represents self log x s v = record {
    counted = omega (arith, v.counted, length-append log (x ∷ []));
    addressed = λ i. ground (arith, v.counted, v.addressed i, length-append log (x ∷ []));
    senders =
        pushed s.by_sender x.sender (count_of s) log sent_by x v.senders v.counted (λ a. refl);
    recipients =
        pushed s.by_recipient x.recipient (count_of s) log received_by x v.recipients v.counted
          (λ a. refl);
  }
