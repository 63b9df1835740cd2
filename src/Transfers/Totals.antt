-- ===== src/Transfers/Totals.antt =====
-- src/batch_transfer_processor.rs against the sum of the amounts, and its lock over many batches.
use mathlib.Core.Path.{ap₂}
use conduit_contracts.Base.{
  ℕ, ◌+◌, ◌<◌, ◌≡◌, refl, true, false, some, arith, List, [], ◌∷◌, ltb, if◌then◌else◌, length,
  checked_add_u64, in_u64, u64_limit,
}
use conduit_contracts.Transfers.Processor.{
  Answer, ok, err, processor_locked, calculation_overflow, batch_too_large, Store, is_locked,
  max_amounts, add_all, process_batch, process,
}

abbrev pub sum : List ℕ → ℕ
sum [] = 0
sum (x ∷ xs) = x + sum xs

-- The checked loop fails exactly if the whole sum does not fit.
add_all-sum :
    (amounts : List ℕ) (total : ℕ)
    → total < u64_limit
    → add_all amounts total ≡ in_u64 (total + sum amounts)
unfolding add_all checked_add_u64
add_all-sum [] total h = ground arith
add_all-sum (amount ∷ amounts) total h = ground (arith, add_all-sum amounts (total + amount))

-- What the code should answer.
abbrev pub batch_answer : List ℕ → Answer
batch_answer amounts =
    if ltb max_amounts (length amounts)
    then err batch_too_large
    else if ltb (sum amounts) u64_limit
    then ok (sum amounts)
    else err calculation_overflow

-- On a free processor a batch of more than 100 amounts is refused, a batch whose sum is 2^64 or more
-- overflows, whatever the order of the amounts, and every other is answered with its sum; on every
-- one of these paths the code releases the lock. On a locked one every batch is refused, and the
-- lock stays.
pub process_batch_lem :
    (amounts : List ℕ) (s : Store)
    → (is_locked s ≡ false
        → ((process_batch amounts s).0 ≡ batch_answer amounts)
          × ((process_batch amounts s).1.lock ≡ some false))
      × (is_locked s ≡ true → process_batch amounts s ≡ (err processor_locked, s))
unfolding process_batch
process_batch_lem amounts s =
    (λ free. (ground (arith, add_all-sum amounts 0), ground arith), λ locked. ground arith)

-- A history of batches.
pub process_each : List (List ℕ) → Store → List Answer × Store
process_each [] s = ([], s)
process_each (amounts ∷ batches) s =
    let (answer, s') = process amounts s in
    let (answers, s'') = process_each batches s' in (answer ∷ answers, s'')

abbrev pub batch_answers : List (List ℕ) → List Answer
batch_answers [] = []
batch_answers (amounts ∷ batches) = batch_answer amounts ∷ batch_answers batches

process_lem :
    (amounts : List ℕ) (s : Store)
    → is_locked s ≡ false
    → ((process amounts s).0 ≡ batch_answer amounts) × (is_locked ((process amounts s).1) ≡ false)
unfolding process
process_lem amounts s h =
    let (answered, released) = (process_batch_lem amounts s).0 h in (ground arith, ground arith)

-- Batches one after another on a free processor are each answered for themselves, whatever the
-- others were and whether they failed, and leave the processor free.
pub process_each_lem :
    (batches : List (List ℕ)) (s : Store)
    → is_locked s ≡ false
    → ((process_each batches s).0 ≡ batch_answers batches)
      × (is_locked ((process_each batches s).1) ≡ false)
unfolding process_each
process_each_lem [] s h = (refl, h)
process_each_lem (amounts ∷ batches) s h =
    let (answered, free) = process_lem amounts s h in
    let (rest, free') = process_each_lem batches ((process amounts s).1) free in
    (ap₂ ◌∷◌ answered rest, free')
