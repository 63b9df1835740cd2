-- ===== src/Transfers/Processor.antt =====
-- src/batch_transfer_processor.rs: a batch of amounts is added up under a lock.
use mathlib.Core.Option
use conduit_contracts.Base.{
  ℕ, Bool, true, false, Option, some, none, List, [], ◌∷◌, ltb, if◌then◌else◌, length,
  checked_add_u64,
}

pub data Error : Type 0 where
  processor_locked calculation_overflow batch_too_large : Error

pub data Answer : Type 0 where
  ok : ℕ → Answer
  err : Error → Answer

-- Instance storage: the entry `B_Lock`, `none` if it was never set. Here it is kept on an error too,
-- to see what the code itself does with it.
pub record Store : Type 0 where
  pub lock : Option Bool

abbrev pub max_amounts : ℕ
max_amounts = 100

-- `for amount in amounts.iter()`; `none` is the early return.
unfoldable pub add_all : List ℕ → ℕ → Option ℕ
add_all [] total = some total
add_all (amount ∷ amounts) total = elim (checked_add_u64 total amount) [
  | none ↦ none
  | some new_total ↦ add_all amounts new_total
]

abbrev pub is_locked : Store → Bool
is_locked s = Option.get_or s.lock false

abbrev pub set_lock : Bool → Store → Store
set_lock flag s = record s { lock = some flag }

unfoldable pub process_batch : List ℕ → Store → Answer × Store
process_batch amounts s =
    if is_locked s
    then (err processor_locked, s)
    else (let locked = set_lock true s in
        if ltb max_amounts (length amounts)
        then (err batch_too_large, set_lock false locked)
        else elim (add_all amounts 0) [
          | none ↦ (err calculation_overflow, set_lock false locked)
          | some total ↦ (ok total, set_lock false locked)
        ])

-- What the host keeps: the storage of a call that returned an error is rolled back.
unfoldable pub process : List ℕ → Store → Answer × Store
unfolding process_batch
process amounts s =
    let (answer, s') = process_batch amounts s in
    elim answer [ ok total ↦ (ok total, s') | err e ↦ (err e, s) ]
