-- ===== src/Examples/Transfers.antt =====
-- Batches of amounts on concrete inputs.
use conduit_contracts.Base.{
  ◌≡◌, refl, true, false, none, some, [], ◌∷◌, checked_add_u64, u64_limit, ◌-◌,
}
use conduit_contracts.Transfers.Processor.{
  err, processor_locked, calculation_overflow, Store, is_locked, add_all, process_batch,
}
use conduit_contracts.Transfers.Totals.{batch_answer, process_batch_lem}

abbrev unused : Store
unused = record { lock = none }

overflows : (process_batch ((u64_limit - 1) ∷ 1 ∷ []) unused).0 ≡ err calculation_overflow
unfolding process_batch add_all checked_add_u64
overflows = refl

process_batch_lem_example :
    (is_locked unused ≡ false
      → ((process_batch (3 ∷ 5 ∷ []) unused).0 ≡ batch_answer (3 ∷ 5 ∷ []))
        × ((process_batch (3 ∷ 5 ∷ []) unused).1.lock ≡ some false))
    × (is_locked unused ≡ true → process_batch (3 ∷ 5 ∷ []) unused ≡ (err processor_locked, unused))
process_batch_lem_example = process_batch_lem (3 ∷ 5 ∷ []) unused
