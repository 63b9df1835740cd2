-- ===== src/Stream/LegacyKeys.antt =====
-- The two layouts of contracts/stream/src/state.rs: the consolidated key, and the separate keys
-- that older streams have.
use conduit_contracts.Base.{◌≡◌, none, arith, ok}
use conduit_contracts.Stream.Storage.{StreamInfo, Store}
use conduit_contracts.Stream.State.{Env, load, load_legacy, save}

module _ {L : Type 0} where
  abbrev pub with_store : Store → Env L → Env L
  with_store s e = record e { store = s }

  -- After a `save` both layouts hold the same state: `load` gives back what was saved, and a reader
  -- that has only the separate keys (the consolidated key taken away) gets the same, unless an old
  -- `ClawbackEnabled` or `Cancelled` key is present. `save` changes no other key.
  pub save_syncs :
      (info : StreamInfo) (e e' : Env L)
      → save info e ≡ ok (tt, e')
      → (load e' ≡ ok (info, e'))
        × (e.store.clawback_enabled ≡ none
            → e.store.cancelled ≡ none
            → let old = with_store (record e'.store { config = none }) e' in
              load old ≡ ok (info, old))
        × (e'.store.clawback_enabled ≡ e.store.clawback_enabled)
        × (e'.store.cancelled ≡ e.store.cancelled)
        × (e'.store.event_sequence ≡ e.store.event_sequence)
  unfolding save load load_legacy
  save_syncs info e e' h =
      (ground arith, λ p q. ground arith, ground arith, ground arith, ground arith)
