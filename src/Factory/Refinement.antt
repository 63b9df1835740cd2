-- ===== src/Factory/Refinement.antt =====
-- The calls of contracts/factory/src/lib.rs refine an append to the log of the streams created, and
-- its queries read that log.
use mathlib.Core.List.{append_assoc, append-nil}
use conduit_contracts.Base.{
  ℕ, ◌+◌, ◌≡◌, refl, sym, ap, subst, ◌∙◌, Bool, true, false, arith, List, [], ◌∷◌, ◌++◌, ok, pure,
  ◌>>=◌, >>=-ok, ℤ, Outcome, err, panic, trap,
}
use conduit_contracts.Host.{Address, Host}
use conduit_contracts.Factory.Storage.{Env, Call, Error}
use conduit_contracts.Factory.Deploy.{Deployer, InitArgs}
use conduit_contracts.Factory.Creation.{
  create_stream, create_all, create_batch_streams, indexed, BatchStreamRequest, request_args,
}
use conduit_contracts.Factory.Opening.{open_stream-Opened}
use conduit_contracts.Factory.Checks.{create_stream-Checked}
use conduit_contracts.Factory.Registry.{create_all-cons, batch_steps}
use conduit_contracts.Factory.Log.{Entry, Represents, indexed-Represents}
use conduit_contracts.Factory.Maintenance.{
  SameIndex, pause-SameIndex, unpause-SameIndex, upgrade_stream_wasm-SameIndex,
  initialize-SameIndex,
}
use conduit_contracts.Factory.Operation.{
  Op, apply, Transaction, begun, execute, run, outcomes, succeeded,
}

abbrev pub entry_of : InitArgs → Entry
entry_of args = record { sender = args.sender; recipient = args.recipient }

abbrev pub batch_entries : Address → List BatchStreamRequest → List Entry
batch_entries sender [] = []
batch_entries sender (r ∷ rs) =
    record { sender = sender; recipient = r.recipient } ∷ batch_entries sender rs

-- What a successful call appends to the log.
abbrev pub entries : Op → List Entry
entries (Op.initialize wasm_hash governor) = []
entries (Op.create_stream args deposit) = entry_of args ∷ []
entries (Op.create_batch_streams sender requests clawback) = batch_entries sender requests
entries (Op.upgrade_stream_wasm wasm_hash) = []
entries Op.pause = []
entries Op.unpause = []

abbrev pub recorded : Op → Bool → List Entry → List Entry
recorded op true log = log ++ entries op
recorded op false log = log

-- The abstract factory: the log after a history of calls and of whether each succeeded.
abbrev pub replay : List (Op × Bool) → List Entry → List Entry
replay [] log = log
replay ((op, succeeds) ∷ os) log = replay os (recorded op succeeds log)

module _ {L : Type 0} ⦃host : Host L⦄ ⦃deployer : Deployer⦄ where
  -- What a call does: the address stays, and the storage stands for the log with `more` appended.
  abbrev Appends : Env L → Env L → List Entry → List Entry → Type 0
  Appends e e' log more = Represents e.self (log ++ more) e'.store × (e'.self ≡ e.self)

  pub create_stream-Appends :
      (e e' : Env L) (args : InitArgs) (deposit : ℤ) (id : ℕ) (log : List Entry)
      → Represents e.self log e.store
      → create_stream args deposit e ≡ ok (id, e')
      → Appends e e' log (entry_of args ∷ [])
  create_stream-Appends e e' args deposit id log v h =
      let (_, _, opens) = create_stream-Checked e e' args deposit id h in
      let (_, _, _, o) = open_stream-Opened e e' args deposit id opens in
      let place = λ (k : ℕ).
        indexed ⦃rule = host.ttl_rule⦄ k (k + 1) (deployer.address_of e.self k) args.sender
          args.recipient e.store in
      (
        subst (Represents e.self (log ++ entry_of args ∷ []))
            (sym (o.registered ∙ ap place o.id_is))
            (indexed-Represents ⦃rule = host.ttl_rule⦄ e.self log (entry_of args) e.store v),
        o.same_self,
      )

  create_all-Appends :
      (e e' : Env L) (sender : Address) (clawback : Bool) (rs : List BatchStreamRequest)
      (ids : List ℕ) (log : List Entry)
      → Represents e.self log e.store
      → create_all sender clawback rs e ≡ ok (ids, e')
      → Appends e e' log (batch_entries sender rs)
  unfolding create_all
  create_all-Appends e e' sender clawback [] ids log v h =
      let same : e' ≡ e = ground arith in rw (same, append-nil) (v, refl)
  create_all-Appends e e' sender clawback (r ∷ rs) ids log v h =
      let (id, ids', mid, one, rest, _) = create_all-cons e e' sender clawback r rs ids h in
      let args = request_args sender clawback r in
      let (first, self_is) = create_stream-Appends e mid args r.deposit id log v one in
      let (all, self_is') =
        create_all-Appends mid e' sender clawback rs ids' (log ++ entry_of args ∷ [])
          (subst (λ a. Represents a (log ++ entry_of args ∷ []) mid.store) (sym self_is) first)
          rest in
      (
        rw (← append_assoc log (entry_of args ∷ []) (batch_entries sender rs)) (
            subst
              (λ a. Represents a ((log ++ entry_of args ∷ []) ++ batch_entries sender rs) e'.store)
              self_is all),
        self_is' ∙ self_is,
      )

  pub kept-Appends :
      (e e' : Env L) (log : List Entry)
      → Represents e.self log e.store
      → SameIndex e.store e'.store × (e'.self ≡ e.self)
      → Appends e e' log []
  kept-Appends e e' log v (k, s) = (
    rw append-nil (record {
      counted = k.same_count ∙ v.counted;
      addressed = λ i. rw k.same_addr (v.addressed i);
      senders = λ a. rw k.same_senders (v.senders a);
      recipients = λ a. rw k.same_recipients (v.recipients a);
    }),
    s,
  )

  pub dropped :
      {A : Type 0} (m : Call L A) (e e' : Env L)
      → (m >>= λ a. pure tt) e ≡ ok (tt, e')
      → (a : A) × (m e ≡ ok (a, e'))
  dropped m e e' h =
      let (a, mid, one, rest) = >>=-ok m (λ a. pure tt) e tt e' (m e) refl h in (a, ground arith)

  apply-Appends :
      (op : Op) (e e' : Env L) (log : List Entry)
      → Represents e.self log e.store
      → apply op e ≡ ok (tt, e')
      → Appends e e' log (entries op)
  unfolding apply
  apply-Appends (Op.initialize wasm_hash governor) e e' log v h =
      kept-Appends e e' log v
        (initialize-SameIndex ⦃rule = host.ttl_rule⦄ e e' wasm_hash governor h)
  apply-Appends (Op.create_stream args deposit) e e' log v h =
      let (id, one) = dropped (create_stream args deposit) e e' h in
      create_stream-Appends e e' args deposit id log v one
  apply-Appends (Op.create_batch_streams sender rs clawback) e e' log v h =
      let (ids, k) = dropped (create_batch_streams sender rs clawback) e e' h in
      create_all-Appends e e' sender clawback rs ids log v
        (batch_steps e e' sender clawback rs ids k).2
  apply-Appends (Op.upgrade_stream_wasm wasm_hash) e e' log v h =
      kept-Appends e e' log v
        (upgrade_stream_wasm-SameIndex ⦃rule = host.ttl_rule⦄ e e' wasm_hash h)
  apply-Appends Op.pause e e' log v h =
      kept-Appends e e' log v (pause-SameIndex ⦃rule = host.ttl_rule⦄ e e' h)
  apply-Appends Op.unpause e e' log v h =
      kept-Appends e e' log v (unpause-SameIndex ⦃rule = host.ttl_rule⦄ e e' h)

  execute-Represents :
      (t : Transaction L) (e : Env L) (log : List Entry) (r : Outcome Error (Unit {0} × Env L))
      → apply t.op (begun t e) ≡ r
      → Represents e.self log e.store
      → Represents e.self (recorded t.op (succeeded r) log) (execute t e).store
        × ((execute t e).self ≡ e.self)
  unfolding execute
  execute-Represents t e log (ok (u, e')) h v =
      let same : execute t e ≡ e' = ground arith in
      rw same (apply-Appends t.op (begun t e) e' log v h)
  execute-Represents t e log (err x) h v =
      let same : execute t e ≡ begun t e = ground arith in rw same (v, refl)
  execute-Represents t e log (panic x) h v =
      let same : execute t e ≡ begun t e = ground arith in rw same (v, refl)
  execute-Represents t e log (trap x) h v =
      let same : execute t e ≡ begun t e = ground arith in rw same (v, refl)

  -- Whatever calls are made on a factory whose storage stands for a log of streams, by anybody and
  -- with any outcome: afterwards it stands for that log with the streams of the successful calls
  -- appended, in order. So the count is the length of the log, exactly the identifiers below it
  -- have an address, and the two indices list exactly the places of the party's streams.
  pub run_refines_log :
      (ts : List (Transaction L)) (e : Env L) (log : List Entry)
      → Represents e.self log e.store
      → Represents e.self (replay (outcomes ts e) log) (run ts e).store × ((run ts e).self ≡ e.self)
  unfolding run outcomes
  run_refines_log [] e log v = (v, refl)
  run_refines_log (t ∷ ts) e log v =
      let r = apply t.op (begun t e) in
      let log' = recorded t.op (succeeded r) log in
      let (one, self_is) = execute-Represents t e log r refl v in
      let (rest, self_is') =
        run_refines_log ts (execute t e) log'
          (subst (λ a. Represents a log' (execute t e).store) (sym self_is) one) in
      (
        subst
            (λ a.
              Represents a (replay (outcomes ts (execute t e)) log') (run ts (execute t e)).store)
            self_is rest,
        self_is' ∙ self_is,
      )
