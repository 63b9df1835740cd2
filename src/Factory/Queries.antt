-- ===== src/Factory/Queries.antt =====
-- The queries of contracts/factory/src/lib.rs on a factory whose storage stands for a log.
use conduit_contracts.Base.{
  ℕ, ◌<◌, ◌≡◌, refl, ap, some, none, List, length, take, drop, ok, u32_limit, ltb, if◌then◌else◌,
}
use conduit_contracts.Host.{Address}
use conduit_contracts.Factory.Storage.{Env}
use conduit_contracts.Factory.Deploy.{Deployer}
use conduit_contracts.Factory.Admin.{
  stream_address, stream_count, streams_by_sender, streams_by_recipient,
}
use conduit_contracts.Factory.Paging.{paginate_lem}
use conduit_contracts.Factory.Log.{Entry, positions, sent_by, received_by, Represents}

module _ {L : Type 0} ⦃deployer : Deployer⦄ where
  -- On a factory whose storage stands for a log, the queries read the log: the count is its length,
  -- the identifiers below it have the addresses that they were deployed at and no other has one,
  -- and a page of a party's streams is the part asked for of the places of that party in the log.
  -- No query fails or changes the state. The lists are ones that a `Vec` can hold.
  pub queries_read_log :
      (e : Env L) (log : List Entry) (id offset limit : ℕ) (a : Address)
      → Represents e.self log e.store
      → length (positions (sent_by a) 0 log) < u32_limit
      → length (positions (received_by a) 0 log) < u32_limit
      → (stream_count e ≡ ok (length log, e))
        × (stream_address id e
            ≡ ok ((if ltb id (length log) then some (deployer.address_of e.self id) else none), e))
        × (streams_by_sender a offset limit e
            ≡ ok (take limit (drop offset (positions (sent_by a) 0 log)), e))
        × (streams_by_recipient a offset limit e
            ≡ ok (take limit (drop offset (positions (received_by a) 0 log)), e))
  unfolding stream_count stream_address streams_by_sender streams_by_recipient
  queries_read_log e log id offset limit a v fits fits' = (
    ap (λ n. ok (n, e)) v.counted,
    ap (λ o. ok (o, e)) (v.addressed id),
    rw (v.senders a, paginate_lem (positions (sent_by a) 0 log) offset limit fits) refl,
    rw (v.recipients a, paginate_lem (positions (received_by a) 0 log) offset limit fits') refl,
  )
