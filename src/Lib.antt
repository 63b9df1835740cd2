-- ===== src/Lib.antt =====
-- Conduit contracts: a model of the three contracts of the payment-streaming protocol and of how
-- they call one another.
--
-- A stream contract (contracts/stream/src) holds one escrowed deposit and releases it at a rate per
-- second to a recipient. The factory (contracts/factory/src) checks a request against the live
-- bounds of the governor (contracts/governor/src), takes the deposit, deploys a stream contract for
-- it, funds it and indexes it. The governor keeps the protocol's parameters and the roles that may
-- change them.
--
-- Shared modules:
--   Base: numbers with their Boolean tests (Base/Tests), signed integers (Base/Int), the machine
--     widths of the source with checked and saturating operations (Base/Words), the outcome of a
--     call and calls as actions on a state (Base/Effects), lists (Base/Lists).
--   Host: what stands outside the repository. `Host` is the token contracts: a balance, a transfer
--     that may refuse, and the law that a transfer moves what it says. `TtlRule` is the host's rule
--     for extending a time to live. `Deployer`, in Factory/Deploy, is the host's derivation of
--     contract addresses, which gives different addresses to different identifiers. `TokenLaws` has
--     what the chain relies on beside: no negative transfers, and no effect of one token on another.
--     All are instance arguments; Examples gives concrete ones.
--
-- The stream, contracts/stream/src:
--   Stream/Storage: storage.rs, errors.rs and the payloads of events.rs. Stream/State: state.rs
--   and ttl.rs. Stream/Math: math.rs. Stream/Events: events.rs. Of lib.rs, Stream/Setup is
--   `initialize`, Stream/Payments `withdraw`, `top_up` and `extend_duration`, Stream/Lifecycle
--   `pause`, `resume` and `transfer_recipient`, Stream/Settlement `cancel`, `force_cancel` and
--   `clawback`, and Stream/Views the read-only calls. Stream/Rebate is yield_integration.rs,
--   with RebateBounds about it. The other files of Stream are about those: Accrual about the
--   arithmetic; Flags, Pausing, PausedTime and Switches about pausing; Withdrawal, Branches,
--   Shares, Balances, Cancellation, Clawback, Funding, Solvency, Escrow, Sparing, Claim and
--   Release about tokens; Earnings, Retention, Overrun and EarlyPause about what has streamed
--   before and after a call, Receipts, Lifetime and Totals about what the recipients get over
--   the life of a stream; Run, Invariant, Preservation, History, EventLog, EventHistory and
--   EventCount about sequences of calls; Creation, Authority, Address, Terms, Phases,
--   Terminal, Handover and LegacyKeys about what their names say.
--
-- The governor, contracts/governor/src:
--   Governor/Storage: storage.rs, errors.rs and the role type. Governor/Role: role.rs and ttl.rs.
--   Governor/Config: config.rs. Governor/Calls: lib.rs. Governor/Operation lists its calls as data;
--   Membership, Access, Invariant, Governance, Start and Handover are about them.
--
-- The factory, contracts/factory/src:
--   Factory/Storage: storage.rs, errors.rs, events.rs and pause.rs. Factory/Ttl: ttl.rs.
--   Factory/Governance: governance.rs. Factory/Query: query.rs. Factory/Deploy: deploy.rs,
--   which runs the stream's own `initialize`. Of lib.rs, Factory/Creation is `create_stream`
--   and `create_batch_streams`, and Factory/Admin the rest. Checks, Opening, Escrow,
--   Acceptance and Registry are about creation, Solvency about the calls on a stream that was
--   created, Halt about the emergency halt, Fees about the governor's fee as the factory reads
--   it, Paging about the pages, Walker, Coverage and
--   Maintenance about the walker over times to live. Operation lists the calls as data; Log is
--   the abstract registry, a log of the streams created, which Refinement and Queries relate
--   to the storage.
--
-- The contracts together, Chain:
--   Chain/Steps is the step relation of the chain: one transaction after another, each a call
--   of the factory, of a stream, of a governor, or a token transfer from an account that is not
--   a contract. Streams, Soundness, Creation, Calls, Solvency and Payment are about the tokens
--   of the streams; Registry, RegistryCalls and Records about the factory's registry against
--   the streams that stand there.
--
-- How the code corresponds. A call is a function from its environment (storage, time, signatures,
-- tokens, events) to an outcome: a value with the new environment, a returned error, a panic with an
-- error, or a trap of the host. Since the host discards what a failed call wrote, only success has a
-- new environment, and `committed` is the state that a transaction leaves. Every statement of the
-- source that can stop a call is in the model where the source has it. An instance storage is a
-- record of options with a field for each key, so a key that was never set is `none`; the factory's
-- persistent entries are maps with their times to live.
--
-- Widths. `i128` is an integer with its range tested after each operation; a checked operation gives
-- `none` out of range, and a plain one traps, since the release profile has overflow checks. `u64`
-- and `u32` are natural numbers with the same tests on addition. A subtraction of times is checked
-- where the source can meet a negative difference.
--
-- Loops are structural: on the list of a batch, on the eight rounds of the walker, and on the length
-- of a page, so no fuel is needed.
--
-- Beside the contracts:
--   Transfers/Processor: src/batch_transfer_processor.rs, with Transfers/Totals about it.
--   Factory/Signature: contracts/factory/src/signature.rs, which no `mod` line names, with
--   Factory/Digest about it; `Crypto` stands for SHA-256 and ed25519.
--   Oracle: src/oracle.rs, which no crate compiles. Oracle/Feed has the setters and
--   `get_twap_price` from where it reads the configuration, Oracle/Older the older version of that
--   function which stands in front of it, Oracle/Payout the conversion to fiat; Oracle/Prices and
--   Oracle/Conversion are about them.
--
-- Not modelled: the two versions that `get_twap_price` in src/oracle.rs runs together do not
-- type-check as one function, so each is a definition of its own and the conversion takes the price
-- as an argument; the tests and the scripts. On the chain, an issuer that claws tokens back from a
-- contract, and contracts of others that call these. Addresses are numbers that are only compared;
-- the code of a wasm hash is the stream contract of this repository; event topics are constructors.
pub mod Base
pub mod Chain
pub mod Examples
pub mod Factory
pub mod Governor
pub mod Host
pub mod Oracle
pub mod Stream
pub mod Transfers
