-- ===== src/Lib.antt =====
-- A model of the kernel of Aura: the parts that decide what an effect may do, that record what it did,
-- and that make the record evidence.
--
-- The parts and their files, with paths from the repository's root:
--   Channel, Channel/Dedup: kernel/internal/channel/envelope.go. An envelope is a record, `validate` its
--     rules, `Dedup` the bounded set of keys behind at-least-once delivery.
--   Fifo: the bound that the in-memory indexes share, a map with the order in which its keys came.
--   Executor/Causal: kernel/internal/executor/causal.go. The four indexes that let a cancel reach a
--     whole chain; each call of theirs is one step, since a mutex guards it.
--   Executor/Speculation: kernel/internal/executor/speculation.go. The guesses made on partial output.
--   Executor/Budget: kernel/internal/executor/budget.go. Deadlines, and the estimate of a session's tokens.
--   Executor/Policy: kernel/internal/executor/policy.go, and in Policy/Gates `applyPolicy` of
--     kernel/internal/executor/session.go, through which every edge of a graph passes. Policy/Rate is
--     the fixed-window limit, and Policy/Load the reading of a policy file.
--   Executor/Graph: kernel/internal/executor/ir.go. The document of a graph, and the rules it has to keep.
--   Executor/Session: kernel/internal/executor/session.go. A session's state, with what a call emits as a list of
--     outputs; Session/Forward is one hop of an edge with its rate limit, budget, seal and deadline,
--     Session/Gate the human-approval gate, and Session/Route what becomes of an envelope.
--   Broker: kernel/internal/broker/broker.go. `resolve` exchanges the receipt of a sealed effect for
--     secrets.
--   Lease: kernel/internal/lease/lease.go. The row of the lease, and its statements as steps of racing processes.
--   Admission: kernel/internal/gateway/admission.go. The account of the memory that connections reserve.
--   Access: kernel/internal/gateway/auth.go and scope.go beside it, and `authenticateWire` of gateway.go. Who a
--     caller is, by the token that it presents, and which routes and which registration that allows;
--     Access/Mux is the patterns that `Handler` of gateway.go registers.
--   Approvals: kernel/internal/approvals/approvals.go. The questions that wait for a person; a channel is
--     a number, and what each was sent is kept, with the timers that are armed.
--   Ledger/Merkle: kernel/internal/ledger/merkle.go. The tree head, the incremental tree, and inclusion
--     proofs.
--   Ledger/Records, Ledger/Chain: kernel/internal/ledger/ledger.go and verify.go beside it. The entries and
--     the requests; what the ledger calls is the record `Outside`; `seal` appends to
--     the chain and the tree, and `verify_chain` walks the rows.
--   Ledger/Context: kernel/internal/ledger/approval.go. The canonical form of what an approval was shown.
--   Ledger/Succession: kernel/internal/ledger/succession.go. The handovers of the node's key, the walk
--     back from the trusted key, and which key was in force at a number.
--   Ledger/Verify: verify.go and verifyWitnesses of witness.go there. The report and its verdict.
--   Signing: kernel/internal/signing/signing.go. The check of a signature.
--   Base: lists, maps, texts, integers and tests that the others share.
--
-- How the state corresponds: a Go map is an association list, a mutated object is a record that each
-- function returns anew, a nil error is `none` or the constructor of success, and each error is a
-- constructor. The clock, the store's answers, SHA-256, JSON, the AEAD box, signatures and the sort of
-- strings are arguments. Integers are natural numbers where the code keeps them non-negative, and Base/Int
-- where it does not, wrapped as an int64 in the account of admission; a text is a list of characters; the
-- other sizes and numbers stay far below 2^64.
--
-- Fuel: the loops that halve or double (`double_below`, `strip`) run on their argument, which they
-- pass in fewer rounds; `root_fuel` and `path_fuel` run on the number of leaves, since each side of a
-- split is shorter. A clock read twice in one call is read once here.
--
-- Not modelled: the event log, HTTP and the other transports, SQL, the runtimes of skills, federation, the
-- hub, the countersigning of witnesses, consistency proofs, the
-- wiring and the pins of a session, the command line and the media service.
pub mod Signing
pub mod Base
pub mod Fifo
pub mod Channel
pub mod Executor
pub mod Broker
pub mod Lease
pub mod Access
pub mod Admission
pub mod Approvals
pub mod Ledger
