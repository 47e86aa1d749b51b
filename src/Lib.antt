-- ===== src/Lib.antt =====
-- Verification library of network.self.md.
--
-- The program is a network of agents that exchange messages over encrypted peer-to-peer streams. The
-- package packages/core holds the protocols (ratchets, sender keys, group epochs, frames), packages/node
-- the agent that runs them over a database and a swarm, and packages/web a page (TTYA, "talk to your
-- agent") whose visitors reach an agent over an authenticated relay. A message that arrives is checked
-- against its session (protocol-security.ts), entered in the replay ledger in one transaction with its
-- decryption (repositories.ts), put before the policy gate (policy-gate.ts) and, where the gate admits
-- it, pushed on the queue that the agent's runtime reads (agent.ts, inbound-queue.ts).
--
-- The modules, with the code that each one models:
--   Prelude: shared names; Boolean tests, list lemmas, buffers that keep their last elements (Rings),
--     JavaScript maps as association lists in insertion order (Maps), and results of code that may
--     throw (Results).
--   Value, Bytes: untyped values that cross a trust boundary; hexadecimal text, big-endian words.
--   Policy: packages/node/src/policy and the types of packages/core/src/policy and events. Types are the
--     records; Validate is validateInboundEvent; Mention and Decide are AgentPolicy.decide and what it
--     calls; Audit is PolicyAuditLog; Gate is PolicyGate, with the effects that evaluate defers to the
--     commit as a list (Effect) that commit runs.
--   InboundQueue: InboundEventQueue. Reception: prepareInbound and emitPolicyEvent of agent.ts, which
--     join the gate and the queue.
--   Replay: ProtocolReplayRepository, its table as a list of rows. Authentication:
--     validateAuthenticatedMessage and what it calls, with fingerprintFromPublicKey.
--   Crypto: packages/core/src/crypto/kdf.ts over the primitives of the libraries; SenderKeys and
--     DoubleRatchet: the two files of that name in packages/core/src/protocol.
--   DirectRatchet: packages/node/src/network/direct-ratchet.ts, over DoubleRatchet.
--   GroupState: group-state.ts, the signed epochs of a group's membership. EpochEnvelope:
--     epoch-envelope.ts, in which an epoch is delivered; its child Fingerprint is about the names in it.
--   Announce: announce-signature.ts, the signed list of a peer's public groups.
--   Groups: the group manager of packages/node/src/groups/group-manager.ts over its tables of
--     packages/node/src/storage/repositories.ts (Tables). SenderKeyTable, EpochTable, Membership and
--     Invites are the repositories; Opening, Receive and Handle are handleGroupEpoch, Distribute is
--     distributeSenderKeys, Offers and Manage are the transaction of handleGroupManagement, Messages is
--     encryptDelivery and the transactions of handleGroupMessage and handleSenderKeyDistribution,
--     Rotation is rotateKeys, rotateExpiredKey and kickFromGroup. The other children hold the proofs: what
--     links one epoch to the next (Chain), what a step keeps (Frame, Anchored), the histories that all
--     calls leave (Linked, Deliveries, History, Immutable), the log they implement (Log), that a node catches up
--     (Progress, CatchUp), and a message between two nodes (Paired, Sealing, Exchange).
--   Frames: TTYAFrameDecoder of ttya-auth.ts and encodeFrame of packages/web/src/bridge.ts.
--   Outbox: DeliveryRepository of packages/node/src/storage/delivery.ts, its two tables as lists of rows.
--   Approval: ApprovalQueue of packages/web/src/approval.ts.
--
-- How state and errors are modelled. An object with state is a record, and a method is a function from
-- the record to the record after the call, with the result beside it; a method that throws gives an
-- error value (Result) and no new state. Clocks, random bytes, fresh ids and tokens are arguments of
-- the call that draws them. Functions of libraries (HKDF, X25519, XChaCha20-Poly1305, Ed25519, SHA-256,
-- CBOR, UTF-8 and lower case) are fields of records that the definitions take, and what the code relies on
-- of them is a record of laws (CryptoLaws, PrimitiveLaws) that a concrete instance is shown to meet.
--
-- Bounds and fuel. Numbers are natural numbers where the code has safe integers from zero up; a
-- JavaScript number that is only tested is a Number of Value. Loops over lists are structural. The loop
-- of the frame decoder runs on fuel, as many passes as the chunk has bytes: each pass takes at least
-- one byte, so the fuel is never used up before the chunk (Frames/Bytewise). The search for mentions
-- runs on the length of the text in the same way, the decimal text of a message number on the number
-- itself, and the base32 text on the number of pending bits.
--
-- What is not modelled. Sockets, the swarm, the noise stream and the SQL statements are the work of
-- libraries; the database transaction is modelled as a call that changes nothing where it throws. Of the
-- group manager, the creation of groups, joining and rejoining, the rows of messages, and what is sent
-- to peers besides keys are left out; the checks of a message before the transaction are Authentication,
-- and the envelope of a sender key is a payload already opened. The TTYA handshake, the delivery manager,
-- the handling of announcements, the sender-key envelope and the policy configuration are not modelled. Pages, command line, tools and the web server are
-- presentation over the parts above.
pub mod Announce
pub mod Prelude
pub mod Value
pub mod Bytes
pub mod Policy
pub mod InboundQueue
pub mod Reception
pub mod Crypto
pub mod SenderKeys
pub mod DirectRatchet
pub mod DoubleRatchet
pub mod Approval
pub mod EpochEnvelope
pub mod GroupState
pub mod Groups
pub mod Frames
pub mod Replay
pub mod Authentication
pub mod Outbox
