-- ===== src/Lib.antt =====
-- record-node: the core of the Record protocol's peer, a store of signed, append-only libraries.
--
-- A library is a directed graph of signed entries. An entry carries one operation (a track envelope, a
-- label record, an About record, a capability or revocation, an identity record or a listen), names its
-- parents by hash in `next`, and has a Lamport clock. Peers fetch blocks of entries from one another and
-- merge them; each block is decoded, checked, authorised over its causal past and inserted, and the
-- current entry of every key that it touches is resolved again. A key outside the write list signs under
-- a capability; a revocation makes entries under it inert.
--
-- Which file models what (paths from the repository's root):
--   Value, Result, Host, Identity: src/types/guards.ts, src/types/errors.ts, what packages provide, and
--     src/identity/key-pair.ts and src/encoding/sha256.ts.
--   Encoding: src/encoding. Base58 is decode_base58btc and Base58/Encoder is encode_base58btc; Cid,
--     Canonical and LibraryAddress are the files of those names.
--   Entry: src/types/entry.ts; Entry/Payloads is envelope.ts and listen.ts, Entry/Records is records.ts,
--     Entry/Identities is identity-record.ts, Entry/Operations is operations.ts, Entry/Signed is
--     signed.ts and build.ts, all of src/entry.
--   Access: src/access-control. Filter/Shapes and Filter/Evaluate are filter.ts, Records is
--     capability-record.ts, Capability and Authorise are capability.ts, and Chain is create.ts,
--     resolve.ts and build_ac_chain of src/encoding/library-address.ts.
--   Oplog: src/oplog. Oplog is the state and insert_entry of dag.ts, with Refresh (refresh_access_state)
--     and Append (append_entry_with_access); Order is current-state.ts, Causal is causal.ts, Heads is
--     heads.ts, Accept is accept.ts, Merge is merge.ts, Identities is identity-library.ts.
--   Replication/Traversal: src/replication/traversal.ts, one function for each call, answer and timeout;
--     a fetch in flight is known by the number of its start. Traversal/Runs are its histories.
--   Replication/Heads: the heads messages of src/replication/messages.ts and create_heads_receiver of
--     src/replication/heads-exchange.ts. A message is the length in bytes of its JSON text and the value
--     that the text parses to, as is an announcement.
--   Replication/Orchestrator: src/replication/merge-orchestrator.ts. Replication/Publisher is
--     create_heads_publisher of heads-exchange.ts, Replication/Announcer is announcement.ts, and
--     Replication/Spacing is what their limits share.
--   Replication/Announcements is announcement.ts on what a message carries, and
--     Replication/AnnouncementMessages the announcement of messages.ts; its Json
--     is what JSON.parse returns of what JSON.stringify writes.
--   Replication/Replicator: replicator.ts, which joins the parts of replication; Replicator/Events has its
--     histories.
--   Peer: src/peer. Peer is what operations read of context.ts; Ownership, WriteTarget, Policy and State are
--     the files of those names. Api/AccessTokens: src/api/access-tokens.ts.
--   Fabric: src/fabric. Blocks is block.ts, with the Map of src/adapter/memory/content-store.ts; PinIndex
--     and LibraryPins are create_pin_index and create_library_pin_record of pin-index.ts; CommitBatch is
--     commit-batch.ts.
-- The other files under Oplog and Access hold proofs, as do the files below a component's. Oplog/Consistent
-- states the invariant between two operations; Oplog/Reachable and Oplog/Verified are the histories of an
-- oplog.
--
-- How the state is modelled. A JavaScript Map is an association list (Dict) and a Set of strings is a
-- list (TextSet); strings are lists of UTF-16 code units. A function that mutates the oplog returns the
-- new one, with what the source returns. A throw is `err` with the error's code (Result); messages are
-- left out, since callers branch on the code; what the peer refuses with is Answer, in Peer.
-- Numbers are native; where the source reads a number from outside, the model tests that it is a safe
-- integer as the source does. A rowid of SQLite is one more than the largest in its table.
--
-- Fuel. `in_causal_past` runs on one more than the pointers it can push; `capability_chain` on one more
-- than the clock of the capability, since each capability was issued later than the one it cites; the
-- decoder and encoder of base58 on the length of what they read; the shape check of a filter on the
-- source's own depth bound; a walk of the orchestrator on two more than the entries that wait and the
-- parents that they name; its queue of rejected entries on one more than the roots and the entries that
-- wait. The walk of a pin takes its fuel as a parameter: more than the number of blocks is enough when
-- the blocks lie below one another without a cycle.
--
-- Steps. A pin, an unpin and an eviction are one step each, since the lock of a root and the gate of the
-- evictions let none of them see another half done. A run of the merge orchestrator is two steps, before
-- and after the merge that it awaits; a transaction of a commit batch is BEGIN, the work and COMMIT as the
-- source awaits them. A flush of the publisher chains a send, and each message of a send is published by a
-- step of its own. The start of a replicator is two steps, before and after its subscription. A timer
-- fires at some time from which it is due.
--
-- Parameters. dag-cbor, sha256, sha3-512, secp256k1, CID parsing and Unicode normalisation come from
-- packages or the runtime: they are the fields of Host. How a CID prints and what a dag-pb block links to
-- are the fields of CidHost. What a theorem assumes of them is among its hypotheses: that no two CIDs have
-- one text, for the histories of pins, and that the three objects of a chain decode to their fields
-- in the codec's key order and encode to their bytes again, under CIDs that differ, for its round trip.
-- What a CID becomes in JSON, and the length in bytes of an announcement, are parameters too.
--
-- Not modelled: the network half of the fabric, the rest of the peer (its library manager, imports, blobs
-- and views), the query database, ingest, the routes of the HTTP interface, and the adapters for libp2p and
-- the file system: they are I/O, SQL or the composition of the parts above. Nor are the properties that a
-- JavaScript object inherits: a path of a filter that names one reads as missing here. Nor is a batch of
-- commits that SQLite rolls back undone in the pin tables.
pub mod Prelude
pub mod Dict
pub mod TextSet
pub mod Value
pub mod Result
pub mod Entry
pub mod Oplog
pub mod Host
pub mod Identity
pub mod Encoding
pub mod Access
pub mod Api
pub mod Replication
pub mod Peer
pub mod Fabric
pub mod Examples
pub mod Tests
