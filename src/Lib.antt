-- ===== src/Lib.antt =====
-- Models of the blockchain node of inca-go, and what is proved of them.
--
-- A node keeps blocks that it fetches by reference and links them into segments. Segments grow at
-- the head when a block is committed and at the tail when they are rewound, until they are joined.
-- The chain follows the head of one segment, computes the round that it is in, and tells its
-- subscribers by snapshots; the proposer and the validator act on these.
--
-- * Base, Result and Go hold what the others share: names of the libraries, errors as values,
--   container/heap over an arbitrary Less, and a buffered channel that drops its oldest message.
-- * Wire has the messages of package inca with the fields that the code reads, and the environment
--   Env: what a reference resolves to, the proposer that a validator set elects, and which accesses
--   of the database fail. A reference resolves to the same object, or fails, throughout a call.
-- * Block is block/block.go: get_block is GetBlock and validate_child is ValidateChild.
-- * World is the state that the components share, with the calls that read and write it. A call
--   is a function from a world to a result and a world, also where it fails.
-- * Segment is segment/segment.go (append_block, append_segment, rewind_once, mark_valid),
--   Segment.Queue is segment/segment_queue.go, Segment.Store is segment/segment_store.go.
-- * Chain is chain/chain.go and chain/chain_state.go, Chain.Round the times of its rounds,
--   Chain.Timer the timer of manageState, Chain.New is NewChain and FromConfig, Snapshot is
--   chain/state/state.go. Clock readings are arguments, in nanoseconds.
-- * Proposer is chain/proposer.go and Validator is chain/validator.go. The loops over snapshots are
--   recursions over the snapshots that come; a wait that is cut short is the end of a list.
-- * Peer is peer/*.go: the node messages of one remote peer and the store of peers. Node is the
--   outbox and the inbox of node/node.go. Validators is validators/*.go.
-- * Transactions is utils/transaction/transaction.go and utils/transaction/txdb.
-- * Mempool is utils/transaction/mempool: Mempool.Opts the options of the block proposer and the
--   times that it computes, Mempool.Pipe the state of the three goroutines of ProposeBlock, and
--   Mempool.Pipeline their moves, of which any order is a schedule.
-- * Encryption is encryption/impl and encryption/convergentimmutable; Encryption.Context is
--   GetEncryptContext and GetEncryptContextWithDigest of chain/chain.go.
-- * Proposer.Votes is waitForValidatorVote. Validator.Restart and Proposer.Restart are NewValidator
--   and NewProposer with the state in the database, Node.Start is NewNode.
-- * Integrity is a predicate on the segments and blocks of a node, with a file for each operation
--   that it is carried through; Integrity.Life has the operations as events of one node.
-- * Apps is utils/transaction/mempool/application.go, the interface of an application, with
--   examples/chat, utils/transaction/mock and examples/counter.
-- * Startup is examples/common/common.go, Startup.Cli is cmd/inca/cmd_init.go and cmd/inca/node.go:
--   the configuration files, and the chain and the node that a process comes to. The goroutines of
--   the chain that is only made to be written are canceled before they run.
-- * Storage has the keys under which the parts of a node keep their states in one database, and
--   their readState and writeState, with utils/dbcontainer/dbcontainer.go. Left out are
--   the keys that libraries choose: those of the object database and of the mempool's heap.
--   Node.Inbox is processPubSub, and Integrity.Network has the chain as its handler.
-- * Tests runs the model and the theorems on a chain of two blocks.
--
-- Outside Transactions, Mempool, Encryption, Storage, the files of Startup and the data of mock
-- transactions, strings, digests and public keys are numbers that are compared for equality, 0 the empty one.
-- The heap's loops take fuel: as many rounds as there are entries, which Go.Heap.Perm shows to be
-- enough. The channel's loop takes one round more than there are messages.
--
-- Heights wrap at 2 ^ 64. Durations are int64 in the code; the model has the products that fit.
-- Not modelled: logging, the contents of encrypted objects, the goroutine that rewinds, the
-- network, the main functions with their flags.
pub mod Base
pub mod Wire
pub mod Result
pub mod Go
pub mod Snapshot
pub mod World
pub mod Chain
pub mod Validator
pub mod Proposer
pub mod Peer
pub mod Validators
pub mod Node
pub mod Transactions
pub mod Mempool
pub mod Encryption
pub mod Tests
pub mod Segment
pub mod Block
pub mod Integrity
pub mod Apps
pub mod Startup
pub mod Storage
