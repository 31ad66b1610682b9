-- ===== src/Mempool/Pipe.antt =====
-- utils/transaction/mempool/proposer.go and mempool.go: the state of a call of ProposeBlock, which
-- is that of its three goroutines and their channels, and the moves that they make. An event names
-- a move and what the code outside answers.
use inca_go.Base.{ℕ, zero, suc, Bool, false, Option, none, some, List, [], ◌∷◌}
use inca_go.Wire.{Ref}
use inca_go.Result.{Result}
use inca_go.Transactions.{Bytes}
use inca_go.Mempool.Opts.{Opts}

-- A transaction from the database: its id and the reference of its node message.
pub record Tx : Type 0 where
  pub id : Bytes
  pub message_ref : Ref

-- What a call is made with: the options, the round of the snapshot, the order of the pool and the
-- transactions of the database.
pub record Setup : Type 0 where
  pub opts : Opts
  pub round_start : ℕ
  pub round_end : ℕ
  pub orderer : Bytes → Result ℕ
  pub get_tx : Bytes → Option Tx

-- Why a context is done, or what an error of the code outside is.
pub data Fault : Type 0 where
  canceled deadline_exceeded other : Fault

-- CollectTransactions: it is about to call DequeueMin, offers an id to the channel, waits for a
-- notification, has returned and not sent its error, has not closed the channel, or is over.
pub data Collector : Type 0 where
  dequeuing waiting closing collected : Collector
  offering : Bytes → Collector
  reporting : Option Fault → Collector

-- The goroutine that resolves ids: it is not started, receives, looks up an id, checks a
-- transaction, offers it, or has closed its channel. The id is the one that it has received.
pub data Resolver : Type 0 where
  unstarted receiving resolved : Resolver
  looking : Bytes → Resolver
  checking sending : Bytes → Tx → Resolver

pub data Outcome : Type 0 where
  abstained proposal : Outcome
  errored : Fault → Outcome

-- ProposeBlock itself: before the loop, in its select, at Apply, behind the loop, returned.
pub data Main : Type 0 where
  preparing looping finishing : Main
  applying : Tx → Main
  returned : Outcome → Main

-- The fields `lost` and `proposed` record where transactions end: `lost` has the ones that no one
-- holds any more and that are in no block.
pub record Pipe : Type 0 where
  pub pool : List (ℕ × Bytes)
  pub left : ℕ
  pub collector : Collector
  pub ids_closed : Bool
  pub resolver : Resolver
  pub err_ch : List (Option Fault)
  pub stopped : Option Fault
  pub outer : Option Fault
  pub main : Main
  pub applied : List Bytes
  pub refs : List Ref
  pub proposed : List Bytes
  pub lost : List Bytes

-- What the application answers.
pub data Verdict : Type 0 where
  accepted rejected : Verdict
  sys_fault : Fault → Verdict

pub data Event : Type 0 where
  -- of the collector
  dequeue : ℕ → Event
  dequeue_failed give_back report close_ids : Event
  -- of the resolver, the first with the collector; `look_up` has the error, if there is one, of
  -- the context
  hand_id close_txs : Event
  look_up : Option Fault → Event
  check_tx : Verdict → Event
  -- of ProposeBlock, `take_tx` with the resolver
  prepare finish : Bool → Event
  take_tx take_err see_done end_loop : Event
  apply : Verdict → ℕ → Event
  -- of the contexts
  expire : Event
  stop : Fault → Event

abbrev pub remove_at : ℕ → List (ℕ × Bytes) → Option (Bytes × List (ℕ × Bytes))
remove_at i [] = none
remove_at zero (x ∷ xs) = some (x.1, xs)
remove_at (suc i) (x ∷ xs) = elim (remove_at i xs) [
  | none ↦ none
  | some (id, rest) ↦ some (id, x ∷ rest)
]

-- The context is done: its first cause stays.
abbrev pub stop_with : Fault → Option Fault → Option Fault
stop_with f none = some f
stop_with f (some g) = some g

-- The call of ProposeBlock on a pool.
unfoldable pub propose_block : Setup → List (ℕ × Bytes) → Pipe
propose_block c pool = record {
  pool = pool;
  left = c.opts.max_txs;
  collector = dequeuing;
  ids_closed = false;
  resolver = unstarted;
  err_ch = [];
  stopped = none;
  outer = none;
  main = preparing;
  applied = [];
  refs = [];
  proposed = [];
  lost = [];
}
