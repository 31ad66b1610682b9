-- ===== src/Mempool/Pipeline.antt =====
-- utils/transaction/mempool/proposer.go and mempool.go: the moves of the three goroutines of
-- ProposeBlock as a step function; `none` is a move that is not enabled. Any list of events is a
-- schedule. The collector is not woken by Enqueue, which calls none of the notifiers.
pub mod Moves
pub mod Weights
pub mod Account
pub mod Sound
pub mod Runs
use inca_go.Base.{
  ℕ, zero, suc, ◌-◌, Bool, true, false, Option, none, some, List, [], ◌∷◌, ◌++◌, length, ltb, ◌==◌,
  if◌then◌else◌,
}
use inca_go.Result.{Result, ok, err}
use inca_go.Transactions.{Bytes}
use inca_go.Mempool.Opts.{is_full, wait_until}
use inca_go.Mempool.Pipe.{
  Setup, Fault, canceled, deadline_exceeded, other, Tx, Collector, dequeuing, waiting, closing,
  collected, offering, reporting, Resolver, unstarted, receiving, resolved, looking, checking,
  sending, Outcome, abstained, proposal, errored, Main, preparing, looping, finishing, applying,
  returned, Pipe, Verdict, accepted, rejected, sys_fault, Event, dequeue, dequeue_failed, give_back,
  report, close_ids, hand_id, close_txs, look_up, check_tx, prepare, finish, take_tx, take_err,
  see_done, end_loop, apply, expire, stop, remove_at, stop_with, propose_block,
}

module _ (c : Setup) where
  -- Mempool.Enqueue; the callers drop its error, and the transaction with it.
  unfoldable pub enqueue_tx : Bytes → Pipe → Pipe
  enqueue_tx id s = elim (c.orderer id) [
    | ok prio ↦ record s { pool = (prio, id) ∷ s.pool }
    | err _ ↦ record s { lost = id ∷ s.lost }
  ]

  -- The loop of requeueTxs.
  unfoldable pub enqueue_all : List Bytes → Pipe → Pipe
  unfolding enqueue_tx
  enqueue_all [] s = s
  enqueue_all (id ∷ ids) s = enqueue_all ids (enqueue_tx id s)

  unfoldable pub requeue_txs : Pipe → Pipe
  unfolding enqueue_all
  requeue_txs s = enqueue_all s.applied (record s { applied = [] })

  -- A return cancels the context of the collection.
  unfoldable pub return_with : Outcome → Pipe → Pipe
  return_with o s = record s { main = returned o; stopped = stop_with canceled s.stopped }

  -- After an id was taken from the collector: it stops at the maximum.
  abbrev after_id : ℕ → Collector
  after_id zero = dequeuing
  after_id (suc zero) = reporting none
  after_id (suc (suc n)) = dequeuing

  unfoldable pub collector_step : Event → Collector → Option Fault → Pipe → Option Pipe
  unfolding enqueue_tx
  collector_step (dequeue i) dequeuing ctx s = some (elim (remove_at i s.pool) [
    | none ↦ record s { collector = waiting }
    | some (id, rest) ↦ record s { collector = offering id; pool = rest }
  ])
  collector_step dequeue_failed dequeuing ctx s =
      some (record s { collector = reporting (some other) })
  collector_step give_back (offering id) (some f) s =
      some (enqueue_tx id (record s { collector = reporting (some f) }))
  collector_step give_back waiting (some f) s = some (record s { collector = reporting (some f) })
  collector_step report (reporting x) ctx s =
      some (record s { collector = closing; err_ch = s.err_ch ++ x ∷ [] })
  collector_step close_ids closing ctx s =
      some (record s { collector = collected; ids_closed = true })
  collector_step _ _ _ s = none

  abbrev is_some : Option Fault → Bool
  is_some none = false
  is_some (some f) = true

  -- A lookup that fails because of the context gives the id back; others are logged.
  abbrev give_up : Fault → Bytes → Pipe → Pipe
  give_up canceled id s = enqueue_tx id s
  give_up deadline_exceeded id s = enqueue_tx id s
  give_up other id s = record s { lost = id ∷ s.lost }

  unfoldable pub resolver_step : Event → Resolver → Collector → Pipe → Option Pipe
  unfolding enqueue_tx
  resolver_step hand_id receiving (offering id) s =
      some (record s { resolver = looking id; collector = after_id s.left; left = s.left - 1 })
  resolver_step close_txs receiving col s =
      if is_some s.stopped
      then some (record s { resolver = resolved })
      else if s.ids_closed
      then some (record s { resolver = resolved })
      else none
  resolver_step (look_up none) (looking id) col s = some (elim (c.get_tx id) [
    | none ↦ record s { resolver = receiving; lost = id ∷ s.lost }
    | some tx ↦ record s { resolver = checking id tx }
  ])
  resolver_step (look_up (some f)) (looking id) col s =
      some (give_up f id (record s { resolver = receiving }))
  resolver_step (check_tx accepted) (checking id tx) col s =
      some (record s { resolver = sending id tx })
  resolver_step (check_tx rejected) (checking id tx) col s =
      some (record s { resolver = resolved; lost = id ∷ s.lost })
  resolver_step (check_tx (sys_fault f)) (checking id tx) col s = some (
      enqueue_tx id (record s {
        resolver = resolved;
        err_ch = s.err_ch ++ some f ∷ [];
        stopped = stop_with canceled s.stopped;
      }))
  resolver_step close_txs (sending id tx) col s =
      if is_some s.stopped then some (enqueue_tx id (record s { resolver = resolved })) else none
  resolver_step _ _ _ s = none

  -- An error that comes out of the channel in the loop.
  take_fault : Fault → List Bytes → Pipe → Pipe
  unfolding requeue_txs return_with
  take_fault canceled [] s = return_with abstained s
  take_fault f _ s = return_with (errored f) (requeue_txs s)

  -- Apply, and what follows it in the loop. `tx` is the transaction, `now` the time after it.
  apply_tx : Tx → Verdict → ℕ → Pipe → Pipe
  unfolding requeue_txs return_with is_full wait_until
  apply_tx tx accepted now s =
      let applied = s.applied ++ tx.id ∷ [] in
      record s {
        applied = applied;
        refs = s.refs ++ tx.message_ref ∷ [];
        main =
            if is_full c.opts (wait_until c.opts c.round_start c.round_end) (length applied) now
            then finishing
            else looping;
      }
  apply_tx tx rejected now s = record s { main = looping; lost = tx.id ∷ s.lost }
  apply_tx tx (sys_fault f) now s =
      return_with (errored f) (requeue_txs (record s { applied = s.applied ++ tx.id ∷ [] }))

  -- Behind the loop, where the error channel gives no error. `stored`: Serialize and both calls of
  -- StoreObject succeed.
  conclude : Bool → Pipe → Pipe
  unfolding requeue_txs return_with
  conclude stored s =
      if ltb (length s.refs) c.opts.min_txs
      then return_with abstained (requeue_txs s)
      else if stored
      then return_with proposal (record s { proposed = s.applied; applied = [] })
      else return_with (errored other) (requeue_txs s)

  -- The poll of the error channel behind the loop: where it has an error, the call returns at once.
  poll_errors : Bool → List (Option Fault) → Pipe → Pipe
  unfolding conclude
  poll_errors stored [] s = conclude stored s
  poll_errors stored (none ∷ ch) s = conclude stored (record s { err_ch = ch })
  poll_errors stored (some f ∷ ch) s =
      return_with (errored f) (record s { err_ch = ch; lost = s.applied ++ s.lost; applied = [] })

  -- The receive from the error channel in the loop.
  poll_loop : List (Option Fault) → Pipe → Option Pipe
  unfolding take_fault
  poll_loop [] s = none
  poll_loop (none ∷ ch) s = some (record s { err_ch = ch })
  poll_loop (some f ∷ ch) s = some (take_fault f s.applied (record s { err_ch = ch }))

  unfoldable pub main_step : Event → Main → Resolver → Pipe → Option Pipe
  unfolding poll_loop poll_errors apply_tx requeue_txs return_with
  main_step (prepare true) preparing unstarted s =
      some (record s { main = looping; resolver = receiving })
  main_step (prepare false) preparing r s = some (return_with (errored other) s)
  main_step take_tx looping (sending id tx) s =
      some (record s { main = applying tx; resolver = receiving })
  main_step take_err looping r s = poll_loop s.err_ch s
  main_step see_done looping r s = elim s.outer [
    | none ↦ none
    | some f ↦ some (return_with (errored f) (requeue_txs s))
  ]
  main_step end_loop looping resolved s = some (record s { main = finishing })
  main_step (apply v now) (applying tx) r s = some (apply_tx tx v now s)
  main_step (finish stored) finishing r s = some (poll_errors stored s.err_ch s)
  main_step _ _ _ s = none

  -- The context of the collection expires; the one of the call is canceled, and with it the other.
  unfoldable pub context_step : Event → Pipe → Option Pipe
  context_step expire s = some (record s { stopped = stop_with deadline_exceeded s.stopped })
  context_step (stop f) s =
      some (record s { outer = stop_with f s.outer; stopped = stop_with f s.stopped })
  context_step _ s = none

  -- Which goroutine makes the move.
  unfoldable pub pipe_step : Event → Pipe → Option Pipe
  unfolding collector_step resolver_step main_step context_step
  pipe_step (dequeue i) s = collector_step (dequeue i) s.collector s.stopped s
  pipe_step dequeue_failed s = collector_step dequeue_failed s.collector s.stopped s
  pipe_step give_back s = collector_step give_back s.collector s.stopped s
  pipe_step report s = collector_step report s.collector s.stopped s
  pipe_step close_ids s = collector_step close_ids s.collector s.stopped s
  pipe_step hand_id s = resolver_step hand_id s.resolver s.collector s
  pipe_step close_txs s = resolver_step close_txs s.resolver s.collector s
  pipe_step (look_up a) s = resolver_step (look_up a) s.resolver s.collector s
  pipe_step (check_tx v) s = resolver_step (check_tx v) s.resolver s.collector s
  pipe_step expire s = context_step expire s
  pipe_step (stop f) s = context_step (stop f) s
  pipe_step ev s = main_step ev s.main s.resolver s

  -- A schedule; it ends at a move that is not enabled.
  unfoldable pub run_pipe : List Event → Pipe → Option Pipe
  unfolding pipe_step
  run_pipe [] s = some s
  run_pipe (ev ∷ evs) s = elim (pipe_step ev s) [ none ↦ none | some s' ↦ run_pipe evs s' ]
