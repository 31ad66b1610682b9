-- ===== src/Tests/Pool.antt =====
-- The theorems on the block proposer of the mempool, at a pool of one transaction.
use inca_go.Base.{ℕ, ◌≡◌, ◌++◌, refl, true, none, some, List, [], ◌∷◌}
use inca_go.Result.{ok}
use inca_go.Transactions.{Bytes}
use inca_go.Mempool.Opts.{Opts, wait_until, is_full}
use inca_go.Mempool.Pipe.{
  Setup, Pipe, accepted, Event, dequeue, give_back, report, hand_id, close_txs, look_up, check_tx,
  prepare, finish, take_tx, end_loop, apply, expire, propose_block,
}
use inca_go.Mempool.Pipeline.{run_pipe}

abbrev options : Opts
options = record { deadline_ratio = 500000; wait_ratio = 150000; min_txs = 0; max_txs = 5 }

abbrev setup : Setup
setup = record {
  opts = options;
  round_start = 100;
  round_end = 900;
  orderer = λ id. ok 3;
  get_tx = λ id. some (record { id = id; message_ref = 40 });
}

abbrev one_tx : List (ℕ × Bytes)
one_tx = (3, 97 ∷ []) ∷ []

-- The transaction is applied before the round starts, then the deadline passes.
abbrev late : List Event
late =
    prepare true
    ∷ dequeue 0
    ∷ hand_id
    ∷ look_up none
    ∷ check_tx accepted
    ∷ take_tx
    ∷ apply accepted 50
    ∷ dequeue 0
    ∷ expire
    ∷ give_back
    ∷ report
    ∷ close_txs
    ∷ end_loop
    ∷ []

abbrev late_all : List Event
late_all = late ++ finish true ∷ []

abbrev at_start : Pipe
at_start = propose_block setup one_tx

abbrev after : List Event → Pipe
after evs = elim (run_pipe setup evs at_start) [ none ↦ at_start | some s ↦ s ]

-- Each transaction counts one.
abbrev each : Bytes → ℕ
each id = 1

-- From the call on: the transaction is in no place.
late_loses : let s = after late_all in (s.lost ≡ (97 ∷ []) ∷ []) × (s.pool ≡ []) × (s.proposed ≡ [])
unfolding run_pipe propose_block is_full wait_until
late_loses = (refl, refl, refl)

-- The same without the deadline: the block has the transaction once the time of waiting is over.
abbrev early : List Event
early =
    prepare true
    ∷ dequeue 0
    ∷ hand_id
    ∷ look_up none
    ∷ check_tx accepted
    ∷ take_tx
    ∷ apply accepted 101
    ∷ finish true
    ∷ []

abbrev idle : List Event
idle = prepare true ∷ dequeue 7 ∷ []
