-- ===== src/Segment/Store.antt =====
-- segment/segment_store.go: the segments of a node, and the queue of those to rewind.
use inca_go.Base.{ℕ, Bool, true, false, Option, none, some, ◌==◌, update}
use inca_go.Wire.{Ref, disjointed, SegmentState, Env}
use inca_go.Block.{Block, BlockValidator}
use inca_go.World.{
  World, M, done, failed, ◌>>=◌, ◌>>◌, pure, modify, access, write_block, get_segment_by_id, branch,
}
use inca_go.Segment.{is_status, rewind_once}
use inca_go.Segment.Queue

-- GetTailBlockRound().GetHeight() of each segment in memory.
abbrev pub tail_height : World → ℕ → ℕ
tail_height w s = (w.memory s).tail_block_round.height

unfoldable pub queue_push : ℕ → M (Unit {0})
queue_push s w =
    let (queue, notified) = Queue.push (tail_height w) w.queue w.notified s in
    done tt (record w { queue = queue; notified = notified })

unfoldable pub queue_pop : M (Option ℕ)
queue_pop w =
    let (seg, rest) = Queue.pop (tail_height w) w.queue in done seg (record w { queue = rest })

-- `if seg.GetStatus() == DISJOINTED { s.segmentQueue.Push(seg) }`
unfoldable pub requeue : ℕ → M (Unit {0})
unfolding queue_push
requeue s w = branch (is_status (w.memory s).status disjointed) (queue_push s) (pure tt) w

-- The state that NewSegment gives a segment of the one block.
abbrev pub new_state : ℕ → Block → Ref → SegmentState
new_state uid blk blk_ref = record {
  id = uid;
  status = disjointed;
  head_block = blk_ref;
  tail_block = blk_ref;
  tail_block_round = blk.header.round_info;
  segment_next = 0;
  segment_prev = 0;
}

module _ (e : Env) where
  -- `uid` is the new UUID.
  unfoldable pub new_segment : ℕ → Block → Ref → M ℕ
  unfolding access requeue
  new_segment uid blk blk_ref = do
    access e
    modify (λ w. record w { segments = update w.segments uid (some (new_state uid blk blk_ref)) })
    write_block e (record blk { state = record (blk.state) { segment_id = uid } })
    seg ← get_segment_by_id e uid
    requeue seg
    pure seg

  -- A failure is logged, and the answer is false.
  abbrev pub recover : M Bool → M Bool
  recover m w = elim (m w) [ done b w' ↦ done b w' | failed _ w' ↦ done false w' ]

  -- The segment that the handler is told of: the one that was joined, or the one that grew.
  unfoldable pub rewound : ℕ → M ℕ
  rewound s w =
      let prev = (w.memory s).segment_prev in
      branch (prev == 0) (pure s) (get_segment_by_id e prev) w

  unfoldable pub rewind_popped : Option BlockValidator → (ℕ → World → World) → ℕ → M Bool
  unfolding rewound requeue
  rewind_popped validator handle_segment_updated s = do
    rewind_once e validator s
    next ← rewound s
    modify (handle_segment_updated next)
    requeue next
    pure true

  unfoldable pub rewind_next : Option BlockValidator → (ℕ → World → World) → M Bool
  unfolding rewind_popped queue_pop
  rewind_next validator handle_segment_updated = do
    popped ← queue_pop
    elim popped [
      | none ↦ pure false
      | some s ↦ recover (rewind_popped validator handle_segment_updated s)
    ]
