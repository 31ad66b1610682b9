-- ===== src/Segment/Rewind.antt =====
-- Segment.RewindOnce: how the tail of a segment moves back, or the segment joins another one.
use inca_go.Base.{
  ℕ, ◌≡◌, ◌≢◌, ◌⊎◌, inl, inr, true, false, Option, some, arith, ◌==◌, Bool-cases, Option-cases,
  refl,
}
use inca_go.Wire.{Ref, InnerBlock, BlockHeader, Env, disjointed, valid, invalid}
use inca_go.Result.{Error, ok, err}
use inca_go.Block.{Block, BlockValidator, validate_child}
use inca_go.World.{
  World, done, get_block, write_block, write_segment, get_segment_by_id, Run-cases, get_block-world,
}
use inca_go.Segment.{is_status, rewind_join, rewind_into, rewind_prev, rewind_tail, rewind_once}
use inca_go.Segment.Join.{Appended, append_segment_joins}

-- What RewindOnce reads: the tail block, its header, and the block before it.
pub record Read (e : Env) (s : ℕ) (prev tail : Block) (prev_ref : Ref) (w w1 w2 : World)
    : Type 0 where
  pub inner : InnerBlock
  pub header : BlockHeader
  pub inner_found : e.follow_block (w.memory s).tail_block ≡ some inner
  pub tail_read : get_block e (w.memory s).tail_block w ≡ done tail w1
  pub header_found : e.follow_header inner.block_header_ref ≡ some header
  pub last : header.last_block_ref ≡ prev_ref
  pub prev_read : get_block e prev_ref w1 ≡ done prev w2

-- The block `prev` is the tail of the segment now, in the database and in memory; it is linked to the
-- tail before it, and the check of that one decides the status.
pub record Rewound (e : Env) (v : Option BlockValidator) (s : ℕ) (prev_ref : Ref)
    (prev tail : Block) (w w' : World) : Type 0 where
  pub placed :
      w'.blocks (e.object_digest prev.blk_ref)
      ≡ record { segment_id = (w.memory s).id; next_block = tail.blk_ref }
  pub moved : w'.memory s ≡ record (w.memory s) {
    tail_block = prev_ref;
    tail_block_round = prev.header.round_info;
    status = (w'.memory s).status;
  }
  pub refused : (x : Error) → validate_child e prev tail v ≡ err x → (w'.memory s).status ≡ invalid
  pub marked : validate_child e prev tail v ≡ ok true → (w'.memory s).status ≡ valid
  pub unmarked : validate_child e prev tail v ≡ ok false → (w'.memory s).status ≡ disjointed
  pub stored : w'.segments (w.memory s).id ≡ some (w'.memory s)
  pub blocks_kept : (k : ℕ) → k ≢ e.object_digest prev.blk_ref → w'.blocks k ≡ w.blocks k
  pub memory_kept : (k : ℕ) → k ≢ s → w'.memory k ≡ w.memory k

-- The segment of `prev` is another one, which has judged whether `s` follows it.
pub record Rejoined (e : Env) (v : Option BlockValidator) (s : ℕ) (prev : Block) (w w' : World)
    : Type 0 where
  pub before : ℕ
  pub loaded : World
  pub found : get_segment_by_id e prev.segment_id w ≡ done before loaded
  pub differs : before ≢ s
  pub appended : Appended e v before s loaded w'

-- A segment that was disjointed has moved back by the block before its tail.
pub record Moved (e : Env) (v : Option BlockValidator) (s : ℕ) (w w' : World) : Type 0 where
  pub was_alone : (w.memory s).status ≡ disjointed
  pub tail : Block
  pub prev : Block
  pub prev_ref : Ref
  pub w1 : World
  pub w2 : World
  pub read : Read e s prev tail prev_ref w w1 w2
  pub new : prev.segment_id ≡ 0 → Rewound e v s prev_ref prev tail w w'
  pub known : prev.segment_id ≢ 0 → Rejoined e v s prev w2 w'

module _ (e : Env) (v : Option BlockValidator) (s : ℕ) where
  rewind_into-Rewound :
      (prev_ref : Ref) (prev tail : Block) (w0 w w' : World)
      → (w0.memory s).status ≡ disjointed
      → w.memory ≡ w0.memory
      → w.blocks ≡ w0.blocks
      → rewind_into e v s prev_ref prev tail w ≡ done tt w'
      → Rewound e v s prev_ref prev tail w0 w'
  unfolding rewind_into write_block write_segment
  rewind_into-Rewound prev_ref prev tail w0 w w' alone same same' h = record {
    placed = ground arith;
    moved = ground arith;
    refused = λ x bad. ground (arith, bad);
    marked = λ good. ground (arith, good);
    unmarked = λ good. ground (arith, good);
    stored = ground arith;
    blocks_kept = λ k p. ground arith;
    memory_kept = λ k p. ground arith;
  }

  rewind_join-Rejoined :
      (prev : Block) (w w' : World)
      → rewind_join e v s prev.segment_id w ≡ done tt w'
      → Rejoined e v s prev w w'
  unfolding rewind_join
  rewind_join-Rejoined prev w w' h = elim (Run-cases (get_segment_by_id e prev.segment_id w)) [
    | inr (x, w1, stopped) ↦ absurd (ground (arith, stopped))
    | inl (before, w1, found) ↦ elim (Bool-cases (before == s)) [
      | inl same ↦ absurd (ground (arith, found, same))
      | inr differs ↦
          let apart : before ≢ s = ground (arith, differs) in
          record {
            before = before;
            loaded = w1;
            found = found;
            differs = apart;
            appended =
                append_segment_joins e v before s w1 w' apart (ground (arith, found, differs));
          }
    ]
  ]

  rewind_tail-Moved :
      (w w' : World)
      → (w.memory s).status ≡ disjointed
      → rewind_tail e v s (w.memory s).tail_block w ≡ done tt w'
      → Moved e v s w w'
  unfolding rewind_tail rewind_prev
  rewind_tail-Moved w w' alone h = elim (Option-cases (e.follow_block (w.memory s).tail_block)) [
    | inl lost ↦ absurd (ground (arith, lost))
    | inr (inner, e1) ↦ elim (Run-cases (get_block e (w.memory s).tail_block w)) [
      | inr (x, w1, stopped) ↦ absurd (ground (arith, e1, stopped))
      | inl (tail, w1, e2) ↦ elim (Option-cases (e.follow_header inner.block_header_ref)) [
        | inl lost ↦ absurd (ground (arith, e1, e2, lost))
        | inr (header, e3) ↦ elim (Run-cases (get_block e header.last_block_ref w1)) [
          | inr (x, w2, stopped) ↦ absurd (ground (arith, e1, e2, e3, stopped))
          | inl (prev, w2, e4) ↦
              let same = get_block-world e (w.memory s).tail_block w w1 tail e2 in
              let same' = get_block-world e header.last_block_ref w1 w2 prev e4 in
              record {
                was_alone = alone;
                tail = tail;
                prev = prev;
                prev_ref = header.last_block_ref;
                w1 = w1;
                w2 = w2;
                read = record {
                  inner = inner;
                  header = header;
                  inner_found = e1;
                  tail_read = e2;
                  header_found = e3;
                  last = refl;
                  prev_read = e4;
                };
                new = λ fresh.
                    rewind_into-Rewound header.last_block_ref prev tail w w2 w' alone (ground arith)
                      (ground arith) (ground (arith, e1, e2, e3, e4, fresh));
                known =
                    λ old. rewind_join-Rejoined prev w2 w' (ground (arith, e1, e2, e3, e4, old));
              }
        ]
      ]
    ]
  ]

  -- A RewindOnce that succeeds leaves a segment that is not disjointed alone. For a disjointed one it
  -- reads the block before the tail. Where that block is in no segment, it becomes the tail, with the
  -- segment's id and a link to the old tail, and ValidateChild of it on the old tail decides: the
  -- segment is invalid where the check fails, valid where the validator marks the block, and stays
  -- disjointed otherwise; no other block and no other segment changes. Where the block is in a
  -- segment, that is another one, and the segment is appended to it, by the check of its head.
  pub rewind_once-Rewound :
      (w w' : World)
      → rewind_once e v s w ≡ done tt w'
      → (((w.memory s).status ≢ disjointed) × (w' ≡ w)) ⊎ Moved e v s w w'
  unfolding rewind_once
  rewind_once-Rewound w w' h = elim (Bool-cases (is_status (w.memory s).status disjointed)) [
    | inr other ↦ inl (ground (arith, other), ground (arith, other))
    | inl alone ↦ inr (rewind_tail-Moved w w' (ground (arith, alone)) (ground (arith, alone)))
  ]
