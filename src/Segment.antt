-- ===== src/Segment.antt =====
-- segment/segment.go: a run of blocks that this node has linked, and how it grows at its ends.
pub mod Append
pub mod Join
pub mod Rewind
pub mod Queue
pub mod Store
use inca_go.Base.{ℕ, suc, Bool, true, false, not, ◌&&◌, Option, none, some, ◌==◌, if◌then◌else◌}
use inca_go.Wire.{
  Ref, nil_ref, RoundInfo, BlockState, SegmentStatus, disjointed, valid, invalid, SegmentState, Env,
}
use inca_go.Result.{
  Error, Result, ok, err, or_fail, unresolved, fork, next_segment_exists, same_segment,
  unexpected_status,
}
use inca_go.Block.{Block, BlockValidator, validate_child}
use inca_go.World.{
  World, Run, M, done, failed, ◌>>=◌, ◌>>◌, pure, fail, lift, check, get_block, write_block,
  write_segment, branch, get_segment_by_id, segment, set_segment,
}

abbrev pub is_status : SegmentStatus → SegmentStatus → Bool
is_status disjointed disjointed = true
is_status valid valid = true
is_status invalid invalid = true
is_status _ _ = false

-- The status after a block validator's mark: valid, unless the segment is known to be invalid.
abbrev pub marked : Bool → SegmentStatus → SegmentStatus
marked is_valid st = if is_valid && not (is_status st invalid) then valid else st

-- AppendSegment marks only a disjointed segment.
abbrev pub validated : Bool → SegmentStatus → SegmentStatus
validated is_valid st = if is_valid && is_status st disjointed then valid else st

-- A rewind marks a segment invalid where the check failed.
abbrev pub judged : Result Bool → SegmentStatus → SegmentStatus
judged (err _) st = invalid
judged (ok is_valid) st = marked is_valid st

module _ (e : Env) (validator : Option BlockValidator) where
  -- The parent has a next block: either this one, or there is a fork.
  unfoldable pub append_known : Block → Ref → M (Unit {0})
  append_known blk next_ref = do
    next ← lift (or_fail (e.follow_block next_ref) unresolved)
    check (e.ref_equals next.block_header_ref blk.inner.block_header_ref) fork

  unfoldable pub append_new : ℕ → Ref → Block → Block → M (Unit {0})
  append_new s blk_ref blk parent = do
    st ← segment s
    check (st.segment_next == 0) next_segment_exists
    is_valid ← lift (validate_child e parent blk validator)
    write_block e (record parent { state = record (parent.state) { next_block = blk_ref } })
    write_block e (record blk { state = record (blk.state) { segment_id = parent.segment_id } })
    set_segment s (record st { head_block = blk_ref; status = marked is_valid st.status })
    write_segment e s

  unfoldable pub append_block : ℕ → Ref → Block → Block → M (Unit {0})
  unfolding append_known append_new
  append_block s blk_ref blk parent w =
      branch (parent.next_block == nil_ref) (append_new s blk_ref blk parent)
        (append_known blk parent.next_block) w

  -- The head block of `s` has judged the tail block of `next`.
  unfoldable pub append_judged : ℕ → ℕ → Result Bool → M (Unit {0})
  append_judged s next (err _) = do
    nst ← segment next
    set_segment next (record nst { status = invalid })
    write_segment e next
  append_judged s next (ok is_valid) = do
    nst ← segment next
    set_segment next (record nst { status = validated is_valid nst.status })
    nst ← segment next
    st ← segment s
    set_segment next (record nst { status = st.status; segment_prev = st.id })
    write_segment e next
    nst ← segment next
    st ← segment s
    set_segment s (record st { segment_next = nst.id })
    write_segment e s

  -- `s.AppendSegment(segNext)`
  unfoldable pub append_segment : ℕ → ℕ → M (Unit {0})
  unfolding append_judged
  append_segment s next = do
    nst ← segment next
    check (is_status nst.status disjointed) unexpected_status
    tail ← get_block e nst.tail_block
    st ← segment s
    head ← get_block e st.head_block
    append_judged s next (validate_child e head tail validator)

  -- The previous block is in a segment already: join that one.
  unfoldable pub rewind_join : ℕ → ℕ → M (Unit {0})
  rewind_join s prev_id = do
    prev ← get_segment_by_id e prev_id
    check (not (prev == s)) same_segment
    append_segment prev s

  -- The previous block is new: it becomes the tail of the segment.
  unfoldable pub rewind_into : ℕ → Ref → Block → Block → M (Unit {0})
  rewind_into s prev_ref prev tail = do
    st ← segment s
    write_block e (record prev { state = record { segment_id = st.id; next_block = tail.blk_ref } })
    set_segment s (record st {
      tail_block = prev_ref;
      tail_block_round = prev.header.round_info;
      status = judged (validate_child e prev tail validator) st.status;
    })
    write_segment e s

  unfoldable pub rewind_prev : ℕ → Ref → Block → Block → M (Unit {0})
  unfolding rewind_join rewind_into
  rewind_prev s prev_ref prev tail w =
      branch (prev.segment_id == 0) (rewind_into s prev_ref prev tail)
        (rewind_join s prev.segment_id) w

  unfoldable pub rewind_tail : ℕ → Ref → M (Unit {0})
  unfolding rewind_prev
  rewind_tail s tail_ref = do
    tail_blk ← lift (or_fail (e.follow_block tail_ref) unresolved)
    tail ← get_block e tail_ref
    tail_header ← lift (or_fail (e.follow_header tail_blk.block_header_ref) unresolved)
    prev ← get_block e tail_header.last_block_ref
    rewind_prev s tail_header.last_block_ref prev tail

  unfoldable pub rewind_once : ℕ → M (Unit {0})
  unfolding rewind_tail
  rewind_once s w =
      branch (is_status (w.memory s).status disjointed) (rewind_tail s (w.memory s).tail_block)
        (pure tt) w

module _ (e : Env) where
  unfoldable pub mark_valid : ℕ → M (Unit {0})
  mark_valid s w =
      branch (is_status (w.memory s).status valid) (pure tt)
        (do set_segment s (record (w.memory s) { status = valid }); write_segment e s) w
