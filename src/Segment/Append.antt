-- ===== src/Segment/Append.antt =====
-- Segment.AppendBlock: what a call that succeeds has changed, and when it succeeds.
use inca_go.Base.{ℕ, suc, ◌≡◌, inl, inr, ◌≢◌, Bool, false, Option, some, arith, if◌then◌else◌}
use inca_go.Wire.{Ref, InnerBlock, nil_ref, Env}
use inca_go.Result.{ok, Result-cases, fork}
use inca_go.Block.{Block, BlockValidator, validate_child, judge}
use inca_go.Block.Validate.{Follows, validate_child-ok_iff}
use inca_go.World.{World, Run-cases, done, failed, write_block, write_segment}
use inca_go.Segment.{marked, append_block}

-- The two worlds differ at no other block than `p` and `c`, and at no other segment than `s`.
pub record OnlyAt (p c s id : ℕ) (w w' : World) : Type 0 where
  pub blocks_kept : (k : ℕ) → k ≢ p → k ≢ c → w'.blocks k ≡ w.blocks k
  pub memory_kept : (k : ℕ) → k ≢ s → w'.memory k ≡ w.memory k
  pub segments_kept : (k : ℕ) → k ≢ id → w'.segments k ≡ w.segments k
  pub loaded_kept : w'.is_loaded ≡ w.is_loaded
  pub queue_kept : w'.queue ≡ w.queue

-- The block is linked behind its parent and is the new head of the segment, whose other fields stay;
-- the database and the memory agree on the segment.
pub record Extended (e : Env) (s : ℕ) (blk_ref : Ref) (blk parent : Block) (mark : Bool)
    (w w' : World) : Type 0 where
  pub linked :
      w'.blocks (e.object_digest parent.blk_ref) ≡ record (parent.state) { next_block = blk_ref }
  pub placed :
      w'.blocks (e.object_digest blk.blk_ref)
      ≡ record (blk.state) { segment_id = parent.segment_id }
  pub grown :
      w'.memory s
      ≡ record (w.memory s) { head_block = blk_ref; status = marked mark (w.memory s).status }
  pub synced : w'.segments (w.memory s).id ≡ some (w'.memory s)
  pub only :
      OnlyAt (e.object_digest parent.blk_ref) (e.object_digest blk.blk_ref) s (w.memory s).id w w'

module _ (e : Env) (v : Option BlockValidator) (s : ℕ) (blk_ref : Ref) (blk parent : Block) where
  append_new-Extended :
      (w w' : World) (mark : Bool)
      → parent.next_block ≡ nil_ref
      → e.object_digest parent.blk_ref ≢ e.object_digest blk.blk_ref
      → validate_child e parent blk v ≡ ok mark
      → append_block e v s blk_ref blk parent w ≡ done tt w'
      → Extended e s blk_ref blk parent mark w w'
  unfolding append_block write_block write_segment
  append_new-Extended w w' mark end apart accepted h = record {
    linked = ground arith;
    placed = ground arith;
    grown = ground arith;
    synced = ground arith;
    only = record {
      blocks_kept = λ k p q. ground arith;
      memory_kept = λ k p. ground arith;
      segments_kept = λ k p. ground arith;
      loaded_kept = ground arith;
      queue_kept = ground arith;
    };
  }

  append_new-accepted :
      (w w' : World)
      → parent.next_block ≡ nil_ref
      → append_block e v s blk_ref blk parent w ≡ done tt w'
      → ((w.memory s).segment_next ≡ 0)
        × ((mark : Bool) × (validate_child e parent blk v ≡ ok mark))
  unfolding append_block write_block write_segment
  append_new-accepted w w' end h = elim (Result-cases (validate_child e parent blk v)) [
    | inl (mark, accepted) ↦ (ground arith, (mark, accepted))
    | inr (x, refused) ↦ absurd (ground arith)
  ]

  append_new-runs :
      (w : World) (mark : Bool)
      → parent.next_block ≡ nil_ref
      → (w.memory s).segment_next ≡ 0
      → validate_child e parent blk v ≡ ok mark
      → ((n : ℕ) → e.db_fails n ≡ false)
      → (w' : World) × (append_block e v s blk_ref blk parent w ≡ done tt w')
  unfolding append_block write_block write_segment
  append_new-runs w mark end last accepted up =
      elim (Run-cases (append_block e v s blk_ref blk parent w)) [
        | inl (_, w', ran) ↦ (w', ran)
        | inr (x, w', stopped) ↦
            absurd (ground (arith, up w.accesses, up (suc w.accesses), up (suc (suc w.accesses))))
      ]

  -- A block that is appended behind a parent with no next block keeps the rules of the chain and is
  -- accepted by the block validator; the call links it to the parent, puts it in the parent's
  -- segment, makes it the head with the status that the mark gives, stores the segment, and
  -- changes no other block and no other segment.
  pub append_block_sound :
      (w w' : World)
      → parent.next_block ≡ nil_ref
      → e.object_digest parent.blk_ref ≢ e.object_digest blk.blk_ref
      → append_block e v s blk_ref blk parent w ≡ done tt w'
      → (mark : Bool) × Follows e parent blk
        × (judge v blk parent ≡ ok mark)
        × Extended e s blk_ref blk parent mark w w'
  append_block_sound w w' end apart h =
      let (_, (mark, accepted)) = append_new-accepted w w' end h in
      let (follows, judged) = (validate_child-ok_iff e parent blk v mark).0 accepted in
      (mark, follows, judged, append_new-Extended w w' mark end apart accepted h)

  -- AppendBlock succeeds on a block that keeps the rules after its parent and that the validator
  -- accepts, where the parent has no next block, no other segment follows the segment, and no
  -- database access fails.
  pub append_block_complete :
      (w : World) (mark : Bool)
      → parent.next_block ≡ nil_ref
      → (w.memory s).segment_next ≡ 0
      → Follows e parent blk
      → judge v blk parent ≡ ok mark
      → ((n : ℕ) → e.db_fails n ≡ false)
      → (w' : World) × (append_block e v s blk_ref blk parent w ≡ done tt w')
  append_block_complete w mark end last follows judged up =
      append_new-runs w mark end last
        ((validate_child-ok_iff e parent blk v mark).1 (follows, judged)) up

  -- Behind a parent that has a next block nothing is written: the call succeeds exactly when that
  -- next block is found and has the header of the block, and reports a fork where it has another.
  append_block_known :
      (w : World) (next : InnerBlock)
      → parent.next_block ≢ nil_ref
      → e.follow_block parent.next_block ≡ some next
      → append_block e v s blk_ref blk parent w ≡ (
          if e.ref_equals next.block_header_ref blk.inner.block_header_ref
          then done tt w
          else failed fork w)
  unfolding append_block
  append_block_known w next other found = ground arith
