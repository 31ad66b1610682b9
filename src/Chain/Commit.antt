-- ===== src/Chain/Commit.antt =====
-- HandleBlockCommit: where a block is after it.
use inca_go.Base.{
  ℕ, suc, ◌≡◌, ◌≢◌, subst, sym, inl, inr, false, Option, some, arith, Bool-cases, ◌==◌,
}
use inca_go.Wire.{Ref, nil_ref, InnerBlock, BlockHeader, Env}
use inca_go.Result.{Result-cases}
use inca_go.Block.{Block, BlockValidator, validate_child}
use inca_go.World.{
  World, done, Run-cases, access, get_block, write_block, write_segment, get_segment_by_id,
}
use inca_go.Segment.{append_block}
use inca_go.Segment.Store.{new_segment, requeue, queue_push}
use inca_go.Chain.{handle_new_block, handle_block_commit, trigger_state_recheck}

module _ (e : Env) where
  new_segment-places :
      (uid s : ℕ) (blk : Block) (w w' : World)
      → new_segment e uid blk blk.blk_ref w ≡ done s w'
      → (w'.blocks (e.object_digest blk.blk_ref)).segment_id ≡ uid
  unfolding new_segment requeue queue_push write_block get_segment_by_id access
  new_segment-places uid s blk w w' h = ground arith

  append_block-places :
      (v : Option BlockValidator) (s : ℕ) (blk parent : Block) (w w' : World)
      → parent.next_block ≡ nil_ref
      → append_block e v s blk.blk_ref blk parent w ≡ done tt w'
      → (w'.blocks (e.object_digest blk.blk_ref)).segment_id ≡ parent.segment_id
  unfolding append_block write_block write_segment access
  append_block-places v s blk parent w w' end h =
      elim (Result-cases (validate_child e parent blk v)) [
        | inl (mark, accepted) ↦ ground arith
        | inr (x, refused) ↦ absurd (ground arith)
      ]

  get_block_lem :
      (ref : Ref) (b : Block) (w w' : World)
      → get_block e ref w ≡ done b w'
      → (b.blk_ref ≡ ref) × (b.state ≡ w.blocks (e.object_digest ref)) × (w'.blocks ≡ w.blocks)
  unfolding get_block access
  get_block_lem ref b w w' h = (ground arith, ground arith, ground arith)

  handle_new_block-places :
      (v : Option BlockValidator) (uid : ℕ) (blk : Block) (w w' : World)
      → uid ≢ 0
      → (w.blocks (e.object_digest blk.header.last_block_ref)).next_block ≡ nil_ref
      → handle_new_block e v uid blk.blk_ref blk w ≡ done tt w'
      → (w'.blocks (e.object_digest blk.blk_ref)).segment_id ≢ 0
  unfolding handle_new_block trigger_state_recheck
  handle_new_block-places v uid blk w w' named end h =
      elim (Run-cases (get_block e blk.header.last_block_ref w)) [
        | inr (x, w1, bad) ↦ absurd (ground (arith, bad))
        | inl (parent, w1, read) ↦
            let (_, state, _) = get_block_lem blk.header.last_block_ref parent w w1 read in
            elim (Bool-cases (parent.segment_id == 0)) [
              | inl loose ↦ elim (Run-cases (new_segment e uid blk blk.blk_ref w1)) [
                | inr (x, w2, bad) ↦ absurd (ground (arith, read, loose, bad))
                | inl (s, w2, made) ↦
                    ground (arith, read, loose, made, new_segment-places uid s blk w1 w2 made)
              ]
              | inr held ↦ elim (Run-cases (get_segment_by_id e parent.segment_id w1)) [
                | inr (x, w2, bad) ↦ absurd (ground (arith, read, held, bad))
                | inl (s, w2, got) ↦
                    elim (Run-cases (append_block e v s blk.blk_ref blk parent w2)) [
                      | inr (x, w3, bad) ↦ absurd (ground (arith, read, held, got, bad))
                      | inl (u, w3, grown) ↦ ground (
                        arith,
                        read,
                        held,
                        got,
                        grown,
                        append_block-places v s blk parent w2 w3 (ground (arith, state, end)) grown,
                      )
                    ]
              ]
            ]
      ]

  -- A block whose commit has been handled with success is in a segment, where its parent had no next
  -- block before, the block and its header resolve, and a new segment gets an id that is not empty; and when the commit comes again, from any peer, it changes nothing but counts an
  -- access of the database, where that access does not fail.
  pub handle_block_commit_lem :
      (v v' : Option BlockValidator) (uid uid' : ℕ) (blk_ref : Ref) (inner : InnerBlock)
      (header : BlockHeader) (w w' : World)
      → uid ≢ 0
      → e.follow_block blk_ref ≡ some inner
      → e.follow_header inner.block_header_ref ≡ some header
      → (w.blocks (e.object_digest header.last_block_ref)).next_block ≡ nil_ref
      → handle_block_commit e v uid blk_ref w ≡ done tt w'
      → e.db_fails w'.accesses ≡ false
      → ((w'.blocks (e.object_digest blk_ref)).segment_id ≢ 0)
        × (handle_block_commit e v' uid' blk_ref w'
            ≡ done tt (record w' { accesses = suc w'.accesses }))
  unfolding handle_block_commit get_block access
  handle_block_commit_lem v v' uid uid' blk_ref inner header w w' named found opened end h up =
      elim (Run-cases (get_block e blk_ref w)) [
        | inr (x, w1, bad) ↦ absurd (ground (arith, bad))
        | inl (blk, w1, read) ↦ elim (Bool-cases (blk.segment_id == 0)) [
          | inl loose ↦
              let placed : (w'.blocks (e.object_digest blk_ref)).segment_id ≢ 0 =
                placed_by v uid blk_ref blk w1 w' named (ground (arith, read))
                  (ground (arith, read, found, opened, end))
                  (unfold handle_new_block in ground (arith, read, loose)) in
              (placed, ground (arith, found, opened, up, placed))
          | inr there ↦
              (ground (arith, read, there), ground (arith, read, there, found, opened, up))
        ]
      ]
    where
      placed_by :
          (v : Option BlockValidator) (uid : ℕ) (blk_ref : Ref) (blk : Block) (w1 w' : World)
          → uid ≢ 0
          → blk.blk_ref ≡ blk_ref
          → (w1.blocks (e.object_digest blk.header.last_block_ref)).next_block ≡ nil_ref
          → handle_new_block e v uid blk_ref blk w1 ≡ done tt w'
          → (w'.blocks (e.object_digest blk_ref)).segment_id ≢ 0
      placed_by v uid blk_ref blk w1 w' named same end h =
          subst (λ r. (w'.blocks (e.object_digest r)).segment_id ≢ 0) same
            (handle_new_block-places v uid blk w1 w' named end
              (subst (λ r. handle_new_block e v uid r blk w1 ≡ done tt w') (sym same) h))
