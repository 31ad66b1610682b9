-- ===== src/Integrity/Append.antt =====
-- AppendBlock keeps what holds of the node.
use inca_go.Base.{
  ℕ, ◌≡◌, ◌≢◌, refl, sym, subst, ap, ◌⊎◌, inl, inr, ◌∙◌, Bool, true, Option, Bool-cases,
  Option-cases, ◌==◌, update, update_cases, update_self,
}
use inca_go.Wire.{Ref, nil_ref, BlockState, SegmentState, Env}
use inca_go.Result.{Result-cases}
use inca_go.Block.{Block, BlockValidator, validate_child}
use inca_go.World.{World, ◌>>◌, write_block, write_segment, set_segment}
use inca_go.Segment.{marked, append_known, append_new, append_block}
use inca_go.Integrity.{
  Core, core, Whole, Named, Linked, Sound, Named-Grows, Loaded, Holds, Good, Good-trans, bind-Holds,
  Holds-map,
}
use inca_go.Integrity.Writes.{memory_write}
use inca_go.Integrity.Calls.{unchanged, write_placed-Holds, write_segment-Holds}

module _ (e : Env) where
  -- The block and its parent as the database has them, and the segment of the parent.
  pub record Ready (s : ℕ) (blk_ref : Ref) (blk parent : Block) (w : World) : Type 0 where
    pub up : w.is_loaded s ≡ true
    pub own : parent.segment_id ≡ s
    pub parent_state : parent.state ≡ w.blocks (e.object_digest parent.blk_ref)
    pub blk_state : blk.state ≡ w.blocks (e.object_digest blk.blk_ref)
    pub of_ref : blk.blk_ref ≡ blk_ref
    pub new : blk.segment_id ≡ 0
    pub link : Linked e (e.object_digest parent.blk_ref) blk_ref

  -- The segment gets a new head, which is in it.
  grow_segment :
      (s : ℕ) (blk_ref : Ref) (mark : Bool) (st : SegmentState) (w : World)
      → Sound e (core w)
      → w.is_loaded s ≡ true
      → (w.blocks (e.object_digest blk_ref)).segment_id ≡ s
      → w.memory s ≡ st
      → let w' = record w {
        memory =
            update w.memory s (record st { head_block = blk_ref; status = marked mark st.status });
      } in
        Holds e (λ _. Good e w) (write_segment e s w')
  grow_segment s blk_ref mark st w sound up placed same =
      let st' : SegmentState = record st { head_block = blk_ref; status = marked mark st.status } in
      let w' : World = record w { memory = update w.memory s st' } in
      let (stored, whole, next, prev) = subst (Loaded e (core w) s) same (sound.loaded s up) in
      let whole' : Whole e (core w) s st' = record {
        not_nil = whole.not_nil;
        own = whole.own;
        head = placed;
        tail = whole.tail;
      } in
      let good : Good e w w' = memory_write e (core w) s st' sound (stored, whole', next, prev) in
      Holds-map e (write_segment e s w') (λ _ x h. Good-trans e w w' x good h.1)
        (write_segment-Holds e s w' good.0 up)

  append_linked :
      (s : ℕ) (blk_ref : Ref) (blk parent : Block) (mark : Bool) (w : World)
      → Sound e (core w)
      → Ready s blk_ref blk parent w
      → Holds e
          (λ _. Good e w)
          ((do
            write_block e (record parent { state = record (parent.state) { next_block = blk_ref } })
            write_block e
                (record blk { state = record (blk.state) { segment_id = parent.segment_id } })
            set_segment s (record (w.memory s) {
              head_block = blk_ref;
              status = marked mark (w.memory s).status;
            })
            write_segment e s)
            w)
  append_linked s blk_ref blk parent mark w sound r =
      let parent' : Block = record parent {
        state = record (parent.state) { next_block = blk_ref };
      } in
      let blk' : Block = record blk {
        state = record (blk.state) { segment_id = parent.segment_id };
      } in
      let dp = e.object_digest parent.blk_ref in
      let db = e.object_digest blk.blk_ref in
      let named : Named e (core w) parent.segment_id =
        subst (λ (b : BlockState). Named e (core w) b.segment_id) (sym r.parent_state)
          (sound.placed dp) in
      bind-Holds e (write_block e parent' w) _
        (write_placed-Holds e parent' w sound
          (inr (ap (λ (b : BlockState). b.segment_id) r.parent_state)) named (λ _. r.link))
        (λ u w1 (is1, good1).
          let at_blk : w1.blocks db ≡ update w.blocks dp parent'.state db =
            ap (λ (c : Core). c.blocks db) is1 in
          let free : ((w1.blocks db).segment_id ≡ 0)
              ⊎ (parent.segment_id ≡ (w1.blocks db).segment_id) =
            elim (update_cases w.blocks dp parent'.state db) [
              | inl (_, now) ↦ inr (sym (ap (λ (b : BlockState). b.segment_id) (at_blk ∙ now)))
              | inr (_, old) ↦
                  inl (
                    ap (λ (b : BlockState). b.segment_id) (at_blk ∙ (old ∙ sym r.blk_state))
                    ∙ r.new)
            ] in
          let next : blk.next_block ≢ nil_ref → Linked e db blk.next_block =
            subst (λ (b : BlockState). b.next_block ≢ nil_ref → Linked e db b.next_block)
              (sym r.blk_state) (sound.linked db) in
          bind-Holds e (write_block e blk' w1) _
            (write_placed-Holds e blk' w1 good1.0 free
              (Named-Grows e (core w) (core w1) _ good1.1 named) next)
            (λ u w2 (is2, good2).
              let good = Good-trans e w w1 w2 good1 good2 in
              let placed : (w2.blocks (e.object_digest blk_ref)).segment_id ≡ s =
                subst (λ x. (w2.blocks (e.object_digest x)).segment_id ≡ s) r.of_ref
                  (ap (λ (c : Core). (c.blocks db).segment_id) is2
                    ∙ (ap (λ (b : BlockState). b.segment_id) (update_self w1.blocks db blk'.state)
                        ∙ r.own)) in
              let memory : w2.memory s ≡ w.memory s =
                ap (λ (c : Core). c.memory s) is2 ∙ ap (λ (c : Core). c.memory s) is1 in
              Holds-map e _ (λ _ x h. Good-trans e w w2 x good h)
                (grow_segment s blk_ref mark (w.memory s) w2 good.0 (good.1.up s r.up) placed
                  memory)))

  append_new-Good :
      (v : Option BlockValidator) (s : ℕ) (blk_ref : Ref) (blk parent : Block) (w : World)
      → Sound e (core w)
      → Ready s blk_ref blk parent w
      → Holds e (λ _. Good e w) (append_new e v s blk_ref blk parent w)
  unfolding append_new
  append_new-Good v s blk_ref blk parent w sound r =
      elim (Bool-cases ((w.memory s).segment_next == 0)) [
        | inr followed ↦ rw followed (record { ends = sound })
        | inl last ↦ elim (Result-cases (validate_child e parent blk v)) [
          | inr (x, refused) ↦ rw (last, refused) (record { ends = sound })
          | inl (mark, accepted) ↦
              rw (last, accepted) (append_linked s blk_ref blk parent mark w sound r)
        ]
      ]

  append_known-Good :
      (v : Option BlockValidator) (blk : Block) (next : Ref) (w : World)
      → Sound e (core w)
      → Holds e (λ _. Good e w) (append_known e v blk next w)
  unfolding append_known
  append_known-Good v blk next w sound = elim (Option-cases (e.follow_block next)) [
    | inl lost ↦ rw lost (record { ends = sound })
    | inr (inner, found) ↦
        elim (Bool-cases (e.ref_equals inner.block_header_ref blk.inner.block_header_ref)) [
          | inl same ↦ rw (found, same) (record { ends = unchanged e w w sound refl })
          | inr forked ↦ rw (found, forked) (record { ends = sound })
        ]
  ]

  pub append_block-Good :
      (v : Option BlockValidator) (s : ℕ) (blk_ref : Ref) (blk parent : Block) (w : World)
      → Sound e (core w)
      → Ready s blk_ref blk parent w
      → Holds e (λ _. Good e w) (append_block e v s blk_ref blk parent w)
  unfolding append_block
  append_block-Good v s blk_ref blk parent w sound r =
      elim (Bool-cases (parent.next_block == nil_ref)) [
        | inl last ↦ rw last (append_new-Good v s blk_ref blk parent w sound r)
        | inr followed ↦ rw followed (append_known-Good v blk parent.next_block w sound)
      ]
