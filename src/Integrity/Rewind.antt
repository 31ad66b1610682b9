-- ===== src/Integrity/Rewind.antt =====
-- RewindOnce keeps what holds of the node.
use inca_go.Base.{
  ℕ, ◌≡◌, refl, sym, subst, ap, inl, inr, ◌∙◌, true, Option, some, arith, Bool-cases, Option-cases,
  ◌==◌, update_self,
}
use inca_go.Wire.{Ref, BlockState, InnerBlock, Env, disjointed}
use inca_go.Block.{Block, BlockValidator, validate_child}
use inca_go.World.{World, write_block, get_block}
use inca_go.Segment.{is_status, judged, rewind_into, rewind_prev, rewind_tail, rewind_once}
use inca_go.Integrity.{
  Core, core, Named, Linked, Sound, Whole-Stays, Named-Grows, segment_there, Holds, Good,
  Good-trans, bind-Holds, Holds-map,
}
use inca_go.Integrity.Calls.{Fetched, Fetched-state, unchanged, get_block-Holds, write_placed-Holds}
use inca_go.Integrity.Join.{loaded-Named, rewind_join-Good, set_written}

module _ (e : Env) where
  -- The block before the tail of a segment, as the database has it.
  record Before (prev_ref : Ref) (prev tail : Block) (w : World) : Type 0 where
    of_ref : prev.blk_ref ≡ prev_ref
    state : prev.state ≡ w.blocks (e.object_digest prev.blk_ref)
    link : Linked e (e.object_digest prev.blk_ref) tail.blk_ref

  rewind_into-Good :
      (v : Option BlockValidator) (s : ℕ) (prev_ref : Ref) (prev tail : Block) (w : World)
      → Sound e (core w)
      → w.is_loaded s ≡ true
      → Before prev_ref prev tail w
      → prev.segment_id ≡ 0
      → Holds e (λ _. Good e w) (rewind_into e v s prev_ref prev tail w)
  unfolding rewind_into
  rewind_into-Good v s prev_ref prev tail w sound up b free =
      let d = e.object_digest prev.blk_ref in
      let st = w.memory s in
      let (_, whole, next, last) = sound.loaded s up in
      let prev' : Block = record prev {
        state = record { segment_id = st.id; next_block = tail.blk_ref };
      } in
      bind-Holds e (write_block e prev' w) _
        (write_placed-Holds e prev' w sound
          (inl (ap (λ (x : BlockState). x.segment_id) (sym b.state) ∙ free))
          (loaded-Named e s w sound up) (λ _. b.link))
        (λ u w1 (is1, good1).
          let placed : (w1.blocks (e.object_digest prev_ref)).segment_id ≡ s =
            subst (λ x. (w1.blocks (e.object_digest x)).segment_id ≡ s) b.of_ref
              (ap (λ (c : Core). (c.blocks d).segment_id) is1
                ∙ (ap (λ (x : BlockState). x.segment_id) (update_self w.blocks d prev'.state)
                    ∙ whole.own)) in
          Holds-map e _ (λ _ x h. Good-trans e w w1 x good1 h)
            (set_written e s
              (record st {
                tail_block = prev_ref;
                tail_block_round = prev.header.round_info;
                status = judged (validate_child e prev tail v) st.status;
              })
              w1 good1.0 (good1.1.up s up)
              (record {
                not_nil = whole.not_nil;
                own = whole.own;
                head = (Whole-Stays e (core w) (core w1) s st good1.1.stays whole).head;
                tail = placed;
              })
              (Named-Grows e (core w) (core w1) _ good1.1 next)
              (Named-Grows e (core w) (core w1) _ good1.1 last)))

  rewind_prev-Good :
      (v : Option BlockValidator) (s : ℕ) (prev_ref : Ref) (prev tail : Block) (w : World)
      → Sound e (core w)
      → w.is_loaded s ≡ true
      → Before prev_ref prev tail w
      → Holds e (λ _. Good e w) (rewind_prev e v s prev_ref prev tail w)
  unfolding rewind_prev
  rewind_prev-Good v s prev_ref prev tail w sound up b = elim (Bool-cases (prev.segment_id == 0)) [
    | inl free ↦
        rw free (rewind_into-Good v s prev_ref prev tail w sound up b (ground (arith, free)))
    | inr placed ↦ rw placed (
        rewind_join-Good e v s prev.segment_id w sound up (
          segment_there e
            (subst (λ (x : BlockState). Named e (core w) x.segment_id) (sym b.state)
              (sound.placed (e.object_digest prev.blk_ref)))
            (ground (arith, placed))))
  ]

  before :
      (tail_ref : Ref) (prev tail : Block) (w w1 w2 : World)
      → Fetched e tail_ref w tail w1
      → Fetched e tail.header.last_block_ref w1 prev w2
      → Before tail.header.last_block_ref prev tail w2
  before tail_ref prev tail w w1 w2 f1 f2 = record {
    of_ref = f2.of_ref;
    state = Fetched-state e tail.header.last_block_ref w1 w2 prev f2;
    link = record {
      inner = tail.inner;
      header = tail.header;
      found = ap e.follow_block f1.of_ref ∙ f1.found;
      header_found = f1.header_found;
      last = ap e.object_digest (sym f2.of_ref);
    };
  }

  rewind_tail-Good :
      (v : Option BlockValidator) (s : ℕ) (tail_ref : Ref) (w : World)
      → Sound e (core w)
      → w.is_loaded s ≡ true
      → Holds e (λ _. Good e w) (rewind_tail e v s tail_ref w)
  unfolding rewind_tail
  rewind_tail-Good v s tail_ref w sound up = elim (Option-cases (e.follow_block tail_ref)) [
    | inl lost ↦ rw lost (record { ends = sound })
    | inr (inner, found) ↦ rw found (
        bind-Holds e (get_block e tail_ref w) _ (get_block-Holds e tail_ref w sound) (λ tail w1 f1.
          let same : tail.inner ≡ inner = ground (arith, f1.found, found) in
          let header_found : e.follow_header inner.block_header_ref ≡ some tail.header =
            subst (λ (i : InnerBlock). e.follow_header i.block_header_ref ≡ some tail.header) same
              f1.header_found in
          let good1 = unchanged e w w1 sound f1.same in
          let last = tail.header.last_block_ref in
          rw header_found (
            bind-Holds e (get_block e last w1) _ (get_block-Holds e last w1 good1.0) (λ prev w2 f2.
              let good = Good-trans e w w1 w2 good1 (unchanged e w1 w2 good1.0 f2.same) in
              Holds-map e _ (λ _ x h. Good-trans e w w2 x good h)
                (rewind_prev-Good v s last prev tail w2 good.0 (good.1.up s up)
                  (before tail_ref prev tail w w1 w2 f1 f2))))))
  ]

  pub rewind_once-Good :
      (v : Option BlockValidator) (s : ℕ) (w : World)
      → Sound e (core w)
      → w.is_loaded s ≡ true
      → Holds e (λ _. Good e w) (rewind_once e v s w)
  unfolding rewind_once
  rewind_once-Good v s w sound up = elim (Bool-cases (is_status (w.memory s).status disjointed)) [
    | inl alone ↦ rw alone (rewind_tail-Good v s (w.memory s).tail_block w sound up)
    | inr rest ↦ rw rest (record { ends = unchanged e w w sound refl })
  ]
