-- ===== src/Integrity/Commit.antt =====
-- NewSegment and HandleBlockCommit keep what holds of the node.
use inca_go.Base.{
  ℕ, ◌≡◌, ◌≢◌, refl, sym, subst, ap, inl, inr, ◌∙◌, true, false, Option, none, some, arith,
  Bool-cases, ◌==◌, update, update_self,
}
use inca_go.Wire.{Ref, nil_ref, Digest, BlockState, Env}
use inca_go.Block.{Block, BlockValidator}
use inca_go.World.{World, access, write_block, get_block, get_segment_by_id}
use inca_go.Segment.{append_block}
use inca_go.Segment.Store.{new_segment, new_state, requeue}
use inca_go.Chain.{handle_new_block, handle_block_commit, trigger_state_recheck}
use inca_go.Integrity.{
  Core, core, Stored, Named, Linked, Sound, Grows-trans, segment_there, Holds, Good, Good-trans,
  bind-Holds, Holds-map,
}
use inca_go.Integrity.Writes.{segment_write}
use inca_go.Integrity.Calls.{
  Fetched, Fetched-state, becomes, unchanged, access-Holds, get_block-Holds, write_block-Holds,
  get_segment_by_id-Holds,
}
use inca_go.Integrity.Queued.{requeue-Good}
use inca_go.Integrity.Append.{append_block-Good}

-- A new UUID: not empty, and of no segment that is stored or loaded.
pub record Fresh (uid : ℕ) (c : Core) : Type 0 where
  pub not_nil : uid ≢ 0
  pub not_stored : c.segments uid ≡ none
  pub not_loaded : c.is_loaded uid ≡ false

module _ (e : Env) where
  pub new_segment-Good :
      (uid : ℕ) (blk : Block) (w : World)
      → Sound e (core w)
      → Fresh uid (core w)
      → blk.state ≡ w.blocks (e.object_digest blk.blk_ref)
      → blk.segment_id ≡ 0
      → Holds e
          (λ s w'.
            Good e w w'
            × (s ≡ uid)
            × (w'.is_loaded uid ≡ true)
            × ((w'.blocks (e.object_digest blk.blk_ref)).segment_id ≡ uid))
          (new_segment e uid blk blk.blk_ref w)
  unfolding new_segment
  new_segment-Good uid blk w sound fresh state free =
      let st = new_state uid blk blk.blk_ref in
      let d = e.object_digest blk.blk_ref in
      let blk' : Block = record blk { state = record (blk.state) { segment_id = uid } } in
      bind-Holds e (access e w) _ (access-Holds e w sound) (λ u w0 same.
        let w1 : World = record w0 { segments = update w0.segments uid (some st) } in
        let (is1, good1) =
          becomes e (record (core w) { segments = update w.segments uid (some st) }) w w1
            (ap (λ (c : Core). record c { segments = update c.segments uid (some st) }) same)
            (segment_write e (core w) uid st sound (inr (fresh.not_stored, fresh.not_loaded))
              (inl refl) (inl refl)) in
        let c' : Core = record (core w1) { blocks = update w1.blocks d blk'.state } in
        let at_blk : w1.blocks d ≡ w.blocks d = ap (λ (c : Core). c.blocks d) is1 in
        let stored : Stored e c' uid = (
          st,
          ap (λ (c : Core). c.segments uid) is1 ∙ update_self w.segments uid (some st),
          record {
            not_nil = fresh.not_nil;
            own = refl;
            head = ap (λ (b : BlockState). b.segment_id) (update_self w1.blocks d blk'.state);
            tail = ap (λ (b : BlockState). b.segment_id) (update_self w1.blocks d blk'.state);
          },
        ) in
        let free1 : (w1.blocks d).segment_id ≡ 0 =
          ap (λ (b : BlockState). b.segment_id) (at_blk ∙ sym state) ∙ free in
        let link : blk.next_block ≢ nil_ref → Linked e d blk.next_block =
          subst (λ (b : BlockState). b.next_block ≢ nil_ref → Linked e d b.next_block) (sym state)
            (sound.linked d) in
        bind-Holds e (write_block e blk' w1) _
          (write_block-Holds e blk' w1 good1.0 (inl free1) (λ _. inr stored) link)
          (λ u2 w2 (is2, good2).
            let good12 = Good-trans e w w1 w2 good1 good2 in
            bind-Holds e (get_segment_by_id e uid w2) _
              (get_segment_by_id-Holds e uid w2 good2.0
                (subst (λ c. Stored e c uid) (sym is2) stored))
              (λ s w3 (good3, same_id, there, _, _).
                let good = Good-trans e w w2 w3 good12 good3 in
                let up : w3.is_loaded s ≡ true =
                  subst (λ x. w3.is_loaded x ≡ true) (sym same_id) there in
                bind-Holds e (requeue s w3) _ (requeue-Good e s w3 good.0 up) (λ u4 w4 (good4, _).
                  record {
                    ends = (
                      Good-trans e w w3 w4 good good4,
                      same_id,
                      good4.1.up uid there,
                      let here : (w2.blocks d).segment_id ≡ uid =
                            ap (λ (c : Core). (c.blocks d).segment_id) is2
                            ∙ ap (λ (b : BlockState). b.segment_id)
                                (update_self w1.blocks d blk'.state) in
                          let still = Grows-trans e (core w2) (core w3) (core w4) good3.1 good4.1 in
                          still.stays d (λ z. fresh.not_nil (sym here ∙ z)) ∙ here,
                    );
                  }))))

  handle_new_block-Good :
      (v : Option BlockValidator) (uid : ℕ) (blk_ref : Ref) (blk : Block) (w w0 : World)
      → Sound e (core w)
      → Fresh uid (core w)
      → Fetched e blk_ref w0 blk w
      → blk.segment_id ≡ 0
      → Holds e (λ _. Good e w) (handle_new_block e v uid blk_ref blk w)
  unfolding handle_new_block trigger_state_recheck
  handle_new_block-Good v uid blk_ref blk w w0 sound fresh f free =
      let state = Fetched-state e blk_ref w0 w blk f in
      let last = blk.header.last_block_ref in
      bind-Holds e (get_block e last w) _ (get_block-Holds e last w sound) (λ parent w1 f1.
        let good1 = unchanged e w w1 sound f1.same in
        let named : Named e (core w1) parent.segment_id =
          subst (λ (b : BlockState). Named e (core w1) b.segment_id)
            (sym (Fetched-state e last w w1 parent f1))
            (good1.0.placed (e.object_digest parent.blk_ref)) in
        let state1 : blk.state ≡ w1.blocks (e.object_digest blk.blk_ref) =
          state ∙ ap (λ (c : Core). c.blocks (e.object_digest blk.blk_ref)) (sym f1.same) in
        elim (Bool-cases (parent.segment_id == 0)) [
          | inl loose ↦ rw loose (
              bind-Holds e (new_segment e uid blk blk_ref w1) _
                (subst
                  (λ r.
                    Holds e
                      (λ s w'.
                        Good e w1 w'
                        × (s ≡ uid)
                        × (w'.is_loaded uid ≡ true)
                        × ((w'.blocks (e.object_digest r)).segment_id ≡ uid))
                      (new_segment e uid blk r w1))
                  f.of_ref
                  (new_segment-Good uid blk w1 good1.0 (subst (Fresh uid) (sym f1.same) fresh)
                    state1 free))
                (λ s w2 (good2, _, _, _). record { ends = Good-trans e w w1 w2 good1 good2 }))
          | inr held ↦ rw held (
              bind-Holds e (get_segment_by_id e parent.segment_id w1) _
                (get_segment_by_id-Holds e parent.segment_id w1 good1.0
                  (segment_there e named (ground (arith, held))))
                (λ s w2 (good2, same_id, there, blocks, _).
                  let good = Good-trans e w w1 w2 good1 good2 in
                  bind-Holds e (append_block e v s blk_ref blk parent w2) _
                    (append_block-Good e v s blk_ref blk parent w2 good.0 (record {
                      up = subst (λ x. w2.is_loaded x ≡ true) (sym same_id) there;
                      own = sym same_id;
                      parent_state =
                          Fetched-state e last w w1 parent f1
                          ∙ ap (λ (b : Digest → BlockState). b (e.object_digest parent.blk_ref))
                              (sym blocks);
                      blk_state =
                          state1
                          ∙ ap (λ (b : Digest → BlockState). b (e.object_digest blk.blk_ref))
                              (sym blocks);
                      of_ref = f.of_ref;
                      new = free;
                      link = record {
                        inner = blk.inner;
                        header = blk.header;
                        found = f.found;
                        header_found = f.header_found;
                        last = ap e.object_digest (sym f1.of_ref);
                      };
                    }))
                    (λ u w3 good3. record { ends = Good-trans e w w2 w3 good good3 })))
        ])

  pub handle_block_commit-Good :
      (v : Option BlockValidator) (uid : ℕ) (blk_ref : Ref) (w : World)
      → Sound e (core w)
      → Fresh uid (core w)
      → Holds e (λ _. Good e w) (handle_block_commit e v uid blk_ref w)
  unfolding handle_block_commit
  handle_block_commit-Good v uid blk_ref w sound fresh =
      bind-Holds e (get_block e blk_ref w) _ (get_block-Holds e blk_ref w sound) (λ blk w1 f.
        let good = unchanged e w w1 sound f.same in
        elim (Bool-cases (blk.segment_id == 0)) [
          | inl free ↦ rw free (
              Holds-map e _ (λ _ x h. Good-trans e w w1 x good h)
                (handle_new_block-Good v uid blk_ref blk w1 w good.0
                  (subst (Fresh uid) (sym f.same) fresh) f (ground (arith, free))))
          | inr there ↦ rw there (record { ends = good })
        ])
