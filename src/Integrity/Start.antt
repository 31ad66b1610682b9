-- ===== src/Integrity/Start.antt =====
-- The start of a chain on an empty node.
use mathlib.Core.List.{not-mem-nil}
use inca_go.Base.{ℕ, ◌≡◌, sym, subst, ap, inl, inr, ◌∙◌, true, false, none, [], Mem, arith}
use inca_go.Wire.{Ref, nil_ref, Digest, BlockState, BlockHeader, ChainState, Env}
use inca_go.Block.{Block}
use inca_go.World.{World, Run, done, failed, get_block, write_block}
use inca_go.Segment.Store.{new_segment}
use inca_go.Chain.{write_state}
use inca_go.Chain.New.{Stores, start_chain}
use inca_go.Integrity.{core, Named, Sound, Named-Grows, Holds, Good, Good-trans, bind-Holds}
use inca_go.Integrity.Calls.{Fetched-state, unchanged, get_block-Holds, write_placed-Holds}
use inca_go.Integrity.Queued.{chain_write}
use inca_go.Integrity.Commit.{Fresh, new_segment-Good}
use inca_go.Integrity.Pass.{write_state-Good}

-- A node before it has a chain.
pub record Empty (w : World) : Type 0 where
  pub no_blocks : (d : Digest) → w.blocks d ≡ record { segment_id = 0; next_block = nil_ref }
  pub no_segments : (s : ℕ) → w.segments s ≡ none
  pub no_memory : (s : ℕ) → w.is_loaded s ≡ false
  pub no_queue : w.queue ≡ []
  pub no_state : w.chain_state.state_segment ≡ 0
  pub no_stored_state : w.stored_chain_state.state_segment ≡ 0

module _ (e : Env) (st : Stores) where
  pub Empty-Sound : (w : World) → Empty w → Sound e (core w)
  Empty-Sound w empty = record {
    placed = λ d. inl (ap (λ (b : BlockState). b.segment_id) (empty.no_blocks d));
    linked = λ d h. absurd (h (ap (λ (b : BlockState). b.next_block) (empty.no_blocks d)));
    stored = λ s x h. absurd (ground (arith, empty.no_segments s, h));
    loaded = λ s h. absurd (ground (arith, empty.no_memory s, h));
    queued = λ s h. absurd (not-mem-nil (subst (Mem s) empty.no_queue h));
    state = inl empty.no_state;
    stored_state = inl empty.no_stored_state;
  }

  pub start_chain-Good :
      (uid : ℕ) (blk_ref : Ref) (header : BlockHeader) (w : World)
      → Sound e (core w)
      → Empty w
      → Fresh uid (core w)
      → Holds e (λ _. Good e w) (start_chain e st uid blk_ref header w)
  unfolding start_chain
  start_chain-Good uid blk_ref header w sound empty fresh =
      bind-Holds e (get_block e blk_ref w) _ (get_block-Holds e blk_ref w sound) (λ blk w1 f.
        let good1 = unchanged e w w1 sound f.same in
        let free : blk.segment_id ≡ 0 =
          ap (λ (b : BlockState). b.segment_id)
            (f.state ∙ empty.no_blocks (e.object_digest blk_ref)) in
        bind-Holds e (new_segment e uid blk blk_ref w1) _
          (subst
            (λ r.
              Holds e
                (λ s w'.
                  Good e w1 w'
                  × (s ≡ uid)
                  × (w'.is_loaded uid ≡ true)
                  × ((w'.blocks (e.object_digest r)).segment_id ≡ uid))
                (new_segment e uid blk r w1))
            f.of_ref
            (new_segment-Good e uid blk w1 good1.0 (subst (Fresh uid) (sym f.same) fresh)
              (Fetched-state e blk_ref w w1 blk f) free))
          (λ s w2 (good2, same, there, placed).
            let id = (w2.memory s).id in
            let (stored, whole, _, _) =
              good2.0.loaded s (subst (λ x. w2.is_loaded x ≡ true) (sym same) there) in
            let named : Named e (core w2) id =
              subst (Named e (core w2)) (sym whole.own) (inr stored) in
            let blk' : Block = record blk { state = record (blk.state) { segment_id = id } } in
            let d = e.object_digest blk.blk_ref in
            let here : (w2.blocks d).segment_id ≡ uid =
              subst (λ r. (w2.blocks (e.object_digest r)).segment_id ≡ uid) (sym f.of_ref) placed in
            let alone : blk.next_block ≡ nil_ref =
              ap (λ (b : BlockState). b.next_block)
                (f.state ∙ empty.no_blocks (e.object_digest blk_ref)) in
            bind-Holds e (write_block e blk' w2) _
              (write_placed-Holds e blk' w2 good2.0 (inr (whole.own ∙ (same ∙ sym here))) named
                (λ h. absurd (h alone)))
              (λ u3 w3 (_, good3).
                let cs : ChainState = record {
                  state_segment = id;
                  last_height = 0;
                  last_round = 0;
                } in
                let w4 : World = record w3 { chain_state = cs } in
                let good4 : Good e w3 w4 =
                  chain_write e (core w3) w3.queue id w3.stored_chain_state.state_segment good3.0
                    good3.0.queued (Named-Grows e (core w2) (core w3) id good3.1 named)
                    good3.0.stored_state in
                bind-Holds e (write_state e w4) _ (write_state-Good e w4 good4.0) (λ u5 w5 good5.
                  record {
                    ends = Good-trans e w w1 w5 good1 (
                        Good-trans e w1 w2 w5 good2
                          (Good-trans e w2 w3 w5 good3 (Good-trans e w3 w4 w5 good4 good5)));
                  }))))

  pub done-Sound :
      (r : Run (Unit {0})) (w w' : World)
      → r ≡ done tt w'
      → Holds e (λ _. Good e w) r
      → Sound e (core w')
  done-Sound (done u x) w w' h holds =
      let same : x ≡ w' = ground arith in subst (λ y. Sound e (core y)) same holds.ends.0
  done-Sound (failed x y) w w' h holds = absurd (ground arith)
