-- ===== src/Integrity/Pass.antt =====
-- A pass over the chain's state, manageStateOnce, keeps what holds of the node.
use inca_go.Base.{
  ℕ, ◌≡◌, refl, sym, subst, ap, inl, inr, ◌∙◌, true, some, arith, Bool-cases, Option-cases, ◌==◌,
  ltb, leb,
}
use inca_go.Wire.{Ref, BlockState, BlockHeader, ChainState, Env}
use inca_go.Block.{Block, next_height}
use inca_go.Snapshot.{Snapshot}
use inca_go.World.{World, modify, access, get_block, get_segment_by_id}
use inca_go.Chain.Round.{second, round_duration}
use inca_go.Chain.{
  reset_round, snapshot_changed, emit_next_chain_state, write_state, set_head_block,
  emit_if_changed, compute_round, compute_emit_snapshot, fast_forward, update_head,
  manage_state_once,
}
use inca_go.Integrity.{
  core, Named, Sound, segment_there, Holds, Good, Good-trans, bind-Holds, Holds-map,
}
use inca_go.Integrity.Calls.{
  Fetched-state, unchanged, access-Holds, get_block-Holds, get_segment_by_id-Holds,
}
use inca_go.Integrity.Queued.{chain_write}

reset_round-segment :
    (h : BlockHeader) (cs : ChainState) → (reset_round h cs).state_segment ≡ cs.state_segment
unfolding reset_round
reset_round-segment h cs = ground arith

module _ (e : Env) where
  -- The chain names another segment.
  move_state :
      (w : World) (cs : ChainState)
      → Sound e (core w)
      → Named e (core w) cs.state_segment
      → Good e w (record w { chain_state = cs })
  move_state w cs sound named =
      chain_write e (core w) w.queue cs.state_segment w.stored_chain_state.state_segment sound
        sound.queued named sound.stored_state

  pub write_state-Good : (w : World) → Sound e (core w) → Holds e (λ _. Good e w) (write_state e w)
  unfolding write_state
  write_state-Good w sound =
      bind-Holds e (access e (record w { recheck = true })) _
        (access-Holds e (record w { recheck = true }) sound)
        (λ u w1 same.
          let good = unchanged e w w1 sound same in
          record {
            ends =
                Good-trans e w w1 (record w1 { stored_chain_state = w1.chain_state }) good
                  (chain_write e (core w1) w1.queue w1.chain_state.state_segment
                    w1.chain_state.state_segment good.0 good.0.queued good.0.state good.0.state);
          })

  pub set_head_block-Good :
      (head : Block) (w : World)
      → Sound e (core w)
      → Named e (core w) head.segment_id
      → Holds e (λ _. Good e w) (set_head_block e head w)
  unfolding set_head_block
  set_head_block-Good head w sound named =
      let cs : ChainState = record {
        state_segment = head.segment_id;
        last_height = next_height head.header.round_info.height;
        last_round = 0;
      } in
      let w1 : World = record w {
        last_block = some head;
        last_block_header = some (head.header);
        last_block_ref = head.blk_ref;
        last_head_digest = e.object_digest head.blk_ref;
        chain_state = cs;
      } in
      let good : Good e w w1 = move_state w cs sound named in
      Holds-map e (write_state e w1) (λ _ x h. Good-trans e w w1 x good h)
        (write_state-Good w1 good.0)

  emit_if_changed-core : (snap : Snapshot) (w : World) → core (emit_if_changed e snap w) ≡ core w
  unfolding emit_if_changed emit_next_chain_state
  emit_if_changed-core snap w = elim (Bool-cases (snapshot_changed w.last_snapshot snap)) [
    | inl new ↦ rw new refl
    | inr old ↦ rw old refl
  ]

  emitted-Good :
      (snap : Snapshot) (v w : World)
      → Sound e (core w)
      → core v ≡ core w
      → Holds e (λ _. Good e w) (modify (emit_if_changed e snap) v)
  emitted-Good snap v w sound same = record {
    ends = unchanged e w (emit_if_changed e snap v) sound (emit_if_changed-core snap v ∙ same);
  }

  compute_round-Good :
      (now now' : ℕ) (h : BlockHeader) (w : World)
      → Sound e (core w)
      → Holds e (λ _. Good e w) (compute_round e now now' h w)
  unfolding compute_round
  compute_round-Good now now' h w sound =
      let w1 : World = record w { chain_state = reset_round h w.chain_state } in
      let same : core w1 ≡ core w =
        ap (λ s. record (core w) { state_segment = s }) (reset_round-segment h w.chain_state) in
      let good = unchanged e w w1 sound same in
      elim (Bool-cases (ltb now h.block_ts)) [
        | inl future ↦ rw future (record { ends = good.0 })
        | inr past ↦ elim (Option-cases (e.follow_chain_config h.next_chain_config_ref)) [
          | inl missing ↦ rw (past, missing) (record { ends = good.0 })
          | inr (conf, read) ↦ elim (Bool-cases (leb second (round_duration conf))) [
            | inr short ↦ rw (past, read, short) (record { ends = good.0 })
            | inl long ↦ elim (Option-cases (e.follow_validator_set conf.validator_set_ref)) [
              | inl lost ↦ rw (past, read, long, lost) (record { ends = good.0 })
              | inr (vals, seen) ↦ rw (past, read, long, seen) (emitted-Good _ _ w sound same)
            ]
          ]
        ]
      ]

  compute_emit_snapshot-Good :
      (now now' : ℕ) (w : World)
      → Sound e (core w)
      → Holds e (λ _. Good e w) (compute_emit_snapshot e now now' w)
  unfolding compute_emit_snapshot
  compute_emit_snapshot-Good now now' w sound = elim (Option-cases w.last_block_header) [
    | inl nothing ↦ rw nothing (record { ends = unchanged e w w sound refl })
    | inr (h, found) ↦ rw (found, compute_emit_snapshot) (compute_round-Good now now' h w sound)
  ]

  fast_forward-Good :
      (seg next : ℕ) (w : World)
      → Sound e (core w)
      → w.is_loaded seg ≡ true
      → Named e (core w) next
      → Holds e (λ s w'. Good e w w' × (w'.is_loaded s ≡ true)) (fast_forward e seg next w)
  unfolding fast_forward
  fast_forward-Good seg next w sound up named = elim (Bool-cases (next == 0)) [
    | inl last ↦ rw last (record { ends = (unchanged e w w sound refl, up) })
    | inr more ↦
        let stored = segment_there e named (ground (arith, more)) in
        rw more (
          bind-Holds e (get_segment_by_id e next w) _
            (get_segment_by_id-Holds e next w sound stored)
            (λ s w1 (good1, same, there, _, _).
              let w2 : World = record w1 {
                chain_state = record (w1.chain_state) { state_segment = next };
              } in
              let good2 =
                move_state w1 (record (w1.chain_state) { state_segment = next }) good1.0
                  (inr (good1.1.kept next stored)) in
              bind-Holds e _ _ (write_state-Good w2 good2.0) (λ u w3 good3. record {
                ends = (
                  Good-trans e w w1 w3 good1 (Good-trans e w1 w2 w3 good2 good3),
                  good3.1.up s (subst (λ x. w1.is_loaded x ≡ true) (sym same) there),
                );
              })))
  ]

  update_head-Good :
      (head_ref : Ref) (head : Block) (w : World)
      → Sound e (core w)
      → Named e (core w) head.segment_id
      → Holds e (λ _. Good e w) (update_head e head_ref head w)
  unfolding update_head
  update_head-Good head_ref head w sound named =
      elim (Bool-cases (e.object_digest head_ref == w.last_head_digest)) [
        | inl same ↦ rw same (record { ends = unchanged e w w sound refl })
        | inr new ↦ rw new (set_head_block-Good head w sound named)
      ]

  pub manage_state_once-Good :
      (now now' : ℕ) (w : World)
      → Sound e (core w)
      → Holds e (λ _. Good e w) (manage_state_once e now now' w)
  unfolding manage_state_once
  manage_state_once-Good now now' w sound = elim (Bool-cases (w.chain_state.state_segment == 0)) [
    | inl nothing ↦ rw nothing (record { ends = sound })
    | inr has ↦ rw has (
        bind-Holds e (get_segment_by_id e w.chain_state.state_segment w) _
          (get_segment_by_id-Holds e w.chain_state.state_segment w sound
            (segment_there e sound.state (ground (arith, has))))
          (λ s w1 (good1, same, there, _, _).
            let up : w1.is_loaded s ≡ true = subst (λ x. w1.is_loaded x ≡ true) (sym same) there in
            let (_, _, next, _) = good1.0.loaded s up in
            bind-Holds e (fast_forward e s (w1.memory s).segment_next w1) _
              (fast_forward-Good s (w1.memory s).segment_next w1 good1.0 up next)
              (λ seg w2 (good2, up2).
                let ref = (w2.memory seg).head_block in
                bind-Holds e (get_block e ref w2) _ (get_block-Holds e ref w2 good2.0) (λ head w3 f.
                  let good3 = unchanged e w2 w3 good2.0 f.same in
                  let named : Named e (core w3) head.segment_id =
                    subst (λ (b : BlockState). Named e (core w3) b.segment_id)
                      (sym (Fetched-state e ref w2 w3 head f))
                      (good3.0.placed (e.object_digest head.blk_ref)) in
                  bind-Holds e (update_head e ref head w3) _
                    (update_head-Good ref head w3 good3.0 named)
                    (λ u w4 good4.
                      let good =
                        Good-trans e w w1 w4 good1
                          (Good-trans e w1 w2 w4 good2 (Good-trans e w2 w3 w4 good3 good4)) in
                      Holds-map e _ (λ _ x h. Good-trans e w w4 x good h)
                        (compute_emit_snapshot-Good now now' w4 good4.0))))))
  ]
