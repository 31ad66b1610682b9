-- ===== src/Integrity/Handler.antt =====
-- HandleSegmentUpdated and SegmentStore.RewindOnce keep what holds of the node.
use inca_go.Base.{
  ℕ, ◌≡◌, refl, sym, subst, ap, inl, inr, ◌∙◌, Bool, true, false, ◌&&◌, Option, none, some, arith,
  Bool-cases, Option-cases, ◌==◌,
}
use inca_go.Wire.{Ref, BlockState, Env, disjointed}
use inca_go.Block.{Block, BlockValidator}
use inca_go.World.{World, Run, done, failed, pure, get_block}
use inca_go.Segment.{is_status, rewind_once, mark_valid}
use inca_go.Segment.Store.{requeue, queue_pop, rewound, recover, rewind_popped, rewind_next}
use inca_go.Chain.{is_none, mark_as_head, same_validator_set, adopt_segment, handle_segment_updated}
use inca_go.Integrity.{
  core, Named, Named-Grows, Sound, segment_there, Holds, Good, Good-trans, bind-Holds, Holds-map,
}
use inca_go.Integrity.Calls.{Fetched-state, unchanged, get_block-Holds, get_segment_by_id-Holds}
use inca_go.Integrity.Queued.{requeue-Good, queue_pop-Good}
use inca_go.Integrity.Join.{mark_valid-Good}
use inca_go.Integrity.Rewind.{rewind_once-Good}
use inca_go.Integrity.Pass.{set_head_block-Good}
use inca_go.Integrity.Loads.{adopt_segment-Loads, after}

module _ (e : Env) where
  mark_as_head-Good :
      (s : ℕ) (head : Block) (w : World)
      → Sound e (core w)
      → w.is_loaded s ≡ true
      → Named e (core w) head.segment_id
      → Holds e (λ _. Good e w) (mark_as_head e s head w)
  unfolding mark_as_head
  mark_as_head-Good s head w sound up named =
      bind-Holds e (mark_valid e s w) _ (mark_valid-Good e s w sound up) (λ u w1 good.
        Holds-map e _ (λ _ x h. Good-trans e w w1 x good h)
          (set_head_block-Good e head w1 good.0 (Named-Grows e (core w) (core w1) _ good.1 named)))

  same_validator_set-Good :
      (init_ref : Ref) (s : ℕ) (head : Block) (w : World)
      → Sound e (core w)
      → w.is_loaded s ≡ true
      → Named e (core w) head.segment_id
      → Holds e (λ _. Good e w) (same_validator_set e init_ref s head w)
  unfolding same_validator_set
  same_validator_set-Good init_ref s head w sound up named =
      elim (Option-cases (e.follow_chain_config init_ref)) [
        | inl missing ↦ rw missing (record { ends = sound })
        | inr (init, found) ↦
            elim (Option-cases (e.follow_chain_config head.header.chain_config_ref)) [
              | inl missing ↦ rw (found, missing) (record { ends = sound })
              | inr (conf, found') ↦
                  elim (Bool-cases (e.ref_equals init.validator_set_ref conf.validator_set_ref)) [
                    | inl same ↦
                        rw (found, found', same) (mark_as_head-Good s head w sound up named)
                    | inr differs ↦
                        rw (found, found', differs) (record { ends = unchanged e w w sound refl })
                  ]
            ]
      ]

  adopt_segment-Good :
      (init_ref : Ref) (s : ℕ) (w : World)
      → Sound e (core w)
      → w.is_loaded s ≡ true
      → Holds e (λ _. Good e w) (adopt_segment e init_ref s w)
  unfolding adopt_segment
  adopt_segment-Good init_ref s w sound up =
      bind-Holds e (get_block e (w.memory s).head_block w) _
        (get_block-Holds e (w.memory s).head_block w sound)
        (λ head w1 f1.
          let good1 = unchanged e w w1 sound f1.same in
          bind-Holds e (get_block e (w.memory s).tail_block w1) _
            (get_block-Holds e (w.memory s).tail_block w1 good1.0)
            (λ tail w2 f2.
              let good = Good-trans e w w1 w2 good1 (unchanged e w1 w2 good1.0 f2.same) in
              let up2 = good.1.up s up in
              let named : Named e (core w2) head.segment_id =
                subst (λ c. Named e c head.segment_id) (sym f2.same)
                  (subst (λ (b : BlockState). Named e (core w1) b.segment_id)
                    (sym (Fetched-state e (w.memory s).head_block w w1 head f1))
                    (good1.0.placed (e.object_digest head.blk_ref))) in
              Holds-map e _ (λ _ x h. Good-trans e w w2 x good h)
                (elim (Bool-cases (e.ref_equals tail.header.chain_config_ref init_ref)) [
                  | inl first ↦ rw first (mark_as_head-Good s head w2 good.0 up2 named)
                  | inr later ↦ elim (Bool-cases ((w.memory s).tail_block_round.height == 0)) [
                    | inl genesis ↦
                        rw (later, genesis) (record { ends = unchanged e w2 w2 good.0 refl })
                    | inr grown ↦
                        rw (later, grown)
                          (same_validator_set-Good init_ref s head w2 good.0 up2 named)
                  ]
                ])))

  pub Holds-after :
      {A : Type 0} (Q : A → World → Type 0) (r : Run A)
      → ((a : A) (w : World) → Q a w → Sound e (core w))
      → Holds e Q r
      → Sound e (core (after r))
  Holds-after Q (done a w) f h = f a w h.ends
  Holds-after Q (failed x w) f h = h.ends

  pub handle_segment_updated-Sound :
      (init_ref : Ref) (s : ℕ) (w : World)
      → Sound e (core w)
      → w.is_loaded s ≡ true
      → Sound e (core (handle_segment_updated e init_ref s w))
        × ((handle_segment_updated e init_ref s w).is_loaded ≡ w.is_loaded)
  unfolding handle_segment_updated
  handle_segment_updated-Sound init_ref s w sound up =
      elim (Bool-cases (is_status (w.memory s).status disjointed && is_none w.last_block)) [
        | inr other ↦ rw other (sound, refl)
        | inl first ↦
            let kept = adopt_segment-Loads e w.is_loaded init_ref s w refl in
            let good = adopt_segment-Good init_ref s w sound up in
            rw first (
              Holds-after (λ _. Good e w) (adopt_segment e init_ref s w) (λ _ x h. h.0) good,
              kept.same,
            )
      ]

  rewound-Good :
      (s : ℕ) (w : World)
      → Sound e (core w)
      → w.is_loaded s ≡ true
      → Holds e (λ p w'. Good e w w' × (w'.is_loaded p ≡ true)) (rewound e s w)
  unfolding rewound
  rewound-Good s w sound up = elim (Bool-cases ((w.memory s).segment_prev == 0)) [
    | inl alone ↦ rw alone (record { ends = (unchanged e w w sound refl, up) })
    | inr joined ↦
        let (_, _, _, prev) = sound.loaded s up in
        rw joined (
          Holds-map e _
            (λ p x (good, same, there, _, _).
              (good, subst (λ y. x.is_loaded y ≡ true) (sym same) there))
            (get_segment_by_id-Holds e (w.memory s).segment_prev w sound
              (segment_there e prev (ground (arith, joined)))))
  ]

  rewind_popped-Sound :
      (v : Option BlockValidator) (init_ref : Ref) (s : ℕ) (w : World)
      → Sound e (core w)
      → w.is_loaded s ≡ true
      → Holds e
          (λ _ w'. Sound e (core w'))
          (rewind_popped e v (handle_segment_updated e init_ref) s w)
  unfolding rewind_popped
  rewind_popped-Sound v init_ref s w sound up =
      bind-Holds e (rewind_once e v s w) _ (rewind_once-Good e v s w sound up) (λ u w1 good1.
        bind-Holds e (rewound e s w1) _ (rewound-Good s w1 good1.0 (good1.1.up s up))
          (λ p w2 (good2, there).
            let w3 = handle_segment_updated e init_ref p w2 in
            let (sound3, kept) = handle_segment_updated-Sound init_ref p w2 good2.0 there in
            bind-Holds e (requeue p w3) _ (requeue-Good e p w3 sound3 (ap (λ l. l p) kept ∙ there))
              (λ u4 w4 (good4, _). record { ends = good4.0 })))

  -- An error is logged.
  recover-Sound :
      (r : Run Bool)
      → Holds e (λ _ w. Sound e (core w)) r
      → Holds e
          (λ _ w. Sound e (core w))
          (elim r [ done b w ↦ done b w | failed _ w ↦ done false w ])
  recover-Sound (done b w) h = record { ends = h.ends }
  recover-Sound (failed x w) h = record { ends = h.ends }

  next-Sound :
      (v : Option BlockValidator) (init_ref : Ref) (o : Option ℕ) (w : World)
      → Sound e (core w)
      → ((s : ℕ) → o ≡ some s → w.is_loaded s ≡ true)
      → Holds e
          (λ _ w'. Sound e (core w'))
          (let next : World → Run Bool = elim o [
            | none ↦ pure false
            | some s ↦ recover e (rewind_popped e v (handle_segment_updated e init_ref) s)
          ] in
            next w)
  next-Sound v init_ref none w sound queued = record { ends = sound }
  next-Sound v init_ref (some s) w sound queued =
      recover-Sound _ (rewind_popped-Sound v init_ref s w sound (queued s refl))

  pub rewind_next-Sound :
      (v : Option BlockValidator) (init_ref : Ref) (w : World)
      → Sound e (core w)
      → Holds e (λ _ w'. Sound e (core w')) (rewind_next e v (handle_segment_updated e init_ref) w)
  unfolding rewind_next
  rewind_next-Sound v init_ref w sound =
      bind-Holds e (queue_pop w) _ (queue_pop-Good e w sound)
        (λ o w1 (good, queued). next-Sound v init_ref o w1 good.0 queued)
