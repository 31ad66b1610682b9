-- ===== src/Integrity/Join.antt =====
-- AppendSegment, MarkValid and the joining of two segments keep what holds of the node.
use inca_go.Base.{ℕ, ◌≡◌, refl, sym, subst, inl, inr, Bool, true, Option, Bool-cases, ◌==◌, update}
use inca_go.Wire.{SegmentState, SegmentStatus, Env, disjointed, valid, invalid}
use inca_go.Result.{Result, ok, err}
use inca_go.Block.{BlockValidator, validate_child}
use inca_go.World.{World, write_segment, get_block, get_segment_by_id}
use inca_go.Segment.{is_status, validated, append_judged, append_segment, rewind_join, mark_valid}
use inca_go.Integrity.{
  core, Whole, Stored, Named, Sound, Holds, Good, Good-trans, bind-Holds, Holds-map,
}
use inca_go.Integrity.Writes.{memory_write}
use inca_go.Integrity.Calls.{
  unchanged, get_block-Holds, write_segment-Holds, get_segment_by_id-Holds,
}

module _ (e : Env) where
  abbrev stated : ℕ → SegmentState → World → World
  stated s st w = record w { memory = update w.memory s st }

  -- A loaded segment gets a state with the same ends and known links, which is stored then.
  set_state :
      (s : ℕ) (st : SegmentState) (w : World)
      → Sound e (core w)
      → w.is_loaded s ≡ true
      → Whole e (core w) s st
      → Named e (core w) st.segment_next
      → Named e (core w) st.segment_prev
      → Good e w (stated s st w)
  set_state s st w sound up whole next prev =
      memory_write e (core w) s st sound ((sound.loaded s up).0, whole, next, prev)

  write_segment-Good :
      (s : ℕ) (w : World)
      → Sound e (core w)
      → w.is_loaded s ≡ true
      → Holds e (λ _. Good e w) (write_segment e s w)
  write_segment-Good s w sound up =
      Holds-map e _ (λ _ x h. h.1) (write_segment-Holds e s w sound up)

  pub set_written :
      (s : ℕ) (st : SegmentState) (w : World)
      → Sound e (core w)
      → w.is_loaded s ≡ true
      → Whole e (core w) s st
      → Named e (core w) st.segment_next
      → Named e (core w) st.segment_prev
      → Holds e (λ _. Good e w) (write_segment e s (stated s st w))
  set_written s st w sound up whole next prev =
      let good = set_state s st w sound up whole next prev in
      Holds-map e _ (λ _ x h. Good-trans e w (stated s st w) x good h)
        (write_segment-Good s (stated s st w) good.0 up)

  -- Another status.
  set_status :
      (s : ℕ) (status : SegmentStatus) (w : World)
      → Sound e (core w)
      → w.is_loaded s ≡ true
      → Holds e
          (λ _. Good e w)
          (write_segment e s (stated s (record (w.memory s) { status = status }) w))
  set_status s status w sound up =
      let (_, whole, next, prev) = sound.loaded s up in
      set_written s (record (w.memory s) { status = status }) w sound up
        (record { not_nil = whole.not_nil; own = whole.own; head = whole.head; tail = whole.tail })
        next prev

  pub mark_valid-Good :
      (s : ℕ) (w : World)
      → Sound e (core w)
      → w.is_loaded s ≡ true
      → Holds e (λ _. Good e w) (mark_valid e s w)
  unfolding mark_valid
  mark_valid-Good s w sound up = elim (Bool-cases (is_status (w.memory s).status valid)) [
    | inl already ↦ rw already (record { ends = unchanged e w w sound refl })
    | inr other ↦ rw other (set_status s valid w sound up)
  ]

  pub loaded-Named :
      (s : ℕ) (w : World)
      → Sound e (core w)
      → w.is_loaded s ≡ true
      → Named e (core w) (w.memory s).id
  loaded-Named s w sound up =
      let (stored, whole, _, _) = sound.loaded s up in
      subst (Named e (core w)) (sym whole.own) (inr stored)

  append_judged-Good :
      (v : Option BlockValidator) (s next : ℕ) (r : Result Bool) (w : World)
      → Sound e (core w)
      → w.is_loaded s ≡ true
      → w.is_loaded next ≡ true
      → Holds e (λ _. Good e w) (append_judged e v s next r w)
  unfolding append_judged
  append_judged-Good v s next (err x) w sound up up' = set_status next invalid w sound up'
  append_judged-Good v s next (ok mark) w sound up up' =
      let (_, whole, n, p) = sound.loaded next up' in
      let st1 : SegmentState = record (w.memory next) {
        status = validated mark (w.memory next).status;
      } in
      let w1 : World = stated next st1 w in
      let good1 : Good e w w1 =
        set_state next st1 w sound up'
          (record {
            not_nil = whole.not_nil;
            own = whole.own;
            head = whole.head;
            tail = whole.tail;
          })
          n p in
      let st2 : SegmentState = record (w1.memory next) {
        status = (w1.memory s).status;
        segment_prev = (w1.memory s).id;
      } in
      let (_, whole1, n1, _) = good1.0.loaded next up' in
      bind-Holds e (write_segment e next (stated next st2 w1)) _
        (set_written next st2 w1 good1.0 up'
          (record {
            not_nil = whole1.not_nil;
            own = whole1.own;
            head = whole1.head;
            tail = whole1.tail;
          })
          n1 (loaded-Named s w1 good1.0 up))
        (λ u w2 good2.
          let st3 : SegmentState = record (w2.memory s) { segment_next = (w2.memory next).id } in
          let up2 = good2.1.up s up in
          let (_, whole2, _, p2) = good2.0.loaded s up2 in
          let good = Good-trans e w w1 w2 good1 good2 in
          Holds-map e _ (λ _ x h. Good-trans e w w2 x good h)
            (set_written s st3 w2 good2.0 up2
              (record {
                not_nil = whole2.not_nil;
                own = whole2.own;
                head = whole2.head;
                tail = whole2.tail;
              })
              (loaded-Named next w2 good2.0 (good2.1.up next up')) p2))

  append_segment-Good :
      (v : Option BlockValidator) (s next : ℕ) (w : World)
      → Sound e (core w)
      → w.is_loaded s ≡ true
      → w.is_loaded next ≡ true
      → Holds e (λ _. Good e w) (append_segment e v s next w)
  unfolding append_segment
  append_segment-Good v s next w sound up up' =
      elim (Bool-cases (is_status (w.memory next).status disjointed)) [
        | inr other ↦ rw other (record { ends = sound })
        | inl alone ↦ rw alone (
            bind-Holds e (get_block e (w.memory next).tail_block w) _
              (get_block-Holds e (w.memory next).tail_block w sound)
              (λ tail w1 f1.
                let good1 = unchanged e w w1 sound f1.same in
                bind-Holds e (get_block e (w1.memory s).head_block w1) _
                  (get_block-Holds e (w1.memory s).head_block w1 good1.0)
                  (λ head w2 f2.
                    let good = Good-trans e w w1 w2 good1 (unchanged e w1 w2 good1.0 f2.same) in
                    Holds-map e _ (λ _ x h. Good-trans e w w2 x good h)
                      (append_judged-Good v s next (validate_child e head tail v) w2 good.0
                        (good.1.up s up) (good.1.up next up')))))
      ]

  pub rewind_join-Good :
      (v : Option BlockValidator) (s prev_id : ℕ) (w : World)
      → Sound e (core w)
      → w.is_loaded s ≡ true
      → Stored e (core w) prev_id
      → Holds e (λ _. Good e w) (rewind_join e v s prev_id w)
  unfolding rewind_join
  rewind_join-Good v s prev_id w sound up stored =
      bind-Holds e (get_segment_by_id e prev_id w) _
        (get_segment_by_id-Holds e prev_id w sound stored)
        (λ prev w1 (good, same, there, _, _). elim (Bool-cases (prev == s)) [
          | inl own ↦ rw own (record { ends = good.0 })
          | inr apart ↦ rw apart (
              Holds-map e _ (λ _ x h. Good-trans e w w1 x good h)
                (append_segment-Good v prev s w1 good.0
                  (subst (λ p. w1.is_loaded p ≡ true) (sym same) there) (good.1.up s up)))
        ])
