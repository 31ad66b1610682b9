-- ===== src/Integrity/Writes.antt =====
-- The writes of a block, of a segment and of the segments in memory: what each of them keeps.
use inca_go.Base.{
  ℕ, ◌≡◌, ◌≢◌, refl, sym, subst, ap, ◌⊎◌, inl, inr, ◌∙◌, true, false, none, some, arith, update,
  update_cases,
}
use inca_go.Wire.{nil_ref, Digest, BlockState, SegmentState, Env}
use inca_go.Integrity.{
  Core, Whole, Named, Linked, Sound, Grows, Whole-Stays, Named-Grows, Loaded, Loaded-Grows,
}

module _ (e : Env) where
  -- The state of the block at `d` becomes `st`.
  pub block_write :
      (c : Core) (d : Digest) (st : BlockState)
      → Sound e c
      → ((c.blocks d).segment_id ≡ 0) ⊎ (st.segment_id ≡ (c.blocks d).segment_id)
      → (Grows e c (record c { blocks = update c.blocks d st })
          → Named e (record c { blocks = update c.blocks d st }) st.segment_id)
      → (st.next_block ≢ nil_ref → Linked e d st.next_block)
      → let c' : Core = record c { blocks = update c.blocks d st } in Sound e c' × Grows e c c'
  block_write c d st sound moves named link =
      let c' : Core = record c { blocks = update c.blocks d st } in
      let stays : (x : Digest)
          → (c.blocks x).segment_id ≢ 0
          → (c'.blocks x).segment_id ≡ (c.blocks x).segment_id =
        λ x h. elim (update_cases c.blocks d st x) [
          | inl (same, new) ↦ elim moves [
            | inl free ↦ absurd (h (ap (λ y. (c.blocks y).segment_id) same ∙ free))
            | inr kept ↦
                ap (λ (b : BlockState). b.segment_id) new
                ∙ (kept ∙ ap (λ y. (c.blocks y).segment_id) (sym same))
          ]
          | inr (_, old) ↦ ap (λ (b : BlockState). b.segment_id) old
        ] in
      let grows : Grows e c c' = record {
        stays = stays;
        kept = λ s h. let (x, found, whole) = h in (x, found, Whole-Stays e c c' s x stays whole);
        up = λ s h. h;
      } in
      (
        record {
          placed = λ x. elim (update_cases c.blocks d st x) [
            | inl (_, new) ↦
                subst (λ (b : BlockState). Named e c' b.segment_id) (sym new) (named grows)
            | inr (_, old) ↦
                subst (λ (b : BlockState). Named e c' b.segment_id) (sym old)
                  (Named-Grows e c c' _ grows (sound.placed x))
          ];
          linked = λ x. elim (update_cases c.blocks d st x) [
            | inl (at, new) ↦
                subst (λ (b : BlockState). b.next_block ≢ nil_ref → Linked e x b.next_block)
                  (sym new)
                  (subst (λ y. st.next_block ≢ nil_ref → Linked e y st.next_block) (sym at) link)
            | inr (_, old) ↦
                subst (λ (b : BlockState). b.next_block ≢ nil_ref → Linked e x b.next_block)
                  (sym old) (sound.linked x)
          ];
          stored = λ s x h.
              let (n, p) = sound.stored s x h in
              (Named-Grows e c c' _ grows n, Named-Grows e c c' _ grows p);
          loaded = λ s h. Loaded-Grows e c c' s _ grows (sound.loaded s h);
          queued = sound.queued;
          state = Named-Grows e c c' _ grows sound.state;
          stored_state = Named-Grows e c c' _ grows sound.stored_state;
        },
        grows,
      )

  -- The segment `s` in memory gets the state `st`.
  pub memory_write :
      (c : Core) (s : ℕ) (st : SegmentState)
      → Sound e c
      → Loaded e c s st
      → let c' : Core = record c { memory = update c.memory s st } in Sound e c' × Grows e c c'
  memory_write c s st sound new =
      let c' : Core = record c { memory = update c.memory s st } in
      let grows : Grows e c c' = record {
        stays = λ d h. refl;
        kept = λ x h.
            let (y, found, whole) = h in (y, found, Whole-Stays e c c' x y (λ d h. refl) whole);
        up = λ x h. h;
      } in
      (
        record {
          placed = λ x. Named-Grows e c c' _ grows (sound.placed x);
          linked = sound.linked;
          stored = λ x y h.
              let (n, p) = sound.stored x y h in
              (Named-Grows e c c' _ grows n, Named-Grows e c c' _ grows p);
          loaded = λ x h. elim (update_cases c.memory s st x) [
            | inl (at, now) ↦
                subst (Loaded e c' x) (sym now)
                  (subst (λ y. Loaded e c' y st) (sym at) (Loaded-Grows e c c' s st grows new))
            | inr (_, old) ↦
                subst (Loaded e c' x) (sym old) (Loaded-Grows e c c' x _ grows (sound.loaded x h))
          ];
          queued = sound.queued;
          state = Named-Grows e c c' _ grows sound.state;
          stored_state = Named-Grows e c c' _ grows sound.stored_state;
        },
        grows,
      )

  -- The database gets the state `st` of the segment `s`, whose links are known.
  pub segment_write :
      (c : Core) (s : ℕ) (st : SegmentState)
      → Sound e c
      → (Whole e c s st) ⊎ ((c.segments s ≡ none) × (c.is_loaded s ≡ false))
      → Named e c st.segment_next
      → Named e c st.segment_prev
      → let c' : Core = record c { segments = update c.segments s (some st) } in
        Sound e c' × Grows e c c'
  segment_write c s st sound whole next prev =
      let c' : Core = record c { segments = update c.segments s (some st) } in
      let grows : Grows e c c' = record {
        stays = λ d h. refl;
        kept = λ x h.
            let (y, found, old_whole) = h in
            elim (update_cases c.segments s (some st) x) [
              | inl (at, now) ↦ elim whole [
                | inl good ↦ (
                  st,
                  now,
                  subst (λ z. Whole e c' z st) (sym at)
                      (Whole-Stays e c c' s st (λ d h. refl) good),
                )
                | inr (missing, _) ↦ absurd (ground (arith, at, missing, found))
              ]
              | inr (_, old) ↦ (y, old ∙ found, Whole-Stays e c c' x y (λ d h. refl) old_whole)
            ];
        up = λ x h. h;
      } in
      (
        record {
          placed = λ x. Named-Grows e c c' _ grows (sound.placed x);
          linked = sound.linked;
          stored = λ x y h. elim (update_cases c.segments s (some st) x) [
            | inl (_, now) ↦
                let same : st ≡ y = ground (arith, now, h) in
                (
                  subst (λ (z : SegmentState). Named e c' z.segment_next) same
                      (Named-Grows e c c' _ grows next),
                  subst (λ (z : SegmentState). Named e c' z.segment_prev) same
                      (Named-Grows e c c' _ grows prev),
                )
            | inr (_, old) ↦
                let (n, p) = sound.stored x y (sym old ∙ h) in
                (Named-Grows e c c' _ grows n, Named-Grows e c c' _ grows p)
          ];
          loaded = λ x h. Loaded-Grows e c c' x _ grows (sound.loaded x h);
          queued = sound.queued;
          state = Named-Grows e c c' _ grows sound.state;
          stored_state = Named-Grows e c c' _ grows sound.stored_state;
        },
        grows,
      )

  -- A stored segment comes into memory.
  pub load :
      (c : Core) (s : ℕ) (st : SegmentState)
      → Sound e c
      → c.segments s ≡ some st
      → Whole e c s st
      → let c' : Core = record c {
        is_loaded = update c.is_loaded s true;
        memory = update c.memory s st;
      } in
        Sound e c' × Grows e c c'
  load c s st sound found whole =
      let c' : Core = record c {
        is_loaded = update c.is_loaded s true;
        memory = update c.memory s st;
      } in
      let up : (x : ℕ) → c.is_loaded x ≡ true → c'.is_loaded x ≡ true = λ x h.
        elim (update_cases c.is_loaded s true x) [ inl (_, now) ↦ now | inr (_, old) ↦ old ∙ h ] in
      let grows : Grows e c c' = record {
        stays = λ d h. refl;
        kept = λ x h.
            let (y, there, good) = h in (y, there, Whole-Stays e c c' x y (λ d h. refl) good);
        up = up;
      } in
      let (next, prev) = sound.stored s st found in
      (
        record {
          placed = λ x. Named-Grows e c c' _ grows (sound.placed x);
          linked = sound.linked;
          stored = λ x y h.
              let (n, p) = sound.stored x y h in
              (Named-Grows e c c' _ grows n, Named-Grows e c c' _ grows p);
          loaded = λ x h. elim (update_cases c.memory s st x) [
            | inl (at, now) ↦ subst (Loaded e c' x) (sym now) (
                subst (λ y. Loaded e c' y st) (sym at)
                  (Loaded-Grows e c c' s st grows ((st, found, whole), whole, next, prev)))
            | inr (differs, old) ↦ subst (Loaded e c' x) (sym old) (
                Loaded-Grows e c c' x _ grows (
                  sound.loaded x (elim (update_cases c.is_loaded s true x) [
                    | inl (at, _) ↦ absurd (differs at)
                    | inr (_, same) ↦ sym same ∙ h
                  ])))
          ];
          queued = λ x h. up x (sound.queued x h);
          state = Named-Grows e c c' _ grows sound.state;
          stored_state = Named-Grows e c c' _ grows sound.stored_state;
        },
        grows,
      )
