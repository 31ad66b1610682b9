-- ===== src/Integrity/Calls.antt =====
-- The calls that read and write the state of the node: how each of them ends.
use inca_go.Base.{
  ℕ, ◌≡◌, ◌≢◌, refl, sym, subst, ap, ◌⊎◌, inl, inr, ◌∙◌, true, some, arith, Bool-cases,
  Option-cases, update,
}
use inca_go.Wire.{Ref, nil_ref, Env}
use inca_go.Block.{Block}
use inca_go.World.{World, access, get_block, write_block, write_segment, get_segment_by_id}
use inca_go.Integrity.{
  Core, core, Stored, Named, Linked, Sound, Grows, Grows-refl, Grows-trans, Whole-Stays,
  Named-Grows, Holds, Good, bind-Holds,
}
use inca_go.Integrity.Writes.{block_write, segment_write, load}

module _ (e : Env) where
  -- What get_block gives.
  pub record Fetched (ref : Ref) (w : World) (b : Block) (w' : World) : Type 0 where
    pub same : core w' ≡ core w
    pub of_ref : b.blk_ref ≡ ref
    pub state : b.state ≡ w.blocks (e.object_digest ref)
    pub found : e.follow_block ref ≡ some b.inner
    pub header_found : e.follow_header b.inner.block_header_ref ≡ some b.header

  -- The state of the block is the one that the database has of it.
  pub Fetched-state :
      (ref : Ref) (w w' : World) (b : Block)
      → Fetched ref w b w'
      → b.state ≡ w'.blocks (e.object_digest b.blk_ref)
  Fetched-state ref w w' b f =
      f.state
      ∙ (ap (λ (c : Core). c.blocks (e.object_digest ref)) (sym f.same)
          ∙ ap (λ r. w'.blocks (e.object_digest r)) (sym f.of_ref))

  pub access-Holds :
      (w : World) → Sound e (core w) → Holds e (λ _ w'. core w' ≡ core w) (access e w)
  unfolding access
  access-Holds w sound = elim (Bool-cases (e.db_fails w.accesses)) [
    | inl down ↦ rw down (record { ends = sound })
    | inr up ↦ rw up (record { ends = refl })
  ]

  pub get_block-Holds :
      (ref : Ref) (w : World) → Sound e (core w) → Holds e (Fetched ref w) (get_block e ref w)
  unfolding get_block
  get_block-Holds ref w sound = elim (Option-cases (e.follow_block ref)) [
    | inl missing ↦ rw missing (record { ends = sound })
    | inr (inner, found) ↦ elim (Option-cases (e.follow_header inner.block_header_ref)) [
      | inl missing ↦ rw (found, missing) (record { ends = sound })
      | inr (header, header_found) ↦
          rw (found, header_found)
            (bind-Holds e (access e w) _ (access-Holds w sound) (λ u w' same. record {
              ends = record {
                same = same;
                of_ref = refl;
                state = ap (λ c. c.blocks (e.object_digest ref)) same;
                found = found;
                header_found = header_found;
              };
            }))
    ]
  ]

  -- The core becomes `c`, which is as good as the one before.
  abbrev pub Becomes : Core → World → World → Type 0
  Becomes c w w' = (core w' ≡ c) × Good e w w'

  pub becomes :
      (c : Core) (w w' : World) → core w' ≡ c → Sound e c × Grows e (core w) c → Becomes c w w'
  becomes c w w' same (sound, grows) =
      (same, (subst (Sound e) (sym same) sound, subst (Grows e (core w)) (sym same) grows))

  pub unchanged : (w w' : World) → Sound e (core w) → core w' ≡ core w → Good e w w'
  unchanged w w' sound same = (becomes (core w) w w' same (sound, Grows-refl e (core w))).1

  pub write_block-Holds :
      (b : Block) (w : World)
      → Sound e (core w)
      → let d = e.object_digest b.blk_ref in
        ((w.blocks d).segment_id ≡ 0) ⊎ (b.state.segment_id ≡ (w.blocks d).segment_id)
        → (let c' : Core = record (core w) {
          blocks = update w.blocks (e.object_digest b.blk_ref) b.state;
        } in
            Grows e (core w) c' → Named e c' b.state.segment_id)
        → (b.state.next_block ≢ nil_ref → Linked e (e.object_digest b.blk_ref) b.state.next_block)
        → Holds e
            (λ _.
              Becomes
                (record (core w) { blocks = update w.blocks (e.object_digest b.blk_ref) b.state })
                w)
            (write_block e b w)
  unfolding write_block
  write_block-Holds b w sound moves named link =
      let d = e.object_digest b.blk_ref in
      bind-Holds e (access e w) _ (access-Holds w sound) (λ u w' same. record {
        ends =
            becomes _ w (record w' { blocks = update w'.blocks d b.state })
              (ap (λ (c : Core). record c { blocks = update c.blocks d b.state }) same)
              (block_write e (core w) d b.state sound moves named link);
      })

  pub write_segment-Holds :
      (s : ℕ) (w : World)
      → Sound e (core w)
      → w.is_loaded s ≡ true
      → Holds e
          (λ _. Becomes (record (core w) { segments = update w.segments s (some (w.memory s)) }) w)
          (write_segment e s w)
  unfolding write_segment
  write_segment-Holds s w sound up =
      let (stored, whole, next, prev) = sound.loaded s up in
      bind-Holds e (access e w) _ (access-Holds w sound) (λ u w' same. record {
        ends =
            becomes _ w
              (record w' { segments = update w'.segments (w'.memory s).id (some (w'.memory s)) })
              (ap
                  (λ (c : Core). record c {
                    segments = update c.segments (c.memory s).id (some (c.memory s));
                  })
                  same
                ∙ ap (λ id. record (core w) { segments = update w.segments id (some (w.memory s)) })
                    whole.own)
              (segment_write e (core w) s (w.memory s) sound (inl whole) next prev);
      })

  -- A segment that is named is there, and is loaded then; nothing of the blocks changes.
  pub get_segment_by_id-Holds :
      (id : ℕ) (w : World)
      → Sound e (core w)
      → Stored e (core w) id
      → Holds e
          (λ s w'.
            Good e w w'
            × (s ≡ id)
            × (w'.is_loaded id ≡ true)
            × (w'.blocks ≡ w.blocks)
            × (w.is_loaded id ≡ true → w' ≡ w))
          (get_segment_by_id e id w)
  unfolding get_segment_by_id
  get_segment_by_id-Holds id w sound (st, found, whole) = elim (Bool-cases (w.is_loaded id)) [
    | inl there ↦
        rw there (record { ends = (unchanged w w sound refl, refl, there, refl, λ h. refl) })
    | inr new ↦ rw new (
        bind-Holds e (access e w) _ (access-Holds w sound) (λ u w1 same.
          let there : w1.segments id ≡ some st = ap (λ (c : Core). c.segments id) same ∙ found in
          let (_, good) = becomes (core w) w w1 same (sound, Grows-refl e (core w)) in
          let (sound2, grows2) =
            load e (core w1) id st good.0 there
              (Whole-Stays e (core w) (core w1) id st good.1.stays whole) in
          rw there (record {
            ends = (
              (sound2, Grows-trans e (core w) (core w1) _ good.1 grows2),
              refl,
              ground arith,
              ap (λ (c : Core). c.blocks) same,
              λ h. absurd (ground (arith, new, h)),
            );
          })))
  ]

  -- The write of a block into a segment that is known before.
  pub write_placed-Holds :
      (b : Block) (w : World)
      → Sound e (core w)
      → let d = e.object_digest b.blk_ref in
        ((w.blocks d).segment_id ≡ 0) ⊎ (b.state.segment_id ≡ (w.blocks d).segment_id)
        → Named e (core w) b.state.segment_id
        → (b.state.next_block ≢ nil_ref → Linked e (e.object_digest b.blk_ref) b.state.next_block)
        → Holds e
            (λ _.
              Becomes
                (record (core w) { blocks = update w.blocks (e.object_digest b.blk_ref) b.state })
                w)
            (write_block e b w)
  write_placed-Holds b w sound moves named link =
      write_block-Holds b w sound moves
        (λ g.
          Named-Grows e (core w)
            (record (core w) { blocks = update w.blocks (e.object_digest b.blk_ref) b.state }) _ g
            named)
        link
