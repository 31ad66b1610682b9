-- ===== src/Integrity.antt =====
-- What holds of the segments and blocks of a node through all of its operations.
pub mod Writes
pub mod Calls
pub mod Queued
pub mod Append
pub mod Join
pub mod Rewind
pub mod Commit
pub mod Pass
pub mod Loads
pub mod Handler
pub mod Start
pub mod Life
pub mod Network
use inca_go.Base.{ℕ, ◌≡◌, ◌≢◌, refl, sym, ◌⊎◌, inl, inr, ◌∙◌, Bool, true, Option, some, List, Mem}
use inca_go.Wire.{Ref, nil_ref, Digest, BlockState, InnerBlock, BlockHeader, SegmentState, Env}
use inca_go.World.{World, Run, done, failed}

-- The part of a world that is concerned: the blocks and segments, and the ids that name segments.
pub record Core : Type 0 where
  pub blocks : Digest → BlockState
  pub segments : ℕ → Option SegmentState
  pub is_loaded : ℕ → Bool
  pub memory : ℕ → SegmentState
  pub queue : List ℕ
  pub state_segment : ℕ
  pub stored_segment : ℕ

abbrev pub core : World → Core
core w = record {
  blocks = w.blocks;
  segments = w.segments;
  is_loaded = w.is_loaded;
  memory = w.memory;
  queue = w.queue;
  state_segment = w.chain_state.state_segment;
  stored_segment = w.stored_chain_state.state_segment;
}

module _ (e : Env) where
  -- A state of the segment `s`: its first and its last block are in it.
  pub record Whole (c : Core) (s : ℕ) (st : SegmentState) : Type 0 where
    pub not_nil : s ≢ 0
    pub own : st.id ≡ s
    pub head : (c.blocks (e.object_digest st.head_block)).segment_id ≡ s
    pub tail : (c.blocks (e.object_digest st.tail_block)).segment_id ≡ s

  -- The database has the segment.
  abbrev pub Stored : Core → ℕ → Type 0
  Stored c s = (st : SegmentState) × (c.segments s ≡ some st) × Whole c s st

  -- An id is empty or that of a segment in the database.
  abbrev pub Named : Core → ℕ → Type 0
  Named c s = (s ≡ 0) ⊎ Stored c s

  -- The block of the reference names the digest as that of the block before it.
  pub record Linked (d : Digest) (r : Ref) : Type 0 where
    pub inner : InnerBlock
    pub header : BlockHeader
    pub found : e.follow_block r ≡ some inner
    pub header_found : e.follow_header inner.block_header_ref ≡ some header
    pub last : e.object_digest header.last_block_ref ≡ d

  -- What is said of a segment in memory.
  abbrev pub Loaded : Core → ℕ → SegmentState → Type 0
  Loaded c s st = Stored c s × Whole c s st × Named c st.segment_next × Named c st.segment_prev

  -- No id that the node keeps is without its segment; the blocks at the ends of a segment are in it;
  -- and the link to a next block is the inverse of that block's own reference to the one before it.
  pub record Sound (c : Core) : Type 0 where
    pub placed : (d : Digest) → Named c (c.blocks d).segment_id
    pub linked : (d : Digest) → (c.blocks d).next_block ≢ nil_ref → Linked d (c.blocks d).next_block
    pub stored :
        (s : ℕ) (st : SegmentState)
        → c.segments s ≡ some st
        → Named c st.segment_next × Named c st.segment_prev
    pub loaded : (s : ℕ) → c.is_loaded s ≡ true → Loaded c s (c.memory s)
    pub queued : (s : ℕ) → Mem s c.queue → c.is_loaded s ≡ true
    pub state : Named c c.state_segment
    pub stored_state : Named c c.stored_segment

  -- What no operation takes back: where a block is, which segments are stored and which are loaded.
  pub record Grows (c c' : Core) : Type 0 where
    pub stays :
        (d : Digest)
        → (c.blocks d).segment_id ≢ 0
        → (c'.blocks d).segment_id ≡ (c.blocks d).segment_id
    pub kept : (s : ℕ) → Stored c s → Stored c' s
    pub up : (s : ℕ) → c.is_loaded s ≡ true → c'.is_loaded s ≡ true

  pub Grows-refl : (c : Core) → Grows c c
  Grows-refl c = record { stays = λ d h. refl; kept = λ s h. h; up = λ s h. h }

  pub Grows-trans : (a b c : Core) → Grows a b → Grows b c → Grows a c
  Grows-trans a b c g h = record {
    stays = λ d p. h.stays d (λ z. p (sym (g.stays d p) ∙ z)) ∙ g.stays d p;
    kept = λ s p. h.kept s (g.kept s p);
    up = λ s p. h.up s (g.up s p);
  }

  abbrev pub Stays : Core → Core → Type 0
  Stays c c' =
      (d : Digest)
      → (c.blocks d).segment_id ≢ 0
      → (c'.blocks d).segment_id ≡ (c.blocks d).segment_id

  pub Whole-Stays :
      (c c' : Core) (s : ℕ) (st : SegmentState) → Stays c c' → Whole c s st → Whole c' s st
  Whole-Stays c c' s st stays w = record {
    not_nil = w.not_nil;
    own = w.own;
    head = stays _ (λ z. w.not_nil (sym w.head ∙ z)) ∙ w.head;
    tail = stays _ (λ z. w.not_nil (sym w.tail ∙ z)) ∙ w.tail;
  }

  pub Named-Grows : (c c' : Core) (s : ℕ) → Grows c c' → Named c s → Named c' s
  Named-Grows c c' s g (inl z) = inl z
  Named-Grows c c' s g (inr h) = inr (g.kept s h)

  pub Loaded-Grows :
      (c c' : Core) (s : ℕ) (st : SegmentState) → Grows c c' → Loaded c s st → Loaded c' s st
  Loaded-Grows c c' s st g (a, b, n, p) =
      (g.kept s a, Whole-Stays c c' s st g.stays b, Named-Grows c c' _ g n, Named-Grows c c' _ g p)

  pub segment_there : {c : Core} {id : ℕ} → Named c id → id ≢ 0 → Stored c id
  segment_there (inl nil) differs = absurd (differs nil)
  segment_there (inr stored) differs = stored

  abbrev Ends {ℓ} : {A : Type ℓ} → (A → World → Type 0) → Run A → Type 0
  Ends Q (done a w) = Q a w
  Ends Q (failed x w) = Sound (core w)

  -- How a run ends: soundly, and with what is said of it where it succeeds.
  pub record Holds {ℓ} {A : Type ℓ} (Q : A → World → Type 0) (r : Run A) : Type 0 where
    pub ends : Ends Q r

  abbrev pub Good : World → World → Type 0
  Good w w' = Sound (core w') × Grows (core w) (core w')

  pub bind-Holds {ℓ κ} :
      {A : Type ℓ} {B : Type κ} {Q : A → World → Type 0} {R : B → World → Type 0} (r : Run A)
      (f : A → World → Run B)
      → Holds Q r
      → ((a : A) (w : World) → Q a w → Holds R (f a w))
      → Holds R (elim r [ done a w ↦ f a w | failed x w ↦ failed x w ])
  bind-Holds (done a w) f h k = k a w h.ends
  bind-Holds (failed x w) f h k = record { ends = h.ends }

  pub Holds-map {ℓ} :
      {A : Type ℓ} {Q R : A → World → Type 0} (r : Run A)
      → ((a : A) (w : World) → Q a w → R a w)
      → Holds Q r
      → Holds R r
  Holds-map (done a w) f h = record { ends = f a w h.ends }
  Holds-map (failed x w) f h = record { ends = h.ends }

  pub Good-trans : (a b c : World) → Good a b → Good b c → Good a c
  Good-trans a b c (_, g) (s, h) = (s, Grows-trans (core a) (core b) (core c) g h)
