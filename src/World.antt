-- ===== src/World.antt =====
-- The state that the components share: the local database, the segments in memory, the queue of the
-- segments to rewind, and the chain; and the calls that read and write it. A call that fails keeps what it
-- has changed so far.
use inca_go.Base.{
  arith, ◌≡◌, refl, ◌⊎◌, inl, inr, ℕ, suc, Bool, true, false, Option, none, some, List, [], update,
}
use inca_go.Wire.{Ref, nil_ref, Digest, BlockState, BlockHeader, SegmentState, ChainState, Env}
use inca_go.Result.{Error, Result, ok, err, or_fail, unresolved, db_error}
use inca_go.Block.{Block}
use inca_go.Snapshot.{Snapshot}

pub record World : Type 0 where
  -- The block database: an absent key reads as the empty state.
  pub blocks : Digest → BlockState
  -- The segment database.
  pub segments : ℕ → Option SegmentState
  -- SegmentStore.segmentMap: which segments are in memory, and their objects. The map holds one
  -- object for each id, so an id stands for the pointer.
  pub is_loaded : ℕ → Bool
  pub memory : ℕ → SegmentState
  -- SegmentQueue.pq, and the ids waiting in the channel of NewSegmentStore.
  pub queue : List ℕ
  pub notified : List ℕ
  -- The fields of Chain: its state, in memory and in the database, and its head block.
  pub chain_state : ChainState
  pub stored_chain_state : ChainState
  pub last_block : Option Block
  pub last_block_header : Option BlockHeader
  pub last_block_ref : Ref
  pub last_head_digest : Digest
  -- The last snapshot, the context that is not canceled, the subscribers' channels by id, and
  -- whether a recheck of the state is pending.
  pub last_snapshot : Option Snapshot
  pub snapshot_ctx : ℕ
  pub state_subs : List (ℕ × List Snapshot)
  pub recheck : Bool
  -- The database accesses made so far.
  pub accesses : ℕ

-- A process that has just started has the database of the last one, and its own memory.
unfoldable pub forget : World → World
forget w = record w {
  is_loaded = λ s. false;
  queue = [];
  notified = [];
  chain_state = record { state_segment = 0; last_height = 0; last_round = 0 };
  last_block = none;
  last_block_header = none;
  last_block_ref = nil_ref;
  last_head_digest = 0;
  last_snapshot = none;
  state_subs = [];
  recheck = false;
}

pub data Run {ℓ} (A : Type ℓ) : Type ℓ where
  done : A → World → Run A
  failed : Error → World → Run A

abbrev pub M {ℓ} : Type ℓ → Type ℓ
M A = World → Run A

infixl 5 ◌>>=◌ ◌>>◌
abbrev pub ◌>>=◌ {ℓ κ} : {A : Type ℓ} {B : Type κ} → M A → (A → M B) → M B
◌>>=◌ m f w = elim (m w) [ done a w' ↦ f a w' | failed e w' ↦ failed e w' ]

abbrev pub ◌>>◌ {ℓ} : {B : Type ℓ} → M (Unit {0}) → M B → M B
◌>>◌ m k w = elim (m w) [ done a w' ↦ k w' | failed e w' ↦ failed e w' ]

abbrev pub pure {ℓ} : {A : Type ℓ} → A → M A
pure a w = done a w

abbrev pub fail {ℓ} : {A : Type ℓ} → Error → M A
fail e w = failed e w

abbrev pub lift {ℓ} : {A : Type ℓ} → Result A → M A
lift (ok a) w = done a w
lift (err e) w = failed e w

abbrev pub check : Bool → Error → M (Unit {0})
check true e w = done tt w
check false e w = failed e w

-- `if test { m } else { k }`
abbrev pub branch {ℓ} : {A : Type ℓ} → Bool → M A → M A → M A
branch true m k w = m w
branch false m k w = k w

abbrev pub modify : (World → World) → M (Unit {0})
modify f w = done tt (f w)

module _ (e : Env) where
  -- One access of the database.
  unfoldable pub access : M (Unit {0})
  access w =
      branch (e.db_fails w.accesses) (fail db_error) (pure tt)
        (record w { accesses = suc w.accesses })

  -- block.GetBlock
  unfoldable pub get_block : Ref → M Block
  unfolding access
  get_block ref = do
    blk ← lift (or_fail (e.follow_block ref) unresolved)
    header ← lift (or_fail (e.follow_header blk.block_header_ref) unresolved)
    access
    λ w.
        done
          (record {
            state = w.blocks (e.object_digest ref);
            inner = blk;
            header = header;
            blk_ref = ref;
          })
          w

  -- Block.WriteState
  unfoldable pub write_block : Block → M (Unit {0})
  unfolding access
  write_block b = do
    access
    modify (λ w. record w { blocks = update w.blocks (e.object_digest b.blk_ref) b.state })

  -- Segment.writeState
  unfoldable pub write_segment : ℕ → M (Unit {0})
  unfolding access
  write_segment s = do
    access
    modify (λ w. record w { segments = update w.segments (w.memory s).id (some (w.memory s)) })

  -- The state of an object that has only its id set.
  abbrev pub fresh_segment : ℕ → SegmentState
  fresh_segment id = record {
    id = id;
    status = e.unset_status;
    head_block = nil_ref;
    tail_block = nil_ref;
    tail_block_round = record { height = 0; round = 0 };
    segment_next = 0;
    segment_prev = 0;
  }

  -- SegmentStore.GetSegmentById: the object in memory, or else one that is read from the database.
  unfoldable pub get_segment_by_id : ℕ → M ℕ
  unfolding access
  get_segment_by_id id w =
      branch (w.is_loaded id) (pure id)
        (do
          access
          modify (λ v. record v {
            is_loaded = update v.is_loaded id true;
            memory =
                update v.memory id
                  (elim (v.segments id) [ none ↦ fresh_segment id | some st ↦ st ]);
          })
          pure id)
        w

-- The state of a segment in memory, and a change of it.
abbrev pub segment : ℕ → M SegmentState
segment s w = done (w.memory s) w

abbrev pub set_segment : ℕ → SegmentState → M (Unit {0})
set_segment s st w = done tt (record w { memory = update w.memory s st })

-- How a run may end.
pub Run-cases {ℓ} :
    {A : Type ℓ} (r : Run A)
    → ((a : A) × (w : World) × (r ≡ done a w)) ⊎ ((x : Error) × (w : World) × (r ≡ failed x w))
Run-cases (done a w) = inl (a, w, refl)
Run-cases (failed x w) = inr (x, w, refl)

-- Reading a block counts one access and changes nothing else.
pub get_block-world :
    (e : Env) (ref : Ref) (w w' : World) (b : Block)
    → get_block e ref w ≡ done b w'
    → w' ≡ record w { accesses = suc w.accesses }
unfolding get_block
get_block-world e ref w w' b h = ground arith
