-- ===== src/Chain.antt =====
-- chain/chain.go and chain/chain_state.go: the head of the chain, the rounds after it, and the
-- blocks and segments that come in.
pub mod Round
pub mod Windows
pub mod Emit
pub mod Commit
pub mod Follow
pub mod Timer
pub mod New
use inca_go.Base.{
  ℕ, suc, ◌+◌, ◌-◌, ◌*◌, ◌/◌, ◌%◌, Bool, true, false, not, ◌&&◌, ◌||◌, Option, none, some, List, [],
  ◌∷◌, map, ltb, leb, ◌==◌, if◌then◌else◌, update,
}
use inca_go.Wire.{
  Ref, Digest, RoundInfo, BlockHeader, Validator, ValidatorSet, ChainConfig, disjointed, ChainState,
  Env,
}
use inca_go.Result.{or_fail, unresolved, no_state_segment, future_block, short_round}
use inca_go.Go.Channel.{enqueue}
use inca_go.Block.{Block, BlockValidator, next_height}
use inca_go.Snapshot.{Snapshot}
use inca_go.World.{
  World, M, done, failed, ◌>>=◌, ◌>>◌, pure, lift, check, branch, modify, access, get_block,
  get_segment_by_id, segment,
}
use inca_go.Segment.{append_block, mark_valid, is_status}
use inca_go.Segment.Store.{new_segment}
use Round.{
  second, round_duration, current_round, round_start_time, round_end_time, next_round_start_time,
}

-- The subscribers' channels hold one snapshot each.
abbrev pub sub_cap : ℕ
sub_cap = 1

unfoldable pub trigger_state_recheck : M (Unit {0})
trigger_state_recheck w = done tt (record w { recheck = true })

-- SubscribeState: the channel starts with the last snapshot, if there is one.
unfoldable pub subscribe_state : ℕ → World → World
subscribe_state sub_id w =
    let ch : List Snapshot = elim w.last_snapshot [ none ↦ [] | some snap ↦ snap ∷ [] ] in
    record w { state_subs = (sub_id, ch) ∷ w.state_subs }

-- emitNextChainState, with nextStateSnapshotCtx: the old context is canceled.
unfoldable pub emit_next_chain_state : Snapshot → World → World
emit_next_chain_state snap w =
    let ctx = suc w.snapshot_ctx in
    let next = record snap { ctx = ctx } in
    record w {
      snapshot_ctx = ctx;
      last_snapshot = some next;
      state_subs = map (λ sub. (sub.0, enqueue sub_cap (sub.1) next)) w.state_subs;
    }

abbrev pub pub_key_of : Option Validator → ℕ
pub_key_of none = 0
pub_key_of (some v) = v.pub_key

-- The switch of computeEmitSnapshot: whether the snapshot differs from the last one.
unfoldable pub snapshot_changed : Option Snapshot → Snapshot → Bool
snapshot_changed none snap = true
snapshot_changed (some old) snap =
    not (old.block_round_info.round == snap.block_round_info.round)
    || not (old.block_round_info.height == snap.block_round_info.height)
    || not (old.round_end_time == snap.round_end_time)
    || not (old.round_start_time == snap.round_start_time)
    || (if snap.round_started then not old.round_started else old.round_started)
    || (elim old.current_proposer [
      | none ↦ true
      | some p ↦ not (p.pub_key == pub_key_of snap.current_proposer)
    ])

abbrev pub is_none : Option Block → Bool
is_none none = true
is_none (some b) = false

-- A new head starts the rounds of the next height.
unfoldable pub reset_round : BlockHeader → ChainState → ChainState
reset_round header cs =
    let height = next_height header.round_info.height in
    if ltb cs.last_height height then record cs { last_height = height; last_round = 0 } else cs

module _ (e : Env) where
  -- writeState triggers a recheck of the state, also where it fails.
  unfoldable pub write_state : M (Unit {0})
  unfolding access
  write_state w =
      (do access e; modify (λ v. record v { stored_chain_state = v.chain_state }))
        (record w { recheck = true })

  unfoldable pub set_head_block : Block → M (Unit {0})
  unfolding write_state
  set_head_block head = do
    modify (λ w. record w {
      last_block = some head;
      last_block_header = some (head.header);
      last_block_ref = head.blk_ref;
      last_head_digest = e.object_digest head.blk_ref;
      chain_state = record {
        state_segment = head.segment_id;
        last_height = next_height head.header.round_info.height;
        last_round = 0;
      };
    })
    write_state

  -- The snapshot of the round that the chain is in. The clock is read again for `round_started`.
  unfoldable pub take_snapshot : ℕ → BlockHeader → ChainConfig → ValidatorSet → World → Snapshot
  take_snapshot now' header conf vals w =
      let cs = w.chain_state in
      let sorted = e.sort_validators vals in
      let (proposer, power) =
        e.select_proposer sorted w.last_head_digest cs.last_height cs.last_round in
      let start = round_start_time conf header.block_ts cs.last_round in
      record {
        ctx = 0;
        round_started = ltb start now';
        block_round_info = record { height = cs.last_height; round = cs.last_round };
        last_block_header = header;
        last_block_ref = w.last_block_ref;
        current_proposer = proposer;
        round_end_time = round_end_time conf header.block_ts cs.last_round;
        round_start_time = start;
        next_round_start_time = next_round_start_time conf header.block_ts cs.last_round;
        total_voting_power = power;
        chain_config = conf;
        validator_set = sorted;
      }

  unfoldable pub emit_if_changed : Snapshot → World → World
  emit_if_changed snap w =
      if snapshot_changed w.last_snapshot snap then emit_next_chain_state snap w else w

  -- computeEmitSnapshot with a head block, whose header this is.
  unfoldable pub compute_round : ℕ → ℕ → BlockHeader → M (Unit {0})
  compute_round now now' header = do
    modify (λ w. record w { chain_state = reset_round header w.chain_state })
    check (not (ltb now header.block_ts)) future_block
    conf ← lift (or_fail (e.follow_chain_config header.next_chain_config_ref) unresolved)
    check (leb second (round_duration conf)) short_round
    modify (λ w. record w {
      chain_state = record (w.chain_state) {
        last_round = current_round conf header.block_ts now w.chain_state.last_round;
      };
    })
    vals ← lift (or_fail (e.follow_validator_set conf.validator_set_ref) unresolved)
    modify (λ w. emit_if_changed (take_snapshot now' header conf vals w) w)

  unfoldable pub compute_emit_snapshot : ℕ → ℕ → M (Unit {0})
  unfolding compute_round
  compute_emit_snapshot now now' w = elim w.last_block_header [
    | none ↦ done tt w
    | some header ↦ compute_round now now' header w
  ]

  -- The state segment, or the one that follows it.
  unfoldable pub fast_forward : ℕ → ℕ → M ℕ
  unfolding write_state
  fast_forward seg next w =
      branch (next == 0) (pure seg)
        (do
          next_seg ← get_segment_by_id e next
          modify (λ v. record v { chain_state = record (v.chain_state) { state_segment = next } })
          write_state
          pure next_seg)
        w

  unfoldable pub update_head : Ref → Block → M (Unit {0})
  unfolding set_head_block
  update_head head_ref head w =
      branch (e.object_digest head_ref == w.last_head_digest) (pure tt) (set_head_block head) w

  unfoldable pub manage_state_once : ℕ → ℕ → M (Unit {0})
  unfolding fast_forward update_head compute_emit_snapshot
  manage_state_once now now' w =
      (do
        check (not (w.chain_state.state_segment == 0)) no_state_segment
        seg ← get_segment_by_id e w.chain_state.state_segment
        st ← segment seg
        seg ← fast_forward seg st.segment_next
        st ← segment seg
        head ← get_block e st.head_block
        update_head st.head_block head
        compute_emit_snapshot now now')
        w

  unfoldable pub mark_as_head : ℕ → Block → M (Unit {0})
  unfolding set_head_block
  mark_as_head seg head = do mark_valid e seg; set_head_block head

  -- The validator set of the chain's first configuration is the one of the block's.
  unfoldable pub same_validator_set : Ref → ℕ → Block → M (Unit {0})
  unfolding mark_as_head
  same_validator_set init_ref seg head = do
    init ← lift (or_fail (e.follow_chain_config init_ref) unresolved)
    conf ← lift (or_fail (e.follow_chain_config head.header.chain_config_ref) unresolved)
    branch (e.ref_equals init.validator_set_ref conf.validator_set_ref) (mark_as_head seg head)
        (pure tt)

  -- The first head of a chain without one. `init_ref` is the genesis' InitChainConfigRef.
  unfoldable pub adopt_segment : Ref → ℕ → M (Unit {0})
  unfolding same_validator_set mark_as_head
  adopt_segment init_ref seg = do
    st ← segment seg
    head ← get_block e st.head_block
    tail ← get_block e st.tail_block
    branch (e.ref_equals tail.header.chain_config_ref init_ref) (mark_as_head seg head)
        (branch (st.tail_block_round.height == 0) (pure tt) (same_validator_set init_ref seg head))

  -- HandleSegmentUpdated: an error is logged.
  unfoldable pub handle_segment_updated : Ref → ℕ → World → World
  unfolding adopt_segment
  handle_segment_updated init_ref seg w =
      if is_status (w.memory seg).status disjointed && is_none w.last_block
      then (elim (adopt_segment init_ref seg w) [ done _ w' ↦ w' | failed _ w' ↦ w' ])
      else w

  -- HandleBlockCommit; `uid` is the id of a segment that it may make.
  unfoldable pub handle_new_block : Option BlockValidator → ℕ → Ref → Block → M (Unit {0})
  handle_new_block validator uid blk_ref blk = do
    parent ← get_block e blk.header.last_block_ref
    branch (parent.segment_id == 0) (do seg ← new_segment e uid blk blk_ref; pure tt)
        (do
          seg ← get_segment_by_id e parent.segment_id
          append_block e validator seg blk_ref blk parent
          trigger_state_recheck)

  unfoldable pub handle_block_commit : Option BlockValidator → ℕ → Ref → M (Unit {0})
  unfolding handle_new_block trigger_state_recheck
  handle_block_commit validator uid blk_ref = do
    blk ← get_block e blk_ref
    branch (blk.segment_id == 0) (handle_new_block validator uid blk_ref blk) (pure tt)
