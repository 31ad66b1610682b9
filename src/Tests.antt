-- ===== src/Tests.antt =====
-- A small chain of two blocks with one validator, on which the operations and the theorems are run.
mod Rounds
mod Growth
mod Network
mod Ledger
mod Pool
mod Genesis
mod Backward
mod Timing
mod Life
mod Apply
mod Boot
mod Kept
mod Inbound
use inca_go.Base.{
  ℕ, ◌+◌, ◌≡◌, refl, Bool, true, false, Option, none, some, List, [], ◌∷◌, ◌==◌, if◌then◌else◌,
}
use inca_go.Wire.{
  Ref, nil_ref, RoundInfo, InnerBlock, BlockHeader, BlockState, disjointed, SegmentState,
  ChainState, ChainConfig, Validator, ValidatorSet, Env,
}
use inca_go.Result.{ok}
use inca_go.Block.{Block, validate_child}
use inca_go.Snapshot.{Snapshot}
use inca_go.World.{World}

abbrev at : ℕ → ℕ → RoundInfo
at height round = record { height = height; round = round }

abbrev header : ℕ → ℕ → Ref → BlockHeader
header height ts last = record {
  genesis_ref = 50;
  chain_config_ref = 60;
  next_chain_config_ref = 60;
  last_block_ref = last;
  round_info = at height 0;
  block_ts = ts;
  proposer_id = 7;
  state_ref = 0;
}

abbrev alone : Validator
alone = record { pub_key = 7; voting_power = 10; operating = true }

abbrev first_of_set : ValidatorSet → Option Validator
first_of_set [] = none
first_of_set (v ∷ vs) = some v

abbrev conf : ChainConfig
conf = record { min_propose_after_block = 500; round_length = 3000; validator_set_ref = 70 }

-- Block `n` has the header `n + 10`; blocks 1 and 2 are known.
abbrev env : Env
env = record {
  object_digest = λ r. r;
  ref_equals = λ a b. a == b;
  follow_block = λ r. some (record { block_header_ref = r + 10; vote_refs = [] });
  follow_header = λ r.
      if r == 11
      then some (header 0 0 0)
      else if r == 12
      then some (header 1 1000000000 1)
      else none;
  follow_chain_config = λ r. some conf;
  follow_validator_set = λ r. some (alone ∷ []);
  sort_validators = λ vs. vs;
  select_proposer = λ vs d h r. (first_of_set vs, 10);
  parse_peer_id = λ v. some v.pub_key;
  unset_status = disjointed;
  db_fails = λ n. false;
}

abbrev block : ℕ → BlockHeader → Block
block ref h = record {
  state = record { segment_id = 0; next_block = 0 };
  inner = record { block_header_ref = ref + 10; vote_refs = [] };
  header = h;
  blk_ref = ref;
}

abbrev genesis_block : Block
genesis_block = record (block 1 (header 0 0 0)) {
  state = record { segment_id = 3; next_block = 0 };
}

abbrev second_block : Block
second_block = block 2 (header 1 1000000000 1)

abbrev segment_of : ℕ → Ref → SegmentState
segment_of id ref = record {
  id = id;
  status = disjointed;
  head_block = ref;
  tail_block = ref;
  tail_block_round = at 0 0;
  segment_next = 0;
  segment_prev = 0;
}

-- Segment 3 holds the genesis block, segment 4 the second block.
abbrev world : World
world = record {
  blocks = λ d. record { segment_id = if d == 1 then 3 else 0; next_block = 0 };
  segments = λ id. none;
  is_loaded = λ id. true;
  memory = λ id. segment_of id (if id == 3 then 1 else 2);
  queue = [];
  notified = [];
  chain_state = record { state_segment = 3; last_height = 1; last_round = 0 };
  stored_chain_state = record { state_segment = 0; last_height = 0; last_round = 0 };
  last_block = some genesis_block;
  last_block_header = some (genesis_block.header);
  last_block_ref = 1;
  last_head_digest = 1;
  last_snapshot = none;
  snapshot_ctx = 0;
  state_subs = (9, []) ∷ [];
  recheck = false;
  accesses = 0;
}

-- The round of height 1.
abbrev snapshot : ℕ → Snapshot
snapshot round = record {
  ctx = 0;
  round_started = true;
  block_round_info = at 1 round;
  last_block_header = genesis_block.header;
  last_block_ref = 1;
  current_proposer = some alone;
  round_end_time = 3500000000;
  round_start_time = 500000000;
  next_round_start_time = 6500000000;
  total_voting_power = 10;
  chain_config = conf;
  validator_set = alone ∷ [];
}

child_accepted : validate_child env genesis_block second_block none ≡ ok false
unfolding validate_child
child_accepted = refl
