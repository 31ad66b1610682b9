-- ===== src/Chain/New.antt =====
-- chain/chain.go, NewChain and FromConfig: how a chain is made, and how it is loaded again.
pub mod Stored
pub mod Start
pub mod Load
use inca_go.Base.{ℕ, Bool, true, false, not, Option, none, some, List, [], ◌∷◌, ◌==◌, update}
use inca_go.Wire.{
  Ref, InnerBlock, BlockHeader, Validator, ValidatorSet, ChainConfig, ChainState, valid,
  SegmentState, Env,
}
use inca_go.Result.{Result, ok, err, or_fail, not_stored, bad_key, unresolved, no_chain_id}
use inca_go.Block.{Block}
use inca_go.World.{
  World, M, done, failed, ◌>>=◌, ◌>>◌, pure, lift, check, modify, access, get_block, write_block,
  segment,
}
use inca_go.Segment.Store.{new_segment}
use inca_go.Encryption.{
  Strategy, Ctors, new_convergent_immutable_strategy, build_args, build_encryption_strategy,
}
use inca_go.Transactions.{Bytes}
use inca_go.Chain.{write_state}

-- inca.Genesis and ichain.Config
pub record Genesis : Type 0 where
  pub chain_id : ℕ
  pub timestamp : ℕ
  pub enc_strategy : ℕ
  pub init_chain_config_ref : Ref

pub record Config : Type 0 where
  pub genesis_ref : Ref
  pub encryption_strategy : ℕ
  pub encryption_args : Bytes

-- The object store, by the type of object; `none` is an error. A vote is the header that it is for.
-- `store_local` stores the state of a segment under its digest.
pub record Stores : Type 0 where
  pub store_validator_set : ValidatorSet → Option Ref
  pub store_chain_config : ChainConfig → Option Ref
  pub store_genesis : Genesis → Option Ref
  pub store_header : BlockHeader → Option Ref
  pub store_vote : Ref → Option Ref
  pub store_block : InnerBlock → Option Ref
  pub store_local : SegmentState → Option (Unit {0})
  pub follow_genesis : Ref → Option Genesis

-- What NewChain is called with and reads: the id of the chain and the state of its first block; the
-- validator's public key and id, where they can be had; random bytes for the key; the wire form of
-- the strategy's configuration and its kind; the ids of two segments; the clock.
pub record NewArgs : Type 0 where
  pub chain_id : ℕ
  pub genesis_state_ref : Ref
  pub pub_key : Option ℕ
  pub validator_id : Option ℕ
  pub random : Result Bytes
  pub encode : Bytes → Result Bytes
  pub strategy_kind : ℕ
  pub first_uid : ℕ
  pub uid : ℕ
  pub genesis_ts : ℕ
  pub block_ts : ℕ

abbrev pub new_validator_set : ℕ → ValidatorSet
new_validator_set key = record { pub_key = key; voting_power = 10; operating = true } ∷ []

abbrev pub new_chain_config : Ref → ChainConfig
new_chain_config set_ref = record {
  min_propose_after_block = 500;
  round_length = 3000;
  validator_set_ref = set_ref;
}

abbrev pub new_genesis : NewArgs → Ref → Genesis
new_genesis a config_ref = record {
  chain_id = a.chain_id;
  timestamp = a.genesis_ts;
  enc_strategy = a.strategy_kind;
  init_chain_config_ref = config_ref;
}

abbrev pub first_header : NewArgs → Ref → Ref → ℕ → BlockHeader
first_header a genesis_ref config_ref validator_id = record {
  genesis_ref = genesis_ref;
  chain_config_ref = config_ref;
  next_chain_config_ref = config_ref;
  last_block_ref = 0;
  round_info = record { height = 0; round = 0 };
  block_ts = a.block_ts;
  proposer_id = validator_id;
  state_ref = a.genesis_state_ref;
}

module _ (e : Env) (st : Stores) where
  abbrev put {ℓ} : {A : Type ℓ} → Option A → M A
  put stored = lift (or_fail stored not_stored)

  -- The first block, and the segment that it is put into.
  pub mint_block : NewArgs → Ref → Ref → ℕ → M (Ref × BlockHeader)
  mint_block a genesis_ref config_ref validator_id = do
    header_ref ← put (st.store_header (first_header a genesis_ref config_ref validator_id))
    vote_ref ← put (st.store_vote header_ref)
    blk_ref ←
        put (st.store_block (record { block_header_ref = header_ref; vote_refs = vote_ref ∷ [] }))
    put (
        st.store_local (record {
          id = a.first_uid;
          status = valid;
          head_block = blk_ref;
          tail_block = blk_ref;
          tail_block_round = record { height = 0; round = 0 };
          segment_next = 0;
          segment_prev = 0;
        }))
    pure (blk_ref, first_header a genesis_ref config_ref validator_id)

  unfoldable pub start_chain : ℕ → Ref → BlockHeader → M (Unit {0})
  start_chain uid blk_ref header = do
    blk ← get_block e blk_ref
    seg ← new_segment e uid blk blk_ref
    state ← segment seg
    write_block e (record blk { state = record (blk.state) { segment_id = state.id } })
    modify (λ w. record w {
      chain_state = record { state_segment = state.id; last_height = 0; last_round = 0 };
    })
    write_state e
    modify (λ w. record w {
      last_block_header = some header;
      last_block_ref = blk_ref;
      last_block = some (record blk { state = record (blk.state) { segment_id = state.id } });
      last_head_digest = e.object_digest blk_ref;
    })

  pub launch : NewArgs → Ref → Ref → ℕ → M (Unit {0})
  unfolding mint_block start_chain
  launch a genesis_ref config_ref validator_id = do
    first ← mint_block a genesis_ref config_ref validator_id
    start_chain a.uid (first.0) (first.1)

  unfoldable pub new_chain : NewArgs → M (Config × Genesis)
  unfolding launch new_convergent_immutable_strategy build_args
  new_chain a = do
    check (not (a.chain_id == 0)) no_chain_id
    strat ← lift (new_convergent_immutable_strategy a.random)
    args ← lift (build_args a.encode strat)
    key ← lift (or_fail a.pub_key bad_key)
    validator_id ← lift (or_fail a.validator_id bad_key)
    set_ref ← put (st.store_validator_set (new_validator_set key))
    config_ref ← put (st.store_chain_config (new_chain_config set_ref))
    genesis_ref ← put (st.store_genesis (new_genesis a config_ref))
    launch a genesis_ref config_ref validator_id
    pure (
      record {
        genesis_ref = genesis_ref;
        encryption_strategy = a.strategy_kind;
        encryption_args = args;
      },
      new_genesis a config_ref,
    )

  -- FromConfig, on a chain whose memory is empty. The state of a chain that is not in the database
  -- is the empty one.
  unfoldable pub from_config : (ℕ → Bool) → Ctors → Config → M (Strategy × Genesis)
  unfolding access
  from_config is_known ctors conf = do
    strat ←
        lift
          (build_encryption_strategy is_known conf.encryption_strategy conf.encryption_args ctors)
    genesis ← lift (or_fail (st.follow_genesis conf.genesis_ref) unresolved)
    access e
    modify (λ w. record w { chain_state = w.stored_chain_state })
    pure (strat, genesis)
