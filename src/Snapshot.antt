-- ===== src/Snapshot.antt =====
-- chain/state/state.go: what a chain tells its subscribers of the current round. A context is a
-- number: the chain keeps the one context that is not canceled. Times are in nanoseconds.
use inca_go.Base.{ℕ, Bool, Option}
use inca_go.Wire.{Ref, RoundInfo, BlockHeader, Validator, ValidatorSet, ChainConfig}

pub record Snapshot : Type 0 where
  pub ctx : ℕ
  pub round_started : Bool
  pub block_round_info : RoundInfo
  pub last_block_header : BlockHeader
  pub last_block_ref : Ref
  pub current_proposer : Option Validator
  pub round_end_time : ℕ
  pub round_start_time : ℕ
  pub next_round_start_time : ℕ
  pub total_voting_power : ℕ
  pub chain_config : ChainConfig
  pub validator_set : ValidatorSet
