-- ===== src/Block.antt =====
-- block/block.go and block/block_validator.go: a block with its header and its state in the
-- database, and the check that one block may follow another.
pub mod Validate
pub mod Lineage
use inca_go.Base.{
  ℕ, ◌+◌, ◌%◌, ◌^◌, Bool, true, false, not, Option, none, some, ltb, ◌==◌, if◌then◌else◌,
}
use inca_go.Wire.{Ref, BlockState, RoundInfo, InnerBlock, BlockHeader, ChainConfig, Env}
use inca_go.Result.{
  Result, ok, err, ◌>>=◌, ◌>>◌, guard, or_fail, unresolved, genesis_mismatch, wrong_height,
  early_timestamp, config_mismatch, next_config_mismatch, no_proposer, wrong_proposer, bad_key,
}

pub record Block : Type 0 where
  pub state : BlockState
  pub open state use *
  pub inner : InnerBlock
  pub header : BlockHeader
  pub blk_ref : Ref

-- The interface Validator: the proposed block, and its parent if known.
abbrev pub BlockValidator : Type 0
BlockValidator = Block → Option Block → Result Bool

-- uint64 arithmetic.
abbrev pub next_height : ℕ → ℕ
next_height h = (h + 1) % 2 ^ 64

unfoldable pub fetch_chain_config : Env → Block → Result ChainConfig
fetch_chain_config e b = or_fail (e.follow_chain_config b.header.chain_config_ref) unresolved

-- The validator's answer; without one the block is not marked valid.
unfoldable pub judge : Option BlockValidator → Block → Block → Result Bool
judge none child b = ok false
judge (some v) child b = v child (some b)

unfoldable pub validate_child : Env → Block → Block → Option BlockValidator → Result Bool
unfolding fetch_chain_config judge
validate_child e b child validator = do
  guard (e.ref_equals b.header.genesis_ref child.header.genesis_ref) genesis_mismatch
  guard (child.header.round_info.height == next_height b.header.round_info.height) wrong_height
  guard (not (ltb child.header.block_ts b.header.block_ts)) early_timestamp
  conf ← fetch_chain_config e b
  guard (e.ref_equals b.header.chain_config_ref child.header.chain_config_ref) config_mismatch
  guard (e.ref_equals b.header.chain_config_ref child.header.next_chain_config_ref)
      next_config_mismatch
  val_set ← or_fail (e.follow_validator_set conf.validator_set_ref) unresolved
  selected ←
      or_fail
        (e.select_proposer val_set (e.object_digest b.blk_ref) child.header.round_info.height
          child.header.round_info.round).0
        no_proposer
  selected_id ← or_fail (e.parse_peer_id selected) bad_key
  guard (selected_id == child.header.proposer_id) wrong_proposer
  judge validator child b
