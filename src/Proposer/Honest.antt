-- ===== src/Proposer/Honest.antt =====
-- The proposer, the chain and the check of blocks agree: what an elected proposer proposes on a
-- snapshot of the chain passes ValidateChild.
use inca_go.Base.{ℕ, ◌≤◌, ◌≡◌, true, some, arith}
use inca_go.Wire.{Ref, Validator, ValidatorSet, ChainConfig, Env}
use inca_go.Block.{Block, next_height}
use inca_go.Block.Validate.{Follows}
use inca_go.World.{World}
use inca_go.Chain.{take_snapshot}
use inca_go.Proposer.{Context, proposed_header}

-- The chain is at the round after the block `b`, with the configuration that `b` names as its own (the
-- chain takes the next one that `b` names, which is the same as long as the configuration does not
-- change) and the validator set of that configuration, which is stored in its sorted order.
pub record AtHead (e : Env) (b : Block) (conf : ChainConfig) (vals : ValidatorSet) (w : World)
    : Type 0 where
  pub digest : w.last_head_digest ≡ e.object_digest b.blk_ref
  pub height : w.chain_state.last_height ≡ next_height b.header.round_info.height
  pub conf_found : e.follow_chain_config b.header.chain_config_ref ≡ some conf
  pub set_found : e.follow_validator_set conf.validator_set_ref ≡ some vals
  pub sorted : e.sort_validators vals ≡ vals

-- A block with the header that makeProposal builds on the chain's snapshot keeps the rules of the
-- chain after the head block, where the chain is at the next height with the configuration that the
-- head block is of; the validator set is stored in its sorted order, since ValidateChild elects from
-- the stored order and the chain from the sorted one; the proposer is the elected one, of the same
-- genesis, and its clock is not behind the head block; and comparing references is reflexive.
pub proposed_header-Follows :
    (e : Env) (c : Context) (b child : Block) (conf : ChainConfig) (vals : ValidatorSet) (w : World)
    (now now' : ℕ) (state_ref : Ref) (p : Validator)
    → AtHead e b conf vals w
    → child.header ≡ proposed_header c now (take_snapshot e now' b.header conf vals w) state_ref
    → ((r : Ref) → e.ref_equals r r ≡ true)
    → b.header.genesis_ref ≡ c.genesis_ref
    → b.header.block_ts ≤ now
    → (take_snapshot e now' b.header conf vals w).current_proposer ≡ some p
    → e.parse_peer_id p ≡ some c.validator_id
    → Follows e b child
unfolding proposed_header take_snapshot
proposed_header-Follows e c b child conf vals w now now' state_ref p head built reflexive genesis
      late elected named =
    record {
      same_genesis = ground (arith, reflexive b.header.genesis_ref, built, genesis);
      height = ground (arith, built, head.height);
      not_before = ground (arith, built, late);
      same_config = ground (arith, reflexive b.header.chain_config_ref, built);
      same_next_config = ground (arith, reflexive b.header.chain_config_ref, built);
      elected = record {
        conf = conf;
        val_set = vals;
        proposer = p;
        conf_found = head.conf_found;
        set_found = head.set_found;
        selected = ground (arith, built, elected, head.sorted, head.digest);
        named = ground (arith, built, named);
      };
    }
