-- ===== src/Block/Validate.antt =====
-- What ValidateChild accepts.
use inca_go.Base.{◌≤◌, ◌≡◌, ◌↔◌, inl, inr, Bool, true, Option, some, arith, Option-cases}
use inca_go.Wire.{Env, Validator, ChainConfig, ValidatorSet}
use inca_go.Result.{ok}
use inca_go.Block.{Block, BlockValidator, next_height, validate_child, fetch_chain_config, judge}

-- The validator elected for the child's height and round after `b`.
pub record Elected (e : Env) (b child : Block) : Type 0 where
  pub conf : ChainConfig
  pub val_set : ValidatorSet
  pub proposer : Validator
  pub conf_found : e.follow_chain_config b.header.chain_config_ref ≡ some conf
  pub set_found : e.follow_validator_set conf.validator_set_ref ≡ some val_set
  pub selected :
      (e.select_proposer val_set
        (e.object_digest b.blk_ref)
        child.header.round_info.height
        child.header.round_info.round).0
      ≡ some proposer
  pub named : e.parse_peer_id proposer ≡ some child.header.proposer_id

-- The rules of the chain for one block after another.
pub record Follows (e : Env) (b child : Block) : Type 0 where
  pub same_genesis : e.ref_equals b.header.genesis_ref child.header.genesis_ref ≡ true
  pub height : child.header.round_info.height ≡ next_height b.header.round_info.height
  pub not_before : b.header.block_ts ≤ child.header.block_ts
  pub same_config : e.ref_equals b.header.chain_config_ref child.header.chain_config_ref ≡ true
  pub same_next_config :
      e.ref_equals b.header.chain_config_ref child.header.next_chain_config_ref ≡ true
  pub elected : Elected e b child

module _ (e : Env) (b child : Block) (v : Option BlockValidator) (m : Bool) where
  choice : ValidatorSet → Option Validator
  choice vals =
      (e.select_proposer vals (e.object_digest b.blk_ref) child.header.round_info.height
        child.header.round_info.round).0

  sound : validate_child e b child v ≡ ok m → Follows e b child × (judge v child b ≡ ok m)
  unfolding validate_child fetch_chain_config choice
  sound h = elim (Option-cases (e.follow_chain_config b.header.chain_config_ref)) [
    | inl missing ↦ absurd (ground arith)
    | inr (conf, c) ↦ elim (Option-cases (e.follow_validator_set conf.validator_set_ref)) [
      | inl missing ↦ absurd (ground arith)
      | inr (vals, s) ↦ elim (Option-cases (choice vals)) [
        | inl missing ↦ absurd (ground arith)
        | inr (p, t) ↦ (
          record {
            same_genesis = ground arith;
            height = ground arith;
            not_before = ground arith;
            same_config = ground arith;
            same_next_config = ground arith;
            elected = record {
              conf = conf;
              val_set = vals;
              proposer = p;
              conf_found = c;
              set_found = s;
              selected = t;
              named = ground arith;
            };
          },
          ground arith,
        )
      ]
    ]
  ]

  complete : Follows e b child → judge v child b ≡ ok m → validate_child e b child v ≡ ok m
  unfolding validate_child fetch_chain_config
  complete f j = let g = f.elected in ground (arith, g.conf_found, g.set_found, g.selected, g.named)

-- ValidateChild accepts a child exactly when it keeps the rules of the chain after its parent and
-- the block validator, if there is one, accepts it; the mark is the one of the validator.
pub validate_child-ok_iff :
    (e : Env) (b child : Block) (v : Option BlockValidator) (m : Bool)
    → (validate_child e b child v ≡ ok m) ↔ (Follows e b child × (judge v child b ≡ ok m))
validate_child-ok_iff e b child v m = (sound e b child v m, λ (f, j). complete e b child v m f j)
