-- ===== src/Wire.antt =====
-- The messages that the program exchanges (package inca and its children, storageref), with the
-- fields that the source reads, and the environment: the code that the program calls and does
-- not define. A protobuf getter on a nil message returns the zero value, so a message that the
-- source only reads through getters is its record of values. Strings, digests and keys are
-- compared for equality alone: they are numbers, and 0 is the empty one.
use inca_go.Base.{ℕ, Bool, Option, List}

-- A *storageref.StorageRef; 0 is the nil reference.
abbrev pub Ref : Type 0
Ref = ℕ

abbrev pub nil_ref : Ref
nil_ref = 0

abbrev pub Digest : Type 0
Digest = ℕ

-- inca.BlockRoundInfo
pub record RoundInfo : Type 0 where
  pub height : ℕ
  pub round : ℕ

-- inca.Block
pub record InnerBlock : Type 0 where
  pub block_header_ref : Ref
  pub vote_refs : List Ref

-- inca.BlockHeader; `block_ts` is the time in nanoseconds.
pub record BlockHeader : Type 0 where
  pub genesis_ref : Ref
  pub chain_config_ref : Ref
  pub next_chain_config_ref : Ref
  pub last_block_ref : Ref
  pub round_info : RoundInfo
  pub block_ts : ℕ
  pub proposer_id : ℕ
  pub state_ref : Ref

-- iblock.State: what a node stores of a block. A segment id of 0 is the empty string.
pub record BlockState : Type 0 where
  pub segment_id : ℕ
  pub next_block : Ref

-- isegment.SegmentStatus
pub data SegmentStatus : Type 0 where
  disjointed valid invalid : SegmentStatus

-- isegment.SegmentState
pub record SegmentState : Type 0 where
  pub id : ℕ
  pub status : SegmentStatus
  pub head_block : Ref
  pub tail_block : Ref
  pub tail_block_round : RoundInfo
  pub segment_next : ℕ
  pub segment_prev : ℕ

-- ichain.ChainState
pub record ChainState : Type 0 where
  pub state_segment : ℕ
  pub last_height : ℕ
  pub last_round : ℕ

-- inca.ChainConfig, with its inca.TimingConfig in milliseconds.
pub record ChainConfig : Type 0 where
  pub min_propose_after_block : ℕ
  pub round_length : ℕ
  pub validator_set_ref : Ref

-- inca.Validator
pub record Validator : Type 0 where
  pub pub_key : ℕ
  pub voting_power : ℕ
  pub operating : Bool

-- inca.NodeMessageType
pub data MessageType : Type 0 where
  unknown vote block_commit app : MessageType

-- inca.NodeMessage; the timestamp is in nanoseconds.
pub record NodeMessage : Type 0 where
  pub message_type : MessageType
  pub genesis_ref : Ref
  pub prev_msg_ref : Ref
  pub inner_ref : Ref
  pub timestamp : ℕ
  pub app_message_type : ℕ
  pub pub_key : ℕ

abbrev pub ValidatorSet : Type 0
ValidatorSet = List Validator

-- The code outside the repository that the core calls.
pub record Env : Type 0 where
  -- StorageRef.GetObjectDigest and StorageRef.Equals
  pub object_digest : Ref → Digest
  pub ref_equals : Ref → Ref → Bool
  -- StorageRef.FollowRef into each type of object; `none` is an error.
  pub follow_block : Ref → Option InnerBlock
  pub follow_header : Ref → Option BlockHeader
  pub follow_chain_config : Ref → Option ChainConfig
  pub follow_validator_set : Ref → Option ValidatorSet
  -- ValidatorSet.SortValidators, and ValidatorSet.SelectProposer at a digest, height and round
  pub sort_validators : ValidatorSet → ValidatorSet
  pub select_proposer : ValidatorSet → Digest → ℕ → ℕ → Option Validator × ℕ
  -- Validator.ParsePeerID, printed; `none` is a public key that does not parse.
  pub parse_peer_id : Validator → Option ℕ
  -- The status that an unset field of a SegmentState has.
  pub unset_status : SegmentStatus
  -- Whether the database access of that number fails.
  pub db_fails : ℕ → Bool
