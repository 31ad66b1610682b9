-- ===== src/Tests/Genesis.antt =====
-- The theorems on making and loading a chain, on the votes of a round and on encryption.
use inca_go.Base.{ℕ, ◌≡◌, ◌≢◌, refl, ◌++◌, true, false, none, some, List, [], ◌∷◌, arith}
use mathlib.Core.List.Perm
use inca_go.Wire.{Validator, vote, NodeMessage}
use inca_go.Result.{Result, ok, err, duplicate_impl}
use inca_go.Transactions.{Bytes}
use inca_go.World.{World, Run, done, failed, get_block, write_block, get_segment_by_id}
use inca_go.Segment.Store.{new_segment}
use inca_go.Encryption.{
  Strategy, EncConfig, Ctor, Ctors, get_node_message_encryption_config,
  get_node_message_encryption_config_with_digest, new_convergent_immutable_strategy, build_args,
  new_convergent_immutable_strategy_from_config, register_encryption_strategy_ctor,
  build_encryption_strategy,
}
use inca_go.Encryption.Nonce.{Box, seal_with, open_with, node_message_opens}
use inca_go.Encryption.Registry.{build_args-strategy}
use inca_go.Chain.{write_state}
use inca_go.Chain.New.{Config, Stores, NewArgs, new_genesis, new_chain, from_config}
use inca_go.Chain.New.Start.{Started, First, new_chain-Started}
use inca_go.Chain.New.Load.{RoundTrips, from_config-new_chain}
use inca_go.Proposer.{collect_votes}
use inca_go.Proposer.Votes.{sent_votes, none_alone_never_commits}
use inca_go.Tests.{env, world, alone}

abbrev zeros : Bytes
zeros = 0 ∷ 0 ∷ 0 ∷ 0 ∷ 0 ∷ 0 ∷ 0 ∷ 0 ∷ []

abbrev pub key : Bytes
key = zeros ++ (zeros ++ (zeros ++ zeros))

abbrev box : Box
box = record { seal = λ k n m. m; unseal = λ k n m. some m }

abbrev digest_data : Bytes → Result Bytes
digest_data m = ok key

abbrev strategy : Strategy
strategy = record { key = key; pre_shared_key = key }

node_message_opens_example :
    (c : EncConfig) × (get_node_message_encryption_config_with_digest strategy 8 key ≡ ok c)
    × (open_with box c (5 ∷ []) ≡ ok (some (5 ∷ [])))
    × (c.verify_keys ≡ 8 ∷ [])
    × ((m : Bytes)
        → open_with box (get_node_message_encryption_config digest_data strategy 7) (5 ∷ [])
          ≢ ok (some m))
unfolding seal_with get_node_message_encryption_config
node_message_opens_example =
    node_message_opens box digest_data strategy 7 8 (5 ∷ []) (5 ∷ []) key (λ k n m. refl) refl refl

abbrev pub plain : Bytes → Result Bytes
plain bs = ok bs

abbrev pub registry : Ctors
registry = (1, new_convergent_immutable_strategy_from_config plain) ∷ []

build_args-strategy_example :
    (build_encryption_strategy (λ k. true) 1 key registry ≡ ok strategy)
    × ((ctor : Ctor) → register_encryption_strategy_ctor 1 ctor registry ≡ err duplicate_impl)
    × ((other : ℕ) (args : Bytes)
        → other ≢ 1
        → build_encryption_strategy (λ k. true) other args registry
          ≡ build_encryption_strategy (λ k. true) other args [])
unfolding new_convergent_immutable_strategy build_args register_encryption_strategy_ctor
build_args-strategy_example =
    build_args-strategy plain plain (λ k. true) 1 key key strategy [] registry
      (λ m w e. ground arith) refl refl refl refl refl

-- The first block is block 1.
abbrev pub args : NewArgs
args = record {
  chain_id = 9;
  genesis_state_ref = 0;
  pub_key = some 7;
  validator_id = some 7;
  random = ok key;
  encode = plain;
  strategy_kind = 1;
  first_uid = 2;
  uid = 3;
  genesis_ts = 0;
  block_ts = 0;
}

abbrev pub stores : Stores
stores = record {
  store_validator_set = λ vals. some 70;
  store_chain_config = λ conf. some 60;
  store_genesis = λ g. some 50;
  store_header = λ h. some 11;
  store_vote = λ r. some 30;
  store_block = λ b. some 1;
  store_local = λ s. some tt;
  follow_genesis = λ r. some (new_genesis args 60);
}

abbrev bare : World
bare = record world { is_loaded = λ id. false; last_block = none }

abbrev pub chain_config : Config
chain_config = record { genesis_ref = 50; encryption_strategy = 1; encryption_args = key }

abbrev pub world_of {ℓ} : {A : Type ℓ} → Run A → World
world_of (done _ w) = w
world_of (failed _ w) = w

abbrev made : World
made = world_of (new_chain env stores args bare)

new_chain-Started_example :
    Started env 3 made × First stores args chain_config (new_genesis args 60) made
unfolding new_chain get_block new_segment write_block write_state get_segment_by_id
new_chain-Started_example =
    new_chain-Started env stores args bare made chain_config (new_genesis args 60) refl refl

trips : RoundTrips stores (new_genesis args 60) plain plain
trips = record { followed = λ r e. refl; config = λ m w e. ground arith }

from_config-new_chain_example :
    (w : World) × (from_config env stores (λ k. true) registry chain_config made
      ≡ done (strategy, new_genesis args 60) w)
    × (w.chain_state ≡ made.chain_state)
unfolding new_chain get_block new_segment write_block write_state get_segment_by_id
    register_encryption_strategy_ctor
from_config-new_chain_example =
    from_config-new_chain env stores args bare made made chain_config (new_genesis args 60)
      (λ k. true) plain key [] registry trips refl refl refl refl refl refl refl refl

-- Two validators of power 5, where 6 is required.
abbrev halves : List Validator
halves = (record alone { voting_power = 5 }) ∷ (record alone { pub_key = 8; voting_power = 5 }) ∷ []

abbrev voting : NodeMessage
voting = record {
  message_type = vote;
  genesis_ref = 50;
  prev_msg_ref = 0;
  inner_ref = 31;
  timestamp = 0;
  app_message_type = 0;
  pub_key = 7;
}

none_alone_never_commits_example :
    collect_votes 6 [] (sent_votes env (λ r. some 12) (λ id. some (voting ∷ [])) 12 halves) ≡ none
none_alone_never_commits_example =
    none_alone_never_commits env (λ r. some 12) (λ id. some (voting ∷ [])) 12 6 halves
      (sent_votes env (λ r. some 12) (λ id. some (voting ∷ [])) 12 halves)
      (omega arith, (omega arith, tt)) (Perm.refl _)
