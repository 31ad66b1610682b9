-- ===== src/Tests/Network.antt =====
-- The theorems on rounds, peers and the outbox, at the small chain.
use inca_go.Base.{
  ℕ, ◌+◌, ◌≡◌, refl, ◌≤◌, ◌≢◌, true, none, some, List, [], ◌∷◌, arith, All, ==_refl, ap,
}
use inca_go.Wire.{block_commit, NodeMessage, ChainConfig, ValidatorSet}
use inca_go.Chain.New.{Genesis}
use inca_go.Tests.Genesis.{stores}
use inca_go.Result.{ok}
use inca_go.Block.{Block}
use inca_go.Block.Validate.{Follows}
use inca_go.Chain.{compute_emit_snapshot, take_snapshot}
use inca_go.Chain.Emit.{NotBefore, final, compute_emit_snapshot-NotBefore}
use inca_go.Proposer.{proposed_header}
use inca_go.Proposer.Honest.{AtHead, proposed_header-Follows}
use inca_go.Peer.{
  Peer, Calls, last_time, max_age, get_peer, get_peer_with_pub_key, new_peer, subscribe_messages,
  process_incoming_node_message,
}
use inca_go.Peer.Messages.{process_incoming_node_message-emits}
use inca_go.Go.Channel.{enqueue}
use inca_go.Node.{Outbox, Network, process_outbox}
use inca_go.Node.Start.{
  NodeSetup, HasPeer, Distinct, add_peers, read_genesis_state, new_node, new_node-Distinct,
}
use inca_go.Node.Links.{InStep, process_outbox-Chained}
use inca_go.Tests.{env, world, conf, alone, block, genesis_block}
use inca_go.Tests.Rounds.{context}

compute_emit_snapshot-NotBefore_example :
    NotBefore world.chain_state
      (final (compute_emit_snapshot env 7000000000 7000000001 world)).chain_state
compute_emit_snapshot-NotBefore_example =
    compute_emit_snapshot-NotBefore env 7000000000 7000000001 world

-- The block that the validator proposes on the genesis block.
abbrev proposed : Block
proposed = block 2 (
    proposed_header context 600000000
      (take_snapshot env 600000000 (genesis_block.header) conf (alone ∷ []) world) 90)

at_head : AtHead env genesis_block conf (alone ∷ []) world
at_head = record {
  digest = refl;
  height = refl;
  conf_found = refl;
  set_found = refl;
  sorted = refl;
}

proposed_header-Follows_example : Follows env genesis_block proposed
unfolding take_snapshot
proposed_header-Follows_example =
    proposed_header-Follows env context genesis_block proposed conf (alone ∷ []) world 600000000
      600000000 90 alone at_head refl ==_refl refl (omega arith) refl refl

abbrev pub said : ℕ → NodeMessage
said time = record {
  message_type = block_commit;
  genesis_ref = 50;
  prev_msg_ref = 0;
  inner_ref = 2;
  timestamp = time;
  app_message_type = 0;
  pub_key = 7;
}

-- At time 100; the handler of block commits counts its calls.
abbrev pub calls : Calls ℕ
calls = record {
  now = 100;
  timestamp_valid = λ t. true;
  state_written = true;
  handle_block_commit = λ r n. n + 1;
}

abbrev pub remote : Peer
remote = (subscribe_messages (new_peer 7 7 50 (some (said 40)))).1

abbrev held : List (ℕ × List NodeMessage) → ℕ
held [] = 0
held ((id, []) ∷ subs) = held subs
held ((id, nm ∷ nms) ∷ subs) = 1 + held subs

emitted : (process_incoming_node_message env calls remote (said 60) 0).1.msg_subs ≢ remote.msg_subs
unfolding process_incoming_node_message subscribe_messages new_peer enqueue
emitted same = let counted : 1 ≡ 0 = ap held same in absurd (omega (arith, counted))

process_incoming_node_message-emits_example :
    (env.object_digest (said 60).genesis_ref ≡ remote.genesis_digest)
    × (last_time remote.last_observed ≤ (said 60).timestamp)
    × ((said 60).timestamp ≤ calls.now)
    × (calls.now ≤ (said 60).timestamp + max_age)
    × ((process_incoming_node_message env calls remote (said 60) 0).1.last_observed
        ≡ some (said 60))
process_incoming_node_message-emits_example =
    process_incoming_node_message-emits env calls remote (said 60) 0 emitted

abbrev network : Network
network = record { now = 100; store_message = λ m. some 33; state_written = true; published = true }

abbrev fresh : Outbox
fresh = record { last_msg_ref = 20; stored_msg_ref = 20; published = [] }

process_outbox-Chained_example :
    InStep 20 (process_outbox ((network, said 1) ∷ (network, said 2) ∷ []) fresh)
process_outbox-Chained_example =
    process_outbox-Chained 20 ((network, said 1) ∷ (network, said 2) ∷ []) fresh
      ((refl, refl), ((refl, refl), tt)) (tt, refl, refl)

abbrev pub setup : NodeSetup
setup = record {
  own_key = some 4;
  id_of = λ k. k;
  parse_public_key = λ v. some v.pub_key;
  read_peer = λ id. ok none;
  read_state = ok 20;
  subscribed = ok tt;
  proposer_made = ok tt;
  validator_made = ok tt;
}

abbrev pub known : List Peer
known = new_peer 7 7 50 none ∷ new_peer 4 4 50 none ∷ []

new_node-Distinct_example :
    (key : ℕ) × (p : Peer) × (gen : Genesis) × (c : ChainConfig) × (vals : ValidatorSet)
    × (setup.own_key ≡ some key)
    × (get_peer (setup.id_of key) known ≡ some p)
    × (stores.follow_genesis 50 ≡ some gen)
    × (env.follow_chain_config gen.init_chain_config_ref ≡ some c)
    × (env.follow_validator_set c.validator_set_ref ≡ some vals)
    × All (HasPeer setup 50 known) vals
    × Distinct known
    × (setup.read_state ≡ ok 20)
unfolding new_node read_genesis_state add_peers get_peer get_peer_with_pub_key new_peer
new_node-Distinct_example = new_node-Distinct setup 50 env stores 50 known 20 refl
