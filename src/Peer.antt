-- ===== src/Peer.antt =====
-- peer/peer.go, peer/peer_state.go and peer/peer_store.go: the messages of one remote node, and the
-- nodes that are known.
pub mod Messages
use inca_go.Base.{
  ℕ, suc, ◌+◌, ◌-◌, ◌*◌, Bool, true, false, not, Option, none, some, List, [], ◌∷◌, map, ltb, ◌==◌,
  if◌then◌else◌,
}
use inca_go.Wire.{Ref, InnerBlock, MessageType, block_commit, NodeMessage, Env}
use inca_go.Result.{
  Error, Result, ok, err, ◌>>=◌, ◌>>◌, guard, or_fail, genesis_mismatch, invalid_timestamp,
  old_message, future_message, not_from_peer, empty_digest, no_public_key, bad_key, key_mismatch,
  unresolved,
}
use inca_go.Go.Channel.{enqueue}

-- The subscribers' channels hold five messages each.
abbrev pub sub_cap : ℕ
sub_cap = 5

-- A message is too old after two minutes.
abbrev pub max_age : ℕ
max_age = 120 * 1000000000

-- The fields of Peer that a message changes, and the ones that it is checked against. The state in
-- the database is behind where a write has failed.
pub record Peer : Type 0 where
  pub peer_id : ℕ
  pub pub_key : ℕ
  pub genesis_digest : ℕ
  pub last_observed : Option NodeMessage
  pub stored : Option NodeMessage
  pub next_sub_id : ℕ
  pub msg_subs : List (ℕ × List NodeMessage)

-- What a peer calls: the clock, the check of a timestamp, the database, and the chain as the handler
-- of block commits, whose errors are logged.
pub record Calls (W : Type 0) : Type 0 where
  pub now : ℕ
  pub timestamp_valid : ℕ → Bool
  pub state_written : Bool
  pub handle_block_commit : Ref → W → W

-- SubscribeMessages: the id of the new subscription, and the peer.
unfoldable pub subscribe_messages : Peer → ℕ × Peer
subscribe_messages p =
    let id = suc p.next_sub_id in
    (id, record p { next_sub_id = id; msg_subs = (id, []) ∷ p.msg_subs })

unfoldable pub emit_next_node_message : NodeMessage → Peer → Peer
emit_next_node_message nm p = record p {
  msg_subs = map (λ sub. (sub.0, enqueue sub_cap (sub.1) nm)) p.msg_subs;
}

abbrev pub is_block_commit : MessageType → Bool
is_block_commit block_commit = true
is_block_commit _ = false

abbrev pub last_time : Option NodeMessage → ℕ
last_time none = 0
last_time (some nm) = nm.timestamp

module _ {W : Type 0} (e : Env) (c : Calls W) where
  -- The checks before the message is recorded.
  unfoldable pub admit : Peer → NodeMessage → Result (Unit {0})
  admit p nm = do
    guard (e.object_digest nm.genesis_ref == p.genesis_digest) genesis_mismatch
    guard (c.timestamp_valid nm.timestamp) invalid_timestamp
    guard (not (ltb nm.timestamp (last_time p.last_observed))) old_message

  unfoldable pub record_message : Peer → NodeMessage → Peer
  record_message p nm = record p {
    last_observed = some nm;
    stored = if c.state_written then some nm else p.stored;
  }

  -- The message is recorded; what is left to do with it. The answer, the peer and the world of the
  -- handler.
  unfoldable pub deliver : Peer → NodeMessage → W → Result (Unit {0}) × Peer × W
  unfolding emit_next_node_message
  deliver p nm w =
      if ltb c.now nm.timestamp
      then (err future_message, p, w)
      else if ltb max_age (c.now - nm.timestamp)
      then (ok tt, p, w)
      else if is_block_commit nm.message_type
      then (elim (e.follow_block nm.inner_ref) [
        | none ↦ (err unresolved, p, w)
        | some blk ↦ (ok tt, emit_next_node_message nm p, c.handle_block_commit nm.inner_ref w)
      ])
      else (ok tt, emit_next_node_message nm p, w)

  unfoldable pub process_incoming_node_message :
      Peer → NodeMessage → W → Result (Unit {0}) × Peer × W
  unfolding admit record_message deliver
  process_incoming_node_message p nm w = elim (admit p nm) [
    | err x ↦ (err x, p, w)
    | ok _ ↦ deliver (record_message p nm) nm w
  ]

  -- processIncomingPubsubMessage: the sender's id and the reference of the message, which
  -- `follow_message` decrypts with the key of the peer. A key of 0 is empty.
  unfoldable pub open_pubsub_message :
      (Ref → Option NodeMessage) → (ℕ → Option ℕ) → Peer → ℕ → Ref → Result NodeMessage
  open_pubsub_message follow_message unmarshal_key p sender msg_ref = do
    guard (p.peer_id == sender) not_from_peer
    guard (not (e.object_digest msg_ref == 0)) empty_digest
    nm ← or_fail (follow_message msg_ref) unresolved
    guard (not (nm.pub_key == 0)) no_public_key
    key ← or_fail (unmarshal_key nm.pub_key) bad_key
    guard (key == p.pub_key) key_mismatch
    ok nm

  unfoldable pub process_incoming_pubsub_message :
      (Ref → Option NodeMessage)
      → (ℕ → Option ℕ)
      → Peer
      → ℕ
      → Ref
      → W
      → Result (Unit {0}) × Peer × W
  unfolding open_pubsub_message process_incoming_node_message
  process_incoming_pubsub_message follow_message unmarshal_key p sender msg_ref w =
      elim (open_pubsub_message follow_message unmarshal_key p sender msg_ref) [
        | err x ↦ (err x, p, w)
        | ok nm ↦ process_incoming_node_message p nm w
      ]

-- GetPeer, over the peers by id.
unfoldable pub get_peer : ℕ → List Peer → Option Peer
get_peer id [] = none
get_peer id (p ∷ ps) = if p.peer_id == id then some p else get_peer id ps

-- NewPeer, with the state that the database has of it.
unfoldable pub new_peer : ℕ → ℕ → ℕ → Option NodeMessage → Peer
new_peer id key genesis stored = record {
  peer_id = id;
  pub_key = key;
  genesis_digest = genesis;
  last_observed = stored;
  stored = stored;
  next_sub_id = 0;
  msg_subs = [];
}

-- GetPeerWithPubKey: the peer of the key, which is made where there is none, and the peers after it.
-- `read` is what the database has of a peer, or an error.
unfoldable pub get_peer_with_pub_key :
    (ℕ → ℕ) → (ℕ → Result (Option NodeMessage)) → ℕ → ℕ → List Peer → Result (Peer × List Peer)
unfolding get_peer new_peer
get_peer_with_pub_key id_of read genesis key peers = elim (get_peer (id_of key) peers) [
  | some p ↦ ok (p, peers)
  | none ↦ (do
    stored ← read (id_of key)
    ok (new_peer (id_of key) key genesis stored, new_peer (id_of key) key genesis stored ∷ peers))
]
