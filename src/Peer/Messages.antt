-- ===== src/Peer/Messages.antt =====
-- Which messages a peer accepts, and what it remembers of them.
use inca_go.Base.{◌+◌, ◌≤◌, ◌<◌, ◌≡◌, ◌≢◌, true, some, arith}
use inca_go.Wire.{NodeMessage, Env}
use inca_go.Result.{ok, err, old_message, future_message}
use inca_go.Peer.{
  Peer, Calls, last_time, max_age, admit, record_message, process_incoming_node_message,
}

module _ {W : Type 0} (e : Env) (c : Calls W) where
  -- A message reaches the subscribers only if it is of the peer's chain, is no older than the last
  -- one observed, is at most two minutes old and is not from the future; it is the last observed
  -- message then.
  pub process_incoming_node_message-emits :
      (p : Peer) (nm : NodeMessage) (w : W)
      → (process_incoming_node_message e c p nm w).1.msg_subs ≢ p.msg_subs
      → (e.object_digest nm.genesis_ref ≡ p.genesis_digest)
        × (last_time p.last_observed ≤ nm.timestamp)
        × (nm.timestamp ≤ c.now)
        × (c.now ≤ nm.timestamp + max_age)
        × ((process_incoming_node_message e c p nm w).1.last_observed ≡ some nm)
  unfolding process_incoming_node_message
  process_incoming_node_message-emits p nm w changed =
      (ground arith, ground arith, ground arith, ground arith, ground arith)

  recorded :
      (p : Peer) (nm : NodeMessage) (w : W)
      → admit e c p nm ≡ ok tt
      → c.now < nm.timestamp
      → process_incoming_node_message e c p nm w ≡ (err future_message, record_message e c p nm, w)
  unfolding process_incoming_node_message
  recorded p nm w admitted future = ground arith

  -- A message of the future that passes the checks of chain and order is refused, and is recorded
  -- all the same: a message of the same chain that comes next with an earlier time is refused as old.
  future_message_poisons :
      (p : Peer) (nm later : NodeMessage) (w : W)
      → admit e c p nm ≡ ok tt
      → c.now < nm.timestamp
      → later.timestamp < nm.timestamp
      → e.object_digest later.genesis_ref ≡ p.genesis_digest
      → c.timestamp_valid later.timestamp ≡ true
      → (process_incoming_node_message e c (process_incoming_node_message e c p nm w).1 later w).0
        ≡ err old_message
  unfolding process_incoming_node_message
  future_message_poisons p nm later w admitted future older same_chain well_formed =
      let refused : process_incoming_node_message e c p nm w
          ≡ (err future_message, record_message e c p nm, w) =
        recorded p nm w admitted future in
      rw refused (ground arith)
