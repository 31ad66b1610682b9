-- ===== src/Node.antt =====
-- node/node.go: the outbox of a node, whose messages form a chain, and the inbox, which hands each
-- message to the peer that it names.
pub mod Links
pub mod Start
pub mod Inbox
use inca_go.Base.{ℕ, Bool, true, false, Option, none, some, List, [], ◌∷◌, if◌then◌else◌}
use inca_go.Wire.{Ref, MessageType, NodeMessage, Env}
use inca_go.Result.{Error, Result, ok, err, not_stored, db_error, unresolved}
use inca_go.Peer.{Peer, get_peer}

-- The fields of Node that sending changes: NodeState.LastMsgRef, in memory and in the database, and
-- the messages that were published, newest first, each with its reference.
pub record Outbox : Type 0 where
  pub last_msg_ref : Ref
  pub stored_msg_ref : Ref
  pub published : List (Ref × NodeMessage)

-- SendMessage: the message that is put into the outbox channel.
unfoldable pub send_message : ℕ → Ref → ℕ → MessageType → ℕ → Ref → NodeMessage
send_message now genesis_ref own_key msg_type app_msg_type inner_ref = record {
  message_type = msg_type;
  genesis_ref = genesis_ref;
  prev_msg_ref = 0;
  inner_ref = inner_ref;
  timestamp = now;
  app_message_type = app_msg_type;
  pub_key = own_key;
}

-- What sending meets outside: the clock, the object store, the database and the pubsub shell.
pub record Network : Type 0 where
  pub now : ℕ
  pub store_message : NodeMessage → Option Ref
  pub state_written : Bool
  pub published : Bool

-- The message that pubsubSendMsg stores: linked to the last one, with the time of its sending.
unfoldable pub linked : Network → Outbox → NodeMessage → NodeMessage
linked net o msg = record msg { prev_msg_ref = o.last_msg_ref; timestamp = net.now }

unfoldable pub pubsub_send_msg : Network → NodeMessage → Outbox → Result (Unit {0}) × Outbox
unfolding linked
pubsub_send_msg net msg o = elim (net.store_message (linked net o msg)) [
  | none ↦ (err not_stored, o)
  | some msg_ref ↦
      if net.state_written
      then (if net.published
          then (
            ok tt,
            record {
              last_msg_ref = msg_ref;
              stored_msg_ref = msg_ref;
              published = (msg_ref, linked net o msg) ∷ o.published;
            },
          )
          else (err unresolved, record o { last_msg_ref = msg_ref; stored_msg_ref = msg_ref }))
      else (err db_error, record o { last_msg_ref = msg_ref })
]

-- processNode over the messages of the outbox channel: an error is logged.
unfoldable pub process_outbox : List (Network × NodeMessage) → Outbox → Outbox
process_outbox [] o = o
process_outbox ((net, msg) ∷ rest) o = process_outbox rest (pubsub_send_msg net msg o).1

-- What the loop of processNode waits for.
pub data Signal : Type 0 where
  outgoing : Network → NodeMessage → Signal
  internal_error closing : Signal

-- processNode, over what comes: it ends with an error of the proposer, of the validator or of the
-- inbox, and when the process closes.
unfoldable pub process_node : List Signal → Outbox → Outbox
unfolding pubsub_send_msg
process_node [] o = o
process_node (outgoing net msg ∷ rest) o = process_node rest (pubsub_send_msg net msg o).1
process_node (internal_error ∷ rest) o = o
process_node (closing ∷ rest) o = o

-- A record of the pubsub channel: the data decodes to a message, whose peer id decodes; the peer is
-- known. `deliver` is Peer.ProcessNodePubsubMessage.
unfoldable pub process_pub_sub_record :
    {W : Type 0}
    → (ℕ → Option (ℕ × Ref))
    → (ℕ → Option ℕ)
    → (Peer → ℕ → Ref → W → W)
    → (W → List Peer)
    → ℕ
    → W
    → W
process_pub_sub_record decode decode_id deliver peers dat w = elim (decode dat) [
  | none ↦ w
  | some (sender, msg_ref) ↦ elim (decode_id sender) [
    | none ↦ w
    | some id ↦ elim (get_peer id (peers w)) [ none ↦ w | some p ↦ deliver p sender msg_ref w ]
  ]
]
