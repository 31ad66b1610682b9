-- ===== src/Storage/State.antt =====
-- The readState and writeState of the parts of a node, and DbContainer: each reads and writes one
-- object under its key.
pub mod Isolation
use inca_go.Base.{ℕ, Option, none, some, List, [], ◌∷◌}
use inca_go.Result.{Result, ok, err, ◌>>=◌, or_fail, not_stored, unresolved}
use inca_go.Transactions.{Bytes, Db}
use inca_go.Storage.{
  chain_key, segment_key, block_key, node_key, peer_key, proposer_key, validator_key,
  transaction_key, container_key, chat_key,
}

-- How an object is marshaled and unmarshaled: proto.Marshal and proto.Unmarshal of its message, or
-- ToJSON and FromJSON of a container.
pub record Codec (S : Type 0) : Type 0 where
  pub marshal : S → Option Bytes
  pub unmarshal : Bytes → Option S

module _ {D S : Type 0} (db : Db D) (c : Codec S) where
  unfoldable pub write_under : Bytes → S → D → Result D
  write_under k s d = or_fail (c.marshal s) not_stored >>= λ dat. db.set k dat d

  unmarshal_state : S → Option Bytes → Result S
  unmarshal_state s none = ok s
  unmarshal_state s (some dat) = or_fail (c.unmarshal dat) unresolved

  -- The object that is read, or the one that there is where the key does not exist.
  unfoldable pub read_under : Bytes → S → D → Result S
  unfolding unmarshal_state
  read_under k s d = db.get k d >>= unmarshal_state s

  -- The calls, by the ids that their keys are made of.
  module _ (prefixed : Bytes → Bytes → Bytes) where
    unfoldable pub read_chain_state : Bytes → S → D → Result S
    unfolding read_under
    read_chain_state id = read_under (chain_key prefixed id)

    unfoldable pub write_chain_state : Bytes → S → D → Result D
    unfolding write_under
    write_chain_state id = write_under (chain_key prefixed id)

    unfoldable pub read_segment_state : Bytes → Bytes → S → D → Result S
    unfolding read_under
    read_segment_state chain_id id = read_under (segment_key prefixed chain_id id)

    unfoldable pub write_segment_state : Bytes → Bytes → S → D → Result D
    unfolding write_under
    write_segment_state chain_id id = write_under (segment_key prefixed chain_id id)

    unfoldable pub read_block_state : Bytes → S → D → Result S
    unfolding read_under
    read_block_state id = read_under (block_key prefixed id)

    unfoldable pub write_block_state : Bytes → S → D → Result D
    unfolding write_under
    write_block_state id = write_under (block_key prefixed id)

    unfoldable pub read_node_state : Bytes → S → D → Result S
    unfolding read_under
    read_node_state addr = read_under (node_key prefixed addr)

    unfoldable pub write_node_state : Bytes → S → D → Result D
    unfolding write_under
    write_node_state addr = write_under (node_key prefixed addr)

    unfoldable pub read_peer_state : Bytes → S → D → Result S
    unfolding read_under
    read_peer_state peer_id = read_under (peer_key prefixed peer_id)

    unfoldable pub write_peer_state : Bytes → S → D → Result D
    unfolding write_under
    write_peer_state peer_id = write_under (peer_key prefixed peer_id)

    unfoldable pub read_proposer_state : Bytes → S → D → Result S
    unfolding read_under
    read_proposer_state pid = read_under (proposer_key prefixed pid)

    unfoldable pub write_proposer_state : Bytes → S → D → Result D
    unfolding write_under
    write_proposer_state pid = write_under (proposer_key prefixed pid)

    unfoldable pub read_validator_state : Bytes → S → D → Result S
    unfolding read_under
    read_validator_state pid = read_under (validator_key prefixed pid)

    unfoldable pub write_validator_state : Bytes → S → D → Result D
    unfolding write_under
    write_validator_state pid = write_under (validator_key prefixed pid)

    unfoldable pub set_entry : Bytes → S → D → Result D
    unfolding write_under
    set_entry id = write_under (transaction_key prefixed id)

    -- The entry, or `s` where getEntry gives nil: there is no entry, or the id is empty.
    unfoldable pub get_entry_or : Bytes → S → D → Result S
    unfolding read_under
    get_entry_or [] s d = ok s
    get_entry_or (b ∷ id) s d = read_under (transaction_key prefixed (b ∷ id)) s d

    unfoldable pub read_chat_state : S → D → Result S
    unfolding read_under
    read_chat_state = read_under (chat_key prefixed)

    unfoldable pub read_container : Bytes → S → D → Result S
    unfolding read_under
    read_container id = read_under (container_key prefixed id)

    unfoldable pub write_container : Bytes → S → D → Result D
    unfolding write_under
    write_container id = write_under (container_key prefixed id)
