-- ===== src/Storage.antt =====
-- The keys under which the parts of a node keep their states in the one key-value database that they
-- share: chain/chain.go, chain/proposer.go, chain/validator.go, segment/segment.go, block/block.go,
-- peer/peer.go, node/node.go, utils/transaction/txdb, utils/dbcontainer and examples/chat.
pub mod Keys
pub mod State
use Prim.Native.Char.{code}
use Prim.Native.String
use Prim.Native.String.{String}
use inca_go.Base.{ℕ, List, [], ◌∷◌, ◌++◌}
use inca_go.Transactions.{Bytes}

-- The bytes of a text, which is ASCII here.
abbrev pub codes : String → Bytes
codes String.[] = []
codes (String.◌∷◌ c s) = code c ∷ codes s

-- Whose state it is: by the id of the chain, of the segment in its chain, of the block, of the key
-- of the node, the peer, the proposer or the validator, of the transaction and of the container.
pub data Owner : Type 0 where
  chain_state block_state node_state peer_state proposer_state validator_state : Bytes → Owner
  segment_state : Bytes → Bytes → Owner
  transaction_info container : Bytes → Owner
  chat_state : Owner

-- `prefixed p k` is the key of the database that db.WithPrefix with the prefix `p` uses for `k`.
module _ (prefixed : Bytes → Bytes → Bytes) where
  unfoldable pub chain_key : Bytes → Bytes
  chain_key id = codes "/chain/" ++ id

  unfoldable pub segment_key : Bytes → Bytes → Bytes
  segment_key chain_id id =
      prefixed (codes "/chain/" ++ (chain_id ++ codes "/segments")) (codes "/" ++ id)

  unfoldable pub block_key : Bytes → Bytes
  block_key id = prefixed (codes "/blocks") (codes "/" ++ id)

  unfoldable pub node_key : Bytes → Bytes
  node_key addr = prefixed (codes "/node/" ++ addr) (codes "/state")

  unfoldable pub peer_key : Bytes → Bytes
  peer_key peer_id = prefixed (codes "/peers") (prefixed (codes "/" ++ peer_id) (codes "/state"))

  unfoldable pub proposer_key : Bytes → Bytes
  proposer_key pid = prefixed (codes "/proposer/" ++ pid) (codes "/state")

  unfoldable pub validator_key : Bytes → Bytes
  validator_key pid = prefixed (codes "/validator/" ++ pid) (codes "/state")

  unfoldable pub transaction_key : Bytes → Bytes
  transaction_key id = prefixed (codes "/txdb") (codes "/" ++ id)

  unfoldable pub container_key : Bytes → Bytes
  container_key id = codes "/dbcontainer/" ++ id

  unfoldable pub chat_key : Bytes
  chat_key = codes "/chat-state"

  unfoldable pub key : Owner → Bytes
  unfolding chain_key segment_key block_key node_key peer_key proposer_key validator_key
      transaction_key container_key chat_key
  key (chain_state id) = chain_key id
  key (segment_state chain_id id) = segment_key chain_id id
  key (block_state id) = block_key id
  key (node_state addr) = node_key addr
  key (peer_state peer_id) = peer_key peer_id
  key (proposer_state pid) = proposer_key pid
  key (validator_state pid) = validator_key pid
  key (transaction_info id) = transaction_key id
  key (container id) = container_key id
  key chat_state = chat_key
