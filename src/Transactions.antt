-- ===== src/Transactions.antt =====
-- utils/transaction/transaction.go and utils/transaction/txdb: transactions, which are node messages
-- of the application, and the database that keeps their references by id. Strings are lists of bytes.
pub mod Lookup
pub mod Ids
use inca_go.Base.{
  ℕ, zero, suc, ◌+◌, ◌/◌, ◌%◌, Bool, true, false, not, Option, none, some, List, [], ◌∷◌, ◌++◌, ltb,
  ◌==◌, if◌then◌else◌,
}
use inca_go.Wire.{Ref, MessageType, app, NodeMessage}
use inca_go.Result.{
  Result, ok, err, ◌>>=◌, ◌>>◌, guard, or_fail, bad_key, unresolved, not_app_message,
  wrong_app_type, no_timestamp, not_stored,
}

abbrev pub Bytes : Type 0
Bytes = List ℕ

pub record Transaction : Type 0 where
  pub id : Bytes
  pub node_message : NodeMessage
  pub node_message_ref : Option Ref
  pub inner_ref : Ref

-- What the transactions use of libraries: keys and their bytes, sha1, the wire form of an info, and
-- the object store.
pub record Libs : Type 0 where
  pub unmarshal_key : ℕ → Option ℕ
  pub key_bytes : ℕ → Option Bytes
  pub sha1 : Bytes → Bytes
  pub app_message_id : ℕ
  pub marshal : Ref → Option Bytes
  pub unmarshal : Bytes → Option Ref
  pub follow_message : Ref → Option NodeMessage

-- The `n` bytes of a number, the lowest first.
unfoldable pub le_bytes : ℕ → ℕ → Bytes
le_bytes zero x = []
le_bytes (suc n) x = x % 256 ∷ le_bytes n (x / 256)

-- A digit of a lower-case hexadecimal number.
unfoldable pub hex_digit : ℕ → ℕ
hex_digit d = if ltb d 10 then 48 + d else 87 + d

unfoldable pub hex : Bytes → Bytes
unfolding hex_digit
hex [] = []
hex (b ∷ bs) = hex_digit (b / 16) ∷ hex_digit (b % 16) ∷ hex bs

-- GetTimeUnixMs of the time, which is in nanoseconds here.
abbrev pub unix_ms : NodeMessage → ℕ
unix_ms nm = nm.timestamp / 1000000

-- ComputeTxID: where the key has no bytes, the id is empty and there is no error.
unfoldable pub compute_tx_id : Libs → ℕ → ℕ → Bytes
unfolding le_bytes hex
compute_tx_id l ms key = elim (l.key_bytes key) [
  | none ↦ []
  | some bytes ↦ hex (l.sha1 (le_bytes 8 ms ++ bytes))
]

abbrev pub is_app : MessageType → Bool
is_app app = true
is_app _ = false

unfoldable pub from_node_message : Libs → NodeMessage → Result Transaction
unfolding compute_tx_id
from_node_message l nm = do
  key ← or_fail (l.unmarshal_key nm.pub_key) bad_key
  guard (is_app nm.message_type) not_app_message
  guard (nm.app_message_type == l.app_message_id) wrong_app_type
  guard (not (unix_ms nm == 0)) no_timestamp
  ok (record {
    id = compute_tx_id l (unix_ms nm) key;
    node_message = nm;
    node_message_ref = none;
    inner_ref = nm.inner_ref;
  })

-- The datastore.
pub record Db (D : Type 0) : Type 0 where
  pub get : Bytes → D → Result (Option Bytes)
  pub set : Bytes → Bytes → D → Result D

-- A slash and the id.
abbrev pub get_id_key : Bytes → Bytes
get_id_key id = 47 ∷ id

module _ {D : Type 0} (l : Libs) (db : Db D) where
  -- A TransactionInfo is its reference.
  read_entry : Option Bytes → Result (Option Ref)
  read_entry none = ok none
  read_entry (some dat) = or_fail (l.unmarshal dat) unresolved >>= λ info. ok (some info)

  unfoldable pub get_entry : Bytes → D → Result (Option Ref)
  unfolding read_entry
  get_entry [] d = ok none
  get_entry (c ∷ cs) d = db.get (get_id_key (c ∷ cs)) d >>= read_entry

  -- Put; setEntry does the same.
  unfoldable pub put : Bytes → Ref → D → Result D
  put id r d = or_fail (l.marshal r) not_stored >>= λ dat. db.set (get_id_key id) dat d

  resolve : Option Ref → Result (Option Transaction)
  unfolding from_node_message
  resolve none = ok none
  resolve (some r) = do
    nm ← or_fail (l.follow_message r) unresolved
    tx ← from_node_message l nm
    ok (some (record tx { node_message_ref = some r }))

  unfoldable pub get_tx : Bytes → D → Result (Option Transaction)
  unfolding get_entry resolve
  get_tx id d = get_entry id d >>= resolve
