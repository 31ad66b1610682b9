-- ===== src/Encryption/Nonce.antt =====
-- What is encrypted can be decrypted by its digest.
use inca_go.Base.{ℕ, ap, ◌≡◌, refl, ◌≢◌, inl, inr, Option, some, [], ◌∷◌, arith}
use inca_go.Result.{Result, ok, ◌>>=◌, Result-cases}
use inca_go.Transactions.{Bytes}
use inca_go.Encryption.{
  Strategy, EncConfig, nonce_of, get_node_message_encryption_config,
  get_node_message_encryption_config_with_digest,
}

-- The secret box, under a key and a nonce.
pub record Box : Type 0 where
  pub seal : Bytes → Bytes → Bytes → Bytes
  pub unseal : Bytes → Bytes → Bytes → Option Bytes

-- A box opens under the key and the nonce that it was sealed with.
abbrev pub Inverse : Box → Type 0
Inverse b =
    (key nonce message : Bytes) → b.unseal key nonce (b.seal key nonce message) ≡ some message

unfoldable pub seal_with : Box → EncConfig → Bytes → Result Bytes
seal_with b c message =
    c.resource_lookup (record { message = message; key = []; nonce = [] }) >>= λ r.
    ok (b.seal r.key r.nonce message)

unfoldable pub open_with : Box → EncConfig → Bytes → Result (Option Bytes)
open_with b c sealed = c.resource_lookup (record { message = []; key = []; nonce = [] }) >>= λ r.
    ok (b.unseal r.key r.nonce sealed)

pub sealed_lem :
    (b : Box) (digest_data : Bytes → Result Bytes) (s : Strategy) (priv : ℕ)
    (message sealed digest nonce : Bytes)
    → digest_data message ≡ ok digest
    → nonce_of digest ≡ ok nonce
    → seal_with b (get_node_message_encryption_config digest_data s priv) message ≡ ok sealed
    → b.seal s.key nonce message ≡ sealed
unfolding seal_with get_node_message_encryption_config
sealed_lem b digest_data s priv [] sealed digest nonce digested long h = ground arith
sealed_lem b digest_data s priv (x ∷ message) sealed digest nonce digested long h =
    ground (arith, digested, long)

-- A node message that is sealed under the configuration of its sender is opened by whoever has the
-- strategy, the digest of the message and the sender's public key, which alone verifies it. The
-- configuration that seals opens nothing.
pub node_message_opens :
    (b : Box) (digest_data : Bytes → Result Bytes) (s : Strategy) (priv pub_key : ℕ)
    (message sealed digest : Bytes)
    → Inverse b
    → digest_data message ≡ ok digest
    → seal_with b (get_node_message_encryption_config digest_data s priv) message ≡ ok sealed
    → (c : EncConfig) × (get_node_message_encryption_config_with_digest s pub_key digest ≡ ok c)
      × (open_with b c sealed ≡ ok (some message))
      × (c.verify_keys ≡ pub_key ∷ [])
      × ((m : Bytes)
          → open_with b (get_node_message_encryption_config digest_data s priv) sealed
            ≢ ok (some m))
unfolding seal_with open_with get_node_message_encryption_config
    get_node_message_encryption_config_with_digest
node_message_opens b digest_data s priv pub_key message sealed digest opens digested h =
    elim (Result-cases (nonce_of digest)) [
      | inr (x, short) ↦ absurd (ground (arith, digested, short))
      | inl (nonce, long) ↦ (
        record {
          resource_lookup = λ resource. ok (record resource { key = s.key; nonce = nonce });
          signer_keys = [];
          verify_keys = pub_key ∷ [];
        },
        ground (arith, long),
        rw (← sealed_lem b digest_data s priv message sealed digest nonce digested long h)
            (ap ok (opens s.key nonce message)),
        refl,
        λ m e. cc,
      )
    ]
