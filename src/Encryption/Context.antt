-- ===== src/Encryption/Context.antt =====
-- chain/chain.go, GetEncryptContext and GetEncryptContextWithDigest: the configuration for an object
-- of the chain by its type, from those of encryption/convergentimmutable for blocks.
use inca_go.Base.{◌≡◌, ap, subst, [], inl, inr, Option, none, some, arith}
use inca_go.Result.{Result, ok, ◌>>=◌, Result-cases}
use inca_go.Transactions.{Bytes}
use inca_go.Encryption.{
  Strategy, EncConfig, nonce_of, get_encryption_config, get_encryption_config_with_digest,
  get_node_message_encryption_config,
}
use inca_go.Encryption.Nonce.{Box, Inverse, seal_with, open_with, sealed_lem}

-- The types that the switches tell apart.
pub data ObjectType : Type 0 where
  validator_set chain_config block_header another : ObjectType

abbrev get_block_encryption_config : (Bytes → Result Bytes) → Strategy → EncConfig
get_block_encryption_config digest_data s = get_encryption_config digest_data s

abbrev get_block_encryption_config_with_digest : Strategy → Bytes → Result EncConfig
get_block_encryption_config_with_digest s digest = get_encryption_config_with_digest s digest

-- The context that has the configuration, or a nil one.
unfoldable pub get_encrypt_context :
    (Bytes → Result Bytes) → Strategy → ObjectType → Option EncConfig
get_encrypt_context digest_data s validator_set = some (get_block_encryption_config digest_data s)
get_encrypt_context digest_data s chain_config = some (get_block_encryption_config digest_data s)
get_encrypt_context digest_data s block_header = some (get_block_encryption_config digest_data s)
get_encrypt_context digest_data s another = none

abbrev with_digest : Strategy → Bytes → Result (Option EncConfig)
with_digest s digest = get_block_encryption_config_with_digest s digest >>= λ c. ok (some c)

unfoldable pub get_encrypt_context_with_digest :
    Strategy → Bytes → ObjectType → Result (Option EncConfig)
get_encrypt_context_with_digest s digest validator_set = with_digest s digest
get_encrypt_context_with_digest s digest chain_config = with_digest s digest
get_encrypt_context_with_digest s digest block_header = with_digest s digest
get_encrypt_context_with_digest s digest another = ok none

block_opens :
    (b : Box) (digest_data : Bytes → Result Bytes) (s : Strategy) (message sealed digest : Bytes)
    → Inverse b
    → digest_data message ≡ ok digest
    → seal_with b (get_block_encryption_config digest_data s) message ≡ ok sealed
    → (c : EncConfig) × (with_digest s digest ≡ ok (some c))
      × (open_with b c sealed ≡ ok (some message))
unfolding seal_with open_with get_encryption_config_with_digest get_node_message_encryption_config
block_opens b digest_data s message sealed digest opens digested h =
    elim (Result-cases (nonce_of digest)) [
      | inr (x, short) ↦ absurd (ground (arith, digested, short, get_encryption_config))
      | inl (nonce, long) ↦ (
        record {
          resource_lookup = λ resource. ok (record resource { key = s.key; nonce = nonce });
          signer_keys = [];
          verify_keys = [];
        },
        ground (arith, long),
        rw (← sealed_lem b digest_data s 0 message sealed digest nonce digested long h)
            (ap ok (opens s.key nonce message)),
      )
    ]

of_block :
    (b : Box) (digest_data : Bytes → Result Bytes) (s : Strategy) (conf : EncConfig)
    (message sealed : Bytes)
    → some (get_block_encryption_config digest_data s) ≡ some conf
    → seal_with b conf message ≡ ok sealed
    → seal_with b (get_block_encryption_config digest_data s) message ≡ ok sealed
of_block b digest_data s conf message sealed is h =
    let same : conf ≡ get_block_encryption_config digest_data s = cc in
    subst (λ c. seal_with b c message ≡ ok sealed) same h

-- An object of the chain that is sealed under the context for its type is opened under the context
-- for its type and its digest; for another type both contexts are nil.
encrypt_context_opens :
    (b : Box) (digest_data : Bytes → Result Bytes) (s : Strategy) (o : ObjectType)
    (conf : EncConfig) (message sealed digest : Bytes)
    → Inverse b
    → digest_data message ≡ ok digest
    → get_encrypt_context digest_data s o ≡ some conf
    → seal_with b conf message ≡ ok sealed
    → (c : EncConfig) × (get_encrypt_context_with_digest s digest o ≡ ok (some c))
      × (open_with b c sealed ≡ ok (some message))
unfolding get_encrypt_context get_encrypt_context_with_digest
encrypt_context_opens b digest_data s validator_set conf message sealed digest opens digested is h =
    block_opens b digest_data s message sealed digest opens digested
      (of_block b digest_data s conf message sealed is h)
encrypt_context_opens b digest_data s chain_config conf message sealed digest opens digested is h =
    block_opens b digest_data s message sealed digest opens digested
      (of_block b digest_data s conf message sealed is h)
encrypt_context_opens b digest_data s block_header conf message sealed digest opens digested is h =
    block_opens b digest_data s message sealed digest opens digested
      (of_block b digest_data s conf message sealed is h)
encrypt_context_opens b digest_data s another conf message sealed digest opens digested is h =
    absurd (ground arith)
