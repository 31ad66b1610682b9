-- ===== src/Encryption.antt =====
-- encryption/impl and encryption/convergentimmutable: the registry of encryption strategies, and the
-- strategy whose key is shared and whose nonce comes from the digest of what it encrypts.
pub mod Nonce
pub mod Registry
pub mod Context
use inca_go.Base.{
  ℕ, ◌-◌, Bool, true, false, not, Option, none, some, List, [], ◌∷◌, ◌++◌, ltb, ◌==◌, if◌then◌else◌,
  length, drop,
}
use inca_go.Result.{
  Result, ok, err, ◌>>=◌, ◌>>◌, guard, or_fail, unresolved, duplicate_impl, unknown_strategy,
  no_strategy, bad_psk, no_decryption, panics,
}
use inca_go.Transactions.{Bytes}

-- Strategy: its key. The configuration is the same bytes.
pub record Strategy : Type 0 where
  pub key : Bytes
  pub pre_shared_key : Bytes

-- The secretbox resource that a resolver fills in, with the message that is encrypted; it is empty
-- where a box is opened.
pub record Resource : Type 0 where
  pub message : Bytes
  pub key : Bytes
  pub nonce : Bytes

-- pbobject.EncryptionConfig: its resolver, and the keys that sign and that verify.
pub record EncConfig : Type 0 where
  pub resource_lookup : Resource → Result Resource
  pub signer_keys : List ℕ
  pub verify_keys : List ℕ

-- `digest[len(digest)-24:]`, which panics on fewer bytes.
unfoldable pub nonce_of : Bytes → Result Bytes
nonce_of digest =
    if ltb (length digest) 24 then err panics else ok (drop (length digest - 24) digest)

abbrev is_empty : Bytes → Bool
is_empty [] = true
is_empty (b ∷ bs) = false

-- GetEncryptionConfig; `digest_data` is the digest of the object database.
unfoldable pub get_encryption_config : (Bytes → Result Bytes) → Strategy → EncConfig
unfolding nonce_of
get_encryption_config digest_data s = record {
  resource_lookup = λ resource. do
    guard (not (is_empty resource.message)) no_decryption
    digest ← digest_data resource.message
    nonce ← nonce_of digest
    ok (record resource { key = s.key; nonce = nonce });
  signer_keys = [];
  verify_keys = [];
}

-- GetEncryptionConfigWithDigest
unfoldable pub get_encryption_config_with_digest : Strategy → Bytes → Result EncConfig
unfolding nonce_of
get_encryption_config_with_digest s digest = do
  nonce ← nonce_of digest
  ok (record {
    resource_lookup = λ resource. ok (record resource { key = s.key; nonce = nonce });
    signer_keys = [];
    verify_keys = [];
  })

-- The configurations of node messages.
unfoldable pub get_node_message_encryption_config :
    (Bytes → Result Bytes) → Strategy → ℕ → EncConfig
unfolding get_encryption_config
get_node_message_encryption_config digest_data s priv =
    let c = get_encryption_config digest_data s in
    record c { signer_keys = c.signer_keys ++ priv ∷ [] }

unfoldable pub get_node_message_encryption_config_with_digest :
    Strategy → ℕ → Bytes → Result EncConfig
unfolding get_encryption_config_with_digest
get_node_message_encryption_config_with_digest s pub_key digest = do
  c ← get_encryption_config_with_digest s digest
  ok (record c { verify_keys = c.verify_keys ++ pub_key ∷ [] })

-- NewConvergentImmutableStrategy, with the 32 bytes that rand.Read gives, and BuildArgs. `encode`
-- and `decode` are the wire form of the configuration.
unfoldable pub new_convergent_immutable_strategy : Result Bytes → Result Strategy
new_convergent_immutable_strategy random = do
  key ← random
  ok (record { key = key; pre_shared_key = key })

unfoldable pub build_args : (Bytes → Result Bytes) → Strategy → Result Bytes
build_args encode s = encode s.pre_shared_key

unfoldable pub new_convergent_immutable_strategy_from_config :
    (Bytes → Result Bytes) → Bytes → Result Strategy
new_convergent_immutable_strategy_from_config decode conf = do
  psk ← decode conf
  guard (length psk == 32) bad_psk
  ok (record { key = psk; pre_shared_key = psk })

-- The constructors by the kind of strategy.
abbrev pub Ctor : Type 0
Ctor = Bytes → Result Strategy

abbrev pub Ctors : Type 0
Ctors = List (ℕ × Ctor)

unfoldable pub find_ctor : ℕ → Ctors → Option Ctor
find_ctor kind [] = none
find_ctor kind ((k, ctor) ∷ rest) = if k == kind then some ctor else find_ctor kind rest

unfoldable pub register_encryption_strategy_ctor : ℕ → Ctor → Ctors → Result Ctors
unfolding find_ctor
register_encryption_strategy_ctor kind ctor ctors = elim (find_ctor kind ctors) [
  | some _ ↦ err duplicate_impl
  | none ↦ ok ((kind, ctor) ∷ ctors)
]

-- `is_known`: the kind has a name.
unfoldable pub get_encryption_strategy_ctor : (ℕ → Bool) → ℕ → Ctors → Result Ctor
unfolding find_ctor
get_encryption_strategy_ctor is_known kind ctors = do
  guard (is_known kind) unknown_strategy
  or_fail (find_ctor kind ctors) no_strategy

unfoldable pub build_encryption_strategy : (ℕ → Bool) → ℕ → Bytes → Ctors → Result Strategy
unfolding get_encryption_strategy_ctor
build_encryption_strategy is_known kind args ctors = do
  ctor ← get_encryption_strategy_ctor is_known kind ctors
  ctor args
