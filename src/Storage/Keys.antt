-- ===== src/Storage/Keys.antt =====
-- A key tells whose state is under it.
use inca_go.Base.{
  ◌≡◌, ◌≢◌, refl, ap, ◌∙◌, Option, none, some, [], ◌∷◌, ◌++◌, arith, All, ◌==◌, if◌then◌else◌,
}
use mathlib.Core.List.{append_assoc}
use inca_go.Transactions.{Bytes}
use inca_go.Storage.{
  codes, Owner, chain_state, block_state, node_state, peer_state, proposer_state, validator_state,
  segment_state, transaction_info, container, chat_state, key, segment_key, block_key, node_key,
  peer_key, proposer_key, validator_key, transaction_key,
}

-- What is left of a text behind a start, if it starts with it.
abbrev strip : Bytes → Bytes → Option Bytes
strip [] bs = some bs
strip (c ∷ cs) [] = none
strip (c ∷ cs) (b ∷ bs) = let rest = strip cs bs in if c == b then rest else none

-- A text up to its first slash, and the text from there on.
abbrev until_slash : Bytes → Bytes × Bytes
until_slash [] = ([], [])
until_slash (b ∷ bs) =
    let (word, rest) = until_slash bs in if b == 47 then ([], b ∷ bs) else (b ∷ word, rest)

abbrev or_else {ℓ} : {A : Type ℓ} → Option A → Option A → Option A
or_else (some x) y = some x
or_else none y = y

abbrev try : Bytes → Bytes → (Bytes → Owner) → Option Owner → Option Owner
try start k owner next = elim (strip start k) [ some rest ↦ some (owner rest) | none ↦ next ]

abbrev of_chain : Bytes × Bytes → Owner
of_chain (id, rest) = elim (strip (codes "/segments/") rest) [
  | some s ↦ segment_state id s
  | none ↦ chain_state id
]

-- Whose state is under a key.
unfoldable pub owner_of : Bytes → Option Owner
owner_of k =
    try (codes "/chain/") k (λ bs. of_chain (until_slash bs))
      (try (codes "/blocks/") k block_state (
        try (codes "/node/") k (λ bs. node_state (until_slash bs).0)
          (try (codes "/peers/") k (λ bs. peer_state (until_slash bs).0)
            (try (codes "/proposer/") k (λ bs. proposer_state (until_slash bs).0)
              (try (codes "/validator/") k (λ bs. validator_state (until_slash bs).0)
                (try (codes "/txdb/") k transaction_info (
                  try (codes "/dbcontainer/") k container
                    (try (codes "/chat-state") k (λ bs. chat_state) none))))))))

-- No byte is a slash.
abbrev pub NoSlash : Bytes → Type 0
NoSlash = All (λ b. b ≢ 47)

-- The ids of chains and of keys have no slash. The ids of blocks, in base64, may have one.
abbrev pub Plain : Owner → Type 0
Plain (chain_state id) = NoSlash id
Plain (segment_state chain_id id) = NoSlash chain_id
Plain (node_state addr) = NoSlash addr
Plain (peer_state peer_id) = NoSlash peer_id
Plain (proposer_state pid) = NoSlash pid
Plain (validator_state pid) = NoSlash pid
Plain _ = Unit

until_slash-append : (w r : Bytes) → NoSlash w → until_slash (w ++ 47 ∷ r) ≡ (w, 47 ∷ r)
until_slash-append [] r plain = refl
until_slash-append (b ∷ w) r (other, plain) = ground (arith, other, until_slash-append w r plain)

until_slash_all : (w : Bytes) → NoSlash w → until_slash w ≡ (w, [])
until_slash_all [] plain = refl
until_slash_all (b ∷ w) (other, plain) = ground (arith, other, until_slash_all w plain)

module _ (prefixed : Bytes → Bytes → Bytes) where
  -- From its key alone it can be told whose state it is, so no two parts of a node write under the
  -- same key: not another part, and not the same part of another chain, segment, block or key. The
  -- ids of chains and keys have no slash, and a prefix is put in front of the key.
  pub owner_of-key :
      (o : Owner)
      → ((p k : Bytes) → prefixed p k ≡ p ++ k)
      → Plain o
      → owner_of (key prefixed o) ≡ some o
  unfolding owner_of key segment_key block_key node_key peer_key proposer_key validator_key
      transaction_key
  owner_of-key (chain_state id) prefixes plain =
      ap (λ r. some (of_chain r)) (until_slash_all id plain)
  owner_of-key (segment_state chain_id id) prefixes plain =
      ap owner_of (prefixes (codes "/chain/" ++ (chain_id ++ codes "/segments")) (codes "/" ++ id))
      ∙ (ap (λ bs. some (of_chain (until_slash bs)))
            (append_assoc chain_id (codes "/segments") (codes "/" ++ id))
          ∙ ap (λ r. some (of_chain r))
              (until_slash-append chain_id (codes "segments/" ++ id) plain))
  owner_of-key (block_state id) prefixes plain =
      ap owner_of (prefixes (codes "/blocks") (codes "/" ++ id))
  owner_of-key (node_state addr) prefixes plain =
      ap owner_of (prefixes (codes "/node/" ++ addr) (codes "/state"))
      ∙ ap (λ r. some (node_state (r.0))) (until_slash-append addr (codes "state") plain)
  owner_of-key (peer_state peer_id) prefixes plain =
      ap (λ k. owner_of (prefixed (codes "/peers") k))
        (prefixes (codes "/" ++ peer_id) (codes "/state"))
      ∙ (ap owner_of (prefixes (codes "/peers") (codes "/" ++ (peer_id ++ codes "/state")))
          ∙ ap (λ r. some (peer_state (r.0))) (until_slash-append peer_id (codes "state") plain))
  owner_of-key (proposer_state pid) prefixes plain =
      ap owner_of (prefixes (codes "/proposer/" ++ pid) (codes "/state"))
      ∙ ap (λ r. some (proposer_state (r.0))) (until_slash-append pid (codes "state") plain)
  owner_of-key (validator_state pid) prefixes plain =
      ap owner_of (prefixes (codes "/validator/" ++ pid) (codes "/state"))
      ∙ ap (λ r. some (validator_state (r.0))) (until_slash-append pid (codes "state") plain)
  owner_of-key (transaction_info id) prefixes plain =
      ap owner_of (prefixes (codes "/txdb") (codes "/" ++ id))
  owner_of-key (container id) prefixes plain = refl
  owner_of-key chat_state prefixes plain = refl
