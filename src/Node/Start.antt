-- ===== src/Node/Start.antt =====
-- node/node.go, NewNode with readGenesisState, and the store of peers that it fills.
use inca_go.Base.{
  ℕ, ◌≡◌, subst, inl, inr, Option, none, some, List, [], ◌∷◌, arith, All, Option-cases,
}
use inca_go.Wire.{Ref, NodeMessage, Validator, ValidatorSet, ChainConfig, Env}
use inca_go.Result.{Result, ok, Result-cases, ◌>>=◌, ◌>>◌, or_fail, bad_key, unresolved}
use inca_go.Chain.New.{Genesis, Stores}
use inca_go.Peer.{Peer, get_peer, get_peer_with_pub_key, new_peer}

-- What a node is made with: its key's id and bytes, the id of a peer's key, the key of a validator,
-- what the database has of a peer, and the last message of the node's state.
pub record NodeSetup : Type 0 where
  pub own_key : Option ℕ
  pub id_of : ℕ → ℕ
  pub parse_public_key : Validator → Option ℕ
  pub read_peer : ℕ → Result (Option NodeMessage)
  pub read_state : Result Ref
  pub subscribed : Result (Unit {0})
  pub proposer_made : Result (Unit {0})
  pub validator_made : Result (Unit {0})

module _ (s : NodeSetup) (genesis_digest : ℕ) where
  -- The loop over the validators.
  unfoldable pub add_peers : ValidatorSet → List Peer → Result (List Peer)
  add_peers [] peers = ok peers
  add_peers (v ∷ vs) peers = do
    key ← or_fail (s.parse_public_key v) bad_key
    added ← get_peer_with_pub_key s.id_of s.read_peer genesis_digest key peers
    add_peers vs (added.1)

  unfoldable pub read_genesis_state : Env → Stores → Ref → List Peer → Result (List Peer)
  read_genesis_state e st genesis_ref peers = do
    gen ← or_fail (st.follow_genesis genesis_ref) unresolved
    conf ← or_fail (e.follow_chain_config gen.init_chain_config_ref) unresolved
    vals ← or_fail (e.follow_validator_set conf.validator_set_ref) unresolved
    add_peers vals peers

  -- NewNode: the peers that it knows and the last message that it sent.
  unfoldable pub new_node : Env → Stores → Ref → Result (List Peer × Ref)
  new_node e st genesis_ref = do
    key ← or_fail s.own_key bad_key
    s.proposer_made
    s.validator_made
    own ← get_peer_with_pub_key s.id_of s.read_peer genesis_digest key []
    last ← s.read_state
    peers ← read_genesis_state e st genesis_ref (own.1)
    s.subscribed
    ok (peers, last)

-- The store has one peer for an id.
abbrev pub Distinct : List Peer → Type 0
Distinct [] = Unit
Distinct (p ∷ ps) = (get_peer p.peer_id ps ≡ none) × Distinct ps

-- The peers of `before` are those of `after`.
abbrev pub Kept : List Peer → List Peer → Type 0
Kept before after = (id : ℕ) (p : Peer) → get_peer id before ≡ some p → get_peer id after ≡ some p

module _ (s : NodeSetup) (genesis_digest : ℕ) where
  -- A key has its peer in the store.
  abbrev pub HasPeer : List Peer → Validator → Type 0
  HasPeer peers v =
      (key : ℕ) × (s.parse_public_key v ≡ some key)
      × (p : Peer) × (get_peer (s.id_of key) peers ≡ some p)

  pub get_peer_with_pub_key_lem :
      (key : ℕ) (peers after : List Peer) (p : Peer)
      → Distinct peers
      → get_peer_with_pub_key s.id_of s.read_peer genesis_digest key peers ≡ ok (p, after)
      → Distinct after × (get_peer (s.id_of key) after ≡ some p) × Kept peers after
  unfolding get_peer_with_pub_key get_peer new_peer
  get_peer_with_pub_key_lem key peers after p distinct h =
      elim (Option-cases (get_peer (s.id_of key) peers)) [
        | inr (q, old) ↦
            (ground (arith, old), ground (arith, old), λ id x found. ground (arith, old))
        | inl fresh ↦ elim (Result-cases (s.read_peer (s.id_of key))) [
          | inr (x, bad) ↦ absurd (ground (arith, fresh, bad))
          | inl (stored, read) ↦ (
            ground (arith, fresh, read),
            ground (arith, fresh, read),
            λ id x found. ground (arith, fresh, read),
          )
        ]
      ]

  add_peers_lem :
      (vals : ValidatorSet) (peers after : List Peer)
      → Distinct peers
      → add_peers s genesis_digest vals peers ≡ ok after
      → Distinct after × All (HasPeer after) vals × Kept peers after
  unfolding add_peers
  add_peers_lem [] peers after distinct h = (ground arith, tt, λ id p found. ground arith)
  add_peers_lem (v ∷ vs) peers after distinct h = elim (Option-cases (s.parse_public_key v)) [
    | inl bad ↦ absurd (ground (arith, bad))
    | inr (key, parsed) ↦
        elim (Result-cases (get_peer_with_pub_key s.id_of s.read_peer genesis_digest key peers)) [
          | inr (x, bad) ↦ absurd (ground (arith, parsed, bad))
          | inl ((p, more), added) ↦
              let (distinct', found, kept) =
                get_peer_with_pub_key_lem key peers more p distinct added in
              let (last, all, kept') =
                add_peers_lem vs more after distinct' (ground (arith, parsed, added)) in
              (
                last,
                ((key, parsed, p, kept' (s.id_of key) p found), all),
                λ id q there. kept' id q (kept id q there),
              )
        ]
  ]

  read_genesis_state_lem :
      (e : Env) (st : Stores) (genesis_ref : Ref) (peers after : List Peer)
      → Distinct peers
      → read_genesis_state s genesis_digest e st genesis_ref peers ≡ ok after
      → (gen : Genesis) × (conf : ChainConfig) × (vals : ValidatorSet) × (st.follow_genesis
            genesis_ref
          ≡ some gen)
        × (e.follow_chain_config gen.init_chain_config_ref ≡ some conf)
        × (e.follow_validator_set conf.validator_set_ref ≡ some vals)
        × Distinct after
        × All (HasPeer after) vals
        × Kept peers after
  unfolding read_genesis_state
  read_genesis_state_lem e st genesis_ref peers after distinct h =
      elim (Option-cases (st.follow_genesis genesis_ref)) [
        | inl none_found ↦ absurd (ground (arith, none_found))
        | inr (gen, found) ↦ elim (Option-cases (e.follow_chain_config gen.init_chain_config_ref)) [
          | inl no_conf ↦ absurd (ground (arith, found, no_conf))
          | inr (conf, conf_found) ↦
              elim (Option-cases (e.follow_validator_set conf.validator_set_ref)) [
                | inl no_set ↦ absurd (ground (arith, found, conf_found, no_set))
                | inr (vals, set_found) ↦
                    let (last, all, kept) =
                      add_peers_lem vals peers after distinct
                        (ground (arith, found, conf_found, set_found)) in
                    (gen, conf, vals, found, conf_found, set_found, last, all, kept)
              ]
        ]
      ]

  -- NewNode, where it succeeds, has read its last message, has one peer for each id, and among them
  -- the one of its own key and one for every validator of the set that the genesis names.
  pub new_node-Distinct :
      (e : Env) (st : Stores) (genesis_ref : Ref) (peers : List Peer) (last : Ref)
      → new_node s genesis_digest e st genesis_ref ≡ ok (peers, last)
      → (key : ℕ) × (p : Peer) × (gen : Genesis) × (conf : ChainConfig) × (vals : ValidatorSet)
        × (s.own_key ≡ some key)
        × (get_peer (s.id_of key) peers ≡ some p)
        × (st.follow_genesis genesis_ref ≡ some gen)
        × (e.follow_chain_config gen.init_chain_config_ref ≡ some conf)
        × (e.follow_validator_set conf.validator_set_ref ≡ some vals)
        × All (HasPeer peers) vals
        × Distinct peers
        × (s.read_state ≡ ok last)
  unfolding new_node
  new_node-Distinct e st genesis_ref peers last h = elim (Option-cases s.own_key) [
    | inl bad ↦ absurd (ground (arith, bad))
    | inr (key, own) ↦ elim (Result-cases s.proposer_made) [
      | inr (x, bad) ↦ absurd (ground (arith, own, bad))
      | inl (a, made) ↦ elim (Result-cases s.validator_made) [
        | inr (x, bad) ↦ absurd (ground (arith, own, made, bad))
        | inl (b, made') ↦
            elim (Result-cases (get_peer_with_pub_key s.id_of s.read_peer genesis_digest key [])) [
              | inr (x, bad) ↦ absurd (ground (arith, own, made, made', bad))
              | inl ((p, first), added) ↦ elim (Result-cases s.read_state) [
                | inr (x, bad) ↦ absurd (ground (arith, own, made, made', added, bad))
                | inl (l, read) ↦
                    elim (Result-cases
                      (read_genesis_state s genesis_digest e st genesis_ref first)) [
                        | inr (x, bad) ↦ absurd (ground (arith, own, made, made', added, read, bad))
                        | inl (ps, all_read) ↦ elim (Result-cases s.subscribed) [
                          | inr (x, bad) ↦
                              absurd (ground (arith, own, made, made', added, read, all_read, bad))
                          | inl (c, sub) ↦
                              let same : ps ≡ peers =
                                ground (arith, own, made, made', added, read, all_read, sub) in
                              let last_same : l ≡ last =
                                ground (arith, own, made, made', added, read, all_read, sub) in
                              let (distinct, found, kept) =
                                get_peer_with_pub_key_lem key [] first p tt added in
                              let (gen, conf, vals, f, g, k, distinct', all, kept') =
                                read_genesis_state_lem e st genesis_ref first peers distinct (
                                  subst
                                    (λ x.
                                      read_genesis_state s genesis_digest e st genesis_ref first
                                      ≡ ok x)
                                    same all_read) in
                              (
                                key,
                                p,
                                gen,
                                conf,
                                vals,
                                own,
                                kept' (s.id_of key) p found,
                                f,
                                g,
                                k,
                                all,
                                distinct',
                                subst (λ x. s.read_state ≡ ok x) last_same read,
                              )
                        ]
                      ]
              ]
            ]
      ]
    ]
  ]
