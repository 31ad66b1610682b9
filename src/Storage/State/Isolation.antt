-- ===== src/Storage/State/Isolation.antt =====
-- What one part of a node writes, the others leave alone.
use inca_go.Base.{
  ◌≡◌, ◌≢◌, refl, sym, ap, subst, ◌∙◌, inl, inr, some, List, [], ◌∷◌, ◌++◌, arith, All,
  Option-cases,
}
use inca_go.Result.{Result, ok, ◌>>=◌, Result-cases, or_fail, not_stored}
use inca_go.Transactions.{Bytes, Db}
use inca_go.Transactions.Lookup.{Keeps}
use inca_go.Storage.{
  Owner, chain_state, block_state, node_state, peer_state, proposer_state, validator_state,
  segment_state, transaction_info, container, chat_state, key,
}
use inca_go.Storage.Keys.{owner_of, Plain, owner_of-key}
use inca_go.Storage.State.{
  Codec, write_under, read_under, read_chain_state, write_chain_state, read_segment_state,
  write_segment_state, read_block_state, write_block_state, read_node_state, write_node_state,
  read_peer_state, write_peer_state, read_proposer_state, write_proposer_state,
  read_validator_state, write_validator_state, set_entry, get_entry_or, read_chat_state,
  read_container, write_container,
}

module _ {D S : Type 0} (db : Db D) (c : Codec S) (prefixed : Bytes → Bytes → Bytes) where
  -- The call of each part that writes its state. Nothing writes the state that the chat reads.
  unfoldable pub write_owned : Owner → S → D → Result D
  unfolding write_chain_state write_segment_state write_block_state write_node_state
      write_peer_state write_proposer_state write_validator_state set_entry write_container
  write_owned (chain_state id) = write_chain_state db c prefixed id
  write_owned (segment_state chain_id id) = write_segment_state db c prefixed chain_id id
  write_owned (block_state id) = write_block_state db c prefixed id
  write_owned (node_state addr) = write_node_state db c prefixed addr
  write_owned (peer_state peer_id) = write_peer_state db c prefixed peer_id
  write_owned (proposer_state pid) = write_proposer_state db c prefixed pid
  write_owned (validator_state pid) = write_validator_state db c prefixed pid
  write_owned (transaction_info id) = set_entry db c prefixed id
  write_owned (container id) = write_container db c prefixed id
  write_owned chat_state = λ s d. ok d

  -- The call that reads it.
  unfoldable pub read_owned : Owner → S → D → Result S
  unfolding read_chain_state read_segment_state read_block_state read_node_state read_peer_state
      read_proposer_state read_validator_state get_entry_or read_chat_state read_container
  read_owned (chain_state id) = read_chain_state db c prefixed id
  read_owned (segment_state chain_id id) = read_segment_state db c prefixed chain_id id
  read_owned (block_state id) = read_block_state db c prefixed id
  read_owned (node_state addr) = read_node_state db c prefixed addr
  read_owned (peer_state peer_id) = read_peer_state db c prefixed peer_id
  read_owned (proposer_state pid) = read_proposer_state db c prefixed pid
  read_owned (validator_state pid) = read_validator_state db c prefixed pid
  read_owned (transaction_info id) = get_entry_or db c prefixed id
  read_owned (container id) = read_container db c prefixed id
  read_owned chat_state = read_chat_state db c prefixed

  -- Writes of any data by other parts, one after another.
  unfoldable pub write_all : List (Owner × Bytes) → D → Result D
  write_all [] d = ok d
  write_all ((o, dat) ∷ ws) d = db.set (key prefixed o) dat d >>= write_all ws

  write_owned_lem :
      (o : Owner) (s : S) (d : D)
      → o ≢ chat_state
      → write_owned o s d ≡ write_under db c (key prefixed o) s d
  unfolding write_owned key
  write_owned_lem (chain_state id) s d other = refl
  write_owned_lem (segment_state chain_id id) s d other = refl
  write_owned_lem (block_state id) s d other = refl
  write_owned_lem (node_state addr) s d other = refl
  write_owned_lem (peer_state peer_id) s d other = refl
  write_owned_lem (proposer_state pid) s d other = refl
  write_owned_lem (validator_state pid) s d other = refl
  write_owned_lem (transaction_info id) s d other = refl
  write_owned_lem (container id) s d other = refl
  write_owned_lem chat_state s d other = absurd (other refl)

  read_owned_lem :
      (o : Owner) (s : S) (d : D)
      → o ≢ transaction_info []
      → read_owned o s d ≡ read_under db c (key prefixed o) s d
  unfolding read_owned key
  read_owned_lem (chain_state id) s d there = refl
  read_owned_lem (segment_state chain_id id) s d there = refl
  read_owned_lem (block_state id) s d there = refl
  read_owned_lem (node_state addr) s d there = refl
  read_owned_lem (peer_state peer_id) s d there = refl
  read_owned_lem (proposer_state pid) s d there = refl
  read_owned_lem (validator_state pid) s d there = refl
  read_owned_lem (transaction_info []) s d there = absurd (there refl)
  read_owned_lem (transaction_info (b ∷ id)) s d there = refl
  read_owned_lem (container id) s d there = refl
  read_owned_lem chat_state s d there = refl

  module _ (keeps : Keeps db) (prefixes : (p k : Bytes) → prefixed p k ≡ p ++ k) where
    keys_differ : (o o' : Owner) → Plain o → Plain o' → o' ≢ o → key prefixed o ≢ key prefixed o'
    keys_differ o o' plain plain' other same =
        let found : some o' ≡ some o =
          sym (owner_of-key prefixed o' prefixes plain')
          ∙ (ap owner_of (sym same) ∙ owner_of-key prefixed o prefixes plain) in
        other cc

    write_all-others :
        (o : Owner) (ws : List (Owner × Bytes)) (d d' : D)
        → Plain o
        → All (λ w. Plain (w.0) × (w.0 ≢ o)) ws
        → write_all ws d ≡ ok d'
        → db.get (key prefixed o) d' ≡ db.get (key prefixed o) d
    unfolding write_all
    write_all-others o [] d d' plain _ h = ap (db.get (key prefixed o)) (cc)
    write_all-others o ((o', dat) ∷ ws) d d' plain ((plain', other), rest) h =
        elim (Result-cases (db.set (key prefixed o') dat d)) [
          | inr (x, failed) ↦ absurd (ground (arith, failed))
          | inl (d1, set) ↦
              write_all-others o ws d1 d' plain rest
                (subst (λ r. (r >>= write_all ws) ≡ ok d') set h)
              ∙ keeps.others (key prefixed o') (key prefixed o) dat d d1
                  (keys_differ o o' plain plain' other) set
        ]

    -- What a part of a node has written is what it reads, whatever it holds then, after any writes of
    -- any data by other parts, where all the writes succeed and a prefixed key is the prefix and then
    -- the key. Other parts are those of other chains, segments, blocks and keys among them. The part is
    -- not the chat, whose state nothing writes, nor the entry of a transaction with an empty id, which
    -- getEntry never reads; the ids of chains and of keys have no slash. What is
    -- marshaled is unmarshaled again; the database keeps what is written under a key.
    pub read_owned-write_owned :
        (o : Owner) (s before : S) (d d' d'' : D) (ws : List (Owner × Bytes))
        → ((dat : Bytes) → c.marshal s ≡ some dat → c.unmarshal dat ≡ some s)
        → o ≢ chat_state
        → o ≢ transaction_info []
        → Plain o
        → All (λ w. Plain (w.0) × (w.0 ≢ o)) ws
        → write_owned o s d ≡ ok d'
        → write_all ws d' ≡ ok d''
        → read_owned o before d'' ≡ ok s
    unfolding write_under read_under
    read_owned-write_owned o s before d d' d'' ws decodes writes there plain others h run =
        let k = key prefixed o in
        let kept = write_all-others o ws d' d'' plain others run in
        let wrote : write_under db c k s d ≡ ok d' = sym (write_owned_lem o s d writes) ∙ h in
        elim (Option-cases (c.marshal s)) [
          | inl lost ↦ absurd (ground (arith, lost, wrote))
          | inr (dat, wire) ↦
              let set : db.set k dat d ≡ ok d' =
                subst (λ m. (or_fail m not_stored >>= λ x. db.set k x d) ≡ ok d') wire wrote in
              read_owned_lem o before d'' there
              ∙ rw (kept ∙ keeps.found k dat d d' set, decodes dat wire) refl
        ]
