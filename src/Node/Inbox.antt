-- ===== src/Node/Inbox.antt =====
-- node/node.go, processPubSub: the records of the pubsub channel, on the peers of the node.
use inca_go.Base.{
  ℕ, ◌≤◌, ◌≡◌, ◌⊎◌, refl, sym, subst, true, false, inl, inr, Option, none, some, List, [], ◌∷◌,
  arith, Bool-cases, Option-cases, ◌==◌, if◌then◌else◌,
}
use inca_go.Wire.{Ref, NodeMessage, Env}
use inca_go.Result.{Result-cases}
use inca_go.Peer.{
  Peer, Calls, last_time, get_peer, open_pubsub_message, process_incoming_node_message,
  process_incoming_pubsub_message,
}
use inca_go.Node.{process_pub_sub_record}

-- The peers of PeerStore, and what the handler of block commits changes.
pub record Inbox (W : Type 0) : Type 0 where
  pub peers : List Peer
  pub world : W

-- What records are read with: the message that the data of a record has, with its sender and its
-- reference; the id that the sender's text decodes to; the node message of a reference; and a key.
pub record Reader : Type 0 where
  pub decode : ℕ → Option (ℕ × Ref)
  pub decode_id : ℕ → Option ℕ
  pub follow_message : Ref → Option NodeMessage
  pub unmarshal_key : ℕ → Option ℕ

-- The peer object of the store that has the id changes.
unfoldable pub set_peer : Peer → List Peer → List Peer
set_peer p [] = []
set_peer p (q ∷ qs) = if q.peer_id == p.peer_id then p ∷ qs else q ∷ set_peer p qs

module _ {W : Type 0} (e : Env) (r : Reader) where
  -- ProcessNodePubsubMessage: an error is logged, and the message is dropped.
  unfoldable pub process_node_pubsub_message : Calls W → Peer → ℕ → Ref → Inbox W → Inbox W
  process_node_pubsub_message c p sender msg_ref inbox =
      let (answer, p', w') =
        process_incoming_pubsub_message e c r.follow_message r.unmarshal_key p sender msg_ref
          inbox.world in
      record { peers = set_peer p' inbox.peers; world = w' }

  unfoldable pub receive : Calls W → ℕ → Inbox W → Inbox W
  unfolding process_node_pubsub_message process_pub_sub_record
  receive c dat inbox =
      process_pub_sub_record r.decode r.decode_id (process_node_pubsub_message c) (λ i. i.peers) dat
        inbox

  -- The loop, over what Next gives: the data of a record, or an error, which ends the loop.
  unfoldable pub process_pub_sub : List (Calls W × Option ℕ) → Inbox W → Inbox W
  unfolding receive
  process_pub_sub [] inbox = inbox
  process_pub_sub ((c, none) ∷ rest) inbox = inbox
  process_pub_sub ((c, some dat) ∷ rest) inbox = process_pub_sub rest (receive c dat inbox)

-- The peer is the same one, and has observed no earlier message than before.
pub record Advanced (p p' : Peer) : Type 0 where
  pub same_id : p'.peer_id ≡ p.peer_id
  pub same_key : p'.pub_key ≡ p.pub_key
  pub same_genesis : p'.genesis_digest ≡ p.genesis_digest
  pub not_before : last_time p.last_observed ≤ last_time p'.last_observed

abbrev pub AdvancedIf : Option Peer → Option Peer → Type 0
AdvancedIf none none = Unit
AdvancedIf (some p) (some p') = Advanced p p'
AdvancedIf _ _ = ⊥

-- The same peers are known, and none of them has gone back.
abbrev pub Advances : List Peer → List Peer → Type 0
Advances before after = (id : ℕ) → AdvancedIf (get_peer id before) (get_peer id after)

Advanced-refl : (p : Peer) → Advanced p p
Advanced-refl p = record {
  same_id = refl;
  same_key = refl;
  same_genesis = refl;
  not_before = omega arith;
}

AdvancedIf-refl : (x : Option Peer) → AdvancedIf x x
AdvancedIf-refl none = tt
AdvancedIf-refl (some p) = Advanced-refl p

AdvancedIf-trans : (x y z : Option Peer) → AdvancedIf x y → AdvancedIf y z → AdvancedIf x z
AdvancedIf-trans none none none h k = tt
AdvancedIf-trans none none (some z) h k = k
AdvancedIf-trans none (some y) z h k = absurd h
AdvancedIf-trans (some x) none z h k = absurd h
AdvancedIf-trans (some x) (some y) none h k = k
AdvancedIf-trans (some x) (some y) (some z) h k = record {
  same_id = ground (arith, h.same_id, k.same_id);
  same_key = ground (arith, h.same_key, k.same_key);
  same_genesis = ground (arith, h.same_genesis, k.same_genesis);
  not_before = omega (arith, h.not_before, k.not_before);
}

get_peer-set_peer :
    (id : ℕ) (p p' : Peer) (ps : List Peer)
    → get_peer p.peer_id ps ≡ some p
    → Advanced p p'
    → AdvancedIf (get_peer id ps) (get_peer id (set_peer p' ps))
unfolding get_peer set_peer
get_peer-set_peer id p p' [] found h = absurd (ground arith)
get_peer-set_peer id p p' (q ∷ qs) found h = elim (Bool-cases (q.peer_id == p'.peer_id)) [
  | inl here ↦
      let mine : q ≡ p = ground (arith, h.same_id, here) in
      elim (Bool-cases (q.peer_id == id)) [
        | inl this ↦
            let that : (p'.peer_id == id) ≡ true = ground (arith, here, this) in
            rw (here, this, that) (subst (λ x. Advanced x p') (sym mine) h)
        | inr other ↦
            let that : (p'.peer_id == id) ≡ false = ground (arith, here, other) in
            rw (here, other, that) (AdvancedIf-refl (get_peer id qs))
      ]
  | inr further ↦
      let behind : get_peer p.peer_id qs ≡ some p = ground (arith, h.same_id, further) in
      elim (Bool-cases (q.peer_id == id)) [
        | inl this ↦ rw (further, this) (Advanced-refl q)
        | inr other ↦ rw (further, other) (get_peer-set_peer id p p' qs behind h)
      ]
]

get_peer_id : (id : ℕ) (p : Peer) (ps : List Peer) → get_peer id ps ≡ some p → p.peer_id ≡ id
unfolding get_peer
get_peer_id id p [] found = absurd (ground arith)
get_peer_id id p (q ∷ qs) found = elim (Bool-cases (q.peer_id == id)) [
  | inl this ↦ ground (arith, this)
  | inr other ↦ get_peer_id id p qs (ground (arith, other))
]

module _ {W : Type 0} (e : Env) (r : Reader) where
  process_incoming_node_message-Advanced :
      (c : Calls W) (p : Peer) (nm : NodeMessage) (w : W)
      → Advanced p (process_incoming_node_message e c p nm w).1
  unfolding process_incoming_node_message
  process_incoming_node_message-Advanced c p nm w = record {
    same_id = ground arith;
    same_key = ground arith;
    same_genesis = ground arith;
    not_before = ground arith;
  }

  process_incoming_pubsub_message-Advanced :
      (c : Calls W) (p : Peer) (sender : ℕ) (msg_ref : Ref) (w : W)
      → Advanced p
          (process_incoming_pubsub_message e c r.follow_message r.unmarshal_key p sender msg_ref
            w).1
  unfolding process_incoming_pubsub_message
  process_incoming_pubsub_message-Advanced c p sender msg_ref w =
      elim (Result-cases
        (open_pubsub_message e c r.follow_message r.unmarshal_key p sender msg_ref)) [
          | inl (nm, opened) ↦
              rw (process_incoming_pubsub_message, opened)
                (process_incoming_node_message-Advanced c p nm w)
          | inr (x, refused) ↦ rw (process_incoming_pubsub_message, refused) (Advanced-refl p)
        ]

  receive-Advances :
      (c : Calls W) (dat : ℕ) (inbox : Inbox W)
      → Advances inbox.peers (receive e r c dat inbox).peers
  unfolding receive process_node_pubsub_message process_pub_sub_record
  receive-Advances c dat inbox id =
      let before = inbox.peers in
      let after = (receive e r c dat inbox).peers in
      let same : after ≡ before → AdvancedIf (get_peer id before) (get_peer id after) =
        λ stays. rw stays (AdvancedIf-refl (get_peer id before)) in
      elim (Option-cases (r.decode dat)) [
        | inl garbled ↦ same (ground (arith, garbled))
        | inr ((sender, msg_ref), decoded) ↦ elim (Option-cases (r.decode_id sender)) [
          | inl garbled ↦ same (ground (arith, decoded, garbled))
          | inr (peer_id, sent) ↦ elim (Option-cases (get_peer peer_id before)) [
            | inl unknown ↦ same (ground (arith, decoded, sent, unknown))
            | inr (p, known) ↦
                let p' =
                  (process_incoming_pubsub_message e c r.follow_message r.unmarshal_key p sender
                    msg_ref inbox.world).1 in
                let moved : after ≡ set_peer p' before = ground (arith, decoded, sent, known) in
                let found : get_peer p.peer_id before ≡ some p =
                  subst (λ i. get_peer i before ≡ some p) (sym (get_peer_id peer_id p before known))
                    known in
                rw moved (
                  get_peer-set_peer id p p' before found
                    (process_incoming_pubsub_message-Advanced c p sender msg_ref inbox.world))
          ]
        ]
      ]

  node_message_world :
      (c : Calls W) (p : Peer) (nm : NodeMessage) (w : W)
      → ((process_incoming_node_message e c p nm w).2 ≡ w)
        ⊎ ((process_incoming_node_message e c p nm w).2 ≡ c.handle_block_commit nm.inner_ref w)
  unfolding process_incoming_node_message
  node_message_world c p nm w = ground arith

  -- A message changes the world only as the handler of a block commit does.
  pubsub_message_world :
      (P : W → Type 0) (c : Calls W) (p : Peer) (sender : ℕ) (msg_ref : Ref) (w : W)
      → P w
      → ((blk_ref : Ref) → P (c.handle_block_commit blk_ref w))
      → P
          (process_incoming_pubsub_message e c r.follow_message r.unmarshal_key p sender msg_ref
            w).2
  unfolding process_incoming_pubsub_message
  pubsub_message_world P c p sender msg_ref w stays handled =
      elim (Result-cases
        (open_pubsub_message e c r.follow_message r.unmarshal_key p sender msg_ref)) [
          | inr (x, refused) ↦ rw (process_incoming_pubsub_message, refused) stays
          | inl (nm, opened) ↦
              rw (process_incoming_pubsub_message, opened)
                (elim (node_message_world c p nm w) [
                  | inl same ↦ subst P (sym same) stays
                  | inr moved ↦ subst P (sym moved) (handled nm.inner_ref)
                ])
        ]

  pub receive-world :
      (P : W → Type 0) (c : Calls W) (dat : ℕ) (inbox : Inbox W)
      → P inbox.world
      → ((blk_ref : Ref) → P (c.handle_block_commit blk_ref inbox.world))
      → P (receive e r c dat inbox).world
  unfolding receive process_node_pubsub_message process_pub_sub_record
  receive-world P c dat inbox stays handled =
      let same : (receive e r c dat inbox).world ≡ inbox.world → P (receive e r c dat inbox).world =
        λ unchanged. subst P (sym unchanged) stays in
      elim (Option-cases (r.decode dat)) [
        | inl garbled ↦ same (ground (arith, garbled))
        | inr ((sender, msg_ref), decoded) ↦ elim (Option-cases (r.decode_id sender)) [
          | inl garbled ↦ same (ground (arith, decoded, garbled))
          | inr (peer_id, sent) ↦ elim (Option-cases (get_peer peer_id inbox.peers)) [
            | inl unknown ↦ same (ground (arith, decoded, sent, unknown))
            | inr (p, known) ↦
                let w' =
                  (process_incoming_pubsub_message e c r.follow_message r.unmarshal_key p sender
                    msg_ref inbox.world).2 in
                let moved : (receive e r c dat inbox).world ≡ w' =
                  ground (arith, decoded, sent, known) in
                subst P (sym moved)
                  (pubsub_message_world P c p sender msg_ref inbox.world stays handled)
          ]
        ]
      ]

  -- Whatever records come from the network, in whatever order, and whatever is read from them: no
  -- peer is added or lost, each keeps its id, its key and its chain, and the time of the last message
  -- that it has observed never falls.
  pub process_pub_sub-Advances :
      (records : List (Calls W × Option ℕ)) (inbox : Inbox W)
      → Advances inbox.peers (process_pub_sub e r records inbox).peers
  unfolding process_pub_sub
  process_pub_sub-Advances [] inbox id = AdvancedIf-refl (get_peer id inbox.peers)
  process_pub_sub-Advances ((c, none) ∷ rest) inbox id = AdvancedIf-refl (get_peer id inbox.peers)
  process_pub_sub-Advances ((c, some dat) ∷ rest) inbox id =
      AdvancedIf-trans _ _ _ (receive-Advances c dat inbox id)
        (process_pub_sub-Advances rest (receive e r c dat inbox) id)
