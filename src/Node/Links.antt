-- ===== src/Node/Links.antt =====
-- The messages that a node publishes form a chain by reference.
use inca_go.Base.{
  ◌≡◌, refl, inl, inr, true, none, some, List, [], ◌∷◌, arith, All, Option-cases, sym, subst, ◌∙◌,
}
use inca_go.Wire.{Ref, NodeMessage}
use inca_go.Node.{Outbox, Network, linked, pubsub_send_msg, process_outbox}

-- Each message links to the one that was published before it, and the first one to `base`.
abbrev pub Chained : Ref → List (Ref × NodeMessage) → Type 0
Chained base [] = Unit
Chained base ((r, m) ∷ []) = m.prev_msg_ref ≡ base
Chained base ((r, m) ∷ (q, n) ∷ rest) = (m.prev_msg_ref ≡ q) × Chained base ((q, n) ∷ rest)

abbrev pub newest : Ref → List (Ref × NodeMessage) → Ref
newest base [] = base
newest base ((r, m) ∷ rest) = r

Chained-cons :
    (base r : Ref) (m : NodeMessage) (rest : List (Ref × NodeMessage))
    → m.prev_msg_ref ≡ newest base rest
    → Chained base rest
    → Chained base ((r, m) ∷ rest)
Chained-cons base r m [] e chain = e
Chained-cons base r m ((q, n) ∷ rest) e chain = (e, chain)

-- Nothing fails between the store of a message and its publication.
abbrev pub Works : List (Network × NodeMessage) → Type 0
Works = All (λ (x : Network × NodeMessage). (x.0.state_written ≡ true) × (x.0.published ≡ true))

lost_lem :
    (net : Network) (msg : NodeMessage) (o : Outbox)
    → net.store_message (linked net o msg) ≡ none
    → (pubsub_send_msg net msg o).1 ≡ o
unfolding pubsub_send_msg
lost_lem net msg o lost = ground arith

sent_lem :
    (net : Network) (msg : NodeMessage) (o : Outbox) (r : Ref)
    → net.store_message (linked net o msg) ≡ some r
    → net.state_written ≡ true
    → net.published ≡ true
    → (pubsub_send_msg net msg o).1 ≡ record {
      last_msg_ref = r;
      stored_msg_ref = r;
      published = (r, linked net o msg) ∷ o.published;
    }
unfolding pubsub_send_msg
sent_lem net msg o r kept written works = ground arith

linked-prev :
    (net : Network) (o : Outbox) (msg : NodeMessage)
    → (linked net o msg).prev_msg_ref ≡ o.last_msg_ref
unfolding linked
linked-prev net o msg = refl

-- What holds of the outbox between two messages.
abbrev pub InStep : Ref → Outbox → Type 0
InStep base o =
    Chained base o.published
    × (o.last_msg_ref ≡ newest base o.published)
    × (o.stored_msg_ref ≡ o.last_msg_ref)

pubsub_send_msg-InStep :
    (base : Ref) (net : Network) (msg : NodeMessage) (o : Outbox)
    → net.state_written ≡ true
    → net.published ≡ true
    → InStep base o
    → InStep base (pubsub_send_msg net msg o).1
pubsub_send_msg-InStep base net msg o written works before =
    elim (Option-cases (net.store_message (linked net o msg))) [
      | inl lost ↦ subst (λ o'. InStep base o') (sym (lost_lem net msg o lost)) before
      | inr (r, kept) ↦
          subst (λ o'. InStep base o') (sym (sent_lem net msg o r kept written works))
            (
              Chained-cons base r (linked net o msg) o.published (linked-prev net o msg ∙ before.1)
                  before.0,
              refl,
              refl,
            )
    ]

-- Where the database and the shell work, the published messages form one chain: each links to the
-- one before, the first to the last message of the stored state, and the state in the database and
-- in memory is at the newest one. A message that cannot be stored leaves no gap.
pub process_outbox-Chained :
    (base : Ref) (msgs : List (Network × NodeMessage)) (o : Outbox)
    → Works msgs
    → InStep base o
    → InStep base (process_outbox msgs o)
unfolding process_outbox
process_outbox-Chained base [] o works before = before
process_outbox-Chained base ((net, msg) ∷ rest) o works before =
    process_outbox-Chained base rest (pubsub_send_msg net msg o).1 works.1
      (pubsub_send_msg-InStep base net msg o works.0.0 works.0.1 before)
