-- ===== src/Transactions/Lookup.antt =====
-- What is put into the transaction database is found there.
use inca_go.Base.{ℕ, ◌≡◌, refl, ◌≢◌, ap, subst, inl, inr, some, [], ◌∷◌, arith, Option-cases}
use inca_go.Wire.{Ref, NodeMessage}
use inca_go.Result.{ok, ◌>>=◌, or_fail, not_stored}
use inca_go.Transactions.{
  Bytes, Libs, Db, Transaction, from_node_message, get_entry, put, get_tx, get_id_key,
}

-- A datastore that keeps what was written and leaves the other keys alone.
pub record Keeps {D : Type 0} (db : Db D) : Type 0 where
  pub found : (k dat : Bytes) (d d' : D) → db.set k dat d ≡ ok d' → db.get k d' ≡ ok (some dat)
  pub others :
      (k j dat : Bytes) (d d' : D) → j ≢ k → db.set k dat d ≡ ok d' → db.get j d' ≡ db.get j d

abbrev pub tail_of : Bytes → Bytes
tail_of [] = []
tail_of (b ∷ bs) = bs

module _ {D : Type 0} (l : Libs) (db : Db D) (keeps : Keeps db) where
  put-get_entry :
      (c : ℕ) (cs : Bytes) (r : Ref) (d d' : D)
      → ((dat : Bytes) → l.marshal r ≡ some dat → l.unmarshal dat ≡ some r)
      → put l db (c ∷ cs) r d ≡ ok d'
      → get_entry l db (c ∷ cs) d' ≡ ok (some r)
  unfolding put get_entry
  put-get_entry c cs r d d' inverse stored = elim (Option-cases (l.marshal r)) [
    | inl lost ↦ ground (arith, lost)
    | inr (dat, wire) ↦
        let written : db.set (get_id_key (c ∷ cs)) dat d ≡ ok d' =
          subst (λ m. (or_fail m not_stored >>= λ x. db.set (get_id_key (c ∷ cs)) x d) ≡ ok d') wire
            stored in
        rw (keeps.found (get_id_key (c ∷ cs)) dat d d' written, inverse dat wire) refl
  ]

  put-others :
      (c : ℕ) (cs : Bytes) (r : Ref) (d d' : D)
      → put l db (c ∷ cs) r d ≡ ok d'
      → (id : Bytes) → id ≢ c ∷ cs
      → get_entry l db id d' ≡ get_entry l db id d
  unfolding put get_entry
  put-others c cs r d d' stored [] other = refl
  put-others c cs r d d' stored (a ∷ rest) other = elim (Option-cases (l.marshal r)) [
    | inl lost ↦ ground (arith, lost)
    | inr (dat, wire) ↦
        let written : db.set (get_id_key (c ∷ cs)) dat d ≡ ok d' =
          subst (λ m. (or_fail m not_stored >>= λ x. db.set (get_id_key (c ∷ cs)) x d) ≡ ok d') wire
            stored in
        rw
          (keeps.others (get_id_key (c ∷ cs)) (get_id_key (a ∷ rest)) dat d d'
            (λ same. other (ap tail_of same)) written)
          refl
  ]

  -- A transaction whose info is put under an id is the answer for that id, with its reference, where
  -- the message can be followed; what was the answer for the other ids still is. The id is not empty.
  pub put-get_tx :
      (c : ℕ) (cs : Bytes) (r : Ref) (nm : NodeMessage) (tx : Transaction) (d d' : D)
      → ((dat : Bytes) → l.marshal r ≡ some dat → l.unmarshal dat ≡ some r)
      → l.follow_message r ≡ some nm
      → from_node_message l nm ≡ ok tx
      → put l db (c ∷ cs) r d ≡ ok d'
      → (get_tx l db (c ∷ cs) d' ≡ ok (some (record tx { node_message_ref = some r })))
        × ((id : Bytes) → id ≢ c ∷ cs → get_tx l db id d' ≡ get_tx l db id d)
  unfolding get_tx
  put-get_tx c cs r nm tx d d' inverse followed made stored = (
    rw (put-get_entry c cs r d d' inverse stored, followed, made) refl,
    λ id other. rw (put-others c cs r d d' stored id other) refl,
  )
