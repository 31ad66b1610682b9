-- ===== src/Mempool/Pipeline/Weights.antt =====
-- The weight of the transactions of a call of ProposeBlock, and what the ways back to the pool do
-- to it.
use inca_go.Base.{
  ℕ, zero, suc, ◌+◌, ◌≡◌, refl, ◌∙◌, inl, inr, some, List, [], ◌∷◌, ◌++◌, arith, Option-cases,
}
use inca_go.Result.{Result-cases}
use inca_go.Transactions.{Bytes}
use inca_go.Mempool.Pipe.{
  Setup, Collector, offering, Resolver, looking, checking, sending, Outcome, Main, applying, Pipe,
  remove_at,
}
use inca_go.Mempool.Pipeline.{enqueue_tx, enqueue_all, requeue_txs, return_with}

-- The weight of a list of ids; a weight that is 1 at one id and 0 elsewhere counts that id.
abbrev pub total : (Bytes → ℕ) → List Bytes → ℕ
total w [] = 0
total w (id ∷ ids) = w id + total w ids

abbrev pub total_pool : (Bytes → ℕ) → List (ℕ × Bytes) → ℕ
total_pool w [] = 0
total_pool w (x ∷ xs) = w (x.1) + total_pool w xs

-- What each goroutine has in hand.
abbrev pub of_collector : (Bytes → ℕ) → Collector → ℕ
of_collector w (offering id) = w id
of_collector w _ = 0

abbrev pub of_resolver : (Bytes → ℕ) → Resolver → ℕ
of_resolver w (looking id) = w id
of_resolver w (checking id tx) = w id
of_resolver w (sending id tx) = w id
of_resolver w _ = 0

abbrev pub of_main : (Bytes → ℕ) → Main → ℕ
of_main w (applying tx) = w tx.id
of_main w _ = 0

-- The weight of all the transactions of a call: in the pool, in a goroutine's hand, applied, in the
-- proposed block, or lost.
abbrev pub everywhere : (Bytes → ℕ) → Pipe → ℕ
everywhere w s =
    total_pool w s.pool
    + of_collector w s.collector
    + of_resolver w s.resolver
    + of_main w s.main
    + total w s.applied
    + total w s.proposed
    + total w s.lost

pub total-append :
    (w : Bytes → ℕ) (xs ys : List Bytes) → total w (xs ++ ys) ≡ total w xs + total w ys
total-append w [] ys = omega arith
total-append w (x ∷ xs) ys = omega (arith, total-append w xs ys)

pub remove_at-total :
    (w : Bytes → ℕ) (i : ℕ) (pool rest : List (ℕ × Bytes)) (id : Bytes)
    → remove_at i pool ≡ some (id, rest)
    → total_pool w pool ≡ w id + total_pool w rest
remove_at-total w i [] rest id h = ground arith
remove_at-total w zero (x ∷ xs) rest id h = ground arith
remove_at-total w (suc i) (x ∷ xs) rest id h = elim (Option-cases (remove_at i xs)) [
  | inl missing ↦ ground (arith, missing)
  | inr ((id', rest'), hit) ↦ ground (arith, hit, remove_at-total w i xs rest' id' hit)
]

module _ (c : Setup) (w : Bytes → ℕ) where
  pub enqueue_tx-total :
      (id : Bytes) (s : Pipe) → everywhere w (enqueue_tx c id s) ≡ w id + everywhere w s
  unfolding enqueue_tx
  enqueue_tx-total id s = elim (Result-cases (c.orderer id)) [
    | inl (prio, found) ↦ rw (found, enqueue_tx) (omega arith)
    | inr (x, missing) ↦ rw (missing, enqueue_tx) (omega arith)
  ]

  enqueue_tx-main : (id : Bytes) (s : Pipe) → (enqueue_tx c id s).main ≡ s.main
  unfolding enqueue_tx
  enqueue_tx-main id s = ground arith

  enqueue_all-total :
      (ids : List Bytes) (s : Pipe)
      → (everywhere w (enqueue_all c ids s) ≡ total w ids + everywhere w s)
        × ((enqueue_all c ids s).main ≡ s.main)
  unfolding enqueue_all
  enqueue_all-total [] s = (omega arith, refl)
  enqueue_all-total (id ∷ ids) s =
      let rest = enqueue_all-total ids (enqueue_tx c id s) in
      (omega (arith, rest.0, enqueue_tx-total id s), rest.1 ∙ enqueue_tx-main id s)

  pub requeue_txs-total :
      (s : Pipe)
      → (everywhere w (requeue_txs c s) ≡ everywhere w s) × ((requeue_txs c s).main ≡ s.main)
  unfolding requeue_txs
  requeue_txs-total s =
      let all = enqueue_all-total s.applied (record s { applied = [] }) in
      (omega (arith, all.0), all.1)

  pub return_with-total :
      (o : Outcome) (s : Pipe)
      → everywhere w (return_with c o s) + of_main w s.main ≡ everywhere w s
  unfolding return_with
  return_with-total o s = omega arith

  -- A return that puts the applied transactions back.
  pub give_all_back :
      (o : Outcome) (s : Pipe)
      → everywhere w (return_with c o (requeue_txs c s)) + of_main w s.main ≡ everywhere w s
  give_all_back o s =
      let back = requeue_txs-total s in
      let same : of_main w (requeue_txs c s).main ≡ of_main w s.main = rw (back.1) refl in
      omega (arith, return_with-total o (requeue_txs c s), back.0, same)
