-- ===== src/Apps/Mock.antt =====
-- utils/transaction/mock: an application that records how many transactions it has applied, of what
-- size, and the data of the last one.
use inca_go.Base.{
  ℕ, ◌+◌, ◌%◌, ◌^◌, ◌<◌, ◌≡◌, inl, inr, Option, none, some, List, [], ◌∷◌, arith, length,
  Option-cases, ◌==◌, if◌then◌else◌,
}
use inca_go.Wire.{Ref}
use inca_go.Result.{Result, ok, err, or_fail, unresolved, not_stored}
use inca_go.Transactions.{Bytes, Transaction}
use inca_go.Mempool.Pipe.{Verdict, accepted, rejected, sys_fault, other}
use inca_go.Apps.{Application, apply_all}

pub record AppState : Type 0 where
  pub applied_tx_count : ℕ
  pub applied_tx_size : ℕ
  pub last_tx_data : Bytes

-- The object store: the inner data of a transaction, and the states.
pub record MockStore : Type 0 where
  pub follow_transaction : Ref → Option Bytes
  pub follow_state : Ref → Option AppState
  pub store_state : AppState → Option Ref

-- The counters are uint32.
unfoldable pub add_tx : Bytes → AppState → AppState
add_tx dat s = record {
  applied_tx_count = (s.applied_tx_count + 1) % 2 ^ 32;
  applied_tx_size = (s.applied_tx_size + length dat % 2 ^ 32) % 2 ^ 32;
  last_tx_data = dat;
}

module _ (st : MockStore) where
  unfoldable pub pre_pool_check_tx : AppState → Transaction → Verdict
  pre_pool_check_tx s tx = elim (st.follow_transaction tx.node_message.inner_ref) [
    | none ↦ sys_fault other
    | some dat ↦ if length dat == 0 then rejected else accepted
  ]

  unfoldable pub apply : AppState → Transaction → Verdict × AppState
  unfolding add_tx
  apply s tx = elim (st.follow_transaction tx.node_message.inner_ref) [
    | none ↦ (sys_fault other, s)
    | some dat ↦ (accepted, add_tx dat s)
  ]

  -- Without an object store in the context, StoreObject is not reached: `store_state` is `none` then.
  unfoldable pub serialize : AppState → Result Ref
  serialize s = or_fail (st.store_state s) not_stored

  unfoldable pub get_state_at_block : Ref → Result AppState
  get_state_at_block r = or_fail (st.follow_state r) unresolved

  unfoldable pub mock : Application AppState
  unfolding apply pre_pool_check_tx get_state_at_block serialize
  mock = record {
    get_state_at_block = get_state_at_block;
    pre_pool_check_tx = pre_pool_check_tx;
    apply = apply;
    serialize = serialize;
  }

  -- The data of the transactions, where all of them can be followed.
  unfoldable pub datas : List Transaction → Option (List Bytes)
  datas [] = some []
  datas (tx ∷ txs) =
      let rest = datas txs in
      elim (st.follow_transaction tx.node_message.inner_ref) [
        | none ↦ none
        | some dat ↦ elim rest [ none ↦ none | some dats ↦ some (dat ∷ dats) ]
      ]

  -- What is recorded of data that come one after another.
  abbrev pub total : List Bytes → ℕ
  total [] = 0
  total (dat ∷ dats) = length dat + total dats

  abbrev pub last_of : Bytes → List Bytes → Bytes
  last_of before [] = before
  last_of before (dat ∷ dats) = last_of dat dats

  -- The mock application ends with a fault of the system exactly where some transaction cannot be
  -- followed. Else its state counts the transactions and the bytes of their data modulo 2 ^ 32, and
  -- has the data of the last one. The counters of the state before are uint32.
  pub mock-apply_all :
      (s : AppState) (txs : List Transaction)
      → s.applied_tx_count < 2 ^ 32
      → s.applied_tx_size < 2 ^ 32
      → apply_all mock s txs ≡ (elim (datas txs) [
        | none ↦ err unresolved
        | some dats ↦ ok (record {
          applied_tx_count = (s.applied_tx_count + length dats) % 2 ^ 32;
          applied_tx_size = (s.applied_tx_size + total dats) % 2 ^ 32;
          last_tx_data = last_of s.last_tx_data dats;
        })
      ])
  unfolding apply_all mock datas
  mock-apply_all s [] small small' = ground arith
  mock-apply_all s (tx ∷ txs) small small' =
      elim (Option-cases (st.follow_transaction tx.node_message.inner_ref)) [
        | inl lost ↦ ground (arith, lost)
        | inr (dat, found) ↦
            let ih =
              mock-apply_all (add_tx dat s) txs (unfold add_tx in omega arith)
                (unfold add_tx in omega arith) in
            elim (Option-cases (datas txs)) [
              | inl stops ↦ ground (arith, found, stops, ih)
              | inr (dats, all) ↦ ground (arith, found, all, ih, add_tx)
            ]
      ]
