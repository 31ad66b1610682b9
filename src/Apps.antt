-- ===== src/Apps.antt =====
-- utils/transaction/mempool/application.go: the interface of an application, whose states are the
-- states of blocks; and the applications of the repository.
pub mod Chat
pub mod Mock
pub mod Counter
use inca_go.Base.{List, [], ◌∷◌}
use inca_go.Wire.{Ref}
use inca_go.Result.{Result, ok, err, unresolved}
use inca_go.Transactions.{Transaction}
use inca_go.Mempool.Pipe.{Verdict, accepted, rejected, sys_fault}

-- ApplicationState over states `S`, with Application.GetStateAtBlock by the reference of the state
-- in the block. A call may leave another state behind, also where it refuses the transaction.
pub record Application (S : Type 0) : Type 0 where
  pub get_state_at_block : Ref → Result S
  pub pre_pool_check_tx : S → Transaction → Verdict
  pub apply : S → Transaction → Verdict × S
  pub serialize : S → Result Ref

module _ {S : Type 0} (a : Application S) where
  -- Apply called on one transaction after another, to say what an application does over several: a
  -- rejected one is dropped, and a fault of the system ends the run.
  unfoldable pub apply_all : S → List Transaction → Result S
  apply_all s [] = ok s
  apply_all s (tx ∷ txs) =
      let (verdict, s') = a.apply s tx in
      let rest = apply_all s' txs in
      elim verdict [ accepted ↦ rest | rejected ↦ rest | sys_fault f ↦ err unresolved ]
