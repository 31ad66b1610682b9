-- ===== src/Apps/Chat.antt =====
-- examples/chat: an application whose state counts the messages.
use mathlib.Core.List.{Permᴰ}
use mathlib.Core.Logic.{∥∥₁_elim}
use mathlib.Core.Quot
use mathlib.Mathlib.Data.Multiset.Defs.{Multiset, of_list}
use native.Mathlib.Nat.{ℕ_set}
use inca_go.Base.{
  ℕ, suc, ◌+◌, ◌%◌, ◌^◌, ◌<◌, ◌≡◌, refl, sym, ◌∙◌, ap, inl, inr, Option, none, some, List, [], ◌∷◌,
  arith, Option-cases,
}
use inca_go.Wire.{Ref}
use inca_go.Result.{Result, ok, err, or_fail, unresolved, not_stored}
use inca_go.Transactions.{Transaction}
use inca_go.Mempool.Pipe.{Verdict, accepted, rejected}
use inca_go.Apps.{Application, apply_all}

pub record ChatState : Type 0 where
  pub message_count : ℕ

-- The object store: what a reference of a message resolves to, and the states.
pub record ChatStore : Type 0 where
  pub follow_transaction : Ref → Option ℕ
  pub follow_state : Ref → Option ChatState
  pub store_state : ChatState → Option Ref

module _ (st : ChatStore) where
  unfoldable pub get_transaction : Transaction → Result ℕ
  get_transaction tx = or_fail (st.follow_transaction tx.inner_ref) unresolved

  -- The counter is a uint32.
  unfoldable pub apply : ChatState → Transaction → Verdict × ChatState
  unfolding get_transaction
  apply s tx = elim (get_transaction tx) [
    | err x ↦ (rejected, s)
    | ok txd ↦ (accepted, record { message_count = (s.message_count + 1) % 2 ^ 32 })
  ]

  unfoldable pub pre_pool_check_tx : ChatState → Transaction → Verdict
  unfolding get_transaction
  pre_pool_check_tx s tx = elim (get_transaction tx) [ err x ↦ rejected | ok txd ↦ accepted ]

  unfoldable pub get_virtual_state : Ref → Result ChatState
  get_virtual_state r = or_fail (st.follow_state r) unresolved

  unfoldable pub serialize : ChatState → Result Ref
  serialize s = or_fail (st.store_state s) not_stored

  unfoldable pub chat : Application ChatState
  unfolding apply pre_pool_check_tx get_virtual_state serialize
  chat = record {
    get_state_at_block = get_virtual_state;
    pre_pool_check_tx = pre_pool_check_tx;
    apply = apply;
    serialize = serialize;
  }

  -- The transactions whose message can be followed.
  unfoldable pub resolved_count : List Transaction → ℕ
  resolved_count [] = 0
  resolved_count (tx ∷ txs) =
      let rest = resolved_count txs in
      elim (st.follow_transaction tx.inner_ref) [ none ↦ rest | some txd ↦ suc rest ]

  chat_run :
      (s : ChatState) (txs : List Transaction)
      → s.message_count < 2 ^ 32
      → apply_all chat s txs
        ≡ ok (record { message_count = (s.message_count + resolved_count txs) % 2 ^ 32 })
  unfolding apply_all chat resolved_count
  chat_run s [] small = ground arith
  chat_run s (tx ∷ txs) small = elim (Option-cases (st.follow_transaction tx.inner_ref)) [
    | inl lost ↦ ground (arith, lost, chat_run s txs small)
    | inr (txd, found) ↦
        let next : ChatState = record { message_count = (s.message_count + 1) % 2 ^ 32 } in
        ground (arith, found, chat_run next txs (omega arith))
  ]

  pub resolved_count-Permᴰ :
      {txs txs' : List Transaction} → Permᴰ txs txs' → resolved_count txs ≡ resolved_count txs'
  unfolding resolved_count
  resolved_count-Permᴰ (Permᴰ.swap p q) = ground (arith, p, q)
  resolved_count-Permᴰ (Permᴰ.trans p q) = resolved_count-Permᴰ p ∙ resolved_count-Permᴰ q
  resolved_count-Permᴰ (Permᴰ.cons q p) = ground (arith, q, resolved_count-Permᴰ p)
  resolved_count-Permᴰ Permᴰ.nil = refl

  -- The same count, for the multiset of the transactions of a block.
  unfoldable pub resolved_total : Multiset Transaction → ℕ
  resolved_total =
      Quot.lift ℕ_set resolved_count
        (λ txs txs' order. ∥∥₁_elim order (ℕ_set _ _) resolved_count-Permᴰ)

  unfoldable pub after_block : ChatState → Multiset Transaction → ChatState
  unfolding resolved_total
  after_block s txs = record { message_count = (s.message_count + resolved_total txs) % 2 ^ 32 }

  -- The state after Apply on each of a list of chat transactions is a function of the multiset of
  -- them: it counts those whose message can be followed, modulo 2 ^ 32, in whatever order they are
  -- taken. The counter of the state before is a uint32.
  pub chat-apply_all :
      (s : ChatState) (txs txs' : List Transaction)
      → s.message_count < 2 ^ 32
      → of_list txs ≡ of_list txs'
      → (apply_all chat s txs ≡ ok (after_block s (of_list txs)))
        × (apply_all chat s txs' ≡ ok (after_block s (of_list txs)))
  unfolding after_block
  chat-apply_all s txs txs' small order =
      (chat_run s txs small, chat_run s txs' small ∙ ap (λ b. ok (after_block s b)) (sym order))
