-- ===== src/Apps/Counter.antt =====
-- examples/counter: a proposer of blocks whose state counts the blocks.
use inca_go.Base.{
  ℕ, zero, suc, ◌+◌, ◌%◌, ◌^◌, ◌<◌, ◌≡◌, ◌≢◌, sym, ap, ◌∙◌, inl, inr, Bool, true, false, Option,
  some, arith, Option-cases, Bool-cases, ◌==◌,
}
use inca_go.Wire.{Ref, nil_ref}
use inca_go.Result.{
  Result, ok, ◌>>=◌, ◌>>◌, guard, or_fail, unresolved, not_stored, no_object_store, Result-cases,
}
use inca_go.Block.{Block}
use inca_go.Snapshot.{Snapshot}

-- The State message: the counter is a uint64.
pub record State : Type 0 where
  pub counter_val : ℕ

pub record CounterStore : Type 0 where
  pub present : Bool
  pub follow_state : Ref → Option State
  pub store_state : State → Option Ref

-- What a store does: what is stored is found again, under a reference that is not empty.
pub record Restores (st : CounterStore) : Type 0 where
  pub found : (s : State) (r : Ref) → st.store_state s ≡ some r → st.follow_state r ≡ some s
  pub not_nil : (s : State) (r : Ref) → st.store_state s ≡ some r → r ≢ nil_ref

module _ (st : CounterStore) where
  -- Block.GetState: a block without a state has the empty one.
  unfoldable pub get_state : Block → Result State
  get_state b = elim (b.header.state_ref == nil_ref) [
    | true ↦ ok (record { counter_val = 0 })
    | false ↦ or_fail (st.follow_state b.header.state_ref) unresolved
  ]

  -- Proposer.ProposeBlock
  unfoldable pub propose_block : Block → Snapshot → Result (Option Ref)
  unfolding get_state
  propose_block parent snap = do
    guard st.present no_object_store
    parent_state ← get_state parent
    r ←
        or_fail (st.store_state (record { counter_val = (parent_state.counter_val + 1) % 2 ^ 64 }))
          not_stored
    ok (some r)

  -- `b` is `n` blocks above `a`, each with the state that was proposed on the one before.
  pub data Above (a : Block) : ℕ → Block → Type 0 where
    base : Above a zero a
    next :
        (n : ℕ) (b c : Block) (snap : Snapshot)
        → Above a n b
        → propose_block b snap ≡ ok (some (c.header.state_ref))
        → Above a (suc n) c

  propose_block_lem :
      (b c : Block) (snap : Snapshot)
      → Restores st
      → propose_block b snap ≡ ok (some (c.header.state_ref))
      → (s : State) × (get_state b ≡ ok s)
        × (get_state c ≡ ok (record { counter_val = (s.counter_val + 1) % 2 ^ 64 }))
  unfolding propose_block
  propose_block_lem b c snap restores h = elim (Bool-cases st.present) [
    | inr absent ↦ absurd (ground (arith, absent))
    | inl present ↦ elim (Result-cases (get_state b)) [
      | inr (x, lost) ↦ absurd (ground (arith, present, lost))
      | inl (s, found) ↦
          let new : State = record { counter_val = (s.counter_val + 1) % 2 ^ 64 } in
          elim (Option-cases (st.store_state new)) [
            | inl full ↦ absurd (ground (arith, present, found, full))
            | inr (r, stored) ↦
                let same : r ≡ c.header.state_ref = ground (arith, present, found, stored) in
                (
                  s,
                  found,
                  ground (arith, restores.found new r stored, restores.not_nil new r stored, same),
                )
          ]
    ]
  ]

  -- A block that is `n` blocks above another one counts `n` more than it, modulo 2 ^ 64, where all of
  -- the blocks between have the states that the counter proposes.
  pub Above-counter :
      (a b : Block) (n v : ℕ)
      → Restores st
      → v < 2 ^ 64
      → get_state a ≡ ok (record { counter_val = v })
      → Above a n b
      → get_state b ≡ ok (record { counter_val = (v + n) % 2 ^ 64 })
  Above-counter a b n v restores small start base =
      let fits : (v + 0) % 2 ^ 64 ≡ v = omega arith in
      start ∙ ap (λ x. ok (record { counter_val = x })) (sym fits)
  Above-counter a b n v restores small start (next m c d snap above proposed) =
      let ih = Above-counter a c m v restores small start above in
      let (s, found, result) = propose_block_lem c b snap restores proposed in
      let counted : s.counter_val ≡ (v + m) % 2 ^ 64 = ground (arith, ih, found) in
      let steps : (s.counter_val + 1) % 2 ^ 64 ≡ (v + suc m) % 2 ^ 64 = ground (arith, counted) in
      result ∙ ap (λ x. ok (record { counter_val = x })) steps
