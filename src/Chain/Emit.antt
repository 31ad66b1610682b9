-- ===== src/Chain/Emit.antt =====
-- What a recheck of the chain's state does to the round, and what its subscribers hold after it.
use inca_go.Base.{
  ℕ, suc, ◌+◌, ◌≤◌, ◌<◌, ◌≡◌, refl, ◌⊎◌, inl, inr, some, List, [], ◌∷◌, map, arith, All, length,
  ltb, leb, Bool-cases, Option-cases,
}
use inca_go.Wire.{BlockHeader, ChainState, ChainConfig, Env}
use inca_go.Go.Channel.{enqueue, enqueue_lem}
use inca_go.Snapshot.{Snapshot}
use inca_go.World.{World, Run, done, failed}
use inca_go.Chain.Round.{current_round, round_duration, second}
use inca_go.Chain.{
  sub_cap, emit_next_chain_state, snapshot_changed, reset_round, emit_if_changed, compute_round,
  compute_emit_snapshot,
}

-- The round of `b` is that of `a` or a later one.
abbrev pub NotBefore : ChainState → ChainState → Type 0
NotBefore a b =
    (a.last_height < b.last_height)
    ⊎ ((a.last_height ≡ b.last_height) × (a.last_round ≤ b.last_round))

current_round-le : (conf : ChainConfig) (ts now last : ℕ) → last ≤ current_round conf ts now last
unfolding current_round
current_round-le conf ts now last = ground arith

reset_round-NotBefore : (h : BlockHeader) (cs : ChainState) → NotBefore cs (reset_round h cs)
unfolding reset_round
reset_round-NotBefore h cs = ground arith

-- How a run ends, well or not.
abbrev pub final : Run (Unit {0}) → World
final (done _ w) = w
final (failed _ w) = w

emit_if_changed-state :
    (e : Env) (snap : Snapshot) (w : World) → (emit_if_changed e snap w).chain_state ≡ w.chain_state
unfolding emit_if_changed emit_next_chain_state
emit_if_changed-state e snap w = elim (Bool-cases (snapshot_changed w.last_snapshot snap)) [
  | inl new ↦ rw new refl
  | inr old ↦ rw old refl
]

compute_round-NotBefore :
    (e : Env) (now now' : ℕ) (h : BlockHeader) (w : World)
    → NotBefore w.chain_state (final (compute_round e now now' h w)).chain_state
unfolding compute_round
compute_round-NotBefore e now now' h w =
    let cs = reset_round h w.chain_state in
    let base = reset_round-NotBefore h w.chain_state in
    elim (Bool-cases (ltb now h.block_ts)) [
      | inl future ↦ rw future base
      | inr past ↦ elim (Option-cases (e.follow_chain_config h.next_chain_config_ref)) [
        | inl missing ↦ rw (past, missing) base
        | inr (conf, read) ↦ elim (Bool-cases (leb second (round_duration conf))) [
          | inr short ↦ rw (past, read, short) base
          | inl long ↦
              let later = current_round-le conf h.block_ts now cs.last_round in
              elim (Option-cases (e.follow_validator_set conf.validator_set_ref)) [
                | inl lost ↦ rw (past, read, long, lost) (ground (arith, later))
                | inr (vals, seen) ↦
                    rw (past, read, long, seen, emit_if_changed-state) (ground (arith, later))
              ]
        ]
      ]
    ]

-- Rechecking the state never takes the chain back to an earlier round, also where it fails.
pub compute_emit_snapshot-NotBefore :
    (e : Env) (now now' : ℕ) (w : World)
    → NotBefore w.chain_state (final (compute_emit_snapshot e now now' w)).chain_state
unfolding compute_emit_snapshot
compute_emit_snapshot-NotBefore e now now' w = elim (Option-cases w.last_block_header) [
  | inl nothing ↦ ground arith
  | inr (h, found) ↦ rw (found, compute_emit_snapshot) (compute_round-NotBefore e now now' h w)
]

sent :
    (next : Snapshot) (subs : List (ℕ × List Snapshot))
    → All (λ (sub : ℕ × List Snapshot). length (sub.1) ≤ sub_cap) subs
    → All
        (λ (sub : ℕ × List Snapshot). sub.1 ≡ next ∷ [])
        (map (λ sub. (sub.0, enqueue sub_cap (sub.1) next)) subs)
sent next [] small = tt
sent next ((id, []) ∷ subs) small =
    (enqueue_lem sub_cap [] next (omega arith) (omega arith), sent next subs small.1)
sent next ((id, old ∷ []) ∷ subs) small =
    (enqueue_lem sub_cap (old ∷ []) next (omega arith) (omega arith), sent next subs small.1)
sent next ((id, old ∷ older ∷ ch) ∷ subs) small = absurd (omega (arith, small.0))

-- Where no subscriber holds more than its channel takes, each holds the new snapshot and no other
-- after it was sent; the chain remembers it, and it is under a new context.
emit_next_chain_state_lem :
    (snap : Snapshot) (w : World)
    → All (λ (sub : ℕ × List Snapshot). length (sub.1) ≤ sub_cap) w.state_subs
    → let w' = emit_next_chain_state snap w in
      All
        (λ (sub : ℕ × List Snapshot). sub.1 ≡ record snap { ctx = w'.snapshot_ctx } ∷ [])
        w'.state_subs
      × (w'.last_snapshot ≡ some (record snap { ctx = w'.snapshot_ctx }))
      × (w'.snapshot_ctx ≡ w.snapshot_ctx + 1)
unfolding emit_next_chain_state
emit_next_chain_state_lem snap w small =
    (sent (record snap { ctx = suc w.snapshot_ctx }) w.state_subs small, refl, omega arith)
