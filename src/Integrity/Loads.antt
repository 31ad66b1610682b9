-- ===== src/Integrity/Loads.antt =====
-- The calls of the chain that handles a segment read no segment into memory.
use inca_go.Base.{ℕ, ◌≡◌, inl, inr, Bool, Bool-cases, Option-cases, ◌==◌}
use inca_go.Wire.{Ref, Env, valid}
use inca_go.Block.{Block}
use inca_go.World.{World, Run, done, failed, access, get_block, write_segment}
use inca_go.Segment.{is_status, mark_valid}
use inca_go.Chain.{write_state, set_head_block, mark_as_head, same_validator_set, adopt_segment}

-- How a run ends, well or not.
abbrev pub after {ℓ} : {A : Type ℓ} → Run A → World
after (done _ w) = w
after (failed _ w) = w

-- The segments in memory are those of `l`.
pub record Loads {ℓ} {A : Type ℓ} (l : ℕ → Bool) (r : Run A) : Type 0 where
  pub same : (after r).is_loaded ≡ l

bind-Loads {ℓ κ} :
    {A : Type ℓ} {B : Type κ} (l : ℕ → Bool) (r : Run A) (f : A → World → Run B)
    → Loads l r
    → ((a : A) (w : World) → w.is_loaded ≡ l → Loads l (f a w))
    → Loads l (elim r [ done a w ↦ f a w | failed x w ↦ failed x w ])
bind-Loads l (done a w) f h k = k a w h.same
bind-Loads l (failed x w) f h k = record { same = h.same }

module _ (e : Env) (l : ℕ → Bool) where
  access-Loads : (w : World) → w.is_loaded ≡ l → Loads l (access e w)
  unfolding access
  access-Loads w h = elim (Bool-cases (e.db_fails w.accesses)) [
    | inl down ↦ rw down (record { same = h })
    | inr up ↦ rw up (record { same = h })
  ]

  get_block-Loads : (ref : Ref) (w : World) → w.is_loaded ≡ l → Loads l (get_block e ref w)
  unfolding get_block
  get_block-Loads ref w h = elim (Option-cases (e.follow_block ref)) [
    | inl missing ↦ rw missing (record { same = h })
    | inr (inner, found) ↦ elim (Option-cases (e.follow_header inner.block_header_ref)) [
      | inl missing ↦ rw (found, missing) (record { same = h })
      | inr (header, header_found) ↦
          rw (found, header_found)
            (bind-Loads l (access e w) _ (access-Loads w h) (λ u w1 h1. record { same = h1 }))
    ]
  ]

  set_head_block-Loads :
      (head : Block) (w : World) → w.is_loaded ≡ l → Loads l (set_head_block e head w)
  unfolding set_head_block write_state
  set_head_block-Loads head w h =
      bind-Loads l _ _ (access-Loads _ h) (λ u w1 h1. record { same = h1 })

  mark_valid-Loads : (s : ℕ) (w : World) → w.is_loaded ≡ l → Loads l (mark_valid e s w)
  unfolding mark_valid write_segment
  mark_valid-Loads s w h = elim (Bool-cases (is_status (w.memory s).status valid)) [
    | inl already ↦ rw already (record { same = h })
    | inr other ↦ rw other (bind-Loads l _ _ (access-Loads _ h) (λ u w1 h1. record { same = h1 }))
  ]

  mark_as_head-Loads :
      (s : ℕ) (head : Block) (w : World) → w.is_loaded ≡ l → Loads l (mark_as_head e s head w)
  unfolding mark_as_head
  mark_as_head-Loads s head w h =
      bind-Loads l (mark_valid e s w) _ (mark_valid-Loads s w h)
        (λ u w1 h1. set_head_block-Loads head w1 h1)

  same_validator_set-Loads :
      (init_ref : Ref) (s : ℕ) (head : Block) (w : World)
      → w.is_loaded ≡ l
      → Loads l (same_validator_set e init_ref s head w)
  unfolding same_validator_set
  same_validator_set-Loads init_ref s head w h =
      elim (Option-cases (e.follow_chain_config init_ref)) [
        | inl missing ↦ rw missing (record { same = h })
        | inr (init, found) ↦
            elim (Option-cases (e.follow_chain_config head.header.chain_config_ref)) [
              | inl missing ↦ rw (found, missing) (record { same = h })
              | inr (conf, found') ↦
                  elim (Bool-cases (e.ref_equals init.validator_set_ref conf.validator_set_ref)) [
                    | inl same ↦ rw (found, found', same) (mark_as_head-Loads s head w h)
                    | inr differs ↦ rw (found, found', differs) (record { same = h })
                  ]
            ]
      ]

  pub adopt_segment-Loads :
      (init_ref : Ref) (s : ℕ) (w : World)
      → w.is_loaded ≡ l
      → Loads l (adopt_segment e init_ref s w)
  unfolding adopt_segment
  adopt_segment-Loads init_ref s w h =
      bind-Loads l (get_block e (w.memory s).head_block w) _ (get_block-Loads _ w h) (λ head w1 h1.
        bind-Loads l (get_block e (w.memory s).tail_block w1) _ (get_block-Loads _ w1 h1)
          (λ tail w2 h2. elim (Bool-cases (e.ref_equals tail.header.chain_config_ref init_ref)) [
            | inl first ↦ rw first (mark_as_head-Loads s head w2 h2)
            | inr later ↦ elim (Bool-cases ((w.memory s).tail_block_round.height == 0)) [
              | inl genesis ↦ rw (later, genesis) (record { same = h2 })
              | inr grown ↦ rw (later, grown) (same_validator_set-Loads init_ref s head w2 h2)
            ]
          ]))
