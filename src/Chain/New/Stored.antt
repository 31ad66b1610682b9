-- ===== src/Chain/New/Stored.antt =====
-- What NewChain draws and stores on its way to a chain's first block.
use inca_go.Base.{ℕ, ◌≡◌, inl, inr, some, [], ◌∷◌, arith, Option-cases}
use inca_go.Wire.{Ref, valid, BlockHeader, Env}
use inca_go.Result.{ok, Result-cases}
use inca_go.World.{World, done}
use inca_go.Transactions.{Bytes}
use inca_go.Chain.New.{
  Genesis, Config, Stores, NewArgs, new_chain, mint_block, launch, new_validator_set,
  new_chain_config, new_genesis, first_header,
}

-- What mint_block has stored: the header of the first block, a vote for it, the block of both, and
-- the state of a valid segment of the block under the first of the two ids.
pub record Minted (st : Stores) (a : NewArgs) (genesis_ref config_ref : Ref) (validator_id : ℕ)
    (blk_ref : Ref) : Type 0 where
  pub header_ref : Ref
  pub vote_ref : Ref
  pub header_stored :
      st.store_header (first_header a genesis_ref config_ref validator_id) ≡ some header_ref
  pub vote_stored : st.store_vote header_ref ≡ some vote_ref
  pub block_stored :
      st.store_block (record { block_header_ref = header_ref; vote_refs = vote_ref ∷ [] })
      ≡ some blk_ref
  pub state_stored :
      st.store_local (record {
        id = a.first_uid;
        status = valid;
        head_block = blk_ref;
        tail_block = blk_ref;
        tail_block_round = record { height = 0; round = 0 };
        segment_next = 0;
        segment_prev = 0;
      })
      ≡ some tt

-- What a call of NewChain that succeeds has drawn and stored.
pub record Launched (e : Env) (st : Stores) (a : NewArgs) (w w' : World) (conf : Config)
    (genesis : Genesis) : Type 0 where
  pub pub_key : ℕ
  pub set_ref : Ref
  pub config_ref : Ref
  pub validator_id : ℕ
  pub random : Bytes
  pub key_read : a.pub_key ≡ some pub_key
  pub id_read : a.validator_id ≡ some validator_id
  pub set_stored : st.store_validator_set (new_validator_set pub_key) ≡ some set_ref
  pub config_stored : st.store_chain_config (new_chain_config set_ref) ≡ some config_ref
  pub genesis_made : genesis ≡ new_genesis a config_ref
  pub drawn : a.random ≡ ok random
  pub encoded : a.encode random ≡ ok conf.encryption_args
  pub kind : conf.encryption_strategy ≡ a.strategy_kind
  pub minted : st.store_genesis genesis ≡ some conf.genesis_ref
  pub launched : launch e st a conf.genesis_ref config_ref validator_id w ≡ done tt w'

module _ (e : Env) (st : Stores) where
  pub mint_block-world :
      (a : NewArgs) (g c : Ref) (v : ℕ) (w w' : World) (r : Ref × BlockHeader)
      → mint_block e st a g c v w ≡ done r w'
      → w' ≡ w
  unfolding mint_block
  mint_block-world a g c v w w' r h = ground arith

  pub mint_block-Minted :
      (a : NewArgs) (g c : Ref) (v : ℕ) (w w' : World) (blk_ref : Ref) (header : BlockHeader)
      → mint_block e st a g c v w ≡ done (blk_ref, header) w'
      → (header ≡ first_header a g c v) × Minted st a g c v blk_ref
  unfolding mint_block
  mint_block-Minted a g c v w w' blk_ref header h =
      elim (Option-cases (st.store_header (first_header a g c v))) [
        | inl bad ↦ absurd (ground (arith, bad))
        | inr (header_ref, e0) ↦ elim (Option-cases (st.store_vote header_ref)) [
          | inl bad ↦ absurd (ground (arith, e0, bad))
          | inr (vote_ref, e1) ↦ (
            ground (arith, e0, e1),
            record {
              header_ref = header_ref;
              vote_ref = vote_ref;
              header_stored = e0;
              vote_stored = e1;
              block_stored = ground (arith, e0, e1);
              state_stored = ground (arith, e0, e1);
            },
          )
        ]
      ]

  pub new_chain-Launched :
      (a : NewArgs) (w w' : World) (conf : Config) (genesis : Genesis)
      → new_chain e st a w ≡ done (conf, genesis) w'
      → Launched e st a w w' conf genesis
  unfolding new_chain
  new_chain-Launched a w w' conf genesis h = elim (Result-cases a.random) [
    | inr (x, bad) ↦ absurd (ground (arith, bad))
    | inl (random, e0) ↦ elim (Result-cases (a.encode random)) [
      | inr (x, bad) ↦ absurd (ground (arith, e0, bad))
      | inl (args, e1) ↦ elim (Option-cases a.pub_key) [
        | inl bad ↦ absurd (ground (arith, e0, e1, bad))
        | inr (key, e2) ↦ elim (Option-cases a.validator_id) [
          | inl bad ↦ absurd (ground (arith, e0, e1, e2, bad))
          | inr (vid, e3) ↦ elim (Option-cases (st.store_validator_set (new_validator_set key))) [
            | inl bad ↦ absurd (ground (arith, e0, e1, e2, e3, bad))
            | inr (set_ref, e4) ↦
                elim (Option-cases (st.store_chain_config (new_chain_config set_ref))) [
                  | inl bad ↦ absurd (ground (arith, e0, e1, e2, e3, e4, bad))
                  | inr (config_ref, e5) ↦
                      elim (Option-cases (st.store_genesis (new_genesis a config_ref))) [
                        | inl bad ↦ absurd (ground (arith, e0, e1, e2, e3, e4, e5, bad))
                        | inr (g, e6) ↦ record {
                          pub_key = key;
                          set_ref = set_ref;
                          config_ref = config_ref;
                          key_read = e2;
                          id_read = e3;
                          set_stored = e4;
                          config_stored = e5;
                          genesis_made = ground (arith, e0, e1, e2, e3, e4, e5, e6);
                          validator_id = vid;
                          random = random;
                          drawn = e0;
                          encoded = ground (arith, e0, e1, e2, e3, e4, e5, e6);
                          kind = ground (arith, e0, e1, e2, e3, e4, e5, e6);
                          minted = ground (arith, e0, e1, e2, e3, e4, e5, e6);
                          launched = ground (arith, e0, e1, e2, e3, e4, e5, e6);
                        }
                      ]
                ]
          ]
        ]
      ]
    ]
  ]
