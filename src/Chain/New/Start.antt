-- ===== src/Chain/New/Start.antt =====
-- The chain that NewChain makes.
use inca_go.Base.{ℕ, ◌≡◌, inl, inr, true, false, some, sym, ap, subst, ◌∙◌, arith}
use inca_go.Wire.{Ref, disjointed, BlockHeader, Env}
use inca_go.Block.{Block}
use inca_go.World.{
  World, done, Run-cases, get_block, get_block-world, write_block, get_segment_by_id,
}
use inca_go.Segment.Store.{new_segment}
use inca_go.Chain.{write_state}
use inca_go.Chain.New.{
  Genesis, Config, Stores, NewArgs, new_chain, start_chain, mint_block, launch, new_validator_set,
  new_chain_config, new_genesis, first_header,
}
use inca_go.Chain.New.Stored.{Minted, mint_block-world, mint_block-Minted, new_chain-Launched}

-- The chain is at its first block, before any round; the segment of that block is in the database,
-- and is disjointed.
pub record Started (e : Env) (uid : ℕ) (w' : World) : Type 0 where
  pub chain : w'.chain_state ≡ record { state_segment = uid; last_height = 0; last_round = 0 }
  pub stored : w'.stored_chain_state ≡ w'.chain_state
  pub head : w'.last_head_digest ≡ e.object_digest w'.last_block_ref
  pub placed : (w'.blocks w'.last_head_digest).segment_id ≡ uid
  pub disjoint : (w'.memory uid).status ≡ disjointed
  pub whole :
      ((w'.memory uid).head_block ≡ w'.last_block_ref)
      × ((w'.memory uid).tail_block ≡ w'.last_block_ref)
  pub kept : w'.segments uid ≡ some (w'.memory uid)
  pub recheck : w'.recheck ≡ true

-- The chain's head is its first block, which was stored for the genesis and the configuration of the
-- chain, with the validator's key in the set of validators.
pub record First (st : Stores) (a : NewArgs) (conf : Config) (genesis : Genesis) (w' : World)
    : Type 0 where
  pub pub_key : ℕ
  pub validator_id : ℕ
  pub set_ref : Ref
  pub config_ref : Ref
  pub key_read : a.pub_key ≡ some pub_key
  pub id_read : a.validator_id ≡ some validator_id
  pub set_stored : st.store_validator_set (new_validator_set pub_key) ≡ some set_ref
  pub config_stored : st.store_chain_config (new_chain_config set_ref) ≡ some config_ref
  pub genesis_made : genesis ≡ new_genesis a config_ref
  pub genesis_stored : st.store_genesis genesis ≡ some conf.genesis_ref
  pub minted : Minted st a conf.genesis_ref config_ref validator_id w'.last_block_ref
  pub header : w'.last_block_header ≡ some (first_header a conf.genesis_ref config_ref validator_id)
  pub block : Block
  pub is_last : w'.last_block ≡ some block
  pub is_first : block.blk_ref ≡ w'.last_block_ref
  pub in_segment : block.segment_id ≡ a.uid

module _ (e : Env) (st : Stores) where
  start_chain-Started :
      (uid : ℕ) (blk_ref : Ref) (header : BlockHeader) (w w' : World)
      → w.is_loaded uid ≡ false
      → start_chain e st uid blk_ref header w ≡ done tt w'
      → Started e uid w'
  unfolding start_chain get_block new_segment write_block write_state get_segment_by_id
  start_chain-Started uid blk_ref header w w' fresh h = record {
    chain = ground arith;
    stored = ground arith;
    head = ground arith;
    placed = ground arith;
    disjoint = ground arith;
    whole = ground arith;
    kept = ground arith;
    recheck = ground arith;
  }

  get_block-blk_ref :
      (ref : Ref) (w w' : World) (blk : Block) → get_block e ref w ≡ done blk w' → blk.blk_ref ≡ ref
  unfolding get_block
  get_block-blk_ref ref w w' blk h = ground arith

  start_chain-head :
      (uid : ℕ) (blk_ref : Ref) (header : BlockHeader) (w w' : World)
      → w.is_loaded uid ≡ false
      → start_chain e st uid blk_ref header w ≡ done tt w'
      → (w'.last_block_header ≡ some header)
        × (w'.last_block_ref ≡ blk_ref)
        × (block : Block) × (w'.last_block ≡ some block)
        × (block.blk_ref ≡ blk_ref)
        × (block.segment_id ≡ uid)
  unfolding start_chain new_segment write_block write_state get_segment_by_id
  start_chain-head uid blk_ref header w w' fresh h = elim (Run-cases (get_block e blk_ref w)) [
    | inr (x, w1, stopped) ↦ absurd (ground (arith, stopped))
    | inl (blk, w1, read) ↦
        let same = get_block-world e blk_ref w w1 blk read in
        let named = get_block-blk_ref blk_ref w w1 blk read in
        (
          ground (arith, read),
          ground (arith, read),
          record blk { state = record (blk.state) { segment_id = uid } },
          ground (arith, read, same),
          ground (arith, named),
          ground arith,
        )
  ]

  -- A chain that NewChain makes, where no segment in memory has the second id that it draws, is at the
  -- first block, before any round; the block's state names the new segment, which holds that block alone. The segment is disjointed, in memory and in the
  -- database: the state that was stored as valid is under the first of the two segment ids, and the
  -- segment has the second. The chain's head, in all the fields that hold it, is the block that was
  -- stored of the first header and one vote for it; that header names the genesis and the
  -- configuration that were stored, whose set of validators has the given key.
  pub new_chain-Started :
      (a : NewArgs) (w w' : World) (conf : Config) (genesis : Genesis)
      → w.is_loaded a.uid ≡ false
      → new_chain e st a w ≡ done (conf, genesis) w'
      → Started e a.uid w' × First st a conf genesis w'
  unfolding launch
  new_chain-Started a w w' conf genesis fresh h =
      let l = new_chain-Launched e st a w w' conf genesis h in
      let g = conf.genesis_ref in
      let c = l.config_ref in
      let v = l.validator_id in
      elim (Run-cases (mint_block e st a g c v w)) [
        | inr (x, w1, stopped) ↦ absurd (ground (arith, stopped, l.launched))
        | inl ((blk_ref, header), w1, minted) ↦
            let same = mint_block-world e st a g c v w w1 (blk_ref, header) minted in
            let of_block = mint_block-Minted e st a g c v w w1 blk_ref header minted in
            let start : start_chain e st a.uid blk_ref header w ≡ done tt w' =
              ground (arith, minted, same, l.launched) in
            let head = start_chain-head a.uid blk_ref header w w' fresh start in
            (
              start_chain-Started a.uid blk_ref header w w' fresh start,
              record {
                pub_key = l.pub_key;
                validator_id = v;
                set_ref = l.set_ref;
                config_ref = c;
                key_read = l.key_read;
                id_read = l.id_read;
                set_stored = l.set_stored;
                config_stored = l.config_stored;
                genesis_made = l.genesis_made;
                genesis_stored = l.minted;
                minted = subst (λ r. Minted st a g c v r) (sym head.1) (of_block.1);
                header = head.0 ∙ ap some (of_block.0);
                block = head.2;
                is_last = head.3;
                is_first = head.4 ∙ sym head.1;
                in_segment = head.5;
              },
            )
      ]

  -- The call ends with the start of the chain at its first block, on the world that it began with.
  pub new_chain-start_chain :
      (a : NewArgs) (w w' : World) (conf : Config) (genesis : Genesis)
      → new_chain e st a w ≡ done (conf, genesis) w'
      → (blk_ref : Ref) × (header : BlockHeader) × (start_chain e st a.uid blk_ref header w
          ≡ done tt w')
  unfolding launch
  new_chain-start_chain a w w' conf genesis h =
      let l = new_chain-Launched e st a w w' conf genesis h in
      let g = conf.genesis_ref in
      let c = l.config_ref in
      let v = l.validator_id in
      elim (Run-cases (mint_block e st a g c v w)) [
        | inr (x, w1, stopped) ↦ absurd (ground (arith, stopped, l.launched))
        | inl ((blk_ref, header), w1, minted) ↦
            let same = mint_block-world e st a g c v w w1 (blk_ref, header) minted in
            (blk_ref, header, ground (arith, minted, same, l.launched))
      ]
