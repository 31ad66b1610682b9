-- ===== src/Startup/Configured.antt =====
-- What a successful start leaves in the configuration files.
use inca_go.Base.{ℕ, none, ◌≡◌, inl, inr, Bool, some, arith, Option-cases, Bool-cases}
use inca_go.Wire.{nil_ref, Env}
use inca_go.Result.{ok, Result-cases}
use inca_go.World.{World, done, forget, access, Run-cases}
use inca_go.Transactions.{Bytes}
use inca_go.Encryption.{Strategy, Ctors, build_encryption_strategy}
use inca_go.Chain.New.{Genesis, Config, Stores, new_chain, from_config}
use inca_go.Startup.{
  File, content, Disk, NodeConfig, Tools, Process, Loaded, up, mint_identity, get_node_config,
  mint_chain, get_chain_config, load,
}
use inca_go.Startup.Laws.{File-cases, End-cases, Laws}

-- The files have the configurations of a chain and a node, and the chain can be had from them.
pub record Configured (t : Tools) (st : Stores) (is_known : ℕ → Bool) (ctors : Ctors)
    (node_file chain_file : File) (l : Loaded) : Type 0 where
  pub node_text : Bytes
  pub chain_text : Bytes
  pub node_conf : NodeConfig
  pub node_there : node_file ≡ content node_text
  pub node_read : t.parse_node_config node_text ≡ ok node_conf
  pub key_read : t.unmarshal_key node_conf.priv_key ≡ ok l.key
  pub chain_there : chain_file ≡ content chain_text
  pub chain_read : t.parse_chain_config chain_text ≡ ok l.config
  pub strategy_built :
      build_encryption_strategy is_known l.config.encryption_strategy l.config.encryption_args ctors
      ≡ ok l.strategy
  pub genesis_found : st.follow_genesis l.config.genesis_ref ≡ some l.genesis

module _ (t : Tools) (laws : Laws t) where
  mint_identity_lem :
      (p : Process) (d d' : Disk) (conf : NodeConfig)
      → mint_identity t p d ≡ up conf d'
      → (text : Bytes) × (d'.node_file ≡ content text) × (t.parse_node_config text ≡ ok conf)
  unfolding mint_identity
  mint_identity_lem p d d' conf h = elim (Result-cases p.generate_key) [
    | inr (x, bad) ↦ absurd (ground (arith, bad))
    | inl (key, drawn) ↦ elim (Result-cases (t.marshal_key key)) [
      | inr (x, bad) ↦ absurd (ground (arith, drawn, bad))
      | inl (priv, coded) ↦
          elim (Result-cases (t.print_node_config 2 (record { priv_key = priv }))) [
            | inr (x, bad) ↦ absurd (ground (arith, drawn, coded, bad))
            | inl (text, printed) ↦ elim (Bool-cases (t.write_node_file text).0) [
              | inr bad ↦ absurd (ground (arith, drawn, coded, printed, bad))
              | inl saved ↦
                  let parsed = laws.node_parsed 2 (record { priv_key = priv }) text printed in
                  let there =
                    laws.node_saved text (t.write_node_file text).1 (ground (arith, saved)) in
                  (
                    text,
                    ground (arith, drawn, coded, printed, saved, there),
                    ground (arith, drawn, coded, printed, saved, parsed),
                  )
            ]
          ]
    ]
  ]

  pub get_node_config_lem :
      (p : Process) (d d' : Disk) (conf : NodeConfig)
      → get_node_config t p d ≡ up conf d'
      → (text : Bytes) × (d'.node_file ≡ content text) × (t.parse_node_config text ≡ ok conf)
  unfolding get_node_config
  get_node_config_lem p d d' conf h = elim (File-cases d.node_file) [
    | inl gone ↦ elim (Bool-cases p.create_init_node_config) [
      | inr off ↦ absurd (ground (arith, gone, off))
      | inl on ↦ mint_identity_lem p d d' conf (ground (arith, gone, on))
    ]
    | inr some_file ↦ elim some_file [
      | inl locked ↦ absurd (ground (arith, locked))
      | inr (text, there) ↦ elim (Result-cases (t.parse_node_config text)) [
        | inr (x, bad) ↦ absurd (ground (arith, there, bad))
        | inl (c, parsed) ↦ (text, ground (arith, there, parsed), ground (arith, there, parsed))
      ]
    ]
  ]

module _ (t : Tools) (e : Env) (st : Stores) (is_known : ℕ → Bool) (ctors : Ctors)
    (laws : Laws t) where
  mint_chain_lem :
      (p : Process) (key : ℕ) (d d' : Disk) (conf : Config)
      → mint_chain t e st is_known ctors p key d ≡ up conf d'
      → (text : Bytes) × (d'.chain_file ≡ content text)
        × (t.parse_chain_config text ≡ ok conf)
        × (d'.node_file ≡ d.node_file)
  unfolding mint_chain
  mint_chain_lem p key d d' conf h =
      elim (Result-cases (elim p.build_init_state [ none ↦ ok nil_ref | some stored ↦ stored ])) [
        | inr (x, bad) ↦ absurd (ground (arith, bad))
        | inl (init, stored) ↦
            let args = record (p.new_args key) { chain_id = 1; genesis_state_ref = init } in
            elim (Run-cases (new_chain e st args (forget d.world))) [
              | inr (x, w, bad) ↦ absurd (ground (arith, stored, bad))
              | inl ((c, g), w, made) ↦ elim (Result-cases (t.print_chain_config 0 c)) [
                | inr (x, bad) ↦ absurd (ground (arith, stored, made, bad))
                | inl (text, printed) ↦ elim (Bool-cases (t.write_chain_file text).0) [
                  | inr bad ↦ absurd (ground (arith, stored, made, printed, bad))
                  | inl saved ↦
                      let parsed = laws.chain_parsed 0 c text printed in
                      let there =
                        laws.chain_saved text (t.write_chain_file text).1 (ground (arith, saved)) in
                      (
                        text,
                        ground (arith, stored, made, printed, saved, there),
                        ground (arith, stored, made, printed, saved, parsed),
                        ground (arith, stored, made, printed, saved),
                      )
                ]
              ]
            ]
      ]

  get_chain_config_lem :
      (p : Process) (key : ℕ) (d d' : Disk) (conf : Config)
      → get_chain_config t e st is_known ctors p key d ≡ up conf d'
      → (text : Bytes) × (d'.chain_file ≡ content text)
        × (t.parse_chain_config text ≡ ok conf)
        × (d'.node_file ≡ d.node_file)
  unfolding get_chain_config
  get_chain_config_lem p key d d' conf h = elim (File-cases d.chain_file) [
    | inl gone ↦ mint_chain_lem p key d d' conf (ground (arith, gone))
    | inr some_file ↦ elim some_file [
      | inl locked ↦ absurd (ground (arith, locked))
      | inr (text, there) ↦ elim (Result-cases (t.parse_chain_config text)) [
        | inr (x, bad) ↦ absurd (ground (arith, there, bad))
        | inl (c, parsed) ↦ (
          text,
          ground (arith, there, parsed),
          ground (arith, there, parsed),
          ground (arith, there, parsed),
        )
      ]
    ]
  ]

  pub from_config_lem :
      (conf : Config) (w w' : World) (r : Strategy × Genesis)
      → from_config e st is_known ctors conf w ≡ done r w'
      → (build_encryption_strategy is_known conf.encryption_strategy conf.encryption_args ctors
          ≡ ok (r.0))
        × (st.follow_genesis conf.genesis_ref ≡ some (r.1))
  unfolding from_config access
  from_config_lem conf w w' r h =
      elim (Result-cases
        (build_encryption_strategy is_known conf.encryption_strategy conf.encryption_args ctors)) [
          | inr (x, bad) ↦ absurd (ground (arith, bad))
          | inl (s, built) ↦ elim (Option-cases (st.follow_genesis conf.genesis_ref)) [
            | inl lost ↦ absurd (ground (arith, built, lost))
            | inr (g, found) ↦ (ground (arith, built, found), ground (arith, built, found))
          ]
        ]

  -- A start that succeeds leaves the files that it has its key and its chain from, written by it or
  -- by an earlier one.
  pub load-Configured :
      (p : Process) (d d' : Disk) (l : Loaded)
      → load t e st is_known ctors p d ≡ up l d'
      → Configured t st is_known ctors d'.node_file d'.chain_file l
  unfolding load
  load-Configured p d d' l h = elim (Result-cases p.shell_built) [
    | inr (x, bad) ↦ absurd (ground (arith, bad))
    | inl (u, shell) ↦ elim (Result-cases p.db_built) [
      | inr (x, bad) ↦ absurd (ground (arith, shell, bad))
      | inl (u', db) ↦ elim (End-cases (get_node_config t p d)) [
        | inr (x, d1, bad) ↦ absurd (ground (arith, shell, db, bad))
        | inl (node_conf, d1, read) ↦ elim (Result-cases (t.unmarshal_key node_conf.priv_key)) [
          | inr (x, bad) ↦ absurd (ground (arith, shell, db, read, bad))
          | inl (key, parsed) ↦ elim (End-cases (get_chain_config t e st is_known ctors p key d1)) [
            | inr (x, d2, bad) ↦ absurd (ground (arith, shell, db, read, parsed, bad))
            | inl (conf, d2, got) ↦
                elim (Run-cases (from_config e st is_known ctors conf (forget d2.world))) [
                  | inr (x, w, bad) ↦ absurd (ground (arith, shell, db, read, parsed, got, bad))
                  | inl ((s, g), w, built) ↦
                      let (node_text, node_there, node_read) =
                        get_node_config_lem t laws p d d1 node_conf read in
                      let (chain_text, chain_there, chain_read, same) =
                        get_chain_config_lem p key d1 d2 conf got in
                      let (strategy, genesis) =
                        from_config_lem conf (forget d2.world) w (s, g) built in
                      record {
                        node_text = node_text;
                        chain_text = chain_text;
                        node_conf = node_conf;
                        node_there =
                            ground (arith, shell, db, read, parsed, got, built, node_there, same);
                        node_read = node_read;
                        key_read = ground (arith, shell, db, read, parsed, got, built);
                        chain_there =
                            ground (arith, shell, db, read, parsed, got, built, chain_there);
                        chain_read =
                            ground (arith, shell, db, read, parsed, got, built, chain_read);
                        strategy_built =
                            ground (arith, shell, db, read, parsed, got, built, strategy);
                        genesis_found =
                            ground (arith, shell, db, read, parsed, got, built, genesis);
                      }
                ]
          ]
        ]
      ]
    ]
  ]
