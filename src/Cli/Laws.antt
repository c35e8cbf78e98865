-- ===== src/Cli/Laws.antt =====
-- When a server is served, when a run fails, and what it prints.
use mcp_opa.Base.{
  ℕ, suc, ◌≡◌, ◌≢◌, ◌↔◌, ◌⊎◌, inl, inr, refl, true, false, List, [], ◌∷◌, ◌++◌, Bytes, codes, arith,
  ok, err, Result-cases, Bool-cases,
}
use mcp_opa.Config.Load.{Config, ConfigError, Environment, DurationParser, load_config}
use mcp_opa.Config.Messages.{config_message}
use mcp_opa.Server.Texts.{usage}
use mcp_opa.Cli.{
  resolve_version, BuildInfo, Served, finished, broke, Ending, Program, exits, serves, outcome,
  ending_of, run_argument, run, complaint, is_word, version_words, help_words,
}

ending_of_ok :
    (s : Served)
    → ((ending_of s).code ≡ 0) ⊎ (((ending_of s).code ≡ 1) × ((e : Bytes) × (s ≡ broke e false)))
unfolding ending_of
ending_of_ok finished = inl refl
ending_of_ok (broke e true) = inl refl
ending_of_ok (broke e false) = inr (refl, (e, refl))

-- What an ending prints: a complaint exactly where it fails, and then nothing else.
pub record PrintsApart (e : Ending) : Type 0 where
  pub quiet : e.code ≡ 0 → e.stderr ≡ []
  pub complains : e.code ≢ 0 → (e.stdout ≡ []) × ((msg : Bytes) × (e.stderr ≡ complaint msg))

-- The standard output belongs to the transport while a server is served.
pub record KeepsStreams {Server : Type 0} (serve_stdio : Server → Served) (p : Program Server)
    : Type 0 where
  pub prints : PrintsApart (outcome serve_stdio p)
  pub leaves_stdout :
      (s : Server) (next : Served → Ending)
      → p ≡ serves s next
      → (outcome serve_stdio p).stdout ≡ []

prints-PrintsApart :
    (stdout : Bytes) → PrintsApart (record { code = 0; stdout = stdout; stderr = [] })
prints-PrintsApart stdout = record { quiet = λ z. refl; complains = λ h. absurd (h refl) }

complains-PrintsApart :
    (k : ℕ) (msg : Bytes)
    → PrintsApart (record { code = suc k; stdout = []; stderr = complaint msg })
complains-PrintsApart k msg = record {
  quiet = λ z. absurd (omega (arith, z));
  complains = λ h. (refl, (msg, refl));
}

ending_of-PrintsApart : (s : Served) → PrintsApart (ending_of s) × ((ending_of s).stdout ≡ [])
unfolding ending_of
ending_of-PrintsApart finished = (prints-PrintsApart [], refl)
ending_of-PrintsApart (broke e true) = (prints-PrintsApart [], refl)
ending_of-PrintsApart (broke e false) = (complains-PrintsApart 0 e, refl)

module _ {Server : Type 0} (serve_stdio : Server → Served) where
  exits-KeepsStreams : (e : Ending) → PrintsApart e → KeepsStreams serve_stdio (exits e)
  exits-KeepsStreams e p = record { prints = p; leaves_stdout = λ s next h. absurd (cc) }

  serves-KeepsStreams : (s : Server) → KeepsStreams serve_stdio (serves s ending_of)
  serves-KeepsStreams s =
      let (apart, silent) = ending_of-PrintsApart (serve_stdio s) in
      record { prints = apart; leaves_stdout = λ s next h. silent }

module _ (quote : Bytes → Bytes) (version : Bytes) (info : BuildInfo) where
  run_argument-PrintsApart : (arg : Bytes) → PrintsApart (run_argument quote version info arg)
  unfolding run_argument
  run_argument-PrintsApart arg = elim (Bool-cases (is_word arg version_words)) [
    | inl v ↦
        rw (v, run_argument)
          (prints-PrintsApart
            (codes "mcp-opa-authz " ++ (resolve_version version info ++ codes "\n")))
    | inr other ↦ elim (Bool-cases (is_word arg help_words)) [
      | inl h ↦ rw (other, h, run_argument) (prints-PrintsApart (codes usage ++ codes "\n"))
      | inr unknown ↦
          rw (other, unknown, run_argument)
            (complains-PrintsApart 1
              (codes "unknown argument " ++ (quote arg ++ (codes "\n\n" ++ codes usage))))
    ]
  ]

module _ (quote : Bytes → Bytes) (version : Bytes) (info : BuildInfo) (parse : DurationParser)
    (env : Environment) {Server : Type 0} (new_server : Config → Server) where
  -- The server that is given to the transport.
  abbrev pub Serves : List Bytes → Server → Type 0
  Serves args s =
      (next : Served → Ending) × (run quote version info parse env new_server args ≡ serves s next)

  pub Serves-loads :
      (args : List Bytes) (s : Server)
      → Serves args s
      → (args ≡ []) × ((cfg : Config) × (load_config parse env ≡ ok cfg) × (s ≡ new_server cfg))
  unfolding run
  Serves-loads [] s (next, h) = elim (Result-cases (load_config parse env)) [
    | inl (e, bad) ↦ absurd (ground (arith, bad))
    | inr (cfg, good) ↦ (refl, (cfg, good, ground (arith, good)))
  ]
  Serves-loads (arg ∷ rest) s (next, h) = absurd (cc)

  pub loads-Serves : (cfg : Config) → load_config parse env ≡ ok cfg → Serves [] (new_server cfg)
  unfolding run
  loads-Serves cfg good = (ending_of, rw (good, run) refl)

  module _ (serve_stdio : Server → Served) where
    -- Whatever the arguments, the environment and the transport do: a run that exits with 0 prints no
    -- complaint; one that exits with another code prints one, behind the program's name, and nothing to
    -- the standard output; and one that serves prints nothing to the standard output.
    pub run-KeepsStreams :
        (args : List Bytes)
        → KeepsStreams serve_stdio (run quote version info parse env new_server args)
    unfolding run
    run-KeepsStreams [] = elim (Result-cases (load_config parse env)) [
      | inl (e, bad) ↦
          rw (bad, run)
            (exits-KeepsStreams serve_stdio _ (complains-PrintsApart 0 (config_message quote e)))
      | inr (cfg, good) ↦ rw (good, run) (serves-KeepsStreams serve_stdio (new_server cfg))
    ]
    run-KeepsStreams (arg ∷ rest) =
        exits-KeepsStreams serve_stdio _ (run_argument-PrintsApart quote version info arg)

    -- Why a run without arguments fails.
    abbrev FailsToServe : Type 0
    FailsToServe =
        ((e : ConfigError) × (load_config parse env ≡ err e))
        ⊎ ((cfg : Config) × (e : Bytes) × (load_config parse env ≡ ok cfg)
            × (serve_stdio (new_server cfg) ≡ broke e false))

    abbrev Fails : Type 0
    Fails = (outcome serve_stdio (run quote version info parse env new_server [])).code ≢ 0

    fails_sound : Fails → FailsToServe
    unfolding run
    fails_sound h = elim (Result-cases (load_config parse env)) [
      | inl (e, bad) ↦ inl (e, bad)
      | inr (cfg, good) ↦ elim (ending_of_ok (serve_stdio (new_server cfg))) [
        | inl zero ↦ absurd (h (ground (arith, good, zero)))
        | inr (one, (e, s)) ↦ inr (cfg, e, good, s)
      ]
    ]

    fails_complete : FailsToServe → Fails
    unfolding run ending_of
    fails_complete (inl (e, bad)) h = ground (arith, bad)
    fails_complete (inr (cfg, e, good, s)) h = ground (arith, good, s)

    -- A run without arguments exits with another code than 0 exactly when the configuration cannot be
    -- loaded, or serving breaks off with an error that is no cancellation.
    run-fails_iff : Fails ↔ FailsToServe
    run-fails_iff = (fails_sound, fails_complete)
