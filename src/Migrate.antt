-- ===== src/Migrate.antt =====
-- internal/migrate/migrate.go. The pool, the embedded files and tern are parameters that pass a state
-- of the database along.
pub mod Laws
use nebula_mnemosina.Prelude.{String, Bool, List, [], ◌∷◌, Option, none, some, if◌then◌else◌}
use nebula_mnemosina.Errors.{Piece, lit, Error, wrap}

pub record Options : Type 0 where
  pub enable_timescale : Bool

-- pool.Acquire and conn.Release; fs.Sub; tern.NewMigrator, by the version table; LoadMigrations, by
-- the directory; and Migrate. `none` is success.
pub record Tern (S : Type 0) : Type 0 where
  pub acquire : S → Option Error × S
  pub release : S → S
  pub sub : String → Option Error
  pub new_migrator : String → S → Option Error × S
  pub load_migrations : String → Option Error
  pub migrate : String → String → S → Option Error × S

module _ {S : Type 0} where
  -- `if err != nil { return err }`
  abbrev pub then_run : Option Error × S → (S → Option Error × S) → Option Error × S
  then_run (none, s) k = k s
  then_run (some e, s) k = (some e, s)

  abbrev pub wrapping : List Piece → Option Error × S → Option Error × S
  wrapping ps (none, s) = (none, s)
  wrapping ps (some e, s) = (some (wrap ps e), s)

module _ {S : Type 0} (tern : Tern S) where
  unfoldable pub run_set : String → String → S → Option Error × S
  run_set version_table dir s =
      then_run
        (wrapping (lit "open embedded " ∷ lit dir ∷ lit " migrations" ∷ []) (tern.sub dir, s))
        (λ s.
          then_run
            (wrapping (lit "initialize " ∷ lit dir ∷ lit " migrator" ∷ [])
              (tern.new_migrator version_table s))
            (λ s.
              then_run
                (wrapping (lit "load " ∷ lit dir ∷ lit " migrations" ∷ [])
                  (tern.load_migrations dir, s))
                (λ s.
                  wrapping (lit "run " ∷ lit dir ∷ lit " migrations" ∷ [])
                    (tern.migrate version_table dir s))))

  unfoldable pub run_timescale : Bool → S → Option Error × S
  run_timescale enabled s =
      if enabled then run_set "public.mnemo_timescale_version" "timescale" s else (none, s)

  -- What follows `defer conn.Release()`, up to the return.
  unfoldable pub run_sets : Options → S → Option Error × S
  unfolding run_timescale
  run_sets options s = then_run (run_set "public.mnemo_schema_version" "core" s) (λ s.
      then_run (run_timescale options.enable_timescale s)
        (λ s. run_set "public.mnemo_views_version" "views" s))

  unfoldable pub run : Options → S → Option Error × S
  run options s =
      then_run (wrapping (lit "acquire migration connection" ∷ []) (tern.acquire s))
        (λ s. ((run_sets options s).0, tern.release (run_sets options s).1))
