-- ===== src/Migrate/Laws.antt =====
-- The order of the sets of migrations in Run of internal/migrate/migrate.go.
use nebula_mnemosina.Prelude.{
  String, Bool, true, false, List, [], ◌∷◌, ◌++◌, Option, none, some, ◌≡◌, ◌⊎◌, inl, inr, refl,
  subst, if◌then◌else◌,
}
use nebula_mnemosina.Errors.{lit, Error, wrap}
use nebula_mnemosina.Migrate.{
  Options, Tern, then_run, wrapping, run_set, run_timescale, run_sets, run,
}

-- The sets: version table and directory.
abbrev pub sets : Options → List (String × String)
sets options =
    ("public.mnemo_schema_version", "core")
      ∷ (if options.enable_timescale
          then ("public.mnemo_timescale_version", "timescale") ∷ []
          else [])
    ++ ("public.mnemo_views_version", "views") ∷ []

module _ {S : Type 0} (tern : Tern S) where
  -- The sets one behind the other, with what each leaves; `stop` is the error of the first that fails.
  pub data Applied : List (String × String) → S → Option Error → S → Type 0 where
    finished : {s : S} → Applied [] s none s
    failed :
        {table dir : String} {rest : List (String × String)} {s t : S} {e : Error}
        → run_set tern table dir s ≡ (some e, t)
        → Applied ((table, dir) ∷ rest) s (some e) t
    applied :
        {table dir : String} {rest : List (String × String)} {s t u : S} {stop : Option Error}
        → run_set tern table dir s ≡ (none, t)
        → Applied rest t stop u
        → Applied ((table, dir) ∷ rest) s stop u

  then_applied :
      {table dir : String} {rest : List (String × String)} {s : S} (k : S → Option Error × S)
      → ((t : S) → Applied rest t (k t).0 (k t).1)
      → let r = then_run (run_set tern table dir s) k in Applied ((table, dir) ∷ rest) s r.0 r.1
  then_applied {table} {dir} {rest} {s} k h = go (run_set tern table dir s) refl
    where
      go :
          (r : Option Error × S)
          → run_set tern table dir s ≡ r
          → Applied ((table, dir) ∷ rest) s (then_run r k).0 (then_run r k).1
      go (none, t) e = applied e (h t)
      go (some x, t) e = failed e

  then_run-none : (r : Option Error × S) → then_run r (λ s. (none, s)) ≡ r
  then_run-none (none, s) = refl
  then_run-none (some e, s) = refl

  views_applied :
      (s : S)
      → let r = run_set tern "public.mnemo_views_version" "views" s in
        Applied (("public.mnemo_views_version", "views") ∷ []) s r.0 r.1
  views_applied s =
      subst (λ r. Applied (("public.mnemo_views_version", "views") ∷ []) s r.0 r.1)
        (then_run-none _) (then_applied (λ t. (none, t)) (λ t. finished))

  -- Behind the core set.
  rest_applied :
      (enabled : Bool) (s : S)
      → let r =
          then_run
            (run_timescale tern enabled s)
            (λ s. run_set tern "public.mnemo_views_version" "views" s) in
        Applied
          ((if enabled then ("public.mnemo_timescale_version", "timescale") ∷ [] else [])
            ++ ("public.mnemo_views_version", "views") ∷ [])
          s
          r.0
          r.1
  unfolding run_timescale
  rest_applied true s = then_applied _ views_applied
  rest_applied false s = views_applied s

  -- With a connection, the migrations run set by set, in order: core, then timescale if it is enabled,
  -- then views. The first that fails is the last that is run, and its error is returned.
  pub run_sets_lem :
      (options : Options) (s : S)
      → Applied (sets options) s (run_sets tern options s).0 (run_sets tern options s).1
  unfolding run_sets
  run_sets_lem options s = then_applied _ (rest_applied options.enable_timescale)

  -- With a connection, the migrations run set by set, in order: core, then timescale if it is
  -- enabled, then views; the first that fails is the last that is run, its error is returned, and
  -- the connection is released in every case. Without a connection nothing runs, and the error of
  -- acquiring it is returned.
  pub run_applies :
      (options : Options) (s : S)
      → let (e, t) = tern.acquire s in
        ((e ≡ none)
          × ((stop : Option Error) × (u : S) × Applied (sets options) t stop u
              × (run tern options s ≡ (stop, tern.release u))))
        ⊎ ((x : Error) × (e ≡ some x)
            × (run tern options s ≡ (some (wrap (lit "acquire migration connection" ∷ []) x), t)))
  unfolding run
  run_applies options s = go (tern.acquire s)
    where
      go :
          (r : Option Error × S)
          → ((r.0 ≡ none)
              × ((stop : Option Error) × (u : S) × Applied (sets options) r.1 stop u
                  × (then_run (wrapping (lit "acquire migration connection" ∷ []) r) (λ s.
                        ((run_sets tern options s).0, tern.release (run_sets tern options s).1))
                      ≡ (stop, tern.release u))))
            ⊎ ((x : Error) × (r.0 ≡ some x)
                × (then_run
                      (wrapping (lit "acquire migration connection" ∷ []) r)
                      (λ s. ((run_sets tern options s).0, tern.release (run_sets tern options s).1))
                    ≡ (some (wrap (lit "acquire migration connection" ∷ []) x), r.1)))
      go (none, t) = inl (refl, (_, _, run_sets_lem options t, refl))
      go (some x, t) = inr (x, refl, refl)
