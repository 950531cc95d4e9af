-- ===== src/Storage/Save/Body.antt =====
-- What the statements between BeginTx and Commit leave in the tables, if all of them succeed.
use native.Mathlib.Numerals.{unary_clauses}
use nebula_mnemosina.Prelude.{
  ℕ, suc, false, List, [], ◌∷◌, ◌++◌, append-nil, map, Option, ◌==◌, ◌≡◌, refl, sym, ap, ◌∙◌, arith,
  ◌+◌, inl, inr, Bool-cases,
}
use mathlib.Core.List.{map-append}
use nebula_mnemosina.Errors.{Piece, lit, ok}
use nebula_mnemosina.Model.{PollResult, target}
use nebula_mnemosina.Db.{
  Fault, PollRun, Tables, Session, Query, ◌>>◌, continue, wrapping, wrap_result, >>=-eq-ok,
  wrap_result-ok,
}
use nebula_mnemosina.Db.Params.{CreatePollRunParams, CompletePollRunParams}
use nebula_mnemosina.Db.PollRuns.{has_run, new_run, create_poll_run, completed, complete_poll_run}
use nebula_mnemosina.Db.PollRuns.Laws.{checked_ok}
use nebula_mnemosina.Storage.{timestamptz}
use nebula_mnemosina.Storage.Save.{
  Marshal, insert_commands, insert_hostmap_entries, insert_lighthouse_addrmap, insert_relays,
  complete_params, save_body,
}
use nebula_mnemosina.Storage.Save.Rows.{Added, add, Adds, nothing, both, add-both, add-nothing}
use nebula_mnemosina.Storage.Save.Loops.{
  command_rows, hostmap_rows, insert_commands_lem, insert_hostmap_entries_lem,
}
use nebula_mnemosina.Storage.Save.Reporters.{
  addrmap_rows, relay_rows, insert_lighthouse_addrmap_lem, insert_relays_lem,
}

-- The other runs are not touched by the UPDATE.
completed_others :
    (p : CompletePollRunParams) (rs : List PollRun)
    → has_run p.id rs ≡ false
    → map (completed p) rs ≡ rs
unfolding has_run
completed_others p [] h = refl
completed_others p (r ∷ rs) h = elim (Bool-cases (r.id == p.id)) [
  | inl e ↦ absurd (ground arith)
  | inr e ↦ rw e (ap (λ t. r ∷ t) (completed_others p rs (ground arith)))
]

-- A query that succeeds and adds rows behind others, and the rest behind it.
behind :
    (q k : Query (Unit {0})) (s : Session) (a b : Added) (f : List (Option Fault))
    → ((q (add a f s)).0 ≡ ok tt → Adds q (add a f s) b)
    → ((q >> k) (add a f s)).0 ≡ ok tt
    → (g : List (Option Fault)) × ((q >> k) (add a f s) ≡ k (add (both a b) g s))
      × ((k (add (both a b) g s)).0 ≡ ok tt)
behind q k s a b f first h =
    let (_, e, split) = >>=-eq-ok q (λ _. k) (add a f s) h in
    let (g, ran) = first e in
    let go : (q >> k) (add a f s) ≡ k (add (both a b) g s) =
      split ∙ ap (λ r. k r.1) ran ∙ ap k (add-both a b f g s) in
    (g, go, sym (ap (λ r. r.0) go) ∙ h)

module _ (marshal : Marshal) (result : PollResult) where
  abbrev pub create_params : CreatePollRunParams
  create_params = record {
    started_at = timestamptz result.started_at;
    lighthouse_name = result.lighthouse.name;
    ssh_target = target result.lighthouse;
  }

  -- The row of poll_runs that a save leaves.
  abbrev pub finished_run : ℕ → PollRun
  finished_run id = completed (complete_params id result) (new_run id create_params)

  -- The rows of the other tables.
  abbrev pub result_rows : ℕ → ℕ → Added
  result_rows run_id next = record {
    raw = command_rows run_id result next result.commands;
    hostmap =
        hostmap_rows run_id result marshal "hostmap" 0 result.hostmap
        ++ hostmap_rows run_id result marshal "pending" 0 result.pending;
    addrmap = addrmap_rows run_id result result.addrmap;
    relays = relay_rows run_id result;
  }

  -- The session behind the creation of the run.
  abbrev created : List (Option Fault) → Session → Session
  created faults s = record {
    tables = record s.tables {
      poll_runs = s.tables.poll_runs ++ new_run s.next_run create_params ∷ [];
    };
    next_run = suc s.next_run;
    next_payload = s.next_payload;
    faults = faults;
  }

  -- Everything between the creation of the run and its completion.
  abbrev rest : ℕ → Query (Unit {0}) → Query (Unit {0})
  rest run_id last =
      insert_commands run_id result result.commands
      >> (insert_hostmap_entries marshal run_id result "hostmap" 0 result.hostmap
          >> (insert_hostmap_entries marshal run_id result "pending" 0 result.pending
              >> (insert_lighthouse_addrmap run_id result result.addrmap
                  >> (insert_relays run_id result >> last))))

  rest_lem :
      (run_id : ℕ) (last : Query (Unit {0})) (s : Session)
      → (rest run_id last (add nothing s.faults s)).0 ≡ ok tt
      → (f : List (Option Fault)) × (rest run_id last (add nothing s.faults s)
          ≡ last (add (result_rows run_id s.next_payload) f s))
        × ((last (add (result_rows run_id s.next_payload) f s)).0 ≡ ok tt)
  rest_lem run_id last s h =
      let a : Added = record nothing {
        raw = command_rows run_id result (s.next_payload + 0) result.commands;
      } in
      let b : Added = record nothing {
        hostmap = hostmap_rows run_id result marshal "hostmap" 0 result.hostmap;
      } in
      let c : Added = record nothing {
        hostmap = hostmap_rows run_id result marshal "pending" 0 result.pending;
      } in
      let d : Added = record nothing { addrmap = addrmap_rows run_id result result.addrmap } in
      let e : Added = record nothing { relays = relay_rows run_id result } in
      let ab : Added = both (both nothing a) b in
      let (f1, g1, h1) =
        behind (insert_commands run_id result result.commands) _ s nothing a s.faults
          (insert_commands_lem run_id result result.commands (add nothing s.faults s)) h in
      let (f2, g2, h2) =
        behind (insert_hostmap_entries marshal run_id result "hostmap" 0 result.hostmap) _ s
          (both nothing a) b f1
          (insert_hostmap_entries_lem run_id result marshal "hostmap" 0 result.hostmap
            (add (both nothing a) f1 s))
          h1 in
      let (f3, g3, h3) =
        behind (insert_hostmap_entries marshal run_id result "pending" 0 result.pending) _ s ab c f2
          (insert_hostmap_entries_lem run_id result marshal "pending" 0 result.pending
            (add ab f2 s))
          h2 in
      let (f4, g4, h4) =
        behind (insert_lighthouse_addrmap run_id result result.addrmap) _ s (both ab c) d f3
          (insert_lighthouse_addrmap_lem run_id result result.addrmap (add (both ab c) f3 s)) h3 in
      let (f5, g5, h5) =
        behind (insert_relays run_id result) last s (both (both ab c) d) e f4
          (insert_relays_lem run_id result (add (both (both ab c) d) f4 s)) h4 in
      let same : both (both (both ab c) d) e ≡ result_rows run_id s.next_payload =
        simp (append-nil, unary_clauses) in
      (
        f5,
        g1 ∙ g2 ∙ g3 ∙ g4 ∙ g5 ∙ ap (λ t. last (add t f5 s)) same,
        sym (ap (λ t. (last (add t f5 s)).0) same) ∙ h5,
      )

  -- The tables behind a save that succeeded.
  abbrev pub saved_tables : Session → Tables
  saved_tables s =
      let rows = result_rows s.next_run s.next_payload in
      record {
        poll_runs = s.tables.poll_runs ++ finished_run s.next_run ∷ [];
        raw_command_payloads = s.tables.raw_command_payloads ++ rows.raw;
        hostmap_entries = s.tables.hostmap_entries ++ rows.hostmap;
        lighthouse_addrmap_entries = s.tables.lighthouse_addrmap_entries ++ rows.addrmap;
        relay_snapshots = s.tables.relay_snapshots ++ rows.relays;
      }

  create_lem :
      (s : Session) {id : ℕ}
      → (create_poll_run create_params s).0 ≡ ok id
      → (f : List (Option Fault)) × (create_poll_run create_params s ≡ (ok s.next_run, created f s))
  unfolding create_poll_run
  create_lem s h = let (f, _, ran) = checked_ok _ _ s h in (f, ran)

  complete_lem :
      (p : CompletePollRunParams) (s : Session)
      → (complete_poll_run p s).0 ≡ ok tt
      → (complete_poll_run p s).1.tables
        ≡ record s.tables { poll_runs = map (completed p) s.tables.poll_runs }
  unfolding complete_poll_run
  complete_lem p s h = let (f, _, ran) = checked_ok _ _ s h in ap (λ r. r.1.tables) ran

  abbrev complete : ℕ → Query (Unit {0})
  complete id =
      wrapping (lit "complete poll run" ∷ []) (complete_poll_run (complete_params id result))

  pub save_body_lem :
      (s : Session)
      → has_run s.next_run s.tables.poll_runs ≡ false
      → (save_body marshal result s).0 ≡ ok tt
      → (save_body marshal result s).1.tables ≡ saved_tables s
  unfolding save_body complete_params
  save_body_lem s fresh h =
      let id = s.next_run in
      let ps : List Piece = lit "create poll run" ∷ [] in
      let (_, e, _) =
        >>=-eq-ok (wrapping ps (create_poll_run create_params)) (λ i. rest i (complete i)) s h in
      let (f, ran) = create_lem s (wrap_result-ok ps (create_poll_run create_params s).0 e) in
      let t = created f s in
      let go : save_body marshal result s ≡ rest id (complete id) (add nothing t.faults t) =
        ap (λ r. continue (wrap_result ps r.0) (λ i. rest i (complete i)) r.1) ran
        ∙ ap (rest id (complete id)) (sym (add-nothing t)) in
      let (g, go2, h2) = rest_lem id (complete id) t (sym (ap (λ r. r.0) go) ∙ h) in
      let u = add (result_rows id t.next_payload) g t in
      let p = complete_params id result in
      ap (λ r. r.1.tables) (go ∙ go2)
      ∙ complete_lem p u
          (wrap_result-ok (lit "complete poll run" ∷ []) (complete_poll_run p u).0 h2)
      ∙ ap (λ runs. record (saved_tables s) { poll_runs = runs })
          (map-append (completed p) s.tables.poll_runs (new_run id create_params ∷ [])
            ∙ ap (λ runs. runs ++ finished_run id ∷ [])
                (completed_others p s.tables.poll_runs fresh))
