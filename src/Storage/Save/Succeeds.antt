-- ===== src/Storage/Save/Succeeds.antt =====
-- When nothing outside fails, a save of a result that the collector makes succeeds.
use nebula_mnemosina.Prelude.{
  ℕ, true, false, List, [], ◌∷◌, ◌++◌, ◌==◌, ◌≡◌, refl, sym, ap, ◌∙◌, arith, subst, map, inl, inr,
  Bool-cases,
}
use nebula_mnemosina.Time.{is_zero}
use nebula_mnemosina.Errors.{Piece, lit, ok}
use nebula_mnemosina.Model.{PollResult, target}
use nebula_mnemosina.Db.{
  Session, Query, PollRun, ◌>>◌, continue, wrapping, wrap_result, pure, statement, NoFaults,
  statement_runs,
}
use nebula_mnemosina.Db.Params.{CreatePollRunParams, CompletePollRunParams}
use nebula_mnemosina.Db.PollRuns.{
  has_run, given, is_source, new_run, completed, create_poll_run, complete_poll_run,
}
use nebula_mnemosina.Db.PollRuns.Laws.{checked_runs}
use nebula_mnemosina.Storage.{timestamptz}
use nebula_mnemosina.Storage.Save.{
  Marshal, insert_commands, insert_hostmap_entries, insert_lighthouse_addrmap, insert_relays,
  complete_params, save_body, in_transaction, commit_or_rollback, committing, save_poll_result,
}
use nebula_mnemosina.Storage.Save.Valid.{
  Ready, Safe, then-Safe, wrapping-Safe, given-non_nil, timestamptz-valid, AllStarted, AllKept,
  AllGiven,
}
use nebula_mnemosina.Storage.Save.Total.{
  insert_commands-Safe, insert_hostmap_entries-Safe, insert_lighthouse_addrmap-Safe,
  insert_relays-Safe,
}

has_run-append :
    (id : ℕ) (rs : List PollRun) (r : PollRun) → r.id ≡ id → has_run id (rs ++ r ∷ []) ≡ true
unfolding has_run
has_run-append id [] r e = ground arith
has_run-append id (x ∷ rs) r e = ground (arith, has_run-append id rs r e)

completed-id : (p : CompletePollRunParams) (r : PollRun) → (completed p r).id ≡ r.id
completed-id p r = elim (Bool-cases (r.id == p.id)) [ inl e ↦ rw e refl | inr e ↦ rw e refl ]

has_run-completed :
    (id : ℕ) (p : CompletePollRunParams) (rs : List PollRun)
    → has_run id (map (completed p) rs) ≡ has_run id rs
unfolding has_run
has_run-completed id p [] = refl
has_run-completed id p (r ∷ rs) = rw (completed-id p r, has_run-completed id p rs) refl

complete-Safe :
    (id : ℕ) (p : CompletePollRunParams)
    → given p.device_cidrs ≡ true
    → Safe id (complete_poll_run p)
unfolding complete_poll_run
complete-Safe id p g s (quiet, there) =
    let (f, rest, ran) = checked_runs _ _ s quiet (λ f. rw g refl) in
    subst (λ r. (r.0 ≡ ok tt) × Ready id r.1) (sym ran)
      (refl, (rest, has_run-completed id p s.tables.poll_runs ∙ there))

create_runs :
    (p : CreatePollRunParams) (s : Session)
    → p.started_at.valid ≡ true
    → NoFaults s.faults
    → (t : Session) × (create_poll_run p s ≡ (ok s.next_run, t)) × Ready s.next_run t
unfolding create_poll_run
create_runs p s v quiet =
    let (f, rest, ran) = checked_runs _ _ s quiet (λ f. v) in
    (_, ran, (rest, has_run-append s.next_run s.tables.poll_runs (new_run s.next_run p) refl))

-- What the collector makes of a poll: start times are set, and the entries have their bytes.
pub record IsStorable (result : PollResult) : Type 0 where
  pub started : is_zero result.started_at ≡ false
  pub commands : AllStarted result.commands
  pub hostmap : AllKept result.hostmap
  pub pending : AllKept result.pending
  pub addrmap : AllGiven result.addrmap

module _ (marshal : Marshal) (result : PollResult) (fit : IsStorable result) where
  abbrev create_params : CreatePollRunParams
  create_params = record {
    started_at = timestamptz result.started_at;
    lighthouse_name = result.lighthouse.name;
    ssh_target = target result.lighthouse;
  }

  abbrev rest : ℕ → Query (Unit {0})
  rest id =
      insert_commands id result result.commands
      >> (insert_hostmap_entries marshal id result "hostmap" 0 result.hostmap
          >> (insert_hostmap_entries marshal id result "pending" 0 result.pending
              >> (insert_lighthouse_addrmap id result result.addrmap
                  >> (insert_relays id result
                      >> wrapping (lit "complete poll run" ∷ [])
                          (complete_poll_run (complete_params id result))))))

  rest-Safe : (id : ℕ) → Safe id (rest id)
  unfolding is_source complete_params
  rest-Safe id =
      let started = fit.started in
      then-Safe id _ _ (insert_commands-Safe id result started result.commands fit.commands) (
        then-Safe id _ _
          (insert_hostmap_entries-Safe id result started marshal "hostmap" 0 result.hostmap
            fit.hostmap refl)
          (then-Safe id _ _
            (insert_hostmap_entries-Safe id result started marshal "pending" 0 result.pending
              fit.pending refl)
            (then-Safe id _ _
              (insert_lighthouse_addrmap-Safe id result started result.addrmap fit.addrmap)
              (then-Safe id _ _ (insert_relays-Safe id result started) (
                wrapping-Safe id (lit "complete poll run" ∷ [])
                  (complete_poll_run (complete_params id result))
                  (complete-Safe id (complete_params id result)
                    (given-non_nil result.device.cidr)))))))

  save_body_runs :
      (s : Session)
      → NoFaults s.faults
      → ((save_body marshal result s).0 ≡ ok tt) × NoFaults (save_body marshal result s).1.faults
  unfolding save_body
  save_body_runs s quiet =
      let (t, ran, ready) =
        create_runs create_params s (timestamptz-valid result.started_at fit.started) quiet in
      let go : save_body marshal result s ≡ rest s.next_run t =
        ap (λ r. continue (wrap_result (lit "create poll run" ∷ []) r.0) (λ i. rest i) r.1) ran in
      let (e, kept) = rest-Safe s.next_run t ready in
      subst (λ r. (r.0 ≡ ok tt) × NoFaults r.1.faults) (sym go) (e, kept.0)

  -- If no statement, no BEGIN and no COMMIT fails for a reason outside, a save succeeds: no row of
  -- the result breaks a constraint. The start times of the poll and of its commands are set, and the
  -- entries have the bytes of their JSON values, as the parser leaves them.
  pub save_poll_result_ok :
      (s : Session) → NoFaults s.faults → (save_poll_result marshal result s).0 ≡ ok tt
  unfolding save_poll_result commit_or_rollback in_transaction
  save_poll_result_ok s quiet =
      let body = save_body marshal result in
      let begun : List Piece = lit "begin poll result transaction" ∷ [] in
      let (f, ran, rest) = statement_runs (pure tt) s quiet in
      let t : Session = record s { faults = f } in
      let (e, kept) = save_body_runs t rest in
      let v = (body t).1 in
      let (g, ran2, _) =
        statement_runs (λ x. (ok tt, record x { tables = v.tables }))
          (record v { tables = s.tables }) kept in
      let go : (wrapping begun (statement (pure tt)) >> body) s ≡ body t =
        ap (λ r. continue (wrap_result begun r.0) (λ _. body) r.1) ran in
      ap (λ r. (commit_or_rollback s.tables r.0 r.1).0) go
      ∙ ap (λ r. (commit_or_rollback s.tables r v).0) e
      ∙ ap (λ r. wrap_result committing r.0) ran2
