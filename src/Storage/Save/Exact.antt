-- ===== src/Storage/Save/Exact.antt =====
-- SavePollResult of internal/storage/storage.go as a whole: how its transaction may end.
use nebula_mnemosina.Prelude.{false, List, [], ◌∷◌, Option, ◌≡◌, refl, sym, ap, ◌∙◌, inl, inr, ◌⊎◌}
use nebula_mnemosina.Errors.{Piece, lit, wrap, Error, Result, ok, err}
use nebula_mnemosina.Model.{PollResult}
use nebula_mnemosina.Db.{
  Fault, Tables, Session, continue, wrapping, wrap_result, pure, statement, >>=-eq-ok,
  wrap_result-ok, statement_ok, statement_cases,
}
use nebula_mnemosina.Db.PollRuns.{has_run}
use nebula_mnemosina.Storage.Save.{
  Marshal, save_body, in_transaction, commit_or_rollback, committing, save_poll_result,
}
use nebula_mnemosina.Storage.Save.Body.{saved_tables, save_body_lem}

module _ (marshal : Marshal) (result : PollResult) where
  begin_ok :
      (s : Session) {u : Unit {0}}
      → (statement (pure tt) s).0 ≡ ok u
      → (f : List (Option Fault)) × (statement (pure tt) s ≡ (ok tt, record s { faults = f }))
  begin_ok s h = statement_ok (pure tt) s h

  in_transaction_lem :
      (s : Session)
      → has_run s.next_run s.tables.poll_runs ≡ false
      → (in_transaction (save_body marshal result) s).0 ≡ ok tt
      → (in_transaction (save_body marshal result) s).1.tables ≡ saved_tables marshal result s
  unfolding in_transaction
  in_transaction_lem s fresh h =
      let begun : List Piece = lit "begin poll result transaction" ∷ [] in
      let body = save_body marshal result in
      let (_, e, _) = >>=-eq-ok (wrapping begun (statement (pure tt))) (λ _. body) s h in
      let (f, ran) = begin_ok s (wrap_result-ok begun (statement (pure tt) s).0 e) in
      let t : Session = record s { faults = f } in
      let go : in_transaction body s ≡ body t =
        ap (λ r. continue (wrap_result begun r.0) (λ _. body) r.1) ran in
      ap (λ r. r.1.tables) go ∙ save_body_lem marshal result t fresh (sym (ap (λ r. r.0) go) ∙ h)

-- An error that Commit reported.
abbrev pub IsCommitError : Error → Type 0
IsCommitError e = (cause : Error) × (e ≡ wrap committing cause)

-- All rows or none: an error says none, unless Commit reported it.
abbrev pub IsAllOrNothing : Tables → Tables → Result (Unit {0}) → Tables → Type 0
IsAllOrNothing before saved r after =
    ((r ≡ ok tt) × (after ≡ saved))
    ⊎ ((e : Error) × (r ≡ err e) × ((after ≡ before) ⊎ (IsCommitError e × (after ≡ saved))))

commit_or_rollback_lem :
    (before saved : Tables) (r : Result (Unit {0})) (t : Session)
    → (r ≡ ok tt → t.tables ≡ saved)
    → IsAllOrNothing before saved
        (commit_or_rollback before r t).0
        (commit_or_rollback before r t).1.tables
unfolding commit_or_rollback
commit_or_rollback_lem before saved (err e) t h = inr (e, refl, inl refl)
commit_or_rollback_lem before saved (ok u) t h =
    let (f, outcome) =
      statement_cases (λ x. (ok tt, record x { tables = t.tables }))
        (record t { tables = before }) in
    elim outcome [
      | inl done ↦
          inl (ap (λ x. wrap_result committing x.0) done, ap (λ x. x.1.tables) done ∙ h refl)
      | inr (inl (e, done)) ↦ inr (
        wrap committing e,
        ap (λ x. wrap_result committing x.0) done,
        inl (ap (λ x. x.1.tables) done),
      )
      | inr (inr (e, done)) ↦ inr (
        wrap committing e,
        ap (λ x. wrap_result committing x.0) done,
        inr ((e, refl), ap (λ x. x.1.tables) done ∙ h refl),
      )
    ]

module _ (marshal : Marshal) (result : PollResult) where
  -- A save either succeeds and adds exactly the rows of the result: the finished run under the next
  -- id, a row for each command, hostmap entry, pending entry and reporter in order, and the relays if
  -- there are any; or it fails, whatever statement failed or was refused, and leaves every table as
  -- it was, unless the error is one that Commit reported: then the tables are as they were or have
  -- exactly the rows of the result. No earlier run may have the next id.
  pub save_poll_result_exact :
      (s : Session)
      → has_run s.next_run s.tables.poll_runs ≡ false
      → IsAllOrNothing s.tables
          (saved_tables marshal result s)
          (save_poll_result marshal result s).0
          (save_poll_result marshal result s).1.tables
  unfolding save_poll_result
  save_poll_result_exact s fresh =
      let ran = in_transaction (save_body marshal result) s in
      commit_or_rollback_lem s.tables (saved_tables marshal result s) ran.0 ran.1
        (in_transaction_lem marshal result s fresh)
