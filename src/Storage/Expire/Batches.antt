-- ===== src/Storage/Expire/Batches.antt =====
-- What DeleteExpiredPollRuns of internal/storage/storage.go does to the tables when it succeeds.
use nebula_mnemosina.Prelude.{
  ℕ, Bool, true, false, List, [], ◌∷◌, map, ◌≡◌, refl, sym, ◌∙◌, ap, arith, subst,
}
use mathlib.Core.Path.{fun_ext}
use nebula_mnemosina.Time.{Time}
use nebula_mnemosina.Errors.{ok_inj, Piece, lit, ok}
use nebula_mnemosina.Db.{
  PollRun, Tables, Session, continue, wrapping, wrap_result, wrap_result-ok, statement_ok,
  >>=-eq-ok,
}
use nebula_mnemosina.Db.Select.{select, count_if, has_key}
use nebula_mnemosina.Db.Select.Keys.{HasKeys}
use nebula_mnemosina.Db.Select.Batch.{picked}
use nebula_mnemosina.Db.Retention.{
  run_id, expired_run, started_before, is_any, without_runs, list_expired_poll_run_ids,
  delete_poll_runs,
}
use nebula_mnemosina.Storage.{timestamptz}
use nebula_mnemosina.Storage.Expire.{delete_listed, delete_expired_poll_runs}

is_any-map :
    (k : ℕ) (rs : List PollRun) → has_key (λ (k : ℕ). k) k (map run_id rs) ≡ has_key run_id k rs
unfolding has_key
is_any-map k [] = refl
is_any-map k (r ∷ rs) = ground (arith, is_any-map k rs)

select_all : {A : Type 0} (rs : List A) → select (λ _. true) rs ≡ rs
unfolding select
select_all [] = refl
select_all (r ∷ rs) = ap (◌∷◌ r) (select_all rs)

select_none : {A : Type 0} (rs : List A) → select (λ _. false) rs ≡ []
unfolding select
select_none [] = refl
select_none (r ∷ rs) = select_none rs

count_none : {A : Type 0} (rs : List A) → count_if (λ _. false) rs ≡ 0
unfolding count_if
count_none [] = refl
count_none (r ∷ rs) = omega (arith, count_none rs)

without_none : (t : Tables) → without_runs (λ _. false) t ≡ t
unfolding has_key
without_none t = rw select_none (simp select_all)

-- What a deletion by ids does, for any description of the rows that have them.
Deleted : (Session → Session) → ℕ → (PollRun → Bool) → Session → Type 0
Deleted f d gone s =
    (d ≡ count_if gone s.tables.poll_runs) × ((f s).tables ≡ without_runs gone s.tables)

delete_poll_runs_lem :
    (ids : List ℕ) (s : Session) {d : ℕ}
    → (delete_poll_runs ids s).0 ≡ ok d
    → Deleted (λ s. (delete_poll_runs ids s).1) d (is_any ids) s
unfolding delete_poll_runs Deleted
delete_poll_runs_lem ids s h =
    let (f, ran) = statement_ok _ s h in
    (ok_inj (sym h ∙ ap (λ r. r.0) ran), ap (λ r. r.1.tables) ran)

-- The runs of `ps` go, and nothing else of poll_runs.
delete_listed_lem :
    (ps : List PollRun) (s : Session) {d : ℕ}
    → (delete_listed (map run_id ps) s).0 ≡ ok d
    → Deleted (λ s. (delete_listed (map run_id ps) s).1) d (λ r. has_key run_id r.id ps) s
unfolding delete_listed
delete_listed_lem [] s h =
    unfold Deleted has_key in
    (sym (ok_inj h) ∙ sym (count_none s.tables.poll_runs), sym (without_none s.tables))
delete_listed_lem (p ∷ ps) s {d} h =
    let ids = run_id p ∷ map run_id ps in
    subst (λ gone. Deleted (λ s. (delete_poll_runs ids s).1) d gone s)
      (fun_ext (λ r. is_any-map r.id (p ∷ ps)))
      (delete_poll_runs_lem ids s
        (wrap_result-ok (lit "delete expired poll runs" ∷ []) (delete_poll_runs ids s).0 h))

module _ (cutoff : Time) (n : ℕ) (s : Session) (keys : HasKeys run_id s.tables.poll_runs) where
  -- The runs that a batch deletes: those with the ids that were listed.
  abbrev pub listed : List PollRun
  listed = picked run_id (expired_run (timestamptz cutoff)) started_before n s.tables.poll_runs keys

  abbrev pub listed_run : PollRun → Bool
  listed_run r = has_key run_id r.id listed

  pub delete_expired_poll_runs-eq :
      {d : ℕ}
      → (delete_expired_poll_runs cutoff n s).0 ≡ ok d
      → (d ≡ count_if listed_run s.tables.poll_runs)
        × ((delete_expired_poll_runs cutoff n s).1.tables ≡ without_runs listed_run s.tables)
  unfolding delete_expired_poll_runs list_expired_poll_run_ids Deleted
  delete_expired_poll_runs-eq h =
      let ps : List Piece = lit "list expired poll runs" ∷ [] in
      let list =
        list_expired_poll_run_ids (record { started_at = timestamptz cutoff; limit = n }) in
      let (_, e, _) = >>=-eq-ok (wrapping ps list) delete_listed s h in
      let (f, ran) = statement_ok _ s (wrap_result-ok ps (list s).0 e) in
      let t : Session = record s { faults = f } in
      let go : delete_expired_poll_runs cutoff n s ≡ delete_listed (map run_id listed) t =
        ap (λ r. continue (wrap_result ps r.0) delete_listed r.1) ran in
      let (count, tables) = delete_listed_lem listed t (sym (ap (λ r. r.0) go) ∙ h) in
      (count, ap (λ r. r.1.tables) go ∙ tables)
