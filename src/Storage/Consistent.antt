-- ===== src/Storage/Consistent.antt =====
-- The tables that internal/storage/storage.go writes, as a state with an invariant, and the queries
-- that keep it.
pub mod Rows
pub mod Statements
pub mod Save
pub mod Reach
use nebula_mnemosina.Prelude.{
  subst, ap, ℕ, ◌≤◌, ◌<◌, Bool, true, false, Option, none, some, List, [], ◌∷◌, ◌≡◌, inl, inr, refl,
  sym, arith, Bool-cases,
}
use nebula_mnemosina.Errors.{Piece, Error, Result, ok, err}
use nebula_mnemosina.Db.{
  Session, Query, pure, fail, continue, ◌>>=◌, ◌>>◌, wrapping, statement, statement_cases,
}
use nebula_mnemosina.Db.Select.All.{All}
use nebula_mnemosina.Db.Select.Keys.{HasKeys}
use nebula_mnemosina.Db.PollRuns.{checked}
use nebula_mnemosina.Db.Retention.{run_id, payload_id}
use nebula_mnemosina.Storage.Expire.References.{IsReferring}

-- The ids of the runs and of the payloads are unique and below the next of their sequence, and every
-- row of the other tables is of a run that exists.
abbrev pub IsConsistent : Session → Type 0
IsConsistent s =
    All (λ r. run_id r < s.next_run) s.tables.poll_runs
    × HasKeys run_id s.tables.poll_runs
    × All (λ r. payload_id r < s.next_payload) s.tables.raw_command_payloads
    × HasKeys payload_id s.tables.raw_command_payloads
    × IsReferring s.tables

-- A session behind another: no sequence was set back, and the tables are consistent.
abbrev pub Follows : Session → Session → Type 0
Follows s s' = (s.next_run ≤ s'.next_run) × (s.next_payload ≤ s'.next_payload) × IsConsistent s'

-- A query keeps the tables consistent, whether it succeeds or fails.
pub record Keeps {A : Type 0} (q : Query A) : Type 0 where
  pub follows : (s : Session) → IsConsistent s → Follows s (q s).1

pub stays : (s : Session) → IsConsistent s → Follows s s
stays s h = (omega arith, omega arith, h)

pub Follows-trans : (s t u : Session) → Follows s t → Follows t u → Follows s u
Follows-trans s t u (a, b, h) (c, d, k) = (omega arith, omega arith, k)

pub pure-Keeps : {A : Type 0} (a : A) → Keeps (pure a)
pure-Keeps a = record { follows = stays }

pub fail-Keeps : {A : Type 0} (e : Error) → Keeps {A = A} (fail e)
fail-Keeps e = record { follows = stays }

pub wrapping-Keeps : {A : Type 0} (ps : List Piece) (q : Query A) → Keeps q → Keeps (wrapping ps q)
wrapping-Keeps ps q keep = record { follows = keep.follows }

continue-Keeps :
    {A B : Type 0} (r : Result A) (f : A → Query B)
    → ((a : A) → Keeps (f a))
    → (s : Session) → IsConsistent s
    → Follows s (continue r f s).1
continue-Keeps (ok a) f keep s h = (keep a).follows s h
continue-Keeps (err e) f keep s h = stays s h

pub >>=-Keeps :
    {A B : Type 0} (q : Query A) (f : A → Query B)
    → Keeps q
    → ((a : A) → Keeps (f a))
    → Keeps (q >>= f)
>>=-Keeps q f first rest = record {
  follows = λ s h.
      let now = first.follows s h in
      Follows-trans s (q s).1 ((q >>= f) s).1 now (continue-Keeps (q s).0 f rest (q s).1 now.2);
}

pub >>-Keeps :
    {B : Type 0} (q : Query (Unit {0})) (k : Query B) → Keeps q → Keeps k → Keeps (q >> k)
>>-Keeps q k first rest = >>=-Keeps q (λ _. k) first (λ _. rest)

pub statement-Keeps : {A : Type 0} (q : Query A) → Keeps q → Keeps (statement q)
statement-Keeps q keep = record {
  follows = λ s h.
      let (f, outcome) = statement_cases q s in
      let t : Session = record s { faults = f } in
      elim outcome [
        | inl ran ↦ subst (Follows s) (sym (ap (λ r. r.1) ran)) (keep.follows t h)
        | inr (inl (e, failed)) ↦ subst (Follows s) (sym (ap (λ r. r.1) failed)) (stays t h)
        | inr (inr (e, failed)) ↦ subst (Follows s) (sym (ap (λ r. r.1) failed)) (keep.follows t h)
      ];
}

pub checked-Keeps :
    {A : Type 0} (valid : Session → Bool) (act : Session → A × Session)
    → ((s : Session) → valid s ≡ true → IsConsistent s → Follows s (act s).1)
    → Keeps (checked valid act)
unfolding checked
checked-Keeps valid act keep = statement-Keeps _ (record {
  follows =
      λ s h. elim (Bool-cases (valid s)) [ inl e ↦ rw e (keep s e h) | inr e ↦ rw e (stays s h) ];
})
