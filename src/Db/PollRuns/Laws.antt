-- ===== src/Db/PollRuns/Laws.antt =====
-- What a checked statement does when it succeeds, and when it does succeed.
use nebula_mnemosina.Prelude.{Bool, true, List, Option, ◌≡◌, inl, inr, arith, ◌∙◌, Bool-cases}
use nebula_mnemosina.Errors.{ok}
use nebula_mnemosina.Db.{Fault, Session, NoFaults, statement_ok, statement_runs}
use nebula_mnemosina.Db.PollRuns.{checked}

module _ {A : Type 0} (valid : Session → Bool) (act : Session → A × Session) (s : Session) where
  -- It succeeded: its constraints held, and it was carried out on the session, less its fault.
  pub checked_ok :
      {a : A}
      → (checked valid act s).0 ≡ ok a
      → (faults : List (Option Fault)) × (valid (record s { faults = faults }) ≡ true)
        × (checked valid act s
            ≡ (ok (act (record s { faults = faults })).0, (act (record s { faults = faults })).1))
  unfolding checked
  checked_ok h =
      let (faults, e) = statement_ok _ s h in
      elim (Bool-cases (valid (record s { faults = faults }))) [
        | inl v ↦ (faults, v, e ∙ (rw v))
        | inr v ↦ absurd (ground arith)
      ]

  -- It succeeds if nothing fails and its constraints hold whatever faults are still to come.
  pub checked_runs :
      NoFaults s.faults
      → ((faults : List (Option Fault)) → valid (record s { faults = faults }) ≡ true)
      → (faults : List (Option Fault)) × NoFaults faults
        × (checked valid act s
            ≡ (ok (act (record s { faults = faults })).0, (act (record s { faults = faults })).1))
  unfolding checked
  checked_runs none_fail holds =
      let (faults, e, rest) = statement_runs _ s none_fail in
      (faults, rest, e ∙ (rw (holds faults)))
