-- ===== src/Collector/Poll/Outcome.antt =====
-- When a poll counts as a success, and how many errors it reports.
use nebula_mnemosina.Prelude.{true, List, [], ◌∷◌, ◌++◌, Option, none, some, ◌≡◌, ◌↔◌, refl, arith}
use nebula_mnemosina.Errors.{Error, Result, ok, err}
use nebula_mnemosina.Model.{Lighthouse, CommandResult, poll_success, is_none}
use nebula_mnemosina.Nebula.{
  Json, parse_version, parse_device_info, parse_hostmap, parse_lighthouse_addrmap, parse_relays,
}
use nebula_mnemosina.Collector.Poll.{Env, join_nonempty, poll_lighthouse}
use nebula_mnemosina.Collector.Poll.Fields.{
  Answers, answers, failures, failures_of, poll_lighthouse_lem,
}

-- The command was answered without an error, and the answer parses.
abbrev pub Went : {A : Type 0} → CommandResult → Result A → Type 0
Went {A} c r = (c.error ≡ none) × ((a : A) × (r ≡ ok a))

module _ (json : Json) where
  -- Every command was answered, and every answer that is parsed is well formed.
  pub record IsComplete (a : Answers) : Type 0 where
    pub version : a.version.error ≡ none
    pub device_info : Went a.device_info (parse_device_info json a.device_info.output)
    pub hostmap : Went a.hostmap (parse_hostmap json a.hostmap.output)
    pub addrmap : Went a.addrmap (parse_lighthouse_addrmap json a.addrmap.output)
    pub pending : Went a.pending (parse_hostmap json a.pending.output)
    pub relays : Went a.relays (parse_relays json a.relays.output)

failures_of_lem :
    {A : Type 0} (e : Option Error) (r : Result A)
    → (failures_of e r ≡ []) ↔ ((e ≡ none) × ((a : A) × (r ≡ ok a)))
failures_of_lem (some e) r = (λ h. ground arith, λ h. ground arith)
failures_of_lem none (ok a) = (λ h. (refl, (a, refl)), λ h. refl)
failures_of_lem none (err e) = (λ h. ground arith, λ (h, (a, k)). absurd (ground arith))

failures_of-nil :
    {A : Type 0} (c : CommandResult) (r : Result A) → (failures_of c.error r ≡ []) ↔ Went c r
failures_of-nil c r = failures_of_lem c.error r

append-nil_iff : {A : Type 0} (xs ys : List A) → (xs ++ ys ≡ []) ↔ ((xs ≡ []) × (ys ≡ []))
append-nil_iff [] ys = (λ h. (refl, h), λ h. h.1)
append-nil_iff (x ∷ xs) ys = (λ h. ground arith, λ h. ground arith)

join_nonempty-none : (errs : List Error) → (join_nonempty errs ≡ none) ↔ (errs ≡ [])
unfolding join_nonempty
join_nonempty-none [] = (λ h. refl, λ h. refl)
join_nonempty-none (e ∷ errs) = (λ h. ground arith, λ h. ground arith)

module _ (json : Json) (a : Answers) where
  failures_sound : failures json a ≡ [] → IsComplete json a
  failures_sound h =
      let (e0, h1) =
        (append-nil_iff (failures_of a.version.error (ok (parse_version a.version.output))) _).0
          h in
      let (e1, h2) =
        (append-nil_iff
            (failures_of a.device_info.error (parse_device_info json a.device_info.output)) _).0
          h1 in
      let (e2, h3) =
        (append-nil_iff (failures_of a.hostmap.error (parse_hostmap json a.hostmap.output)) _).0
          h2 in
      let (e3, h4) =
        (append-nil_iff
            (failures_of a.addrmap.error (parse_lighthouse_addrmap json a.addrmap.output)) _).0
          h3 in
      let (e4, e5) =
        (append-nil_iff (failures_of a.pending.error (parse_hostmap json a.pending.output)) _).0
          h4 in
      record {
        version = ((failures_of-nil a.version (ok (parse_version a.version.output))).0 e0).0;
        device_info =
            (failures_of-nil a.device_info (parse_device_info json a.device_info.output)).0 e1;
        hostmap = (failures_of-nil a.hostmap (parse_hostmap json a.hostmap.output)).0 e2;
        addrmap = (failures_of-nil a.addrmap (parse_lighthouse_addrmap json a.addrmap.output)).0 e3;
        pending = (failures_of-nil a.pending (parse_hostmap json a.pending.output)).0 e4;
        relays = (failures_of-nil a.relays (parse_relays json a.relays.output)).0 e5;
      }

  failures_complete : IsComplete json a → failures json a ≡ []
  failures_complete c = rw (
    (failures_of-nil a.version (ok (parse_version a.version.output))).1
        (c.version, (parse_version a.version.output, refl)),
    (failures_of-nil a.device_info (parse_device_info json a.device_info.output)).1 c.device_info,
    (failures_of-nil a.hostmap (parse_hostmap json a.hostmap.output)).1 c.hostmap,
    (failures_of-nil a.addrmap (parse_lighthouse_addrmap json a.addrmap.output)).1 c.addrmap,
    (failures_of-nil a.pending (parse_hostmap json a.pending.output)).1 c.pending,
    (failures_of-nil a.relays (parse_relays json a.relays.output)).1 c.relays,
  )

is_none_iff : {A : Type 0} (o : Option A) → (is_none o ≡ true) ↔ (o ≡ none)
unfolding is_none
is_none_iff none = (λ h. refl, λ h. refl)
is_none_iff (some a) = (λ h. ground arith, λ h. ground arith)

module _ {W : Type 0} (env : Env W) (json : Json) (lighthouse : Lighthouse) where
  -- A poll succeeds exactly if all six commands were answered without an error and the five answers
  -- that are parsed are well formed.
  pub poll_success_iff :
      (w : W)
      → (poll_success (poll_lighthouse env json lighthouse w).0 ≡ true)
        ↔ IsComplete json (answers env lighthouse (env.now w).1).0
  unfolding poll_success
  poll_success_iff w =
      let a = (answers env lighthouse (env.now w).1).0 in
      rw (poll_lighthouse_lem env json lighthouse w) (
        λ h. failures_sound json a (
            (join_nonempty-none (failures json a)).0
              ((is_none_iff (join_nonempty (failures json a))).0 h)),
        λ c.
            (is_none_iff (join_nonempty (failures json a))).1
              ((join_nonempty-none (failures json a)).1 (failures_complete json a c)),
      )
