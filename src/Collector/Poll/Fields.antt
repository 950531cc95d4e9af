-- ===== src/Collector/Poll/Fields.antt =====
-- pollLighthouse against a flat description: the six answers first, and then each field from its
-- own answer alone.
use nebula_mnemosina.Prelude.{
  List, [], ◌∷◌, ◌++◌, append_assoc, append-nil, Option, none, some, ◌≡◌, ap, ◌∙◌, arith,
}
use nebula_mnemosina.Text.{Text, codes}
use nebula_mnemosina.Errors.{Error, Result, ok, err}
use nebula_mnemosina.Time.{Time}
use nebula_mnemosina.Model.{Lighthouse, CommandResult, PollResult}
use nebula_mnemosina.Nebula.{
  Json, parse_version, parse_device_info, parse_hostmap, parse_lighthouse_addrmap, parse_relays,
}
use nebula_mnemosina.Collector.Poll.{
  Env, Poll, no_device, join_nonempty, poll_version, poll_device, poll_hostmap, poll_addrmap,
  poll_pending, poll_relays, finish, poll_lighthouse,
}

-- The value that an answer yields, or `old` if the command or the parsing failed.
abbrev pub value_of : {A : Type 0} → A → Option Error → Result A → A
value_of old (some e) r = old
value_of old none (ok a) = a
value_of old none (err e) = old

-- The errors of an answer: at most one.
abbrev pub failures_of : {A : Type 0} → Option Error → Result A → List Error
failures_of (some e) r = e ∷ []
failures_of none (ok a) = []
failures_of none (err e) = e ∷ []

-- The answers to the six commands, in the order in which they are run.
pub record Answers : Type 0 where
  pub version : CommandResult
  pub device_info : CommandResult
  pub hostmap : CommandResult
  pub addrmap : CommandResult
  pub pending : CommandResult
  pub relays : CommandResult

module _ {W : Type 0} (env : Env W) (lighthouse : Lighthouse) where
  abbrev pub ask : Text → W → CommandResult × W
  ask command w = env.run lighthouse command w

  abbrev pub answers : W → Answers × W
  answers w =
      let (r0, w0) = ask (codes "version") w in
      let (r1, w1) = ask (codes "device-info -json") w0 in
      let (r2, w2) = ask (codes "list-hostmap -json") w1 in
      let (r3, w3) = ask (codes "list-lighthouse-addrmap -json") w2 in
      let (r4, w4) = ask (codes "list-pending-hostmap -json") w3 in
      let (r5, w5) = ask (codes "print-relays") w4 in
      (
        record {
          version = r0;
          device_info = r1;
          hostmap = r2;
          addrmap = r3;
          pending = r4;
          relays = r5;
        },
        w5,
      )

regroup :
    {A : Type 0} (a b c d e f : List A)
    → ((((a ++ b) ++ c) ++ d) ++ e) ++ f ≡ a ++ (b ++ (c ++ (d ++ (e ++ f))))
regroup a b c d e f = simp append_assoc

module _ (json : Json) where
  -- All errors of a poll, in the order of the commands.
  abbrev pub failures : Answers → List Error
  failures a =
      failures_of a.version.error (ok (parse_version a.version.output))
      ++ (failures_of a.device_info.error (parse_device_info json a.device_info.output)
          ++ (failures_of a.hostmap.error (parse_hostmap json a.hostmap.output)
              ++ (failures_of a.addrmap.error (parse_lighthouse_addrmap json a.addrmap.output)
                  ++ (failures_of a.pending.error (parse_hostmap json a.pending.output)
                      ++ failures_of a.relays.error (parse_relays json a.relays.output)))))

  regroup_failures :
      (a : Answers)
      → (((((failures_of a.version.error (ok (parse_version a.version.output))
                  ++ failures_of a.device_info.error (parse_device_info json a.device_info.output))
                ++ failures_of a.hostmap.error (parse_hostmap json a.hostmap.output))
              ++ failures_of a.addrmap.error (parse_lighthouse_addrmap json a.addrmap.output))
            ++ failures_of a.pending.error (parse_hostmap json a.pending.output))
          ++ failures_of a.relays.error (parse_relays json a.relays.output))
        ≡ failures a
  regroup_failures a =
      regroup (failures_of a.version.error (ok (parse_version a.version.output)))
        (failures_of a.device_info.error (parse_device_info json a.device_info.output))
        (failures_of a.hostmap.error (parse_hostmap json a.hostmap.output))
        (failures_of a.addrmap.error (parse_lighthouse_addrmap json a.addrmap.output))
        (failures_of a.pending.error (parse_hostmap json a.pending.output))
        (failures_of a.relays.error (parse_relays json a.relays.output))

  abbrev pub described : Lighthouse → Time → Time → Answers → PollResult
  described lighthouse started_at finished_at a = record {
    lighthouse = lighthouse;
    started_at = started_at;
    finished_at = finished_at;
    commands = a.version ∷ a.device_info ∷ a.hostmap ∷ a.addrmap ∷ a.pending ∷ a.relays ∷ [];
    nebula_version = value_of [] a.version.error (ok (parse_version a.version.output));
    device = value_of no_device a.device_info.error (parse_device_info json a.device_info.output);
    hostmap = value_of [] a.hostmap.error (parse_hostmap json a.hostmap.output);
    pending = value_of [] a.pending.error (parse_hostmap json a.pending.output);
    addrmap = value_of [] a.addrmap.error (parse_lighthouse_addrmap json a.addrmap.output);
    relays = value_of [] a.relays.error (parse_relays json a.relays.output);
    error = join_nonempty (failures a);
  }

module _ {W : Type 0} (env : Env W) (json : Json) (lighthouse : Lighthouse) where
  abbrev answer : Text → Poll W → CommandResult
  answer command p = (ask env lighthouse command p.world).0

  -- The state after an answer whose parsing gives `r`, for the new value `base` of the result.
  abbrev after : {A : Type 0} → Text → (CommandResult → Result A) → Poll W → PollResult → Poll W
  after command parse p base = record {
    result = record base { commands = p.result.commands ++ answer command p ∷ [] };
    errs = p.errs ++ failures_of (answer command p).error (parse (answer command p));
    world = (ask env lighthouse command p.world).1;
  }

  abbrev after_version : Poll W → Poll W
  after_version p =
      let c = answer (codes "version") p in
      after (codes "version") (λ c. ok (parse_version c.output)) p
        (record p.result {
          nebula_version = value_of p.result.nebula_version c.error (ok (parse_version c.output));
        })

  poll_version_lem : (p : Poll W) → poll_version env json lighthouse p ≡ after_version p
  unfolding poll_version
  poll_version_lem p = ground (arith, append-nil p.errs)

  abbrev after_device : Poll W → Poll W
  after_device p =
      let c = answer (codes "device-info -json") p in
      after (codes "device-info -json") (λ c. parse_device_info json c.output) p
        (record p.result {
          device = value_of p.result.device c.error (parse_device_info json c.output);
        })

  poll_device_lem : (p : Poll W) → poll_device env json lighthouse p ≡ after_device p
  unfolding poll_device
  poll_device_lem p = ground (arith, append-nil p.errs)

  abbrev after_hostmap : Poll W → Poll W
  after_hostmap p =
      let c = answer (codes "list-hostmap -json") p in
      after (codes "list-hostmap -json") (λ c. parse_hostmap json c.output) p
        (record p.result {
          hostmap = value_of p.result.hostmap c.error (parse_hostmap json c.output);
        })

  poll_hostmap_lem : (p : Poll W) → poll_hostmap env json lighthouse p ≡ after_hostmap p
  unfolding poll_hostmap
  poll_hostmap_lem p = ground (arith, append-nil p.errs)

  abbrev after_addrmap : Poll W → Poll W
  after_addrmap p =
      let c = answer (codes "list-lighthouse-addrmap -json") p in
      after (codes "list-lighthouse-addrmap -json") (λ c. parse_lighthouse_addrmap json c.output) p
        (record p.result {
          addrmap = value_of p.result.addrmap c.error (parse_lighthouse_addrmap json c.output);
        })

  poll_addrmap_lem : (p : Poll W) → poll_addrmap env json lighthouse p ≡ after_addrmap p
  unfolding poll_addrmap
  poll_addrmap_lem p = ground (arith, append-nil p.errs)

  abbrev after_pending : Poll W → Poll W
  after_pending p =
      let c = answer (codes "list-pending-hostmap -json") p in
      after (codes "list-pending-hostmap -json") (λ c. parse_hostmap json c.output) p
        (record p.result {
          pending = value_of p.result.pending c.error (parse_hostmap json c.output);
        })

  poll_pending_lem : (p : Poll W) → poll_pending env json lighthouse p ≡ after_pending p
  unfolding poll_pending
  poll_pending_lem p = ground (arith, append-nil p.errs)

  abbrev after_relays : Poll W → Poll W
  after_relays p =
      let c = answer (codes "print-relays") p in
      after (codes "print-relays") (λ c. parse_relays json c.output) p
        (record p.result { relays = value_of p.result.relays c.error (parse_relays json c.output) })

  poll_relays_lem : (p : Poll W) → poll_relays env json lighthouse p ≡ after_relays p
  unfolding poll_relays
  poll_relays_lem p = ground (arith, append-nil p.errs)

  -- The six steps in a row, each replaced by what it comes to.
  steps_lem :
      (p : Poll W)
      → poll_relays env json lighthouse (
          poll_pending env json lighthouse (
            poll_addrmap env json lighthouse (
              poll_hostmap env json lighthouse
                (poll_device env json lighthouse (poll_version env json lighthouse p)))))
        ≡ after_relays
            (after_pending (after_addrmap (after_hostmap (after_device (after_version p)))))
  steps_lem p =
      ap
        (λ q. poll_relays env json lighthouse (
          poll_pending env json lighthouse (
            poll_addrmap env json lighthouse
              (poll_hostmap env json lighthouse (poll_device env json lighthouse q)))))
        (poll_version_lem p)
      ∙ ap
          (λ q. poll_relays env json lighthouse (
            poll_pending env json lighthouse
              (poll_addrmap env json lighthouse (poll_hostmap env json lighthouse q))))
          (poll_device_lem (after_version p))
      ∙ ap
          (λ q.
            poll_relays env json lighthouse
              (poll_pending env json lighthouse (poll_addrmap env json lighthouse q)))
          (poll_hostmap_lem (after_device (after_version p)))
      ∙ ap (λ q. poll_relays env json lighthouse (poll_pending env json lighthouse q))
          (poll_addrmap_lem (after_hostmap (after_device (after_version p))))
      ∙ ap (λ q. poll_relays env json lighthouse q)
          (poll_pending_lem (after_addrmap (after_hostmap (after_device (after_version p)))))
      ∙ poll_relays_lem
          (after_pending (after_addrmap (after_hostmap (after_device (after_version p)))))

  -- Whatever fails, all six commands are run, in order; each field is set from its own answer
  -- alone, and keeps its empty value if that answer failed or did not parse; and the error joins
  -- the failures of all six in order.
  pub poll_lighthouse_lem :
      (w : W)
      → let (started_at, w0) = env.now w in
        let (a, w1) = answers env lighthouse w0 in
        let (finished_at, w2) = env.now w1 in
        poll_lighthouse env json lighthouse w
        ≡ (described json lighthouse started_at finished_at a, w2)
  unfolding poll_lighthouse
  poll_lighthouse_lem w =
      let (started_at, w0) = env.now w in
      let (a, w1) = answers env lighthouse w0 in
      let (finished_at, w2) = env.now w1 in
      ap (finish env json lighthouse) (steps_lem _)
      ∙ ap
          (λ errs. (
            record (described json lighthouse started_at finished_at a) {
              error = join_nonempty errs;
            },
            w2,
          ))
          (regroup_failures json a)
