-- ===== src/Collector/Poll.antt =====
-- pollLighthouse of internal/collector/collector.go. The SSH runner and the clock are parameters
-- that pass a state `W` of the outside world along. Tracing spans are left out: nothing reads them.
pub mod Fields
pub mod Outcome
use nebula_mnemosina.Prelude.{String, Bool, true, false, List, [], ◌∷◌, ◌++◌, Option, none, some}
use nebula_mnemosina.Text.{Text, codes}
use nebula_mnemosina.Errors.{Error, Result, ok, err, join_errors}
use nebula_mnemosina.Time.{Time, zero_time}
use nebula_mnemosina.Model.{
  Lighthouse, CommandResult, DeviceInfo, HostmapEntry, LighthouseAddrmapEntry, PollResult,
}
use nebula_mnemosina.Nebula.{
  Json, parse_version, parse_device_info, parse_hostmap, parse_lighthouse_addrmap, parse_relays,
}

-- Runner.Run and time.Now.
pub record Env (W : Type 0) : Type 0 where
  pub run : Lighthouse → Text → W → CommandResult × W
  pub now : W → Time × W

-- The variables of the function: the result so far, the errors so far, and the world.
pub record Poll (W : Type 0) : Type 0 where
  pub result : PollResult
  pub errs : List Error
  pub world : W

abbrev pub no_device : DeviceInfo
no_device = record { name = []; cidr = none }

start_result : Lighthouse → Time → PollResult
start_result lighthouse started_at = record {
  lighthouse = lighthouse;
  started_at = started_at;
  finished_at = zero_time;
  commands = [];
  nebula_version = [];
  device = no_device;
  hostmap = [];
  pending = [];
  addrmap = [];
  relays = [];
  error = none;
}

-- `if len(errs) > 0 { result.Err = errors.Join(errs...) }`
unfoldable pub join_nonempty : List Error → Option Error
join_nonempty [] = none
join_nonempty (e ∷ es) = some (join_errors (e ∷ es))

add_error : List Error → Option Error → List Error
add_error errs none = errs
add_error errs (some e) = errs ++ e ∷ []

module _ {W : Type 0} where
  -- The closure `run`: the result is kept, and an error of it is collected.
  record_command : CommandResult → W → Poll W → Poll W
  unfolding add_error
  record_command r w p = record {
    result = record p.result { commands = p.result.commands ++ r ∷ [] };
    errs = add_error p.errs r.error;
    world = w;
  }

  -- The body of `if command, ok := run(…); ok { … }`.
  when_ok : Option Error → (Poll W → Poll W) → Poll W → Poll W
  when_ok none handle p = handle p
  when_ok (some e) handle p = p

  keep_parsed : {A : Type 0} → (A → PollResult → PollResult) → Result A → Poll W → Poll W
  keep_parsed put (ok a) p = record p { result = put a p.result }
  keep_parsed put (err e) p = record p { errs = p.errs ++ e ∷ [] }

module _ {W : Type 0} (env : Env W) (json : Json) (lighthouse : Lighthouse) where
  step : Text → (CommandResult → Poll W → Poll W) → Poll W → Poll W
  unfolding record_command when_ok
  step command handle p =
      let (r, w) = env.run lighthouse command p.world in
      when_ok r.error (handle r) (record_command r w p)

  unfoldable pub poll_version : Poll W → Poll W
  unfolding step
  poll_version =
      step (codes "version")
        (λ c p. record p { result = record p.result { nebula_version = parse_version c.output } })

  unfoldable pub poll_device : Poll W → Poll W
  unfolding step keep_parsed
  poll_device =
      step (codes "device-info -json")
        (λ c. keep_parsed (λ a r. record r { device = a }) (parse_device_info json c.output))

  unfoldable pub poll_hostmap : Poll W → Poll W
  unfolding step keep_parsed
  poll_hostmap =
      step (codes "list-hostmap -json")
        (λ c. keep_parsed (λ a r. record r { hostmap = a }) (parse_hostmap json c.output))

  unfoldable pub poll_addrmap : Poll W → Poll W
  unfolding step keep_parsed
  poll_addrmap =
      step (codes "list-lighthouse-addrmap -json") (λ c.
        keep_parsed (λ a r. record r { addrmap = a }) (parse_lighthouse_addrmap json c.output))

  unfoldable pub poll_pending : Poll W → Poll W
  unfolding step keep_parsed
  poll_pending =
      step (codes "list-pending-hostmap -json")
        (λ c. keep_parsed (λ a r. record r { pending = a }) (parse_hostmap json c.output))

  unfoldable pub poll_relays : Poll W → Poll W
  unfolding step keep_parsed
  poll_relays =
      step (codes "print-relays")
        (λ c. keep_parsed (λ a r. record r { relays = a }) (parse_relays json c.output))

  -- The deferred function sets FinishedAt last.
  finish : Poll W → PollResult × W
  unfolding join_nonempty
  finish p =
      let (finished_at, w) = env.now p.world in
      (record p.result { finished_at = finished_at; error = join_nonempty p.errs }, w)

  unfoldable pub poll_lighthouse : W → PollResult × W
  unfolding finish start_result
  poll_lighthouse w =
      let (started_at, w') = env.now w in
      finish (
        poll_relays (
          poll_pending (
            poll_addrmap (
              poll_hostmap (
                poll_device (
                  poll_version (record {
                    result = start_result lighthouse started_at;
                    errs = [];
                    world = w';
                  })))))))
