-- ===== src/Model.antt =====
-- internal/model/model.go: what a poll collects. A slice whose nil-ness the program can observe is
-- an `Option`, with `none` for nil; the other slices are lists. An `error` is an `Option` too.
-- Unsigned integers are numbers, and the ranges of their types are stated where they matter.
use nebula_mnemosina.Prelude.{ℕ, Bool, true, false, List, [], ◌∷◌, ◌++◌, Option, none, some}
use nebula_mnemosina.Prelude.Int.{ℤ}
use nebula_mnemosina.Text.{Text}
use nebula_mnemosina.Errors.{Error}
use nebula_mnemosina.Time.{Time, Duration, sub}

abbrev pub Slice : Type 0 → Type 0
Slice A = Option (List A)

pub record Lighthouse : Type 0 where
  pub name : Text
  pub user : Text
  pub address : Text

unfoldable pub target : Lighthouse → Text
target l = l.user ++ b'@' ∷ l.address

pub record PresentPeer : Type 0 where
  pub lighthouse_name : Text
  pub peer_key : Text
  pub primary_vpn_addr : Text
  pub vpn_addrs : List Text
  pub cert_name : Text
  pub cert_fingerprint : Text
  pub cert_groups : List Text
  pub nebula_version : Text

pub record CommandResult : Type 0 where
  pub command : Text
  pub started_at : Time
  pub finished_at : Time
  pub output : Text
  pub error : Option Error

unfoldable pub is_none {ℓ} : {A : Type ℓ} → Option A → Bool
is_none none = true
is_none (some a) = false

unfoldable pub command_duration : CommandResult → Duration
command_duration r = sub r.finished_at r.started_at

unfoldable pub command_success : CommandResult → Bool
unfolding is_none
command_success r = is_none r.error

pub record DeviceInfo : Type 0 where
  pub name : Text
  pub cidr : Slice Text

pub record CertificateDetails : Type 0 where
  pub groups : Slice Text
  pub is_ca : Bool
  pub issuer : Text
  pub name : Text
  pub networks : Slice Text
  pub not_after : Time
  pub not_before : Time
  pub unsafe_networks : Slice Text

pub record Certificate : Type 0 where
  pub curve : Text
  pub details : CertificateDetails
  pub fingerprint : Text
  pub public_key : Text
  pub signature : Text
  pub version : ℤ

pub record HostmapEntry : Type 0 where
  pub vpn_addrs : Slice Text
  pub local_index : ℕ
  pub remote_index : ℕ
  pub remote_addrs : Slice Text
  pub cert : Option Certificate
  pub message_counter : ℕ
  pub current_remote : Text
  pub current_relays_to_me : Slice Text
  pub current_relays_through_me : Slice Text
  pub raw : Slice ℕ

first_or_empty : Slice Text → Text
first_or_empty none = []
first_or_empty (some []) = []
first_or_empty (some (addr ∷ addrs)) = addr

unfoldable pub primary_vpn_addr : HostmapEntry → Text
unfolding first_or_empty
primary_vpn_addr e = first_or_empty e.vpn_addrs

pub record LighthouseAddrEntry : Type 0 where
  pub learned : Slice Text
  pub reported : Slice Text
  pub relay : Slice Text

-- `addrs` is the Go map in the order in which a `range` over it runs, which Go leaves open.
pub record LighthouseAddrmapEntry : Type 0 where
  pub vpn_addr : Text
  pub addrs : List (Text × LighthouseAddrEntry)
  pub raw : Slice ℕ

pub record PollResult : Type 0 where
  pub lighthouse : Lighthouse
  pub started_at : Time
  pub finished_at : Time
  pub commands : List CommandResult
  pub nebula_version : Text
  pub device : DeviceInfo
  pub hostmap : List HostmapEntry
  pub pending : List HostmapEntry
  pub addrmap : List LighthouseAddrmapEntry
  pub relays : Text
  pub error : Option Error

unfoldable pub poll_duration : PollResult → Duration
poll_duration r = sub r.finished_at r.started_at

unfoldable pub poll_success : PollResult → Bool
unfolding is_none
poll_success r = is_none r.error
