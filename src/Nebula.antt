-- ===== src/Nebula.antt =====
-- internal/nebula/parser.go. The decoder of encoding/json is a parameter: one function for each
-- type that the program decodes into.
pub mod Laws
use nebula_mnemosina.Prelude.{ℕ, List, [], ◌∷◌, Option, none, some, ◌≡◌, ◌≢◌, length}
use nebula_mnemosina.Text.{Text, trim_space}
use nebula_mnemosina.Errors.{Error, lit, Result, ok, err, ◌>>=◌, wrapping}
use nebula_mnemosina.Model.{Slice, DeviceInfo, HostmapEntry, LighthouseAddrmapEntry}

-- json.Unmarshal at the five target types; the fields tagged `json:"-"` stay nil.
pub record Json : Type 0 where
  pub device : Text → Result DeviceInfo
  pub hostmap : Text → Result (List HostmapEntry)
  pub addrmap : Text → Result (List LighthouseAddrmapEntry)
  pub raw_list : Text → Result (List Text)
  pub raw : Text → Result Text

unfoldable pub parse_version : Text → Text
parse_version output = trim_space output

-- append([]byte(nil), raw...), which is nil if there is nothing to append.
unfoldable pub copy_bytes : Text → Slice ℕ
copy_bytes [] = none
copy_bytes (c ∷ s) = some (c ∷ s)

-- The loop `for i := range entries { if i < len(rawEntries) { … } }`: the records behind the last
-- raw message stay as they are.
unfoldable pub set_hostmap_raws : List HostmapEntry → List Text → List HostmapEntry
unfolding copy_bytes
set_hostmap_raws [] raws = []
set_hostmap_raws (e ∷ es) [] = e ∷ es
set_hostmap_raws (e ∷ es) (r ∷ rs) = record e { raw = copy_bytes r } ∷ set_hostmap_raws es rs

unfoldable pub set_addrmap_raws :
    List LighthouseAddrmapEntry → List Text → List LighthouseAddrmapEntry
unfolding copy_bytes
set_addrmap_raws [] raws = []
set_addrmap_raws (e ∷ es) [] = e ∷ es
set_addrmap_raws (e ∷ es) (r ∷ rs) = record e { raw = copy_bytes r } ∷ set_addrmap_raws es rs

module _ (json : Json) where
  unfoldable pub parse_device_info : Text → Result DeviceInfo
  parse_device_info output = wrapping (lit "parse device-info" ∷ []) (json.device output)

  unfoldable pub parse_hostmap : Text → Result (List HostmapEntry)
  unfolding set_hostmap_raws
  parse_hostmap output = do
    entries ← wrapping (lit "parse hostmap" ∷ []) (json.hostmap output)
    raws ← wrapping (lit "split hostmap raw records" ∷ []) (json.raw_list output)
    ok (set_hostmap_raws entries raws)

  unfoldable pub parse_lighthouse_addrmap : Text → Result (List LighthouseAddrmapEntry)
  unfolding set_addrmap_raws
  parse_lighthouse_addrmap output = do
    entries ← wrapping (lit "parse lighthouse addrmap" ∷ []) (json.addrmap output)
    raws ← wrapping (lit "split lighthouse addrmap raw records" ∷ []) (json.raw_list output)
    ok (set_addrmap_raws entries raws)

  unfoldable pub parse_relays : Text → Result Text
  parse_relays output = wrapping (lit "parse relays" ∷ []) (json.raw output)
