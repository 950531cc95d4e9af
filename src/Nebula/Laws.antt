-- ===== src/Nebula/Laws.antt =====
-- Every record that is parsed carries the bytes of its own JSON value.
use nebula_mnemosina.Prelude.{ℕ, List, [], ◌∷◌, none, some, ◌≡◌, ◌≢◌, refl, arith, length, map}
use nebula_mnemosina.Text.{Text}
use nebula_mnemosina.Errors.{ok}
use nebula_mnemosina.Model.{Slice, HostmapEntry, LighthouseAddrmapEntry}
use nebula_mnemosina.Nebula.{
  Json, copy_bytes, set_hostmap_raws, set_addrmap_raws, parse_hostmap, parse_lighthouse_addrmap,
}

abbrev pub AllFull : List Text → Type 0
AllFull [] = Unit
AllFull (r ∷ rs) = (r ≢ []) × AllFull rs

-- What encoding/json documents of an array decoded twice: one raw message for each record, the
-- second decoding succeeds where the first did, and a raw message is never empty.
pub record IsJson (json : Json) : Type 0 where
  pub hostmap_raw :
      (s : Text) (es : List HostmapEntry)
      → json.hostmap s ≡ ok es
      → (rs : List Text) × (json.raw_list s ≡ ok rs) × (length rs ≡ length es) × AllFull rs
  pub addrmap_raw :
      (s : Text) (es : List LighthouseAddrmapEntry)
      → json.addrmap s ≡ ok es
      → (rs : List Text) × (json.raw_list s ≡ ok rs) × (length rs ≡ length es) × AllFull rs

abbrev pub hostmap_raws : List HostmapEntry → List (Slice ℕ)
hostmap_raws [] = []
hostmap_raws (e ∷ es) = e.raw ∷ hostmap_raws es

abbrev pub addrmap_raws : List LighthouseAddrmapEntry → List (Slice ℕ)
addrmap_raws [] = []
addrmap_raws (e ∷ es) = e.raw ∷ addrmap_raws es

copy_bytes-full : (r : Text) → r ≢ [] → copy_bytes r ≡ some r
unfolding copy_bytes
copy_bytes-full [] h = absurd (h refl)
copy_bytes-full (c ∷ r) h = refl

set_hostmap_raws_lem :
    (es : List HostmapEntry) (rs : List Text)
    → length rs ≡ length es
    → AllFull rs
    → hostmap_raws (set_hostmap_raws es rs) ≡ map some rs
unfolding set_hostmap_raws
set_hostmap_raws_lem [] [] e _ = refl
set_hostmap_raws_lem [] (r ∷ rs) e _ = absurd (omega arith)
set_hostmap_raws_lem (x ∷ es) [] e _ = absurd (omega arith)
set_hostmap_raws_lem (x ∷ es) (r ∷ rs) e (full, fs) =
    cc (copy_bytes-full r full, set_hostmap_raws_lem es rs (omega arith) fs)

set_addrmap_raws_lem :
    (es : List LighthouseAddrmapEntry) (rs : List Text)
    → length rs ≡ length es
    → AllFull rs
    → addrmap_raws (set_addrmap_raws es rs) ≡ map some rs
unfolding set_addrmap_raws
set_addrmap_raws_lem [] [] e _ = refl
set_addrmap_raws_lem [] (r ∷ rs) e _ = absurd (omega arith)
set_addrmap_raws_lem (x ∷ es) [] e _ = absurd (omega arith)
set_addrmap_raws_lem (x ∷ es) (r ∷ rs) e (full, fs) =
    cc (copy_bytes-full r full, set_addrmap_raws_lem es rs (omega arith) fs)

-- No record is left with a nil or an empty `Raw`.
abbrev pub HasRaws : List (Slice ℕ) → Type 0
HasRaws [] = Unit
HasRaws (none ∷ rs) = ⊥
HasRaws (some r ∷ rs) = (r ≢ []) × HasRaws rs

HasRaws-map : (rs : List Text) → AllFull rs → HasRaws (map some rs)
HasRaws-map [] _ = tt
HasRaws-map (r ∷ rs) (full, fs) = (full, HasRaws-map rs fs)

module _ (json : Json) (laws : IsJson json) where
  -- A hostmap whose records decode is parsed, and then every entry has the bytes of its own JSON
  -- value, in order, and none is empty.
  pub parse_hostmap_raws :
      (s : Text) (es : List HostmapEntry)
      → json.hostmap s ≡ ok es
      → (out : List HostmapEntry) × (rs : List Text) × (parse_hostmap json s ≡ ok out)
        × (json.raw_list s ≡ ok rs)
        × (hostmap_raws out ≡ map some rs)
        × HasRaws (hostmap_raws out)
  unfolding parse_hostmap
  parse_hostmap_raws s es e =
      let (rs, split, len, full) = laws.hostmap_raw s es e in
      let same = set_hostmap_raws_lem es rs len full in
      (set_hostmap_raws es rs, rs, rw (e, split), split, same, rw same (HasRaws-map rs full))

  -- A lighthouse address map whose records decode is parsed, and then every entry has the bytes of
  -- its own JSON value, in order, and none is empty.
  pub parse_addrmap_raws :
      (s : Text) (es : List LighthouseAddrmapEntry)
      → json.addrmap s ≡ ok es
      → (out : List LighthouseAddrmapEntry) × (rs : List Text) × (parse_lighthouse_addrmap json s
          ≡ ok out)
        × (json.raw_list s ≡ ok rs)
        × (addrmap_raws out ≡ map some rs)
        × HasRaws (addrmap_raws out)
  unfolding parse_lighthouse_addrmap
  parse_addrmap_raws s es e =
      let (rs, split, len, full) = laws.addrmap_raw s es e in
      let same = set_addrmap_raws_lem es rs len full in
      (set_addrmap_raws es rs, rs, rw (e, split), split, same, rw same (HasRaws-map rs full))
