-- ===== src/Storage.antt =====
-- internal/storage/storage.go: the conversions to database values here; saving a poll in Save, the
-- deletions of expired rows in Expire, and the present peers, the views and the chunks in Peers.
pub mod Convert
pub mod Save
pub mod Expire
pub mod Peers
pub mod Consistent
use nebula_mnemosina.Prelude.{
  ℕ, ◌^◌, ◌-◌, ◌+◌, ◌%◌, Bool, true, false, not, List, [], Option, none, some, ltb, if◌then◌else◌,
}
use nebula_mnemosina.Prelude.Int.{ℤ, pos, negsuc}
use nebula_mnemosina.Text.{Text, is_empty}
use nebula_mnemosina.Errors.{Error, message}
use nebula_mnemosina.Time.{Time, Duration, zero_time, is_zero, whole_millis, max_int64}
use nebula_mnemosina.Model.{Slice}
use nebula_mnemosina.Db.{Nullable}

unfoldable pub timestamptz : Time → Nullable Time
timestamptz value = record { value = value; valid = not (is_zero value) }

unfoldable pub nullable_time : Time → Nullable Time
nullable_time value = record { value = value; valid = not (is_zero value) }

unfoldable pub nullable_string : Text → Nullable Text
nullable_string value = record { value = value; valid = not (is_empty value) }

unfoldable pub text_value : Nullable Text → Text
text_value n = if n.valid then n.value else []

unfoldable pub nullable_error : Option Error → Nullable Text
nullable_error none = record { value = []; valid = false }
nullable_error (some e) = record { value = message e; valid = true }

unfoldable pub millis : Duration → ℤ
millis = whole_millis

unfoldable pub non_nil : Slice Text → Slice Text
non_nil none = some []
non_nil (some values) = some values

unfoldable pub uint64_to_int64 : ℕ → ℤ
uint64_to_int64 value = if ltb max_int64 value then pos max_int64 else pos value

-- Go's conversion int32(n) of a number that is not negative: the low 32 bits, with their sign.
unfoldable pub to_int32 : ℕ → ℤ
to_int32 n = let low = n % 2 ^ 32 in if ltb low (2 ^ 31) then pos low else negsuc (2 ^ 32 - low - 1)
