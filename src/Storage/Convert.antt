-- ===== src/Storage/Convert.antt =====
-- What the conversions keep.
use nebula_mnemosina.Prelude.{ℕ, ◌^◌, ◌≤◌, ◌<◌, [], ◌∷◌, ◌≡◌, refl, arith, ◌-◌}
use nebula_mnemosina.Prelude.Int.{pos, ◌≤ℤ◌}
use nebula_mnemosina.Text.{Text}
use nebula_mnemosina.Storage.{nullable_string, text_value, uint64_to_int64, to_int32}

-- A text that is written through nullableString and read back through textValue is unchanged.
pub text_value-nullable_string : (s : Text) → text_value (nullable_string s) ≡ s
unfolding text_value nullable_string
text_value-nullable_string [] = refl
text_value-nullable_string (c ∷ s) = refl

-- The conversion of a counter is exact where it fits, saturates where it does not, never turns
-- negative, and keeps the order.
pub uint64_to_int64_bounds :
    (a b : ℕ)
    → a ≤ b
    → (pos 0 ≤ℤ uint64_to_int64 a)
      × (uint64_to_int64 a ≤ℤ pos (2 ^ 63 - 1))
      × (uint64_to_int64 a ≤ℤ uint64_to_int64 b)
      × (a < 2 ^ 63 → uint64_to_int64 a ≡ pos a)
unfolding uint64_to_int64
uint64_to_int64_bounds a b h = ground arith

-- An index below 2^31 is not changed by the conversion to int32.
pub to_int32-pos : (n : ℕ) → n < 2 ^ 31 → to_int32 n ≡ pos n
unfolding to_int32
to_int32-pos n h = ground arith
