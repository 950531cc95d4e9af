-- ===== src/Errors.antt =====
-- Go errors as values, results, and the text of an error (fmt.Errorf, errors.Join, err.Error).
-- `quote` is %q: bytes from 128 up stand as they are, as Go leaves printable UTF-8.
use Prim.Native.Nat.{◌/◌, ◌%◌}
use mathlib.Core.List.{flat_map}
use nebula_mnemosina.Prelude.{
  ℕ, ◌+◌, String, Bool, true, false, ◌||◌, List, [], ◌∷◌, ◌++◌, ◌==◌, Option, none, some, ltb,
  arith, ◌≡◌, refl, ◌⊎◌, inl, inr, if◌then◌else◌,
}
use nebula_mnemosina.Text.{Text, codes, itoa}

-- The pieces of a format: literal text, and the verbs %s, %q and %d.
pub data Piece : Type 0 where
  lit : String → Piece
  str : Text → Piece
  quoted : Text → Piece
  number : ℕ → Piece

mutual
  -- `wrap ps e` is fmt.Errorf with the pieces, then ": %w". The named errors are the sentinels that
  -- the program tests for; `foreign` is an error of other code with its text. `key_error` is
  -- knownhosts.KeyError, whose `Want` list is given by its length.
  pub data Error : Type 0 where
    canceled deadline_exceeded no_rows not_exist : Error
    foreign : Text → Error
    key_error : ℕ → Error
    errorf : List Piece → Error
    wrap : List Piece → Error → Error
    joined : Errors → Error

  pub data Errors : Type 0 where
    nil : Errors
    cons : Error → Errors → Errors

-- What a Go function returns beside an error: the error if there is one, else the value.
pub data Result {ℓ} (A : Type ℓ) : Type ℓ where
  err : (failure : Error) → Result A
  ok : (value : A) → Result A

pub ok_inj {ℓ} : {A : Type ℓ} {a b : A} → ◌≡◌ {A = Result A} (ok a) (ok b) → a ≡ b
ok_inj h = ground arith

-- Go's `if err != nil { return err }`, with the value handed on.
infixl 5 ◌>>=◌
abbrev pub ◌>>=◌ {ℓ κ} : {A : Type ℓ} {B : Type κ} (r : Result A) (next : A → Result B) → Result B
err failure >>= next = err failure
ok value >>= next = next value

infixl 5 ◌>>◌
abbrev pub ◌>>◌ {ℓ} : {B : Type ℓ} (r : Result (Unit {0})) (next : Result B) → Result B
err failure >> next = err failure
ok value >> next = next

-- To split on a computed result and keep the equation.
pub Result-cases {ℓ} :
    {A : Type ℓ} (r : Result A) → ((a : A) × (r ≡ ok a)) ⊎ ((e : Error) × (r ≡ err e))
Result-cases (ok a) = inl (a, refl)
Result-cases (err e) = inr (e, refl)

-- `if err != nil { return fmt.Errorf("…: %w", err) }`
abbrev pub wrapping {ℓ} : {A : Type ℓ} → List Piece → Result A → Result A
wrapping ps (ok a) = ok a
wrapping ps (err e) = err (wrap ps e)

abbrev pub to_errors : List Error → Errors
to_errors [] = nil
to_errors (e ∷ es) = cons e (to_errors es)

-- errors.Join of errors that are not nil.
unfoldable pub join_errors : List Error → Error
join_errors es = joined (to_errors es)

hex_digit : ℕ → ℕ
hex_digit n = if ltb n 10 then b'0' + n else 87 + n

escape_byte : ℕ → Text
unfolding hex_digit
escape_byte c =
    if (c == b'"') || (c == 92)
    then 92 ∷ c ∷ []
    else if c == 7
    then codes "\\a"
    else if c == 8
    then codes "\\b"
    else if c == 9
    then codes "\\t"
    else if c == 10
    then codes "\\n"
    else if c == 11
    then codes "\\v"
    else if c == 12
    then codes "\\f"
    else if c == 13
    then codes "\\r"
    else if ltb c 32 || (c == 127)
    then codes "\\x" ++ hex_digit (c / 16) ∷ hex_digit (c % 16) ∷ []
    else c ∷ []

-- strconv.Quote
unfoldable pub quote : Text → Text
unfolding escape_byte
quote s = b'"' ∷ flat_map escape_byte s ++ b'"' ∷ []

piece_text : Piece → Text
unfolding quote itoa
piece_text (lit s) = codes s
piece_text (str s) = s
piece_text (quoted s) = quote s
piece_text (number n) = itoa n

unfoldable pub pieces_text : List Piece → Text
unfolding piece_text
pieces_text [] = []
pieces_text (p ∷ ps) = piece_text p ++ pieces_text ps

unfoldable mutual
  unfolding pieces_text

  -- err.Error()
  pub message : Error → Text
  message canceled = codes "context canceled"
  message deadline_exceeded = codes "context deadline exceeded"
  message no_rows = codes "no rows in result set"
  message not_exist = codes "file does not exist"
  message (foreign s) = s
  message (key_error n) =
      if n == 0 then codes "knownhosts: key is unknown" else codes "knownhosts: key mismatch"
  message (errorf ps) = pieces_text ps
  message (wrap ps e) = pieces_text ps ++ codes ": " ++ message e
  message (joined es) = messages es

  pub messages : Errors → Text
  messages nil = []
  messages (cons e es) = message e ++ messages_tail es

  pub messages_tail : Errors → Text
  messages_tail nil = []
  messages_tail (cons e es) = 10 ∷ message e ++ messages_tail es

unfoldable mutual
  -- errors.Is(err, context.Canceled)
  pub is_canceled : Error → Bool
  is_canceled canceled = true
  is_canceled (wrap ps e) = is_canceled e
  is_canceled (joined es) = any_canceled es
  is_canceled _ = false

  pub any_canceled : Errors → Bool
  any_canceled nil = false
  any_canceled (cons e es) = is_canceled e || any_canceled es

unfoldable mutual
  -- errors.As(err, &keyErr): the length of `Want` of the first knownhosts.KeyError.
  pub as_key_error : Error → Option ℕ
  as_key_error (key_error n) = some n
  as_key_error (wrap ps e) = as_key_error e
  as_key_error (joined es) = first_key_error es
  as_key_error _ = none

  pub first_key_error : Errors → Option ℕ
  first_key_error nil = none
  first_key_error (cons e es) = elim (as_key_error e) [
    | some n ↦ some n
    | none ↦ first_key_error es
  ]

-- errors.Is(err, os.ErrNotExist), for an error that wraps no other: as os.Stat returns it.
unfoldable pub is_not_exist : Error → Bool
is_not_exist not_exist = true
is_not_exist _ = false

quote_sample : quote (codes "a\"b") ≡ codes "\"a\\\"b\""
unfolding quote flat_map
quote_sample = refl
