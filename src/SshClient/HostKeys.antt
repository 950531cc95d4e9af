-- ===== src/SshClient/HostKeys.antt =====
-- hostKeyCallback, acceptNewHostKeyCallback and appendKnownHost of internal/sshclient/client.go. The
-- package knownhosts is a parameter; the file system is the one file and the failures to come. The
-- mutex puts the calls of a callback one behind the other, so a callback is a state that calls change.
pub mod Answers
pub mod Runs
pub mod Pinned
use nebula_mnemosina.Prelude.{
  ℕ, zero, suc, String, Bool, true, false, List, [], ◌∷◌, ◌++◌, Option, none, some, take,
  if◌then◌else◌,
}
use nebula_mnemosina.Text.{Text, codes, is_empty, text_eq}
use nebula_mnemosina.Errors.{
  Piece, lit, str, quoted, Error, not_exist, errorf, wrap, as_key_error, is_not_exist, Result, ok,
  err,
}

-- A check of a host's key: host name, remote address, key.
abbrev pub Check : Type 0 → Type 0
Check Key = Text → Text → Key → Option Error

-- knownhosts.New, on the content of the file, and knownhosts.Line, for one address.
pub record KnownHosts (Key : Type 0) : Type 0 where
  pub load : Text → Result (Check Key)
  pub line : Text → Key → Text

-- The known_hosts file, or none; and for each operation on it to come, whether it fails: with which
-- error, and behind how many bytes if it is a write. Behind the end of the list nothing fails.
pub record Disk : Type 0 where
  pub content : Option Text
  pub faults : List (Option (ℕ × Error))

abbrev pub Io : Type 0 → Type 0
Io A = Disk → Result A × Disk

abbrev pub continue : {A B : Type 0} → Result A → (A → Io B) → Io B
continue (ok a) f d = f a d
continue (err e) f d = (err e, d)

infixl 5 ◌>>=◌ ◌>>◌
abbrev pub ◌>>=◌ : {A B : Type 0} → Io A → (A → Io B) → Io B
◌>>=◌ m f d = continue (m d).0 f (m d).1

abbrev pub ◌>>◌ : {B : Type 0} → Io (Unit {0}) → Io B → Io B
m >> k = m >>= λ _. k

abbrev pub pure : {A : Type 0} → A → Io A
pure a d = (ok a, d)

abbrev pub fail : {A : Type 0} → Error → Io A
fail e d = (err e, d)

abbrev pub wrap_error : {A : Type 0} → List Piece → Result A → Result A
wrap_error ps (ok a) = ok a
wrap_error ps (err e) = err (wrap ps e)

-- `if err != nil { return fmt.Errorf("…: %w", err) }`
abbrev pub wrapping : {A : Type 0} → List Piece → Io A → Io A
wrapping ps m d = (wrap_error ps (m d).0, (m d).1)

-- An operation fails as the next fault says, leaving what `torn` leaves, and is done if there is none.
abbrev pub attempt : {A : Type 0} → List (Option (ℕ × Error)) → (ℕ → Disk → Disk) → Io A → Io A
attempt [] torn m d = m d
attempt (none ∷ faults) torn m d = m (record d { faults = faults })
attempt (some (n, e) ∷ faults) torn m d = (err e, torn n (record d { faults = faults }))

unfoldable pub operation : {A : Type 0} → (ℕ → Disk → Disk) → Io A → Io A
operation torn m d = attempt d.faults torn m d

abbrev pub untouched : ℕ → Disk → Disk
untouched n d = d

abbrev pub exists : Option Text → Result (Unit {0})
exists (some text) = ok tt
exists none = err not_exist

-- os.MkdirAll of the file's directory, os.Stat, os.OpenFile with O_CREATE and with O_APPEND.
unfoldable pub mkdir_all : Io (Unit {0})
unfolding operation
mkdir_all = operation untouched (pure tt)

unfoldable pub stat : Io (Unit {0})
unfolding operation
stat = operation untouched (λ d. (exists d.content, d))

abbrev pub created : Option Text → Text
created (some text) = text
created none = []

unfoldable pub open_create : Io (Unit {0})
unfolding operation
open_create = operation untouched (λ d. (ok tt, record d { content = some (created d.content) }))

unfoldable pub open_append : Io (Unit {0})
unfolding operation
open_append = operation untouched (λ d. (exists d.content, d))

abbrev pub add_text : Text → Option Text → Option Text
add_text text none = none
add_text text (some old) = some (old ++ text)

-- file.WriteString, which may write a part of the text and fail.
unfoldable pub write_string : Text → Io (Unit {0})
unfolding operation
write_string text =
    operation (λ n d. record d { content = add_text (take n text) d.content })
      (λ d. (ok tt, record d { content = add_text text d.content }))

module _ {Key : Type 0} (known : KnownHosts Key) where
  abbrev pub load_content : Option Text → Result (Check Key)
  load_content none = err not_exist
  load_content (some text) = known.load text

  -- knownhosts.New(path)
  unfoldable pub new_check : Io (Check Key)
  unfolding operation
  new_check = operation untouched (λ d. (load_content d.content, d))

  unfoldable pub append_known_host : Text → Key → Io (Unit {0})
  append_known_host hostname key = do
    wrapping (lit "open known_hosts for append" ∷ []) open_append
    wrapping (lit "append known host " ∷ str hostname ∷ [])
        (write_string (known.line hostname key ++ 10 ∷ []))

  -- The end of the callback: the host is not known yet.
  unfoldable pub learn : Text → Key → Io (Check Key)
  learn hostname key = do
    append_known_host hostname key
    wrapping (lit "reload known_hosts after learning " ∷ str hostname ∷ []) (new_check)

  -- `current = reloaded`, or the error with `current` as it was.
  abbrev pub reloaded : Check Key → Result (Check Key) → Option Error × Check Key
  reloaded current (ok check) = (none, check)
  reloaded current (err e) = (some e, current)

  -- The callback's branches for an error, by the length of its `Want` if it is a KeyError.
  unfoldable pub by_want :
      Text → Key → Check Key → Error → Option ℕ → Disk → (Option Error × Check Key) × Disk
  by_want hostname key current e none d = ((some e, current), d)
  by_want hostname key current e (some (suc n)) d =
      ((some (wrap (lit "ssh host key mismatch for " ∷ str hostname ∷ []) e), current), d)
  by_want hostname key current e (some zero) d =
      let (r, after) = learn hostname key d in (reloaded current r, after)

  unfoldable pub by_answer :
      Text → Key → Check Key → Option Error → Disk → (Option Error × Check Key) × Disk
  unfolding by_want
  by_answer hostname key current none d = ((none, current), d)
  by_answer hostname key current (some e) d = by_want hostname key current e (as_key_error e) d

  -- A call of the callback that acceptNewHostKeyCallback returns.
  unfoldable pub accept_new :
      Text → Text → Key → Check Key → Disk → (Option Error × Check Key) × Disk
  accept_new hostname remote key current d =
      by_answer hostname key current (current hostname remote key) d

  -- `if _, err := os.Stat(path); errors.Is(err, os.ErrNotExist) { … } else if err != nil { … }`
  unfoldable pub create_missing : Result (Unit {0}) → Io (Unit {0})
  create_missing (ok u) = pure tt
  create_missing (err e) =
      if is_not_exist e
      then wrapping (lit "create known_hosts file" ∷ []) open_create
      else fail (wrap (lit "stat known_hosts file" ∷ []) e)

  unfoldable pub ensure_file : Io (Unit {0})
  unfolding create_missing
  ensure_file d = create_missing (stat d).0 (stat d).1

  unfoldable pub accept_new_host_key_callback : Io (Check Key)
  unfolding ensure_file
  accept_new_host_key_callback = do
    wrapping (lit "create known_hosts directory" ∷ []) mkdir_all
    ensure_file
    wrapping (lit "load known_hosts" ∷ []) new_check

-- The callbacks that hostKeyCallback returns, with the variables that they close over.
pub data HostKeys (Key : Type 0) : Type 0 where
  insecure : HostKeys Key
  strict : (check : Check Key) → HostKeys Key
  accepting : (current : Check Key) → HostKeys Key

abbrev pub path_required : String → Error
path_required mode = errorf (lit "known_hosts path is required in " ∷ lit mode ∷ lit " mode" ∷ [])

module _ {Key : Type 0} (known : KnownHosts Key) where
  unfoldable pub host_key_callback : Text → Text → Io (HostKeys Key)
  host_key_callback mode path =
      if text_eq mode (codes "insecure")
      then pure insecure
      else if text_eq mode (codes "strict")
      then (if is_empty path
          then fail (path_required "strict")
          else new_check known >>= λ check. pure (strict check))
      else if text_eq mode (codes "accept-new")
      then (if is_empty path
          then fail (path_required "accept-new")
          else accept_new_host_key_callback known >>= λ check. pure (accepting check))
      else fail (errorf (lit "unsupported host key mode " ∷ quoted mode ∷ []))

  -- A call of a callback.
  unfoldable pub verify :
      HostKeys Key → Text → Text → Key → Disk → (Option Error × HostKeys Key) × Disk
  unfolding accept_new
  verify insecure hostname remote key d = ((none, insecure), d)
  verify (strict check) hostname remote key d = ((check hostname remote key, strict check), d)
  verify (accepting current) hostname remote key d =
      let ((answer, current), after) = accept_new known hostname remote key current d in
      ((answer, accepting current), after)
