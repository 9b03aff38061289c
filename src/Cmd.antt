-- ===== src/Cmd.antt =====
-- cmd/vault/main.go: the commands, and the headless server from its passphrase to its end. Flags,
-- printing and the exit codes are left to Go's library.
pub mod Serving
pub mod Idling
pub mod Flags
use joyvend_secretvault.Shared.{
  ℕ, Bool, true, false, not, ◌&&◌, ◌||◌, Option, none, some, List, [], ◌∷◌, ◌==◌, if◌then◌else◌,
  is_empty, is_some, ℤ, pos, Result, ok, err, ◌>>=◌, ◌>>◌, guard, map_err,
}
use joyvend_secretvault.Text.{Bytes, text, bytes_eq, has_prefix}
use joyvend_secretvault.Secret.{Randoms}
use joyvend_secretvault.Store.{Library, Store, StoreError, Io}
use joyvend_secretvault.Store.Lifecycle.{create_store, open_store}

pub data Command : Type 0 where
  run_gui run_serve : List Bytes → Command
  unknown_command : Bytes → Command

abbrev named_command : Bytes → List Bytes → Command
named_command mode args =
    if bytes_eq mode (text "gui")
    then run_gui args
    else if bytes_eq mode (text "serve")
    then run_serve args
    else unknown_command mode

-- main, from the arguments behind the program's name.
unfoldable pub choose_command : List Bytes → Command
unfolding has_prefix bytes_eq
choose_command [] = run_gui []
choose_command (first ∷ rest) =
    if has_prefix first (text "-") then run_gui (first ∷ rest) else named_command first rest

abbrev is_line_end : ℕ → Bool
is_line_end c = c == 0x0d || c == 0x0a

abbrev or_cut : ℕ → Bytes → Bytes
or_cut c [] = if is_line_end c then [] else c ∷ []
or_cut c (d ∷ kept) = c ∷ d ∷ kept

-- strings.TrimRight(line, "\r\n")
abbrev pub trim_line : Bytes → Bytes
trim_line [] = []
trim_line (c ∷ line) = or_cut c (trim_line line)

-- passphrase, from the variable's value and the line that would be read.
unfoldable pub passphrase : Bytes → Bytes → Bytes
passphrase [] line = trim_line line
passphrase (c ∷ value) line = c ∷ value

abbrev before_slash : ℕ → Option Bytes → Option Bytes
before_slash c (some before) = some (c ∷ before)
before_slash c none = if c == b'/' then some [] else none

-- The part before the last slash.
abbrev pub before_last_slash : Bytes → Option Bytes
before_last_slash [] = none
before_last_slash (c ∷ p) = before_slash c (before_last_slash p)

unfoldable pub dir : Bytes → Bytes
dir p = elim (before_last_slash p) [ some before ↦ before | none ↦ text "." ]

pub data ServeError : Type 0 where
  empty_passphrase no_directory : ServeError
  of_vault : StoreError → ServeError

module _ (lib : Library) where
  -- Where there is no file, in a directory that is made first.
  unfoldable pub create_first :
      Io → Option Bytes → Randoms → Bool → Option Bytes → Bytes → Result ServeError Store
  create_first io salt r mkdir_ok disk password = do
    guard mkdir_ok no_directory
    map_err of_vault (create_store lib io salt r disk password)

  -- The vault of `runServe`.
  unfoldable pub open_or_create :
      Io → Option Bytes → Randoms → Bool → Option Bytes → Bytes → Result ServeError Store
  unfolding create_first
  open_or_create io salt r mkdir_ok disk password =
      if is_empty password
      then err empty_passphrase
      else if is_some disk
      then map_err of_vault (open_store lib disk password)
      else create_first io salt r mkdir_ok disk password
