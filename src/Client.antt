-- ===== src/Client.antt =====
-- crates/mux-attach/src/main.rs: the relay that each pane runs. Its command line, and the names
-- that it may present itself under.
pub mod Target
pub mod Handshake
pub mod Pump
pub mod Reconnect
mod Examples
use mux.Prelude.{
  ℕ, Bool, true, false, not, ◌&&◌, ◌||◌, List, [], ◌∷◌, Option, none, some, String, if◌then◌else◌,
  ◌==◌, leb, all, str_eq,
}
use mux.Prelude.Results.{Result, ok, err}
use mux.Text.{Text, codes, len, is_empty, same}
use mux.Text.Strings.{to_string}

-- `str::split_once` at a character.
unfoldable pub split_once : ℕ → Text → Option (Text × Text)
split_once sep [] = none
split_once sep (c ∷ s) =
    let rest = split_once sep s in
    if c == sep
    then some ([], s)
    else elim rest [ none ↦ none | some (before, after) ↦ some (c ∷ before, after) ]

abbrev pub colon : ℕ
colon = 58

-- `none` is this machine.
abbrev target_of : Text × Text → Option (Option Text × Text)
target_of (host, name) =
    if same host (codes "local") && not (is_empty name)
    then some (none, name)
    else if not (is_empty host) && not (is_empty name)
    then some (some host, name)
    else none

unfoldable pub parse_target : Text → Option (Option Text × Text)
unfolding split_once same
parse_target target = elim (split_once colon target) [ none ↦ none | some parts ↦ target_of parts ]

-- What a command line asks for, and what `main` collects of it.
pub record Options : Type 0 where
  pub target : Option String
  pub cwd : Option String
  pub cwd_from : Option String
  pub command : List String
  pub expect_existing : Bool
  pub require_existing : Bool
  pub mirror : Bool

abbrev pub no_options : Options
no_options = record {
  target = none;
  cwd = none;
  cwd_from = none;
  command = [];
  expect_existing = false;
  require_existing = false;
  mirror = false;
}

pub data UsageError : Type 0 where
  needs_dir needs_pty_name usage bad_target : UsageError

-- An argument without a value, or the last one of a line.
abbrev flag : String → Options → Options
flag arg o =
    if str_eq arg "--expect-existing"
    then record o { expect_existing = true }
    else if str_eq arg "--mirror-foreground"
    then record o { mirror = true }
    else if str_eq arg "--require-existing"
    then record o { require_existing = true; expect_existing = true }
    else record o { target = some arg }

abbrev last_arg : String → Options → Result UsageError Options
last_arg arg o =
    if str_eq arg "--cwd"
    then err needs_dir
    else if str_eq arg "--cwd-from"
    then err needs_pty_name
    else if str_eq arg "--"
    then ok (record o { command = [] })
    else ok (flag arg o)

-- The loop of `main` over its arguments.
unfoldable pub collect : List String → Options → Result UsageError Options
collect [] o = ok o
collect (arg ∷ []) o = last_arg arg o
collect (arg ∷ value ∷ rest) o =
    let after_value = λ (o' : Options). collect rest o' in
    let after_arg = collect (value ∷ rest) (flag arg o) in
    if str_eq arg "--cwd"
    then after_value (record o { cwd = some value })
    else if str_eq arg "--cwd-from"
    then after_value (record o { cwd_from = some value })
    else if str_eq arg "--"
    then ok (record o { command = value ∷ rest })
    else after_arg

-- `Attach`: what every handshake repeats.
pub record Attach : Type 0 where
  pub target : Option String
  pub name : String
  pub cwd : Option String
  pub cwd_from : Option String
  pub command : List String
  pub expect_existing : Bool
  pub require_existing : Bool
  pub mirror : Bool

abbrev attach_to : Options → Option Text × Text → Attach
attach_to o (host, name) = record {
  target = elim host [ none ↦ none | some h ↦ some (to_string h) ];
  name = to_string name;
  cwd = o.cwd;
  cwd_from = o.cwd_from;
  command = o.command;
  expect_existing = o.expect_existing;
  require_existing = o.require_existing;
  mirror = o.mirror;
}

abbrev attach_with : Options → Result UsageError Attach
attach_with o = elim o.target [
  | none ↦ err usage
  | some target ↦ elim (parse_target (codes target)) [
    | none ↦ err bad_target
    | some parts ↦ ok (attach_to o parts)
  ]
]

-- `main`, up to the call of `run_attach`.
unfoldable pub parse_args : List String → Result UsageError Attach
unfolding collect to_string parse_target
parse_args args = elim (collect args no_options) [ err e ↦ err e | ok o ↦ attach_with o ]

abbrev pub alias_max_len : ℕ
alias_max_len = 64

-- `u8::is_ascii_alphanumeric`, or one of "._+-".
abbrev is_alias_byte : ℕ → Bool
is_alias_byte b =
    (leb 48 b && leb b 57)
    || (leb 65 b && leb b 90)
    || (leb 97 b && leb b 122)
    || (b == 46)
    || (b == 95)
    || (b == 43)
    || (b == 45)

abbrev starts_with_dot : Text → Bool
starts_with_dot [] = false
starts_with_dot (c ∷ s) = c == 46

-- A character outside of ASCII has bytes outside of it too.
unfoldable pub valid_alias : Text → Bool
unfolding len
valid_alias name =
    not (is_empty name)
    && leb (len name) alias_max_len
    && not (starts_with_dot name)
    && all is_alias_byte name
