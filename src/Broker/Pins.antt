-- ===== src/Broker/Pins.antt =====
-- crates/muxd/src/broker.rs: trust on first use. The file of known hosts is a text, `none` while
-- it is not there; a fingerprint is the text that tls.rs makes of a certificate.
pub mod Found
pub mod Trust
use mux.Prelude.{
  ℕ, Bool, true, false, not, ◌&&◌, ◌||◌, List, [], ◌∷◌, ◌++◌, Option, none, some, if◌then◌else◌,
  leb, ◌==◌, any, all, map_or, take,
}
use mux.Prelude.Results.{Result, ok, err}
use mux.Text.{Text, codes, same, newline, lines, split_whitespace}

-- `char::is_ascii_alphanumeric`
abbrev pub is_alphanumeric : ℕ → Bool
is_alphanumeric c = (leb 48 c && leb c 57) || (leb 65 c && leb c 90) || (leb 97 c && leb c 122)

abbrev pub is_alias_char : ℕ → Bool
is_alias_char c = is_alphanumeric c || (c == 46) || (c == 95) || (c == 45)

unfoldable pub check_alias : Text → Bool
check_alias [] = false
check_alias (c ∷ s) = is_alphanumeric c && all is_alias_char (c ∷ s)

-- What the system lets the daemon do with the file at the time of a contact: an append may fail after
-- some of its line was written.
pub data Append : Type 0 where
  written_whole not_opened : Append
  broken_off : ℕ → Append

pub record Access : Type 0 where
  pub readable : Bool
  pub append : Append

pub data PinError : Type 0 where
  unreadable append_failed : PinError
  key_changed : (pinned presented : Text) → PinError

abbrev pub KnownHosts : Type 0
KnownHosts = Option Text

abbrev first : List Text → Option Text
first [] = none
first (f ∷ fs) = some f

-- Whether the line is the alias's, by its first field.
unfoldable pub is_line_of : Text → List Text → Bool
unfolding same
is_line_of alias fields = map_or false (λ f. same f alias) (first fields)

abbrev pub second : List Text → Option Text
second [] = none
second (f ∷ fs) = first fs

-- The loop of `read_pin`: the first line of the alias decides.
unfoldable pub find_pin : Text → List Text → Option Text
unfolding is_line_of split_whitespace
find_pin alias [] = none
find_pin alias (line ∷ ls) =
    let rest = find_pin alias ls in
    let fields = split_whitespace line in if is_line_of alias fields then second fields else rest

unfoldable pub read_pin : Access → KnownHosts → Text → Result PinError (Option Text)
unfolding find_pin lines
read_pin access none alias = ok none
read_pin access (some text) alias =
    if access.readable then ok (find_pin alias (lines text)) else err unreadable

-- The line that `writeln!` adds.
abbrev pub pin_line : Text → Text → Text
pin_line alias fingerprint = alias ++ 32 ∷ fingerprint

abbrev pub text_of : KnownHosts → Text
text_of known_hosts = map_or [] (λ text. text) known_hosts

-- The file, and whether the whole line was written.
abbrev append_line : Append → KnownHosts → Text → KnownHosts × Bool
append_line written_whole known_hosts line = (some (text_of known_hosts ++ line), true)
append_line not_opened known_hosts line = (known_hosts, false)
append_line (broken_off n) known_hosts line = (some (text_of known_hosts ++ take n line), false)

unfoldable pub append_pin : Access → KnownHosts → Text → Text → KnownHosts × Bool
append_pin access known_hosts alias fingerprint =
    append_line access.append known_hosts (pin_line alias fingerprint ++ newline ∷ [])

abbrev pub appended : Text → KnownHosts × Bool → KnownHosts × Result PinError (Option Text)
appended fingerprint (known_hosts, true) = (known_hosts, ok (some fingerprint))
appended fingerprint (known_hosts, false) = (known_hosts, err append_failed)

-- The pin that is stored is matched, or the one that is presented is stored. `some` in the result is
-- a first contact.
unfoldable pub settle_pin :
    Access
    → Text
    → Text
    → KnownHosts
    → Result PinError (Option Text)
    → KnownHosts × Result PinError (Option Text)
unfolding append_pin same
settle_pin access alias fingerprint known_hosts (err e) = (known_hosts, err e)
settle_pin access alias fingerprint known_hosts (ok (some pinned)) =
    if same pinned fingerprint
    then (known_hosts, ok none)
    else (known_hosts, err (key_changed pinned fingerprint))
settle_pin access alias fingerprint known_hosts (ok none) =
    appended fingerprint (append_pin access known_hosts alias fingerprint)

unfoldable pub check_pin :
    Access → Text → Text → KnownHosts → KnownHosts × Result PinError (Option Text)
unfolding read_pin settle_pin
check_pin access alias fingerprint known_hosts =
    settle_pin access alias fingerprint known_hosts (read_pin access known_hosts alias)
