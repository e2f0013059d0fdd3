-- ===== src/Broker/Stream.antt =====
-- crates/muxd/src/broker.rs: a request of a pane on its way to another host. What is read from the
-- disk and what comes of a dial are arguments.
pub mod Relayed
use mux.Prelude.{
  ℕ, suc, Bool, true, false, not, ◌&&◌, ◌||◌, List, [], ◌∷◌, ◌++◌, Option, none, some, String,
  if◌then◌else◌, ◌==◌, ltb, length, any, map_or, Table, lookup,
}
use mux.Prelude.Results.{Result, ok, err}
use mux.Text.{Text, codes, trim, is_empty}
use mux.Text.Strings.{to_string}
use mux.Frame.{max_request_bytes, write_message}
use mux.Frame as frame
use mux.Peer.{protocol_version, OpenRequest, ErrorKind, unreachable, no_host, other}
use mux.Broker.Pins.{check_alias}
use mux.Broker.Links.{Links, evict}

-- A file that is read whole: missing, not readable, or its content.
pub data File {ℓ} (A : Type ℓ) : Type ℓ where
  missing unreadable : File A
  content : A → File A

-- `hosts.json`, once it is parsed, is a table of addresses; a missing file is an empty one.
unfoldable pub host_addr : File (Table String) → String → Option String
host_addr missing alias = none
host_addr unreadable alias = none
host_addr (content table) alias = lookup alias table

-- `tokens/<alias>` overrides the client's own token, which is `none` where it can be neither read
-- nor made.
unfoldable pub host_token : File Text → Option Text → Option Text
unfolding trim
host_token missing client_token = client_token
host_token unreadable client_token = none
host_token (content text) client_token =
    let token = trim text in if is_empty token then none else some token

abbrev pub colon : ℕ
colon = 58

-- What stands from the last "]" on.
unfoldable pub from_last_bracket : Text → Option Text
from_last_bracket [] = none
from_last_bracket (c ∷ s) = elim (from_last_bracket s) [
  | some rest ↦ some rest
  | none ↦ if c == 93 then some (c ∷ s) else none
]

unfoldable pub colons : Text → ℕ
colons [] = 0
colons (c ∷ s) = let rest = colons s in if c == colon then suc rest else rest

unfoldable pub has_port : Text → Bool
unfolding from_last_bracket colons
has_port addr = elim (from_last_bracket addr) [
  | some tail ↦ any (λ c. c == colon) tail
  | none ↦ colons addr == 1
]

unfoldable pub with_default_port : Text → Text
unfolding has_port
with_default_port addr = if has_port addr then addr else addr ++ codes ":4433"

-- The remote daemon serves the request itself, and the pane holds no token.
unfoldable pub rewritten : String → OpenRequest → OpenRequest
rewritten token request = record request {
  version = protocol_version;
  target = none;
  token = some token;
}

-- What the system answers while a stream is opened. `dialed` is what `connection` comes to.
pub record Outside : Type 0 where
  pub hosts : File (Table String)
  pub override : File Text
  pub client_token : Option Text
  pub dialed : Result ErrorKind ℕ
  pub stream_opened : Bool

-- The connection and the bytes that are sent on it first, or the kind of the error for the pane.
unfoldable pub send_on :
    String → ℕ → List ℕ → Outside → Links → Links × Result ErrorKind (ℕ × List ℕ)
unfolding evict
send_on alias connection payload outside links =
    if ltb max_request_bytes (length payload)
    then (links, err other)
    else elim (write_message [] payload) [
      | frame.err e ↦ (evict alias links, err unreachable)
      | frame.ok message ↦
          if outside.stream_opened
          then (links, ok (connection, message))
          else (evict alias links, err unreachable)
    ]

unfoldable pub open_stream :
    (OpenRequest → List ℕ)
    → String
    → OpenRequest
    → Outside
    → Links
    → Links × Result ErrorKind (ℕ × List ℕ)
unfolding check_alias host_addr host_token rewritten send_on to_string
open_stream encode alias request outside links =
    if not (check_alias (codes alias))
    then (links, err no_host)
    else elim (host_addr outside.hosts alias) [
      | none ↦ (links, err no_host)
      | some addr ↦ elim (host_token outside.override outside.client_token) [
        | none ↦ (links, err other)
        | some token ↦ elim outside.dialed [
          | err e ↦ (links, err e)
          | ok connection ↦
              send_on alias connection (encode (rewritten (to_string token) request)) outside links
        ]
      ]
    ]
