-- ===== src/Peer.antt =====
-- crates/mux-proto/src/peer.rs: the values that travel on the wire. Their bytes are the work of
-- the postcard crate, which is not part of the repository.
use text.Mathlib.Text.{starts_with}
use native.Mathlib.Decide.{ℕ_discrete}
use mux.Prelude.Int.{ℤ}
use mux.Prelude.{
  ℕ, ◌≡◌, refl, Bool, true, false, List, Option, none, some, or_else, if◌then◌else◌, String, str_eq,
  str_eq_iff,
}

abbrev pub protocol_version : ℕ
protocol_version = 13

-- `audio::Request`
pub record Request : Type 0 where
  pub id : ℕ
  pub name : String
  pub attachment : ℕ

pub record PtyInput : Type 0 where
  pub generation : ℕ
  pub revision : ℕ
  pub input_revision : ℕ
  pub foreground_pgid : ℤ
  pub bytes : List ℕ

pub record AgentInfo : Type 0 where
  pub agent : String
  pub state : String
  pub topic : String

pub record PtyEvent : Type 0 where
  pub name : String
  pub agent : Option AgentInfo
  pub cwd : Option String
  pub exited : Bool

pub record PtyInfo : Type 0 where
  pub name : String
  pub command : List String
  pub attached : Bool
  pub exited : Bool
  pub cwd : Option String
  pub agent : Option AgentInfo

pub record PtySnapshot : Type 0 where
  pub name : String
  pub generation : ℕ
  pub revision : ℕ
  pub input_revision : ℕ
  pub pid : ℤ
  pub foreground_pgid : Option ℤ
  pub cols : ℕ
  pub rows : ℕ
  pub cursor_row : ℕ
  pub cursor_col : ℕ
  pub text : List String
  pub cwd : Option String
  pub agent : Option AgentInfo
  pub exited : Bool

pub data ErrorKind : Type 0 where
  unreachable pin_mismatch token_rejected version_mismatch no_host other : ErrorKind

pub record OpenError : Type 0 where
  pub detail : String
  pub kind : ErrorKind

pub data OpenMode : Type 0 where
  open_pty : String → Option String → List String → Option String → OpenMode
  list : OpenMode
  kill : String → OpenMode
  watch : OpenMode
  attach : String → OpenMode
  inspect : String → OpenMode
  observe : String → OpenMode
  input : String → PtyInput → OpenMode
  close : String → OpenMode
  reopen : String → OpenMode
  connect : String → OpenMode
  audio : String → OpenMode
  audio_provider : OpenMode
  audio_acquire : Request → OpenMode

pub data Opened : Type 0 where
  attached : String → Bool → Opened
  listed : List PtyInfo → Opened
  killed : Bool → Opened
  watching : Opened
  inspected : PtySnapshot → Opened
  observing : Opened
  input_written : ℕ → ℕ → Opened
  closed : ℕ → Opened
  connected : Opened
  audio_opened : ℕ → Opened
  audio_provider_opened : Opened

pub record OpenRequest : Type 0 where
  pub version : ℕ
  pub cols : ℕ
  pub rows : ℕ
  pub term : Option String
  pub token : Option String
  pub target : Option String
  pub mode : OpenMode

pub data ClientControl : Type 0 where
  resize : ℕ → ℕ → ClientControl

pub data ServerEvent : Type 0 where
  exit : ℤ → ServerEvent
  foreground : String → ServerEvent

-- `OpenReply`, and the reply of version 5, whose rejections are texts.
pub data Reply : Type 0 where
  accepts : Opened → Reply
  rejects : OpenError → Reply

pub data V5Reply : Type 0 where
  opened_v5 : Opened → V5Reply
  rejected_v5 : String → V5Reply

abbrev v5_version_mismatch : String
v5_version_mismatch = "protocol version mismatch"

abbrev classified : String → OpenError
classified detail = record {
  detail = detail;
  kind = if starts_with detail v5_version_mismatch then version_mismatch else other;
}

abbrev from_v5 : Option V5Reply → Option Reply
from_v5 (some (rejected_v5 detail)) = some (rejects (classified detail))
from_v5 (some (opened_v5 o)) = none
from_v5 none = none

-- The arguments are postcard's decoders of the two types.
unfoldable pub decode_open_reply :
    (List ℕ → Option Reply) → (List ℕ → Option V5Reply) → List ℕ → Option Reply
decode_open_reply decode decode_v5 bytes = or_else (decode bytes) (from_v5 (decode_v5 bytes))

-- The derived equalities.
string_decided : (s t : String) → (b : Bool) → str_eq s t ≡ b → Dec (s ≡ t)
string_decided s t true e = yes ((str_eq_iff s t).0 e)
string_decided s t false e = no (λ p. cc ((str_eq_iff s t).1 p))

unfoldable pub string_discrete : Discrete String
unfolding string_decided
string_discrete s t = string_decided s t (str_eq s t) refl

unfoldable pub event_discrete : Discrete (Option PtyEvent)
event_discrete = hlevel string_discrete

unfoldable pub int_discrete : Discrete ℤ
int_discrete = hlevel ℕ_discrete

unfoldable pub label_discrete : Discrete (Option String)
label_discrete = hlevel string_discrete
