-- ===== src/Daemon.antt =====
-- crates/muxd/src/main.rs: the command line of the daemon, and its replacement by a successor.
pub mod Successor
pub mod Upgrade
mod Examples
use mux.Prelude.{
  ℕ, Bool, true, false, not, ◌&&◌, ◌||◌, List, [], ◌∷◌, Option, none, some, String, if◌then◌else◌,
  or_else, map_or, str_eq,
}
use mux.Prelude.Results.{Result, ok, err, ◌>>=◌}

-- `SocketAddr` and `IpAddr` are of the standard library, as are their parsers.
pub record Platform : Type 1 where
  pub SocketAddr : Type 0
  pub IpAddr : Type 0
  pub parse_socket_addr : String → Option SocketAddr
  pub parse_ip_addr : String → Option IpAddr
  pub socket_addr : IpAddr → ℕ → SocketAddr
  pub is_linux : Bool

abbrev pub default_quic_port : ℕ
default_quic_port = 4433

pub data Valued : Type 0 where
  socket_flag listen_flag tokens_flag : Valued

pub data Flag : Type 0 where
  audio_flag upgrade_flag unknown : Flag
  valued : Valued → Flag

unfoldable pub flag : String → Flag
flag arg =
    if str_eq arg "--audio"
    then audio_flag
    else if str_eq arg "--socket"
    then valued socket_flag
    else if str_eq arg "--listen-quic"
    then valued listen_flag
    else if str_eq arg "--authorized-tokens"
    then valued tokens_flag
    else if str_eq arg "--upgrade"
    then upgrade_flag
    else unknown

pub data ArgsError : Type 0 where
  linux_only bad_address usage : ArgsError
  needs_value : Valued → ArgsError
  unknown_argument : String → ArgsError

module _ (p : Platform) where
  -- The variables of `parse_args`.
  pub record Collected : Type 0 where
    pub with_audio : Bool
    pub socket_path : Option String
    pub listen : Option p.SocketAddr
    pub tokens_path : Option String
    pub is_upgrade : Bool

  pub record Args : Type 0 where
    pub audio : Bool
    pub socket : String
    pub listen_quic : Option p.SocketAddr
    pub authorized_tokens : Option String
    pub upgrade : Bool

  abbrev pub nothing_collected : Collected
  nothing_collected = record {
    with_audio = false;
    socket_path = none;
    listen = none;
    tokens_path = none;
    is_upgrade = false;
  }

  -- A bare address takes the default port.
  unfoldable pub parse_listen : String → Option p.SocketAddr
  parse_listen value = elim (p.parse_socket_addr value) [
    | some addr ↦ some addr
    | none ↦ elim (p.parse_ip_addr value) [
      | none ↦ none
      | some ip ↦ some (p.socket_addr ip default_quic_port)
    ]
  ]

  abbrev listen_on : Option p.SocketAddr → Collected → Result ArgsError Collected
  listen_on none a = err bad_address
  listen_on (some addr) a = ok (record a { listen = some addr })

  unfoldable pub with_value : Valued → String → Collected → Result ArgsError Collected
  unfolding parse_listen
  with_value socket_flag value a = ok (record a { socket_path = some value })
  with_value listen_flag value a = listen_on (parse_listen value) a
  with_value tokens_flag value a = ok (record a { tokens_path = some value })

  -- An argument that takes no value, or the flag whose value comes next.
  unfoldable pub on_flag : String → Flag → Collected → Result ArgsError (Option Valued × Collected)
  on_flag arg audio_flag a =
      if p.is_linux then ok (none, record a { with_audio = true }) else err linux_only
  on_flag arg upgrade_flag a = ok (none, record a { is_upgrade = true })
  on_flag arg unknown a = err (unknown_argument arg)
  on_flag arg (valued v) a = ok (some v, a)

  -- The loop over the arguments; a flag stands in front while its value is awaited.
  unfoldable pub collect : List String → Option Valued → Collected → Result ArgsError Collected
  unfolding flag on_flag with_value
  collect [] none a = ok a
  collect [] (some v) a = err (needs_value v)
  collect (value ∷ args) (some v) a = with_value v value a >>= λ a'. collect args none a'
  collect (arg ∷ args) none a = on_flag arg (flag arg) a >>= λ r. collect args r.0 r.1

  -- The first argument is the path of the socket where none is given.
  unfoldable pub parse_args : String → List String → Result ArgsError Args
  unfolding collect
  parse_args control_socket args = do
    a ← collect args none nothing_collected
    ok (record {
      audio = a.with_audio;
      socket = map_or control_socket (λ path. path) a.socket_path;
      listen_quic = a.listen;
      authorized_tokens = a.tokens_path;
      upgrade = a.is_upgrade;
    })

unfoldable pub successor_flags : List String → Result ArgsError (List String)
successor_flags [] = ok ("--upgrade" ∷ [])
successor_flags (dashes ∷ rest) = if str_eq dashes "--" then ok ("--upgrade" ∷ rest) else err usage

-- The command line that `spawn_daemon` starts the binary with.
abbrev pub daemon_args : String → List String → List String
daemon_args path flags = "--socket" ∷ path ∷ flags

-- The two variables that move a socket away from its default, with the path.
pub data Refusal : Type 0 where
  muxd_migrate_socket muxd_socket : String → Refusal

-- The sockets of a successor, and the two that are the user's defaults.
unfoldable pub check_upgrade_sockets :
    (socket migrate default_socket default_migrate : String) → Result Refusal (Unit {0})
check_upgrade_sockets socket migrate default_socket default_migrate =
    let socket_is_default = str_eq socket default_socket in
    let migrate_is_default = str_eq migrate default_migrate in
    if socket_is_default && not migrate_is_default
    then err (muxd_migrate_socket migrate)
    else if not socket_is_default && migrate_is_default
    then err (muxd_socket socket)
    else ok tt
