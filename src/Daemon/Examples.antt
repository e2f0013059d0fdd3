-- ===== src/Daemon/Examples.antt =====
-- Command lines of the daemon, and an upgrade that is answered.
use mux.Prelude.{
  ℕ, ◌≡◌, refl, true, false, List, [], ◌∷◌, Option, none, some, String, str_eq, if◌then◌else◌,
}
use mux.Prelude.Results.{ok, err, ◌>>=◌}
use mux.Peer.{accepts, rejects, listed, version_mismatch}
use mux.Daemon.{
  Platform, Args, collect, flag, on_flag, with_value, parse_listen, parse_args, successor_flags,
  daemon_args, check_upgrade_sockets, needs_value, listen_flag, linux_only, bad_address, usage,
  muxd_socket, muxd_migrate_socket, unknown_argument,
}
use mux.Daemon.Successor.{parse_args-successor_flags}
use mux.Daemon.Upgrade.{Texts, Poll, upgrade, poll_loop, judge, report, host, no_reply}
use mux.Daemon.Upgrade.Answered.{IsAnswered, upgrade-IsAnswered}

-- One address with a port, and one without.
abbrev mac : Platform
mac = record {
  SocketAddr = String × ℕ;
  IpAddr = String;
  parse_socket_addr = λ s. if str_eq s "10.0.0.1:99" then some ("10.0.0.1", 99) else none;
  parse_ip_addr = λ s. if str_eq s "10.0.0.1" then some s else none;
  socket_addr = λ ip port. (ip, port);
  is_linux = false;
}

abbrev listening : Args mac
listening = record {
  audio = false;
  socket = "/run/muxd.sock";
  listen_quic = some ("10.0.0.1", 4433);
  authorized_tokens = some "/etc/tokens";
  upgrade = false;
}

abbrev flags : List String
flags = "--listen-quic" ∷ "10.0.0.1" ∷ "--authorized-tokens" ∷ "/etc/tokens" ∷ []

listening_parsed : parse_args mac "/run/muxd.sock" flags ≡ ok listening
unfolding parse_args collect flag on_flag with_value parse_listen
listening_parsed = refl

refused :
    (parse_args mac "/s" ("--listen-quic" ∷ []) ≡ err (needs_value listen_flag))
    × (parse_args mac "/s" ("--audio" ∷ []) ≡ err linux_only)
    × (parse_args mac "/s" ("--listen-quic" ∷ "here" ∷ []) ≡ err bad_address)
    × (parse_args mac "/s" ("--help" ∷ []) ≡ err (unknown_argument "--help"))
    × (successor_flags ("--listen-quic" ∷ []) ≡ err usage)
unfolding parse_args collect flag on_flag with_value parse_listen successor_flags
refused = (refl, refl, refl, refl, refl)

parse_args-successor_flags_example :
    (successor_flags ("--" ∷ flags) >>= λ fs.
    parse_args mac "/other" (daemon_args "/run/muxd.sock" fs))
    ≡ ok (record listening { upgrade = true })
parse_args-successor_flags_example =
    parse_args-successor_flags mac "/run/muxd.sock" "/other" flags listening listening_parsed

sockets :
    (check_upgrade_sockets "/s" "/m" "/s" "/m" ≡ ok tt)
    × (check_upgrade_sockets "/a" "/b" "/s" "/m" ≡ ok tt)
    × (check_upgrade_sockets "/a" "/m" "/s" "/m" ≡ err (muxd_socket "/a"))
    × (check_upgrade_sockets "/s" "/b" "/s" "/m" ≡ err (muxd_migrate_socket "/b"))
unfolding check_upgrade_sockets
sockets = (refl, refl, refl, refl)

abbrev texts : Texts
texts = record {
  unexpected = λ o. "unexpected";
  failed = λ e. "failed";
  timed_out = λ last. last;
  usage = λ e. "usage";
}

-- The predecessor rejects, the socket is gone, a connection is closed early, the successor answers.
abbrev polls : List Poll
polls =
    record {
      elapsed = 0;
      dialed = some (ok (rejects (record { detail = "v12"; kind = version_mismatch })));
      answered = 51;
    }
    ∷ record { elapsed = 51; dialed = none; answered = 101 }
    ∷ record { elapsed = 101; dialed = some (err no_reply); answered = 160 }
    ∷ record { elapsed = 160; dialed = some (ok (accepts (listed []))); answered = 212 }
    ∷ record { elapsed = 9000; dialed = none; answered = 9050 }
    ∷ []

answered : upgrade texts ("--" ∷ flags) none polls ≡ some (ok (0, 212))
unfolding upgrade successor_flags poll_loop judge
answered = refl

exits_zero : report (ok (0, 212)) ≡ 0
unfolding report
exits_zero = refl

upgrade-IsAnswered_example :
    (◌≡◌ {A = Option String} none none) × ((a : ℕ × ℕ) × IsAnswered polls a.0 a.1)
upgrade-IsAnswered_example =
    upgrade-IsAnswered texts ("--" ∷ flags) none polls (ok (0, 212)) answered exits_zero

here : (host "local" ≡ none) × (host "spark" ≡ some "spark")
unfolding host
here = (refl, refl)
