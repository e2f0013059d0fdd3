-- ===== src/Migrate/Examples.antt =====
-- A handoff of two shells beside one that exited, cut in the middle of its length.
use mathlib.Core.List.{Perm}
use mux.Prelude.{
  ℕ, ◌≡◌, refl, true, false, List, [], ◌∷◌, map, Option, none, some, str_eq, if◌then◌else◌, arith,
  to_le,
}
use mux.Terminal.Recorder.{recorder}
use mux.Session.{PtySession}
use mux.Session.Shell.{shell}
use mux.Manager.{Manager, empty, MigratePty}
use mux.Manager.Listing.{live_sessions}
use mux.Manager.Listing.Sorted.{InOrder}
use mux.Migrate.{MigrateCodec, Adopted, taken, receive, entry, handoff_message}
use mux.Migrate.Carried.{sent, to_carry}
use mux.Migrate.RoundTrip.{payload_of, receive-handoff_message}

abbrev other_shell : PtySession recorder
other_shell = record shell { name = "p0" }

abbrev gone_shell : PtySession recorder
gone_shell = record shell { name = "p2"; exited = true }

abbrev three : Manager recorder
three = record empty {
  shelf = record {
    sessions = shell ∷ gone_shell ∷ other_shell ∷ [];
    table = ("p1", 0) ∷ ("p2", 1) ∷ ("p0", 2) ∷ [];
  };
}

abbrev size : PtySession recorder → ℕ × ℕ
size s = (80, 24)

-- The duplicates of the descriptors.
abbrev masters : PtySession recorder → Option ℕ
masters s = if str_eq s.name "p0" then some 11 else some 12

abbrev two_entries : List MigratePty
two_entries = entry size other_shell ∷ entry size shell ∷ []

-- A codec that knows the one payload, as the byte 9.
abbrev codec : MigrateCodec
codec = record {
  decode_version = λ bytes. some 2;
  decode_current = λ bytes. some (record { version = 2; ptys = two_entries });
  decode_legacy = λ bytes. none;
  encode_payload = λ p. 9 ∷ [];
}

three_message :
    handoff_message codec size masters three ≡ taken (1 ∷ 0 ∷ 0 ∷ 0 ∷ 9 ∷ [], 11 ∷ 12 ∷ [])
unfolding handoff_message to_le
three_message = refl

three_decodes :
    codec.decode_current (codec.encode_payload (payload_of size three))
    ≡ some (payload_of size three)
unfolding live_sessions
three_decodes = refl

receive-handoff_message_example :
    (adopted : List Adopted) × (receive codec
        (11 ∷ 12 ∷ [])
        (1 ∷ 0 ∷ [])
        (record { bytes = 0 ∷ 0 ∷ 9 ∷ []; broken = false })
      ≡ taken adopted)
    × Perm (map sent adopted) (to_carry size masters three.sessions three.table)
    × InOrder (λ a. a.pty.name) adopted
receive-handoff_message_example =
    receive-handoff_message codec size masters three (1 ∷ 0 ∷ 0 ∷ 0 ∷ 9 ∷ []) (1 ∷ 0 ∷ [])
      (0 ∷ 0 ∷ 9 ∷ []) (11 ∷ 12 ∷ []) three_message refl three_decodes (omega arith) (omega arith)
      refl
