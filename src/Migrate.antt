-- ===== src/Migrate.antt =====
-- crates/muxd/src/migrate.rs: the handoff of every live pty to a successor daemon, but for the
-- system calls: the descriptors that ride the first message are a list of numbers, and the message
-- comes in a first chunk and the rest of the stream. What postcard makes of a payload is `MigrateCodec`.
pub mod Carried
pub mod RoundTrip
mod Examples
use mux.Prelude.{
  ℕ, ◌-◌, ◌+◌, ◌*◌, Bool, true, false, not, ◌||◌, List, [], ◌∷◌, ◌++◌, map, Option, none, some,
  String, if◌then◌else◌, ltb, leb, ◌==◌, length, take, drop, to_le, from_le,
}
use mux.Prelude.Int.{ℤ}
use mux.Frame.{Stream, Result, ok, err, read_exact}
use mux.Terminal.{Ghostty, render_screen_bytes}
use mux.Session.{PtySession}
use mux.Manager.{Manager, MigratePty}
use mux.Manager.Listing.{live_sessions}

abbrev pub migrate_version : ℕ
migrate_version = 2

abbrev pub max_migrate_fds : ℕ
max_migrate_fds = 256

abbrev pub migrate_ack : ℕ
migrate_ack = 172

abbrev pub max_payload_bytes : ℕ
max_payload_bytes = 64 * 1024 * 1024

pub record MigratePayload : Type 0 where
  pub version : ℕ
  pub ptys : List MigratePty

pub record LegacyPty : Type 0 where
  pub name : String
  pub command : List String
  pub child_pid : ℤ
  pub cols : ℕ
  pub rows : ℕ
  pub screen : List ℕ

pub record LegacyPayload : Type 0 where
  pub version : ℕ
  pub ptys : List LegacyPty

pub record MigrateCodec : Type 0 where
  pub decode_version : List ℕ → Option ℕ
  pub decode_current : List ℕ → Option MigratePayload
  pub decode_legacy : List ℕ → Option LegacyPayload
  pub encode_payload : MigratePayload → List ℕ

-- Why a handoff fails.
pub data MigrateError : Type 0 where
  too_many_ptys no_duplicate too_large not_received bad_length bad_payload bad_version bad_count
        no_ack bad_ack :
      MigrateError

pub data Handed {ℓ} (A : Type ℓ) : Type ℓ where
  taken : A → Handed A
  lost : MigrateError → Handed A

infixl 5 ◌>>=◌
abbrev pub ◌>>=◌ {ℓ κ} : {A : Type ℓ} {B : Type κ} → Handed A → (A → Handed B) → Handed B
taken a >>= f = f a
lost e >>= f = lost e

abbrev pub or_lost {ℓ} : {A : Type ℓ} → MigrateError → Option A → Handed A
or_lost e none = lost e
or_lost e (some a) = taken a

abbrev upgraded : LegacyPty → MigratePty
upgraded pty = record {
  name = pty.name;
  command = pty.command;
  child_pid = pty.child_pid;
  cols = pty.cols;
  rows = pty.rows;
  screen = pty.screen;
  close_deadline = none;
}

-- The test of the legacy payload's own version is a debug assertion.
unfoldable pub decode_payload : MigrateCodec → List ℕ → Handed MigratePayload
decode_payload c bytes = do
  version ← or_lost bad_payload (c.decode_version bytes)
  (if not (version == 1)
      then or_lost bad_payload (c.decode_current bytes)
      else or_lost bad_payload (c.decode_legacy bytes) >>= λ legacy.
          taken (record { version = migrate_version; ptys = map upgraded legacy.ptys }))

-- `read_exact` of what a buffer lacks to `n` bytes.
unfoldable pub fill : ℕ → List ℕ → Stream → Handed (List ℕ × Stream)
fill n buf s =
    if ltb (length buf) n
    then elim (read_exact (n - length buf) s) [
      | ok (more, rest) ↦ taken (buf ++ more, rest)
      | err e ↦ lost not_received
    ]
    else taken (buf, s)

-- A pty that was received, with the descriptor of its master.
pub record Adopted : Type 0 where
  pub pty : MigratePty
  pub master : ℕ

-- `ptys.into_iter().zip(fds)`
unfoldable pub zip_fds : List MigratePty → List ℕ → List Adopted
zip_fds [] fds = []
zip_fds (pty ∷ ptys) [] = []
zip_fds (pty ∷ ptys) (fd ∷ fds) = record { pty = pty; master = fd } ∷ zip_fds ptys fds

abbrev pub admit_payload : List ℕ → MigratePayload → Handed (List Adopted)
admit_payload fds payload =
    if not (payload.version == migrate_version)
    then lost bad_version
    else if not (length payload.ptys == length fds)
    then lost bad_count
    else taken (zip_fds payload.ptys fds)

-- The part behind the length, which is in the first four bytes of `buf`.
unfoldable pub receive_body : MigrateCodec → List ℕ → List ℕ → Stream → Handed (List Adopted)
unfolding fill decode_payload zip_fds
receive_body c fds buf s =
    let len = from_le (take 4 buf) in
    if len == 0 || ltb max_payload_bytes len then lost bad_length else do
      (body, rest) ← fill len (drop 4 buf) s
      payload ← decode_payload c (take len body)
      admit_payload fds payload

-- `chunk` is what the first message carried, with the descriptors `fds`.
unfoldable pub receive : MigrateCodec → List ℕ → List ℕ → Stream → Handed (List Adopted)
unfolding receive_body
receive c fds chunk s = do (buf, rest) ← fill 4 chunk s; receive_body c fds buf rest

module _ {vt : Ghostty} where
  -- The entry of a session whose pty has that many columns and rows.
  abbrev pub entry : (PtySession vt → ℕ × ℕ) → PtySession vt → MigratePty
  entry window_size s = record {
    name = s.name;
    command = s.command;
    child_pid = s.child;
    cols = (window_size s).0;
    rows = (window_size s).1;
    screen = render_screen_bytes vt s.terminal;
    close_deadline = s.close_deadline;
  }

  -- `try_clone` of each master in turn, up to one that fails.
  unfoldable pub dup_all : (PtySession vt → Option ℕ) → List (PtySession vt) → Handed (List ℕ)
  dup_all dup [] = taken []
  dup_all dup (s ∷ ss) = do
    fd ← or_lost no_duplicate (dup s)
    fds ← dup_all dup ss
    taken (fd ∷ fds)

  -- What `hand_off` sends: a message, and a duplicate of each session's descriptor.
  unfoldable pub handoff_message :
      MigrateCodec
      → (PtySession vt → ℕ × ℕ)
      → (PtySession vt → Option ℕ)
      → Manager vt
      → Handed (List ℕ × List ℕ)
  unfolding live_sessions dup_all
  handoff_message c window_size dup m =
      let sessions = live_sessions m in
      let body =
        c.encode_payload
          (record { version = migrate_version; ptys = map (entry window_size) sessions }) in
      if ltb max_migrate_fds (length sessions)
      then lost too_many_ptys
      else dup_all dup sessions >>= λ fds.
          if ltb 4_294_967_295 (length body)
          then lost too_large
          else taken (to_le 4 (length body) ++ body, fds)

-- `await_ack`
unfoldable pub await_ack : Stream → Handed (Unit {0})
await_ack s = elim (read_exact 1 s) [
  | ok (ack, rest) ↦ if not (from_le ack == migrate_ack) then lost bad_ack else taken tt
  | err e ↦ lost no_ack
]
