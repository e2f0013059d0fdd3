-- ===== src/Session/Shell.antt =====
-- A pty to run the other modules on.
use mux.Prelude.{false, [], none}
use mux.Prelude.Int.{pos}
use mux.Terminal.{Terminal}
use mux.Terminal.Recorder.{recorder}
use mux.Session.{PtySession}

abbrev pub blank : Terminal recorder
blank = record { handle = []; rows = 24; cols = 80 }

abbrev pub shell : PtySession recorder
shell = record {
  generation = 7;
  revision = 0;
  input_revision = 0;
  changes = 0;
  name = "p1";
  command = [];
  terminal = blank;
  client = none;
  child = pos 100;
  adopted = false;
  exited = false;
  close_deadline = none;
  agent = none;
  foreground = none;
  agent_pending = false;
  last_event = none;
}
