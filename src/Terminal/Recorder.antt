-- ===== src/Terminal/Recorder.antt =====
-- A terminal to run the other modules on.
use mux.Prelude.{ℕ, List, [], ◌++◌, none, some}
use mux.Terminal.{Ghostty}

-- A terminal whose screen is the bytes that it was fed.
abbrev pub recorder : Ghostty
recorder = record {
  Handle = List ℕ;
  terminal_new = λ cols rows. some [];
  terminal_feed = λ h bytes. h ++ bytes;
  terminal_resize = λ h cols rows. h;
  cursor = λ h. record { row = 1; col = 1 };
  dump_viewport_row = λ h r. "";
  terminal_title = λ h. none;
  render_reattach = λ h. h;
}
