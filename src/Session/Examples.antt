-- ===== src/Session/Examples.antt =====
-- Input to a shell that was inspected, before and after it moved on.
use mux.Prelude.{◌≡◌, refl, true, false, [], ◌∷◌, none, some, arith}
use mux.Prelude.Int.{pos}
use mux.Terminal.Recorder.{recorder}
use mux.Session.{PtySession, Kernel, snapshot, checked_input, feed_chunk}
use mux.Session.Shell.{shell}
use mux.Session.Input.{answer, History, here, next, fed, checked_input_stale}

abbrev kernel : Kernel
kernel = record { foreground_pgid = some (pos 100); process_cwd = λ pid. none }

abbrev drawn : PtySession recorder
drawn = (feed_chunk (36 ∷ []) shell).0

drawn-History : History shell 1 drawn
drawn-History = next here (fed (36 ∷ []) refl)

checked_input_stale_example :
    ((checked_input kernel true (answer (snapshot kernel shell) (pos 100) (121 ∷ [])) drawn).0
      ≡ drawn)
    × ((checked_input kernel true (answer (snapshot kernel shell) (pos 100) (121 ∷ [])) drawn).1.1
        ≡ none)
checked_input_stale_example =
    checked_input_stale kernel kernel true (pos 100) (121 ∷ []) (omega arith) (omega arith)
      (omega arith) (omega arith) drawn-History

shell_foreground : (snapshot kernel shell).foreground_pgid ≡ some (pos 100)
unfolding snapshot
shell_foreground = refl

shell_running : (snapshot kernel shell).exited ≡ false
unfolding snapshot
shell_running = refl
