-- ===== src/Attach/Redump.antt =====
-- The dump that `resize` of server.rs sends again is rendered under the terminal lock and sent
-- without it.
use mux.Prelude.{ℕ, ◌≡◌, refl, List, [], ◌∷◌, ◌++◌, some, append_assoc}
use mux.Terminal.{Ghostty, feed, resize, render_screen_bytes}
use mux.Session.{output, AttachedClient, feed_chunk, resize_session}
use mux.Attach.{Pane, read, deliver, redump, resend}

module _ {vt : Ghostty} (cols rows : ℕ) (chunk : List ℕ) (p : Pane vt) where
  -- The resize gives up the lock, a chunk is fed and sent, and then the dump is sent.
  abbrev pub overtaken : ℕ → Pane vt
  overtaken id =
      resend (redump cols rows p).1 (deliver id chunk (read chunk (redump cols rows p).0))

  -- A chunk that is fed and sent between the two halves of a resize comes before a dump that was
  -- rendered without it: the last output that the client gets is the screen before the chunk, while
  -- the daemon's terminal has been fed the chunk.
  pub redump_overtaken :
      (c : AttachedClient)
      → p.session.client ≡ some c
      → ((overtaken c.id).log
          ≡ p.log
            ++ ((c.id, output chunk)
                ∷ (c.id, output (render_screen_bytes vt (resize vt p.session.terminal rows cols)))
                ∷ []))
        × ((overtaken c.id).session.terminal
            ≡ feed vt (resize vt p.session.terminal rows cols) chunk)
  unfolding redump resend deliver read feed_chunk resize_session
  redump_overtaken c e = (rw e (append_assoc p.log _ _), refl)
