-- ===== src/Server/Outgoing.antt =====
-- server.rs: the stream to a client that attached, as `handle_open` writes it.
use mux.Prelude.{ℕ, Bool, List, [], ◌∷◌, String}
use mux.Frame.{Result, ok, ◌>>=◌, write_lane, out_lane_opened, out_lane_output, out_lane_events}
use mux.Peer.{attached, ServerEvent}
use mux.Session.{ClientMsg, output, exit, foreground}
use mux.Server.{Wire, accepts}

-- The frame that a message to a client becomes.
abbrev pub frame_of : Wire → ClientMsg → ℕ × List ℕ
frame_of w (output bytes) = (out_lane_output, bytes)
frame_of w (exit code) = (out_lane_events, w.encode_event (ServerEvent.exit code))
frame_of w (foreground name) = (out_lane_events, w.encode_event (ServerEvent.foreground name))

abbrev pub write_frame : List ℕ → ℕ × List ℕ → Result (List ℕ)
write_frame out (lane, payload) = write_lane out lane payload

-- `forward` of `handle_open`, until the channel closes: `out` is what was written before.
unfoldable pub forward : Wire → List ClientMsg → List ℕ → Result (List ℕ)
forward w [] out = ok out
forward w (m ∷ ms) out = do next ← write_frame out (frame_of w m); forward w ms next

-- What `handle_open` writes to a client that attached: the answer, the dump, then its messages.
unfoldable pub handle_open : Wire → String → Bool → List ℕ → List ClientMsg → Result (List ℕ)
unfolding forward
handle_open w name created dump ms = do
  opening ← write_lane [] out_lane_opened (w.encode_reply (accepts (attached name created)))
  replay ← write_lane opening out_lane_output dump
  forward w ms replay
