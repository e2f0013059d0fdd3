-- ===== src/Client/Pump/Shown.antt =====
-- main.rs and server.rs: what the terminal of a pane is given of the session that its relay
-- attached to.
use mux.Prelude.{
  ℕ, zero, suc, ◌<◌, ◌≡◌, refl, ap, ◌∙◌, inl, inr, Bool, true, false, List, [], ◌∷◌, ◌++◌, map,
  Option, none, some, String, arith, if◌then◌else◌, length, length-map, append-nil, append_assoc,
  Bool-cases, All,
}
use mux.Prelude.Results.{ok}
use mux.Frame.{Stream, read_lane, write_message, out_lane_opened}
use mux.Frame as frame
use mux.Peer.{Reply, accepts, attached, ServerEvent, OpenRequest}
use mux.Peer as peer
use mux.Prelude.Int.{ℤ}
use mux.Session.{ClientMsg, output, exit, foreground}
use mux.Server.{Wire}
use mux.Server.Outgoing.{frame_of, handle_open}
use mux.Server.Forward.{read_frames, frames_read, ok_injective}
use mux.Server.Frames.{read_frames_cons, length-read_frames}
use mux.Client.{Attach}
use mux.Client.Handshake.{read_reply, handshake, open_session, session_request}
use mux.Client.Pump.{
  Relay, exited, daemon_gone, mirror, Pane, to_mirror, on_frame, pump, goes_on, ends,
}

-- What is to come of the messages of a session that ends after them.
unfoldable pub followed : Pane → List ClientMsg → Relay × List ℕ
followed p [] = (daemon_gone, [])
followed p (output bytes ∷ ms) = let r = followed p ms in (r.0, bytes ++ r.1)
followed p (exit code ∷ ms) = (exited code, [])
followed p (foreground name ∷ ms) =
    let r = followed p ms in if to_mirror p name then (mirror name, []) else r

-- Why a pump ended, and what the terminal was given.
abbrev pub told : Option (Relay × List ℕ × Stream) → Option (Relay × List ℕ)
told none = none
told (some (r, shown, s)) = some (r, shown)

pump_end :
    (p : Pane) (fuel : ℕ) (shown : List ℕ) (b : Bool)
    → told (pump p (suc fuel) shown (record { bytes = []; broken = b })) ≡ some (daemon_gone, shown)
unfolding pump read_lane frame.read_exact
pump_end p fuel shown true = refl
pump_end p fuel shown false = refl

goes_on_next :
    (p : Pane) (fuel : ℕ) (shown more : List ℕ) (f : ℕ × List ℕ) (s rest : Stream)
    → read_lane s ≡ frame.ok (some (f, rest))
    → on_frame p shown f ≡ goes_on more
    → pump p (suc fuel) shown s ≡ pump p fuel more rest
unfolding pump
goes_on_next p fuel shown more f s rest first next = rw (first, next, pump) refl

ends_next :
    (p : Pane) (fuel : ℕ) (shown : List ℕ) (f : ℕ × List ℕ) (r : Relay) (s rest : Stream)
    → read_lane s ≡ frame.ok (some (f, rest))
    → on_frame p shown f ≡ ends r
    → pump p (suc fuel) shown s ≡ some (r, shown, rest)
unfolding pump
ends_next p fuel shown f r s rest first next = rw (first, next, pump) refl

-- The events that are sent decode to what was encoded.
abbrev pub Decodes : Pane → Wire → ClientMsg → Type 0
Decodes p w (output bytes) = Unit
Decodes p w (exit code) = p.decode_event (w.encode_event (peer.exit code)) ≡ some (peer.exit code)
Decodes p w (foreground name) =
    p.decode_event (w.encode_event (peer.foreground name)) ≡ some (peer.foreground name)

module _ (p : Pane) (w : Wire) (taken : (xs ys : List ℕ) → p.takes xs ys ≡ true) where
  frame_output :
      (shown bytes : List ℕ)
      → on_frame p shown (frame_of w (output bytes)) ≡ goes_on (shown ++ bytes)
  unfolding on_frame
  frame_output shown bytes = rw (taken shown bytes, on_frame) refl

  frame_exit :
      (shown : List ℕ) (code : ℤ)
      → Decodes p w (exit code)
      → on_frame p shown (frame_of w (exit code)) ≡ ends (exited code)
  unfolding on_frame
  frame_exit shown code d = rw (d, on_frame) refl

  frame_foreground :
      (shown : List ℕ) (name : String)
      → Decodes p w (foreground name)
      → on_frame p shown (frame_of w (foreground name))
        ≡ (if to_mirror p name then ends (mirror name) else goes_on shown)
  unfolding on_frame
  frame_foreground shown name d = rw (d, on_frame) refl

  pump-followed :
      (ms : List ClientMsg) (fuel : ℕ) (shown : List ℕ) (s : Stream) (b : Bool)
      → length ms < fuel
      → All (Decodes p w) ms
      → read_frames (length (map (frame_of w) ms)) s
        ≡ frame.ok (map (frame_of w) ms, record { bytes = []; broken = b })
      → told (pump p fuel shown s) ≡ some ((followed p ms).0, shown ++ (followed p ms).1)
  unfolding followed read_frames
  pump-followed ms zero shown s b h d reads = absurd (omega arith)
  pump-followed [] (suc fuel) shown s b h d reads =
      let same : s ≡ record { bytes = []; broken = b } = cc (ok_injective reads) in
      rw (same, append-nil shown) (pump_end p fuel shown b)
  pump-followed (output bytes ∷ ms) (suc fuel) shown s b h d reads =
      let (rest, first, others) = read_frames_cons _ s _ _ _ reads in
      ap told (goes_on_next p fuel shown (shown ++ bytes) _ s rest first (frame_output shown bytes))
      ∙ pump-followed ms fuel (shown ++ bytes) rest b (omega arith) d.1 others
      ∙ ap (λ xs. some ((followed p ms).0, xs)) (append_assoc shown bytes (followed p ms).1)
  pump-followed (exit code ∷ ms) (suc fuel) shown s b h d reads =
      let (rest, first, others) = read_frames_cons _ s _ _ _ reads in
      rw (ends_next p fuel shown _ _ s rest first (frame_exit shown code d.0), append-nil shown)
        refl
  pump-followed (foreground name ∷ ms) (suc fuel) shown s b h d reads =
      let (rest, first, others) = read_frames_cons _ s _ _ _ reads in
      elim (Bool-cases (to_mirror p name)) [
        | inl e ↦
            rw
              (
                ends_next p fuel shown _ (mirror name) s rest first (
                    frame_foreground shown name d.0
                    ∙ ap (λ t. if t then ends (mirror name) else goes_on shown) e),
                e,
                append-nil shown,
              )
              refl
        | inr e ↦
            rw
              (
                goes_on_next p fuel shown shown _ s rest first (
                    frame_foreground shown name d.0
                    ∙ ap (λ t. if t then ends (mirror name) else goes_on shown) e),
                e,
              )
              (pump-followed ms fuel shown rest b (omega arith) d.1 others)
      ]

open_session-read_lane :
    (sends : List ℕ → Bool) (encode : OpenRequest → List ℕ) (decode : List ℕ → Option Reply)
    (a : Attach) (size : ℕ × ℕ) (term : Option String) (reopening : Bool) (payload message : List ℕ)
    (s rest : Stream) (name : String) (created : Bool)
    → write_message [] (encode (session_request a size term reopening)) ≡ frame.ok message
    → sends message ≡ true
    → read_lane s ≡ frame.ok (some ((out_lane_opened, payload), rest))
    → decode payload ≡ some (accepts (attached name created))
    → open_session sends encode decode a size term reopening s ≡ ok (rest, created)
unfolding open_session handshake read_reply
open_session-read_lane sends encode decode a size term reopening payload message s rest name created
      sent through first reply =
    rw (sent, through, first, reply, open_session, handshake, read_reply) refl

-- A relay whose request goes out to a daemon that attaches it, that decodes the events, and whose terminal takes what it is
-- given, with as much fuel as there are bytes: it learns whether the pty is new, shows the dump and
-- then the outputs, in order, and ends with the exit code that the daemon sent, with the first name
-- in the foreground that it is to present itself under, or else with the loss of the daemon; of what
-- was sent after that it shows nothing.
pub open_session-handle_open :
    (sends : List ℕ → Bool) (encode : OpenRequest → List ℕ) (decode : List ℕ → Option Reply)
    (a : Attach) (size : ℕ × ℕ) (term : Option String) (reopening : Bool) (p : Pane) (w : Wire)
    (name : String) (created : Bool) (dump : List ℕ) (ms : List ClientMsg)
    (message written : List ℕ) (b : Bool)
    → All (Decodes p w) ms
    → ((xs ys : List ℕ) → p.takes xs ys ≡ true)
    → decode (w.encode_reply (accepts (attached name created)))
      ≡ some (accepts (attached name created))
    → write_message [] (encode (session_request a size term reopening)) ≡ frame.ok message
    → sends message ≡ true
    → handle_open w name created dump ms ≡ frame.ok written
    → (rest : Stream) × (open_session sends encode decode a size term reopening
          (record { bytes = written; broken = b })
        ≡ ok (rest, created))
      × (told (pump p (suc (length rest.bytes)) [] rest)
          ≡ some ((followed p ms).0, dump ++ (followed p ms).1))
unfolding followed
open_session-handle_open sends encode decode a size term reopening p w name created dump ms message
      written b decodes taken reply sent through h =
    let all = frames_read w name created dump ms [] b written h in
    let (rest, first, others) = read_frames_cons _ _ _ _ _ (rw (append-nil written) at all) in
    let ms' : List ClientMsg = output dump ∷ ms in
    let fits = length-read_frames _ rest _ (map (frame_of w) ms') refl others in
    (
      rest,
      open_session-read_lane sends encode decode a size term reopening _ message _ rest name created
          sent through first reply,
      pump-followed p w taken ms' (suc (length rest.bytes)) [] rest b
          (omega (arith, length-map (frame_of w) ms', fits)) (tt, decodes) others,
    )
