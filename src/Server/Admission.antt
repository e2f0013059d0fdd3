-- ===== src/Server/Admission.antt =====
-- server.rs: who is let in.
use mux.Prelude.{ℕ, ◌≡◌, refl, false, List, Option, none, some, map_or}
use mux.Peer.{OpenRequest, token_rejected}
use mux.Terminal.{Ghostty}
use mux.Manager.{Manager}
use mux.Prelude.{some_injective}
use mux.Server.{
  Wire, Policy, local, remote, remote_connection, contains, admit, Answers, ends, rejects,
  handle_request,
}

-- The digests that a connection over the network has to show one of.
abbrev pub admitted_by : Policy → Option (List ℕ)
admitted_by local = none
admitted_by (remote admitted) = some admitted
admitted_by (remote_connection admitted connection) = some admitted

admit_stranger :
    (w : Wire) (policy : Policy) (r : OpenRequest) (admitted : List ℕ)
    → admitted_by policy ≡ some admitted
    → map_or false (λ token. contains (w.digest token) admitted) r.token ≡ false
    → admit w policy r ≡ some (record { detail = "authentication failed"; kind = token_rejected })
unfolding admit
admit_stranger w local r admitted h bad = absurd (cc)
admit_stranger w (remote digests) r admitted h bad = rw (some_injective h, bad, admit) refl
admit_stranger w (remote_connection digests c) r admitted h bad =
    rw (some_injective h, bad, admit) refl

module _ {vt : Ghostty} where
  -- A request over the network without a token that the daemon admits changes nothing, and is
  -- answered with the rejection of its token, whatever its mode and its target are.
  pub handle_request_stranger :
      (w : Wire) (policy : Policy) (a : Answers vt) (r : OpenRequest) (m : Manager vt)
      (admitted : List ℕ)
      → admitted_by policy ≡ some admitted
      → map_or false (λ token. contains (w.digest token) admitted) r.token ≡ false
      → handle_request w policy a r m
        ≡ (m, ends (rejects (record { detail = "authentication failed"; kind = token_rejected })))
  unfolding handle_request
  handle_request_stranger w policy a r m admitted h bad =
      rw (admit_stranger w policy r admitted h bad, handle_request) refl
