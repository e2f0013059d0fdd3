-- ===== src/Attach/View.antt =====
-- What the clients of a pane have seen of it, read off the pane and its history.
use mux.Prelude.{
  ℕ, ◌<◌, ◌≡◌, refl, ap, Bool, true, false, List, [], ◌∷◌, ◌++◌, Option, none, some, if◌then◌else◌,
  ◌==◌, map_or, arith, any, All,
}
use mux.Terminal.{Ghostty, Terminal, feed, resize, render_screen_bytes}
use mux.Session.{ClientMsg, output, exit, foreground, AttachedClient}
use mux.Attach.{Op, fed, sized, Joined, Pane}

-- The output that a client's channel took.
unfoldable pub outputs : ℕ → List (ℕ × ClientMsg) → List (List ℕ)
outputs j [] = []
outputs j ((id, output chunk) ∷ log) = if id == j then chunk ∷ outputs j log else outputs j log
outputs j ((id, exit code) ∷ log) = outputs j log
outputs j ((id, foreground name) ∷ log) = outputs j log

pub outputs-append :
    (j : ℕ) (xs ys : List (ℕ × ClientMsg)) → outputs j (xs ++ ys) ≡ outputs j xs ++ outputs j ys
unfolding outputs
outputs-append j [] ys = refl
outputs-append j ((id, output chunk) ∷ log) ys = ground (arith, outputs-append j log ys)
outputs-append j ((id, exit code) ∷ log) ys = outputs-append j log ys
outputs-append j ((id, foreground name) ∷ log) ys = outputs-append j log ys

abbrev pub pending : ℕ → Option (ℕ × List ℕ) → List (List ℕ)
pending j none = []
pending j (some (id, chunk)) = if id == j then chunk ∷ [] else []

-- `j` is in the slot.
abbrev pub holds : ℕ → Option AttachedClient → Bool
holds j client = map_or false (λ c. c.id == j) client

abbrev pub KnownIn : ℕ → ℕ × ClientMsg → Type 0
KnownIn n (id, m) = id < n

abbrev pub InflightKnown : ℕ → Option (ℕ × List ℕ) → Type 0
InflightKnown n none = Unit
InflightKnown n (some (id, chunk)) = id < n

abbrev pub ClientKnown : ℕ → Option AttachedClient → Type 0
ClientKnown n none = Unit
ClientKnown n (some c) = c.id < n

module _ {vt : Ghostty} where
  unfoldable pub chunks : List (Op vt) → List (List ℕ)
  chunks [] = []
  chunks (fed chunk ∷ ops) = chunk ∷ chunks ops
  chunks (sized rows cols ∷ ops) = chunks ops

  pub chunks-append : (xs ys : List (Op vt)) → chunks (xs ++ ys) ≡ chunks xs ++ chunks ys
  unfolding chunks
  chunks-append [] ys = refl
  chunks-append (fed chunk ∷ ops) ys = ap (◌∷◌ chunk) (chunks-append ops ys)
  chunks-append (sized rows cols ∷ ops) ys = chunks-append ops ys

  -- The terminal after a history.
  unfoldable pub replay : Terminal vt → List (Op vt) → Terminal vt
  replay t [] = t
  replay t (fed chunk ∷ ops) = replay (feed vt t chunk) ops
  replay t (sized rows cols ∷ ops) = replay (resize vt t rows cols) ops

  pub replay-append :
      (t : Terminal vt) (xs ys : List (Op vt)) → replay t (xs ++ ys) ≡ replay (replay t xs) ys
  unfolding replay
  replay-append t [] ys = refl
  replay-append t (fed chunk ∷ ops) ys = replay-append (feed vt t chunk) ops ys
  replay-append t (sized rows cols ∷ ops) ys = replay-append (resize vt t rows cols) ops ys

  -- What the attachment `j` has seen of a pane: of the chunks fed since its dump, those that its
  -- channel took come first, then the one that waits for it, then those that it lost; and it has
  -- lost none while it is in the slot.
  pub record Seen (p : Pane vt) (j : Joined vt) : Type 0 where
    pub after : List (Op vt)
    pub lost : List (List ℕ)
    pub whole : p.ops ≡ j.before ++ after
    pub got : chunks after ≡ outputs j.id p.log ++ (pending j.id p.inflight ++ lost)
    pub held : holds j.id p.session.client ≡ true → lost ≡ []
    pub known : j.id < p.next_client_id
    pub shown : j.dump ≡ render_screen_bytes vt (replay p.initial j.before)

  -- The client in the slot has attached.
  abbrev pub Listed : Option AttachedClient → List (Joined vt) → Type 0
  Listed none js = Unit
  Listed (some c) js = any (λ j. j.id == c.id) js ≡ true

  pub record Inv (p : Pane vt) : Type 0 where
    pub screen : p.session.terminal ≡ replay p.initial p.ops
    pub log_known : All (KnownIn p.next_client_id) p.log
    pub inflight_known : InflightKnown p.next_client_id p.inflight
    pub client_known : ClientKnown p.next_client_id p.session.client
    pub listed : Listed p.session.client p.joined
    pub seen : All (Seen p) p.joined
