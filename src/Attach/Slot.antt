-- ===== src/Attach/Slot.antt =====
-- The client slot: every release names the client that it means.
use mux.Prelude.{ℕ, ◌≡◌, true, false, Option, none, some, if◌then◌else◌, ◌==◌, arith}
use mux.Terminal.{Ghostty}
use mux.Session.{PtySession, detach, attach_on}
use mux.Attach.View.{holds}

module _ {vt : Ghostty} where
  client-detach :
      (id : ℕ) (s : PtySession vt)
      → (detach id s).client ≡ (if holds id s.client then none else s.client)
  unfolding detach
  client-detach id s = ground arith

  -- Who is in the slot after a release was there before it, and is not the one released.
  pub holds-detach :
      (id j : ℕ) (s : PtySession vt)
      → holds j (detach id s).client ≡ true
      → (holds j s.client ≡ true) × ((id == j) ≡ false)
  holds-detach id j s h = ground (arith, client-detach id s)

  -- A client that attaches takes the slot from whoever has it. A release that comes next, the
  -- teardown of the client that it evicted included, leaves the slot to it unless the release names
  -- that client itself, and then the slot is empty.
  pub detach-attach_on :
      (id other cols rows : ℕ) (connection : Option ℕ) (s : PtySession vt)
      → ((detach other (attach_on id cols rows connection s).0).client
          ≡ (if id == other then none else some (record { id = id; connection = connection })))
        × (holds id (attach_on id cols rows connection s).0.client ≡ true)
  unfolding detach attach_on
  detach-attach_on id other cols rows connection s = (ground arith, ground arith)
