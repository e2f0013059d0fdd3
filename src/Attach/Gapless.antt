-- ===== src/Attach/Gapless.antt =====
-- Whoever is attached has the screen at its attach, and everything that was fed since.
use mux.Prelude.{
  ℕ, ◌≡◌, Bool, true, List, [], ◌∷◌, ◌++◌, Option, some, ◌==◌, arith, append-nil, All, All-imp,
  Bool-cases, inl, inr,
}
use mux.Terminal.{Ghostty, render_screen_bytes}
use mux.Session.{AttachedClient}
use mux.Attach.{Op, Joined, Pane, Reach, IsNew}
use mux.Attach.View.{outputs, pending, holds, chunks, replay, Seen}
use mathlib.Core.Path.{subst}
use mux.Prelude.{any, ==_iff}
use mux.Attach.Invariant.{Reach-Inv}

module _ {ℓ κ} {A : Type ℓ} (P : A → Type κ) where
  find-All :
      (f : A → Bool) (xs : List A) → any f xs ≡ true → All P xs → (x : A) × (f x ≡ true) × P x
  find-All f [] e h = absurd (cc)
  find-All f (x ∷ xs) e (hx, h) = elim (Bool-cases (f x)) [
    | inl yes_x ↦ (x, yes_x, hx)
    | inr no_x ↦ find-All f xs (rw no_x at e) h
  ]

in_slot :
    (j c : ℕ) (connection : Option ℕ) {client : Option AttachedClient}
    → j ≡ c
    → client ≡ some (record { id = c; connection = connection })
    → holds j client ≡ true
in_slot j c connection e h = ground arith

module _ {vt : Ghostty} where
  got_all :
      (q : Pane vt) (j : Joined vt) (c : ℕ) (s : Seen q j)
      → j.id ≡ c
      → holds j.id q.session.client ≡ true
      → chunks s.after ≡ outputs c q.log ++ pending c q.inflight
  got_all q j c s e h =
      subst (λ i. chunks s.after ≡ outputs i q.log ++ pending i q.inflight) e
        (rw (s.held h, append-nil) at s.got)

  -- Whatever the interleaving of output, attaches, evictions, slow clients and resizes that send no
  -- new dump, while fewer than 2^64 clients have attached: the client in the slot has an attachment
  -- of its own, whose dump renders the terminal as some part of the history left it, and every chunk
  -- fed to the terminal after that part has gone to its channel, in order and once, but for the one
  -- that the read loop is about to send it. The terminal is what the whole history makes of it.
  pub attached_gapless :
      {p q : Pane vt} (c : AttachedClient)
      → IsNew p
      → Reach p q
      → q.session.client ≡ some c
      → (j : Joined vt) × (after : List (Op vt)) × (j.id ≡ c.id)
        × (q.ops ≡ j.before ++ after)
        × (j.dump ≡ render_screen_bytes vt (replay q.initial j.before))
        × (chunks after ≡ outputs c.id q.log ++ pending c.id q.inflight)
        × (q.session.terminal ≡ replay q.initial q.ops)
  attached_gapless {q = q} c n r e =
      let v = Reach-Inv n r in
      let (j, same, s) = find-All (Seen q) (λ j. j.id == c.id) q.joined (rw e at v.listed) v.seen in
      let id = (==_iff j.id c.id).0 same in
      (
        j,
        s.after,
        id,
        s.whole,
        s.shown,
        got_all q j c.id s id (in_slot j.id c.id c.connection id e),
        v.screen,
      )

  -- In such a run each client that ever attached, one that was evicted, too slow or gone included,
  -- has got an initial part of what was fed since its dump, and nothing after a chunk that it missed.
  pub delivered_prefix :
      {p q : Pane vt}
      → IsNew p
      → Reach p q
      → All
          (λ j.
            (after : List (Op vt)) × (missed : List (List ℕ)) × (q.ops ≡ j.before ++ after)
            × (j.dump ≡ render_screen_bytes vt (replay q.initial j.before))
            × (chunks after ≡ outputs j.id q.log ++ missed))
          q.joined
  delivered_prefix {q = q} n r =
      All-imp (Seen q) _
        (λ j s. (s.after, pending j.id q.inflight ++ s.lost, s.whole, s.shown, s.got)) q.joined
        (Reach-Inv n r).seen
