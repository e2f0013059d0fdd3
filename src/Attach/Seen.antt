-- ===== src/Attach/Seen.antt =====
-- Every step keeps account of what each attachment has seen.
use mux.Prelude.{
  suc, ◌^◌, ◌<◌, ℕ, ◌≡◌, refl, sym, ap, ◌∙◌, Bool, true, false, List, [], ◌∷◌, ◌++◌, Option, none,
  some, String, if◌then◌else◌, map_or, arith, append_assoc, append-nil, Bool-cases, inl, inr,
}
use mux.Prelude.Int.{ℤ}
use mux.Terminal.{Ghostty}
use mux.Session.{
  ClientMsg, output, exit, foreground, AttachedClient, feed_chunk, attach_on, resize_session,
  mark_exited,
}
use mux.Attach.{
  Op, fed, sized, Joined, Pane, read, deliver, give_up, join, leave, tell, regrid, finish,
}
use mux.Attach.View.{outputs, outputs-append, pending, holds, chunks, chunks-append, Seen}
use mux.Attach.Slot.{holds-detach}

-- Where a chunk that was just read is bound for.
abbrev pub bound : List ℕ → Option AttachedClient → Option (ℕ × List ℕ)
bound chunk client = map_or none (λ id. some (id, chunk)) (map_or none (λ c. some c.id) client)

bound_mine :
    (j : ℕ) (chunk : List ℕ) (client : Option AttachedClient)
    → holds j client ≡ true
    → pending j (bound chunk client) ≡ chunk ∷ []
bound_mine j chunk client h = ground arith

bound_other :
    (j : ℕ) (chunk : List ℕ) (client : Option AttachedClient)
    → holds j client ≡ false
    → pending j (bound chunk client) ≡ []
bound_other j chunk client h = ground arith

-- Messages that are no output: what a new channel starts with, and what `reap` sends.
pub first_message :
    (j : ℕ) (log : List (ℕ × ClientMsg)) (id : ℕ) (name : Option String)
    → outputs j
        (map_or log (λ m. log ++ (id, m) ∷ []) (map_or none (λ n. some (foreground n)) name))
      ≡ outputs j log
unfolding outputs
first_message j log id none = refl
first_message j log id (some n) = rw (outputs-append j log ((id, foreground n) ∷ []), append-nil)

exit_message :
    (j : ℕ) (log : List (ℕ × ClientMsg)) (code : ℤ) (took : Bool) (client : Option ℕ)
    → outputs j (map_or log (λ id. if took then log ++ (id, exit code) ∷ [] else log) client)
      ≡ outputs j log
unfolding outputs
exit_message j log code took none = refl
exit_message j log code true (some id) =
    rw (outputs-append j log ((id, exit code) ∷ []), append-nil)
exit_message j log code false (some id) = refl

module _ {vt : Ghostty} where
  -- One more operation behind what was there.
  grow :
      (before after : List (Op vt)) {ops : List (Op vt)} (op : Op vt)
      → ops ≡ before ++ after
      → ops ++ op ∷ [] ≡ before ++ (after ++ op ∷ [])
  grow before after op e = rw e (append_assoc before after (op ∷ []))

  grow_fed :
      (after : List (Op vt)) (out lost : List (List ℕ)) (chunk : List ℕ)
      → chunks after ≡ out ++ lost
      → chunks (after ++ fed chunk ∷ []) ≡ out ++ (lost ++ chunk ∷ [])
  unfolding chunks
  grow_fed after out lost chunk e =
      chunks-append after (fed chunk ∷ []) ∙ rw e (append_assoc out lost (chunk ∷ []))

  grow_sized :
      (after : List (Op vt)) (rows cols : ℕ) → chunks (after ++ sized rows cols ∷ []) ≡ chunks after
  unfolding chunks
  grow_sized after rows cols = rw (chunks-append, append-nil)

  module _ (chunk : List ℕ) (p : Pane vt) (j : Joined vt) (idle : p.inflight ≡ none)
      (s : Seen p j) where
    idle_got : chunks s.after ≡ outputs j.id p.log ++ s.lost
    idle_got = rw idle at s.got

    pub read-Seen : Seen (read chunk p) j
    unfolding read feed_chunk
    read-Seen = elim (Bool-cases (holds j.id p.session.client)) [
      | inl mine ↦ record {
        after = s.after ++ fed chunk ∷ [];
        lost = [];
        whole = grow j.before s.after (fed chunk) s.whole;
        got =
            rw (bound_mine j.id chunk p.session.client mine)
              (grow_fed s.after _ [] chunk (rw (s.held mine) at idle_got));
        held = λ _. refl;
        known = s.known;
        shown = s.shown;
      }
      | inr other ↦ record {
        after = s.after ++ fed chunk ∷ [];
        lost = s.lost ++ chunk ∷ [];
        whole = grow j.before s.after (fed chunk) s.whole;
        got =
            rw (bound_other j.id chunk p.session.client other)
              (grow_fed s.after _ s.lost chunk idle_got);
        held = λ e. cc;
        known = s.known;
        shown = s.shown;
      }
    ]

  module _ (id : ℕ) (chunk : List ℕ) (p : Pane vt) (j : Joined vt)
      (waits : p.inflight ≡ some (id, chunk)) (s : Seen p j) where
    waiting_got : chunks s.after ≡ outputs j.id p.log ++ (pending j.id (some (id, chunk)) ++ s.lost)
    waiting_got = rw waits at s.got

    taken :
        outputs j.id (p.log ++ (id, output chunk) ∷ [])
        ≡ outputs j.id p.log ++ pending j.id (some (id, chunk))
    unfolding outputs
    taken = outputs-append j.id p.log ((id, output chunk) ∷ [])

    pub deliver-Seen : Seen (deliver id chunk p) j
    unfolding deliver
    deliver-Seen = record {
      after = s.after;
      lost = s.lost;
      whole = s.whole;
      got =
          waiting_got
          ∙ rw taken
              (sym (append_assoc (outputs j.id p.log) (pending j.id (some (id, chunk))) s.lost));
      held = s.held;
      known = s.known;
      shown = s.shown;
    }

    pub give_up-Seen : Seen (give_up id p) j
    unfolding give_up
    give_up-Seen = record {
      after = s.after;
      lost = pending j.id (some (id, chunk)) ++ s.lost;
      whole = s.whole;
      got = waiting_got;
      held = λ e. let (was, other) = holds-detach id j.id p.session e in rw other (s.held was);
      known = s.known;
      shown = s.shown;
    }

  module _ (p : Pane vt) (j : Joined vt) (s : Seen p j) where
    pub leave-Seen : (id : ℕ) → Seen (leave id p) j
    unfolding leave
    leave-Seen id = record {
      after = s.after;
      lost = s.lost;
      whole = s.whole;
      got = s.got;
      held = λ e. s.held (holds-detach id j.id p.session e).0;
      known = s.known;
      shown = s.shown;
    }

    -- A message that is no output changes nothing of what was seen.
    pub tell-Seen : (id : ℕ) (name : String) → Seen (tell id name p) j
    unfolding tell outputs
    tell-Seen id name = record {
      after = s.after;
      lost = s.lost;
      whole = s.whole;
      got = rw (outputs-append j.id p.log ((id, foreground name) ∷ []), append-nil) s.got;
      held = s.held;
      known = s.known;
      shown = s.shown;
    }

    pub regrid-Seen : (cols rows : ℕ) → Seen (regrid cols rows p) j
    unfolding regrid resize_session
    regrid-Seen cols rows = record {
      after = s.after ++ sized rows cols ∷ [];
      lost = s.lost;
      whole = grow j.before s.after (sized rows cols) s.whole;
      got = grow_sized s.after rows cols ∙ s.got;
      held = s.held;
      known = s.known;
      shown = s.shown;
    }

    pub join-Seen :
        (cols rows : ℕ) (connection : Option ℕ)
        → suc p.next_client_id < 2 ^ 64
        → Seen (join cols rows connection p) j
    unfolding join attach_on
    join-Seen cols rows connection room = record {
      after = s.after ++ sized rows cols ∷ [];
      lost = s.lost;
      whole = grow j.before s.after (sized rows cols) s.whole;
      got =
          grow_sized s.after rows cols
          ∙ s.got
          ∙ ap (λ o. o ++ (pending j.id p.inflight ++ s.lost))
              (sym (first_message j.id p.log p.next_client_id p.session.foreground));
      held = λ e. absurd (ground (arith, s.known));
      known = omega (arith, s.known, room);
      shown = s.shown;
    }

    pub finish-Seen : (code : ℤ) (took : Bool) → Seen (finish code took p) j
    unfolding finish mark_exited outputs
    finish-Seen code took = record {
      after = s.after;
      lost = s.lost;
      whole = s.whole;
      got =
          s.got
          ∙ ap (λ o. o ++ (pending j.id p.inflight ++ s.lost))
              (sym (exit_message j.id p.log code took _));
      held = λ e. cc;
      known = s.known;
      shown = s.shown;
    }
