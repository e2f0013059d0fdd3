-- ===== src/Attach/Invariant.antt =====
-- The account of what each attachment has seen is kept by every step.
use mux.Prelude.{
  ◌^◌, suc, ℕ, ◌<◌, ◌≡◌, refl, sym, ◌∙◌, Bool, List, [], ◌∷◌, ◌++◌, Option, none, some, String,
  arith, append-nil, All, All-imp,
}
use mux.Prelude.Int.{ℤ}
use mux.Terminal.{Ghostty, Terminal, feed, resize}
use mux.Session.{
  next_u64, PtySession, output, foreground, detach, feed_chunk, attach_on, resize_session,
  mark_exited,
}
use mux.Attach.{
  Op, fed, sized, Joined, Pane, read, deliver, give_up, join, leave, tell, regrid, finish, Step,
  reads, delivers, gives_up, joins, leaves, tells, regrids, finishes, Reach, here, next, IsNew,
}
use mux.Attach.View.{ClientKnown, chunks, replay, replay-append, Seen, Inv, Listed}
use mux.Attach.Seen.{
  first_message, read-Seen, deliver-Seen, give_up-Seen, leave-Seen, tell-Seen, regrid-Seen,
  join-Seen, finish-Seen,
}
use mux.Attach.Known.{
  outputs_unknown, pending_unknown, log_append, bound_known, waiting_known, joined_log,
  inflight_later, exit_log,
}

counted : (n : ℕ) → suc n < 2 ^ 64 → next_u64 n ≡ suc n
counted n h = omega arith

module _ {vt : Ghostty} where
  newcomer : (cols rows : ℕ) (connection : Option ℕ) (p : Pane vt) → Joined vt
  newcomer cols rows connection p = record {
    id = p.next_client_id;
    before = p.ops ++ sized rows cols ∷ [];
    dump = (attach_on p.next_client_id cols rows connection p.session).1.0;
  }

  join-Seen_self :
      (cols rows : ℕ) (connection : Option ℕ) (p : Pane vt)
      → suc p.next_client_id < 2 ^ 64
      → Inv p
      → Seen (join cols rows connection p) (newcomer cols rows connection p)
  unfolding join attach_on newcomer chunks replay
  join-Seen_self cols rows connection p room v = record {
    after = [];
    lost = [];
    whole = sym (append-nil _);
    got = rw (
      first_message p.next_client_id p.log p.next_client_id p.session.foreground,
      outputs_unknown p.next_client_id p.log v.log_known,
      pending_unknown p.next_client_id p.inflight v.inflight_known,
    );
    held = λ _. refl;
    known = omega arith;
    shown = rw (replay-append p.initial p.ops (sized rows cols ∷ []), v.screen);
  }

  Seen-All :
      {p q : Pane vt}
      → ((j : Joined vt) → Seen p j → Seen q j)
      → All (Seen p) p.joined
      → All (Seen q) p.joined
  Seen-All {p} {q} f = All-imp (Seen p) (Seen q) f p.joined

  replay_fed :
      (chunk : List ℕ) (i : Terminal vt) (ops : List (Op vt)) {t : Terminal vt}
      → t ≡ replay i ops
      → feed vt t chunk ≡ replay i (ops ++ fed chunk ∷ [])
  unfolding replay
  replay_fed chunk i ops e = rw (replay-append i ops (fed chunk ∷ []), e)

  replay_sized :
      (rows cols : ℕ) (i : Terminal vt) (ops : List (Op vt)) {t : Terminal vt}
      → t ≡ replay i ops
      → resize vt t rows cols ≡ replay i (ops ++ sized rows cols ∷ [])
  unfolding replay
  replay_sized rows cols i ops e = rw (replay-append i ops (sized rows cols ∷ []), e)

  detach-terminal : (id : ℕ) (s : PtySession vt) → (detach id s).terminal ≡ s.terminal
  unfolding detach
  detach-terminal id s = ground arith

  detach-ClientKnown :
      (n id : ℕ) (s : PtySession vt) → ClientKnown n s.client → ClientKnown n (detach id s).client
  unfolding detach
  detach-ClientKnown n id s h = ground arith

  detach-Listed :
      (id : ℕ) (s : PtySession vt) (js : List (Joined vt))
      → Listed s.client js
      → Listed (detach id s).client js
  unfolding detach
  detach-Listed id s js h = ground arith

  read-Inv : (chunk : List ℕ) (p : Pane vt) → p.inflight ≡ none → Inv p → Inv (read chunk p)
  unfolding read feed_chunk
  read-Inv chunk p idle v = record {
    screen = replay_fed chunk p.initial p.ops v.screen;
    log_known = v.log_known;
    inflight_known = bound_known p.next_client_id chunk p.session.client v.client_known;
    client_known = v.client_known;
    listed = v.listed;
    seen = Seen-All (λ j. read-Seen chunk p j idle) v.seen;
  }

  deliver-Inv :
      (id : ℕ) (chunk : List ℕ) (p : Pane vt)
      → p.inflight ≡ some (id, chunk)
      → Inv p
      → Inv (deliver id chunk p)
  unfolding deliver
  deliver-Inv id chunk p waits v = record {
    screen = v.screen;
    log_known =
        log_append p.next_client_id id (output chunk) p.log
          (waiting_known p.next_client_id id chunk waits v.inflight_known) v.log_known;
    inflight_known = tt;
    client_known = v.client_known;
    listed = v.listed;
    seen = Seen-All (λ j. deliver-Seen id chunk p j waits) v.seen;
  }

  give_up-Inv :
      (id : ℕ) (chunk : List ℕ) (p : Pane vt)
      → p.inflight ≡ some (id, chunk)
      → Inv p
      → Inv (give_up id p)
  unfolding give_up
  give_up-Inv id chunk p waits v = record {
    screen = detach-terminal id p.session ∙ v.screen;
    log_known = v.log_known;
    inflight_known = tt;
    client_known = detach-ClientKnown p.next_client_id id p.session v.client_known;
    listed = detach-Listed id p.session p.joined v.listed;
    seen = Seen-All (λ j. give_up-Seen id chunk p j waits) v.seen;
  }

  leave-Inv : (id : ℕ) (p : Pane vt) → Inv p → Inv (leave id p)
  unfolding leave
  leave-Inv id p v = record {
    screen = detach-terminal id p.session ∙ v.screen;
    log_known = v.log_known;
    inflight_known = v.inflight_known;
    client_known = detach-ClientKnown p.next_client_id id p.session v.client_known;
    listed = detach-Listed id p.session p.joined v.listed;
    seen = Seen-All (λ j s. leave-Seen p j s id) v.seen;
  }

  tell-Inv :
      (id : ℕ) (name : String) (p : Pane vt) → id < p.next_client_id → Inv p → Inv (tell id name p)
  unfolding tell
  tell-Inv id name p known v = record {
    screen = v.screen;
    log_known = log_append p.next_client_id id (foreground name) p.log known v.log_known;
    inflight_known = v.inflight_known;
    client_known = v.client_known;
    listed = v.listed;
    seen = Seen-All (λ j s. tell-Seen p j s id name) v.seen;
  }

  regrid-Inv : (cols rows : ℕ) (p : Pane vt) → Inv p → Inv (regrid cols rows p)
  unfolding regrid resize_session
  regrid-Inv cols rows p v = record {
    screen = replay_sized rows cols p.initial p.ops v.screen;
    log_known = v.log_known;
    inflight_known = v.inflight_known;
    client_known = v.client_known;
    listed = v.listed;
    seen = Seen-All (λ j s. regrid-Seen p j s cols rows) v.seen;
  }

  join-Inv :
      (cols rows : ℕ) (connection : Option ℕ) (p : Pane vt)
      → suc p.next_client_id < 2 ^ 64
      → Inv p
      → Inv (join cols rows connection p)
  unfolding join attach_on newcomer
  join-Inv cols rows connection p room v = record {
    screen = replay_sized rows cols p.initial p.ops v.screen;
    log_known =
        rw (counted p.next_client_id room)
          (joined_log p.next_client_id p.session.foreground p.log v.log_known);
    inflight_known =
        rw (counted p.next_client_id room)
          (inflight_later p.next_client_id p.inflight v.inflight_known);
    client_known = omega arith;
    listed = ground arith;
    seen = (
      join-Seen_self cols rows connection p room v,
      Seen-All {q = join cols rows connection p} (λ j s. join-Seen p j s cols rows connection room)
          v.seen,
    );
  }

  finish-Inv : (code : ℤ) (took : Bool) (p : Pane vt) → Inv p → Inv (finish code took p)
  unfolding finish mark_exited
  finish-Inv code took p v = record {
    screen = v.screen;
    log_known =
        exit_log p.next_client_id code took p.session.client p.log v.client_known v.log_known;
    inflight_known = v.inflight_known;
    client_known = tt;
    listed = tt;
    seen = Seen-All (λ j s. finish-Seen p j s code took) v.seen;
  }

  Step-Inv : {p q : Pane vt} → Step p q → Inv p → Inv q
  Step-Inv {p} (reads chunk _ idle e) v = rw e (read-Inv chunk p idle v)
  Step-Inv {p} (delivers id chunk w e) v = rw e (deliver-Inv id chunk p w v)
  Step-Inv {p} (gives_up id chunk w e) v = rw e (give_up-Inv id chunk p w v)
  Step-Inv {p} (joins cols rows c room e) v = rw e (join-Inv cols rows c p room v)
  Step-Inv {p} (leaves id e) v = rw e (leave-Inv id p v)
  Step-Inv {p} (tells id name k e) v = rw e (tell-Inv id name p k v)
  Step-Inv {p} (regrids cols rows e) v = rw e (regrid-Inv cols rows p v)
  Step-Inv {p} (finishes code took _ _ e) v = rw e (finish-Inv code took p v)

  IsNew-Inv : (p : Pane vt) → IsNew p → Inv p
  unfolding replay
  IsNew-Inv p n = record {
    screen = rw (n.no_ops, replay) n.untouched;
    log_known = rw n.silent tt;
    inflight_known = rw n.idle tt;
    client_known = rw n.no_client tt;
    listed = rw n.no_client tt;
    seen = rw n.nobody tt;
  }

  pub Reach-Inv : {p q : Pane vt} → IsNew p → Reach p q → Inv q
  Reach-Inv {p} n here = IsNew-Inv p n
  Reach-Inv n (next r st) = Step-Inv st (Reach-Inv n r)
