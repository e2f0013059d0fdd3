-- ===== src/Attach.antt =====
-- crates/muxd/src/manager.rs: a pty, its read loop and the clients that come and go. Each step is
-- what runs without giving up the terminal lock, or a wait that ends; the steps interleave freely.
-- `ops`, `initial` and `joined` are history: they record what was done to the terminal and who
-- attached, and no step reads them.
pub mod View
pub mod Seen
pub mod Known
pub mod Invariant
pub mod Gapless
pub mod Slot
pub mod Redump
mod Examples
use mux.Prelude.{
  ℕ, zero, suc, ◌^◌, ◌<◌, ◌+◌, ◌≡◌, refl, Bool, true, false, List, [], ◌∷◌, ◌++◌, Option, none,
  some, String, if◌then◌else◌, ◌==◌, map_or,
}
use mux.Prelude.Int.{ℤ}
use mux.Terminal.{Ghostty, Terminal, feed, resize}
use mux.Session.{
  PtySession, ClientMsg, output, exit, foreground, AttachedClient, detach, feed_chunk, attach_on,
  resize_session, mark_exited, next_u64,
}

module _ (vt : Ghostty) where
  pub data Op : Type 0 where
    fed : List ℕ → Op
    sized : ℕ → ℕ → Op

  -- An attachment: the terminal's history when its dump was rendered, and the dump.
  pub record Joined : Type 0 where
    pub id : ℕ
    pub before : List Op
    pub dump : List ℕ

  pub record Pane : Type 0 where
    pub session : PtySession vt
    -- The chunk that `read_loop` holds for a client while it waits to send it.
    pub inflight : Option (ℕ × List ℕ)
    pub reading : Bool
    -- What the clients' channels took, by client, oldest first.
    pub log : List (ℕ × ClientMsg)
    pub next_client_id : ℕ
    pub initial : Terminal vt
    pub ops : List Op
    pub joined : List Joined

module _ {vt : Ghostty} where
  -- A chunk is read, fed to the terminal, and bound for the client in the slot.
  unfoldable pub read : List ℕ → Pane vt → Pane vt
  read chunk p =
      let (s, client) = feed_chunk chunk p.session in
      record p {
        session = s;
        inflight = map_or none (λ id. some (id, chunk)) client;
        ops = p.ops ++ fed chunk ∷ [];
      }

  -- The channel took the chunk in time.
  unfoldable pub deliver : ℕ → List ℕ → Pane vt → Pane vt
  deliver id chunk p = record p { inflight = none; log = p.log ++ (id, output chunk) ∷ [] }

  -- It did not, or it is closed.
  unfoldable pub give_up : ℕ → Pane vt → Pane vt
  give_up id p = record p { inflight = none; session = detach id p.session }

  unfoldable pub join : ℕ → ℕ → Option ℕ → Pane vt → Pane vt
  join cols rows connection p =
      let id = p.next_client_id in
      let (s, (dump, first)) = attach_on id cols rows connection p.session in
      let ops = p.ops ++ sized rows cols ∷ [] in
      record p {
        session = s;
        log = map_or p.log (λ m. p.log ++ (id, m) ∷ []) first;
        next_client_id = next_u64 id;
        ops = ops;
        joined = record { id = id; before = ops; dump = dump } ∷ p.joined;
      }

  -- A handler ends, or a client is too slow for another message: `detach` by its id.
  unfoldable pub leave : ℕ → Pane vt → Pane vt
  leave id p = record p { session = detach id p.session }

  -- A message that is no output: the foreground program's name.
  unfoldable pub tell : ℕ → String → Pane vt → Pane vt
  tell id name p = record p { log = p.log ++ (id, foreground name) ∷ [] }

  -- A resize after the first live output: no new dump is sent.
  unfoldable pub regrid : ℕ → ℕ → Pane vt → Pane vt
  regrid cols rows p = record p {
    session = (resize_session cols rows true p.session).0;
    ops = p.ops ++ sized rows cols ∷ [];
  }

  -- A resize before the first live output, up to the end of the lock: the dump that it will send.
  unfoldable pub redump : ℕ → ℕ → Pane vt → Pane vt × Option (List ℕ)
  redump cols rows p =
      let (s, dump) = resize_session cols rows false p.session in
      (record p { session = s; ops = p.ops ++ sized rows cols ∷ [] }, dump)

  -- Its rest, with the lock given up: the dump goes to whoever is in the slot then.
  unfoldable pub resend : Option (List ℕ) → Pane vt → Pane vt
  resend none p = p
  resend (some dump) p = record p {
    log = map_or p.log (λ c. p.log ++ (c.id, output dump) ∷ []) p.session.client;
  }

  -- The read loop ends and `reap` takes the client, which is told if its channel takes it.
  unfoldable pub finish : ℤ → Bool → Pane vt → Pane vt
  finish code taken p =
      let (s, client) = mark_exited p.session in
      record p {
        session = s;
        reading = false;
        log = map_or p.log (λ id. if taken then p.log ++ (id, exit code) ∷ [] else p.log) client;
      }

  -- A client may attach while the counter of client ids, a `u64`, has not wrapped around.
  pub data Step (p q : Pane vt) : Type 0 where
    reads : (chunk : List ℕ) → p.reading ≡ true → p.inflight ≡ none → q ≡ read chunk p → Step p q
    delivers :
        (id : ℕ) (chunk : List ℕ)
        → p.inflight ≡ some (id, chunk)
        → q ≡ deliver id chunk p
        → Step p q
    gives_up :
        (id : ℕ) (chunk : List ℕ) → p.inflight ≡ some (id, chunk) → q ≡ give_up id p → Step p q
    joins :
        (cols rows : ℕ) (connection : Option ℕ)
        → suc p.next_client_id < 2 ^ 64
        → q ≡ join cols rows connection p
        → Step p q
    leaves : (id : ℕ) → q ≡ leave id p → Step p q
    tells : (id : ℕ) (name : String) → id < p.next_client_id → q ≡ tell id name p → Step p q
    regrids : (cols rows : ℕ) → q ≡ regrid cols rows p → Step p q
    finishes :
        (code : ℤ) (taken : Bool)
        → p.reading ≡ true
        → p.inflight ≡ none
        → q ≡ finish code taken p
        → Step p q

  pub data Reach (p : Pane vt) : Pane vt → Type 0 where
    here : Reach p p
    next : {q r : Pane vt} → Reach p q → Step q r → Reach p r

  -- A pty as `insert_locked` leaves it, its loop spawned and no client in its slot.
  pub record IsNew (p : Pane vt) : Type 0 where
    pub no_client : p.session.client ≡ none
    pub idle : p.inflight ≡ none
    pub silent : p.log ≡ []
    pub untouched : p.session.terminal ≡ p.initial
    pub no_ops : p.ops ≡ []
    pub nobody : p.joined ≡ []
