-- ===== src/Session/Input.antt =====
-- control.rs: checked input reaches the terminal that was inspected, or nothing.
use mux.Prelude.{
  ℕ, zero, suc, ◌+◌, ◌%◌, ◌^◌, ◌≤◌, ◌<◌, ◌≡◌, refl, ◌≢◌, ◌⊎◌, inl, inr, Bool, true, false, List,
  Option, none, some, arith, length, Bool-cases, ◌==◌,
}
use mux.Prelude.Int.{ℤ, is_positive}
use mux.Peer.{PtyInput, PtySnapshot}
use mux.Terminal.{Ghostty}
use mux.Session.{
  PtySession, Kernel, written, next_u64, max_input_bytes, snapshot, moved_on, checked_input,
  feed_chunk, attach_on, resize_session, write_input, mark_exited,
}

-- The input that a client sends after it has read a snapshot.
abbrev pub answer : PtySnapshot → ℤ → List ℕ → PtyInput
answer seen pgid bytes = record {
  generation = seen.generation;
  revision = seen.revision;
  input_revision = seen.input_revision;
  foreground_pgid = pgid;
  bytes = bytes;
}

module _ {vt : Ghostty} where
  -- What can happen to a terminal between two requests: output, an attach, a resize, the exit of
  -- its process, and input, interactive or checked, written in full or in part.
  pub data Moves (s s' : PtySession vt) : Type 0 where
    fed : (chunk : List ℕ) → s' ≡ (feed_chunk chunk s).0 → Moves s s'
    attaches : (id cols rows : ℕ) (c : Option ℕ) → s' ≡ (attach_on id cols rows c s).0 → Moves s s'
    resizes : (cols rows : ℕ) (live : Bool) → s' ≡ (resize_session cols rows live s).0 → Moves s s'
    exits : s' ≡ (mark_exited s).0 → Moves s s'
    types : (bytes : List ℕ) → s' ≡ (write_input bytes s).0 → Moves s s'
    submits :
        (k : Kernel) (complete : Bool) (input : PtyInput)
        → (checked_input k complete input s).1.1 ≢ none
        → s' ≡ (checked_input k complete input s).0
        → Moves s s'

  pub data History (s : PtySession vt) : ℕ → PtySession vt → Type 0 where
    here : History s zero s
    next : {n : ℕ} {t u : PtySession vt} → History s n t → Moves t u → History s (suc n) u

  abbrev Bumped : PtySession vt → PtySession vt → Type 0
  Bumped s s' =
      ((s'.revision ≡ next_u64 s.revision) × (s'.input_revision ≡ s.input_revision))
      ⊎ ((s'.revision ≡ s.revision) × (s'.input_revision ≡ next_u64 s.input_revision))

  submit-Bumped :
      (k : Kernel) (complete : Bool) (input : PtyInput) (s s' : PtySession vt)
      → (checked_input k complete input s).1.1 ≢ none
      → s' ≡ (checked_input k complete input s).0
      → Bumped s s'
  unfolding checked_input
  submit-Bumped k complete input s s' wrote e = inr (ground arith, ground arith)

  Moves-Bumped : {s s' : PtySession vt} → Moves s s' → Bumped s s'
  unfolding feed_chunk attach_on resize_session mark_exited write_input
  Moves-Bumped (fed chunk e) = inl (ground arith)
  Moves-Bumped (attaches id cols rows c e) = inl (ground arith)
  Moves-Bumped (resizes cols rows live e) = inl (ground arith)
  Moves-Bumped (exits e) = inl (ground arith)
  Moves-Bumped (types bytes e) = inr (ground arith)
  Moves-Bumped {s} {s'} (submits k complete input wrote e) =
      submit-Bumped k complete input s s' wrote e

  -- After `a` steps of one counter and `b` of the other.
  record Counted (s : PtySession vt) (n : ℕ) (s' : PtySession vt) : Type 0 where
    a : ℕ
    b : ℕ
    all : a + b ≡ n
    output : s'.revision ≡ (s.revision + a) % 2 ^ 64
    input : s'.input_revision ≡ (s.input_revision + b) % 2 ^ 64

  History-Counted :
      {s : PtySession vt} {n : ℕ} {s' : PtySession vt}
      → s.revision < 2 ^ 64
      → s.input_revision < 2 ^ 64
      → History s n s'
      → Counted s n s'
  History-Counted hr hi here = record {
    a = 0;
    b = 0;
    all = refl;
    output = omega arith;
    input = omega arith;
  }
  History-Counted {s} hr hi (next past move) =
      let c = History-Counted hr hi past in
      elim (Moves-Bumped move) [
        | inl (o, i) ↦ record {
          a = suc c.a;
          b = c.b;
          all = omega (arith, c.all);
          output = omega (arith, o, c.output);
          input = omega (arith, i, c.input);
        }
        | inr (o, i) ↦ record {
          a = c.a;
          b = suc c.b;
          all = omega (arith, c.all);
          output = omega (arith, o, c.output);
          input = omega (arith, i, c.input);
        }
      ]

  -- After a history that is not empty, one of the counters differs.
  History-differs :
      {s s' : PtySession vt} {n : ℕ}
      → s.revision < 2 ^ 64
      → s.input_revision < 2 ^ 64
      → 0 < n
      → n < 2 ^ 64
      → History s n s'
      → (s'.revision ≢ s.revision) ⊎ (s'.input_revision ≢ s.input_revision)
  History-differs hr hi pos short past =
      let c = History-Counted hr hi past in
      elim (Bool-cases (c.a == 0)) [
        | inl none_of_output ↦ inr λ e. ground (arith, c.all, c.input)
        | inr some_output ↦ inl λ e. ground (arith, c.all, c.output)
      ]

  refused_when_moved :
      (k : Kernel) (complete : Bool) (input : PtyInput) (s : PtySession vt)
      → (s.revision ≢ input.revision) ⊎ (s.input_revision ≢ input.input_revision)
      → ((checked_input k complete input s).0 ≡ s) × ((checked_input k complete input s).1.1 ≡ none)
  unfolding checked_input moved_on
  refused_when_moved k complete input s h = ground arith

  -- Input that answers a snapshot is not written, and changes nothing, once anything has happened
  -- to the terminal since: output, an attach, a resize, an exit, or other input, the same request
  -- sent before included, even if its write failed halfway. The counters are `u64`, so this is
  -- stated for fewer than 2^64 steps.
  pub checked_input_stale :
      (k k' : Kernel) (complete : Bool) (pgid : ℤ) (bytes : List ℕ) {n : ℕ} {s s' : PtySession vt}
      → s.revision < 2 ^ 64
      → s.input_revision < 2 ^ 64
      → 0 < n
      → n < 2 ^ 64
      → History s n s'
      → ((checked_input k' complete (answer (snapshot k s) pgid bytes) s').0 ≡ s')
        × ((checked_input k' complete (answer (snapshot k s) pgid bytes) s').1.1 ≡ none)
  checked_input_stale k k' complete pgid bytes {s = s} {s' = s'} hr hi pos short past =
      refused_when_moved k' complete (answer (snapshot k s) pgid bytes) s'
        (unfold snapshot in History-differs hr hi pos short past)

  shown_pgid :
      (k : Kernel) (s : PtySession vt) (pgid : ℤ)
      → (snapshot k s).foreground_pgid ≡ some pgid
      → (k.foreground_pgid ≡ some pgid) × (is_positive pgid ≡ true)
  unfolding snapshot
  shown_pgid k s pgid h = ground arith

  not_moved :
      (k : Kernel) (pgid : ℤ) (bytes : List ℕ) (s : PtySession vt)
      → is_positive pgid ≡ true
      → s.exited ≡ false
      → moved_on pgid (answer (snapshot k s) pgid bytes) s ≡ false
  unfolding moved_on snapshot
  not_moved k pgid bytes s positive alive = ground arith

  -- Input of 1 to 8192 bytes that answers a snapshot of the terminal as it is, taken while its
  -- process ran in the foreground group that the input names, is written, and the reply names the
  -- input revision that it left behind.
  pub checked_input_fresh :
      (k : Kernel) (complete : Bool) (pgid : ℤ) (bytes : List ℕ) (s : PtySession vt)
      → 0 < length bytes
      → length bytes ≤ max_input_bytes
      → (snapshot k s).foreground_pgid ≡ some pgid
      → (snapshot k s).exited ≡ false
      → ((checked_input k complete (answer (snapshot k s) pgid bytes) s).1.1 ≡ some bytes)
        × ((checked_input k true (answer (snapshot k s) pgid bytes) s).1.0
            ≡ written (next_u64 s.input_revision))
        × ((checked_input k complete (answer (snapshot k s) pgid bytes) s).0.input_revision
            ≡ next_u64 s.input_revision)
  unfolding checked_input snapshot
  checked_input_fresh k complete pgid bytes s some_bytes few fg alive =
      let (group, positive) = shown_pgid k s pgid fg in
      ground (arith, group, not_moved k pgid bytes s positive alive)
