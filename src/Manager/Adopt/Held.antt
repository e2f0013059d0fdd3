-- ===== src/Manager/Adopt/Held.antt =====
-- manager.rs: what a handoff that is taken leaves of each pty in it.
use mux.Prelude.{
  some_injective, ℕ, ◌≡◌, refl, sym, ap, ◌∙◌, inl, inr, true, List, [], ◌∷◌, ◌++◌, Option, none,
  some, String, str_eq_iff, arith, ◌==◌, ==_iff, All, length, get_elem?, set, get_elem?-set_self,
  get_elem?-set_ne, get_elem?-append, get_elem?-append_last, get_elem?-lt, Bool-cases, Table,
  lookup, insert, lookup-insert,
}
use mux.Terminal.{Ghostty, Terminal, new, feed}
use mux.Session.{PtySession}
use mux.Manager.{Shelf, done, Received, fresh_session}
use mux.Manager.Valid.{insert_locked-eq_done}
use mux.Manager.Adopt.{with_deadline, stage_one, stage}
use mux.Manager.Adopt.Staged.{stage_one-Staged, Outcome-cases, done_injective}

inserted_lookup :
    (name : String) (i : ℕ) (table : Table ℕ) → lookup name (insert name i table) ≡ some i
inserted_lookup name i table = ground (arith, lookup-insert name name i table, str_eq_iff name name)

module _ {vt : Ghostty} where
  -- A session that continues the pty.
  pub record Continues (r : Received) (s : PtySession vt) : Type 0 where
    pub generation : s.generation ≡ r.generation
    pub child : s.child ≡ r.pty.child_pid
    pub command : s.command ≡ r.pty.command
    pub deadline : s.close_deadline ≡ r.pty.close_deadline
    pub screen :
        (t : Terminal vt) × (new vt r.pty.rows r.pty.cols ≡ some t)
        × (s.terminal ≡ feed vt t r.pty.screen)

  -- The pty's name leads to such a session.
  pub record Holds (m : Shelf vt) (r : Received) : Type 0 where
    pub place : ℕ
    pub session : PtySession vt
    pub at : lookup r.pty.name m.table ≡ some place
    pub there : get_elem? m.sessions place ≡ some session
    pub continues : Continues r session

  -- A change of a session that leaves those parts alone.
  abbrev pub Faithful : PtySession vt → PtySession vt → Type 0
  Faithful s s' =
      (s'.generation ≡ s.generation)
      × (s'.child ≡ s.child)
      × (s'.command ≡ s.command)
      × (s'.close_deadline ≡ s.close_deadline)
      × (s'.terminal ≡ s.terminal)

  Faithful-Continues :
      (r : Received) (s s' : PtySession vt) → Faithful s s' → Continues r s → Continues r s'
  Faithful-Continues r s s' (g, c, l, d, t) h = record {
    generation = g ∙ h.generation;
    child = c ∙ h.child;
    command = l ∙ h.command;
    deadline = d ∙ h.deadline;
    screen = let (t0, made, same) = h.screen in (t0, made, t ∙ same);
  }

  pub set-Holds :
      (m : Shelf vt) (r : Received) (i : ℕ) (s s' : PtySession vt)
      → get_elem? m.sessions i ≡ some s
      → Faithful s s'
      → Holds m r
      → Holds (record m { sessions = set m.sessions i s' }) r
  set-Holds m r i s s' at_i f h = elim (Bool-cases (i == h.place)) [
    | inl e ↦
        let same = (==_iff i h.place).0 e in
        let it : s ≡ h.session =
          some_injective (sym at_i ∙ ap (get_elem? m.sessions) same ∙ h.there) in
        record {
          place = h.place;
          session = s';
          at = h.at;
          there =
              ap (get_elem? (set m.sessions i s')) (sym same)
              ∙ get_elem?-set_self m.sessions i s' (get_elem?-lt m.sessions i at_i);
          continues = Faithful-Continues r s s' f (rw (← it) at h.continues);
        }
    | inr ne ↦ record {
      place = h.place;
      session = h.session;
      at = h.at;
      there =
          get_elem?-set_ne m.sessions i h.place s' (λ p. cc ((==_iff i h.place).1 p, ne)) ∙ h.there;
      continues = h.continues;
    }
  ]

  with_deadline_at :
      (i : ℕ) (d : Option ℕ) (m : Shelf vt) (s : PtySession vt)
      → get_elem? m.sessions i ≡ some s
      → with_deadline i d m
        ≡ record m { sessions = set m.sessions i (record s { close_deadline = d }) }
  with_deadline_at i d m s e = rw (e, with_deadline) refl

  inserted_at :
      (m : Shelf vt) (s : PtySession vt) (i : ℕ)
      → i ≡ length m.sessions
      → get_elem? (m.sessions ++ s ∷ []) i ≡ some s
  inserted_at m s i e = rw e (get_elem?-append_last m.sessions s)

  abbrev staged_session : Received → Terminal vt → PtySession vt
  staged_session r t =
      fresh_session r.generation r.pty.name r.pty.command (feed vt t r.pty.screen) r.pty.child_pid
        true

  -- The shelf behind a pty that was staged.
  stage_one-eq_done :
      (r : Received) (m next : Shelf vt)
      → stage_one r m ≡ done next
      → (t : Terminal vt) × (new vt r.pty.rows r.pty.cols ≡ some t)
        × (lookup r.pty.name m.table ≡ none)
        × (next ≡ record {
          sessions =
              set
                (m.sessions ++ staged_session r t ∷ [])
                (length m.sessions)
                (record (staged_session r t) { close_deadline = r.pty.close_deadline });
          table = insert r.pty.name (length m.sessions) m.table;
        })
  stage_one-eq_done r m next h =
      let st = stage_one-Staged r m next h in
      let ((room, free), (place, shelf)) =
        insert_locked-eq_done r.generation r.pty.name r.pty.command (feed vt st.blank r.pty.screen)
          r.pty.child_pid true m st.at st.shelf st.inserted in
      let here = inserted_at m (staged_session r st.blank) (length m.sessions) refl in
      (
        st.blank,
        st.made,
        free,
        rw (st.end, place, shelf)
            (with_deadline_at (length m.sessions) r.pty.close_deadline _ (staged_session r st.blank)
              here),
      )

  stage_one_new : (r : Received) (m next : Shelf vt) → stage_one r m ≡ done next → Holds next r
  stage_one_new r m next h =
      let (t, made, free, e) = stage_one-eq_done r m next h in
      let s = record (staged_session r t) { close_deadline = r.pty.close_deadline } in
      let here = inserted_at m (staged_session r t) (length m.sessions) refl in
      rw e (record {
        place = length m.sessions;
        session = s;
        at = inserted_lookup r.pty.name (length m.sessions) m.table;
        there =
            get_elem?-set_self _ (length m.sessions) s (get_elem?-lt _ (length m.sessions) here);
        continues = record {
          generation = refl;
          child = refl;
          command = refl;
          deadline = refl;
          screen = (t, made, refl);
        };
      })

  stage_one_old :
      (r r' : Received) (m next : Shelf vt) → stage_one r m ≡ done next → Holds m r' → Holds next r'
  stage_one_old r r' m next h held =
      let (t, made, free, e) = stage_one-eq_done r m next h in
      let s = record (staged_session r t) { close_deadline = r.pty.close_deadline } in
      let there = get_elem?-lt m.sessions held.place held.there in
      rw e (record {
        place = held.place;
        session = held.session;
        at = ground (
          arith,
          lookup-insert r.pty.name r'.pty.name (length m.sessions) m.table,
          str_eq_iff r.pty.name r'.pty.name,
          free,
          held.at,
        );
        there =
            get_elem?-set_ne _ (length m.sessions) held.place s (λ p. omega (arith, p, there))
            ∙ get_elem?-append m.sessions (staged_session r t) held.place held.session held.there;
        continues = held.continues;
      })

  stage_old :
      (rs : List Received) (r : Received) (m next : Shelf vt)
      → stage rs m ≡ done next
      → Holds m r
      → Holds next r
  unfolding stage
  stage_old [] r m next h held = rw (← done_injective h) held
  stage_old (r' ∷ rs) r m next h held = elim (Outcome-cases (stage_one r' m)) [
    | inr (f, e) ↦ absurd (cc (rw e at h))
    | inl (middle, e) ↦ stage_old rs r middle next (rw e at h) (stage_one_old r' r m middle e held)
  ]

  -- A handoff that was staged holds every pty in it.
  pub stage-Holds :
      (rs : List Received) (m next : Shelf vt) → stage rs m ≡ done next → All (Holds next) rs
  unfolding stage
  stage-Holds [] m next h = tt
  stage-Holds (r ∷ rs) m next h = elim (Outcome-cases (stage_one r m)) [
    | inr (f, e) ↦ absurd (cc (rw e at h))
    | inl (middle, e) ↦ (
      stage_old rs r middle next (rw e at h) (stage_one_new r m middle e),
      stage-Holds rs middle next (rw e at h),
    )
  ]
