-- ===== src/Broker/Links/Owned.antt =====
-- crates/muxd/src/broker.rs: no connection that was dialed is lost while it is open.
use mathlib.Core.Path.{subst}
use mux.Prelude.{
  ℕ, ◌≡◌, ◌≢◌, refl, sym, ap, ◌∙◌, ◌⊎◌, inl, inr, true, false, List, [], ◌∷◌, Option, none, some,
  String, str_eq, str_eq_iff, ==_refl, All, All-imp, All-append, ◌++◌, str_eq_refl, arith, Table,
  lookup, insert, remove, lookup-remove, lookup-insert, Bool-cases, Option-cases, some_injective,
}
use mux.Broker.Links.{Links, no_links, is_closed, close, evict, live, settle, link}

-- A connection has ended, or is the one of an alias.
abbrev pub IsOwned : Links → ℕ → Type 0
IsOwned s n = (is_closed n s ≡ true) ⊎ ((alias : String) × (lookup alias s.links ≡ some n))

-- What happens to the connections, in any order: the halves of `connection` are steps of their own,
-- since the lock is not held across the dial.
pub data Step (s : Links) : Links → List ℕ → Type 0 where
  lives : (alias : String) → Step s (live alias s).0 []
  settles : (alias : String) (n : ℕ) → Step s (settle alias n s).0 (n ∷ [])
  evicts : (alias : String) → Step s (evict alias s) []
  ends : (n : ℕ) → Step s (close n s) []

-- The connections that were dialed so far are the last index.
pub data Run : Links → List ℕ → Type 0 where
  here : Run no_links []
  next : {s s' : Links} {made new : List ℕ} → Run s made → Step s s' new → Run s' (new ++ made)

closed_more : (n c : ℕ) (s : Links) → is_closed n s ≡ true → is_closed n (close c s) ≡ true
closed_more n c s h = ground arith

closed_self : (n : ℕ) (s : Links) → is_closed n (close n s) ≡ true
closed_self n s = ground (arith, ==_refl n)

-- A change at one alias, which only a connection that has ended gives up.
change :
    (alias : String) (s s' : Links) (n : ℕ)
    → (is_closed n s ≡ true → is_closed n s' ≡ true)
    → ((a : String) → str_eq alias a ≡ false → lookup a s'.links ≡ lookup a s.links)
    → (lookup alias s.links ≡ some n → is_closed n s' ≡ true)
    → IsOwned s n
    → IsOwned s' n
change alias s s' n grows others mine (inl ended) = inl (grows ended)
change alias s s' n grows others mine (inr (a, e)) = elim (Bool-cases (str_eq alias a)) [
  | inl p ↦ inl (mine (ap (λ b. lookup b s.links) ((str_eq_iff alias a).0 p) ∙ e))
  | inr p ↦ inr (a, others a p ∙ e)
]

removed_others :
    (alias : String) (t : Table ℕ) (a : String)
    → str_eq alias a ≡ false
    → lookup a (remove alias t) ≡ lookup a t
removed_others alias t a p = lookup-remove alias a t ∙ rw p refl

inserted_others :
    (alias : String) (c : ℕ) (t : Table ℕ) (a : String)
    → str_eq alias a ≡ false
    → lookup a (insert alias c t) ≡ lookup a t
inserted_others alias c t a p = lookup-insert alias a c t ∙ rw p refl

inserted : (alias : String) (c : ℕ) (t : Table ℕ) → lookup alias (insert alias c t) ≡ some c
inserted alias c t = lookup-insert alias alias c t ∙ rw (str_eq_refl alias) refl

same_closed :
    (s : Links) (c n : ℕ) {o : Option ℕ}
    → o ≡ some c
    → is_closed c s ≡ true
    → o ≡ some n
    → is_closed n s ≡ true
same_closed s c n e h k = subst (λ x. is_closed x s ≡ true) (some_injective (sym e ∙ k)) h

live-IsOwned : (alias : String) (s : Links) (n : ℕ) → IsOwned s n → IsOwned (live alias s).0 n
unfolding live
live-IsOwned alias s n h = elim (Option-cases (lookup alias s.links)) [
  | inl e ↦ rw (e, live) h
  | inr (c, e) ↦ elim (Bool-cases (is_closed c s)) [
    | inl dead ↦
        rw (e, dead, live)
          (change alias s (record s { links = remove alias s.links }) n (λ k. k)
            (removed_others alias s.links) (same_closed s c n e dead) h)
    | inr p ↦ rw (e, p, live) h
  ]
]

evict-IsOwned : (alias : String) (s : Links) (n : ℕ) → IsOwned s n → IsOwned (evict alias s) n
unfolding evict
evict-IsOwned alias s n h = elim (Option-cases (lookup alias s.links)) [
  | inl e ↦ rw (e, evict) h
  | inr (c, e) ↦
      let s' : Links = close c (record s { links = remove alias s.links }) in
      rw (e, evict)
        (change alias s s' n (closed_more n c s) (removed_others alias s.links)
          (same_closed s' c n e (closed_self c s)) h)
]

link-IsOwned :
    (alias : String) (c : ℕ) (s : Links) (n : ℕ)
    → (lookup alias s.links ≡ some n → is_closed n s ≡ true)
    → IsOwned s n
    → IsOwned (link alias c s) n
link-IsOwned alias c s n mine h =
    change alias s (link alias c s) n (λ k. k) (inserted_others alias c s.links) mine h

closed-IsOwned : (c : ℕ) (s : Links) (n : ℕ) → IsOwned s n → IsOwned (close c s) n
closed-IsOwned c s n (inl ended) = inl (closed_more n c s ended)
closed-IsOwned c s n (inr h) = inr h

none-some : {n : ℕ} → ◌≢◌ {A = Option ℕ} none (some n)
none-some h = cc

settle-IsOwned :
    (alias : String) (c : ℕ) (s : Links) (n : ℕ) → IsOwned s n → IsOwned (settle alias c s).0 n
unfolding settle
settle-IsOwned alias c s n h = elim (Option-cases (lookup alias s.links)) [
  | inl e ↦ rw (e, settle) (link-IsOwned alias c s n (λ k. absurd (none-some (sym e ∙ k))) h)
  | inr (old, e) ↦ elim (Bool-cases (is_closed old s)) [
    | inl dead ↦ rw (e, dead, settle) (link-IsOwned alias c s n (same_closed s old n e dead) h)
    | inr p ↦ rw (e, p, settle) (closed-IsOwned c s n h)
  ]
]

settle_own : (alias : String) (c : ℕ) (s : Links) → IsOwned (settle alias c s).0 c
unfolding settle
settle_own alias c s = elim (Option-cases (lookup alias s.links)) [
  | inl e ↦ rw (e, settle) (inr (alias, inserted alias c s.links))
  | inr (old, e) ↦ elim (Bool-cases (is_closed old s)) [
    | inl dead ↦ rw (e, dead, settle) (inr (alias, inserted alias c s.links))
    | inr p ↦ rw (e, p, settle) (inl (closed_self c s))
  ]
]

Step-IsOwned : {s s' : Links} {new : List ℕ} → Step s s' new → (n : ℕ) → IsOwned s n → IsOwned s' n
Step-IsOwned {s} (lives alias) n h = live-IsOwned alias s n h
Step-IsOwned {s} (settles alias c) n h = settle-IsOwned alias c s n h
Step-IsOwned {s} (evicts alias) n h = evict-IsOwned alias s n h
Step-IsOwned {s} (ends c) n h = closed-IsOwned c s n h

new-IsOwned : {s s' : Links} {new : List ℕ} → Step s s' new → All (IsOwned s') new
new-IsOwned {s} (lives alias) = tt
new-IsOwned {s} (settles alias c) = (settle_own alias c s, tt)
new-IsOwned {s} (evicts alias) = tt
new-IsOwned {s} (ends c) = tt

-- Whatever aliases are dialed, by however many panes at once, and whatever connections end or are
-- evicted in between: each connection that was dialed has ended, or is the one that is kept for an
-- alias and will be used again.
pub Run-IsOwned : {s : Links} {made : List ℕ} → Run s made → All (IsOwned s) made
Run-IsOwned here = tt
Run-IsOwned (next {s} {s'} {made} {new} run step) =
    All-append (IsOwned s') new made (new-IsOwned step)
      (All-imp (IsOwned s) (IsOwned s') (λ n h. Step-IsOwned step n h) made (Run-IsOwned run))
