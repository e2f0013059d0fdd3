-- ===== src/Client/Target.antt =====
-- main.rs: what a target on the command line is read as.
use mux.Prelude.{
  ℕ, ◌≡◌, refl, inl, inr, true, false, not, [], ◌∷◌, ◌++◌, none, some, if◌then◌else◌, ◌==◌, all,
  ==_refl, Bool-cases,
}
use mux.Text.{Text, codes, is_empty, same}
use mux.Client.{split_once, colon, parse_target}

split_once-append :
    (sep : ℕ) (host name : Text)
    → all (λ c. not (c == sep)) host ≡ true
    → split_once sep (host ++ sep ∷ name) ≡ some (host, name)
unfolding split_once
split_once-append sep [] name h = rw (==_refl sep) refl
split_once-append sep (c ∷ host) name h = elim (Bool-cases (c == sep)) [
  | inl e ↦ absurd (cc (rw e at h))
  | inr e ↦ rw (e, split_once-append sep host name (rw e at h)) refl
]

-- A host without a colon, a colon and a name, neither of them empty, is read as the pty of that
-- name on that host, or on this machine if the host is "local". The name may hold colons.
pub parse_target-append :
    (host name : Text)
    → all (λ c. not (c == colon)) host ≡ true
    → is_empty host ≡ false
    → is_empty name ≡ false
    → parse_target (host ++ colon ∷ name)
      ≡ some ((if same host (codes "local") then none else some host), name)
unfolding parse_target
parse_target-append host name plain h n = elim (Bool-cases (same host (codes "local"))) [
  | inl e ↦ rw (split_once-append colon host name plain, e, n, parse_target) refl
  | inr e ↦ rw (split_once-append colon host name plain, e, h, n, parse_target) refl
]
