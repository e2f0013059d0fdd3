-- ===== src/Broker/Pins/Trust.antt =====
-- crates/muxd/src/broker.rs: a key that was pinned is the only one that is trusted from then on.
use mathlib.Core.Path.{subst}
use mux.Prelude.{
  ◌≡◌, ◌≢◌, [], ◌∷◌, ◌++◌, take, append-nil, append_assoc, refl, sym, ap, ◌∙◌, ◌⊎◌, inl, inr, true,
  Option, none, some, Bool-cases, some_injective,
}
use mux.Prelude.Results.{Result, ok, err, ok_injective, Result-cases}
use mux.Text.{Text, same, same_iff, newline}
use mux.Text.Split.{is_field, is_ended}
use mux.Broker.Pins.{
  check_alias, Access, Append, written_whole, not_opened, broken_off, appended, text_of, pin_line,
  PinError, KnownHosts, read_pin, settle_pin, append_pin, check_pin,
}
use mux.Broker.Pins.Found.{
  pin_of, IsSound, with_pin, check_alias-field, with_pin-IsSound, with_pin-new, pin_of_append,
}

none-some : {A : Type 0} {a : A} → ◌≢◌ {A = Option A} none (some a)
none-some h = cc

err-ok : {E : Type 0} {A : Type 0} {e : E} {a : A} → ◌≢◌ {A = Result E A} (err e) (ok a)
err-ok h = cc

read_pin-ok :
    (access : Access) (k : KnownHosts) (alias : Text) {o : Option Text}
    → read_pin access k alias ≡ ok o
    → pin_of k alias ≡ o
unfolding read_pin pin_of
read_pin-ok access none alias h = ok_injective h
read_pin-ok access (some text) alias h = elim (Bool-cases access.readable) [
  | inl e ↦ ok_injective (rw (e, read_pin) at h)
  | inr e ↦ absurd (err-ok (rw (e, read_pin) at h))
]

-- What a contact did to the file, and what it answered: the file stands, or the pin is added, or a
-- part of a line is, and no trust is given.
abbrev Outcome :
    Text → Text → KnownHosts → Option Text → KnownHosts × Result PinError (Option Text) → Type 0
Outcome alias fingerprint k o (k', r) =
    ((k' ≡ k) × ((x : Option Text) → r ≡ ok x → (o ≡ some fingerprint) × (x ≡ none)))
    ⊎ (((o ≡ none) × (k' ≡ with_pin alias fingerprint k) × (r ≡ ok (some fingerprint)))
        ⊎ ((suffix : Text) × (k' ≡ some (text_of k ++ suffix)) × ((x : Option Text) → r ≢ ok x)))

-- By how the append went.
append_pin-Outcome :
    (access : Access) (how : Append) (alias fingerprint : Text) (k : KnownHosts)
    → access.append ≡ how
    → Outcome alias fingerprint k none
        (appended fingerprint (append_pin access k alias fingerprint))
unfolding append_pin with_pin
append_pin-Outcome access written_whole alias fingerprint k e =
    rw (e, append_pin) (inr (inl (refl, refl, refl)))
append_pin-Outcome access not_opened alias fingerprint k e =
    rw (e, append_pin) (inl (refl, λ x h. absurd (err-ok h)))
append_pin-Outcome access (broken_off n) alias fingerprint k e =
    rw (e, append_pin)
      (inr (inr (take n (pin_line alias fingerprint ++ newline ∷ []), refl, λ x h. err-ok h)))

settle_pin-Outcome :
    (access : Access) (alias fingerprint : Text) (k : KnownHosts) (o : Option Text)
    → Outcome alias fingerprint k o (settle_pin access alias fingerprint k (ok o))
unfolding settle_pin
settle_pin-Outcome access alias fingerprint k (some pinned) =
    elim (Bool-cases (same pinned fingerprint)) [
      | inl e ↦
          rw (e, settle_pin)
            (inl (refl, λ x h. (ap some (same_iff pinned fingerprint e), sym (ok_injective h))))
      | inr e ↦ rw (e, settle_pin) (inl (refl, λ x h. absurd (err-ok h)))
    ]
settle_pin-Outcome access alias fingerprint k none =
    append_pin-Outcome access access.append alias fingerprint k refl

unread :
    (access : Access) (alias fingerprint : Text) (k : KnownHosts) (x : PinError)
    → (settle_pin access alias fingerprint k (err x)).0 ≡ k
unfolding settle_pin
unread access alias fingerprint k x = refl

settled_err :
    (access : Access) (alias fingerprint : Text) (k : KnownHosts) (x : PinError) {y : Option Text}
    → (settle_pin access alias fingerprint k (err x)).1 ≡ ok y
    → ◌≡◌ {A = Result PinError (Option Text)} (err x) (ok y)
unfolding settle_pin
settled_err access alias fingerprint k x h = h

check_pin-Outcome :
    (access : Access) (alias fingerprint : Text) (k : KnownHosts)
    → Outcome alias fingerprint k (pin_of k alias) (check_pin access alias fingerprint k)
unfolding check_pin
check_pin-Outcome access alias fingerprint k = elim (Result-cases (read_pin access k alias)) [
  | inl (o, e) ↦ rw (read_pin-ok access k alias e) (
      subst (λ r. Outcome alias fingerprint k o (settle_pin access alias fingerprint k r)) (sym e)
        (settle_pin-Outcome access alias fingerprint k o))
  | inr (x, e) ↦
      subst
        (λ r.
          Outcome alias fingerprint k (pin_of k alias) (settle_pin access alias fingerprint k r))
        (sym e)
        (inl (
          unread access alias fingerprint k x,
          λ y h. absurd (err-ok (settled_err access alias fingerprint k x h)),
        ))
]

-- A host is dialed: its alias was checked, and its fingerprint is a field.
pub data Contacts (k : KnownHosts) : KnownHosts → Type 0 where
  here : Contacts k k
  next :
      {j : KnownHosts} (access : Access) (alias fingerprint : Text)
      → Contacts k j
      → check_alias alias ≡ true
      → is_field fingerprint ≡ true
      → Contacts k (check_pin access alias fingerprint j).0

-- A contact takes nothing from a file.
check_pin-grows :
    (access : Access) (alias fingerprint text : Text)
    → (suffix : Text) × ((check_pin access alias fingerprint (some text)).0 ≡ some (text ++ suffix))
unfolding with_pin
check_pin-grows access alias fingerprint text =
    elim (check_pin-Outcome access alias fingerprint (some text)) [
      | inl (same_file, _) ↦ ([], same_file ∙ ap some (sym (append-nil text)))
      | inr (inl (_, written, _)) ↦ (pin_line alias fingerprint ++ newline ∷ [], written)
      | inr (inr (suffix, partly, _)) ↦ (suffix, partly)
    ]

Contacts-grows :
    (text : Text) {j : KnownHosts}
    → Contacts (some text) j
    → (suffix : Text) × (j ≡ some (text ++ suffix))
Contacts-grows text here = ([], ap some (sym (append-nil text)))
Contacts-grows text (next {j} access alias fingerprint run a f) =
    let (behind, so_far) = Contacts-grows text run in
    let (suffix, now) = check_pin-grows access alias fingerprint (text ++ behind) in
    (
      behind ++ suffix,
      ap (λ q. (check_pin access alias fingerprint q).0) so_far
          ∙ now
          ∙ ap some (append_assoc text behind suffix),
    )

-- A file of whole lines that pins the host.
record Pins (alias fingerprint : Text) (k : KnownHosts) : Type 0 where
  text : Text
  file : k ≡ some text
  whole : is_ended text ≡ true
  pinned : pin_of (some text) alias ≡ some fingerprint

sound-Pins :
    (alias fingerprint : Text) (k : KnownHosts)
    → IsSound k
    → pin_of k alias ≡ some fingerprint
    → Pins alias fingerprint k
unfolding IsSound pin_of
sound-Pins alias fingerprint none h e = absurd (none-some e)
sound-Pins alias fingerprint (some text) h e = record {
  text = text;
  file = refl;
  whole = h.0;
  pinned = e;
}

trusted-Pins :
    (access : Access) (alias fingerprint : Text) (k : KnownHosts) {r : Option Text}
    → check_alias alias ≡ true
    → is_field fingerprint ≡ true
    → IsSound k
    → (check_pin access alias fingerprint k).1 ≡ ok r
    → Pins alias fingerprint (check_pin access alias fingerprint k).0
trusted-Pins access alias fingerprint k a f h e =
    let field = check_alias-field alias a in
    elim (check_pin-Outcome access alias fingerprint k) [
      | inl (same_file, matched) ↦
          subst (Pins alias fingerprint) (sym same_file)
            (sound-Pins alias fingerprint k h (matched _ e).0)
      | inr (inl (unpinned, written, _)) ↦ subst (Pins alias fingerprint) (sym written) (
          sound-Pins alias fingerprint _ (with_pin-IsSound alias fingerprint field f k h)
            (with_pin-new alias fingerprint field f k h unpinned))
      | inr (inr (_, _, refused)) ↦ absurd (refused _ e)
    ]

-- Once a host was trusted with a fingerprint, then after any contacts with any hosts, whatever they
-- presented and however their reading and appending went, lines written in part included, the
-- host is trusted with that fingerprint only, and never again as at first contact. Before the trust
-- the file is one of whole lines with two fields.
pub check_pin-Contacts :
    (k : KnownHosts) {j : KnownHosts} (alias : Text) (access later : Access)
    (fingerprint presented : Text) {first second : Option Text}
    → IsSound k
    → check_alias alias ≡ true
    → is_field fingerprint ≡ true
    → (check_pin access alias fingerprint k).1 ≡ ok first
    → Contacts (check_pin access alias fingerprint k).0 j
    → (check_pin later alias presented j).1 ≡ ok second
    → (presented ≡ fingerprint) × (second ≡ none)
check_pin-Contacts k {j} alias access later fingerprint presented h a f trusted run again =
    let p = trusted-Pins access alias fingerprint k a f h trusted in
    let (suffix, grown) = Contacts-grows p.text (subst (λ q. Contacts q j) p.file run) in
    let kept : pin_of j alias ≡ some fingerprint =
      ap (λ q. pin_of q alias) grown ∙ pin_of_append p.text suffix alias p.whole p.pinned in
    elim (check_pin-Outcome later alias presented j) [
      | inl (_, matched) ↦
          let (pinned, first_no_more) = matched _ again in
          (some_injective (sym pinned ∙ kept), first_no_more)
      | inr (inl (unpinned, _, _)) ↦ absurd (none-some (sym unpinned ∙ kept))
      | inr (inr (_, _, refused)) ↦ absurd (refused _ again)
    ]
