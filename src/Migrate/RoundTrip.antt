-- ===== src/Migrate/RoundTrip.antt =====
-- migrate.rs: a successor receives the ptys that were handed off, however the message is cut up.
use mux.Prelude.{
  ℕ, zero, suc, ◌-◌, ◌≤◌, ◌<◌, ◌≡◌, refl, sym, ap, ◌∙◌, inl, inr, true, false, ◌||◌, List, [], ◌∷◌,
  ◌++◌, map, some, arith, ltb, leb, ◌==◌, ==_refl, length, take, drop, to_le, from_le, length-to_le,
  from_le-to_le, append-nil, append_assoc, length-append, length-map, length-take, take-append-drop,
  Bool-cases, take-length_append, drop-length_append,
}
use mux.Frame.{read_exact}
use mux.Terminal.{Ghostty}
use mux.Session.{PtySession}
use mux.Manager.{Manager}
use mux.Manager.Listing.{live_sessions}
use mux.Migrate.{
  migrate_version, max_payload_bytes, MigratePayload, MigrateCodec, taken, ◌>>=◌, decode_payload,
  fill, admit_payload, receive_body, receive, entry, handoff_message, Adopted, zip_fds, dup_all,
}
use mathlib.Core.List.{Perm}
use mux.Manager.Listing.Sorted.{InOrder}
use mux.Migrate.Carried.{
  sent, Handed-cases, to_carry, length-dup_all, sent-zip_fds, zip_fds-InOrder,
  live_sessions-to_carry, live_sessions-InOrder,
}
use mux.Prelude.{Option}

take-append_short : (n : ℕ) (xs ys : List ℕ) → n ≤ length xs → take n (xs ++ ys) ≡ take n xs
take-append_short zero xs ys h = refl
take-append_short (suc n) [] ys h = absurd (omega arith)
take-append_short (suc n) (x ∷ xs) ys h = ap (◌∷◌ x) (take-append_short n xs ys (omega arith))

drop-append_short : (n : ℕ) (xs ys : List ℕ) → n ≤ length xs → drop n (xs ++ ys) ≡ drop n xs ++ ys
drop-append_short zero xs ys h = refl
drop-append_short (suc n) [] ys h = absurd (omega arith)
drop-append_short (suc n) (x ∷ xs) ys h = drop-append_short n xs ys (omega arith)

take_all : (n : ℕ) (xs : List ℕ) → n ≡ length xs → take n xs ≡ xs
take_all n xs h = ap (take n) (sym (append-nil xs)) ∙ take-length_append xs [] n h

-- What `fill` leaves, when all in all there are enough bytes.
record Filled (n : ℕ) (buf rest : List ℕ) : Type 0 where
  front : List ℕ
  back : List ℕ
  same : front ++ back ≡ buf ++ rest
  enough : n ≤ length front
  result :
      fill n buf (record { bytes = rest; broken = false })
      ≡ taken (front, record { bytes = back; broken = false })

fill-Filled : (n : ℕ) (buf rest : List ℕ) → n ≤ length (buf ++ rest) → Filled n buf rest
unfolding fill read_exact
fill-Filled n buf rest h = elim (Bool-cases (ltb (length buf) n)) [
  | inr there ↦ record {
    front = buf;
    back = rest;
    same = refl;
    enough = ground arith;
    result = rw (there, fill) refl;
  }
  | inl short ↦
      let more = n - length buf in
      let fits : leb more (length rest) ≡ true = ground (arith, length-append buf rest) in
      record {
        front = buf ++ take more rest;
        back = drop more rest;
        same =
            append_assoc buf (take more rest) (drop more rest)
            ∙ ap (λ xs. buf ++ xs) (take-append-drop more rest);
        enough = ground (arith, length-append buf (take more rest), length-take more rest);
        result = rw (short, fits, fill, read_exact) refl;
      }
]

receive_body_lem :
    (c : MigrateCodec) (fds : List ℕ) (buf rest body : List ℕ)
    → 0 < length body
    → length body ≤ max_payload_bytes
    → 4 ≤ length buf
    → buf ++ rest ≡ to_le 4 (length body) ++ body
    → receive_body c fds buf (record { bytes = rest; broken = false })
      ≡ (decode_payload c body >>= admit_payload fds)
unfolding receive_body
receive_body_lem c fds buf rest body some_bytes few long e =
    let head : take 4 buf ≡ to_le 4 (length body) =
      sym (take-append_short 4 buf rest long)
      ∙ ap (take 4) e
      ∙ take-length_append (to_le 4 (length body)) body 4 (sym (length-to_le 4 (length body))) in
    let len : from_le (take 4 buf) ≡ length body =
      ap from_le head ∙ from_le-to_le 4 (length body) (omega arith) in
    let tail : drop 4 buf ++ rest ≡ body =
      sym (drop-append_short 4 buf rest long)
      ∙ ap (drop 4) e
      ∙ drop-length_append (to_le 4 (length body)) body 4 (sym (length-to_le 4 (length body))) in
    let f = fill-Filled (length body) (drop 4 buf) rest (omega (arith, ap length tail)) in
    let whole : take (length body) f.front ≡ body =
      sym (take-append_short (length body) f.front f.back f.enough)
      ∙ ap (take (length body)) (f.same ∙ tail)
      ∙ take_all (length body) body refl in
    let good : (length body == 0 || ltb max_payload_bytes (length body)) ≡ false = ground arith in
    rw (len, good, f.result, whole, receive_body) refl

receive_lem :
    (c : MigrateCodec) (fds : List ℕ) (chunk rest body : List ℕ)
    → 0 < length body
    → length body ≤ max_payload_bytes
    → chunk ++ rest ≡ to_le 4 (length body) ++ body
    → receive c fds chunk (record { bytes = rest; broken = false })
      ≡ (decode_payload c body >>= admit_payload fds)
unfolding receive
receive_lem c fds chunk rest body some_bytes few e =
    let f = fill-Filled 4 chunk rest (
      omega (
        arith,
        ap length e,
        length-append (to_le 4 (length body)) body,
        length-to_le 4 (length body),
      )) in
    rw (f.result, receive)
      (receive_body_lem c fds f.front f.back body some_bytes few f.enough (f.same ∙ e))

module _ {vt : Ghostty} where
  -- The payload of a manager's live ptys.
  abbrev pub payload_of : (PtySession vt → ℕ × ℕ) → Manager vt → MigratePayload
  payload_of window_size m = record {
    version = migrate_version;
    ptys = map (entry window_size) (live_sessions m);
  }

  handoff_message-eq_taken :
      (c : MigrateCodec) (window_size : PtySession vt → ℕ × ℕ) (dup : PtySession vt → Option ℕ)
      (m : Manager vt) (message fds : List ℕ)
      → handoff_message c window_size dup m ≡ taken (message, fds)
      → (message
          ≡ to_le 4 (length (c.encode_payload (payload_of window_size m)))
            ++ c.encode_payload (payload_of window_size m))
        × (dup_all dup (live_sessions m) ≡ taken fds)
  unfolding handoff_message
  handoff_message-eq_taken c window_size dup m message fds h =
      elim (Handed-cases (dup_all dup (live_sessions m))) [
        | inl (all, good) ↦ ground (arith, good, h)
        | inr (e, bad) ↦ absurd (ground (arith, bad, h))
      ]

  -- However the message of a handoff is cut into a first chunk and the rest, a successor of this
  -- version receives the ptys that live in the predecessor's table, each once and no other: the
  -- entry of each together with the duplicate of its own session's descriptor, in the order of their
  -- names. The payload is to be within the limit of 64 MiB, and postcard is to read back the payload
  -- that it wrote.
  pub receive-handoff_message :
      (c : MigrateCodec) (window_size : PtySession vt → ℕ × ℕ) (dup : PtySession vt → Option ℕ)
      (m : Manager vt) (message chunk rest fds : List ℕ)
      → handoff_message c window_size dup m ≡ taken (message, fds)
      → c.decode_version (c.encode_payload (payload_of window_size m)) ≡ some migrate_version
      → c.decode_current (c.encode_payload (payload_of window_size m))
        ≡ some (payload_of window_size m)
      → 0 < length (c.encode_payload (payload_of window_size m))
      → length (c.encode_payload (payload_of window_size m)) ≤ max_payload_bytes
      → chunk ++ rest ≡ message
      → (adopted : List Adopted) × (receive c fds chunk (record { bytes = rest; broken = false })
          ≡ taken adopted)
        × Perm (map sent adopted) (to_carry window_size dup m.sessions m.table)
        × InOrder (λ a. a.pty.name) adopted
  unfolding decode_payload
  receive-handoff_message c window_size dup m message chunk rest fds h version decodes some_bytes
        few cut =
      let body = c.encode_payload (payload_of window_size m) in
      let ss = live_sessions m in
      let (laid_out, duplicated) = handoff_message-eq_taken c window_size dup m message fds h in
      let count : length (map (entry window_size) ss) ≡ length fds =
        length-map (entry window_size) ss
        ∙ sym (length-dup_all window_size dup ss fds duplicated) in
      (
        zip_fds (map (entry window_size) ss) fds,
        receive_lem c fds chunk rest body some_bytes few (cut ∙ laid_out)
            ∙ rw (version, decodes, count, decode_payload, ==_refl (length fds)) refl,
        rw (sent-zip_fds window_size dup ss fds duplicated)
            (live_sessions-to_carry window_size dup m),
        zip_fds-InOrder window_size dup ss fds duplicated (live_sessions-InOrder window_size dup m),
      )
