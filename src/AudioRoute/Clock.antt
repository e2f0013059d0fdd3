-- ===== src/AudioRoute/Clock.antt =====
-- audio.rs: the clock of the playback that a route sends agrees with the filter that receives it.
use mathlib.Core.Path.{subst}
use mux.Prelude.{
  ℕ, ◌+◌, ◌/◌, ◌^◌, ◌≤◌, ◌<◌, ◌≡◌, refl, ◌∙◌, ◌⊎◌, inl, inr, Bool, true, not, ◌&&◌, List, Option,
  none, some, arith, if◌then◌else◌, ==_refl, length, some_injective, Bool-cases, Option-cases,
}
use mux.Audio.{packet, unpack, Packet, Sequence, accept, fresh, checked_add_u64}
use mux.Audio.RoundTrip.{unpack-packet}
use mux.Audio.Order.{horizon, accept_lem}
use mux.AudioRoute.{
  Event, running, played, Serving, opened, next_epoch, captures, plays, set_running, on_playback,
  on_event, insert_client, remove_client,
}

-- The receiver has accepted nothing that lies ahead of the sender's clock.
pub record InStep (r : Serving) (s : Sequence) : Type 0 where
  epoch : r.state.playback_epoch < 2 ^ 64
  position : r.playback_position < 2 ^ 64
  behind :
      (s.epoch < r.state.playback_epoch)
      ⊎ ((s.epoch ≡ r.state.playback_epoch) × (horizon s ≤ r.playback_position))

pub opened-InStep : InStep opened fresh
opened-InStep = record {
  epoch = omega arith;
  position = omega arith;
  behind = inr (refl, omega arith);
}

next_epoch_lem :
    (before after : Bool) (epoch epoch' : ℕ)
    → next_epoch before after epoch ≡ some epoch'
    → epoch < 2 ^ 64
    → (epoch' < 2 ^ 64) × (epoch' ≡ (if after && not before then epoch + 1 else epoch))
next_epoch_lem before after epoch epoch' h small = ground arith

-- The route as `set_running` leaves it.
abbrev entered_route : List (ℕ × Bool) → Serving → ℕ → ℕ → Serving
entered_route clients r ce pe = record r {
  clients = clients;
  playback_position = if plays clients && not r.state.playback then 0 else r.playback_position;
  state = record {
    capture = captures clients;
    playback = plays clients;
    capture_epoch = ce;
    playback_epoch = pe;
  };
}

entered :
    (clients : List (ℕ × Bool)) (r : Serving) (s : Sequence) (ce pe : ℕ)
    → pe < 2 ^ 64
    → pe ≡ (
        if plays clients && not r.state.playback
        then r.state.playback_epoch + 1
        else r.state.playback_epoch)
    → InStep r s
    → InStep (entered_route clients r ce pe) s
entered clients r s ce pe small same i = elim (Bool-cases (plays clients && not r.state.playback)) [
  | inl begins ↦
      let e : pe ≡ r.state.playback_epoch + 1 = rw begins at same in
      record {
        epoch = small;
        position = rw begins (omega arith);
        behind =
            inl (elim i.behind [ inl l ↦ omega (arith, e, l) | inr (q, l) ↦ omega (arith, e, q) ]);
      }
  | inr goes_on ↦
      let e : pe ≡ r.state.playback_epoch = rw goes_on at same in
      record {
        epoch = small;
        position = rw goes_on (i.position);
        behind = rw (e, goes_on) (i.behind);
      }
]

set_running-InStep :
    (clients : List (ℕ × Bool)) (r r' : Serving) (s : Sequence)
    → set_running clients r ≡ some r'
    → InStep r s
    → InStep r' s
unfolding set_running
set_running-InStep clients r r' s h i =
    elim (Option-cases (next_epoch r.state.capture (captures clients) r.state.capture_epoch)) [
      | inl e ↦ absurd (cc (rw (e, set_running) at h))
      | inr (ce, e) ↦
          elim (Option-cases (next_epoch r.state.playback (plays clients) r.state.playback_epoch)) [
            | inl f ↦ absurd (cc (rw (e, f, set_running) at h))
            | inr (pe, f) ↦
                let (small, same) =
                  next_epoch_lem r.state.playback (plays clients) r.state.playback_epoch pe f
                    i.epoch in
                rw (← some_injective (rw (e, f, set_running) at h))
                  (entered clients r s ce pe small same i)
          ]
    ]

-- A packet that the sender makes is accepted, whatever was accepted of those before it.
accepted :
    (r : Serving) (s : Sequence) (count : ℕ)
    → InStep r s
    → r.playback_position + count < 2 ^ 64
    → accept s r.state.playback_epoch r.playback_position count
      ≡ (record { epoch = r.state.playback_epoch; end = some (r.playback_position + count) }, true)
accepted r s count i fits =
    accept_lem s
      (record { epoch = r.state.playback_epoch; position = r.playback_position; count = count })
    ∙ elim i.behind [ inl l ↦ ground arith | inr (q, l) ↦ ground arith ]

-- What an event does to the route and its receiver: the datagram is taken if it arrives.
pub record Sent (token : ℕ) (r' : Serving) (s : Sequence) (datagram : List ℕ) : Type 0 where
  pub heard : Packet
  pub reads : unpack datagram token ≡ some heard
  pub after : Sequence
  pub taken : accept s heard.epoch heard.position (length heard.pcm / 2) ≡ (after, true)
  pub arrives : InStep r' after
  pub gets_lost : InStep r' s

unfoldable pub Follows : ℕ → Serving → Sequence → Option (List ℕ) → Type 0
Follows token r' s none = InStep r' s
Follows token r' s (some datagram) = Sent token r' s datagram

on_playback-Sent :
    (token : ℕ) (pcm datagram : List ℕ) (r : Serving) (s : Sequence) (position : ℕ)
    → token < 2 ^ 64
    → packet token r.state.playback_epoch r.playback_position pcm ≡ some datagram
    → checked_add_u64 r.playback_position (length pcm / 2) ≡ some position
    → InStep r s
    → Sent token (record r { playback_position = position }) s datagram
on_playback-Sent token pcm datagram r s position small made added i =
    let fits : r.playback_position + length pcm / 2 < 2 ^ 64 = ground arith in
    let e : position ≡ r.playback_position + length pcm / 2 = ground arith in
    record {
      heard = record { epoch = r.state.playback_epoch; position = r.playback_position; pcm = pcm };
      reads =
          unpack-packet token r.state.playback_epoch r.playback_position pcm token small i.epoch
            i.position made
          ∙ rw (==_refl token) refl;
      after = record {
        epoch = r.state.playback_epoch;
        end = some (r.playback_position + length pcm / 2);
      };
      taken = accepted r s (length pcm / 2) i fits;
      arrives = record {
        epoch = i.epoch;
        position = omega (arith, e, fits);
        behind = inr (refl, omega (arith, e));
      };
      gets_lost = record {
        epoch = i.epoch;
        position = omega (arith, e, fits);
        behind = elim i.behind [ inl l ↦ inl l | inr (q, l) ↦ inr (q, omega (arith, e, l)) ];
      };
    }

on_playback-Follows :
    (token : ℕ) (pcm : List ℕ) (r r' : Serving) (s : Sequence) (d : Option (List ℕ))
    → token < 2 ^ 64
    → on_playback token pcm r ≡ some (r', d)
    → InStep r s
    → Follows token r' s d
unfolding on_playback Follows
on_playback-Follows token pcm r r' s d small h i =
    elim (Option-cases (packet token r.state.playback_epoch r.playback_position pcm)) [
      | inl e ↦ subst (λ x. Follows token x.0 s x.1) (some_injective (rw (e, on_playback) at h)) i
      | inr (datagram, e) ↦
          elim (Option-cases (checked_add_u64 r.playback_position (length pcm / 2))) [
            | inl over ↦ absurd (cc (rw (e, over, on_playback) at h))
            | inr (position, f) ↦
                subst (λ x. Follows token x.0 s x.1) (some_injective (rw (e, f, on_playback) at h))
                  (on_playback-Sent token pcm datagram r s position small e f i)
          ]
    ]

pub on_event-Follows :
    (token : ℕ) (e : Event) (r r' : Serving) (s : Sequence) (d : Option (List ℕ))
    → token < 2 ^ 64
    → on_event token e r ≡ some (r', d)
    → InStep r s
    → Follows token r' s d
unfolding on_event Follows
on_event-Follows token (played pcm) r r' s d small h i =
    on_playback-Follows token pcm r r' s d small h i
on_event-Follows token (running id capture on) r r' s d small h i =
    let clients =
      if on then insert_client (id, capture) r.clients else remove_client (id, capture) r.clients in
    elim (Option-cases (set_running clients r)) [
      | inl e ↦ absurd (cc (rw (e, on_event) at h))
      | inr (next, e) ↦
          subst (λ x. Follows token x.0 s x.1) (some_injective (rw (e, on_event) at h))
            (set_running-InStep clients r next s e i)
    ]
