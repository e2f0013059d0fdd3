-- ===== src/Daemon/Upgrade/Answered.antt =====
-- main.rs: what a report of `muxd upgrade` is worth.
use mux.Prelude.{
  ℕ, ◌≡◌, ◌≢◌, refl, ap, ◌∙◌, ◌<◌, ◌⊎◌, inl, inr, true, List, [], ◌∷◌, ◌++◌, Option, none, some,
  some_injective, String, ltb, leb, ltb→lt, any, length, arith, Bool-cases, Option-cases,
}
use mux.Prelude.Results.{Result, ok, err, ok_injective, Result-cases}
use mux.Peer.{
  Reply, accepts, rejects, OpenError, PtyInfo, attached, listed, killed, watching, inspected,
  observing, input_written, closed, connected, audio_opened, audio_provider_opened,
}
use mux.Daemon.{successor_flags}
use mux.Daemon.Upgrade.{
  ExchangeError, Texts, Report, report, upgrade_timeout, Poll, Verdict, settled, again, judge,
  poll_loop, upgrade,
}

-- One of the polls began before the timeout and was answered with a list of ptys.
pub record IsAnswered (polls : List Poll) (ptys time : ℕ) : Type 0 where
  pub before : List Poll
  pub poll : Poll
  pub after : List Poll
  pub list : List PtyInfo
  pub among : polls ≡ before ++ poll ∷ after
  pub in_time : poll.elapsed < 8000
  pub replied : poll.dialed ≡ some (ok (accepts (listed list)))
  pub counted : length list ≡ ptys
  pub timed : poll.answered ≡ time

Verdict-cases : (v : Verdict) → ((r : Report) × (v ≡ settled r)) ⊎ ((e : OpenError) × (v ≡ again e))
Verdict-cases (settled r) = inl (r, refl)
Verdict-cases (again e) = inr (e, refl)

settled_injective : {r s : Report} → settled r ≡ settled s → r ≡ s
settled_injective h = cc

no_success : {A : Type 0} {e : OpenError} {a : ℕ × ℕ} → settled (err e) ≡ settled (ok a) → A
no_success h = absurd (cc (settled_injective h))

judge-settled :
    (t : Texts) (last : OpenError) (p : Poll) (d : Option (Result ExchangeError Reply))
    (ptys time : ℕ)
    → judge t last p d ≡ settled (ok (ptys, time))
    → (list : List PtyInfo) × (d ≡ some (ok (accepts (listed list))))
      × (length list ≡ ptys)
      × (p.answered ≡ time)
unfolding judge
judge-settled t last p none ptys time h = absurd (cc h)
judge-settled t last p (some (err e)) ptys time h = absurd (cc h)
judge-settled t last p (some (ok (rejects e))) ptys time h = absurd (cc h)
judge-settled t last p (some (ok (accepts (listed list)))) ptys time h =
    let same = ok_injective (settled_injective h) in
    (list, refl, ap (λ (x : ℕ × ℕ). x.0) same, ap (λ (x : ℕ × ℕ). x.1) same)
judge-settled t last p (some (ok (accepts (attached name created)))) ptys time h = no_success h
judge-settled t last p (some (ok (accepts (killed existed)))) ptys time h = no_success h
judge-settled t last p (some (ok (accepts watching))) ptys time h = no_success h
judge-settled t last p (some (ok (accepts (inspected s)))) ptys time h = no_success h
judge-settled t last p (some (ok (accepts observing))) ptys time h = no_success h
judge-settled t last p (some (ok (accepts (input_written n r)))) ptys time h = no_success h
judge-settled t last p (some (ok (accepts (closed e)))) ptys time h = no_success h
judge-settled t last p (some (ok (accepts connected))) ptys time h = no_success h
judge-settled t last p (some (ok (accepts (audio_opened n)))) ptys time h = no_success h
judge-settled t last p (some (ok (accepts audio_provider_opened))) ptys time h = no_success h

later :
    (p : Poll) (ps : List Poll) {ptys time : ℕ}
    → IsAnswered ps ptys time
    → IsAnswered (p ∷ ps) ptys time
later p ps w = record {
  before = p ∷ w.before;
  poll = w.poll;
  after = w.after;
  list = w.list;
  among = ap (◌∷◌ p) w.among;
  in_time = w.in_time;
  replied = w.replied;
  counted = w.counted;
  timed = w.timed;
}

poll_loop-IsAnswered :
    (t : Texts) (last : OpenError) (ps : List Poll) (ptys time : ℕ)
    → poll_loop t last ps ≡ some (ok (ptys, time))
    → IsAnswered ps ptys time
unfolding poll_loop
poll_loop-IsAnswered t last [] ptys time h = absurd (cc h)
poll_loop-IsAnswered t last (p ∷ ps) ptys time h =
    elim (Bool-cases (ltb p.elapsed upgrade_timeout)) [
      | inr e ↦ absurd (cc (some_injective (rw (e, poll_loop) at h)))
      | inl e ↦ elim (Verdict-cases (judge t last p p.dialed)) [
        | inr (x, j) ↦
            later p ps (poll_loop-IsAnswered t x ps ptys time (rw (e, j, poll_loop) at h))
        | inl (r, j) ↦
            let same : r ≡ ok (ptys, time) = some_injective (rw (e, j, poll_loop) at h) in
            let (list, replied, counted, timed) =
              judge-settled t last p p.dialed ptys time (j ∙ ap settled same) in
            record {
              before = [];
              poll = p;
              after = ps;
              list = list;
              among = refl;
              in_time = ltb→lt p.elapsed upgrade_timeout e;
              replied = replied;
              counted = counted;
              timed = timed;
            }
      ]
    ]

poll_loop_ends :
    (t : Texts) (last : OpenError) (ps : List Poll)
    → any (λ (p : Poll). leb 8000 p.elapsed) ps ≡ true
    → poll_loop t last ps ≢ none
unfolding poll_loop
poll_loop_ends t last [] late h = cc late
poll_loop_ends t last (p ∷ ps) late h = elim (Bool-cases (ltb p.elapsed upgrade_timeout)) [
  | inr e ↦ cc (rw (e, poll_loop) at h)
  | inl e ↦ elim (Verdict-cases (judge t last p p.dialed)) [
    | inl (r, j) ↦ cc (rw (e, j, poll_loop) at h)
    | inr (x, j) ↦ poll_loop_ends t x ps (ground (arith, late, e)) (rw (e, j, poll_loop) at h)
  ]
]

report-zero : (r : Report) → report r ≡ 0 → (a : ℕ × ℕ) × (r ≡ ok a)
unfolding report
report-zero (ok a) h = (a, refl)
report-zero (err e) h = absurd (omega (arith, h))

-- `muxd upgrade` exits with 0 only where its successor was spawned and one of its polls, begun within
-- 8 s, was answered with a list of ptys.
pub upgrade-IsAnswered :
    (t : Texts) (args : List String) (spawn_failed : Option String) (polls : List Poll) (r : Report)
    → upgrade t args spawn_failed polls ≡ some r
    → report r ≡ 0
    → (spawn_failed ≡ none) × ((a : ℕ × ℕ) × IsAnswered polls a.0 a.1)
unfolding upgrade
upgrade-IsAnswered t args spawn_failed polls r h zero =
    let (a, good) = report-zero r zero in
    let h = h ∙ ap some good in
    elim (Result-cases (successor_flags args)) [
      | inr (e, bad) ↦ absurd (cc (some_injective (rw (bad, upgrade) at h)))
      | inl (flags, fine) ↦ elim (Option-cases spawn_failed) [
        | inr (x, bad) ↦ absurd (cc (some_injective (rw (fine, bad, upgrade) at h)))
        | inl spawned ↦ (
          spawned,
          (a, poll_loop-IsAnswered t _ polls a.0 a.1 (rw (fine, spawned, upgrade) at h)),
        )
      ]
    ]

-- A run of `muxd upgrade` in which a poll would begin 8 s or more after the start has come to its
-- report, whatever its successor and the daemons answer.
pub upgrade_ends :
    (t : Texts) (args : List String) (spawn_failed : Option String) (polls : List Poll)
    → any (λ (p : Poll). leb 8000 p.elapsed) polls ≡ true
    → upgrade t args spawn_failed polls ≢ none
unfolding upgrade
upgrade_ends t args spawn_failed polls late h = elim (Result-cases (successor_flags args)) [
  | inr (e, bad) ↦ cc (rw (bad, upgrade) at h)
  | inl (flags, fine) ↦ elim (Option-cases spawn_failed) [
    | inr (x, bad) ↦ cc (rw (fine, bad, upgrade) at h)
    | inl spawned ↦ poll_loop_ends t _ polls late (rw (fine, spawned, upgrade) at h)
  ]
]
