-- ===== src/Client/Reconnect/Paced.antt =====
-- main.rs: how a relay waits for a daemon that went away.
use mathlib.Core.Path.{subst}
use mux.Prelude.{
  ℕ, suc, ◌+◌, ◌≤◌, ◌<◌, ◌≡◌, ◌≢◌, refl, ap, ◌⊎◌, inl, inr, Bool, true, false, not, ◌&&◌, List, [],
  ◌∷◌, ◌++◌, Option, none, some, if◌then◌else◌, ltb, ltb→lt, any, min, ◌*◌, append_assoc,
  append-nil, sym, All, All-append, arith, Bool-cases, str_eq,
}
use mux.Prelude.Results.{ok, err}
use mux.Client.{Attach}
use mux.Client.Reconnect.{
  reconnect_notify, respawn_after, still_retrying, recreated, cannot_attach, cannot_reattach,
  Action, notice, sleep, dial, request, Dialed, no_socket, answered, Turn, Waiting, fresh_wait,
  Outcome, left, notify_due, before_dial, next_wait, after_dial, reconnect, turn_end,
}

-- An action of a wait comes when it is due.
abbrev pub IsPaced : Action → Type 0
IsPaced (sleep d) = (100 ≤ d) × (d ≤ 2000)
IsPaced (dial true elapsed) = 5000 ≤ elapsed
IsPaced (dial false elapsed) = elapsed < 5000
IsPaced (notice elapsed still_retrying) = 30000 < elapsed
IsPaced (notice elapsed _) = Unit
IsPaced (request mode) = Unit

-- Each dial has its own sleep before it, which comes after the last dial: the next one is of `pause`,
-- and the one after it of twice as long, up to 2000 ms.
abbrev pub IsSpaced : (pause : ℕ) → (slept : Bool) → List Action → Type 0
IsSpaced pause slept [] = Unit
IsSpaced pause slept (sleep d ∷ actions) =
    (slept ≡ false) × (d ≡ pause) × IsSpaced (min (pause * 2) 2000) true actions
IsSpaced pause slept (dial spawn elapsed ∷ actions) = (slept ≡ true) × IsSpaced pause false actions
IsSpaced pause slept (_ ∷ actions) = IsSpaced pause slept actions

-- Neither a sleep nor a dial.
abbrev IsQuiet : Action → Type 0
IsQuiet (sleep d) = ⊥
IsQuiet (dial spawn elapsed) = ⊥
IsQuiet _ = Unit

quiet-IsSpaced :
    (pause : ℕ) (slept : Bool) (xs ys : List Action)
    → All IsQuiet xs
    → IsSpaced pause slept ys
    → IsSpaced pause slept (xs ++ ys)
quiet-IsSpaced pause slept [] ys q h = h
quiet-IsSpaced pause slept (notice elapsed n ∷ xs) ys (q, qs) h =
    quiet-IsSpaced pause slept xs ys qs h
quiet-IsSpaced pause slept (request mode ∷ xs) ys (q, qs) h = quiet-IsSpaced pause slept xs ys qs h
quiet-IsSpaced pause slept (sleep d ∷ xs) ys (q, qs) h = absurd q
quiet-IsSpaced pause slept (dial spawn elapsed ∷ xs) ys (q, qs) h = absurd q

told-IsSpaced :
    (told : Bool) (n pause elapsed : ℕ) (spawn : Bool) (ys : List Action)
    → IsSpaced (min (pause * 2) 2000) false ys
    → IsSpaced pause false (
        ((if told then notice n still_retrying ∷ [] else [])
          ++ (sleep pause ∷ dial spawn elapsed ∷ []))
        ++ ys)
told-IsSpaced true n pause elapsed spawn ys h = (refl, refl, (refl, h))
told-IsSpaced false n pause elapsed spawn ys h = (refl, refl, (refl, h))

-- How often the terminal is told that the wait is unusual.
unfoldable pub alarms : List Action → ℕ
alarms [] = 0
alarms (notice elapsed still_retrying ∷ actions) = suc (alarms actions)
alarms (_ ∷ actions) = alarms actions

alarms-append : (xs ys : List Action) → alarms (xs ++ ys) ≡ alarms xs + alarms ys
unfolding alarms
alarms-append [] ys = omega arith
alarms-append (notice elapsed still_retrying ∷ xs) ys = omega (arith, alarms-append xs ys)
alarms-append (notice elapsed recreated ∷ xs) ys = omega (arith, alarms-append xs ys)
alarms-append (notice elapsed (cannot_attach e) ∷ xs) ys = omega (arith, alarms-append xs ys)
alarms-append (notice elapsed (cannot_reattach e) ∷ xs) ys = omega (arith, alarms-append xs ys)
alarms-append (sleep d ∷ xs) ys = omega (arith, alarms-append xs ys)
alarms-append (dial spawn elapsed ∷ xs) ys = omega (arith, alarms-append xs ys)
alarms-append (request mode ∷ xs) ys = omega (arith, alarms-append xs ys)

-- How often it may still be told.
abbrev allowed : Bool → ℕ
allowed true = 0
allowed false = 1

dial-IsPaced : (elapsed : ℕ) → IsPaced (dial (not (ltb elapsed respawn_after)) elapsed)
dial-IsPaced elapsed = elim (Bool-cases (ltb elapsed respawn_after)) [
  | inl e ↦ rw e (ltb→lt elapsed respawn_after e)
  | inr e ↦ rw e (ground arith)
]

IsSane : Waiting → Type 0
IsSane v = (100 ≤ v.backoff) × (v.backoff ≤ 2000)

next_wait-IsSane : (v : Waiting) (t : Turn) → IsSane v → IsSane (next_wait v t)
unfolding IsSane
next_wait-IsSane v t (low, high) = (omega arith, omega arith)

before_dial-IsPaced :
    (v : Waiting) (t : Turn)
    → IsSane v
    → All IsPaced (before_dial v t)
      × (alarms (before_dial v t) + allowed (next_wait v t).notified ≡ allowed v.notified)
unfolding alarms IsSane
before_dial-IsPaced v t sane = elim (Bool-cases v.notified) [
  | inl e ↦ rw e ((sane, (dial-IsPaced t.after, tt)), omega arith)
  | inr e ↦ elim (Bool-cases (ltb reconnect_notify t.before)) [
    | inl due ↦
        rw (e, due)
          ((ltb→lt reconnect_notify t.before due, (sane, (dial-IsPaced t.after, tt))), omega arith)
    | inr early ↦ rw (e, early) ((sane, (dial-IsPaced t.after, tt)), omega arith)
  ]
]

-- What the dial of a turn leads to.
record IsTurn (v : Waiting) (r : Option Outcome × List Action × Waiting) : Type 0 where
  paced : All IsPaced r.1
  silent : All IsQuiet r.1
  quiet : alarms r.1 ≡ 0
  kept : (r.2.backoff ≡ v.backoff) × (r.2.notified ≡ v.notified)
  stays : r.0 ≢ some left

answered-IsTurn :
    (a : Attach) (reopening : Bool) (v : Waiting) (t : Turn) (d : Dialed)
    → t.dialed ≡ d
    → IsTurn v (after_dial a reopening v t)
unfolding after_dial alarms
answered-IsTurn a reopening v t no_socket e =
    rw (e, after_dial)
      (record { paced = tt; silent = tt; quiet = refl; kept = (refl, refl); stays = λ h. cc h })
answered-IsTurn a reopening v t (answered (ok true)) e =
    rw (e, after_dial)
      (record {
        paced = (tt, (tt, tt));
        silent = (tt, (tt, tt));
        quiet = refl;
        kept = (refl, refl);
        stays = λ h. cc h;
      })
answered-IsTurn a reopening v t (answered (ok false)) e =
    rw (e, after_dial)
      (record {
        paced = (tt, tt);
        silent = (tt, tt);
        quiet = refl;
        kept = (refl, refl);
        stays = λ h. cc h;
      })
answered-IsTurn a reopening v t (answered (err detail)) e =
    elim (Bool-cases (a.require_existing && not (str_eq detail v.last_error))) [
      | inl new ↦
          rw (e, new, after_dial)
            (record {
              paced = (tt, (tt, tt));
              silent = (tt, (tt, tt));
              quiet = refl;
              kept = (refl, refl);
              stays = λ h. cc h;
            })
      | inr same ↦
          rw (e, same, after_dial)
            (record {
              paced = (tt, tt);
              silent = (tt, tt);
              quiet = refl;
              kept = (refl, refl);
              stays = λ h. cc h;
            })
    ]

after_dial-IsTurn :
    (a : Attach) (reopening : Bool) (v : Waiting) (t : Turn) → IsTurn v (after_dial a reopening v t)
after_dial-IsTurn a reopening v t = answered-IsTurn a reopening v t t.dialed refl

kept-IsSane : (v v' : Waiting) → v'.backoff ≡ v.backoff → IsSane v → IsSane v'
unfolding IsSane
kept-IsSane v v' same (low, high) = (omega (arith, same), omega (arith, same))

-- What holds of a wait that goes on from `v`.
record IsWait (v : Waiting) (ts : List Turn) (r : Outcome × List Action) : Type 0 where
  on_time : All IsPaced r.1
  once : alarms r.1 ≤ allowed v.notified
  spaced : IsSpaced v.backoff false r.1
  stays : (r.0 ≢ left) ⊎ (any (λ (t : Turn). t.stdin_closed) ts ≡ true)

-- One more turn in front.
turn-IsWait :
    (v v' v'' : Waiting) (t : Turn) (ts : List Turn) (end : Option Outcome)
    (before after : List Action) (rest : Outcome × List Action)
    → All IsPaced before × (alarms before + allowed v'.notified ≡ allowed v.notified)
    → ((ys : List Action) → IsSpaced v'.backoff false ys → IsSpaced v.backoff false (before ++ ys))
    → IsTurn v' (end, after, v'')
    → IsWait v'' ts rest
    → IsWait v (t ∷ ts) (turn_end end (before ++ after) rest)
turn-IsWait v v' v'' t ts (some end) before after rest (paced, due) gaps turn wait = record {
  on_time = All-append IsPaced before after paced turn.paced;
  once = omega (arith, alarms-append before after, due, turn.quiet);
  spaced = gaps after (
      subst (IsSpaced v'.backoff false) (append-nil after)
        (quiet-IsSpaced v'.backoff false after [] turn.silent tt));
  stays = inl (λ h. turn.stays (ap some h));
}
turn-IsWait v v' v'' t ts none before after rest (paced, due) gaps turn wait =
    let same = ap allowed turn.kept.1 in
    record {
      on_time =
          All-append IsPaced (before ++ after) rest.1
            (All-append IsPaced before after paced turn.paced) wait.on_time;
      once = omega (
        arith,
        alarms-append (before ++ after) rest.1,
        alarms-append before after,
        due,
        turn.quiet,
        wait.once,
        same,
      );
      spaced = subst (IsSpaced v.backoff false) (sym (append_assoc before after rest.1)) (
          gaps (after ++ rest.1) (
            quiet-IsSpaced v'.backoff false after rest.1 turn.silent
              (subst (λ d. IsSpaced d false rest.1) turn.kept.0 wait.spaced)));
      stays = later wait.stays;
    }
  where
    later :
        (rest.0 ≢ left) ⊎ (any (λ (t : Turn). t.stdin_closed) ts ≡ true)
        → (rest.0 ≢ left) ⊎ (any (λ (t : Turn). t.stdin_closed) (t ∷ ts) ≡ true)
    later (inl h) = inl h
    later (inr h) = inr (ground (arith, h))

closed-IsWait :
    (v : Waiting) (t : Turn) (ts : List Turn) (r : Outcome × List Action) (closed : Bool)
    → t.stdin_closed ≡ closed
    → IsWait v (t ∷ ts) r
    → IsWait v (t ∷ ts) (if closed then (left, []) else r)
unfolding alarms
closed-IsWait v t ts r true e w = record {
  on_time = tt;
  once = omega arith;
  spaced = tt;
  stays = inr (ground (arith, e));
}
closed-IsWait v t ts r false e w = w

reconnect-IsWait :
    (a : Attach) (reopening : Bool) (v : Waiting) (ts : List Turn)
    → IsSane v
    → IsWait v ts (reconnect a reopening v ts)
unfolding reconnect alarms
reconnect-IsWait a reopening v [] sane = record {
  on_time = tt;
  once = omega arith;
  spaced = tt;
  stays = inl (λ h. cc h);
}
reconnect-IsWait a reopening v (t ∷ ts) sane =
    let v' = next_wait v t in
    let turn = after_dial-IsTurn a reopening v' t in
    let sane' = next_wait-IsSane v t sane in
    let r = after_dial a reopening v' t in
    let rest = reconnect-IsWait a reopening r.2 ts (kept-IsSane v' r.2 turn.kept.0 sane') in
    closed-IsWait v t ts _ t.stdin_closed refl (
      turn-IsWait v v' r.2 t ts r.0 (before_dial v t) r.1 (reconnect a reopening r.2 ts)
        (before_dial-IsPaced v t sane)
        (told-IsSpaced (notify_due v t) t.before v.backoff t.after
          (not (ltb t.after respawn_after)))
        turn rest)

-- While a relay waits for its daemon, whatever the daemon and the clock do: it sleeps once before
-- each dial, for 100 ms at first and then for twice as long each time, up to 2000 ms; none of the
-- dials of the first 5 s starts a daemon and every later one may, it tells the terminal that the
-- wait is unusual at most once and only after 30 s, and it does not give up unless the pane died.
pub reconnect-IsPaced :
    (a : Attach) (reopening : Bool) (ts : List Turn)
    → IsSpaced 100 false (reconnect a reopening fresh_wait ts).1
      × (All IsPaced (reconnect a reopening fresh_wait ts).1)
      × (alarms (reconnect a reopening fresh_wait ts).1 ≤ 1)
      × (((reconnect a reopening fresh_wait ts).0 ≢ left)
          ⊎ (any (λ (t : Turn). t.stdin_closed) ts ≡ true))
unfolding IsSane
reconnect-IsPaced a reopening ts =
    let w = reconnect-IsWait a reopening fresh_wait ts (omega arith, omega arith) in
    (w.spaced, w.on_time, w.once, w.stays)
