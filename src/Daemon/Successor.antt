-- ===== src/Daemon/Successor.antt =====
-- main.rs: the flags that a supervisor hands to the successor of a daemon.
use mux.Prelude.{
  ◌≡◌, refl, ap, inl, inr, true, List, [], ◌∷◌, Option, none, some, String, or_else, map_or,
  Bool-cases, Option-cases,
}
use mux.Prelude.Results.{ok, ◌>>=◌, >>=-eq-ok, ok_injective}
use mux.Daemon.{
  Platform, Valued, socket_flag, listen_flag, tokens_flag, Flag, audio_flag, upgrade_flag, unknown,
  valued, flag, Collected, Args, nothing_collected, parse_listen, with_value, on_flag, collect,
  parse_args, successor_flags, daemon_args,
}

-- What a successor collects on top of its flags.
abbrev over : (p : Platform) → String → Collected p → Collected p
over p path a = record a { socket_path = or_else a.socket_path (some path); is_upgrade = true }

module _ (p : Platform) (path : String) where
  with_value-over :
      (v : Valued) (value : String) (a b : Collected p)
      → with_value p v value a ≡ ok b
      → with_value p v value (over p path a) ≡ ok (over p path b)
  unfolding with_value
  with_value-over socket_flag value a b h =
      ap (λ (x : Collected p). ok (over p path x)) (ok_injective h)
  with_value-over tokens_flag value a b h =
      ap (λ (x : Collected p). ok (over p path x)) (ok_injective h)
  with_value-over listen_flag value a b h = elim (Option-cases (parse_listen p value)) [
    | inl e ↦ absurd (cc (rw (e, with_value) at h))
    | inr (addr, e) ↦
        rw (e, with_value)
          (ap (λ (x : Collected p). ok (over p path x)) (ok_injective (rw (e, with_value) at h)))
  ]

  on_flag-over :
      (arg : String) (f : Flag) (a b : Collected p) (v : Option Valued)
      → on_flag p arg f a ≡ ok (v, b)
      → on_flag p arg f (over p path a) ≡ ok (v, over p path b)
  unfolding on_flag
  on_flag-over arg audio_flag a b v h = elim (Bool-cases p.is_linux) [
    | inr e ↦ absurd (cc (rw (e, on_flag) at h))
    | inl e ↦
        rw (e, on_flag)
          (ap (λ (x : Option Valued × Collected p). ok (x.0, over p path x.1))
            (ok_injective (rw (e, on_flag) at h)))
  ]
  on_flag-over arg upgrade_flag a b v h =
      ap (λ (x : Option Valued × Collected p). ok (x.0, over p path x.1)) (ok_injective h)
  on_flag-over arg unknown a b v h = absurd (cc h)
  on_flag-over arg (valued w) a b v h =
      ap (λ (x : Option Valued × Collected p). ok (x.0, over p path x.1)) (ok_injective h)

  collect-over :
      (args : List String) (v : Option Valued) (a b : Collected p)
      → collect p args v a ≡ ok b
      → collect p args v (over p path a) ≡ ok (over p path b)
  unfolding collect
  collect-over [] none a b h = ap (λ (x : Collected p). ok (over p path x)) (ok_injective h)
  collect-over [] (some v) a b h = absurd (cc h)
  collect-over (value ∷ args) (some v) a b h =
      let (a', one, rest) = >>=-eq-ok (with_value p v value a) (λ a'. collect p args none a') h in
      rw (with_value-over v value a a' one) (collect-over args none a' b rest)
  collect-over (arg ∷ args) none a b h =
      let (r, one, rest) = >>=-eq-ok (on_flag p arg (flag arg) a) (λ r. collect p args r.0 r.1) h in
      rw (on_flag-over arg (flag arg) a r.1 r.0 one) (collect-over args r.0 r.1 b rest)

socket-or_else :
    (o : Option String) (path default : String)
    → map_or default (λ s. s) (or_else o (some path)) ≡ map_or path (λ s. s) o
socket-or_else none path default = refl
socket-or_else (some s) path default = refl

collect-daemon_args :
    (p : Platform) (path : String) (flags : List String)
    → collect p (daemon_args path ("--upgrade" ∷ flags)) none (nothing_collected p)
      ≡ collect p flags none (over p path (nothing_collected p))
unfolding collect flag on_flag with_value
collect-daemon_args p path flags = refl

-- Where `flags` are the command line of a daemon on the socket `path`, the successor that an upgrade
-- with these flags starts there, whatever its own default socket is, has just the options of that
-- daemon, and is an upgrade.
pub parse_args-successor_flags :
    (p : Platform) (path default : String) (flags : List String) (a : Args p)
    → parse_args p path flags ≡ ok a
    → (successor_flags ("--" ∷ flags) >>= λ fs. parse_args p default (daemon_args path fs))
      ≡ ok (record a { upgrade = true })
unfolding parse_args successor_flags
parse_args-successor_flags p path default flags a h =
    let (c, collected, done) = >>=-eq-ok (collect p flags none (nothing_collected p)) _ h in
    rw
      (
        collect-daemon_args p path flags,
        collect-over p path flags none (nothing_collected p) c collected,
        socket-or_else c.socket_path path default,
      )
      (ap (λ (x : Args p). ok (record x { upgrade = true })) (ok_injective done))
