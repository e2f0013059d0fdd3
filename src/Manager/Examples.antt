-- ===== src/Manager/Examples.antt =====
-- A table with one shell in it: an open, a close, a handoff, and what the theorems say there.
use mux.Prelude.{
  ℕ, ◌≡◌, refl, Bool, true, false, not, [], ◌∷◌, ◌++◌, none, some, arith, if◌then◌else◌, leb,
  is_some, lookup, insert, All,
}
use mux.Prelude.Int.{ℤ, pos}
use mux.Agents.Gate.{Matcher}
use mux.Prelude.Results.{ok}
use mux.Terminal.{new}
use mux.Terminal.Recorder.{recorder}
use mux.Session.{PtySession, Kernel}
use mux.Session.Shell.{shell}
use mux.Manager.{
  expired, io_failed, done, fails, read_loop, close_at, Received, Manager, empty, find, put,
  open_pty,
}
use mux.Manager.Valid.{IsValid, insert-IsValid}
use mux.Manager.Lease.{close_for, expire, reopen}
use mux.Manager.Lease.Stale.{expire-reopen, close_for-close_for, reopen-close_for, expire-close_for}
use mux.Manager.Open.{open_pty_lem}
use mux.Manager.Adopt.{stage_one, adopt_many}
use mux.Manager.Adopt.Held.{Holds}
use mux.Manager.Adopt.Atomic.{adopt_many_refused, adopt_many_taken}
use mux.Manager.Keeps.{open_pty-IsValid}
use mux.Manager.Adopt.Valid.{nothing_staged}
use mux.Manager.Calls.{Call, opens, closes, detects, perform, calls, here, next, Run-IsValid}

abbrev kernel : Kernel
kernel = record { foreground_pgid = none; process_cwd = λ pid. none }

abbrev bare : Manager recorder
bare = empty

-- After `open` of "p1", whose child is the process 100.
abbrev opened : Manager recorder
opened = (open_pty "p1" [] 80 24 (some (pos 100)) 7 bare).0

opened_done : (open_pty "p1" [] 80 24 (some (pos 100)) 7 bare).1 ≡ done (0, true)
unfolding open_pty find lookup new
opened_done = refl

open_pty_lem_example :
    ((s : PtySession recorder) × (find "p1" opened.shelf ≡ some (0, s)) × (s.close_deadline ≡ none))
    × (true ≡ not (is_some (find "p1" bare.shelf)))
    × ((pid : ℤ) × (opened.spawned ≡ bare.spawned ++ pid ∷ [])
        × (opened.tasks ≡ bare.tasks ++ read_loop 0 ∷ []))
open_pty_lem_example = open_pty_lem "p1" [] 80 24 (some (pos 100)) 7 bare 0 true opened_done

opened-IsValid : IsValid opened.shelf
opened-IsValid = open_pty-IsValid "p1" [] 80 24 (some (pos 100)) 7 bare (nothing_staged [])

-- Its lease runs from the time 5 on, for 60 seconds.
abbrev leased : Manager recorder
leased = (close_for "p1" 60_000 5 opened).0

leased_done : (close_for "p1" 60_000 5 opened).1 ≡ done 60_005
unfolding close_for open_pty find lookup new insert
leased_done = refl

close_for-close_for_example : (close_for "p1" 90_000 70 leased).1 ≡ done 60_005
close_for-close_for_example = close_for-close_for "p1" 60_000 5 90_000 70 opened 60_005 leased_done

reopen-close_for_example :
    (i : ℕ) × (s : PtySession recorder) × (find "p1" opened.shelf ≡ some (i, s))
    × (reopen "p1" 60_005 leased ≡ (
        if leb 60_005 60_005
        then (leased, fails expired)
        else (put i (record s { close_deadline = none }) leased, done (i, false))))
reopen-close_for_example = reopen-close_for "p1" 60_000 5 60_005 opened 60_005 leased_done

reopened_done : (reopen "p1" 60_004 leased).1 ≡ done (0, false)
unfolding reopen close_for open_pty find lookup new insert
reopened_done = refl

expire-reopen_example :
    expire kernel "p1" 7 60_005 (reopen "p1" 60_004 leased).0 ≡ (reopen "p1" 60_004 leased).0
expire-reopen_example = expire-reopen kernel "p1" 60_004 7 60_005 leased 0 false reopened_done

-- A valid table with the shell of the other modules in it.
abbrev with_shell : Manager recorder
with_shell = record bare { shelf = record { sessions = shell ∷ []; table = ("p1", 0) ∷ [] } }

with_shell-IsValid : IsValid with_shell.shelf
unfolding insert
with_shell-IsValid = insert-IsValid bare.shelf shell (omega arith) (nothing_staged [])

shell_closed : (close_for "p1" 60_000 5 with_shell).1 ≡ done 60_005
unfolding close_for find lookup
shell_closed = refl

-- Its lease, after a client has come and the screen has changed.
abbrev leased_shell : PtySession recorder
leased_shell = record shell {
  close_deadline = some 60_005;
  revision = 4;
  client = some (record { id = 3; connection = none });
}

abbrev later : Manager recorder
later = record bare { shelf = record { sessions = leased_shell ∷ []; table = ("p1", 0) ∷ [] } }

shell_found : find "p1" with_shell.shelf ≡ some (0, shell)
unfolding find lookup
shell_found = refl

later_found : find "p1" later.shelf ≡ some (0, leased_shell)
unfolding find lookup
later_found = refl

expire-close_for_example :
    ((close_for "p1" 60_000 5 with_shell).0.tasks
      ≡ with_shell.tasks ++ close_at "p1" shell.generation 60_005 ∷ [])
    × (find "p1" (expire kernel "p1" shell.generation 60_005 later).shelf ≡ none)
    × ((expire kernel "p1" shell.generation 60_005 later).terminated
        ≡ later.terminated ++ leased_shell.child ∷ [])
expire-close_for_example =
    expire-close_for kernel "p1" 60_000 5 with_shell 60_005 0 shell later 0 leased_shell
      with_shell-IsValid shell_found shell_closed later_found refl refl

-- A predecessor hands over "p2", which it was about to close.
abbrev handed : Bool → Received
handed nonblocking = record {
  pty = record {
    name = "p2";
    command = [];
    child_pid = pos 200;
    cols = 80;
    rows = 24;
    screen = 104 ∷ [];
    close_deadline = some 60_000;
  };
  nonblocking = nonblocking;
  registered = true;
  generation = 9;
}

refused : (adopt_many (handed false ∷ []) opened).1 ≡ fails io_failed
unfolding adopt_many stage_one
refused = refl

adopt_many_refused_example : (adopt_many (handed false ∷ []) opened).0 ≡ opened
adopt_many_refused_example = adopt_many_refused (handed false ∷ []) opened io_failed refused

taken : (adopt_many (handed true ∷ []) bare).1 ≡ done tt
unfolding adopt_many stage_one new lookup insert
taken = refl

adopt_many_taken_example :
    All (Holds (adopt_many (handed true ∷ []) bare).0.shelf) (handed true ∷ [])
adopt_many_taken_example = adopt_many_taken (handed true ∷ []) bare taken

abbrev first_call : Call
first_call = opens "p1" [] 80 24 (some (pos 100)) 7

abbrev second_call : Call
second_call = closes "p1" 60_000 5

-- An engine whose patterns match nothing, and no manifests.
abbrev no_words : Matcher
no_words = record {
  Regex = ℕ;
  new_regex = λ pattern. ok 0;
  is_match = λ r text. false;
  to_lowercase = λ text. text;
}

abbrev third_call : Call
third_call = detects none kernel true 0

Run-IsValid_example :
    IsValid
      (perform no_words
        (λ agent. none)
        third_call
        (perform no_words
          (λ agent. none)
          second_call
          (perform no_words (λ agent. none) first_call bare))).shelf
Run-IsValid_example =
    Run-IsValid no_words (λ agent. none) (nothing_staged [])
      (next (next (next here (calls first_call refl)) (calls second_call refl))
        (calls third_call refl))
