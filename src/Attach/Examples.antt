-- ===== src/Attach/Examples.antt =====
-- A pane over a terminal that keeps what it is fed: a run with an eviction, and the theorems there.
use mux.Prelude.{
  arith, ℕ, ◌≡◌, refl, true, false, List, [], ◌∷◌, ◌++◌, none, some, map_or, All, if◌then◌else◌,
  ◌==◌,
}
use mux.Terminal.{render_screen_bytes, feed, resize}
use mux.Session.{output, detach, feed_chunk, attach_on}
use mux.Attach.{
  Op, Joined, Pane, read, give_up, join, leave, Reach, here, next, reads, gives_up, joins, leaves,
  IsNew,
}
use mux.Terminal.Recorder.{recorder}
use mux.Session.Shell.{blank, shell}
use mux.Attach.View.{outputs, pending, chunks, replay}
use mux.Attach.Gapless.{attached_gapless, delivered_prefix}
use mux.Attach.Redump.{overtaken, redump_overtaken}
use mux.Attach.Slot.{detach-attach_on}

abbrev start : Pane recorder
start = record {
  session = shell;
  inflight = none;
  reading = true;
  log = [];
  next_client_id = 1;
  initial = blank;
  ops = [];
  joined = [];
}

start-IsNew : IsNew start
start-IsNew = record {
  no_client = refl;
  idle = refl;
  silent = refl;
  untouched = refl;
  no_ops = refl;
  nobody = refl;
}

-- Client 1 attaches, a chunk is read for it, client 2 takes its place before the chunk is sent.
abbrev stolen : Pane recorder
stolen = leave 1 (give_up 1 (join 80 24 none (read (104 ∷ []) (join 80 24 none start))))

stolen_reached : Reach start stolen
unfolding join read feed_chunk attach_on
stolen_reached =
    next
      (next
        (next
          (next (next here (joins 80 24 none (omega arith) refl)) (reads (104 ∷ []) refl refl refl))
          (joins 80 24 none (omega arith) refl))
        (gives_up 1 (104 ∷ []) refl refl))
      (leaves 1 refl)

stolen_client : stolen.session.client ≡ some (record { id = 2; connection = none })
unfolding join read feed_chunk attach_on give_up leave detach
stolen_client = refl

attached_gapless_example :
    (j : Joined recorder) × (after : List (Op recorder)) × (j.id ≡ 2)
    × (stolen.ops ≡ j.before ++ after)
    × (j.dump ≡ render_screen_bytes recorder (replay stolen.initial j.before))
    × (chunks after ≡ outputs 2 stolen.log ++ pending 2 stolen.inflight)
    × (stolen.session.terminal ≡ replay stolen.initial stolen.ops)
attached_gapless_example =
    attached_gapless (record { id = 2; connection = none }) start-IsNew stolen_reached stolen_client

delivered_prefix_example :
    All
      (λ (j : Joined recorder).
        (after : List (Op recorder)) × (missed : List (List ℕ)) × (stolen.ops ≡ j.before ++ after)
        × (j.dump ≡ render_screen_bytes recorder (replay stolen.initial j.before))
        × (chunks after ≡ outputs j.id stolen.log ++ missed))
      stolen.joined
delivered_prefix_example = delivered_prefix start-IsNew stolen_reached

detach-attach_on_example :
    ((detach 1 (attach_on 2 80 24 none shell).0).client
      ≡ (if 2 == 1 then none else some (record { id = 2; connection = none })))
    × (map_or false (λ c. c.id == 2) (attach_on 2 80 24 none shell).0.client ≡ true)
detach-attach_on_example = detach-attach_on 2 1 80 24 none shell

joined_client : (join 80 24 none start).session.client ≡ some (record { id = 1; connection = none })
unfolding join attach_on
joined_client = refl

redump_overtaken_example :
    let p : Pane recorder = join 80 24 none start in
    ((overtaken 100 30 (104 ∷ []) p 1).log
      ≡ p.log
        ++ ((1, output (104 ∷ []))
            ∷ (1, output (render_screen_bytes recorder (resize recorder p.session.terminal 30 100)))
            ∷ []))
    × ((overtaken 100 30 (104 ∷ []) p 1).session.terminal
        ≡ feed recorder (resize recorder p.session.terminal 30 100) (104 ∷ []))
redump_overtaken_example =
    redump_overtaken 100 30 (104 ∷ []) (join 80 24 none start)
      (record { id = 1; connection = none }) joined_client
