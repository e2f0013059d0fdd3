-- ===== src/Broker/Examples.antt =====
-- A host that is dialed for the first time, and again; and a request that goes there.
use mux.Prelude.{◌≡◌, refl, true, [], ◌∷◌, Option, none, some, All}
use mux.Prelude.Results.{ok}
use mux.Text.{Text, codes, lines, split_whitespace}
use mux.Text.Strings.{to_string}
use mux.Text.Split.{is_field}
use mux.Frame as frame
use mux.Terminal.Recorder.{recorder}
use mux.Peer.{OpenRequest, list}
use mux.Session.{Kernel}
use mux.Server.{Wire, Answers, whole}
use mux.Broker.Pins.{Access, written_whole, broken_off, KnownHosts, check_alias, check_pin}
use mux.Broker.Pins.Found.{IsSound}
use mux.Broker.Pins.Trust.{here, next, check_pin-Contacts}
use mux.Broker.Links.{no_links, settle}
use mux.Broker.Links.Owned.{Run, settles, IsOwned, Run-IsOwned}
use mux.Broker.Stream.{Outside, content}
use mux.Broker.Stream.Relayed.{delivered}

abbrev access : Access
access = record { readable = true; append = written_whole }

abbrev known : KnownHosts
known = some (codes "box sha256:AA\n")

known-IsSound : IsSound known
unfolding IsSound lines split_whitespace
known-IsSound = (refl, (refl, tt))

abbrev spark : Text
spark = codes "spark"

abbrev key : Text
key = codes "sha256:BB"

spark_valid : check_alias spark ≡ true
unfolding check_alias
spark_valid = refl

key_field : is_field key ≡ true
unfolding is_field
key_field = refl

first_contact : (check_pin access spark key known).1 ≡ ok (some key)
unfolding check_pin
first_contact = refl

-- The disk is full after five letters.
abbrev full_disk : Access
full_disk = record { readable = true; append = broken_off 5 }

abbrev other_host : Text
other_host = codes "desk"

other_valid : check_alias other_host ≡ true
unfolding check_alias
other_valid = refl

second_contact :
    (check_pin access spark key
      (check_pin full_disk other_host key (check_pin access spark key known).0).0).1
    ≡ ok none
unfolding check_pin
second_contact = refl

check_pin-Contacts_example : (key ≡ key) × ◌≡◌ {A = Option Text} none none
check_pin-Contacts_example =
    check_pin-Contacts known spark access access key key known-IsSound spark_valid key_field
      first_contact (next full_disk other_host key here other_valid key_field) second_contact

-- A line without a fingerprint: each contact is a first one, whatever key is presented.
abbrev bare : KnownHosts
bare = some (codes "spark\n")

never_pinned :
    ((check_pin access spark key bare).1 ≡ ok (some key))
    × ((check_pin access spark (codes "sha256:CC") (check_pin access spark key bare).0).1
        ≡ ok (some (codes "sha256:CC")))
unfolding check_pin
never_pinned = (refl, refl)

race : Run (settle "spark" 2 (settle "spark" 1 no_links).0).0 (2 ∷ 1 ∷ [])
race = Run.next (Run.next Run.here (settles "spark" 1)) (settles "spark" 2)

Run-IsOwned_example : All (IsOwned (settle "spark" 2 (settle "spark" 1 no_links).0).0) (2 ∷ 1 ∷ [])
Run-IsOwned_example = Run-IsOwned race

abbrev request : OpenRequest
request = record {
  version = 7;
  cols = 80;
  rows = 24;
  term = none;
  token = none;
  target = some "spark";
  mode = list;
}

abbrev token : Text
token = codes "handed-out"

abbrev outside : Outside
outside = record {
  hosts = content (("spark", "box.local") ∷ []);
  override = content (codes " handed-out\n");
  client_token = none;
  dialed = ok 4;
  stream_opened = true;
}

abbrev wire : Wire
wire = record {
  decode_version = λ bytes. some 13;
  decode_request = λ bytes. some (delivered (to_string token) request);
  encode_reply = λ r. 5 ∷ [];
  encode_event = λ e. 6 ∷ [];
  digest = λ t. 1;
  failure_text = λ f. "failed";
  input_text = λ e. "not written";
  timeout_text = "timed out";
  target_text = λ h. h;
}

abbrev kernel : Kernel
kernel = record { foreground_pgid = none; process_cwd = λ pid. none }

abbrev answers : Answers recorder
answers = record {
  kernel = λ s. kernel;
  victim = kernel;
  now = 5;
  generation = 7;
  spawn = λ cwd term. none;
  delivery = whole;
}
