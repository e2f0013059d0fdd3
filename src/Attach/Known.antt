-- ===== src/Attach/Known.antt =====
-- Every client id in a pane was handed out by `next_client_id`.
use mux.Prelude.{
  ℕ, suc, ◌<◌, ◌≡◌, refl, Bool, true, false, List, [], ◌∷◌, ◌++◌, Option, none, some, String,
  if◌then◌else◌, map_or, arith, All, All-append,
}
use mux.Prelude.Int.{ℤ}
use mux.Session.{ClientMsg, output, exit, foreground, AttachedClient}
use mux.Attach.View.{outputs, pending, KnownIn, InflightKnown, ClientKnown}
use mux.Attach.Seen.{bound}

pub outputs_unknown :
    (n : ℕ) (log : List (ℕ × ClientMsg)) → All (KnownIn n) log → outputs n log ≡ []
unfolding outputs
outputs_unknown n [] h = refl
outputs_unknown n ((id, output c) ∷ log) (k, h) = ground (arith, outputs_unknown n log h)
outputs_unknown n ((id, exit code) ∷ log) (k, h) = outputs_unknown n log h
outputs_unknown n ((id, foreground name) ∷ log) (k, h) = outputs_unknown n log h

pub pending_unknown :
    (n : ℕ) (inflight : Option (ℕ × List ℕ)) → InflightKnown n inflight → pending n inflight ≡ []
pending_unknown n none h = refl
pending_unknown n (some (id, chunk)) h = ground arith

pub known_later :
    (n : ℕ) (log : List (ℕ × ClientMsg)) → All (KnownIn n) log → All (KnownIn (suc n)) log
known_later n [] h = tt
known_later n ((id, m) ∷ log) (k, h) = (omega arith, known_later n log h)

pub log_append :
    (n id : ℕ) (m : ClientMsg) (log : List (ℕ × ClientMsg))
    → id < n
    → All (KnownIn n) log
    → All (KnownIn n) (log ++ (id, m) ∷ [])
log_append n id m log h k = All-append (KnownIn n) log ((id, m) ∷ []) k (h, tt)

pub bound_known :
    (n : ℕ) (chunk : List ℕ) (client : Option AttachedClient)
    → ClientKnown n client
    → InflightKnown n (bound chunk client)
bound_known n chunk none h = tt
bound_known n chunk (some c) h = h

pub waiting_known :
    (n id : ℕ) (chunk : List ℕ) {inflight : Option (ℕ × List ℕ)}
    → inflight ≡ some (id, chunk)
    → InflightKnown n inflight
    → id < n
waiting_known n id chunk e h = rw e at h

pub joined_log :
    (n : ℕ) (name : Option String) (log : List (ℕ × ClientMsg))
    → All (KnownIn n) log
    → All
        (KnownIn (suc n))
        (map_or log (λ m. log ++ (n, m) ∷ []) (map_or none (λ t. some (foreground t)) name))
joined_log n none log h = known_later n log h
joined_log n (some t) log h =
    log_append (suc n) n (foreground t) log (omega arith) (known_later n log h)

pub inflight_later :
    (n : ℕ) (inflight : Option (ℕ × List ℕ))
    → InflightKnown n inflight
    → InflightKnown (suc n) inflight
inflight_later n none h = tt
inflight_later n (some (id, chunk)) h = omega arith

pub exit_log :
    (n : ℕ) (code : ℤ) (took : Bool) (client : Option AttachedClient) (log : List (ℕ × ClientMsg))
    → ClientKnown n client
    → All (KnownIn n) log
    → All (KnownIn n) (
        map_or log
          (λ id. if took then log ++ (id, exit code) ∷ [] else log)
          (map_or none (λ c. some c.id) client))
exit_log n code took none log k h = h
exit_log n code true (some c) log k h = log_append n c.id (exit code) log k h
exit_log n code false (some c) log k h = h
