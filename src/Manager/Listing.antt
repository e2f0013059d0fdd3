-- ===== src/Manager/Listing.antt =====
-- manager.rs: what is told of all ptys. The source's order of a map is any; names are distinct, so
-- sorting by name leaves one order.
pub mod Sorted
use mux.Prelude.{ℕ, List, [], ◌∷◌, map, String, if◌then◌else◌, get_elem?, Table, map_or}
use Prim.Native.String.{compare}
use text.Mathlib.Text.{is_le}
use mux.Peer.{PtyInfo, PtyEvent}
use mux.Terminal.{Ghostty}
use mux.Session.{PtySession, Kernel, info, event}
use mux.Manager.{Manager}

-- `sort_by` of the names.
unfoldable pub insert_by {ℓ} : {A : Type ℓ} → (A → String) → A → List A → List A
insert_by name x [] = x ∷ []
insert_by name x (y ∷ ys) =
    let rest = insert_by name x ys in
    if is_le (compare (name x) (name y)) then x ∷ y ∷ ys else y ∷ rest

unfoldable pub sort_by {ℓ} : {A : Type ℓ} → (A → String) → List A → List A
unfolding insert_by
sort_by name [] = []
sort_by name (x ∷ xs) = insert_by name x (sort_by name xs)

module _ {vt : Ghostty} where
  -- `HashMap::values`
  unfoldable pub values : List (PtySession vt) → Table ℕ → List (PtySession vt)
  values sessions [] = []
  values sessions ((name, i) ∷ table) =
      let rest = values sessions table in map_or rest (λ s. s ∷ rest) (get_elem? sessions i)

  abbrev pub running : List (PtySession vt) → List (PtySession vt)
  running [] = []
  running (s ∷ ss) = let rest = running ss in if s.exited then rest else s ∷ rest

  unfoldable pub live_sessions : Manager vt → List (PtySession vt)
  unfolding values sort_by
  live_sessions m = sort_by (λ s. s.name) (running (values m.sessions m.table))

  unfoldable pub list_ptys : (PtySession vt → Kernel) → Manager vt → List PtyInfo
  unfolding values sort_by info
  list_ptys k m = sort_by (λ i. i.name) (map (λ s. info (k s) s) (values m.sessions m.table))

  -- The snapshot that a watcher starts with.
  unfoldable pub watch : (PtySession vt → Kernel) → Manager vt → List PtyEvent
  unfolding values event
  watch k m = map (λ s. event (k s) s) (values m.sessions m.table)
