-- ===== src/Broker/Links.antt =====
-- crates/muxd/src/broker.rs: the connections that are kept for reuse, one for each alias. A
-- connection goes by a number; `closed` has those that have ended, from either side.
pub mod Owned
use mux.Prelude.{
  ℕ, Bool, true, false, List, [], ◌∷◌, Option, none, some, String, if◌then◌else◌, ◌==◌, any, Table,
  lookup, insert, remove,
}

pub record Links : Type 0 where
  pub links : Table ℕ
  pub closed : List ℕ

abbrev pub no_links : Links
no_links = record { links = []; closed = [] }

-- `close_reason().is_some()`
abbrev pub is_closed : ℕ → Links → Bool
is_closed connection s = any (λ c. c == connection) s.closed

abbrev pub close : ℕ → Links → Links
close connection s = record s { closed = connection ∷ s.closed }

unfoldable pub evict : String → Links → Links
evict alias s = elim (lookup alias s.links) [
  | none ↦ s
  | some connection ↦ close connection (record s { links = remove alias s.links })
]

unfoldable pub live : String → Links → Links × Option ℕ
live alias s = elim (lookup alias s.links) [
  | none ↦ (s, none)
  | some connection ↦
      if is_closed connection s
      then (record s { links = remove alias s.links }, none)
      else (s, some connection)
]

abbrev pub link : String → ℕ → Links → Links
link alias connection s = record s { links = insert alias connection s.links }

-- `connection` behind the dial: the one that was dialed is kept, unless a race was lost.
unfoldable pub settle : String → ℕ → Links → Links × ℕ
settle alias connection s = elim (lookup alias s.links) [
  | none ↦ (link alias connection s, connection)
  | some existing ↦
      if is_closed existing s
      then (link alias connection s, connection)
      else (close connection s, existing)
]
