-- ===== src/Terminal.antt =====
-- crates/ghostty-vt/src/lib.rs: the terminal that the daemon keeps for each pty. The state
-- behind the handle is libghostty's, which the build fetches; `Ghostty` is the part of it that the
-- wrapper calls. Its answers are taken as values, without the buffers that they are passed in.
pub mod Recorder
use mux.Prelude.{
  ℕ, zero, suc, ◌≡◌, refl, ap, ◌≤◌, List, [], ◌∷◌, Option, none, some, String, length, arith,
  if◌then◌else◌, leb,
}
use mathlib.Core.Option

pub record CursorPosition : Type 0 where
  pub row : ℕ
  pub col : ℕ

pub record Ghostty : Type 1 where
  pub Handle : Type 0
  pub terminal_new : ℕ → ℕ → Option Handle
  pub terminal_feed : Handle → List ℕ → Handle
  pub terminal_resize : Handle → ℕ → ℕ → Handle
  pub cursor : Handle → CursorPosition
  pub dump_viewport_row : Handle → ℕ → String
  pub terminal_title : Handle → Option String
  pub render_reattach : Handle → List ℕ

-- `max(1)` of a dimension.
abbrev at_least_one : ℕ → ℕ
at_least_one zero = 1
at_least_one (suc n) = suc n

module _ (vt : Ghostty) where
  open vt use {
    Handle, terminal_new, terminal_feed, terminal_resize, cursor, dump_viewport_row, terminal_title,
    render_reattach,
  }

  pub record Terminal : Type 0 where
    pub handle : Handle
    pub rows : ℕ
    pub cols : ℕ

  abbrev with_handle : ℕ → ℕ → Option Handle → Option Terminal
  with_handle rows cols none = none
  with_handle rows cols (some h) = some (record { handle = h; rows = rows; cols = cols })

  unfoldable pub new : ℕ → ℕ → Option Terminal
  new rows cols =
      let rows = at_least_one rows in
      let cols = at_least_one cols in with_handle rows cols (terminal_new cols rows)

  unfoldable pub feed : Terminal → List ℕ → Terminal
  feed t bytes = record t { handle = terminal_feed t.handle bytes }

  unfoldable pub resize : Terminal → ℕ → ℕ → Terminal
  resize t rows cols =
      let rows = at_least_one rows in
      let cols = at_least_one cols in
      record { handle = terminal_resize t.handle cols rows; rows = rows; cols = cols }

  -- `(0..rows)` from `r` on, with `left` rows to go.
  unfoldable pub rows_from : Handle → ℕ → ℕ → List String
  rows_from h r zero = []
  rows_from h r (suc left) = dump_viewport_row h r ∷ rows_from h (suc r) left

  unfoldable pub row_texts : Terminal → List String
  unfolding rows_from
  row_texts t = rows_from t.handle 0 t.rows

  abbrev pub title : Terminal → Option String
  title t = terminal_title t.handle

  abbrev pub cursor_position : Terminal → CursorPosition
  cursor_position t = cursor t.handle

  abbrev pub render_screen_bytes : Terminal → List ℕ
  render_screen_bytes t = render_reattach t.handle

  length-rows_from : (h : Handle) (r left : ℕ) → length (rows_from h r left) ≡ left
  unfolding rows_from
  length-rows_from h r zero = refl
  length-rows_from h r (suc left) = ap suc (length-rows_from h (suc r) left)

  -- A screen has as many rows as the terminal is high, and there is one at least after a resize.
  pub row_texts-resize :
      (t : Terminal) (rows cols : ℕ)
      → (length (row_texts (resize t rows cols)) ≡ at_least_one rows)
        × (1 ≤ (resize t rows cols).rows)
        × (1 ≤ (resize t rows cols).cols)
  unfolding row_texts resize
  row_texts-resize t rows cols = (length-rows_from _ 0 _, ground arith, ground arith)
