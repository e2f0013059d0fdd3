-- ===== src/Agents/Region.antt =====
-- crates/agents/src/engine.rs: the region of a pane that a rule reads. A slice of a text is an
-- `Option`, `none` where the code panics; an `Option` of the code around it is an outer one.
pub mod Names
pub mod Total
pub mod Arms
use mux.Prelude.{
  ℕ, suc, ◌+◌, ◌-◌, Bool, true, false, not, ◌&&◌, ◌||◌, List, [], ◌∷◌, Option, none, some,
  if◌then◌else◌, leb, ◌==◌, take, drop, min, is_some, length, any, and_then, map_or,
}
use mux.Text.{
  Text, codes, len, same, is_empty, trim, trim_start, starts_with, slice_from, slice_to, slice,
  lines,
}
use mux.Text.Lines.{total}

-- `Iterator::position` and `rposition`
unfoldable pub position : (Text → Bool) → List Text → Option ℕ
position p [] = none
position p (l ∷ ls) =
    let rest = position p ls in
    if p l then some 0 else elim rest [ none ↦ none | some i ↦ some (suc i) ]

unfoldable pub rposition : (Text → Bool) → List Text → Option ℕ
rposition p [] = none
rposition p (l ∷ ls) = elim (rposition p ls) [
  | none ↦ if p l then some 0 else none
  | some i ↦ some (suc i)
]

-- `iter().rev().find(p)`
unfoldable pub rfind : (Text → Bool) → List Text → Option Text
rfind p [] = none
rfind p (l ∷ ls) = elim (rfind p ls) [
  | none ↦ if p l then some l else none
  | some found ↦ some found
]

unfoldable pub line_start_offset : Text → List Text → ℕ → ℕ
unfolding total len
line_start_offset content ls index = min (total (take (min index (length ls)) ls)) (len content)

unfoldable pub slice_from_line_index : Text → List Text → ℕ → Option Text
unfolding line_start_offset slice_from
slice_from_line_index content ls index =
    slice_from (min (line_start_offset content ls index) (len content)) content

abbrev pub is_filled : Text → Bool
unfolding trim
is_filled line = not (is_empty (trim line))

-- `enumerate().filter(..)`: the indices, from `at` on, of the lines that are not blank.
unfoldable pub filled_indices : ℕ → List Text → List ℕ
unfolding trim
filled_indices at [] = []
filled_indices at (l ∷ ls) =
    let rest = filled_indices (suc at) ls in if is_filled l then at ∷ rest else rest

unfoldable pub last : List ℕ → Option ℕ
last [] = none
last (n ∷ ns) = elim (last ns) [ none ↦ some n | some m ↦ some m ]

-- What `rev().take(count).last()` finds: the `count` last elements, and the first of them.
unfoldable pub first_of_last : ℕ → List ℕ → Option ℕ
first_of_last count ns = elim (drop (length ns - count) ns) [ [] ↦ none | (n ∷ rest) ↦ some n ]

unfoldable pub bottom_lines : Text → ℕ → Option Text
unfolding slice_from_line_index lines
bottom_lines content count =
    let ls = lines content in slice_from_line_index content ls (length ls - count)

unfoldable pub bottom_non_empty_lines : Text → ℕ → Option Text
unfolding slice_from_line_index lines filled_indices first_of_last
bottom_non_empty_lines content count =
    let ls = lines content in
    elim (first_of_last count (filled_indices 0 ls)) [
      | none ↦ some []
      | some start_index ↦ slice_from_line_index content ls start_index
    ]

unfoldable pub top_non_empty_lines : Text → ℕ → Option Text
unfolding line_start_offset lines filled_indices last slice_to
top_non_empty_lines content count =
    let ls = lines content in
    elim (last (take count (filled_indices 0 ls))) [
      | none ↦ some []
      | some end_index ↦ slice_to (line_start_offset content ls (end_index + 1)) content
    ]

unfoldable pub codex_prompt_line : Text → Bool
unfolding same starts_with
codex_prompt_line line = same line (codes "›") || starts_with (codes "› ") line

unfoldable pub codex_block_marker_line : Text → Bool
unfolding starts_with
codex_block_marker_line line =
    starts_with (codes "•") line
    || starts_with (codes "■") line
    || starts_with (codes "✗") line
    || starts_with (codes "✓") line

unfoldable pub current_codex_prompt_index : List Text → Option ℕ
unfolding rposition codex_prompt_line codex_block_marker_line
current_codex_prompt_index ls = and_then (rposition codex_prompt_line ls) λ prompt_index.
    if any codex_block_marker_line (drop (prompt_index + 1) ls) then none else some prompt_index

unfoldable pub after_last_prompt_marker : Text → Option Text
unfolding lines rposition codex_prompt_line slice_from_line_index
after_last_prompt_marker content =
    let ls = lines content in
    elim (rposition codex_prompt_line ls) [
      | none ↦ some content
      | some index ↦ slice_from_line_index content ls (index + 1)
    ]

unfoldable pub before_current_prompt_marker : Text → Option Text
unfolding lines current_codex_prompt_index slice_to total len
before_current_prompt_marker content =
    let ls = lines content in
    elim (current_codex_prompt_index ls) [
      | none ↦ some content
      | some index ↦ slice_to (min (total (take index ls)) (len content)) content
    ]

unfoldable pub whole_recent_without_current_prompt_marker : Text → Text
unfolding lines current_codex_prompt_index
whole_recent_without_current_prompt_marker content =
    if is_some (current_codex_prompt_index (lines content)) then [] else content

unfoldable pub current_prompt_block_marker : Text → Option Text
unfolding lines current_codex_prompt_index rfind codex_block_marker_line
current_prompt_block_marker content =
    let ls = lines content in
    and_then (current_codex_prompt_index ls)
      λ prompt_index. rfind codex_block_marker_line (take prompt_index ls)

unfoldable pub after_current_prompt_block_marker : Text → Option (Option Text)
unfolding lines current_codex_prompt_index rposition codex_block_marker_line slice_from_line_index
after_current_prompt_block_marker content =
    let ls = lines content in
    and_then (current_codex_prompt_index ls) λ prompt_index.
      and_then (rposition codex_block_marker_line (take prompt_index ls))
        λ block_index. some (slice_from_line_index content ls block_index)

abbrev pub box_line : ℕ
box_line = 0x2500

-- The characters that `take_while` counts, and what follows them.
unfoldable pub rule_chars : Text → ℕ
rule_chars [] = 0
rule_chars (c ∷ s) = let rest = rule_chars s in if c == box_line then suc rest else 0

unfoldable pub is_horizontal_rule : Text → Bool
unfolding trim trim_start rule_chars
is_horizontal_rule line =
    let trimmed = trim line in
    let count = rule_chars trimmed in
    if is_empty trimmed
    then false
    else if count == 0
    then false
    else is_empty (trim_start (drop count trimmed)) || leb 3 count

-- From the last line up: `border_count` is what the lines below have. The lines come reversed,
-- each with its index.
unfoldable pub second_border : ℕ → List (ℕ × Text) → Option ℕ
unfolding is_horizontal_rule
second_border border_count [] = none
second_border border_count ((index, line) ∷ above) =
    let next = second_border (border_count + 1) above in
    let skip = second_border border_count above in
    if is_horizontal_rule line then (if border_count + 1 == 2 then some index else next) else skip

unfoldable pub numbered : ℕ → List Text → List (ℕ × Text) → List (ℕ × Text)
numbered at [] acc = acc
numbered at (l ∷ ls) acc = numbered (suc at) ls ((at, l) ∷ acc)

unfoldable pub prompt_box_top_border_index : List Text → Option ℕ
unfolding second_border numbered
prompt_box_top_border_index ls = second_border 0 (numbered 0 ls [])

unfoldable pub prompt_box_end : List Text → ℕ → ℕ
unfolding position is_horizontal_rule
prompt_box_end ls top =
    map_or (length ls) (λ relative. top + 1 + relative)
      (position is_horizontal_rule (drop (top + 1) ls))

unfoldable pub prompt_box_body : Text → Option (Option Text)
unfolding lines prompt_box_top_border_index line_start_offset prompt_box_end slice len
prompt_box_body content =
    let ls = lines content in
    and_then (prompt_box_top_border_index ls) λ top.
      let start = line_start_offset content ls (top + 1) in
      let end = line_start_offset content ls (prompt_box_end ls top) in
      some (slice (min start (len content)) (min end (len content)) content)

unfoldable pub above_prompt_box : Text → Option Text
unfolding lines prompt_box_top_border_index line_start_offset slice_to len
above_prompt_box content =
    let ls = lines content in
    elim (prompt_box_top_border_index ls) [
      | none ↦ some content
      | some top ↦ slice_to (min (line_start_offset content ls top) (len content)) content
    ]

unfoldable pub last_rule_end : ℕ → ℕ → ℕ → List Text → ℕ
unfolding is_horizontal_rule len
last_rule_end size found offset [] = found
last_rule_end size found offset (line ∷ ls) =
    let next_offset = offset + (len line + 1) in
    let found = if is_horizontal_rule line then min next_offset size else found in
    last_rule_end size found next_offset ls

unfoldable pub after_last_horizontal_rule : Text → Option Text
unfolding last_rule_end lines len slice_from
after_last_horizontal_rule content =
    slice_from (last_rule_end (len content) 0 0 (lines content)) content

unfoldable pub last_non_empty_line : Text → Text
unfolding rfind lines trim
last_non_empty_line content = elim (rfind is_filled (lines content)) [
  | none ↦ []
  | some line ↦ line
]
