-- ===== src/Agents/Region/Names.antt =====
-- crates/agents/src/engine.rs: the regions by the names that a manifest gives them.
use mux.Prelude.{
  ℕ, not, ◌||◌, List, [], ◌∷◌, Option, none, some, if◌then◌else◌, leb, is_some, all, any, and_then,
  keep_if,
}
use mux.Prelude.Results.{Result, ok, err}
use mux.Text.{Text, codes, same, trim, starts_with, strip_prefix, strip_suffix}
use mux.Text.Numbers.{is_digit, parse_usize}
use mux.Agents.Region.{
  bottom_lines, bottom_non_empty_lines, top_non_empty_lines, after_last_prompt_marker,
  before_current_prompt_marker, whole_recent_without_current_prompt_marker,
  current_prompt_block_marker, after_current_prompt_block_marker, prompt_box_body, above_prompt_box,
  after_last_horizontal_rule, last_non_empty_line,
}

pub record DetectionInput : Type 0 where
  pub screen : Text
  pub osc_title : Text
  pub osc_progress : Text

-- What stands between "(" and ")" after the name.
unfoldable pub argument : Text → Text → Option Text
unfolding strip_prefix strip_suffix
argument spec name =
    and_then (strip_prefix name spec)
      λ rest. and_then (strip_prefix (codes "(") rest) λ rest. strip_suffix (codes ")") rest

unfoldable pub region_count : Text → Text → Option ℕ
unfolding argument parse_usize
region_count spec name = and_then (argument spec name) parse_usize

abbrev pub max_top_region_line_count : ℕ
max_top_region_line_count = 65535

unfoldable pub top_region_count : Text → Option ℕ
unfolding argument starts_with parse_usize
top_region_count spec = and_then (argument spec (codes "top_non_empty_lines")) λ count.
    if starts_with (codes "0") count || not (all is_digit count)
    then none
    else keep_if (λ n. leb n max_top_region_line_count) (parse_usize count)

abbrev pub Arm : Type 0
Arm = Text → Option Text

abbrev pub or_empty : Option Text → Option Text
or_empty none = some []
or_empty (some found) = some found

abbrev pub flatten_or_empty : Option (Option Text) → Option Text
flatten_or_empty none = some []
flatten_or_empty (some found) = found

abbrev pub map_slice : (Text → Text) → Option Text → Option Text
map_slice f none = none
map_slice f (some s) = some (f s)

-- The arms of the `match` in `region` that name a region of the screen, in its order.
unfoldable pub screen_arms : List (Text × Arm)
unfolding after_last_prompt_marker before_current_prompt_marker
    whole_recent_without_current_prompt_marker current_prompt_block_marker
    after_current_prompt_block_marker prompt_box_body above_prompt_box last_non_empty_line
    after_last_horizontal_rule
screen_arms =
    (codes "whole_recent", λ content. some content)
    ∷ (codes "after_last_prompt_marker", after_last_prompt_marker)
    ∷ (codes "before_current_prompt_marker", before_current_prompt_marker)
    ∷ (
      codes "whole_recent_without_current_prompt_marker",
      λ content. some (whole_recent_without_current_prompt_marker content),
    )
    ∷ (
      codes "current_prompt_block_marker",
      λ content. or_empty (current_prompt_block_marker content),
    )
    ∷ (
      codes "after_current_prompt_block_marker",
      λ content. flatten_or_empty (after_current_prompt_block_marker content),
    )
    ∷ (codes "prompt_box_body", λ content. flatten_or_empty (prompt_box_body content))
    ∷ (codes "above_prompt_box", above_prompt_box)
    ∷ (
      codes "last_non_empty_above_prompt_box",
      λ content. map_slice last_non_empty_line (above_prompt_box content),
    )
    ∷ (codes "after_last_horizontal_rule", after_last_horizontal_rule)
    ∷ []

-- The first arm whose name matches.
unfoldable pub arm : Text → List (Text × Arm) → Option Arm
unfolding same
arm name [] = none
arm name ((known, f) ∷ arms) = let rest = arm name arms in if same name known then some f else rest

-- The last arm of `region`: a region that counts lines.
unfoldable pub counted : Text → Arm
unfolding region_count top_region_count bottom_lines bottom_non_empty_lines top_non_empty_lines
counted trimmed content = elim (region_count trimmed (codes "bottom_lines")) [
  | some count ↦ bottom_lines content count
  | none ↦ elim (region_count trimmed (codes "bottom_non_empty_lines")) [
    | some count ↦ bottom_non_empty_lines content count
    | none ↦ elim (top_region_count trimmed) [
      | some count ↦ top_non_empty_lines content count
      | none ↦ some []
    ]
  ]
]

unfoldable pub region : DetectionInput → Text → Option Text
unfolding trim same arm screen_arms counted
region input spec =
    let trimmed = trim spec in
    if same trimmed (codes "osc_title")
    then some input.osc_title
    else if same trimmed (codes "osc_progress")
    then some input.osc_progress
    else elim (arm trimmed screen_arms) [
      | some f ↦ f input.screen
      | none ↦ counted trimmed input.screen
    ]

abbrev pub region_names : List Text
region_names =
    codes "whole_recent"
    ∷ codes "after_last_prompt_marker"
    ∷ codes "before_current_prompt_marker"
    ∷ codes "whole_recent_without_current_prompt_marker"
    ∷ codes "current_prompt_block_marker"
    ∷ codes "after_current_prompt_block_marker"
    ∷ codes "prompt_box_body"
    ∷ codes "above_prompt_box"
    ∷ codes "last_non_empty_above_prompt_box"
    ∷ codes "after_last_horizontal_rule"
    ∷ codes "osc_title"
    ∷ codes "osc_progress"
    ∷ []

-- The error is the name without the blanks around it.
unfoldable pub validate_region_name : Text → Result Text (Unit {0})
unfolding trim same region_count top_region_count
validate_region_name spec =
    let trimmed = trim spec in
    if any (same trimmed) region_names
    then ok tt
    else if is_some (region_count trimmed (codes "bottom_lines"))
        || is_some (region_count trimmed (codes "bottom_non_empty_lines"))
        || is_some (top_region_count trimmed)
    then ok tt
    else err trimmed
