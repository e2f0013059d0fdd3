-- ===== src/Agents/Region/Total.antt =====
-- crates/agents/src/engine.rs: every region of a screen can be cut out. The byte offsets of the
-- code are summed up from the lines; they are those of the text where no line ends with "\r\n".
use mux.Prelude.{
  ℕ, zero, suc, ◌+◌, ◌-◌, ◌≤◌, ◌≡◌, refl, sym, ap, ◌∙◌, inl, inr, true, false, List, [], ◌∷◌,
  Option, none, some, min, take, drop, length, is_some, arith, Option-cases, Bool-cases,
  and_then-some, some_injective, append_assoc, ◌++◌, take-length_append,
}
use mux.Text.{Text, len, lines, slice_from, slice_to, slice, has_crlf}
use mux.Text.Lines.{total, offset, after_lines, slice_from-offset, slice_to-offset, slice-offset}
use mux.Agents.Region.{
  line_start_offset, slice_from_line_index, bottom_lines, bottom_non_empty_lines,
  top_non_empty_lines, after_last_prompt_marker, before_current_prompt_marker,
  after_current_prompt_block_marker, prompt_box_body, prompt_box_end, above_prompt_box,
  last_rule_end, is_horizontal_rule, after_last_horizontal_rule, prompt_box_top_border_index,
  codex_block_marker_line, rposition, codex_prompt_line, current_codex_prompt_index, position,
}

zero_min : (n : ℕ) → min 0 n ≡ 0
zero_min n = omega arith

min_zero : (n : ℕ) → min n 0 ≡ 0
min_zero n = omega arith

min-suc : (m n : ℕ) → min (suc m) (suc n) ≡ suc (min m n)
min-suc m n = omega arith

take-min : (n : ℕ) (ls : List Text) → take (min n (length ls)) ls ≡ take n ls
take-min zero ls = rw (zero_min (length ls)) refl
take-min (suc n) [] = rw (min_zero (suc n)) refl
take-min (suc n) (l ∷ ls) = rw (min-suc n (length ls)) (ap (◌∷◌ l) (take-min n ls))

line_start :
    (content : Text) (index : ℕ)
    → line_start_offset content (lines content) index ≡ offset index content
unfolding line_start_offset
line_start content index = ap (λ ls. min (total ls) (len content)) (take-min index (lines content))

min-min : (a b : ℕ) → min (min a b) b ≡ min a b
min-min a b = omega arith

min-le : (m n : ℕ) → min m n ≤ n
min-le m n = omega arith

total-snoc : (ls : List Text) (l : Text) → total (ls ++ l ∷ []) ≡ total ls + (len l + 1)
unfolding total
total-snoc [] l = omega arith
total-snoc (k ∷ ls) l = omega (arith, total-snoc ls l)

module _ (content : Text) (unix : has_crlf content ≡ false) where
  -- A region that starts at a line is what follows the lines before it.
  pub slice_from_line_index-after_lines :
      (index : ℕ)
      → slice_from_line_index content (lines content) index ≡ some (after_lines index content)
  unfolding slice_from_line_index
  slice_from_line_index-after_lines index =
      ap (λ k. slice_from (min k (len content)) content) (line_start content index)
      ∙ ap (λ k. slice_from k content) (min-min _ (len content))
      ∙ slice_from-offset index content unix

  bottom_lines-after_lines :
      (count : ℕ)
      → bottom_lines content count ≡ some (after_lines (length (lines content) - count) content)
  unfolding bottom_lines
  bottom_lines-after_lines count = slice_from_line_index-after_lines _

  slice_to-line_start :
      (index : ℕ)
      → is_some (slice_to (line_start_offset content (lines content) index) content) ≡ true
  slice_to-line_start index =
      ap is_some (
        ap (λ k. slice_to k content) (line_start content index)
        ∙ slice_to-offset index content unix)

  clamped :
      (index : ℕ)
      → min (line_start_offset content (lines content) index) (len content) ≡ offset index content
  clamped index = ap (λ k. min k (len content)) (line_start content index) ∙ min-min _ (len content)

  slice_to-clamped :
      (index : ℕ)
      → is_some
          (slice_to (min (line_start_offset content (lines content) index) (len content)) content)
        ≡ true
  slice_to-clamped index =
      ap is_some (ap (λ k. slice_to k content) (clamped index) ∙ slice_to-offset index content unix)

  -- Where nothing is found, a region is empty or the whole screen.
  from_line :
      (fallback : Text) (o : Option ℕ)
      → is_some (elim o [
        | none ↦ some fallback
        | some i ↦ slice_from_line_index content (lines content) i
      ])
        ≡ true
  from_line fallback none = refl
  from_line fallback (some i) = ap is_some (slice_from_line_index-after_lines i)

  pub bottom_lines-total : (count : ℕ) → is_some (bottom_lines content count) ≡ true
  bottom_lines-total count = ap is_some (bottom_lines-after_lines count)

  pub bottom_non_empty_lines-total :
      (count : ℕ) → is_some (bottom_non_empty_lines content count) ≡ true
  unfolding bottom_non_empty_lines
  bottom_non_empty_lines-total count = from_line [] _

  pub top_non_empty_lines-total : (count : ℕ) → is_some (top_non_empty_lines content count) ≡ true
  unfolding top_non_empty_lines
  top_non_empty_lines-total count = to_end _
    where
      to_end :
          (o : Option ℕ)
          → is_some (elim o [
            | none ↦ some []
            | some i ↦ slice_to (line_start_offset content (lines content) (i + 1)) content
          ])
            ≡ true
      to_end none = refl
      to_end (some i) = slice_to-line_start (i + 1)

  pub after_last_prompt_marker-total : is_some (after_last_prompt_marker content) ≡ true
  unfolding after_last_prompt_marker
  after_last_prompt_marker-total =
      elim (Option-cases (rposition codex_prompt_line (lines content))) [
        | inl e ↦ rw (e, after_last_prompt_marker) refl
        | inr (i, e) ↦ rw (e, after_last_prompt_marker) (from_line [] (some (i + 1)))
      ]

  pub before_current_prompt_marker-total : is_some (before_current_prompt_marker content) ≡ true
  unfolding before_current_prompt_marker
  before_current_prompt_marker-total =
      elim (Option-cases (current_codex_prompt_index (lines content))) [
        | inl e ↦ rw (e, before_current_prompt_marker) refl
        | inr (i, e) ↦
            rw (e, before_current_prompt_marker) (ap is_some (slice_to-offset i content unix))
      ]

  pub above_prompt_box-total : is_some (above_prompt_box content) ≡ true
  unfolding above_prompt_box
  above_prompt_box-total = elim (Option-cases (prompt_box_top_border_index (lines content))) [
    | inl e ↦ rw (e, above_prompt_box) refl
    | inr (i, e) ↦ rw (e, above_prompt_box) (slice_to-clamped i)
  ]

  pub after_current_prompt_block_marker-total :
      {r : Option Text} → after_current_prompt_block_marker content ≡ some r → is_some r ≡ true
  unfolding after_current_prompt_block_marker
  after_current_prompt_block_marker-total h =
      let (index, _, h) = and_then-some (current_codex_prompt_index (lines content)) _ h in
      let (block, _, h) =
        and_then-some (rposition codex_block_marker_line (take index (lines content))) _ h in
      ap is_some (sym (some_injective h)) ∙ ap is_some (slice_from_line_index-after_lines block)

  -- An index past the last line is the end of the text, like the number of the lines.
  offset-min : (n : ℕ) → offset (min n (length (lines content))) content ≡ offset n content
  offset-min n = ap (λ ls. min (total ls) (len content)) (take-min n (lines content))

  slice_up_to :
      (m n : ℕ)
      → m ≤ n
      → is_some (
          slice
            (min (line_start_offset content (lines content) m) (len content))
            (min (line_start_offset content (lines content) n) (len content))
            content)
        ≡ true
  slice_up_to m n le = rw (clamped m, clamped n) (ap is_some (slice-offset m n content le unix))

  slice_to_last :
      (m : ℕ)
      → is_some (
          slice
            (min (line_start_offset content (lines content) m) (len content))
            (min (line_start_offset content (lines content) (length (lines content))) (len content))
            content)
        ≡ true
  slice_to_last m =
      rw (clamped m, clamped (length (lines content)), ← offset-min m)
        (ap is_some (
          slice-offset (min m (length (lines content))) (length (lines content)) content
            (min-le m _) unix))

  pub prompt_box_body-total :
      {r : Option Text} → prompt_box_body content ≡ some r → is_some r ≡ true
  unfolding prompt_box_body prompt_box_end
  prompt_box_body-total h =
      let (top, _, h) = and_then-some (prompt_box_top_border_index (lines content)) _ h in
      ap is_some (sym (some_injective h))
      ∙ elim (Option-cases (position is_horizontal_rule (drop (top + 1) (lines content)))) [
        | inl e ↦ rw (e, prompt_box_end) (slice_to_last (top + 1))
        | inr (relative, e) ↦
            rw (e, prompt_box_end) (slice_up_to (top + 1) (top + 1 + relative) (omega arith))
      ]

  passed_end :
      (passed rest : List Text)
      → lines content ≡ passed ++ rest
      → min (total passed) (len content) ≡ offset (length passed) content
  passed_end passed rest e =
      ap (λ ls. min (total ls) (len content))
        (sym (ap (take (length passed)) e ∙ take-length_append passed rest (length passed) refl))

  rule_end :
      (found : ℕ) (passed rest : List Text)
      → lines content ≡ passed ++ rest
      → (k : ℕ) → found ≡ offset k content
      → (j : ℕ) × (last_rule_end (len content) found (total passed) rest ≡ offset j content)
  unfolding last_rule_end
  rule_end found passed [] e k h = (k, h)
  rule_end found passed (line ∷ rest) e k h =
      let parts = e ∙ sym (append_assoc passed (line ∷ []) rest) in
      let next = total-snoc passed line in
      elim (Bool-cases (is_horizontal_rule line)) [
        | inl rule ↦
            rw (rule, last_rule_end, ← next)
              (rule_end (min (total (passed ++ line ∷ [])) (len content)) (passed ++ line ∷ []) rest
                parts (length (passed ++ line ∷ [])) (passed_end (passed ++ line ∷ []) rest parts))
        | inr plain ↦
            rw (plain, last_rule_end, ← next) (rule_end found (passed ++ line ∷ []) rest parts k h)
      ]

  pub after_last_horizontal_rule-total : is_some (after_last_horizontal_rule content) ≡ true
  unfolding after_last_horizontal_rule total
  after_last_horizontal_rule-total =
      let (j, e) = rule_end 0 [] (lines content) refl 0 (sym (zero_min (len content))) in
      ap is_some (ap (λ k. slice_from k content) e ∙ slice_from-offset j content unix)
