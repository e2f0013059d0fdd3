-- ===== src/Agents/Region/Arms.antt =====
-- crates/agents/src/engine.rs: `region` as a whole never panics on a screen of plain lines.
use mux.Prelude.{
  ◌≡◌, refl, sym, ap, ◌∙◌, inl, inr, Bool, true, false, List, [], ◌∷◌, Option, none, some, All,
  is_some, Bool-cases, Option-cases, some_injective, if◌then◌else◌,
}
use mux.Text.{Text, codes, same, trim, has_crlf}
use mux.Agents.Region.{after_current_prompt_block_marker, prompt_box_body}
use mux.Agents.Region.Names.{
  DetectionInput, Arm, arm, screen_arms, counted, region, map_slice, or_empty, flatten_or_empty,
  region_count, top_region_count,
}
use mux.Agents.Region.Total.{
  bottom_lines-total, bottom_non_empty_lines-total, top_non_empty_lines-total,
  after_last_prompt_marker-total, before_current_prompt_marker-total,
  after_current_prompt_block_marker-total, prompt_box_body-total, above_prompt_box-total,
  after_last_horizontal_rule-total,
}

map_slice-total :
    (f : Text → Text) (o : Option Text) → is_some o ≡ true → is_some (map_slice f o) ≡ true
map_slice-total f none h = absurd (cc)
map_slice-total f (some s) h = refl

or_empty-total : (o : Option Text) → is_some (or_empty o) ≡ true
or_empty-total none = refl
or_empty-total (some s) = refl

flatten-total :
    (o : Option (Option Text))
    → ((r : Option Text) → o ≡ some r → is_some r ≡ true)
    → is_some (flatten_or_empty o) ≡ true
flatten-total none h = refl
flatten-total (some r) h = h r refl

module _ (content : Text) (unix : has_crlf content ≡ false) where
  abbrev IsTotal : Arm → Type 0
  IsTotal f = is_some (f content) ≡ true

  abbrev block : is_some (flatten_or_empty (after_current_prompt_block_marker content)) ≡ true
  block = flatten-total _ (λ r e. after_current_prompt_block_marker-total content unix e)

  abbrev body : is_some (flatten_or_empty (prompt_box_body content)) ≡ true
  body = flatten-total _ (λ r e. prompt_box_body-total content unix e)

  arms-IsTotal : All (λ (entry : Text × Arm). IsTotal entry.1) screen_arms
  unfolding screen_arms
  arms-IsTotal = (
    refl,
    (
      after_last_prompt_marker-total content unix,
      (
        before_current_prompt_marker-total content unix,
        (
          refl,
          (
            or_empty-total _,
            (
              block,
              (
                body,
                (
                  above_prompt_box-total content unix,
                  (
                    map_slice-total _ _ (above_prompt_box-total content unix),
                    (after_last_horizontal_rule-total content unix, tt),
                  ),
                ),
              ),
            ),
          ),
        ),
      ),
    ),
  )

  arm-IsTotal :
      (name : Text) (arms : List (Text × Arm)) (f : Arm)
      → All (λ (entry : Text × Arm). IsTotal entry.1) arms
      → arm name arms ≡ some f
      → IsTotal f
  unfolding arm
  arm-IsTotal name [] f h e = absurd (cc)
  arm-IsTotal name ((known, g) ∷ arms) f (hg, h) e = elim (Bool-cases (same name known)) [
    | inl p ↦ ap (λ (k : Arm). is_some (k content)) (sym (some_injective (rw (p, arm) at e))) ∙ hg
    | inr p ↦ arm-IsTotal name arms f h (rw (p, arm) at e)
  ]

  counted-IsTotal : (trimmed : Text) → IsTotal (counted trimmed)
  unfolding counted
  counted-IsTotal trimmed = elim (Option-cases (region_count trimmed (codes "bottom_lines"))) [
    | inr (n, e) ↦ rw (e, counted) (bottom_lines-total content unix n)
    | inl e ↦ elim (Option-cases (region_count trimmed (codes "bottom_non_empty_lines"))) [
      | inr (n, e2) ↦ rw (e, e2, counted) (bottom_non_empty_lines-total content unix n)
      | inl e2 ↦ elim (Option-cases (top_region_count trimmed)) [
        | inr (n, e3) ↦ rw (e, e2, e3, counted) (top_non_empty_lines-total content unix n)
        | inl e3 ↦ rw (e, e2, e3, counted) refl
      ]
    ]
  ]

  found :
      (name : Text)
      → is_some (elim (arm name screen_arms) [ some f ↦ f content | none ↦ counted name content ])
        ≡ true
  found name = elim (Option-cases (arm name screen_arms)) [
    | inl e ↦ rw e (counted-IsTotal name)
    | inr (f, e) ↦ rw e (arm-IsTotal name screen_arms f arms-IsTotal e)
  ]

if-total :
    (b : Bool) (o p : Option Text)
    → is_some o ≡ true
    → is_some p ≡ true
    → is_some (if b then o else p) ≡ true
if-total true o p h k = h
if-total false o p h k = k

-- Whatever region a rule names, it can be cut out of a screen in which no line ends with "\r\n".
pub region-total :
    (input : DetectionInput) (spec : Text)
    → has_crlf input.screen ≡ false
    → is_some (region input spec) ≡ true
unfolding region
region-total input spec h =
    if-total (same (trim spec) (codes "osc_title")) _ _ refl (
      if-total (same (trim spec) (codes "osc_progress")) _ _ refl
        (found input.screen h (trim spec)))
