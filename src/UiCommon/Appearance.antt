-- ===== src/UiCommon/Appearance.antt =====
-- What the components hand on to the component library: components/StatusBadge.tsx,
-- components/ActionButton.tsx and components/FormTextField.tsx.
use agentic_restaurant.Base.{◌≡◌, ◌↔◌, String, Option, none, some, or_else, arith}
use agentic_restaurant.UiCommon.Widgets.{StatusBadgeTone, neutral, info, success, warning, danger}

pub data ChipColor : Type 0 where
  default_color info_color success_color warning_color error_color : ChipColor

pub data ChipVariant : Type 0 where
  outlined filled : ChipVariant

pub record Chip : Type 0 where
  pub color : ChipColor
  pub label : String
  pub variant : ChipVariant

abbrev pub color_by_tone : StatusBadgeTone → ChipColor
color_by_tone neutral = default_color
color_by_tone info = info_color
color_by_tone success = success_color
color_by_tone warning = warning_color
color_by_tone danger = error_color

-- `tone === "neutral" ? "outlined" : "filled"`
abbrev pub variant_of : StatusBadgeTone → ChipVariant
variant_of neutral = outlined
variant_of _ = filled

-- `StatusBadge`, whose `tone` may be left out.
abbrev pub status_badge : String → Option StatusBadgeTone → Chip
status_badge label tone =
    let t = or_else tone neutral in
    record { color = color_by_tone t; label = label; variant = variant_of t }

pub data ActionButtonTone : Type 0 where
  primary secondary plain : ActionButtonTone

pub data ButtonColor : Type 0 where
  primary_color secondary_color inherit : ButtonColor

pub data ButtonVariant : Type 0 where
  contained outlined text : ButtonVariant

abbrev pub tone_by_variant : ActionButtonTone → ButtonColor
tone_by_variant primary = primary_color
tone_by_variant secondary = secondary_color
tone_by_variant plain = inherit

-- What a caller gives; the other properties are handed on as they are.
pub record ActionButtonProps : Type 0 where
  pub tone : Option ActionButtonTone
  pub variant : Option ButtonVariant
  pub color : Option ButtonColor

-- `ActionButton`: `{...props}` comes last, so a `color` of the caller's overrides the tone's.
abbrev pub action_button : ActionButtonProps → ButtonColor × ButtonVariant
action_button props = (
  or_else props.color (tone_by_variant (or_else props.tone primary)),
  or_else props.variant contained,
)

-- A label is a text, or anything else that can be rendered.
pub data Label : Type 0 where
  plain_text : String → Label
  node : Label

abbrev text_of : Label → Option String
text_of (plain_text label) = some label
text_of node = none

-- `a ?? b`
abbrev first_of : Option String → Option String → Option String
first_of none b = b
first_of (some a) b = some a

-- The `aria-label` of `FormTextField`: the caller's, or the label if it is a text.
abbrev pub aria_label : Option String → Label → Option String
aria_label given label = first_of given (text_of label)

-- Two badges look the same exactly if they have the same label and the same tone.
pub status_badge-injective :
    (label other_label : String) (tone other_tone : StatusBadgeTone)
    → (status_badge label (some tone) ≡ status_badge other_label (some other_tone))
      ↔ ((label ≡ other_label) × (tone ≡ other_tone))
status_badge-injective label other_label tone other_tone = (λ h. ground arith, λ h. ground arith)

-- A field has no name for a screen reader exactly if the caller gives none and the label is not a
-- text.
pub aria_label-none :
    (given : Option String) (label : Label)
    → (aria_label given label ≡ none) ↔ ((given ≡ none) × (label ≡ node))
aria_label-none given label = (λ h. ground arith, λ h. ground arith)
