-- ===== src/UiCommon/Widgets/Laws.antt =====
-- Which events a page can cause.
use agentic_restaurant.Base.{
  ℕ, zero, suc, String, ◌≡◌, refl, subst, Bool, true, false, Option, none, some, List, [], ◌∷◌,
  ◌++◌, if◌then◌else◌, arith, All,
}
use agentic_restaurant.UiCommon.Widgets.{
  Causes, Widget, button, submit, field, text_size_control, Gesture, click, typed, sized, caused,
  caused_at, Admits, error_if, all_filled, fits,
}

module _ {ℓ κ} {E : Type ℓ} (P : E → Type κ) where
  unless_disabled :
      (disabled : Bool) {e e' : E}
      → (disabled ≡ false → P e)
      → (if disabled then none else some e) ≡ some e'
      → P e'
  unless_disabled true h p = cc
  unless_disabled false h p = subst P (cc) (h refl)

  if_filled :
      (b : Bool) {e e' : E} → (b ≡ true → P e) → (if b then some e else none) ≡ some e' → P e'
  if_filled true h p = subst P (cc) (h refl)
  if_filled false h p = cc

  caused-Admits : (g : Gesture) (w : Widget E) {e : E} → Admits P w → caused g w ≡ some e → P e
  caused-Admits click (button label disabled e) h p = unless_disabled disabled h p
  caused-Admits click (submit label true required e) h p = cc
  caused-Admits click (submit label false required e) h p =
      if_filled (all_filled required) (h refl) p
  caused-Admits (typed value) (field label current limit f) h p =
      if_filled (fits limit value) (h value) p
  caused-Admits (sized size) (text_size_control current f) h p = subst P (cc) (h size)
  caused-Admits _ _ h p = cc

  -- If every control on the page admits `P`, every event that a user can cause there has it.
  pub caused_at-Admits :
      (n : ℕ) (g : Gesture) (ws : List (Widget E)) {e : E}
      → All (Admits P) ws
      → caused_at n g ws ≡ some e
      → P e
  unfolding caused_at
  caused_at-Admits n g [] h p = cc
  caused_at-Admits zero g (w ∷ ws) h p = caused-Admits g w h.0 p
  caused_at-Admits (suc n) g (w ∷ ws) h p = caused_at-Admits n g ws h.1 p

  pub error_if-Admits : (message : Option String) → All (Admits P) (error_if message)
  error_if-Admits none = tt
  error_if-Admits (some message) = ground arith

module _ {ℓ} {E : Type ℓ} {e : E} where
  pub Causes-here :
      (gesture : Gesture) {w : Widget E} (ws : List (Widget E))
      → caused gesture w ≡ some e
      → Causes e (w ∷ ws)
  unfolding caused_at
  Causes-here gesture ws h = record { place = 0; gesture = gesture; causes = h }

  pub Causes-cons : {w : Widget E} {ws : List (Widget E)} → Causes e ws → Causes e (w ∷ ws)
  unfolding caused_at
  Causes-cons c = record { place = suc c.place; gesture = c.gesture; causes = c.causes }

  pub Causes-append_right :
      (vs : List (Widget E)) {ws : List (Widget E)} → Causes e ws → Causes e (vs ++ ws)
  Causes-append_right [] c = c
  Causes-append_right (v ∷ vs) c = Causes-cons (Causes-append_right vs c)

  caused_at-append :
      (place : ℕ) (gesture : Gesture) (vs ws : List (Widget E))
      → caused_at place gesture vs ≡ some e
      → caused_at place gesture (vs ++ ws) ≡ some e
  unfolding caused_at
  caused_at-append place gesture [] ws h = cc
  caused_at-append zero gesture (v ∷ vs) ws h = h
  caused_at-append (suc place) gesture (v ∷ vs) ws h = caused_at-append place gesture vs ws h

  pub Causes-append_left : (vs ws : List (Widget E)) → Causes e vs → Causes e (vs ++ ws)
  Causes-append_left vs ws c = record {
    place = c.place;
    gesture = c.gesture;
    causes = caused_at-append c.place c.gesture vs ws c.causes;
  }
