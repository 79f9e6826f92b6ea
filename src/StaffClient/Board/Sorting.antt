-- ===== src/StaffClient/Board/Sorting.antt =====
-- What the stable sort promises.
use mathlib.Core.List.{Perm}
use mathlib.Core.List.Perm
use agentic_restaurant.Base.{
  ◌≡◌, refl, Bool, true, false, List, [], ◌∷◌, All, Any, keep_if, Bool-cases, inl, inr, arith, ◌&&◌,
  ◌∙◌,
}
use agentic_restaurant.StaffClient.Board.{insert, sort}

module _ {ℓ} {A : Type ℓ} (after : A → A → Bool) where
  insert-perm : (x : A) (ys : List A) → Perm (insert after x ys) (x ∷ ys)
  insert-perm x [] = Perm.refl (x ∷ [])
  insert-perm x (y ∷ ys) = elim (Bool-cases (after x y)) [
    | inl later ↦ rw later (Perm.trans (Perm.cons y (insert-perm x ys)) (Perm.swap x y ys))
    | inr first ↦ rw first (Perm.refl (x ∷ y ∷ ys))
  ]

  -- Sorting neither drops nor repeats an element.
  pub sort-perm : (xs : List A) → Perm (sort after xs) xs
  sort-perm [] = Perm.refl []
  sort-perm (x ∷ xs) = Perm.trans (insert-perm x (sort after xs)) (Perm.cons x (sort-perm xs))

  -- No element comes after one that it has to come before.
  abbrev pub IsOrdered : List A → Type ℓ
  IsOrdered [] = Unit
  IsOrdered (x ∷ xs) = All (λ y. after x y ≡ false) xs × IsOrdered xs

-- Every element is in the relation to all that follow it.
abbrev pub IsSorted {ℓ} : {A : Type ℓ} → (A → A → Type 0) → List A → Type 0
IsSorted R [] = Unit
IsSorted R (x ∷ xs) = All (R x) xs × IsSorted R xs

module _ {ℓ} {A : Type ℓ} (after : A → A → Bool) (R : A → A → Type 0)
    (agrees : (x y : A) → after x y ≡ false → R x y) where
  All-agrees : (x : A) (ys : List A) → All (λ y. after x y ≡ false) ys → All (R x) ys
  All-agrees x [] h = tt
  All-agrees x (y ∷ ys) h = (agrees x y h.0, All-agrees x ys h.1)

  pub IsSorted-of_ordered : (xs : List A) → IsOrdered after xs → IsSorted R xs
  IsSorted-of_ordered [] o = tt
  IsSorted-of_ordered (x ∷ xs) o = (All-agrees x xs o.0, IsSorted-of_ordered xs o.1)

module _ {ℓ} {A : Type ℓ} (after : A → A → Bool)
    (asym : (x y : A) → after x y ≡ true → after y x ≡ false)
    (trans : (x y z : A) → after x y ≡ false → after y z ≡ false → after x z ≡ false) where
  All-trans :
      (x y : A) (zs : List A)
      → after x y ≡ false
      → All (λ z. after y z ≡ false) zs
      → All (λ z. after x z ≡ false) zs
  All-trans x y [] h k = tt
  All-trans x y (z ∷ zs) h k = (trans x y z h k.0, All-trans x y zs h k.1)

  All-insert :
      (w x : A) (ys : List A)
      → after w x ≡ false
      → All (λ y. after w y ≡ false) ys
      → All (λ y. after w y ≡ false) (insert after x ys)
  All-insert w x [] h k = (h, tt)
  All-insert w x (y ∷ ys) h k = elim (Bool-cases (after x y)) [
    | inl e ↦ rw e (k.0, All-insert w x ys h k.1)
    | inr e ↦ rw e (h, k)
  ]

  insert-IsOrdered :
      (x : A) (ys : List A) → IsOrdered after ys → IsOrdered after (insert after x ys)
  insert-IsOrdered x [] o = (tt, tt)
  insert-IsOrdered x (y ∷ ys) o = elim (Bool-cases (after x y)) [
    | inl e ↦ rw e (All-insert y x ys (asym x y e) o.0, insert-IsOrdered x ys o.1)
    | inr e ↦ rw e ((e, All-trans x y ys e o.0), o)
  ]

  pub sort-IsOrdered : (xs : List A) → IsOrdered after (sort after xs)
  sort-IsOrdered [] = tt
  sort-IsOrdered (x ∷ xs) = insert-IsOrdered x (sort after xs) (sort-IsOrdered xs)

-- Elements that the comparison puts in neither order keep the order in which they stood.
module _ {ℓ} {A : Type ℓ} (after : A → A → Bool) (test : A → Bool)
    (apart : (x y : A) → after x y ≡ true → (test x && test y) ≡ false) where
  keep_if-insert : (x : A) (ys : List A) → keep_if test (insert after x ys) ≡ keep_if test (x ∷ ys)
  keep_if-insert x [] = refl
  keep_if-insert x (y ∷ ys) = elim (Bool-cases (after x y)) [
    | inl e ↦ rw e (ground (arith, apart x y e, keep_if-insert x ys))
    | inr e ↦ rw e
  ]

  pub keep_if-sort : (xs : List A) → keep_if test (sort after xs) ≡ keep_if test xs
  keep_if-sort [] = refl
  keep_if-sort (x ∷ xs) = keep_if-insert x (sort after xs) ∙ rw (keep_if-sort xs)

-- What every element has, every element has after the sort.
module _ {ℓ κ} {A : Type ℓ} (after : A → A → Bool) (P : A → Type κ) where
  insert-All : (x : A) (ys : List A) → P x → All P ys → All P (insert after x ys)
  insert-All x [] p h = (p, tt)
  insert-All x (y ∷ ys) p h = elim (Bool-cases (after x y)) [
    | inl e ↦ rw e (h.0, insert-All x ys p h.1)
    | inr e ↦ rw e (p, h)
  ]

  pub sort-All : (xs : List A) → All P xs → All P (sort after xs)
  sort-All [] h = tt
  sort-All (x ∷ xs) h = insert-All x (sort after xs) h.0 (sort-All xs h.1)

-- What some element has, some element has after the sort.
module _ {ℓ} {A : Type ℓ} (after : A → A → Bool) (P : A → Type 0) where
  insert-Any_here : (x : A) (ys : List A) → P x → Any P (insert after x ys)
  insert-Any_here x [] p = inl p
  insert-Any_here x (y ∷ ys) p = elim (Bool-cases (after x y)) [
    | inl e ↦ rw e (inr (insert-Any_here x ys p))
    | inr e ↦ rw e (inl p)
  ]

  insert-Any_there : (x : A) (ys : List A) → Any P ys → Any P (insert after x ys)
  insert-Any_there x [] h = absurd h
  insert-Any_there x (y ∷ ys) h = elim (Bool-cases (after x y)) [
    | inr e ↦ rw e (inr h)
    | inl e ↦ elim h [ inl q ↦ rw e (inl q) | inr k ↦ rw e (inr (insert-Any_there x ys k)) ]
  ]

  pub sort-Any : (xs : List A) → Any P xs → Any P (sort after xs)
  sort-Any [] h = absurd h
  sort-Any (x ∷ xs) (inl p) = insert-Any_here x (sort after xs) p
  sort-Any (x ∷ xs) (inr h) = insert-Any_there x (sort after xs) (sort-Any xs h)
