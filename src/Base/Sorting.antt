-- ===== src/Base/Sorting.antt =====
-- `sort.Slice` and `sort.Strings`: insertion sort by a strict order. The program sorts by orders
-- under which different entries are never equal, so every sort gives the same list.
use mathlib.Core.Path.{◌≡◌, refl, ap, ◌∙◌}
use mathlib.Core.Logic.{◌⊎◌, inl, inr, ◌↔◌}
use mathlib.Core.Bool.{Bool, true, false, ◌||◌}
use mathlib.Core.List.{List, [], ◌∷◌}
use native.Mathlib.Omega.{arith}
use job_time_stock_watcher.Base.Tests.{if◌then◌else◌, Bool-cases}
use job_time_stock_watcher.Base.Lists.{All, All-map, In, any}

module _ {ℓ} {A : Type ℓ} (less : A → A → Bool) where
  unfoldable pub insert_by : A → List A → List A
  insert_by a [] = a ∷ []
  insert_by a (x ∷ xs) = let rest = insert_by a xs in if less x a then x ∷ rest else a ∷ x ∷ xs

  unfoldable pub sort_by : List A → List A
  unfolding insert_by
  sort_by [] = []
  sort_by (x ∷ xs) = insert_by x (sort_by xs)

  -- No entry is after one that follows it.
  abbrev pub IsSorted : List A → Type 0
  IsSorted [] = Unit
  IsSorted (x ∷ xs) = All (λ y. less y x ≡ false) xs × IsSorted xs

module _ {ℓ} {A : Type ℓ} (less : A → A → Bool) where
  In-insert_by : (b a : A) (xs : List A) → In b (insert_by less a xs) ↔ ((a ≡ b) ⊎ In b xs)
  unfolding insert_by
  In-insert_by b a [] = (λ h. h, λ h. h)
  In-insert_by b a (x ∷ xs) = elim (Bool-cases (less x a)) [
    | inl e ↦
        let ih = In-insert_by b a xs in
        rw e (
          λ h. elim h [
            | inl p ↦ inr (inl p)
            | inr r ↦ elim (ih.0 r) [ inl p ↦ inl p | inr q ↦ inr (inr q) ]
          ],
          λ h. elim h [
            | inl p ↦ inr (ih.1 (inl p))
            | inr r ↦ elim r [ inl p ↦ inl p | inr q ↦ inr (ih.1 (inr q)) ]
          ],
        )
    | inr e ↦ rw e (λ h. h, λ h. h)
  ]

  -- Sorting keeps the entries.
  pub In-sort_by : (b : A) (xs : List A) → In b (sort_by less xs) ↔ In b xs
  unfolding sort_by
  In-sort_by b [] = (λ h. h, λ h. h)
  In-sort_by b (x ∷ xs) =
      let ih = In-sort_by b xs in
      let step = In-insert_by b x (sort_by less xs) in
      (
        λ h. elim (step.0 h) [ inl p ↦ inl p | inr q ↦ inr (ih.0 q) ],
        λ h. elim h [ inl p ↦ step.1 (inl p) | inr q ↦ step.1 (inr (ih.1 q)) ],
      )

  any-insert_by :
      (p : A → Bool) (a : A) (xs : List A) → any p (insert_by less a xs) ≡ (p a || any p xs)
  unfolding insert_by
  any-insert_by p a [] = refl
  any-insert_by p a (x ∷ xs) = elim (Bool-cases (less x a)) [
    | inl e ↦ let ih = any-insert_by p a xs in rw e (ground (arith, ih))
    | inr e ↦ rw e refl
  ]

  pub any-sort_by : (p : A → Bool) (xs : List A) → any p (sort_by less xs) ≡ any p xs
  unfolding sort_by
  any-sort_by p [] = refl
  any-sort_by p (x ∷ xs) =
      let ih = any-sort_by p xs in any-insert_by p x (sort_by less xs) ∙ ap (λ b. p x || b) ih

  module _ (asym : (x y : A) → less x y ≡ true → less y x ≡ false)
      (co_trans : (x y z : A) → less y x ≡ false → less z y ≡ false → less z x ≡ false) where
    insert_by-All :
        (z a : A) (xs : List A)
        → less a z ≡ false
        → All (λ y. less y z ≡ false) xs
        → All (λ y. less y z ≡ false) (insert_by less a xs)
    unfolding insert_by
    insert_by-All z a [] h k = (h, tt)
    insert_by-All z a (x ∷ xs) h k = elim (Bool-cases (less x a)) [
      | inl e ↦ rw e (k.0, insert_by-All z a xs h k.1)
      | inr e ↦ rw e (h, k)
    ]

    insert_by-IsSorted :
        (a : A) (xs : List A) → IsSorted less xs → IsSorted less (insert_by less a xs)
    unfolding insert_by
    insert_by-IsSorted a [] h = (tt, tt)
    insert_by-IsSorted a (x ∷ xs) h = elim (Bool-cases (less x a)) [
      | inl e ↦ rw e (insert_by-All x a xs (asym x a e) h.0, insert_by-IsSorted a xs h.1)
      | inr e ↦ rw e (
        (e, All-map (λ y. less y x ≡ false) (λ y. less y a ≡ false) xs (λ y. co_trans a x y e) h.0),
        h,
      )
    ]

    pub sort_by-IsSorted : (xs : List A) → IsSorted less (sort_by less xs)
    unfolding sort_by
    sort_by-IsSorted [] = tt
    sort_by-IsSorted (x ∷ xs) = insert_by-IsSorted x (sort_by less xs) (sort_by-IsSorted xs)
