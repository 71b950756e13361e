-- ===== src/Base/Neighbours.antt =====
-- Relations between neighbours in a list, and what reversing a list makes of them.
use mathlib.Core.Path.{◌≡◌, sym, ap, ◌∙◌, subst}
use mathlib.Core.List.{List, [], ◌∷◌, ◌++◌, reverse, reverse-cons, append_assoc, append-nil}
use job_time_stock_watcher.Base.Lists.{All, All-append}

module _ {ℓ κ} {A : Type ℓ} where
  abbrev pub Adjacent : (A → A → Type κ) → List A → Type κ
  Adjacent R [] = Unit
  Adjacent R (x ∷ []) = Unit
  Adjacent R (x ∷ y ∷ xs) = R x y × Adjacent R (y ∷ xs)

  -- All pairs of neighbours but the last.
  abbrev pub AdjacentInit : (A → A → Type κ) → List A → Type κ
  AdjacentInit R [] = Unit
  AdjacentInit R (x ∷ []) = Unit
  AdjacentInit R (x ∷ y ∷ []) = Unit
  AdjacentInit R (x ∷ y ∷ z ∷ xs) = R x y × AdjacentInit R (y ∷ z ∷ xs)

  -- All pairs of neighbours but the first.
  abbrev pub AdjacentTail : (A → A → Type κ) → List A → Type κ
  AdjacentTail R [] = Unit
  AdjacentTail R (x ∷ xs) = Adjacent R xs

reverse_step {ℓ} :
    {A : Type ℓ} (x : A) (xs bs : List A) → reverse (x ∷ xs) ++ bs ≡ reverse xs ++ (x ∷ bs)
reverse_step x xs bs = ap (λ t. t ++ bs) (reverse-cons x xs) ∙ append_assoc (reverse xs) (x ∷ []) bs

module _ {ℓ κ} {A : Type ℓ} (R : A → A → Type κ) where
  reverse_onto :
      (x : A) (xs bs : List A)
      → Adjacent (λ a b. R b a) (x ∷ xs)
      → Adjacent R (x ∷ bs)
      → Adjacent R (reverse (x ∷ xs) ++ bs)
  reverse_onto x [] bs h k = k
  reverse_onto x (y ∷ xs) bs h k =
      subst (Adjacent R) (sym (reverse_step x (y ∷ xs) bs))
        (reverse_onto y xs (x ∷ bs) h.1 (h.0, k))

  pub Adjacent-reverse : (xs : List A) → Adjacent (λ a b. R b a) xs → Adjacent R (reverse xs)
  Adjacent-reverse [] h = tt
  Adjacent-reverse (x ∷ xs) h =
      subst (Adjacent R) (append-nil (reverse (x ∷ xs))) (reverse_onto x xs [] h tt)

  reverse_onto_tail :
      (x y : A) (xs bs : List A)
      → AdjacentInit (λ a b. R b a) (x ∷ y ∷ xs)
      → Adjacent R (x ∷ bs)
      → AdjacentTail R (reverse (x ∷ y ∷ xs) ++ bs)
  reverse_onto_tail x y [] bs h k = k
  reverse_onto_tail x y (z ∷ xs) bs h k =
      subst (AdjacentTail R) (sym (reverse_step x (y ∷ z ∷ xs) bs))
        (reverse_onto_tail y z xs (x ∷ bs) h.1 (h.0, k))

  pub AdjacentTail-reverse :
      (xs : List A) → AdjacentInit (λ a b. R b a) xs → AdjacentTail R (reverse xs)
  AdjacentTail-reverse [] h = tt
  AdjacentTail-reverse (x ∷ []) h = tt
  AdjacentTail-reverse (x ∷ y ∷ xs) h =
      subst (AdjacentTail R) (append-nil (reverse (x ∷ y ∷ xs))) (reverse_onto_tail x y xs [] h tt)

module _ {ℓ κ} {A : Type ℓ} (P : A → Type κ) where
  pub All-reverse : (xs : List A) → All P xs → All P (reverse xs)
  All-reverse [] h = tt
  All-reverse (x ∷ xs) h = subst (All P) (append-nil (reverse (x ∷ xs))) (
      subst (All P) (sym (reverse_step x xs []))
        (All-append P (reverse xs) (x ∷ []) (All-reverse xs h.1) (h.0, tt)))
