-- ===== src/Base/Maps.antt =====
-- Go maps keyed by strings, as association lists. A range over a map visits each key once in no
-- fixed order; where an operation depends on the order, its module says so.
use mathlib.Core.Path.{◌≡◌, refl, ap, ◌∙◌}
use mathlib.Core.List.{List, [], ◌∷◌}
use mathlib.Core.Option
use mathlib.Core.Option.{Option, none, some}
use native.Mathlib.Omega.{arith}
use mathlib.Core.Logic.{inl, inr}
use job_time_stock_watcher.Base.Tests.{if◌then◌else◌, Bool-cases}
use job_time_stock_watcher.Base.Lists.{In}
use job_time_stock_watcher.Base.Bytes.{Text, text_eq, text_eq_iff, text_eq_refl}

abbrev pub Map {ℓ} : Type ℓ → Type ℓ
Map V = List (Text × V)

module _ {ℓ} {V : Type ℓ} where
  unfoldable pub lookup : Text → Map V → Option V
  lookup k [] = none
  lookup k ((j, v) ∷ m) = let rest = lookup k m in if text_eq j k then some v else rest

  unfoldable pub insert : Text → V → Map V → Map V
  insert k v [] = (k, v) ∷ []
  insert k v ((j, w) ∷ m) =
      let rest = insert k v m in if text_eq j k then (j, v) ∷ m else (j, w) ∷ rest

  unfoldable pub delete : Text → Map V → Map V
  delete k [] = []
  delete k ((j, w) ∷ m) = let rest = delete k m in if text_eq j k then rest else (j, w) ∷ rest

  -- Each entry rewritten by a function of its key and value.
  unfoldable pub map_values {κ} : {W : Type κ} → (Text → V → W) → Map V → Map W
  map_values f [] = []
  map_values f ((k, v) ∷ m) = (k, f k v) ∷ map_values f m

module _ {ℓ} {V : Type ℓ} where
  pub lookup-insert :
      (k j : Text) (v : V) (m : Map V)
      → lookup j (insert k v m) ≡ (if text_eq k j then some v else lookup j m)
  unfolding lookup insert
  lookup-insert k j v [] = refl
  lookup-insert k j v ((i, w) ∷ m) =
      ground (arith, text_eq_iff k j, text_eq_iff i k, text_eq_iff i j, lookup-insert k j v m)

  pub lookup-insert_self : (k : Text) (v : V) (m : Map V) → lookup k (insert k v m) ≡ some v
  lookup-insert_self k v m = simp (lookup-insert, text_eq_refl)

  pub lookup-delete :
      (k j : Text) (m : Map V) → lookup j (delete k m) ≡ (if text_eq k j then none else lookup j m)
  unfolding lookup delete
  lookup-delete k j [] = ground arith
  lookup-delete k j ((i, w) ∷ m) =
      ground (arith, text_eq_iff k j, text_eq_iff i k, text_eq_iff i j, lookup-delete k j m)

  pub lookup-map_values {κ} :
      {W : Type κ} (f : Text → V → W) (k : Text) (m : Map V)
      → lookup k (map_values f m) ≡ Option.map (f k) (lookup k m)
  unfolding lookup map_values
  lookup-map_values f k [] = refl
  lookup-map_values f k ((j, v) ∷ m) = ground (arith, text_eq_iff j k, lookup-map_values f k m)

module _ {ℓ} {V : Type ℓ} where
  -- No key stands twice.
  abbrev pub IsMap : Map V → Type ℓ
  IsMap [] = Unit
  IsMap ((k, v) ∷ m) = (lookup k m ≡ none) × IsMap m

  pub insert-IsMap : (k : Text) (v : V) (m : Map V) → IsMap m → IsMap (insert k v m)
  unfolding insert lookup
  insert-IsMap k v [] h = (refl, tt)
  insert-IsMap k v ((j, w) ∷ m) h = elim (Bool-cases (text_eq j k)) [
    | inl e ↦ rw e h
    | inr e ↦ rw e (
      rw (lookup-insert k j v m) (ground (arith, text_eq_iff j k, text_eq_iff k j)),
      insert-IsMap k v m h.1,
    )
  ]

  pub delete-IsMap : (k : Text) (m : Map V) → IsMap m → IsMap (delete k m)
  unfolding delete
  delete-IsMap k [] h = tt
  delete-IsMap k ((j, w) ∷ m) h = elim (Bool-cases (text_eq j k)) [
    | inl e ↦ rw e (delete-IsMap k m h.1)
    | inr e ↦ rw e (rw (lookup-delete k j m) (ground arith), delete-IsMap k m h.1)
  ]

  -- An entry of a map is what a look-up of its key finds.
  pub In-lookup : (k : Text) (v : V) (m : Map V) → IsMap m → In (k, v) m → lookup k m ≡ some v
  unfolding lookup
  In-lookup k v [] h p = absurd p.1
  In-lookup k v ((j, w) ∷ m) h p = elim p [
    | inl e ↦
        ground (arith, text_eq_refl k, ap (λ (t : Text × V). t.0) e, ap (λ (t : Text × V). t.1) e)
    | inr r ↦ ground (arith, In-lookup k v m h.1 r, text_eq_iff j k)
  ]

  pub lookup-In : (k : Text) (v : V) (m : Map V) → lookup k m ≡ some v → In (k, v) m
  unfolding lookup
  lookup-In k v [] h = cc
  lookup-In k v ((j, w) ∷ m) h = elim (Bool-cases (text_eq j k)) [
    | inl e ↦ inl (ground (arith, text_eq_iff j k))
    | inr e ↦ inr (lookup-In k v m (ground arith))
  ]

module _ {ℓ κ} {V : Type ℓ} {W : Type κ} where
  pub map_values-IsMap : (f : Text → V → W) (m : Map V) → IsMap m → IsMap (map_values f m)
  unfolding map_values
  map_values-IsMap f [] h = tt
  map_values-IsMap f ((k, v) ∷ m) h =
      (lookup-map_values f k m ∙ ap (Option.map (f k)) h.0, map_values-IsMap f m h.1)
