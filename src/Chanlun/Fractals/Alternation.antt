-- ===== src/Chanlun/Fractals/Alternation.antt =====
-- The marks of the fractals alternate, and their indices ascend.
use job_time_stock_watcher.Base.{
  ℕ, ◌+◌, ◌<◌, true, false, List, [], ◌∷◌, Option, none, some, ◌≡◌, refl, arith, Bool-cases, inl,
  inr, ◌≤◌, subst, sym, Adjacent, Adjacent-reverse,
}
use job_time_stock_watcher.Chanlun.{Mark, top, bottom, Bar, Fractal}
use job_time_stock_watcher.Chanlun.Fractals.{
  fractal_at, append_fractal, detect_loop, detect_fractals, same_mark, more_extreme,
}

-- `g` follows `f`: the other mark, and a greater index.
abbrev pub Follows : Fractal → Fractal → Type 0
Follows f g = (same_mark f.mark g.mark ≡ false) × (f.index < g.index)

-- The newest fractal is from before index `i`.
abbrev Below : List Fractal → ℕ → Type 0
Below [] i = Unit
Below (f ∷ _) i = f.index < i

same_mark_carried :
    (a b c : Mark) → same_mark a b ≡ false → same_mark b c ≡ true → same_mark a c ≡ false
same_mark_carried top top c h k = ground (arith, h)
same_mark_carried top bottom top h k = ground (arith, k)
same_mark_carried top bottom bottom h k = refl
same_mark_carried bottom top top h k = refl
same_mark_carried bottom top bottom h k = ground (arith, k)
same_mark_carried bottom bottom c h k = ground (arith, h)

append_fractal_alternates :
    (out : List Fractal) (f : Fractal)
    → Adjacent (λ g f. Follows f g) out
    → Below out f.index
    → Adjacent (λ g f. Follows f g) (append_fractal out f)
      × Below (append_fractal out f) (f.index + 1)
unfolding append_fractal
append_fractal_alternates [] f h k = (tt, omega arith)
append_fractal_alternates (last ∷ []) f h k = elim (Bool-cases (same_mark last.mark f.mark)) [
  | inl e ↦ elim (Bool-cases (more_extreme last f)) [
    | inl m ↦ rw e (rw m (tt, omega arith))
    | inr m ↦ rw e (rw m (tt, omega arith))
  ]
  | inr e ↦ rw e (((e, k), tt), omega arith)
]
append_fractal_alternates (last ∷ older ∷ out) f h k =
    elim (Bool-cases (same_mark last.mark f.mark)) [
      | inl e ↦ elim (Bool-cases (more_extreme last f)) [
        | inl m ↦ rw e (
            rw m (
              ((same_mark_carried older.mark last.mark f.mark h.0.0 e, omega (arith, h.0)), h.1),
              omega arith,
            ))
        | inr m ↦ rw e (rw m (h, omega arith))
      ]
      | inr e ↦ rw e (((e, k), h), omega arith)
    ]

Below-later : (out : List Fractal) (i j : ℕ) → Below out i → i ≤ j → Below out j
Below-later [] i j h k = tt
Below-later (f ∷ _) i j h k = omega arith

abbrev with_found : List Fractal → Option Fractal → List Fractal
with_found out none = out
with_found out (some f) = append_fractal out f

append_found_alternates :
    (out : List Fractal) (i : ℕ) (found : Option Fractal)
    → Adjacent (λ g f. Follows f g) out
    → Below out i
    → ((f : Fractal) → found ≡ some f → f.index ≡ i)
    → Adjacent (λ g f. Follows f g) (with_found out found) × Below (with_found out found) (i + 1)
append_found_alternates out i none h k l = (h, Below-later out i (i + 1) k (omega arith))
append_found_alternates out i (some f) h k l =
    let e = l f refl in
    let (a, b) = append_fractal_alternates out f h (subst (Below out) (sym e) k) in
    (a, subst (λ j. Below (append_fractal out f) (j + 1)) e b)

fractal_at_index :
    (i : ℕ) (left middle right : Bar) (f : Fractal)
    → fractal_at i left middle right ≡ some f
    → f.index ≡ i
unfolding fractal_at
fractal_at_index i left middle right f h = ground (arith, h)

detect_loop_alternates :
    (i : ℕ) (out : List Fractal) (bars : List Bar)
    → Adjacent (λ g f. Follows f g) out
    → Below out i
    → Adjacent (λ g f. Follows f g) (detect_loop i out bars)
unfolding detect_loop
detect_loop_alternates i out (left ∷ middle ∷ right ∷ bars) h k =
    let found = fractal_at i left middle right in
    let (a, b) = append_found_alternates out i found h k (fractal_at_index i left middle right) in
    detect_loop_alternates (i + 1) (elim found [ none ↦ out | some f ↦ append_fractal out f ])
      (middle ∷ right ∷ bars) a b
detect_loop_alternates i out _ h k = h

-- The fractals that `detectFractals` reports are alternately tops and bottoms, and their indices
-- ascend strictly.
pub detect_fractals_alternates : (bars : List Bar) → Adjacent Follows (detect_fractals bars)
unfolding detect_fractals
detect_fractals_alternates bars =
    Adjacent-reverse Follows (detect_loop 1 [] bars) (detect_loop_alternates 1 [] bars tt tt)
