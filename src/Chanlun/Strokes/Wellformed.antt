-- ===== src/Chanlun/Strokes/Wellformed.antt =====
-- What every stroke is made of.
use job_time_stock_watcher.Base.{
  ℕ, zero, suc, ◌+◌, ◌<◌, ◌≤◌, true, false, List, [], ◌∷◌, Option, none, some, ◌≡◌, refl, arith,
  Bool-cases, leb, inl, inr, All, get_elem?, length, min, max, ◌⊎◌,
}
use job_time_stock_watcher.Chanlun.{top, bottom, Bar, Fractal}
use job_time_stock_watcher.Chanlun.Fractals.{same_mark}
use job_time_stock_watcher.Chanlun.Strokes.{
  select_loop, select_stroke_end, extremes, better, breaks, misplaced, improves,
}

-- `end` can end a stroke from `first`: the other mark, later, and on the right side of its price.
abbrev pub Ends : Fractal → Fractal → Type 0
Ends first end =
    (first.index < end.index)
    × (((first.mark ≡ bottom) × (end.mark ≡ top) × (first.price < end.price))
        ⊎ ((first.mark ≡ top) × (end.mark ≡ bottom) × (end.price < first.price)))

takes_candidate :
    (first candidate : Fractal)
    → leb candidate.index first.index ≡ false
    → same_mark candidate.mark first.mark ≡ false
    → misplaced first candidate ≡ false
    → Ends first candidate
takes_candidate first candidate h k l = ground arith

module _ {κ} (P : Fractal → Type κ) (first : Fractal) where
  abbrev pub Chosen : Option Fractal → Type κ
  Chosen none = Unit
  Chosen (some end) = Ends first end × P end

  better-Chosen :
      (selected : Option Fractal) (candidate : Fractal)
      → Chosen selected
      → Ends first candidate × P candidate
      → Chosen (some (better first selected candidate))
  better-Chosen none candidate h k = k
  better-Chosen (some selected) candidate h k =
      elim (Bool-cases (improves first selected candidate)) [ inl e ↦ rw e k | inr e ↦ rw e h ]

  select_loop-Chosen :
      (selected : Option Fractal) (candidates : List Fractal)
      → Chosen selected
      → All P candidates
      → Chosen (select_loop first selected candidates)
  unfolding select_loop
  select_loop-Chosen selected [] h k = h
  select_loop-Chosen selected (candidate ∷ rest) h k =
      let skip = select_loop-Chosen selected rest h k.1 in
      elim (Bool-cases (leb candidate.index first.index)) [
        | inl a ↦ rw a skip
        | inr a ↦ elim (Bool-cases (same_mark candidate.mark first.mark)) [
          | inl b ↦ elim (Bool-cases (breaks first candidate)) [
            | inl c ↦ rw a (rw b (rw c h))
            | inr c ↦ rw a (rw b (rw c skip))
          ]
          | inr b ↦ elim (Bool-cases (misplaced first candidate)) [
            | inl c ↦ rw a (rw b (rw c skip))
            | inr c ↦ rw a (
                rw b (
                  rw c (
                    select_loop-Chosen (some (better first selected candidate)) rest
                      (better-Chosen selected candidate h
                        (takes_candidate first candidate a b c, k.0))
                      k.1)))
          ]
        ]
      ]

  pub select_stroke_end-Chosen :
      (candidates : List Fractal) → All P candidates → Chosen (select_stroke_end first candidates)
  unfolding select_stroke_end
  select_stroke_end-Chosen candidates h = select_loop-Chosen none candidates tt h

-- The range from `lo` to `hi` contains the bar's.
abbrev Within : ℕ → ℕ → Option Bar → Type 0
Within lo hi none = false ≡ true
Within lo hi (some b) = (lo ≤ b.low) × (b.high ≤ hi)

-- The `n` bars from index `i` on are in the list, and within the range from `lo` to `hi`.
abbrev pub Spans : List Bar → ℕ → ℕ → ℕ → ℕ → Type 0
Spans bars i zero lo hi = Unit
Spans bars i (suc n) lo hi = Within lo hi (get_elem? bars i) × Spans bars (i + 1) n lo hi

abbrev pub Extreme : List Bar → ℕ → ℕ → ℕ → ℕ → Option (ℕ × ℕ) → Type 0
Extreme bars i n hi lo none = false ≡ true
Extreme bars i n hi lo (some (high, low)) = (hi ≤ high) × (low ≤ lo) × Spans bars i n low high

Extreme-cons :
    (bars : List Bar) (i n hi lo : ℕ) (b : Bar) (r : Option (ℕ × ℕ))
    → get_elem? bars i ≡ some b
    → Extreme bars (i + 1) n (max hi b.high) (min lo b.low) r
    → Extreme bars i (suc n) hi lo r
Extreme-cons bars i n hi lo b none h k = k
Extreme-cons bars i n hi lo b (some (high, low)) h k =
    let (a, c, d) = k in
    (ground (arith, a), ground (arith, c), (rw h (ground (arith, c), ground (arith, a)), d))

pub get_elem?-some :
    (bars : List Bar) (i : ℕ) → i < length bars → (b : Bar) × (get_elem? bars i ≡ some b)
get_elem?-some [] i h = absurd (omega arith)
get_elem?-some (b ∷ bars) zero h = (b, refl)
get_elem?-some (b ∷ bars) (suc i) h = get_elem?-some bars i (omega arith)

-- `n` bars from an index on, all in range.
pub extremes_lem :
    (bars : List Bar) (i n hi lo : ℕ)
    → i + n ≤ length bars
    → Extreme bars i n hi lo (extremes bars i n hi lo)
unfolding extremes
extremes_lem bars i zero hi lo h = (omega arith, omega arith, tt)
extremes_lem bars i (suc n) hi lo h =
    let (b, e) = get_elem?-some bars i (omega arith) in
    rw (e, extremes)
      (Extreme-cons bars i n hi lo b (extremes bars (i + 1) n (max hi b.high) (min lo b.low)) e
        (extremes_lem bars (i + 1) n (max hi b.high) (min lo b.low) (omega arith)))
