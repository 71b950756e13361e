-- ===== src/Calendar/History/Dataset/Ascending.antt =====
-- Ascending lists of days are the same list where they have the same days.
use job_time_stock_watcher.Base.{
  ℕ, ◌<◌, Bool, true, false, not, List, [], ◌∷◌, all, any-sort_by, sort_by, ltb, ◌==◌, ==_iff, All,
  All-map, ◌≡◌, refl, sym, ◌∙◌, subst, inl, inr, Bool-cases, arith,
}
use job_time_stock_watcher.Calendar.History.{chained}
use job_time_stock_watcher.Calendar.History.Dataset.{has_day}
use job_time_stock_watcher.Calendar.History.Dataset.Seen.{Ascends, Fresh, sort_by-Ascends}

after-unlisted : (x : ℕ) (xs : List ℕ) → All (λ y. x < y) xs → has_day xs x ≡ false
after-unlisted x [] h = refl
after-unlisted x (y ∷ ys) h =
    let rest = after-unlisted x ys h.1 in let first = h.0 in ground (arith, rest, first)

pub Ascends-Fresh : (xs : List ℕ) → Ascends xs → Fresh xs
Ascends-Fresh [] h = tt
Ascends-Fresh (x ∷ xs) h = (after-unlisted x xs h.0, Ascends-Fresh xs h.1)

before-All : (z x : ℕ) (xs : List ℕ) → z < x → All (λ y. x < y) xs → All (λ y. z < y) xs
before-All z x xs h k = All-map (λ y. x < y) (λ y. z < y) xs (λ y q. omega (arith, h, q)) k

-- The first of two ascending lists of the same days is the same.
same_first :
    (x y : ℕ) (xs ys : List ℕ)
    → All (λ z. x < z) xs
    → All (λ z. y < z) ys
    → ((z : ℕ) → has_day (x ∷ xs) z ≡ has_day (y ∷ ys) z)
    → x ≡ y
same_first x y xs ys h k same = elim (Bool-cases (ltb x y)) [
  | inl e ↦
      let low : x < y = ground (arith, e) in
      let gone = after-unlisted x (y ∷ ys) (low, before-All x y ys low k) in
      let one = same x in let impossible : false ≡ true = ground (arith, gone, one) in cc
  | inr e ↦ elim (Bool-cases (ltb y x)) [
    | inl f ↦
        let low : y < x = ground (arith, f) in
        let gone = after-unlisted y (x ∷ xs) (low, before-All y x xs low h) in
        let one = same y in let impossible : false ≡ true = ground (arith, gone, one) in cc
    | inr f ↦ ground (arith, e, f)
  ]
]

pub Ascends-unique :
    (xs ys : List ℕ) → Ascends xs → Ascends ys → ((z : ℕ) → has_day xs z ≡ has_day ys z) → xs ≡ ys
Ascends-unique [] [] h k same = refl
Ascends-unique [] (y ∷ ys) h k same =
    let one = same y in let impossible : false ≡ true = ground (arith, one) in cc
Ascends-unique (x ∷ xs) [] h k same =
    let one = same x in let impossible : false ≡ true = ground (arith, one) in cc
Ascends-unique (x ∷ xs) (y ∷ ys) h k same =
    let first = same_first x y xs ys h.0 k.0 same in
    let rest : (z : ℕ) → has_day xs z ≡ has_day ys z = λ z. elim (Bool-cases (x == z)) [
      | inl e ↦
          let zx = (==_iff x z).0 e in
          let gone = subst (λ u. has_day xs u ≡ false) zx (after-unlisted x xs h.0) in
          let gone' =
            subst (λ u. has_day ys u ≡ false) (sym first ∙ zx) (after-unlisted y ys k.0) in
          gone ∙ sym gone'
      | inr e ↦ let one = same z in ground (arith, one, e, first)
    ] in
    let tails = Ascends-unique xs ys h.1 k.1 rest in rw (first, tails) refl

-- Sorting an ascending list changes nothing.
pub sort_by-same : (xs : List ℕ) → Ascends xs → sort_by ltb xs ≡ xs
sort_by-same xs h =
    Ascends-unique (sort_by ltb xs) xs (sort_by-Ascends xs (Ascends-Fresh xs h)) h
      (λ z. any-sort_by ltb (λ y. y == z) xs)

pub Ascends-unequal : (xs : List ℕ) → Ascends xs → chained (λ x y. not (y == x)) xs ≡ true
Ascends-unequal [] h = refl
Ascends-unequal (x ∷ []) h = refl
Ascends-unequal (x ∷ y ∷ ys) h =
    let first = h.0.0 in let rest = Ascends-unequal (y ∷ ys) h.1 in ground (arith, first, rest)

pub all-within :
    (p : ℕ → Bool) (xs : List ℕ) → ((x : ℕ) → has_day xs x ≡ true → p x ≡ true) → all p xs ≡ true
all-within p [] h = refl
all-within p (x ∷ xs) h =
    let first = h x (ground arith) in
    let rest = all-within p xs (λ y k. h y (ground (arith, k))) in ground (arith, first, rest)
