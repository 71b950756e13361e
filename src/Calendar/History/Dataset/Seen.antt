-- ===== src/Calendar/History/Dataset/Seen.antt =====
-- The days that the windows have in a range, each once and in ascending order.
use job_time_stock_watcher.Base.{
  ℕ, ◌<◌, Bool, true, false, not, ◌&&◌, ◌||◌, List, [], ◌∷◌, any, any-sort_by, insert_by, sort_by,
  ltb, ◌==◌, ==_iff, if◌then◌else◌, All, All-map, ◌≡◌, refl, ap, ◌∙◌, inl, inr, Bool-cases, arith,
}
use job_time_stock_watcher.Calendar.History.{is_inside, chained}
use job_time_stock_watcher.Calendar.History.Coverage.{Window}
use job_time_stock_watcher.Calendar.History.Dataset.{has_day, add_days, seen_days}

abbrev pub Ascends : List ℕ → Type 0
Ascends [] = Unit
Ascends (x ∷ xs) = All (λ y. x < y) xs × Ascends xs

pub Ascends-chained : (xs : List ℕ) → Ascends xs → chained ltb xs ≡ true
Ascends-chained [] h = refl
Ascends-chained (x ∷ []) h = refl
Ascends-chained (x ∷ y ∷ ys) h =
    let first = h.0.0 in let rest = Ascends-chained (y ∷ ys) h.1 in ground (arith, first, rest)

-- No entry is twice in the list.
abbrev pub Fresh : List ℕ → Type 0
Fresh [] = Unit
Fresh (x ∷ xs) = (has_day xs x ≡ false) × Fresh xs

insert_by-after :
    (z a : ℕ) (xs : List ℕ) → z < a → All (λ y. z < y) xs → All (λ y. z < y) (insert_by ltb a xs)
unfolding insert_by
insert_by-after z a [] h k = (h, tt)
insert_by-after z a (x ∷ xs) h k = elim (Bool-cases (ltb x a)) [
  | inl e ↦ rw e (k.0, insert_by-after z a xs h k.1)
  | inr e ↦ rw e (h, k)
]

insert_by-Ascends :
    (a : ℕ) (xs : List ℕ) → Ascends xs → has_day xs a ≡ false → Ascends (insert_by ltb a xs)
unfolding insert_by
insert_by-Ascends a [] h f = (tt, tt)
insert_by-Ascends a (x ∷ xs) h f =
    let apart : (x == a) ≡ false = ground (arith, f) in
    let rest : has_day xs a ≡ false = ground (arith, f) in
    elim (Bool-cases (ltb x a)) [
      | inl e ↦
          rw e (insert_by-after x a xs (ground (arith, e)) h.0, insert_by-Ascends a xs h.1 rest)
      | inr e ↦
          let before : a < x = ground (arith, e, apart) in
          rw e (
            (before, All-map (λ y. x < y) (λ y. a < y) xs (λ y k. omega (arith, before, k)) h.0),
            h,
          )
    ]

pub sort_by-Ascends : (xs : List ℕ) → Fresh xs → Ascends (sort_by ltb xs)
unfolding sort_by
sort_by-Ascends [] h = tt
sort_by-Ascends (x ∷ xs) h =
    let same = any-sort_by ltb (λ y. y == x) xs in
    insert_by-Ascends x (sort_by ltb xs) (sort_by-Ascends xs h.1) (same ∙ h.0)

have_more : (s n i d r : Bool) → n ≡ (s || (i && d)) → (n || (i && r)) ≡ (s || (i && (d || r)))
have_more s n i d r h = ground (arith, h)

module _ (from through : ℕ) where
  -- The next days seen, after one.
  abbrev next_seen : List ℕ → ℕ → List ℕ
  next_seen seen d = if is_inside from through d && not (has_day seen d) then d ∷ seen else seen

  next_seen-Fresh : (seen : List ℕ) (d : ℕ) → Fresh seen → Fresh (next_seen seen d)
  next_seen-Fresh seen d h = elim (Bool-cases (is_inside from through d && not (has_day seen d))) [
    | inl e ↦ let unseen : has_day seen d ≡ false = ground (arith, e) in rw e (unseen, h)
    | inr e ↦ rw e h
  ]

  next_seen-has :
      (seen : List ℕ) (d x : ℕ)
      → has_day (next_seen seen d) x ≡ (has_day seen x || (is_inside from through x && (d == x)))
  next_seen-has seen d x = elim (Bool-cases (d == x)) [
    | inl e ↦
        let same = ap (has_day seen) ((==_iff d x).0 e) in
        elim (Bool-cases (is_inside from through d && not (has_day seen d))) [
          | inl f ↦ rw f (ground (arith, e, f))
          | inr f ↦ rw f (ground (arith, e, f, same))
        ]
    | inr e ↦ elim (Bool-cases (is_inside from through d && not (has_day seen d))) [
      | inl f ↦ rw f (ground (arith, e))
      | inr f ↦ rw f (ground (arith, e))
    ]
  ]

  add_days-Fresh : (ds seen : List ℕ) → Fresh seen → Fresh (add_days from through seen ds)
  add_days-Fresh [] seen h = h
  add_days-Fresh (d ∷ ds) seen h = add_days-Fresh ds (next_seen seen d) (next_seen-Fresh seen d h)

  add_days-has :
      (ds seen : List ℕ) (x : ℕ)
      → has_day (add_days from through seen ds) x
        ≡ (has_day seen x || (is_inside from through x && has_day ds x))
  add_days-has [] seen x = ground arith
  add_days-has (d ∷ ds) seen x =
      let ih = add_days-has ds (next_seen seen d) x in
      let one = next_seen-has seen d x in
      ih
      ∙ have_more (has_day seen x) (has_day (next_seen seen d) x) (is_inside from through x)
          (d == x) (has_day ds x) one

  pub seen_days-Fresh :
      (ws : List Window) (seen : List ℕ) → Fresh seen → Fresh (seen_days from through seen ws)
  seen_days-Fresh [] seen h = h
  seen_days-Fresh (w ∷ ws) seen h =
      seen_days-Fresh ws (add_days from through seen w.days) (add_days-Fresh w.days seen h)

  -- The days seen are those of the range that a window has.
  pub seen_days-has :
      (ws : List Window) (seen : List ℕ) (x : ℕ)
      → has_day (seen_days from through seen ws) x
        ≡ (has_day seen x || (is_inside from through x && any (λ w. has_day w.days x) ws))
  seen_days-has [] seen x = ground arith
  seen_days-has (w ∷ ws) seen x =
      let ih = seen_days-has ws (add_days from through seen w.days) x in
      let one = add_days-has w.days seen x in
      ih
      ∙ have_more (has_day seen x) (has_day (add_days from through seen w.days) x)
          (is_inside from through x) (has_day w.days x) (any (λ v. has_day v.days x) ws) one
