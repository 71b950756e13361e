-- ===== src/Selection/Sets.antt =====
-- Lists without repetitions, which the maps of `Execute` that hold what was seen stand for, and the
-- ranks from 1 to the number of them.
use job_time_stock_watcher.Base.{
  ℕ, suc, zero, ◌≤◌, true, false, ◌⊎◌, inl, inr, List, [], ◌∷◌, Text, text_eq, text_eq→≡,
  text_eq_refl, length, ◌==◌, ==_iff, if◌then◌else◌, In, All, All-In, All-map, ◌≡◌, refl, sym, ap,
  ◌∙◌, subst, Bool-cases, arith,
}
use job_time_stock_watcher.Selection.Inputs.{has_code}
use job_time_stock_watcher.Selection.Results.{stocks_fit}

module _ {ℓ} {A : Type ℓ} where
  abbrev pub IsDistinct : List A → Type ℓ
  IsDistinct [] = Unit
  IsDistinct (x ∷ xs) = (¬ In x xs) × IsDistinct xs

  -- What comes after `x` avoids it.
  pub fresh-In : (x : A) (seen xs : List A) → All (λ y. ¬ In y (x ∷ seen)) xs → ¬ In x xs
  fresh-In x seen xs h p = All-In (λ y. ¬ In y (x ∷ seen)) x xs h p (inl refl)

  pub fresh-All :
      (x : A) (seen xs : List A) → All (λ y. ¬ In y (x ∷ seen)) xs → All (λ y. ¬ In y seen) xs
  fresh-All x seen xs h =
      All-map (λ y. ¬ In y (x ∷ seen)) (λ y. ¬ In y seen) xs (λ y k p. k (inr p)) h

pub has_code-In : (xs : List Text) (x : Text) → has_code xs x ≡ true → In x xs
has_code-In [] x h = let impossible : false ≡ true = h in cc
has_code-In (y ∷ ys) x h = elim (Bool-cases (text_eq y x)) [
  | inl e ↦ inl (text_eq→≡ y x e)
  | inr e ↦ inr (has_code-In ys x (ground (arith, h, e)))
]

pub In-has_code : (xs : List Text) (x : Text) → In x xs → has_code xs x ≡ true
In-has_code [] x p = absurd p.1
In-has_code (y ∷ ys) x (inl e) =
    let same = ap (text_eq y) e in ground (arith, sym same ∙ text_eq_refl y)
In-has_code (y ∷ ys) x (inr p) = let ih = In-has_code ys x p in ground (arith, ih)

pub not_has_code-In : (xs : List Text) (x : Text) → has_code xs x ≡ false → ¬ In x xs
not_has_code-In xs x h p = let impossible : true ≡ false = sym (In-has_code xs x p) ∙ h in cc

-- Different stocks, all of them available, none of them seen.
pub record IsSelection (available seen cs : List Text) : Type 0 where
  pub different : IsDistinct cs
  pub from_available : All (λ c. In c available) cs
  pub unseen : All (λ c. ¬ In c seen) cs

pub stocks_fit-IsSelection :
    (available seen cs : List Text)
    → stocks_fit available seen cs ≡ true
    → IsSelection available seen cs
unfolding stocks_fit
stocks_fit-IsSelection available seen [] h = record {
  different = tt;
  from_available = tt;
  unseen = tt;
}
stocks_fit-IsSelection available seen (c ∷ cs) h =
    let here : has_code available c ≡ true = ground (arith, h) in
    let new : has_code seen c ≡ false = ground (arith, h) in
    let ih = stocks_fit-IsSelection available (c ∷ seen) cs (ground (arith, h)) in
    record {
      different = (fresh-In c seen cs ih.unseen, ih.different);
      from_available = (has_code-In available c here, ih.from_available);
      unseen = (not_has_code-In seen c new, fresh-All c seen cs ih.unseen);
    }

abbrev pub IsRank : ℕ → ℕ → Type 0
IsRank n r = (1 ≤ r) × (r ≤ n)

abbrev without : ℕ → List ℕ → List ℕ
without m [] = []
without m (x ∷ xs) = let rest = without m xs in if x == m then rest else x ∷ rest

In-without : (a m : ℕ) (xs : List ℕ) → In a (without m xs) → In a xs
In-without a m [] p = absurd p.1
In-without a m (x ∷ xs) p = elim (Bool-cases (x == m)) [
  | inl e ↦
      inr (In-without a m xs (subst (λ b. In a (if b then without m xs else x ∷ without m xs)) e p))
  | inr e ↦ elim (subst (λ b. In a (if b then without m xs else x ∷ without m xs)) e p) [
    | inl q ↦ inl q
    | inr q ↦ inr (In-without a m xs q)
  ]
]

without-IsDistinct : (m : ℕ) (xs : List ℕ) → IsDistinct xs → IsDistinct (without m xs)
without-IsDistinct m [] h = tt
without-IsDistinct m (x ∷ xs) (h, k) = elim (Bool-cases (x == m)) [
  | inl e ↦ rw e (without-IsDistinct m xs k)
  | inr e ↦ rw e (λ p. h (In-without x m xs p), without-IsDistinct m xs k)
]

without-absent : (m : ℕ) (xs : List ℕ) → ¬ In m xs → length (without m xs) ≡ length xs
without-absent m [] h = refl
without-absent m (x ∷ xs) h = elim (Bool-cases (x == m)) [
  | inl e ↦ absurd (h (inl ((==_iff x m).0 e)))
  | inr e ↦ rw e (ap suc (without-absent m xs (λ p. h (inr p))))
]

without-length : (m : ℕ) (xs : List ℕ) → IsDistinct xs → length xs ≤ suc (length (without m xs))
without-length m [] h = omega arith
without-length m (x ∷ xs) (h, k) = elim (Bool-cases (x == m)) [
  | inl e ↦
      let same = without-absent m xs (subst (λ y. ¬ In y xs) ((==_iff x m).0 e) h) in
      rw e (omega (arith, same))
  | inr e ↦ let ih = without-length m xs k in rw e (omega (arith, ih))
]

without-IsRank :
    (n : ℕ) (xs : List ℕ) → All (IsRank (suc n)) xs → All (IsRank n) (without (suc n) xs)
without-IsRank n [] h = tt
without-IsRank n (x ∷ xs) ((low, high), hs) = elim (Bool-cases (x == suc n)) [
  | inl e ↦ rw e (without-IsRank n xs hs)
  | inr e ↦ let less : x ≤ n = ground (arith, e, high) in rw e ((low, less), without-IsRank n xs hs)
]

ranks-length : (n : ℕ) (xs : List ℕ) → IsDistinct xs → All (IsRank n) xs → length xs ≤ n
ranks-length n [] d h = omega arith
ranks-length zero (x ∷ xs) d ((low, high), hs) = absurd (omega (arith, low, high))
ranks-length (suc n) (x ∷ xs) d h =
    let ih =
      ranks-length n (without (suc n) (x ∷ xs)) (without-IsDistinct (suc n) (x ∷ xs) d)
        (without-IsRank n (x ∷ xs) h) in
    let short = without-length (suc n) (x ∷ xs) d in omega (arith, ih, short)

In-cases : (a : ℕ) (xs : List ℕ) → In a xs ⊎ (¬ In a xs)
In-cases a [] = inr (λ p. p.1)
In-cases a (x ∷ xs) = elim (Bool-cases (x == a)) [
  | inl e ↦ inl (inl ((==_iff x a).0 e))
  | inr e ↦ elim (In-cases a xs) [
    | inl p ↦ inl (inr p)
    | inr q ↦ inr (λ p. elim p [
      | inl s ↦ let same = (==_iff x a).1 s in let impossible : true ≡ false = sym same ∙ e in cc
      | inr p ↦ q p
    ])
  ]
]

-- As many different ranks as there are hold each of them.
pub ranks-cover :
    (xs : List ℕ) (r : ℕ)
    → IsDistinct xs
    → All (IsRank (length xs)) xs
    → IsRank (length xs) r
    → In r xs
ranks-cover xs r d h k = elim (In-cases r xs) [
  | inl p ↦ p
  | inr q ↦
      let bound = ranks-length (length xs) (r ∷ xs) (q, d) (k, h) in absurd (omega (arith, bound))
]
