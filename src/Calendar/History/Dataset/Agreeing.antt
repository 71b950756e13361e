-- ===== src/Calendar/History/Dataset/Agreeing.antt =====
-- Windows that pass `validateConsistency` agree on every day that both cover.
use job_time_stock_watcher.Base.{
  ℕ, Bool, true, false, not, ◌&&◌, List, [], ◌∷◌, ◌++◌, none, ltb, ◌==◌, ==_iff, if◌then◌else◌,
  sort_by, In-sort_by, In, In-append_iff, ◌≡◌, refl, sym, ◌∙◌, subst, inl, inr, Bool-cases, arith,
}
use job_time_stock_watcher.Calendar.History.{is_inside}
use job_time_stock_watcher.Calendar.History.Coverage.{Window}
use job_time_stock_watcher.Calendar.History.Dataset.{
  has_day, lacking, first, disagreement, disagreement_with, validate_consistency,
}

abbrev pub covers_day : Window → ℕ → Bool
covers_day w x = is_inside w.from w.through x

abbrev pub Agree : Window → Window → Type 0
Agree v w =
    (x : ℕ) → covers_day v x ≡ true → covers_day w x ≡ true → has_day v.days x ≡ has_day w.days x

In-lacking :
    (x a b : ℕ) (left right : List ℕ)
    → is_inside a b x ≡ true
    → has_day left x ≡ true
    → has_day right x ≡ false
    → In x (lacking a b left right)
In-lacking x a b [] right i h k = cc
In-lacking x a b (y ∷ ys) right i h k = elim (Bool-cases (y == x)) [
  | inl e ↦
      let same = (==_iff y x).0 e in
      let test : (is_inside a b y && not (has_day right y)) ≡ true =
        subst (λ z. (is_inside a b z && not (has_day right z)) ≡ true) (sym same)
          (ground (arith, i, k)) in
      rw test (inl same)
  | inr e ↦
      let rest = In-lacking x a b ys right i (ground (arith, h, e)) k in
      elim (Bool-cases (is_inside a b y && not (has_day right y))) [
        | inl t ↦ rw t (inr rest)
        | inr t ↦ rw t rest
      ]
]

first_none : (xs : List ℕ) → first xs ≡ none → (x : ℕ) → ¬ In x xs
first_none [] h x p = absurd p.1
first_none (y ∷ ys) h x p = cc

lacks_none :
    (a b : ℕ) (left right : List ℕ)
    → ((x : ℕ) → ¬ In x (lacking a b left right))
    → (x : ℕ) → is_inside a b x ≡ true
    → has_day left x ≡ true
    → has_day right x ≡ true
lacks_none a b left right none_in x i h = elim (Bool-cases (has_day right x)) [
  | inl e ↦ e
  | inr e ↦ absurd (none_in x (In-lacking x a b left right i h e))
]

Bool-same : (a b : Bool) → (a ≡ true → b ≡ true) → (b ≡ true → a ≡ true) → a ≡ b
Bool-same true b f g = sym (f refl)
Bool-same false true f g = g refl
Bool-same false false f g = refl

common_from : Window → Window → ℕ
common_from v w = if ltb v.from w.from then w.from else v.from

common_through : Window → Window → ℕ
common_through v w = if ltb w.through v.through then w.through else v.through

in_common :
    (v w : Window) (x : ℕ)
    → covers_day v x ≡ true
    → covers_day w x ≡ true
    → is_inside (common_from v w) (common_through v w) x ≡ true
unfolding common_from common_through
in_common v w x h k = ground (arith, h, k)

disagreement-conflicts :
    (v w : Window)
    → ltb (common_through v w) (common_from v w) ≡ false
    → disagreement v w
      ≡ first (
          sort_by ltb (
            lacking (common_from v w) (common_through v w) v.days w.days
            ++ lacking (common_from v w) (common_through v w) w.days v.days))
unfolding disagreement common_from common_through
disagreement-conflicts v w e = rw e refl

disagreement-Agree : (v w : Window) → disagreement v w ≡ none → Agree v w
disagreement-Agree v w h x i k =
    let inside = in_common v w x i k in
    let a = common_from v w in
    let b = common_through v w in
    let left = lacking a b v.days w.days in
    let right = lacking a b w.days v.days in
    let met : ltb b a ≡ false = ground (arith, inside) in
    let none_in =
      first_none (sort_by ltb (left ++ right)) (sym (disagreement-conflicts v w met) ∙ h) in
    let outside =
      λ (y : ℕ) (p : In y (left ++ right)). none_in y ((In-sort_by ltb y (left ++ right)).1 p) in
    Bool-same (has_day v.days x) (has_day w.days x)
      (lacks_none a b v.days w.days (λ y p. outside y ((In-append_iff y left right).1 (inl p))) x
        inside)
      (lacks_none a b w.days v.days (λ y p. outside y ((In-append_iff y left right).1 (inr p))) x
        inside)

Agree-sym : (v w : Window) → Agree v w → Agree w v
Agree-sym v w h x i k = sym (h x k i)

disagreement_with-Agree :
    (v : Window) (ws : List Window)
    → disagreement_with v ws ≡ none
    → (w : Window) → In w ws
    → Agree v w
unfolding disagreement_with
disagreement_with-Agree v [] h w p = absurd p.1
disagreement_with-Agree v (u ∷ us) h w p =
    let one : disagreement v u ≡ none = ground (arith, h) in
    let rest : disagreement_with v us ≡ none = ground (arith, h) in
    elim p [
      | inl e ↦ subst (Agree v) e (disagreement-Agree v u one)
      | inr q ↦ disagreement_with-Agree v us rest w q
    ]

pub validate_consistency-Agree :
    (ws : List Window)
    → validate_consistency ws ≡ none
    → (v w : Window) → In v ws
    → In w ws
    → Agree v w
unfolding validate_consistency
validate_consistency-Agree [] h v w p q = absurd p.1
validate_consistency-Agree (u ∷ us) h v w p q =
    let one : disagreement_with u us ≡ none = ground (arith, h) in
    let rest : validate_consistency us ≡ none = ground (arith, h) in
    let same = disagreement_with-Agree u us one in
    elim p [
      | inl e ↦ elim q [
        | inl f ↦ subst (λ z. Agree z w) e (subst (Agree u) f (λ x i k. refl))
        | inr s ↦ subst (λ z. Agree z w) e (same w s)
      ]
      | inr r ↦ elim q [
        | inl f ↦ subst (Agree v) f (Agree-sym u v (same v r))
        | inr s ↦ validate_consistency-Agree us rest v w r s
      ]
    ]
