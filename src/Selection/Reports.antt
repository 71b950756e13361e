-- ===== src/Selection/Reports.antt =====
-- What holds of a report that the checks of `Execute` let pass.
use job_time_stock_watcher.Base.{
  ℕ, suc, ◌≤◌, Bool, true, false, not, ◌&&◌, ◌||◌, ◌⊎◌, inl, inr, List, [], ◌∷◌, Option, none, some,
  Text, codes, text_eq, text_eq→≡, length, is_empty, any, unless, leb, leb→le, ◌==◌, ==_iff,
  if◌then◌else◌, In, All, ◌≡◌, refl, sym, ap, ◌∙◌, subst, Bool-cases, arith,
}
use job_time_stock_watcher.Secondstage.{weight_of, validate_blend}
use job_time_stock_watcher.Selection.{
  Descriptor, Input, Report, FirstCandidate, FirstReport, SecondCandidate, SecondReport,
  result_identity, selected_stock, ranking_stock, first_identity, first_count, first_not_empty,
  first_status, first_stock, second_stock, second_blend_score, second_percentile, second_count,
  second_not_empty, second_status, second_without_first, second_identity, second_ranker,
}
use job_time_stock_watcher.Selection.Inputs.{has_code}
use job_time_stock_watcher.Selection.Results.{
  identity_fits, stocks_fit, count_fits, first_codes, firsts_fit, check_first, is_blended,
  not_outside, blend_score_fits, all_not_outside, blend_error, check_seconds, check_second_head,
  check_second, check_report,
}
use job_time_stock_watcher.Selection.Sets.{
  IsDistinct, fresh-In, fresh-All, IsSelection, stocks_fit-IsSelection, IsRank, ranks-cover,
}
use job_time_stock_watcher.Selection.Contract.{first_error-none, unless-none, and-true, not-false}

abbrev pub second_codes : List SecondCandidate → List Text
second_codes [] = []
second_codes (c ∷ cs) = c.code ∷ second_codes cs

abbrev pub second_ranks : List SecondCandidate → List ℕ
second_ranks [] = []
second_ranks (c ∷ cs) = c.rank ∷ second_ranks cs

-- The number of candidates that a status allows.
abbrev pub IsCount : Text → ℕ → ℕ → Type 0
IsCount status limit n = ((status ≡ codes "ok") × (1 ≤ n) × (n ≤ limit)) ⊎ (n ≡ 0)

pub record IsFirst (available : List Text) (i : Input) (f : FirstReport) : Type 0 where
  pub as_of : f.as_of ≡ i.as_of
  pub target : f.target ≡ i.target
  pub count : IsCount f.status f.budget (length f.candidates)
  pub stocks : IsSelection available [] (first_codes f.candidates)

pub record IsSecond (f : FirstReport) (i : Input) (s : SecondReport) : Type 0 where
  pub as_of : s.as_of ≡ i.as_of
  pub target : s.target ≡ i.target
  pub count : IsCount s.status s.top_n (length s.candidates)
  pub stocks : IsSelection (first_codes f.candidates) [] (second_codes s.candidates)
  pub different : IsDistinct (second_ranks s.candidates)
  pub ranked : All (IsRank (length s.candidates)) (second_ranks s.candidates)
  pub covered : (r : ℕ) → IsRank (length s.candidates) r → In r (second_ranks s.candidates)

abbrev pub FirstFits : List Text → Input → Option FirstReport → Type 0
FirstFits available i none = Unit
FirstFits available i (some f) = IsFirst available i f

abbrev pub SecondFits : Input → Option FirstReport → Option SecondReport → Type 0
SecondFits i first none = Unit
SecondFits i none (some s) = Unit × ⊥
SecondFits i (some f) (some s) = IsSecond f i s

firsts_fit-stocks_fit :
    (available seen : List Text) (cs : List FirstCandidate)
    → firsts_fit available seen cs ≡ true
    → stocks_fit available seen (first_codes cs) ≡ true
unfolding firsts_fit stocks_fit
firsts_fit-stocks_fit available seen [] h = refl
firsts_fit-stocks_fit available seen (c ∷ cs) h =
    let ih = firsts_fit-stocks_fit available (c.code ∷ seen) cs (ground (arith, h)) in
    ground (arith, h, ih)

status-IsCount :
    {E : Type 0} (status : Text) (limit n : ℕ) (ok : Bool) (empty : Bool) (a b c : E)
    → (ok ≡ true → (1 ≤ n) × (n ≤ limit))
    → (empty ≡ true → n ≡ 0)
    → (if text_eq status (codes "ok")
        then unless ok a
        else if text_eq status (codes "empty") || text_eq status (codes "failed")
        then unless empty b
        else some c)
      ≡ none
    → IsCount status limit n
status-IsCount status limit n ok empty a b c f g h =
    elim (Bool-cases (text_eq status (codes "ok"))) [
      | inl e ↦
          let (low, high) = f (unless-none ok a (sym (rw e refl) ∙ h)) in
          inl (text_eq→≡ status (codes "ok") e, low, high)
      | inr e ↦
          elim (Bool-cases (text_eq status (codes "empty") || text_eq status (codes "failed"))) [
            | inl d ↦ inr (g (unless-none empty b (sym (rw (e, d) refl) ∙ h)))
            | inr d ↦ let impossible : some c ≡ none = sym (rw (e, d) refl) ∙ h in cc
          ]
    ]

is_empty-length {ℓ} : {A : Type ℓ} (xs : List A) → is_empty xs ≡ true → length xs ≡ 0
is_empty-length [] h = refl
is_empty-length (x ∷ xs) h = let impossible : false ≡ true = h in cc

count_fits-within :
    (limit n : ℕ) → (leb 1 limit && count_fits n limit) ≡ true → (1 ≤ n) × (n ≤ limit)
count_fits-within limit n h = (ground (arith, h), ground (arith, h))

check_first-FirstFits :
    (available : List Text) (i : Input) (first : Option FirstReport)
    → check_first available i first ≡ none
    → FirstFits available i first
unfolding check_first
check_first-FirstFits available i none h = tt
check_first-FirstFits available i (some f) h =
    let (identity, rest) =
      first_error-none
        (unless (f.version == 1 && text_eq f.as_of i.as_of && text_eq f.target i.target)
          first_identity)
        _ h in
    let (count, stocks) =
      first_error-none _ (unless (firsts_fit available [] f.candidates) first_stock) rest in
    let (front, target) =
      and-true _ (text_eq f.target i.target) (unless-none _ first_identity identity) in
    let (_, as_of) = and-true (f.version == 1) (text_eq f.as_of i.as_of) front in
    record {
      as_of = text_eq→≡ f.as_of i.as_of as_of;
      target = text_eq→≡ f.target i.target target;
      count =
          status-IsCount f.status f.budget (length f.candidates) _ (is_empty f.candidates)
            first_count first_not_empty first_status
            (count_fits-within f.budget (length f.candidates)) (is_empty-length f.candidates) count;
      stocks =
          stocks_fit-IsSelection available [] (first_codes f.candidates)
            (firsts_fit-stocks_fit available [] f.candidates (unless-none _ first_stock stocks));
    }

record AreSeconds (firsts : List Text) (count : ℕ) (ranks : List ℕ) (seen : List Text)
    (cs : List SecondCandidate) : Type 0 where
  stocks : stocks_fit firsts seen (second_codes cs) ≡ true
  different : IsDistinct (second_ranks cs)
  ranked : All (IsRank count) (second_ranks cs)
  unseen : All (λ r. ¬ In r ranks) (second_ranks cs)

any-In : (r : ℕ) (ranks : List ℕ) → any (λ x. x == r) ranks ≡ false → ¬ In r ranks
any-In r [] h p = absurd p.1
any-In r (x ∷ xs) h (inl e) =
    let same = (==_iff x r).1 e in let impossible : true ≡ false = ground (arith, h, same) in cc
any-In r (x ∷ xs) h (inr p) = any-In r xs (ground (arith, h)) p

stocks_fit-cons :
    (available seen : List Text) (c : Text) (cs : List Text)
    → has_code available c ≡ true
    → not (has_code seen c) ≡ true
    → stocks_fit available (c ∷ seen) cs ≡ true
    → stocks_fit available seen (c ∷ cs) ≡ true
unfolding stocks_fit
stocks_fit-cons available seen c cs a b h = rw (a, b, h) refl

check_seconds-AreSeconds :
    (firsts : List Text) (blended : Bool) (eta count : ℕ) (ranks : List ℕ) (seen : List Text)
    (cs : List SecondCandidate)
    → check_seconds firsts blended eta count ranks seen cs ≡ none
    → AreSeconds firsts count ranks seen cs
unfolding check_seconds
check_seconds-AreSeconds firsts blended eta count ranks seen [] h = record {
  stocks = unfold stocks_fit in refl;
  different = tt;
  ranked = tt;
  unseen = tt;
}
check_seconds-AreSeconds firsts blended eta count ranks seen (c ∷ cs) h =
    let inside = leb 1 c.rank && leb c.rank count in
    let new_rank = not (any (λ r. r == c.rank) ranks) in
    let scores =
      not blended || not_outside c.first_percentile && blend_score_fits eta c.blend_score in
    let (head, rest) =
      first_error-none
        (unless (inside && new_rank && not (has_code seen c.code) && has_code firsts c.code)
          second_stock)
        _ h in
    let (_, rest) = first_error-none (unless scores second_blend_score) _ rest in
    let (_, rest) =
      first_error-none (unless (all_not_outside c.percentiles) second_percentile) _ rest in
    let ih =
      check_seconds-AreSeconds firsts blended eta count (c.rank ∷ ranks) (c.code ∷ seen) cs rest in
    let (front, here) = and-true _ (has_code firsts c.code) (unless-none _ second_stock head) in
    let (front, new) = and-true _ (not (has_code seen c.code)) front in
    let (within, fresh) = and-true inside new_rank front in
    let (low, high) = and-true (leb 1 c.rank) (leb c.rank count) within in
    record {
      stocks = stocks_fit-cons firsts seen c.code (second_codes cs) here new ih.stocks;
      different = (fresh-In c.rank ranks (second_ranks cs) ih.unseen, ih.different);
      ranked = ((leb→le 1 c.rank low, leb→le c.rank count high), ih.ranked);
      unseen = (
        any-In c.rank ranks (not-false _ fresh),
        fresh-All c.rank ranks (second_ranks cs) ih.unseen,
      );
    }

top_count-within :
    (limit n : ℕ)
    → (leb 1 limit && leb limit 100 && count_fits n limit) ≡ true
    → (1 ≤ n) × (n ≤ limit)
top_count-within limit n h = (ground (arith, h), ground (arith, h))

second_ranks-length : (cs : List SecondCandidate) → length (second_ranks cs) ≡ length cs
second_ranks-length [] = refl
second_ranks-length (c ∷ cs) = ap suc (second_ranks-length cs)

candidates-cover :
    (cs : List SecondCandidate) (r : ℕ)
    → IsDistinct (second_ranks cs)
    → All (IsRank (length cs)) (second_ranks cs)
    → IsRank (length cs) r
    → In r (second_ranks cs)
candidates-cover cs r d h k =
    let same = sym (second_ranks-length cs) in
    ranks-cover (second_ranks cs) r d (subst (λ n. All (IsRank n) (second_ranks cs)) same h)
      (subst (λ n. IsRank n r) same k)

identity-dates :
    (d : Descriptor) (i : Input) (r : Report)
    → identity_fits d i r ≡ true
    → (r.as_of ≡ i.as_of) × (r.target ≡ i.target)
unfolding identity_fits
identity-dates d i r h =
    let (front, _) = and-true _ (text_eq r.strategy d.id) h in
    let (front, _) = and-true _ (text_eq r.adjust d.adjust) front in
    let (front, target) = and-true _ (text_eq r.target i.target) front in
    let (_, as_of) = and-true _ (text_eq r.as_of i.as_of) front in
    (text_eq→≡ r.as_of i.as_of as_of, text_eq→≡ r.target i.target target)

check_second-SecondFits :
    (i : Input) (first : Option FirstReport) (second : Option SecondReport)
    → check_second i first second ≡ none
    → SecondFits i first second
unfolding check_second
check_second-SecondFits i first none h = tt
check_second-SecondFits i none (some s) h =
    let impossible : some second_without_first ≡ none = h in cc
check_second-SecondFits i (some f) (some s) h =
    let (head, seconds) = first_error-none (check_second_head i s) _ h in
    let (identity, rest) =
      first_error-none
        (unless (s.version == 1 && text_eq s.as_of i.as_of && text_eq s.target i.target)
          second_identity)
        _ head in
    let (_, rest) =
      first_error-none (unless (is_empty s.ranker || is_blended s) second_ranker) _ rest in
    let (_, count) =
      first_error-none (if is_blended s then blend_error (validate_blend s.blend) else none) _
        rest in
    let (front, target) =
      and-true _ (text_eq s.target i.target) (unless-none _ second_identity identity) in
    let (_, as_of) = and-true (s.version == 1) (text_eq s.as_of i.as_of) front in
    let n = length s.candidates in
    let all_seconds =
      check_seconds-AreSeconds (first_codes f.candidates) (is_blended s)
        (weight_of s.blend.risk_eta) n [] [] s.candidates seconds in
    record {
      as_of = text_eq→≡ s.as_of i.as_of as_of;
      target = text_eq→≡ s.target i.target target;
      count =
          status-IsCount s.status s.top_n n _ (is_empty s.candidates) second_count second_not_empty
            second_status (top_count-within s.top_n n) (is_empty-length s.candidates) count;
      stocks =
          stocks_fit-IsSelection (first_codes f.candidates) [] (second_codes s.candidates)
            all_seconds.stocks;
      different = all_seconds.different;
      ranked = all_seconds.ranked;
      covered = λ r k. candidates-cover s.candidates r all_seconds.different all_seconds.ranked k;
    }

pub record IsReport (d : Descriptor) (i : Input) (available : List Text) (r : Report) : Type 0 where
  pub as_of : r.as_of ≡ i.as_of
  pub target : r.target ≡ i.target
  pub selected : IsSelection available [] r.selected
  pub ranking : IsSelection available [] r.ranking
  pub first : FirstFits available i r.first_stage
  pub second : SecondFits i r.first_stage r.second_stage

pub check_report-IsReport :
    (d : Descriptor) (i : Input) (available : List Text) (r : Report)
    → check_report d i available r ≡ none
    → IsReport d i available r
unfolding check_report
check_report-IsReport d i available r h =
    let (identity, rest) = first_error-none (unless (identity_fits d i r) result_identity) _ h in
    let (selected, rest) =
      first_error-none (unless (stocks_fit available [] r.selected) selected_stock) _ rest in
    let (ranking, rest) =
      first_error-none (unless (stocks_fit available [] r.ranking) ranking_stock) _ rest in
    let (first, second) = first_error-none (check_first available i r.first_stage) _ rest in
    let (as_of, target) = identity-dates d i r (unless-none _ result_identity identity) in
    record {
      as_of = as_of;
      target = target;
      selected =
          stocks_fit-IsSelection available [] r.selected (unless-none _ selected_stock selected);
      ranking = stocks_fit-IsSelection available [] r.ranking (unless-none _ ranking_stock ranking);
      first = check_first-FirstFits available i r.first_stage first;
      second = check_second-SecondFits i r.first_stage r.second_stage second;
    }
