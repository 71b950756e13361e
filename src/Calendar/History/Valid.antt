-- ===== src/Calendar/History/Valid.antt =====
-- What a valid history is, and that `NewHistory` makes one.
use job_time_stock_watcher.Base.{
  ℕ, true, false, not, inl, inr, List, [], ◌∷◌, Option, none, some, Text, text_eq, text_eq_refl,
  is_empty, all, ltb, ◌==◌, sort_by, IsSorted, sort_by-IsSorted, ◌≡◌, refl, sym, ap, ◌∙◌, subst,
  Option-cases, arith,
}
use job_time_stock_watcher.Calendar.History.{
  History, history_version, validate_range, validate_history, validate_days, new_history, day_in,
  days_in, texts_of, listed_days, known_days, is_inside, is_source, chained, digest_of, stamped,
  history_of, accept_days,
}

pub record IsValid (hash : ℕ → Text → ℕ → ℕ → List ℕ → Text) (h : History) : Type 0 where
  pub ranged : validate_range h.from h.through ≡ none
  pub sourced : is_source h.source ≡ true
  pub fetched : (h.fetched_at == 0) ≡ false
  pub inside : all (is_inside (day_in h.from) (day_in h.through)) (listed_days h) ≡ true
  pub ascending : chained ltb (listed_days h) ≡ true
  pub dated : h.days ≡ some (texts_of (listed_days h))

some_first :
    (d : ℕ) (ts : List (Option ℕ)) (o : Option (List ℕ))
    → days_in ts ≡ o
    → days_in (some d ∷ ts) ≡ elim o [ none ↦ none | some ds ↦ some (d ∷ ds) ]
some_first d ts o e = rw e refl

texts_of-days_in : (ts : List (Option ℕ)) (ds : List ℕ) → days_in ts ≡ some ds → ts ≡ texts_of ds
texts_of-days_in [] [] h = refl
texts_of-days_in [] (d ∷ ds) h = cc
texts_of-days_in (none ∷ ts) ds h = cc
texts_of-days_in (some d ∷ ts) ds h = elim (Option-cases (days_in ts)) [
  | inl e ↦ let impossible : none ≡ some ds = sym (some_first d ts none e) ∙ h in cc
  | inr (es, e) ↦
      let same : some (d ∷ es) ≡ some ds = sym (some_first d ts (some es) e) ∙ h in
      let ih = texts_of-days_in ts es e in let tail : ds ≡ d ∷ es = cc in rw (tail, ih) refl
]

pub days_in-texts_of : (ds : List ℕ) → days_in (texts_of ds) ≡ some ds
days_in-texts_of [] = refl
days_in-texts_of (d ∷ ds) = rw (days_in-texts_of ds) refl

pub listed_days-texts :
    (h : History) (ds : List ℕ) → h.days ≡ some (texts_of ds) → listed_days h ≡ ds
listed_days-texts h ds e = let same = days_in-texts_of ds in ground (arith, e, same)

module _ (hash : ℕ → Text → ℕ → ℕ → List ℕ → Text) where
  pub record Dated (h : History) (o : Option (List (Option ℕ))) : Type 0 where
    pub days : List ℕ
    pub texts : o ≡ some (texts_of days)
    pub inside : all (is_inside (day_in h.from) (day_in h.through)) days ≡ true
    pub ascending : chained ltb days ≡ true

  days-Dated :
      (h : History) (o : Option (List (Option ℕ))) → validate_days hash h o ≡ none → Dated h o
  days-Dated h none v = cc
  days-Dated h (some ts) v = elim (Option-cases (days_in ts)) [
    | inl e ↦ let impossible : false ≡ true = ground (arith, v, e) in cc
    | inr (ds, e) ↦ record {
      days = ds;
      texts = ap some (texts_of-days_in ts ds e);
      inside = ground (arith, v, e);
      ascending = ground (arith, v, e);
    }
  ]

  pub validate_history-IsValid : (h : History) → validate_history hash h ≡ none → IsValid hash h
  unfolding validate_history
  validate_history-IsValid h v =
      let dated = days-Dated h h.days (ground (arith, v)) in
      let same = listed_days-texts h dated.days dated.texts in
      record {
        ranged = ground (arith, v);
        sourced = ground (arith, v);
        fetched = ground (arith, v);
        inside = rw same dated.inside;
        ascending = rw same dated.ascending;
        dated = dated.texts ∙ ap (λ ds. some (texts_of ds)) (sym same);
      }

  guards_pass :
      (h : History)
      → h.version ≡ history_version
      → validate_range h.from h.through ≡ none
      → is_source h.source ≡ true
      → (h.fetched_at == 0) ≡ false
      → validate_history hash h ≡ validate_days hash h h.days
  unfolding validate_history
  guards_pass h n r s f =
      let version : (h.version == history_version) ≡ true = ground (arith, n) in
      rw (version, r, s, f) refl

  days_pass :
      (h : History) (ds : List ℕ)
      → all (is_inside (day_in h.from) (day_in h.through)) ds ≡ true
      → chained ltb ds ≡ true
      → is_empty h.digest ≡ false
      → h.digest ≡ digest_of hash h
      → validate_days hash h (some (texts_of ds)) ≡ none
  days_pass h ds i c e d =
      let same : text_eq h.digest (digest_of hash h) ≡ true =
        subst (λ t. text_eq h.digest t ≡ true) d (text_eq_refl h.digest) in
      let read = days_in-texts_of ds in ground (arith, read, i, c, e, same)

  -- A history with the parts of a valid one and the digest of its parts is valid.
  pub stamped-valid :
      (h : History)
      → h.version ≡ history_version
      → IsValid hash h
      → is_empty (digest_of hash h) ≡ false
      → validate_history hash (stamped hash h) ≡ none
  stamped-valid h n v e =
      guards_pass (stamped hash h) n v.ranged v.sourced v.fetched
      ∙ ap (validate_days hash (stamped hash h)) v.dated
      ∙ days_pass (stamped hash h) (listed_days h) v.inside v.ascending e refl

  ltb_asym : (x y : ℕ) → ltb x y ≡ true → ltb y x ≡ false
  ltb_asym x y h = ground (arith, h)

  ltb_co_trans : (x y z : ℕ) → ltb y x ≡ false → ltb z y ≡ false → ltb z x ≡ false
  ltb_co_trans x y z h k = ground (arith, h, k)

  chained-sorted :
      (ds : List ℕ)
      → IsSorted ltb ds
      → chained (λ x y. not (y == x)) ds ≡ true
      → chained ltb ds ≡ true
  chained-sorted [] h k = refl
  chained-sorted (x ∷ []) h k = refl
  chained-sorted (x ∷ y ∷ ys) h k =
      let first = h.0.0 in
      let rest = chained-sorted (y ∷ ys) h.1 (ground (arith, k)) in ground (arith, first, rest, k)

  module _ (source : Text) (from through : Option ℕ) (fetched_at : ℕ) where
    pub new_history-days :
        (days : List (Option ℕ)) (ds : List ℕ)
        → validate_range from through ≡ none
        → is_source source ≡ true
        → (fetched_at == 0) ≡ false
        → days_in days ≡ some ds
        → new_history hash source from through days fetched_at
          ≡ accept_days hash source from through fetched_at (sort_by ltb ds)
    unfolding new_history
    new_history-days days ds r s f e = rw (r, s, f, e, new_history) refl

    -- What `NewHistory` has accepted.
    pub record Made (days : List (Option ℕ)) (h : History) : Type 0 where
      pub given : List ℕ
      pub read : days_in days ≡ some given
      pub made :
          h ≡ stamped hash (history_of hash source from through (sort_by ltb given) fetched_at)
      pub valid : IsValid hash (history_of hash source from through (sort_by ltb given) fetched_at)

    pub new_history-Made :
        (days : List (Option ℕ)) (h : History)
        → new_history hash source from through days fetched_at ≡ inr h
        → Made days h
    new_history-Made days h q =
        let r : validate_range from through ≡ none = unfold new_history in ground (arith, q) in
        let s : is_source source ≡ true = unfold new_history in ground (arith, q) in
        let f : (fetched_at == 0) ≡ false = unfold new_history in ground (arith, q) in
        elim (Option-cases (days_in days)) [
          | inl e ↦ let impossible : false ≡ true = unfold new_history in ground (arith, q, e) in cc
          | inr (ds, e) ↦
              let accepted = sym (new_history-days days ds r s f e) ∙ q in
              let sorted = sort_by ltb ds in
              let in_order : chained (λ x y. not (y == x)) sorted ≡ true =
                ground (arith, accepted) in
              let same = days_in-texts_of sorted in
              record {
                given = ds;
                read = e;
                made = ground (arith, accepted);
                valid = record {
                  ranged = r;
                  sourced = s;
                  fetched = f;
                  inside = rw same (ground (arith, accepted));
                  ascending = rw same (
                      chained-sorted sorted (sort_by-IsSorted ltb ltb_asym ltb_co_trans ds)
                        in_order);
                  dated = ap (λ xs. some (texts_of (known_days xs))) (sym same);
                };
              }
        ]
