-- ===== src/Market/Minutes/Aggregates.antt =====
-- What the bars of `AggregateMinutes` are made of.
use mathlib.Core.List.{append_assoc}
use job_time_stock_watcher.Base.{
  ℕ, suc, zero, ◌+◌, ◌-◌, ◌*◌, ◌/◌, ◌≤◌, ◌<◌, Bool, true, false, ◌&&◌, ◌⊎◌, inl, inr, List, [], ◌∷◌,
  ◌++◌, none, some, length, length-append, is_empty, all, ◌==◌, All, ◌≡◌, refl, sym, ap, ◌∙◌, subst,
  Bool-cases, Option-cases, arith,
}
use job_time_stock_watcher.Market.Minutes.{MinuteBar, minute_period, minute_session}
use job_time_stock_watcher.Market.Minutes.Grouping.{
  group_end, Gathered, gather_from, is_complete, is_emitted, emitted_bar, group_loop,
  aggregate_minutes,
}
use job_time_stock_watcher.Market.Minutes.Gathers.{
  spaced, joined-end, joined-final, Gathering, gather-Gathering, IsBarOf, joined-IsBarOf,
}

-- The loop read all of the bars and gave these groups.
pub data Groups (period observed : ℕ) : List MinuteBar → List MinuteBar → Type 0 where
  done : Groups period observed [] []
  skip :
      (first : MinuteBar) (bs out : List MinuteBar)
      → minute_session first.end 5 ≡ none
      → Groups period observed bs out
      → Groups period observed (first ∷ bs) out
  take :
      (first : MinuteBar) (bs out : List MinuteBar) (start : ℕ) (g : Gathered) (a : MinuteBar)
      → minute_session first.end 5 ≡ some start
      → gather_from period (group_end start period first.end) first bs ≡ g
      → is_emitted period observed g ≡ true
      → a ≡ emitted_bar period g
      → Groups period observed g.rest out
      → Groups period observed (first ∷ bs) (a ∷ out)
  drop :
      (first : MinuteBar) (bs out : List MinuteBar) (start : ℕ) (g : Gathered)
      → minute_session first.end 5 ≡ some start
      → gather_from period (group_end start period first.end) first bs ≡ g
      → is_emitted period observed g ≡ false
      → Groups period observed g.rest out
      → Groups period observed (first ∷ bs) out

module _ (period observed fuel : ℕ) (first : MinuteBar) (bs : List MinuteBar) where
  loop_skips :
      minute_session first.end 5 ≡ none
      → group_loop period observed (suc fuel) (first ∷ bs) ≡ group_loop period observed fuel bs
  unfolding group_loop
  loop_skips h = rw (h, group_loop) refl

  module _ (start : ℕ) (h : minute_session first.end 5 ≡ some start) where
    the_group : Gathered
    the_group = gather_from period (group_end start period first.end) first bs

    loop_takes :
        is_emitted period observed the_group ≡ true
        → group_loop period observed (suc fuel) (first ∷ bs)
          ≡ emitted_bar period the_group ∷ group_loop period observed fuel the_group.rest
    unfolding group_loop the_group
    loop_takes e = rw (h, e, group_loop) refl

    loop_drops :
        is_emitted period observed the_group ≡ false
        → group_loop period observed (suc fuel) (first ∷ bs)
          ≡ group_loop period observed fuel the_group.rest
    unfolding group_loop the_group
    loop_drops e = rw (h, e, group_loop) refl

    rest-shorter : length the_group.rest ≤ length bs
    unfolding the_group
    rest-shorter =
        let end = group_end start period first.end in
        let g =
          gather-Gathering (record first { end = end }) (first.end + (period - 5) * 60 == end) 1
            first.end bs in
        let total = ap length g.split in
        let parts = length-append g.members the_group.rest in omega (arith, total, parts)

pub group_loop-Groups :
    (period observed fuel : ℕ) (bars : List MinuteBar)
    → length bars ≤ fuel
    → Groups period observed bars (group_loop period observed fuel bars)
unfolding the_group
group_loop-Groups period observed fuel [] h = unfold group_loop in done
group_loop-Groups period observed zero (first ∷ bs) h = absurd (omega (arith, h))
group_loop-Groups period observed (suc fuel) (first ∷ bs) h =
    elim (Option-cases (minute_session first.end 5)) [
      | inl e ↦
          rw (loop_skips period observed fuel first bs e)
            (skip first bs _ e (group_loop-Groups period observed fuel bs (omega (arith, h))))
      | inr (start, e) ↦
          let g = the_group period observed fuel first bs start e in
          let short = rest-shorter period observed fuel first bs start e in
          let more = group_loop-Groups period observed fuel g.rest (omega (arith, h, short)) in
          elim (Bool-cases (is_emitted period observed g)) [
            | inl f ↦
                rw (loop_takes period observed fuel first bs start e f)
                  (take first bs _ start g _ e refl f refl more)
            | inr f ↦
                rw (loop_drops period observed fuel first bs start e f)
                  (drop first bs _ start g e refl f more)
          ]
    ]

-- The bar stands for the first bar and the members that follow it, five minutes apart from the start of
-- its period on: all of its period, or the last bars there are, if it has not been observed to end. It
-- is final only if it is complete and all of them are.
pub record IsGroup (period observed : ℕ) (first : MinuteBar) (members after : List MinuteBar)
    (a : MinuteBar) : Type 0 where
  pub start : ℕ
  pub session : minute_session first.end 5 ≡ some start
  pub ends : a.end ≡ group_end start period first.end
  pub starts : first.end + (period - 5) * 60 ≡ a.end
  pub contiguous : spaced first.end members ≡ true
  pub bar : IsBarOf first members a
  pub whole : (length (first ∷ members) ≡ period / 5) ⊎ ((after ≡ []) × (observed < a.end))
  pub settled :
      a.final ≡ (all (λ b. b.final) (first ∷ members) && length (first ∷ members) == period / 5)

-- The bar is that of bars that follow each other in the input.
pub record IsAggregate (period observed : ℕ) (bars : List MinuteBar) (a : MinuteBar) : Type 0 where
  pub before : List MinuteBar
  pub first : MinuteBar
  pub members : List MinuteBar
  pub after : List MinuteBar
  pub split : bars ≡ before ++ (first ∷ (members ++ after))
  pub group : IsGroup period observed first members after a

is_empty-nil : (bs : List MinuteBar) → is_empty bs ≡ true → bs ≡ []
is_empty-nil [] h = refl
is_empty-nil (b ∷ bs) h = cc

final-IsBarOf :
    (first : MinuteBar) (ms : List MinuteBar) (g : MinuteBar) (f : Bool)
    → IsBarOf first ms g
    → IsBarOf first ms (record g { final = f })
final-IsBarOf first ms g f b = record {
  opens = b.opens;
  closes = b.closes;
  over = b.over;
  peak = b.peak;
  under = b.under;
  trough = b.trough;
  traded = b.traded;
}

module _ (period observed : ℕ) (first : MinuteBar) (bs : List MinuteBar) (start : ℕ) (g : Gathered)
    (session : minute_session first.end 5 ≡ some start)
    (same : gather_from period (group_end start period first.end) first bs ≡ g) where
  abbrev the_end : ℕ
  the_end = group_end start period first.end

  pub gathered :
      Gathering
        (record first { end = the_end })
        (first.end + (period - 5) * 60 == the_end)
        1
        first.end
        bs
        g
  gathered =
      let end = group_end start period first.end in
      subst
        (Gathering (record first { end = end }) (first.end + (period - 5) * 60 == end) 1 first.end
          bs)
        same
        (gather-Gathering (record first { end = end }) (first.end + (period - 5) * 60 == end) 1
          first.end bs)

  pub emitted-IsGroup :
      is_emitted period observed g ≡ true
      → IsGroup period observed first gathered.members g.rest (emitted_bar period g)
  emitted-IsGroup e =
      let k = gathered in
      let ms = k.members in
      let counted = k.counted in
      let contiguous = k.contiguous in
      let end = ap (λ b. b.end) k.bar ∙ joined-end (record first { end = the_end }) ms in
      let final = ap (λ b. b.final) k.bar ∙ joined-final (record first { end = the_end }) ms in
      let valid : g.valid ≡ true = ground (arith, e) in
      record {
        start = start;
        session = session;
        ends = end;
        starts = ground (arith, valid, contiguous, end);
        contiguous = ground (arith, valid, contiguous);
        bar =
            final-IsBarOf first ms g.bar _
              (subst (IsBarOf first ms) (sym k.bar) (joined-IsBarOf first the_end ms));
        whole = elim (Bool-cases (is_complete period g)) [
          | inl c ↦ inl (ground (arith, c, counted))
          | inr c ↦ inr (is_empty-nil g.rest (ground (arith, e, c)), ground (arith, e, c))
        ];
        settled = ground (arith, final, counted);
      }

  emitted-IsAggregate :
      (whole before : List MinuteBar)
      → before ++ (first ∷ bs) ≡ whole
      → is_emitted period observed g ≡ true
      → IsAggregate period observed whole (emitted_bar period g)
  emitted-IsAggregate whole before w e = record {
    before = before;
    first = first;
    members = gathered.members;
    after = g.rest;
    split = sym w ∙ ap (λ xs. before ++ (first ∷ xs)) gathered.split;
    group = emitted-IsGroup e;
  }

  gathered-whole :
      (whole before : List MinuteBar)
      → before ++ (first ∷ bs) ≡ whole
      → (before ++ (first ∷ gathered.members)) ++ g.rest ≡ whole
  gathered-whole whole before w =
      append_assoc before (first ∷ gathered.members) g.rest
      ∙ ap (λ xs. before ++ (first ∷ xs)) (sym gathered.split)
      ∙ w

Groups-All :
    (period observed : ℕ) (whole before : List MinuteBar) {bars out : List MinuteBar}
    → before ++ bars ≡ whole
    → Groups period observed bars out
    → All (IsAggregate period observed whole) out
Groups-All period observed whole before w done = tt
Groups-All period observed whole before w (skip first bs out n more) =
    Groups-All period observed whole (before ++ (first ∷ []))
      (append_assoc before (first ∷ []) bs ∙ w) more
Groups-All period observed whole before w (take first bs out start g a session same e is more) =
    let members = (gathered period observed first bs start g session same).members in
    let one = emitted-IsAggregate period observed first bs start g session same whole before w e in
    (
      subst (IsAggregate period observed whole) (sym is) one,
      Groups-All period observed whole (before ++ (first ∷ members))
          (gathered-whole period observed first bs start g session same whole before w) more,
    )
Groups-All period observed whole before w (drop first bs out start g session same e more) =
    let members = (gathered period observed first bs start g session same).members in
    Groups-All period observed whole (before ++ (first ∷ members))
      (gathered-whole period observed first bs start g session same whole before w) more

-- Of any bars, `AggregateMinutes` reads all (the bound on its rounds is never met), and each bar that it
-- returns for a period of 15, 30 or 60 minutes stands for bars that follow each other in the input.
pub aggregate_minutes-All :
    (bars : List MinuteBar) (period observed : ℕ)
    → minute_period period ≡ true
    → (period == 5) ≡ false
    → Groups period observed bars (aggregate_minutes bars period observed)
      × All (IsAggregate period observed bars) (aggregate_minutes bars period observed)
unfolding aggregate_minutes
aggregate_minutes-All bars period observed p f =
    let all_read = group_loop-Groups period observed (length bars) bars (omega arith) in
    rw (p, f, aggregate_minutes) (all_read, Groups-All period observed bars [] refl all_read)
