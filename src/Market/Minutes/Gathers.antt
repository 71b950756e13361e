-- ===== src/Market/Minutes/Gathers.antt =====
-- What the inner loop of `AggregateMinutes` gathers.
use job_time_stock_watcher.Base.{
  ℕ, suc, ◌+◌, ◌≤◌, ◌<◌, Bool, true, false, ◌&&◌, ◌⊎◌, inl, inr, List, [], ◌∷◌, ◌++◌, length, all,
  leb, ◌==◌, In, All, ◌≡◌, refl, sym, ap, subst, Bool-cases, arith,
}
use job_time_stock_watcher.Market.Minutes.{MinuteBar}
use job_time_stock_watcher.Market.Minutes.Grouping.{Gathered, join_bar, gather}

-- Each bar ends five minutes after the one before.
abbrev pub spaced : ℕ → List MinuteBar → Bool
spaced last [] = true
spaced last (b ∷ bs) = b.end == last + 300 && spaced b.end bs

abbrev pub joined : MinuteBar → List MinuteBar → MinuteBar
joined g [] = g
joined g (b ∷ bs) = joined (join_bar g b) bs

abbrev pub StartsAfter : ℕ → List MinuteBar → Type 0
StartsAfter end [] = Unit
StartsAfter end (b ∷ bs) = end < b.end

pub record Gathering (g : MinuteBar) (valid : Bool) (count last : ℕ) (bs : List MinuteBar)
    (r : Gathered) : Type 0 where
  pub members : List MinuteBar
  pub split : bs ≡ members ++ r.rest
  pub bar : r.bar ≡ joined g members
  pub counted : r.count ≡ count + length members
  pub contiguous : r.valid ≡ (valid && spaced last members)
  pub within : All (λ b. b.end ≤ g.end) members
  pub stops : StartsAfter g.end r.rest

module _ (g : MinuteBar) (valid : Bool) (count last : ℕ) (b : MinuteBar) (bs : List MinuteBar) where
  gather_more :
      leb b.end g.end ≡ true
      → gather g valid count last (b ∷ bs)
        ≡ gather (join_bar g b) (valid && b.end == last + 300) (suc count) b.end bs
  unfolding gather
  gather_more h = rw (h, gather) refl

  gather_done :
      leb b.end g.end ≡ false
      → gather g valid count last (b ∷ bs)
        ≡ record { bar = g; valid = valid; count = count; rest = b ∷ bs }
  unfolding gather
  gather_done h = rw (h, gather) refl

pub gather-Gathering :
    (g : MinuteBar) (valid : Bool) (count last : ℕ) (bs : List MinuteBar)
    → Gathering g valid count last bs (gather g valid count last bs)
unfolding gather
gather-Gathering g valid count last [] = record {
  members = [];
  split = refl;
  bar = refl;
  counted = omega arith;
  contiguous = ground arith;
  within = tt;
  stops = tt;
}
gather-Gathering g valid count last (b ∷ bs) = elim (Bool-cases (leb b.end g.end)) [
  | inl h ↦
      let ih =
        gather-Gathering (join_bar g b) (valid && b.end == last + 300) (suc count) b.end bs in
      subst (Gathering g valid count last (b ∷ bs)) (sym (gather_more g valid count last b bs h))
        (record {
          members = b ∷ ih.members;
          split = ap (λ xs. b ∷ xs) ih.split;
          bar = ih.bar;
          counted = let c = ih.counted in omega (arith, c);
          contiguous = let c = ih.contiguous in ground (arith, c);
          within = (ground (arith, h), ih.within);
          stops = ih.stops;
        })
  | inr h ↦
      subst (Gathering g valid count last (b ∷ bs)) (sym (gather_done g valid count last b bs h))
        (record {
          members = [];
          split = refl;
          bar = refl;
          counted = omega arith;
          contiguous = ground arith;
          within = tt;
          stops = ground (arith, h);
        })
]

abbrev pub last_close : MinuteBar → List MinuteBar → ℕ
last_close b [] = b.close
last_close b (c ∷ cs) = last_close c cs

abbrev pub total_volume : List MinuteBar → ℕ
total_volume [] = 0
total_volume (b ∷ bs) = b.volume + total_volume bs

-- The bar of a group: it opens as the first and closes as the last, and its high and low are the
-- greatest and the least of the group.
pub record IsBarOf (first : MinuteBar) (members : List MinuteBar) (a : MinuteBar) : Type 0 where
  pub opens : a.open_price ≡ first.open_price
  pub closes : a.close ≡ last_close first members
  pub over : All (λ b. b.high ≤ a.high) (first ∷ members)
  pub peak : (b : MinuteBar) × In b (first ∷ members) × (a.high ≡ b.high)
  pub under : All (λ b. a.low ≤ b.low) (first ∷ members)
  pub trough : (b : MinuteBar) × In b (first ∷ members) × (a.low ≡ b.low)
  pub traded : a.volume ≡ total_volume (first ∷ members)

pub joined-end : (g : MinuteBar) (ms : List MinuteBar) → (joined g ms).end ≡ g.end
joined-end g [] = refl
joined-end g (b ∷ bs) = joined-end (join_bar g b) bs

pub joined-final :
    (g : MinuteBar) (ms : List MinuteBar) → (joined g ms).final ≡ (g.final && all (λ b. b.final) ms)
joined-final g [] = ground arith
joined-final g (b ∷ bs) = let ih = joined-final (join_bar g b) bs in ground (arith, ih)

joined-open : (g : MinuteBar) (ms : List MinuteBar) → (joined g ms).open_price ≡ g.open_price
joined-open g [] = refl
joined-open g (b ∷ bs) = joined-open (join_bar g b) bs

joined-close :
    (g c : MinuteBar) (ms : List MinuteBar)
    → g.close ≡ c.close
    → (joined g ms).close ≡ last_close c ms
joined-close g c [] h = h
joined-close g c (b ∷ bs) h = joined-close (join_bar g b) b bs refl

joined-volume :
    (g : MinuteBar) (ms : List MinuteBar) → (joined g ms).volume ≡ g.volume + total_volume ms
joined-volume g [] = omega arith
joined-volume g (b ∷ bs) = let ih = joined-volume (join_bar g b) bs in omega (arith, ih)

joined-high :
    (g : MinuteBar) (ms : List MinuteBar)
    → (g.high ≤ (joined g ms).high) × All (λ b. b.high ≤ (joined g ms).high) ms
joined-high g [] = (omega arith, tt)
joined-high g (b ∷ bs) =
    let (h, k) = joined-high (join_bar g b) bs in (ground (arith, h), (ground (arith, h), k))

joined-low :
    (g : MinuteBar) (ms : List MinuteBar)
    → ((joined g ms).low ≤ g.low) × All (λ b. (joined g ms).low ≤ b.low) ms
joined-low g [] = (omega arith, tt)
joined-low g (b ∷ bs) =
    let (h, k) = joined-low (join_bar g b) bs in (ground (arith, h), (ground (arith, h), k))

joined-peak :
    (g : MinuteBar) (ms : List MinuteBar)
    → ((joined g ms).high ≡ g.high) ⊎ ((b : MinuteBar) × In b ms × ((joined g ms).high ≡ b.high))
joined-peak g [] = inl refl
joined-peak g (b ∷ bs) = elim (joined-peak (join_bar g b) bs) [
  | inr (c, h, e) ↦ inr (c, inr h, e)
  | inl e ↦ elim (Bool-cases (leb b.high g.high)) [
    | inl f ↦ inl (ground (arith, e, f))
    | inr f ↦ inr (b, inl refl, ground (arith, e, f))
  ]
]

joined-trough :
    (g : MinuteBar) (ms : List MinuteBar)
    → ((joined g ms).low ≡ g.low) ⊎ ((b : MinuteBar) × In b ms × ((joined g ms).low ≡ b.low))
joined-trough g [] = inl refl
joined-trough g (b ∷ bs) = elim (joined-trough (join_bar g b) bs) [
  | inr (c, h, e) ↦ inr (c, inr h, e)
  | inl e ↦ elim (Bool-cases (leb g.low b.low)) [
    | inl f ↦ inl (ground (arith, e, f))
    | inr f ↦ inr (b, inl refl, ground (arith, e, f))
  ]
]

pub joined-IsBarOf :
    (first : MinuteBar) (end : ℕ) (ms : List MinuteBar)
    → IsBarOf first ms (joined (record first { end = end }) ms)
joined-IsBarOf first end ms =
    let g = record first { end = end } in
    let (top, high) = joined-high g ms in
    let (bottom, low) = joined-low g ms in
    record {
      opens = joined-open g ms;
      closes = joined-close g first ms refl;
      over = (top, high);
      peak = elim (joined-peak g ms) [
        | inl e ↦ (first, inl refl, e)
        | inr (b, h, e) ↦ (b, inr h, e)
      ];
      under = (bottom, low);
      trough = elim (joined-trough g ms) [
        | inl e ↦ (first, inl refl, e)
        | inr (b, h, e) ↦ (b, inr h, e)
      ];
      traded = joined-volume g ms;
    }
