-- ===== src/Market/Health/Probing.antt =====
-- At most one probe of a provider that cools down.
use job_time_stock_watcher.Base.{
  ℕ, ◌+◌, Bool, true, false, List, [], ◌∷◌, Option, none, some, ◌≡◌, ◌≢◌, refl, arith, Bool-cases,
  inl, inr, Option-cases, if◌then◌else◌, Text, Map, lookup, insert, lookup-insert, text_eq,
  text_eq_refl, text_eq_iff, All, subst, sym,
}
use job_time_stock_watcher.Market.{SourceError}
use job_time_stock_watcher.Market.Health.{
  ProviderHealth, healthy, Settings, grant, available, settle, record_result,
}

-- What the users of the sources do, one call after the other, in whatever order.
pub data Call : Type 0 where
  ask : Text → ℕ → Call
  tell : Text → ℕ → Option SourceError → Call

-- The health after a call, and whether it let the provider with this name be asked. A call that
-- dereferences a missing health changes nothing.
unfoldable pub grants : Settings → Text → Call → Map ProviderHealth → Bool × Map ProviderHealth
unfolding available record_result
grants settings name (ask other now) health =
    let (granted, health') = available other now health in
    (if text_eq other name then granted else false, health')
grants settings name (tell other now err) health =
    elim (record_result settings other now err health) [
      | none ↦ (false, health)
      | some health' ↦ (false, health')
    ]

-- How often the provider with this name may be asked.
unfoldable pub granted_count : Settings → Text → List Call → Map ProviderHealth → ℕ
unfolding grants
granted_count settings name [] health = 0
granted_count settings name (c ∷ cs) health =
    let (granted, health') = grants settings name c health in
    let rest = granted_count settings name cs health' in if granted then 1 + rest else rest

-- No call tells the result of a request to this provider.
abbrev pub Untold : Text → Call → Type 0
Untold name (ask _ _) = Unit
Untold name (tell other _ _) = text_eq other name ≡ false

-- The provider cools down and is being probed.
abbrev Probed : Option ProviderHealth → Type 0
Probed none = false ≡ true
Probed (some h) = (h.retry_at ≢ 0) × (h.probing ≡ true)

grant-Probed : (now : ℕ) (h : ProviderHealth) → Probed (some h) → grant now h ≡ (false, h)
unfolding grant
grant-Probed now h k = ground arith

available-Probed :
    (name : Text) (now : ℕ) (health : Map ProviderHealth)
    → Probed (lookup name health)
    → ((available name now health).0 ≡ false) × Probed (lookup name (available name now health).1)
unfolding available
available-Probed name now health p = elim (Option-cases (lookup name health)) [
  | inl n ↦
      (let impossible : false ≡ true = subst Probed n p in absurd (ground (arith, impossible)))
  | inr (h, n) ↦
      let known = subst Probed n p in
      rw (n, available, grant-Probed now h known) (refl, rw (lookup-insert, text_eq_refl) known)
]

-- What concerns another provider leaves this one alone.
insert_other :
    (other name : Text) (h : ProviderHealth) (health : Map ProviderHealth)
    → text_eq other name ≡ false
    → lookup name (insert other h health) ≡ lookup name health
insert_other other name h health u = rw (lookup-insert, u) refl

available_other :
    (other name : Text) (now : ℕ) (health : Map ProviderHealth)
    → text_eq other name ≡ false
    → lookup name (available other now health).1 ≡ lookup name health
unfolding available
available_other other name now health u = elim (Option-cases (lookup other health)) [
  | inl n ↦ rw (n, available) (insert_other other name healthy health u)
  | inr (h, n) ↦ rw (n, available) (insert_other other name (grant now h).1 health u)
]

-- A call that does not tell a result keeps the probe, and lets nobody else ask.
grants-Probed :
    (settings : Settings) (name : Text) (c : Call) (health : Map ProviderHealth)
    → Untold name c
    → Probed (lookup name health)
    → ((grants settings name c health).0 ≡ false)
      × Probed (lookup name (grants settings name c health).1)
unfolding grants
grants-Probed settings name (ask other now) health u p = elim (Bool-cases (text_eq other name)) [
  | inl e ↦
      let same = (text_eq_iff other name).0 e in
      let (refused, kept) = available-Probed name now health p in
      rw e (
        subst
          (λ n.
            ((available n now health).0 ≡ false) × Probed (lookup name (available n now health).1))
          (sym same) (refused, kept))
  | inr e ↦ rw e (refl, subst Probed (sym (available_other other name now health e)) p)
]
grants-Probed settings name (tell other now err) health u p =
    elim (Option-cases (lookup other health)) [
      | inl n ↦ rw (n, grants, record_result) (refl, p)
      | inr (h, n) ↦
          rw (n, grants, record_result)
            (
              refl,
              subst Probed (sym (insert_other other name (settle settings now err h) health u)) p,
            )
    ]

-- While a provider cools down and is being probed, no call lets it be asked again until the result of
-- a request to it is told, however many calls come in between and whatever their order.
pub granted_count_probed :
    (settings : Settings) (name : Text) (calls : List Call) (health : Map ProviderHealth)
    (h : ProviderHealth)
    → lookup name health ≡ some h
    → h.retry_at ≢ 0
    → h.probing ≡ true
    → All (Untold name) calls
    → granted_count settings name calls health ≡ 0
unfolding granted_count
granted_count_probed settings name calls health h at cools probes u =
    go calls health u (subst Probed (sym at) (cools, probes))
  where
    go :
        (calls : List Call) (health : Map ProviderHealth)
        → All (Untold name) calls
        → Probed (lookup name health)
        → granted_count settings name calls health ≡ 0
    go [] health u p = refl
    go (c ∷ cs) health u p =
        let (refused, kept) = grants-Probed settings name c health u.0 p in
        rw refused (go cs (grants settings name c health).1 u.1 kept)
