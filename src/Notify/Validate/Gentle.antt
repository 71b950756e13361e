-- ===== src/Notify/Validate/Gentle.antt =====
-- The changes of channel states that `Normalize`, `Expire`, `Retry` and the marks make, as
-- rewrites of an event that `Carries` describes.
use mathlib.Core.Option
use job_time_stock_watcher.Base.{
  ℕ, is_neg, true, false, ◌||◌, none, some, [], ◌∷◌, Text, Map, ◌≡◌, ◌≢◌, inl, inr, refl, arith,
  lookup, map_values, is_empty, Option-cases, Bool-cases, all, insert, text_eq_iff, leb, ◌==◌,
}
use job_time_stock_watcher.Notify.{ChannelState, Event}
use job_time_stock_watcher.Notify.States.{channel_map, is_terminal, map_channels}
use job_time_stock_watcher.Notify.Validate.{is_known, check_channels}
use job_time_stock_watcher.Notify.Validate.Carried.{Carries, Carries-refl}
use job_time_stock_watcher.Notify.Upkeep.{
  recover, recover_event, expire_state, expire_event, retry_state, retry_event, is_past,
}

is_empty-map_values :
    (g : Text → ChannelState → ChannelState) (m : Map ChannelState)
    → is_empty (map_values g m) ≡ is_empty m
unfolding map_values
is_empty-map_values g [] = refl
is_empty-map_values g (p ∷ m) = refl

-- A change of a state that neither loses a known status nor touches the attempts.
abbrev Gentle : (Text → ChannelState → ChannelState) → Type 0
Gentle g =
    (c : Text) (s : ChannelState)
    → ((g c s).attempts ≡ s.attempts) × (is_known s.status ≡ true → is_known (g c s).status ≡ true)

check_channels-map_values :
    (g : Text → ChannelState → ChannelState) (m : Map ChannelState)
    → Gentle g
    → check_channels m ≡ none
    → check_channels (map_values g m) ≡ none
unfolding check_channels map_values
check_channels-map_values g [] k h = refl
check_channels-map_values g ((c, s) ∷ m) k h =
    ground (arith, h, (k c s).0, (k c s).1, check_channels-map_values g m k)

terminal-map_values :
    (g : Text → ChannelState → ChannelState) (m : Map ChannelState)
    → ((c : Text) (s : ChannelState)
        → is_terminal s.status ≡ true
        → is_terminal (g c s).status ≡ true)
    → all (λ (c, s). is_terminal s.status) m ≡ true
    → all (λ (c, s). is_terminal s.status) (map_values g m) ≡ true
unfolding map_values
terminal-map_values g [] k h = refl
terminal-map_values g ((c, s) ∷ m) k h = ground (arith, h, k c s, terminal-map_values g m k)

module _ (g : Text → ChannelState → ChannelState) (gentle : Gentle g) (m : Map Event)
    (e : Event) where
  map_channels-Carries :
      (is_empty e.depends_on ≡ false
        → lookup e.depends_on m ≡ none
        → (c : Text) (s : ChannelState) → is_terminal s.status ≡ true
        → is_terminal (g c s).status ≡ true)
      → Carries m e (map_channels g e)
  map_channels-Carries k = elim (Option-cases e.channels) [
    | inl q ↦ record {
      dated = refl;
      expiring = refl;
      messaged = refl;
      ordered = refl;
      dependent = refl;
      sized = ground (arith, q);
      sound = ground (arith, q);
      still = ground (arith, q);
    }
    | inr (cs, q) ↦ record {
      dated = refl;
      expiring = refl;
      messaged = refl;
      ordered = refl;
      dependent = refl;
      sized = ground (arith, q, is_empty-map_values g cs);
      sound = λ h. ground (arith, q, h, check_channels-map_values g cs gentle);
      still = λ d n h. ground (arith, q, h, terminal-map_values g cs (k d n));
    }
  ]

recover-Gentle : Gentle (λ c s. recover s)
unfolding recover
recover-Gentle c s = ground arith

expire_state-Gentle : Gentle (λ c s. expire_state s)
unfolding expire_state
expire_state-Gentle c s = ground arith

retry_state-Gentle : (channel : Text) → Gentle (retry_state channel)
unfolding retry_state
retry_state-Gentle channel c s = ground arith

pub expire_event-Carries : (now : ℕ) (m : Map Event) (e : Event) → Carries m e (expire_event now e)
expire_event-Carries now m e = elim (Bool-cases (is_past now e)) [
  | inl p ↦ rw p (
      map_channels-Carries (λ c s. expire_state s) expire_state-Gentle m e
        λ d n c s t. unfold expire_state in ground (arith, t))
  | inr p ↦ rw p (Carries-refl m e)
]

-- `Retry` opens a blocked channel again, so the event's dependency must be there.
pub retry_event-Carries :
    (channel : Text) (now : ℕ) (m : Map Event) (e : Event)
    → (is_empty e.depends_on ≡ false → lookup e.depends_on m ≢ none)
    → Carries m e (retry_event channel now e)
retry_event-Carries channel now m e k =
    elim (Bool-cases (e.expires_at == 0 || leb e.expires_at now)) [
      | inl p ↦ rw p (Carries-refl m e)
      | inr p ↦ rw p (
          map_channels-Carries (retry_state channel) (retry_state-Gentle channel) m e
            λ d n c s t. absurd (k d n))
    ]

check_channels-insert :
    (ch : Text) (s s' : ChannelState) (m : Map ChannelState)
    → lookup ch m ≡ some s
    → (is_neg s.attempts ≡ false → is_neg s'.attempts ≡ false)
    → is_known s'.status ≡ true
    → check_channels m ≡ none
    → check_channels (insert ch s' m) ≡ none
unfolding check_channels insert lookup
check_channels-insert ch s s' [] at k w h = ground (arith, at)
check_channels-insert ch s s' ((c, t) ∷ m) at k w h =
    ground (arith, at, k, w, h, check_channels-insert ch s s' m, text_eq_iff c ch)

pub not_all_terminal :
    (ch : Text) (s : ChannelState) (m : Map ChannelState)
    → lookup ch m ≡ some s
    → is_terminal s.status ≡ false
    → all (λ (c, s). is_terminal s.status) m ≡ false
unfolding lookup
not_all_terminal ch s [] at k = ground (arith, at)
not_all_terminal ch s ((c, t) ∷ m) at k = ground (arith, at, k, not_all_terminal ch s m)

is_empty-insert :
    (ch : Text) (s s' : ChannelState) (m : Map ChannelState)
    → lookup ch m ≡ some s
    → is_empty (insert ch s' m) ≡ is_empty m
unfolding insert lookup
is_empty-insert ch s s' [] at = ground (arith, at)
is_empty-insert ch s s' ((c, t) ∷ m) at = ground arith

-- A write to a channel carries its event, if the channel was open where the event's dependency is
-- missing: the event was not closed.
pub insert-Carries :
    (m : Map Event) (e : Event) (ch : Text) (s s' : ChannelState)
    → lookup ch (channel_map e) ≡ some s
    → (is_empty e.depends_on ≡ false → lookup e.depends_on m ≡ none → is_terminal s.status ≡ false)
    → (is_neg s.attempts ≡ false → is_neg s'.attempts ≡ false)
    → is_known s'.status ≡ true
    → Carries m e (record e { channels = Option.map (insert ch s') e.channels })
insert-Carries m e ch s s' at open_state k w = elim (Option-cases e.channels) [
  | inl q ↦ absurd (unfold lookup in ground (arith, q, at))
  | inr (cs, q) ↦
      let at' : lookup ch cs ≡ some s = ground (arith, q, at) in
      record {
        dated = refl;
        expiring = refl;
        messaged = refl;
        ordered = refl;
        dependent = refl;
        sized = ground (arith, q, is_empty-insert ch s s' cs at');
        sound = λ h. ground (arith, q, h, check_channels-insert ch s s' cs at' k w);
        still = λ d n h. ground (arith, q, h, not_all_terminal ch s cs at' (open_state d n));
      }
]

pub recover_event-Carries : (m : Map Event) (e : Event) → Carries m e (recover_event e)
recover_event-Carries m e = elim (Option-cases e.channels) [
  | inl q ↦ record {
    dated = refl;
    expiring = refl;
    messaged = refl;
    ordered = refl;
    dependent = refl;
    sized = unfold map_values in ground (arith, q);
    sound = unfold map_values in ground (arith, q);
    still = unfold map_values in ground (arith, q);
  }
  | inr (cs, q) ↦ record {
    dated = refl;
    expiring = refl;
    messaged = refl;
    ordered = refl;
    dependent = refl;
    sized = ground (arith, q, is_empty-map_values (λ c s. recover s) cs);
    sound =
        λ h. ground (arith, q, h, check_channels-map_values (λ c s. recover s) cs recover-Gentle);
    still = λ d n h. ground (
      arith,
      q,
      h,
      terminal-map_values (λ c s. recover s) cs (λ c s t. unfold recover in ground (arith, t)),
    );
  }
]
