-- ===== src/Dayrange/Delivery/Routes.antt =====
-- internal/dayrange/delivery.go, premarket_article.go and execution.go: `deliveryChannelsLocked`,
-- `articleChannelsLocked` and `executionChannelsLocked` are alike, and `flushLocked` and
-- `flushExecutionLocked` make their channels of them. A channel is what its `Name` returns, and `none`
-- for nil; what `ChannelNamesForRoute` returns for a route is a list of names. A map from names to
-- channels is the list of its names.
pub mod Configured
use job_time_stock_watcher.Base.{
  ℕ, Bool, true, false, not, ◌&&◌, List, [], ◌∷◌, ◌++◌, Option, none, some, Text, text_eq, text_ltb,
  sort_by, any, is_empty, if◌then◌else◌,
}
use job_time_stock_watcher.Notify.{Ledger, Delivery}
use job_time_stock_watcher.Dayrange.Delivery.{Reply, Run, running, flush, flush_due}

-- The names of the channels that are not nil and have one.
unfoldable pub names_of : List (Option Text) → List Text
names_of [] = []
names_of (none ∷ cs) = names_of cs
names_of (some n ∷ cs) = let rest = names_of cs in if is_empty n then rest else n ∷ rest

abbrev pub has_name : List Text → Text → Bool
has_name names n = any (λ m. text_eq m n) names

-- The texts of a list that are in another one.
unfoldable pub keep_named : List Text → List Text → List Text
keep_named [] names = []
keep_named (n ∷ ns) names =
    let rest = keep_named ns names in if has_name names n then n ∷ rest else rest

unfoldable pub route_channels : List (Option Text) → List Text → List Text
unfolding names_of keep_named
route_channels channels route = sort_by text_ltb (keep_named route (names_of channels))

-- The channels that are allowed.
unfoldable pub sending_channels : List (Option Text) → List Text → List Text
unfolding names_of keep_named
sending_channels channels allowed = keep_named (names_of channels) allowed

-- The channels of `flushLocked`: those of the two routes.
unfoldable pub notice_names : List (Option Text) → List Text → List Text → List Text
unfolding sending_channels route_channels
notice_names channels dayrange premarket =
    sending_channels channels
      (route_channels channels dayrange ++ route_channels channels premarket)

unfoldable pub execution_names : List (Option Text) → List Text → List Text
unfolding sending_channels route_channels
execution_names channels route = sending_channels channels (route_channels channels route)

unfoldable pub flush_locked :
    Bool
    → Bool
    → List (Option Text)
    → List Text
    → List Text
    → ℕ
    → (Delivery → Reply)
    → Option Text
    → Ledger
    → Run
unfolding flush notice_names
flush_locked has_store push_enabled channels dayrange premarket now world last_save l =
    if not has_store
    then (l, [], running)
    else flush push_enabled (notice_names channels dayrange premarket) now world last_save l

unfoldable pub flush_execution_locked :
    Bool → List (Option Text) → List Text → ℕ → (Delivery → Reply) → Option Text → Ledger → Run
unfolding flush_due execution_names
flush_execution_locked has_store channels route now world last_save l =
    if not has_store
    then (l, [], running)
    else flush_due (execution_names channels route) now world last_save l
