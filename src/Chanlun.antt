-- ===== src/Chanlun.antt =====
-- internal/chanlun/chanlun.go: the data of a Chan analysis. A price is a number of the smallest
-- price steps, and a volume a number of units; the code only compares prices and adds volumes. An
-- instant is a number, and 0 is Go's zero time. A negative count of raw bars is read as 0, which the
-- code treats alike.
pub mod Input
pub mod Merging
pub mod Fractals
pub mod Strokes
pub mod Zones
pub mod Analysis
use job_time_stock_watcher.Base.{ℕ, Bool, List}

pub data Mark : Type 0 where
  top bottom : Mark

pub data Direction : Type 0 where
  up down : Direction

pub record Bar : Type 0 where
  pub time : ℕ
  pub open_price : ℕ
  pub high : ℕ
  pub low : ℕ
  pub close : ℕ
  pub volume : ℕ
  pub raw_bars : ℕ

pub record Fractal : Type 0 where
  pub mark : Mark
  pub time : ℕ
  pub high : ℕ
  pub low : ℕ
  pub price : ℕ
  pub index : ℕ
  pub start : ℕ
  pub end : ℕ

pub record Stroke : Type 0 where
  pub direction : Direction
  pub start : Fractal
  pub end : Fractal
  pub high : ℕ
  pub low : ℕ
  pub merged_bars : ℕ
  pub finished : Bool

-- `twice_mid` is 2 * Mid.
pub record Zone : Type 0 where
  pub from : ℕ
  pub to : ℕ
  pub upper : ℕ
  pub lower : ℕ
  pub twice_mid : ℕ
  pub high : ℕ
  pub low : ℕ
  pub strokes : ℕ
