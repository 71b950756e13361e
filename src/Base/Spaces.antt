-- ===== src/Base/Spaces.antt =====
-- `strings.TrimSpace(s) != s`: whether a text starts or ends with white space, in UTF-8.
use Prim.Native.Nat.{ℕ}
use mathlib.Core.Bool.{Bool, true, false, not, ◌&&◌, ◌||◌}
use mathlib.Core.List.{[], ◌∷◌, ◌++◌}
use job_time_stock_watcher.Base.Tests.{leb, ◌==◌}
use job_time_stock_watcher.Base.Bytes.{Text}

-- A tab, a line feed, a vertical tab, a form feed, a carriage return or a space.
abbrev pub is_blank : ℕ → Bool
is_blank a = leb 9 a && leb a 13 || a == 32

-- U+0085 and U+00A0.
abbrev pub is_blank_pair : ℕ → ℕ → Bool
is_blank_pair a b = a == 194 && (b == 133 || b == 160)

-- U+1680, U+2000 to U+200A, U+2028, U+2029, U+202F, U+205F and U+3000.
abbrev pub is_blank_triple : ℕ → ℕ → ℕ → Bool
is_blank_triple a b c =
    a == 225 && b == 154 && c == 128
    || a == 226 && b == 128 && (leb 128 c && leb c 138 || c == 168 || c == 169 || c == 175)
    || a == 226 && b == 129 && c == 159
    || a == 227 && b == 128 && c == 128

abbrev pub starts_blank : Text → Bool
starts_blank [] = false
starts_blank (a ∷ []) = is_blank a
starts_blank (a ∷ b ∷ []) = is_blank a || is_blank_pair a b
starts_blank (a ∷ b ∷ c ∷ _) = is_blank a || is_blank_pair a b || is_blank_triple a b c

-- Of a text with its last byte first.
abbrev pub ends_blank : Text → Bool
ends_blank [] = false
ends_blank (a ∷ []) = is_blank a
ends_blank (a ∷ b ∷ []) = is_blank a || is_blank_pair b a
ends_blank (a ∷ b ∷ c ∷ _) = is_blank a || is_blank_pair b a || is_blank_triple c b a

abbrev pub backwards : Text → Text
backwards [] = []
backwards (a ∷ s) = backwards s ++ (a ∷ [])

abbrev pub is_trimmed : Text → Bool
is_trimmed s = not (starts_blank s) && not (ends_blank (backwards s))

-- `strings.TrimSpace(s) == ""`.
abbrev pub all_blank : Text → Bool
all_blank [] = true
all_blank (a ∷ []) = is_blank a
all_blank (a ∷ b ∷ []) = is_blank a && is_blank b || is_blank_pair a b
all_blank (a ∷ b ∷ c ∷ s) =
    is_blank a && all_blank (b ∷ c ∷ s)
    || is_blank_pair a b && all_blank (c ∷ s)
    || is_blank_triple a b c && all_blank s
