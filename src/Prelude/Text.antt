-- ===== src/Prelude/Text.antt =====
-- Python's operations on `str` that the program uses. What they take from the Unicode database
-- and from the `re` engine is a parameter.
use Prim.Native.Nat.{ℕ, zero, suc}
use Prim.Native.Char.{Char}
use Prim.Native.String.{String, [], ◌∷◌, ◌++◌}
use text.Mathlib.Text.{starts_with}
use mathlib.Core.List.{List}
use mathlib.Core.Option.{Option, none, some}
use mathlib.Core.Bool.{Bool, true, false, ◌&&◌, ◌||◌}
use snoc_automation_agent.Prelude.Tests.{if◌then◌else◌}

-- `str.isspace` and `str.isdigit` of one character, `str.casefold`, and `re.fullmatch`.
pub record Python : Type 0 where
  pub is_space : Char → Bool
  pub is_digit : Char → Bool
  pub casefold : String → String
  pub fullmatch : String → String → Bool

abbrev pub is_empty : String → Bool
is_empty [] = true
is_empty (c ∷ s) = false

abbrev pub str_length : String → ℕ
str_length [] = 0
str_length (c ∷ s) = suc (str_length s)

-- `s or ""`
abbrev pub or_blank : Option String → String
or_blank none = ""
or_blank (some s) = s

unfoldable pub drop_while : (Char → Bool) → String → String
drop_while p [] = []
drop_while p (c ∷ s) = let rest = drop_while p s in if p c then rest else c ∷ s

-- Drops the longest suffix of characters that `p` accepts.
unfoldable pub drop_end : (Char → Bool) → String → String
drop_end p [] = []
drop_end p (c ∷ s) = let rest = drop_end p s in if p c && is_empty rest then [] else c ∷ rest

unfoldable pub keep_chars : (Char → Bool) → String → String
keep_chars p [] = []
keep_chars p (c ∷ s) = if p c then c ∷ keep_chars p s else keep_chars p s

-- `s[:n]`
unfoldable pub truncate : ℕ → String → String
truncate zero s = []
truncate (suc n) [] = []
truncate (suc n) (c ∷ s) = c ∷ truncate n s

unfoldable pub strip : Python → String → String
unfolding drop_while drop_end
strip py s = drop_end py.is_space (drop_while py.is_space s)

unfoldable pub any_char : (Char → Bool) → String → Bool
any_char p [] = false
any_char p (c ∷ s) = p c || any_char p s

-- The first text is written already.
unfoldable pub join_from : String → String → List String → String
join_from separator s List.[] = s
join_from separator s (List.◌∷◌ t rest) = s ++ (separator ++ join_from separator t rest)

unfoldable pub join : String → List String → String
unfolding join_from
join separator List.[] = []
join separator (List.◌∷◌ s rest) = join_from separator s rest

-- `needle in s`
unfoldable pub str_contains : String → String → Bool
str_contains needle [] = is_empty needle
str_contains needle (c ∷ s) = starts_with (c ∷ s) needle || str_contains needle s

-- `s[n:]`
unfoldable pub drop_chars : ℕ → String → String
drop_chars zero s = s
drop_chars (suc n) [] = []
drop_chars (suc n) (c ∷ s) = drop_chars n s
