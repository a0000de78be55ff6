-- ===== src/Prelude/Lists.antt =====
-- Lists as Python sequences and as the rows of a table.
use Prim.Native.Nat.{ℕ, zero, suc, ◌+◌}
use mathlib.Core.Bool.{Bool, true, false, ◌&&◌, ◌||◌}
use mathlib.Core.Option.{Option, none, some}
use mathlib.Core.List.{List, [], ◌∷◌}
use snoc_automation_agent.Prelude.Tests.{if◌then◌else◌, Eq, ◌==◌}

module _ {ℓ} {A : Type ℓ} where
  abbrev pub length : List A → ℕ
  length [] = 0
  length (x ∷ xs) = suc (length xs)

  abbrev pub take : ℕ → List A → List A
  take zero xs = []
  take (suc n) [] = []
  take (suc n) (x ∷ xs) = x ∷ take n xs

  -- Python's `all` and `any` over a generator.
  unfoldable pub all : (A → Bool) → List A → Bool
  all p [] = true
  all p (x ∷ xs) = p x && all p xs

  unfoldable pub any : (A → Bool) → List A → Bool
  any p [] = false
  any p (x ∷ xs) = p x || any p xs

  unfoldable pub keep : (A → Bool) → List A → List A
  keep p [] = []
  keep p (x ∷ xs) = let rest = keep p xs in if p x then x ∷ rest else rest

  unfoldable pub head : List A → Option A
  head [] = none
  head (x ∷ xs) = some x

  -- A predicate of every item, by recursion.
  abbrev pub All {κ} : (A → Type κ) → List A → Type κ
  All P [] = Unit
  All P (x ∷ xs) = P x × All P xs

module _ {ℓ} {A : Type ℓ} ⦃e : Eq A⦄ where
  unfoldable pub contains : A → List A → Bool
  contains a [] = false
  contains a (x ∷ xs) = x == a || contains a xs

  -- `list(dict.fromkeys(xs))`: the first of each group of equal items.
  unfoldable pub dedup_from : List A → List A → List A
  dedup_from seen [] = []
  dedup_from seen (x ∷ xs) =
      let rest = dedup_from (if contains x seen then seen else x ∷ seen) xs in
      if contains x seen then rest else x ∷ rest

module _ {ℓ} {A : Type ℓ} where
  -- The first row that passes the test.
  unfoldable pub find : (A → Bool) → List A → Option A
  find p [] = none
  find p (x ∷ xs) = let rest = find p xs in if p x then some x else rest

  -- `UPDATE … WHERE`: every row that passes the test is rewritten.
  unfoldable pub update_where : (A → Bool) → (A → A) → List A → List A
  update_where p f [] = []
  update_where p f (x ∷ xs) = (if p x then f x else x) ∷ update_where p f xs

  -- Its row count.
  unfoldable pub count_where : (A → Bool) → List A → ℕ
  count_where p [] = 0
  count_where p (x ∷ xs) = (if p x then 1 else 0) + count_where p xs

  -- `ORDER BY`, for an order given as a test; rows that compare equal keep their places.
  unfoldable pub insert_by : (A → A → Bool) → A → List A → List A
  insert_by before x [] = x ∷ []
  insert_by before x (y ∷ ys) =
      let rest = insert_by before x ys in if before x y then x ∷ y ∷ ys else y ∷ rest

  unfoldable pub sort_by : (A → A → Bool) → List A → List A
  unfolding insert_by
  sort_by before [] = []
  sort_by before (x ∷ xs) = insert_by before x (sort_by before xs)

-- A Python dictionary in insertion order.
module _ {ℓ κ} {K : Type ℓ} {V : Type κ} ⦃e : Eq K⦄ where
  unfoldable pub dict_get : K → List (K × V) → Option V
  dict_get k [] = none
  dict_get k ((j, v) ∷ d) = let rest = dict_get k d in if j == k then some v else rest

  unfoldable pub dict_set : K → V → List (K × V) → List (K × V)
  dict_set k v [] = (k, v) ∷ []
  dict_set k v ((j, w) ∷ d) = if j == k then (j, v) ∷ d else (j, w) ∷ dict_set k v d

  -- `{**d, **extra}`
  unfoldable pub dict_merge : List (K × V) → List (K × V) → List (K × V)
  unfolding dict_set
  dict_merge d [] = d
  dict_merge d ((k, v) ∷ extra) = dict_merge (dict_set k v d) extra

  unfoldable pub dict_keys : List (K × V) → List K
  dict_keys [] = []
  dict_keys ((k, v) ∷ d) = k ∷ dict_keys d
