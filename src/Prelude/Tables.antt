-- ===== src/Prelude/Tables.antt =====
-- Lemmas on rows: reading after an insertion or an update, and counts.
use snoc_automation_agent.Prelude.Tests.{if◌then◌else◌}
use snoc_automation_agent.Prelude.Lists.{find, update_where, count_where, keep, head, All, any}
use Prim.Native.Nat.{◌+◌}
use mathlib.Core.Path.{◌≡◌, refl}
use mathlib.Core.Bool.{Bool, true, false}
use mathlib.Core.Option.{Option, none, some}
use mathlib.Core.List.{List, [], ◌∷◌, ◌++◌}
use native.Mathlib.Omega.{arith}

module _ {ℓ} {A : Type ℓ} where
  abbrev pub or_else : Option A → Option A → Option A
  or_else none b = b
  or_else (some a) b = some a

  abbrev pub opt_map : (A → A) → Option A → Option A
  opt_map f none = none
  opt_map f (some a) = some (f a)

  pub find-append :
      (p : A → Bool) (xs ys : List A) → find p (xs ++ ys) ≡ or_else (find p xs) (find p ys)
  unfolding find
  find-append p [] ys = refl
  find-append p (x ∷ xs) ys = ground (arith, find-append p xs ys)

  -- An update that keeps what a search looks at.
  pub find-update_where :
      (p q : A → Bool) (f : A → A) (xs : List A)
      → ((x : A) → p (f x) ≡ p x)
      → find p (update_where q f xs) ≡ opt_map (λ x. if q x then f x else x) (find p xs)
  unfolding find update_where
  find-update_where p q f [] keeps = refl
  find-update_where p q f (x ∷ xs) keeps = ground (arith, keeps x, find-update_where p q f xs keeps)

  pub count-append :
      (p : A → Bool) (xs ys : List A)
      → count_where p (xs ++ ys) ≡ count_where p xs + count_where p ys
  unfolding count_where
  count-append p [] ys = omega arith
  count-append p (x ∷ xs) ys = omega (arith, count-append p xs ys)

  pub find_holds : (p : A → Bool) (xs : List A) (a : A) → find p xs ≡ some a → p a ≡ true
  unfolding find
  find_holds p [] a h = ground arith
  find_holds p (x ∷ xs) a h = ground (arith, find_holds p xs a)

  pub keep-append : (p : A → Bool) (xs ys : List A) → keep p (xs ++ ys) ≡ keep p xs ++ keep p ys
  unfolding keep
  keep-append p [] ys = refl
  keep-append p (x ∷ xs) ys = ground (arith, keep-append p xs ys)

  pub head-none : (xs : List A) → head xs ≡ none → xs ≡ []
  unfolding head
  head-none [] h = refl
  head-none (x ∷ xs) h = absurd (ground (arith, h))

  -- An update that passes over the old rows rewrites the new one.
  pub update-append :
      (p : A → Bool) (f : A → A) (xs : List A) (y : A)
      → All (λ x. p x ≡ false) xs
      → p y ≡ true
      → update_where p f (xs ++ y ∷ []) ≡ xs ++ f y ∷ []
  unfolding update_where
  update-append p f [] y old hit = ground (arith, hit)
  update-append p f (x ∷ xs) y (miss, old) hit =
      ground (arith, miss, update-append p f xs y old hit)

  pub All_map {κ μ} :
      {P : A → Type κ} {Q : A → Type μ} (xs : List A) → ((x : A) → P x → Q x) → All P xs → All Q xs
  All_map [] f h = tt
  All_map (x ∷ xs) f (px, rest) = (f x px, All_map xs f rest)

  pub count-any : (p : A → Bool) (xs : List A) → any p xs ≡ false → count_where p xs ≡ 0
  unfolding any count_where
  count-any p [] h = refl
  count-any p (x ∷ xs) h = ground (arith, h, count-any p xs)

  pub count-keep : (p : A → Bool) (xs : List A) → keep p xs ≡ [] → count_where p xs ≡ 0
  unfolding keep count_where
  count-keep p [] h = refl
  count-keep p (x ∷ xs) h = ground (arith, h, count-keep p xs)

  -- An update that keeps what a count looks at.
  pub count-update :
      (p q : A → Bool) (f : A → A) (xs : List A)
      → ((x : A) → p (f x) ≡ p x)
      → count_where p (update_where q f xs) ≡ count_where p xs
  unfolding count_where update_where
  count-update p q f [] keeps = refl
  count-update p q f (x ∷ xs) keeps = ground (arith, keeps x, count-update p q f xs keeps)
