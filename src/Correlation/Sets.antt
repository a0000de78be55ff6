-- ===== src/Correlation/Sets.antt =====
-- The sets of mail/correlation.py as lists.
use mathlib.Core.List.{Memᴰ}
use mathlib.Core.Path.{subst}
use snoc_automation_agent.Prelude.{
  ℕ, ◌+◌, ◌≡◌, ◌∙◌, sym, ap, refl, inl, inr, Bool, true, false, Option, none, some, List, [], ◌∷◌,
  ◌==◌, Eq-ℕ, nat_eq_iff, any, all, map, find, length, contains, dedup_from, ltb, arith, Bool-cases,
  Option-cases,
}
use snoc_automation_agent.Correlation.{several, differ, kept, options, nonempty}

nothing : (x : ℕ) → contains x [] ≡ true → ⊥
unfolding contains
nothing x h = ground (arith, h)

-- Where nothing is left once one element is seen, all are that element.
dedup_single : (z y : ℕ) (xs : List ℕ) → dedup_from (z ∷ []) xs ≡ [] → contains y xs ≡ true → y ≡ z
unfolding dedup_from contains
dedup_single z y [] e h = absurd (ground (arith, h))
dedup_single z y (x ∷ xs) e h = elim (Bool-cases (z == x)) [
  | inr other ↦ absurd (ground (arith, e, other))
  | inl same ↦ elim (Bool-cases (x == y)) [
    | inl this ↦ sym ((nat_eq_iff x y).0 this) ∙ sym ((nat_eq_iff z x).0 same)
    | inr next ↦ dedup_single z y xs (ground (arith, e, same)) (ground (arith, h, next))
  ]
]

dedup-nil : (xs : List ℕ) → ltb 1 (1 + length xs) ≡ false → xs ≡ []
dedup-nil [] h = refl
dedup-nil (x ∷ xs) h = absurd (ground (arith, h))

one_of : (z y : ℕ) (xs : List ℕ) → several (z ∷ xs) ≡ false → contains y (z ∷ xs) ≡ true → y ≡ z
unfolding several dedup_from contains
one_of z y xs alone h = elim (Bool-cases (z == y)) [
  | inl this ↦ sym ((nat_eq_iff z y).0 this)
  | inr next ↦
      dedup_single z y xs (dedup-nil (dedup_from (z ∷ []) xs) (ground (arith, alone)))
        (ground (arith, h, next))
]

-- A set without several elements has one at most.
pub several_same :
    (x y : ℕ) (xs : List ℕ)
    → several xs ≡ false
    → contains x xs ≡ true
    → contains y xs ≡ true
    → x ≡ y
several_same x y [] alone hx hy = absurd (nothing x hx)
several_same x y (z ∷ xs) alone hx hy = one_of z x xs alone hx ∙ sym (one_of z y xs alone hy)

all-contains :
    (p : ℕ → Bool) (y : ℕ) (xs : List ℕ) → all p xs ≡ true → contains y xs ≡ true → p y ≡ true
unfolding all contains
all-contains p y [] h m = absurd (ground (arith, m))
all-contains p y (x ∷ xs) h m = elim (Bool-cases (x == y)) [
  | inl this ↦ subst (λ n. p n ≡ true) ((nat_eq_iff x y).0 this) (ground (arith, h))
  | inr next ↦ all-contains p y xs (ground (arith, h)) (ground (arith, m, next))
]

pub differ-contains :
    (s t : List ℕ) (y : ℕ) → differ s t ≡ false → contains y t ≡ true → contains y s ≡ true
unfolding differ
differ-contains s t y h m = all-contains (λ x. contains x s) y t (ground (arith, h)) m

pub any-false {ℓ} :
    {A : Type ℓ} (p : A → Bool) (x : A) (xs : List A) → any p xs ≡ false → Memᴰ x xs → p x ≡ false
unfolding any
any-false p x [] h m = elim m [ ]
any-false p x (y ∷ xs) h (Memᴰ.head e) = rw e (ground (arith, h))
any-false p x (y ∷ xs) h (Memᴰ.tail m) = any-false p x xs (ground (arith, h)) m

pub contains-map {ℓ} :
    {A : Type ℓ} (f : A → ℕ) (x : A) (xs : List A) → Memᴰ x xs → contains (f x) (map f xs) ≡ true
unfolding contains
contains-map f x [] m = elim m [ ]
contains-map f x (y ∷ xs) (Memᴰ.head e) = ground (arith, nat_eq_iff (f y) (f x), ap f e)
contains-map f x (y ∷ xs) (Memᴰ.tail m) = ground (arith, contains-map f x xs m)

kept-options {κ} :
    {B : Type κ} (o : Option B) (b : B) (bs : List B) → o ≡ some b → kept o bs ≡ b ∷ bs
kept-options o b bs e = ap (λ x. kept x bs) e

Mem-kept {κ} : {B : Type κ} (o : Option B) (b : B) (bs : List B) → Memᴰ b bs → Memᴰ b (kept o bs)
Mem-kept none b bs m = m
Mem-kept (some a) b bs m = Memᴰ.tail m

-- What a member is mapped to stands among the results.
pub options-Mem {ℓ κ} :
    {A : Type ℓ} {B : Type κ} (f : A → Option B) (x : A) (b : B) (xs : List A)
    → Memᴰ x xs
    → f x ≡ some b
    → Memᴰ b (options (map f xs))
options-Mem f x b [] m e = elim m [ ]
options-Mem f x b (y ∷ xs) (Memᴰ.head same) e =
    subst (Memᴰ b) (sym (kept-options (f y) b (options (map f xs)) (ap f (sym same) ∙ e)))
      (Memᴰ.head refl)
options-Mem f x b (y ∷ xs) (Memᴰ.tail m) e = Mem-kept (f y) b _ (options-Mem f x b xs m e)

-- The converse.
pub Mem-options {ℓ κ} :
    {A : Type ℓ} {B : Type κ} (f : A → Option B) (b : B) (xs : List A)
    → Memᴰ b (options (map f xs))
    → (x : A) × (f x ≡ some b)
Mem-options f b [] m = elim m [ ]
Mem-options f b (y ∷ xs) m = elim (Option-cases (f y)) [
  | inl e ↦ Mem-options f b xs (subst (λ o. Memᴰ b (kept o (options (map f xs)))) e m)
  | inr (a, e) ↦ elim (subst (λ o. Memᴰ b (kept o (options (map f xs)))) e m) [
    | Memᴰ.head same ↦ (y, e ∙ ap some (sym same))
    | Memᴰ.tail rest ↦ Mem-options f b xs rest
  ]
]

pub find-Mem {ℓ} :
    {A : Type ℓ} (p : A → Bool) (xs : List A) (a : A) → find p xs ≡ some a → Memᴰ a xs
unfolding find
find-Mem p [] a h = absurd (ground (arith, h))
find-Mem p (x ∷ xs) a h = elim (Bool-cases (p x)) [
  | inl e ↦ Memᴰ.head (ground (arith, e, h))
  | inr e ↦ Memᴰ.tail (find-Mem p xs a (ground (arith, e, h)))
]

pub Mem-contains : (x : ℕ) (xs : List ℕ) → Memᴰ x xs → contains x xs ≡ true
unfolding contains
Mem-contains x [] m = elim m [ ]
Mem-contains x (y ∷ xs) (Memᴰ.head e) = ground (arith, nat_eq_iff y x, e)
Mem-contains x (y ∷ xs) (Memᴰ.tail m) = ground (arith, Mem-contains x xs m)

pub contains-nonempty : (x : ℕ) (xs : List ℕ) → contains x xs ≡ true → nonempty xs ≡ true
contains-nonempty x [] h = absurd (nothing x h)
contains-nonempty x (y ∷ xs) h = refl
