-- ===== src/Mail/Subjects.antt =====
-- The loop of mail/headers.py that takes the reply prefixes off a subject ends.
use Prim.Native.String.{[], ◌∷◌}
use snoc_automation_agent.Prelude.{
  ℕ, zero, suc, Bool, false, ◌&&◌, ◌≡◌, ◌<◌, ◌⊎◌, inl, inr, String, ◌==◌, Eq-String, eq_iff, refl,
  is_empty, strip, str_length, drop_while, drop_end, arith, Bool-cases, ap, sym, Python,
}
use Prim.Native.Char.{Char}
use snoc_automation_agent.Mail.{MailLib}
use snoc_automation_agent.Mail.Headers.{strip_prefixes, bare_subject}

-- Nothing happened, or the text became shorter.
abbrev IsShorter : String → String → Type 0
IsShorter s t = (t ≡ s) ⊎ (str_length t < str_length s)

-- A shorter tail, and the head with it or without it.
IsShorter-rest : (c : Char) (s t : String) → IsShorter s t → IsShorter (c ∷ s) t
IsShorter-rest c s t (inl same) = inr (rw same (omega arith))
IsShorter-rest c s t (inr less) = inr (omega (arith, less))

IsShorter-kept : (c : Char) (s t : String) → IsShorter s t → IsShorter (c ∷ s) (c ∷ t)
IsShorter-kept c s t (inl same) = inl (ap (λ x. c ∷ x) same)
IsShorter-kept c s t (inr less) = inr (omega (arith, less))

IsShorter-trans : (s t u : String) → IsShorter s t → IsShorter t u → IsShorter s u
IsShorter-trans s t u (inl same) h = rw (sym same) h
IsShorter-trans s t u (inr less) (inl same) = inr (rw same less)
IsShorter-trans s t u (inr less) (inr less') = inr (omega (arith, less, less'))

drop_while-IsShorter : (p : Char → Bool) (s : String) → IsShorter s (drop_while p s)
unfolding drop_while
drop_while-IsShorter p [] = inl refl
drop_while-IsShorter p (c ∷ s) = elim (Bool-cases (p c)) [
  | inl e ↦ rw e (IsShorter-rest c s _ (drop_while-IsShorter p s))
  | inr e ↦ rw e (inl refl)
]

drop_end-IsShorter : (p : Char → Bool) (s : String) → IsShorter s (drop_end p s)
unfolding drop_end
drop_end-IsShorter p [] = inl refl
drop_end-IsShorter p (c ∷ s) = elim (Bool-cases (p c && is_empty (drop_end p s))) [
  | inl e ↦ rw e (inr (omega arith))
  | inr e ↦ rw e (IsShorter-kept c s _ (drop_end-IsShorter p s))
]

strip-IsShorter : (py : Python) (s : String) → IsShorter s (strip py s)
unfolding strip
strip-IsShorter py s =
    IsShorter-trans s (drop_while py.is_space s) _ (drop_while-IsShorter py.is_space s)
      (drop_end-IsShorter py.is_space _)

shorter :
    (s : String) (n : ℕ) {t : String}
    → str_length s < suc n
    → (t == s) ≡ false
    → IsShorter s t
    → str_length t < n
shorter s n {t} h other (inl same) = absurd (ground (arith, same, other, (eq_iff t s).1 same))
shorter s n h other (inr less) = omega (arith, h, less)

-- A round of the loop changes nothing.
abbrev pub IsBare : MailLib → String → Type 0
IsBare lib s = strip lib.python (lib.sub_subject_prefix s) ≡ s

module _ (lib : MailLib) (law : (s : String) → IsShorter s (lib.sub_subject_prefix s)) where
  abbrev round : String → String
  round s = strip lib.python (lib.sub_subject_prefix s)

  round-IsShorter : (s : String) → IsShorter s (round s)
  round-IsShorter s =
      IsShorter-trans s (lib.sub_subject_prefix s) _ (law s)
        (strip-IsShorter lib.python (lib.sub_subject_prefix s))

  strip_prefixes-IsBare :
      (n : ℕ) (s : String) → str_length s < n → IsBare lib (strip_prefixes lib n s)
  unfolding strip_prefixes
  strip_prefixes-IsBare zero s h = absurd (omega (arith, h))
  strip_prefixes-IsBare (suc n) s h = elim (Bool-cases (round s == s)) [
    | inl e ↦ let same : round s ≡ s = (eq_iff (round s) s).0 e in rw e (ap round same)
    | inr e ↦ rw e (strip_prefixes-IsBare n (round s) (shorter s n h e (round-IsShorter s)))
  ]

-- With the bound that the program's functions give it, the loop has ended: a round more changes
-- nothing, since what the substitution changes it shortens.
pub bare_subject-IsBare :
    (lib : MailLib) (s : String)
    → ((t : String) → IsShorter t (lib.sub_subject_prefix t))
    → IsBare lib (bare_subject lib s)
bare_subject-IsBare lib s law = strip_prefixes-IsBare lib law (suc (str_length s)) s (omega arith)
