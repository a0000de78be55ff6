-- ===== src/Domain/ValueObjects/Numeric.antt =====
-- `normalize_numeric` of domain/value_objects.py: the shape of its results, and that a normal
-- value is left alone.
use Prim.Native.Char.{Char}
use Prim.Native.String.{[] as empty, ◌++◌ as str_append}
use text.Mathlib.Text.{starts_with}
use mathlib.Core.Bool.{false≢true}
use text.Mathlib.TextEquality.{starts_with_iff}
use text.Mathlib.TextLemmas.{cons-append, nil-append, cons-eq-cons}
use snoc_automation_agent.Prelude.{
  ap, sym, ◌∙◌, ◌≡◌, refl, Bool, true, false, ◌&&◌, Option, none, some, String, arith, Python,
  strip, keep_chars, is_empty, drop_end, Bool-cases, inl, inr, if◌then◌else◌,
}
use snoc_automation_agent.Domain.ValueObjects.{normalize_numeric, numeric_of_text}

-- What Unicode says of the characters that matter: a digit is no space, and `+` is neither.
pub record ReadsDigits (py : Python) : Type 0 where
  pub digit_not_space : (c : Char) → py.is_digit c ≡ true → py.is_space c ≡ false
  pub plus_not_space : py.is_space "+" ≡ false
  pub plus_not_digit : py.is_digit "+" ≡ false

abbrev pub AllChars : (Char → Bool) → String → Type 0
AllChars p String.[] = Unit
AllChars p (String.◌∷◌ c s) = (p c ≡ true) × AllChars p s

keep_chars-AllChars : (p : Char → Bool) (s : String) → AllChars p (keep_chars p s)
unfolding keep_chars
keep_chars-AllChars p String.[] = tt
keep_chars-AllChars p (String.◌∷◌ c s) = elim (Bool-cases (p c)) [
  | inl h ↦ rw h (h, keep_chars-AllChars p s)
  | inr h ↦ rw h (keep_chars-AllChars p s)
]

keep_chars_id : (p : Char → Bool) (s : String) → AllChars p s → keep_chars p s ≡ s
unfolding keep_chars
keep_chars_id p String.[] h = refl
keep_chars_id p (String.◌∷◌ c s) (h, hs) = rw (h, keep_chars_id p s hs)

plus-append : (s : String) → str_append "+" s ≡ String.◌∷◌ "+" s
plus-append s = cons-append "+" empty s ∙ ap (λ t. String.◌∷◌ "+" t) (nil-append s)

starts_with_plus : (s : String) → starts_with (String.◌∷◌ "+" s) "+" ≡ true
starts_with_plus s = (starts_with_iff (String.◌∷◌ "+" s) "+").1 (s, plus-append s)

module _ (py : Python) (reads : ReadsDigits py) where
  digits_no_plus : (s : String) → AllChars py.is_digit s → starts_with s "+" ≡ false
  digits_no_plus String.[] h = refl
  digits_no_plus (String.◌∷◌ c s) (h, hs) = elim (Bool-cases (starts_with (String.◌∷◌ c s) "+")) [
    | inl yes_plus ↦
        let (u, e) = (starts_with_iff (String.◌∷◌ c s) "+").0 yes_plus in
        let same : "+" ≡ c = (cons-eq-cons.0 (sym (plus-append u) ∙ e)).0 in
        absurd (false≢true (sym reads.plus_not_digit ∙ ap py.is_digit same ∙ h))
    | inr no_plus ↦ no_plus
  ]

  drop_end_id : (s : String) → AllChars py.is_digit s → drop_end py.is_space s ≡ s
  unfolding drop_end
  drop_end_id String.[] h = refl
  drop_end_id (String.◌∷◌ c s) (h, hs) = rw (reads.digit_not_space c h, drop_end_id s hs)

  strip_digits : (s : String) → AllChars py.is_digit s → strip py s ≡ s
  unfolding strip
  strip_digits String.[] h = refl
  strip_digits (String.◌∷◌ c s) (h, hs) =
      rw (reads.digit_not_space c h) (drop_end_id (String.◌∷◌ c s) (h, hs))

  strip_plus :
      (s : String) → AllChars py.is_digit s → strip py (String.◌∷◌ "+" s) ≡ String.◌∷◌ "+" s
  unfolding strip drop_end
  strip_plus s h = rw (reads.plus_not_space, reads.plus_not_space, drop_end_id s h)

  keep_chars_plus :
      (s : String) → AllChars py.is_digit s → keep_chars py.is_digit (String.◌∷◌ "+" s) ≡ s
  unfolding keep_chars
  keep_chars_plus s h = rw (reads.plus_not_digit, keep_chars_id py.is_digit s h)

  normalize_digits :
      (keep : Bool) (s : String)
      → AllChars py.is_digit s
      → is_empty s ≡ false
      → normalize_numeric py keep (some s) ≡ some s
  unfolding normalize_numeric
  normalize_digits keep s h filled =
      rw (strip_digits s h, keep_chars_id py.is_digit s h, filled, digits_no_plus s h)
        (ground arith)

  normalize_plus :
      (s : String)
      → AllChars py.is_digit s
      → is_empty s ≡ false
      → normalize_numeric py true (some (str_append "+" s)) ≡ some (str_append "+" s)
  unfolding normalize_numeric
  normalize_plus s h filled =
      rw (
        plus-append,
        strip_plus s h,
        keep_chars_plus s h,
        filled,
        starts_with_plus s,
        plus-append s,
      )

  normalize_signed :
      (keep plus : Bool) (s : String)
      → AllChars py.is_digit s
      → is_empty s ≡ false
      → normalize_numeric py keep (some (if keep && plus then str_append "+" s else s))
        ≡ some (if keep && plus then str_append "+" s else s)
  normalize_signed true true s h filled = normalize_plus s h filled
  normalize_signed true false s h filled = normalize_digits true s h filled
  normalize_signed false plus s h filled = normalize_digits false s h filled

  numeric_of_text_idem :
      (keep : Bool) (t : String)
      → normalize_numeric py keep (numeric_of_text py keep t) ≡ numeric_of_text py keep t
  unfolding numeric_of_text
  numeric_of_text_idem keep t =
      let digits = keep_chars-AllChars py.is_digit t in
      elim (Bool-cases (is_empty (keep_chars py.is_digit t))) [
        | inl none_left ↦ rw none_left (unfold normalize_numeric in refl)
        | inr filled ↦
            rw filled
              (normalize_signed keep (starts_with t "+") (keep_chars py.is_digit t) digits filled)
      ]

  -- Applying the normalisation to a result of it changes nothing.
  pub normalize_numeric_idem :
      (keep : Bool) (value : Option String)
      → normalize_numeric py keep (normalize_numeric py keep value)
        ≡ normalize_numeric py keep value
  unfolding normalize_numeric
  normalize_numeric_idem keep none = refl
  normalize_numeric_idem keep (some s) = numeric_of_text_idem keep (strip py s)
