-- ===== src/Str/Format/Left.antt =====
-- src/core/ngx_string.c, ngx_vslprintf: what the modifiers leave of the format.
use nginx_inside_out.Prelude.{
  ℕ, suc, ◌+◌, ◌-◌, ◌*◌, ◌%◌, ◌^◌, ◌≤◌, inl, inr, List, [], ◌∷◌, Option, none, some, arith, ◌==◌,
  if◌then◌else◌, Bool-cases, length,
}
use nginx_inside_out.Str.Num.{Bytes}
use nginx_inside_out.Str.Format.Spec.{
  Arg, Spec, Modifier, again, fraction, stop, bad, modifier, digit_run, is_digit, with_fraction,
  modifiers, fresh, parse_spec,
}

module _ {Double : Type 0} where
  -- What is left of the format behind the modifiers is no longer than what was there.
  abbrev pub Shorter : ℕ → Option (Spec × List (Arg Double) × Bytes) → Type 0
  Shorter n none = Unit {0}
  Shorter n (some (s, args, fmt)) = length fmt ≤ n

abbrev ShorterRun : ℕ → Option (ℕ × Bytes) → Type 0
ShorterRun n none = Unit {0}
ShorterRun n (some (w, fmt)) = length fmt ≤ n

ShorterRun-mono : {m n : ℕ} (o : Option (ℕ × Bytes)) → m ≤ n → ShorterRun m o → ShorterRun n o
ShorterRun-mono none h i = tt
ShorterRun-mono (some (w, fmt)) h i = omega arith

digit_run-Shorter : (w : ℕ) (fmt : Bytes) → ShorterRun (length fmt) (digit_run w fmt)
unfolding digit_run
digit_run-Shorter w [] = tt
digit_run-Shorter w (c ∷ fmt) = elim (Bool-cases (is_digit c)) [
  | inl more ↦ rw more (ShorterRun-mono (digit_run w' fmt) (omega arith) (digit_run-Shorter w' fmt))
  | inr end ↦ rw end (omega arith)
]
  where
    w' : ℕ
    w' = (w * 10 + (c - b'0')) % 2 ^ 64

module _ {Double : Type 0} where
  Shorter-mono :
      {m n : ℕ} (o : Option (Spec × List (Arg Double) × Bytes)) → m ≤ n → Shorter m o → Shorter n o
  Shorter-mono none h i = tt
  Shorter-mono (some (s, args, fmt)) h i = omega arith

  with_fraction-Shorter :
      (s : Spec) (args : List (Arg Double)) (n : ℕ) (o : Option (ℕ × Bytes))
      → ShorterRun n o
      → Shorter n (with_fraction s args o)
  with_fraction-Shorter s args n none h = tt
  with_fraction-Shorter s args n (some (w, fmt)) h = h

  modifiers-Shorter :
      (s : Spec) (args : List (Arg Double)) (fmt : Bytes)
      → Shorter (length fmt) (modifiers s args fmt)
  unfolding modifiers
  modifiers-Shorter s args [] = tt
  modifiers-Shorter s args (c ∷ fmt) =
      split (modifier c s args) (λ s' args'. modifiers-Shorter s' args' fmt)
    where
      split :
          (m : Modifier Double)
          → ((s' : Spec) (args' : List (Arg Double))
              → Shorter (length fmt) (modifiers s' args' fmt))
          → Shorter (suc (length fmt)) (elim m [
            | again s' args' ↦ modifiers s' args' fmt
            | fraction ↦ with_fraction s args (digit_run 0 fmt)
            | stop ↦ some (s, args, c ∷ fmt)
            | bad ↦ none
          ])
      split (again s' args') ih = Shorter-mono (modifiers s' args' fmt) (omega arith) (ih s' args')
      split fraction ih =
          Shorter-mono (with_fraction s args (digit_run 0 fmt)) (omega arith)
            (with_fraction-Shorter s args (length fmt) (digit_run 0 fmt) (digit_run-Shorter 0 fmt))
      split stop ih = omega arith
      split bad ih = tt

  pub parse_spec-Shorter :
      (args : List (Arg Double)) (fmt : Bytes) → Shorter (length fmt) (parse_spec args fmt)
  unfolding parse_spec
  parse_spec-Shorter args [] = tt
  parse_spec-Shorter args (c ∷ fmt) = split (digit_run 0 (c ∷ fmt)) (digit_run-Shorter 0 (c ∷ fmt))
    where
      z : ℕ
      z = if c == b'0' then b'0' else b' '

      split :
          (o : Option (ℕ × Bytes))
          → ShorterRun (suc (length fmt)) o
          → Shorter
              (suc (length fmt))
              (elim o [ none ↦ none | some (width, rest) ↦ modifiers (fresh z width) args rest ])
      split none h = tt
      split (some (width, rest)) h =
          Shorter-mono (modifiers (fresh z width) args rest) h
            (modifiers-Shorter (fresh z width) args rest)
