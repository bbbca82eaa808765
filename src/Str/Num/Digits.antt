-- ===== src/Str/Num/Digits.antt =====
-- src/core/ngx_string.c, ngx_sprintf_num: the digits that its loops leave in `temp`, read back.
use native.Mathlib.Nat.{pow-suc}
use nginx_inside_out.Prelude.{
  ℕ, zero, suc, ◌+◌, ◌-◌, ◌*◌, ◌/◌, ◌%◌, ◌^◌, ◌≤◌, ◌<◌, ◌≡◌, refl, ◌∙◌, ◌≢◌, inl, inr, Bool-cases,
  Bool, true, false, ◌&&◌, [], ◌∷◌, Acc, lt_wf, arith, leb, ◌==◌, if◌then◌else◌, length, get_or,
}
use nginx_inside_out.Str.Num.{
  Bytes, hex_lower, hex_upper, int64_len, decimal_loop, hex_loop, numeral,
}

-- What a reader makes of decimal digits, given the value of those in front of them.
abbrev pub decimal_value_from : ℕ → Bytes → ℕ
decimal_value_from acc [] = acc
decimal_value_from acc (c ∷ s) = decimal_value_from (acc * 10 + (c - b'0')) s

abbrev pub nibble_value : ℕ → ℕ
nibble_value c =
    if leb c b'9' then c - b'0' else if leb b'a' c then c - b'a' + 10 else c - b'A' + 10

abbrev pub hex_value_from : ℕ → Bytes → ℕ
hex_value_from acc [] = acc
hex_value_from acc (c ∷ s) = hex_value_from (acc * 16 + nibble_value c) s

decimal_loop_value :
    (n : ℕ) (w : Acc ◌<◌ n) (temp : Bytes)
    → decimal_value_from 0 (decimal_loop n w temp) ≡ decimal_value_from n temp
unfolding decimal_loop
decimal_loop_value n (Acc.intro _ smaller) temp = grind (
  arith,
  λ (p : n / 10 < n). decimal_loop_value (n / 10) (smaller (n / 10) p) ((n % 10 + b'0') ∷ temp),
)

length-decimal_loop-le :
    (k n : ℕ) (w : Acc ◌<◌ n) (temp : Bytes)
    → n < 10 ^ suc k
    → length (decimal_loop n w temp) ≤ length temp + suc k
unfolding decimal_loop
length-decimal_loop-le zero n (Acc.intro _ smaller) temp h = grind arith
length-decimal_loop-le (suc k) n (Acc.intro _ smaller) temp h = grind (
  arith,
  λ (p : n / 10 < n).
      length-decimal_loop-le k (n / 10) (smaller (n / 10) p) ((n % 10 + b'0') ∷ temp)
        (omega (arith, pow-suc 10 (suc k))),
)

-- The digits of a table stand at their values, from `i` on.
indexed : (i : ℕ) → Bytes → Bool
indexed i [] = true
indexed i (c ∷ table) = nibble_value c == i && indexed (i + 1) table

nibble_value-get_or :
    (table : Bytes) (i d : ℕ)
    → indexed i table ≡ true
    → d < length table
    → nibble_value (get_or table d 0) ≡ i + d
unfolding indexed
nibble_value-get_or [] i d h lt = absurd (omega arith)
nibble_value-get_or (c ∷ table) i zero h lt = ground arith
nibble_value-get_or (c ∷ table) i (suc d) h lt =
    let rest : indexed (i + 1) table ≡ true = ground arith in
    omega (arith, nibble_value-get_or table (i + 1) d rest (omega arith))

abbrev ReadsBack : Bytes → Type 0
ReadsBack table = (d : ℕ) → d < 16 → nibble_value (get_or table d 0) ≡ d

hex_lower-ReadsBack : ReadsBack hex_lower
unfolding indexed
hex_lower-ReadsBack d h = omega (arith, nibble_value-get_or hex_lower 0 d refl h)

hex_upper-ReadsBack : ReadsBack hex_upper
unfolding indexed
hex_upper-ReadsBack d h = omega (arith, nibble_value-get_or hex_upper 0 d refl h)

hex_loop_value :
    (table : Bytes)
    → ReadsBack table
    → (n : ℕ) (w : Acc ◌<◌ n) (temp : Bytes)
    → hex_value_from 0 (hex_loop table n w temp) ≡ hex_value_from n temp
unfolding hex_loop
hex_loop_value table good n (Acc.intro _ smaller) temp =
    let digit : ℕ = get_or table (n % 16) 0 in
    let back : nibble_value digit ≡ n % 16 = good (n % 16) (omega arith) in
    let last_digit : n / 16 * 16 + nibble_value digit ≡ n = omega arith in
    grind (
      arith,
      λ (p : n / 16 < n). hex_loop_value table good (n / 16) (smaller (n / 16) p) (digit ∷ temp),
    )

length-hex_loop-le :
    (table : Bytes) (k n : ℕ) (w : Acc ◌<◌ n) (temp : Bytes)
    → n < 16 ^ suc k
    → length (hex_loop table n w temp) ≤ length temp + suc k
unfolding hex_loop
length-hex_loop-le table zero n (Acc.intro _ smaller) temp h = grind arith
length-hex_loop-le table (suc k) n (Acc.intro _ smaller) temp h = grind (
  arith,
  λ (p : n / 16 < n).
      length-hex_loop-le table k (n / 16) (smaller (n / 16) p) (get_or table (n % 16) 0 ∷ temp)
        (omega (arith, pow-suc 16 (suc k))),
)

-- Read back in decimal, the digits give the number that was printed, on the 32-bit and on the
-- 64-bit branch.
pub decimal_value-numeral : (n : ℕ) → decimal_value_from 0 (numeral n 0) ≡ n
unfolding numeral
decimal_value-numeral n = elim (Bool-cases (leb n 0xffff_ffff)) [
  | inl small ↦
      let e : n % 2 ^ 32 ≡ n = ground arith in
      rw small (decimal_loop_value (n % 2 ^ 32) (lt_wf.apply (n % 2 ^ 32)) [] ∙ e)
  | inr big ↦ rw big (decimal_loop_value n (lt_wf.apply n) [])
]

-- Read back in base 16, the digits of either case, which a flag other than 0 selects, give the
-- number that was printed.
pub hex_value-numeral :
    (n hexadecimal : ℕ) → hexadecimal ≢ 0 → hex_value_from 0 (numeral n hexadecimal) ≡ n
unfolding numeral
hex_value-numeral n zero h = absurd (h refl)
hex_value-numeral n (suc zero) h = hex_loop_value hex_lower hex_lower-ReadsBack n (lt_wf.apply n) []
hex_value-numeral n (suc (suc k)) h =
    let e0 : (suc (suc k) == 0) ≡ false = ground arith in
    let e1 : (suc (suc k) == 1) ≡ false = ground arith in
    rw (e0, e1) (hex_loop_value hex_upper hex_upper-ReadsBack n (lt_wf.apply n) [])

-- The number that digits stand for, in the base that the flag selects.
abbrev pub value_of : (hexadecimal : ℕ) → Bytes → ℕ
value_of hexadecimal digits =
    if hexadecimal == 0 then decimal_value_from 0 digits else hex_value_from 0 digits

-- The digits of a number below 2^64 fit the NGX_INT64_LEN bytes of `temp`, in every base.
pub length-numeral-le :
    (n hexadecimal : ℕ) → n < 2 ^ 64 → length (numeral n hexadecimal) ≤ int64_len
unfolding numeral
length-numeral-le n zero h = elim (Bool-cases (leb n 0xffff_ffff)) [
  | inl small ↦
      rw small (length-decimal_loop-le 19 (n % 2 ^ 32) (lt_wf.apply (n % 2 ^ 32)) [] (omega arith))
  | inr big ↦ rw big (length-decimal_loop-le 19 n (lt_wf.apply n) [] (omega arith))
]
length-numeral-le n (suc zero) h =
    length-hex_loop-le hex_lower 19 n (lt_wf.apply n) [] (omega arith)
length-numeral-le n (suc (suc k)) h =
    let e0 : (suc (suc k) == 0) ≡ false = ground arith in
    let e1 : (suc (suc k) == 1) ≡ false = ground arith in
    rw (e0, e1) (length-hex_loop-le hex_upper 19 n (lt_wf.apply n) [] (omega arith))

value_of-numeral_all : (n hexadecimal : ℕ) → value_of hexadecimal (numeral n hexadecimal) ≡ n
value_of-numeral_all n hexadecimal = elim (Bool-cases (hexadecimal == 0)) [
  | inl e ↦
      let zero_flag : hexadecimal ≡ 0 = ground arith in rw (zero_flag, decimal_value-numeral n) refl
  | inr e ↦ rw (e, hex_value-numeral n hexadecimal (ground arith)) refl
]

-- Of a number below 2^64, the digits are at most NGX_INT64_LEN, the length of the buffer that they are
-- written to; read back in the base that the flag selects, they give the number: decimal ones on
-- the 32-bit and on the 64-bit branch, and those of base 16 in either case.
pub value_of-numeral :
    (n hexadecimal : ℕ)
    → n < 2 ^ 64
    → (length (numeral n hexadecimal) ≤ int64_len)
      × (value_of hexadecimal (numeral n hexadecimal) ≡ n)
value_of-numeral n hexadecimal word =
    (length-numeral-le n hexadecimal word, value_of-numeral_all n hexadecimal)
