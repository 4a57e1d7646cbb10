-- ===== src/Cmdline/Printed.antt =====
-- `strtol` and `strtoul` read printed digits back, and other characters are not among them.
use tnvme.Base.{
  ℕ, suc, ◌^◌, ◌≤◌, ◌<◌, ◌≡◌, ◌≢◌, inl, inr, refl, sym, ap, ◌∙◌, true, false, none, [], ◌∷◌, ◌++◌,
  ◌==◌, arith, Bool-cases, Option-cases, ==_iff,
}
use mathlib.Core.Option.{none-ne-some}
use mathlib.Core.Bool.{true≢false}
use tnvme.Cmdline.Text.{
  Text, pos, is_space, digit_value, digit, scan, starts, skip_space, sign, skip_0x, to_long, strtol,
  to_ulong, strtoul, find, after, is_empty, long_max,
}
use tnvme.Cmdline.Digits.{
  IsBase, digit_char, digits, print_dec, print_hex, decimal-IsBase, hexadecimal-IsBase,
  digit_value-digit_char, digit-digit_char, AllDigits, scan-digits, digits_shape,
}

-- A separator is none of the digits.
separates : (c d : ℕ) → digit_value c ≡ none → d < 16 → (digit_char d == c) ≡ false
separates c d e h = elim (Bool-cases (digit_char d == c)) [
  | inl t ↦ absurd (
      none-ne-some d (sym e ∙ ap digit_value (sym ((==_iff _ c).0 t)) ∙ digit_value-digit_char d h))
  | inr f ↦ f
]

find-AllDigits :
    (base c : ℕ) (s out : Text)
    → base ≤ 16
    → digit_value c ≡ none
    → AllDigits base s
    → find c (s ++ out) ≡ find c out
unfolding find
find-AllDigits base c [] out small e all = refl
find-AllDigits base c (a ∷ s) out small e ((d, below, same), all) =
    let other : (a == c) ≡ false = rw same (separates c d e (omega arith)) in
    rw other (find-AllDigits base c s out small e all)

-- A text that `strtol` and `strtoul` begin to read as a number at once.
pub record Begins (base : ℕ) (s : Text) : Type 0 where
  pub begins : starts base s ≡ true
  pub spaces : skip_space s ≡ s
  pub signs : sign s ≡ (false, s)

abbrev pub NoX : Text → Type 0
NoX [] = Unit {0}
NoX (c ∷ s) = (c ≢ b'x') × (c ≢ b'X')

digit_char-Begins : (base d : ℕ) (s : Text) → base ≤ 16 → d < base → Begins base (digit_char d ∷ s)
unfolding starts skip_space sign is_space
digit_char-Begins base d s small h = record {
  begins = rw (digit-digit_char base d small h, starts) refl;
  spaces = ground arith;
  signs = ground arith;
}

skip_0x-NoX : (c : ℕ) (s : Text) → NoX s → skip_0x (c ∷ s) ≡ c ∷ s
unfolding skip_0x
skip_0x-NoX c [] h = refl
skip_0x-NoX c (x ∷ s) h = ground arith

AllDigits-NoX : (base : ℕ) (s out : Text) → base ≤ 16 → AllDigits base s → NoX out → NoX (s ++ out)
AllDigits-NoX base [] out small all h = h
AllDigits-NoX base (c ∷ s) out small ((d, below, e), all) h = (ground arith, ground arith)

scan_end : (base n : ℕ) (s : Text) → starts base s ≡ false → scan base n s ≡ (n, s)
unfolding scan starts
scan_end base n [] h = refl
scan_end base n (c ∷ s) h = elim (Option-cases (digit base c)) [
  | inl e ↦ rw (e, scan) refl
  | inr (d, e) ↦ absurd (true≢false (sym (rw (e, starts) refl) ∙ h))
]

module _ (base n : ℕ) (B : IsBase base) (out : Text) where
  abbrev printed : Text
  printed = digits base (suc n) n out

  printed-Begins : Begins base printed
  printed-Begins =
      let (d, s, below, all, e) = digits_shape base B (suc n) n (omega arith) in
      rw (e out) (digit_char-Begins base d (s ++ out) B.at_most below)

  scan-printed : starts base out ≡ false → scan base 0 printed ≡ (n, out)
  scan-printed h = scan-digits base B (suc n) n out (omega arith) ∙ scan_end base n out h

  skip_0x-printed : NoX out → skip_0x printed ≡ printed
  skip_0x-printed h =
      let (d, s, below, all, e) = digits_shape base B (suc n) n (omega arith) in
      rw (e out) (skip_0x-NoX (digit_char d) (s ++ out) (AllDigits-NoX base s out B.at_most all h))

  find-printed : (c : ℕ) → digit_value c ≡ none → find c printed ≡ find c out
  find-printed c h =
      let (d, s, below, all, e) = digits_shape base B (suc n) n (omega arith) in
      rw (e out) (find-AllDigits base c (digit_char d ∷ s) out B.at_most h ((d, below, refl), all))

  printed-some : is_empty printed ≡ false
  unfolding is_empty
  printed-some =
      let (d, s, below, all, e) = digits_shape base B (suc n) n (omega arith) in rw (e out) refl

pub strtol-print_dec :
    (n : ℕ) (out : Text)
    → n ≤ long_max
    → starts 10 out ≡ false
    → strtol (print_dec n out) ≡ (pos n, out)
unfolding strtol to_long print_dec
strtol-print_dec n out fits h =
    let B = printed-Begins 10 n decimal-IsBase out in
    rw (B.spaces, B.signs, B.begins, scan-printed 10 n decimal-IsBase out h) (ground arith)

pub strtoul-print_hex :
    (n : ℕ) (out : Text)
    → n < 2 ^ 64
    → starts 16 out ≡ false
    → NoX out
    → strtoul (print_hex n out) ≡ (n, out)
unfolding strtoul to_ulong print_hex
strtoul-print_hex n out fits h x =
    let B = printed-Begins 16 n hexadecimal-IsBase out in
    rw
      (
        B.spaces,
        B.signs,
        skip_0x-printed 16 n hexadecimal-IsBase out x,
        B.begins,
        scan-printed 16 n hexadecimal-IsBase out h,
      )
      (ground arith)

pub find-print_dec :
    (c n : ℕ) (out : Text) → digit_value c ≡ none → find c (print_dec n out) ≡ find c out
unfolding print_dec
find-print_dec c n out h = find-printed 10 n decimal-IsBase out c h

pub after-print_dec :
    (c n : ℕ) (out : Text) → digit_value c ≡ none → after c (print_dec n (c ∷ out)) ≡ out
unfolding after find
after-print_dec c n out h =
    let self : (c == c) ≡ true = ground arith in
    rw (find-print_dec c n (c ∷ out) h, after, self) refl

-- The digits on their own, with what they are in front of any text.
pub print_dec-AllDigits :
    (n : ℕ) → (s : Text) × AllDigits 10 s × ((out : Text) → print_dec n out ≡ s ++ out)
unfolding print_dec
print_dec-AllDigits n =
    let (d, s, below, all, e) = digits_shape 10 decimal-IsBase (suc n) n (omega arith) in
    (digit_char d ∷ s, ((d, below, refl), all), e)

pub is_empty-print_dec : (n : ℕ) (out : Text) → is_empty (print_dec n out) ≡ false
unfolding print_dec
is_empty-print_dec n out = printed-some 10 n decimal-IsBase out

pub after-print_hex :
    (c n : ℕ) (out : Text) → digit_value c ≡ none → after c (print_hex n (c ∷ out)) ≡ out
unfolding after find print_hex
after-print_hex c n out h =
    let self : (c == c) ≡ true = ground arith in
    rw (find-printed 16 n hexadecimal-IsBase (c ∷ out) c h, after, self) refl

pub is_empty-print_hex : (n : ℕ) (out : Text) → is_empty (print_hex n out) ≡ false
unfolding print_hex
is_empty-print_hex n out = printed-some 16 n hexadecimal-IsBase out
