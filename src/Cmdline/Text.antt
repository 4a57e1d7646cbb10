-- ===== src/Cmdline/Text.antt =====
-- What the parsers of `tnvmeParsers.cpp` use of the C and C++ library: texts as lists of character
-- codes without a NUL, `strtol` in base 10 and `strtoul` in base 16, `isalnum`, and searches.
use tnvme.Base.{
  ℕ, zero, suc, ◌+◌, ◌-◌, ◌*◌, ◌%◌, ◌^◌, min, Bool, true, false, ◌&&◌, ◌||◌, Option, none, some,
  List, [], ◌∷◌, ltb, leb, ◌==◌, if◌then◌else◌,
}

abbrev pub Text : Type 0
Text = List ℕ

-- `negsuc n` is -(n + 1).
pub data ℤ : Type 0 where
  pos : ℕ → ℤ
  negsuc : ℕ → ℤ

unfoldable pub is_space : ℕ → Bool
is_space c = c == 32 || (leb 9 c && leb c 13)

unfoldable pub is_alnum : ℕ → Bool
is_alnum c = (leb b'0' c && leb c b'9') || (leb b'a' c && leb c b'z') || (leb b'A' c && leb c b'Z')

-- The value of a character as a digit of any base up to 16.
unfoldable pub digit_value : ℕ → Option ℕ
digit_value c =
    if leb b'0' c && leb c b'9'
    then some (c - b'0')
    else if leb b'a' c && leb c b'f'
    then some (c - b'a' + 10)
    else if leb b'A' c && leb c b'F'
    then some (c - b'A' + 10)
    else none

unfoldable pub digit : ℕ → ℕ → Option ℕ
unfolding digit_value
digit base c = elim (digit_value c) [ none ↦ none | some d ↦ if ltb d base then some d else none ]

-- The digits at the front, as a number behind `n`, and the text behind them.
unfoldable pub scan : ℕ → ℕ → Text → ℕ × Text
scan base n [] = (n, [])
scan base n (c ∷ s) = elim (digit base c) [
  | none ↦ (n, c ∷ s)
  | some d ↦ scan base (n * base + d) s
]

unfoldable pub starts : ℕ → Text → Bool
starts base [] = false
starts base (c ∷ s) = elim (digit base c) [ none ↦ false | some _ ↦ true ]

unfoldable pub skip_space : Text → Text
unfolding is_space
skip_space [] = []
skip_space (c ∷ s) = if is_space c then skip_space s else c ∷ s

unfoldable pub sign : Text → Bool × Text
sign [] = (false, [])
sign (c ∷ s) = if c == b'-' then (true, s) else if c == b'+' then (false, s) else (false, c ∷ s)

-- A prefix `0x` counts if a hexadecimal digit follows it.
unfoldable pub skip_0x : Text → Text
unfolding starts
skip_0x (z ∷ x ∷ s) = if z == b'0' && (x == b'x' || x == b'X') && starts 16 s then s else z ∷ x ∷ s
skip_0x s = s

abbrev pub long_max : ℕ
long_max = 2 ^ 63 - 1

-- A sign and a magnitude as a `long`, which is clamped.
unfoldable pub to_long : Bool → ℕ → ℤ
to_long false n = pos (min n long_max)
to_long true zero = pos 0
to_long true (suc n) = negsuc (min n long_max)

-- `strtol(s, &endptr, 10)`: its value and the text at `endptr`.
unfoldable pub strtol : Text → ℤ × Text
strtol s =
    let (negative, t) = sign (skip_space s) in
    let (n, rest) = scan 10 0 t in if starts 10 t then (to_long negative n, rest) else (pos 0, s)

-- A negative number is negated modulo 2^64; one that is too large gives ULONG_MAX.
unfoldable pub to_ulong : Bool → ℕ → ℕ
to_ulong negative n =
    if leb (2 ^ 64) n then 2 ^ 64 - 1 else if negative then (2 ^ 64 - n) % 2 ^ 64 else n

-- `strtoul(s, &endptr, 16)` and `strtoull`
unfoldable pub strtoul : Text → ℕ × Text
strtoul s =
    let (negative, t) = sign (skip_space s) in
    let (n, rest) = scan 16 0 (skip_0x t) in
    if starts 16 (skip_0x t) then (to_ulong negative n, rest) else (0, s)

-- The text behind the first such character.
unfoldable pub find : ℕ → Text → Option Text
find c [] = none
find c (a ∷ s) = if a == c then some s else find c s

-- `s.substr(s.find_first_of(c) + 1, ...)`, which is all of `s` if the character is not there.
unfoldable pub after : ℕ → Text → Text
after c s = elim (find c s) [ none ↦ s | some t ↦ t ]

-- `s.substr(0, s.find(c))`
unfoldable pub before : ℕ → Text → Text
before c [] = []
before c (a ∷ s) = if a == c then [] else a ∷ before c s

-- `*endptr == c`
unfoldable pub ends_at : ℕ → Text → Bool
ends_at c [] = false
ends_at c (a ∷ s) = a == c

-- `*endptr == '\0'`, also `s.length() == 0`
unfoldable pub is_empty : Text → Bool
is_empty [] = true
is_empty (a ∷ s) = false

-- `strcmp(s, t) == 0`
unfoldable pub text_eq : Text → Text → Bool
text_eq [] [] = true
text_eq (a ∷ s) (b ∷ t) = a == b && text_eq s t
text_eq _ _ = false
