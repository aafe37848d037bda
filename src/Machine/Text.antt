-- ===== src/Machine/Text.antt =====
-- Rust's `str` as crates/llmvm/src/vm.rs uses it, on texts measured in bytes of their UTF-8, and the
-- decimal text of an `i64`.
use Prim.Native.Char.{code}
use Prim.Native.String.{◌++◌, len, count, slice}
use text.Mathlib.Text
use boruna.Prelude.{
  ℕ, zero, suc, ◌+◌, ◌-◌, ◌*◌, ◌/◌, ◌%◌, String, Bool, not, ◌&&◌, ◌||◌, List, [], ◌∷◌, Option, none,
  some, ltb, leb, ◌==◌, str_eq, if◌then◌else◌, is_none,
}
use boruna.Prelude.Int.{ℤ, pos, negsuc}

abbrev pub str_contains : String → String → Bool
str_contains s t = not (is_none (Text.find? s t))

unfoldable pub ends_with : String → String → Bool
ends_with s t = leb (len t) (len s) && str_eq (slice s (len s - len t) (len s)) t

-- `chars().map(|c| c.to_string())`
unfoldable pub chars : String → List String
chars String.[] = []
chars (String.◌∷◌ c s) = (String.◌∷◌ c String.[]) ∷ chars s

-- `join`
unfoldable pub join : String → List String → String
join sep [] = ""
join sep (s ∷ []) = s
join sep (s ∷ t ∷ rest) = s ++ sep ++ join sep (t ∷ rest)

-- `split` at a text that is not empty: a piece for each occurrence, and the last
unfoldable pub split_from : ℕ → String → String → List String
split_from zero s sep = s ∷ []
split_from (suc k) s sep = elim (Text.find? s sep) [
  | none ↦ s ∷ []
  | some i ↦ slice s 0 i ∷ split_from k (slice s (i + len sep) (len s)) sep
]

unfoldable pub split : String → String → List String
split s sep = split_from (count s) s sep

-- `replace`: at the empty text, before each character and at the end
unfoldable pub surround : String → List String → String
surround to [] = to
surround to (c ∷ cs) = to ++ c ++ surround to cs

unfoldable pub replace : String → String → String → String
replace s from to = if str_eq from "" then surround to (chars s) else join to (split s from)

-- `char::is_whitespace`
abbrev pub is_whitespace : ℕ → Bool
is_whitespace c =
    (leb 9 c && leb c 13)
    || (c == 32
        || (c == 0x85
            || (c == 0xA0
                || (c == 0x1680
                    || ((leb 0x2000 c && leb c 0x200A)
                        || (c == 0x2028
                            || (c == 0x2029 || (c == 0x202F || (c == 0x205F || c == 0x3000)))))))))

unfoldable pub trim_start : String → String
trim_start String.[] = ""
trim_start (String.◌∷◌ c s) =
    let rest = trim_start s in if is_whitespace (code c) then rest else String.◌∷◌ c s

unfoldable pub trim_end : String → String
trim_end String.[] = ""
trim_end (String.◌∷◌ c s) =
    let rest = trim_end s in
    if is_whitespace (code c) && str_eq rest "" then "" else String.◌∷◌ c rest

unfoldable pub trim : String → String
trim s = trim_end (trim_start s)

-- `{n}` of a number
unfoldable pub digit_text : ℕ → String
digit_text d =
    if d == 0
    then "0"
    else if d == 1
    then "1"
    else if d == 2
    then "2"
    else if d == 3
    then "3"
    else if d == 4
    then "4"
    else if d == 5
    then "5"
    else if d == 6
    then "6"
    else if d == 7
    then "7"
    else if d == 8
    then "8"
    else "9"

unfoldable pub show_digits : ℕ → ℕ → String
show_digits zero n = ""
show_digits (suc k) n =
    let more = show_digits k (n / 10) ++ digit_text (n % 10) in
    if ltb n 10 then digit_text n else more

unfoldable pub show_nat : ℕ → String
show_nat n = show_digits (suc n) n

unfoldable pub show_int : ℤ → String
show_int (pos n) = show_nat n
show_int (negsuc n) = "-" ++ show_nat (suc n)

-- `parse::<i64>`
unfoldable pub parse_digits : ℕ → String → Option ℕ
parse_digits acc String.[] = some acc
parse_digits acc (String.◌∷◌ c s) =
    let rest = parse_digits (acc * 10 + (code c - 48)) s in
    if leb 48 (code c) && leb (code c) 57 then rest else none

abbrev pub i64_min_abs : ℕ
i64_min_abs = 9223372036854775808

abbrev pub fit_pos : Option ℕ → Option ℤ
fit_pos none = none
fit_pos (some n) = if ltb n i64_min_abs then some (pos n) else none

-- the integer -n
abbrev pub negated : ℕ → ℤ
negated zero = pos 0
negated (suc n) = negsuc n

abbrev pub fit_neg : Option ℕ → Option ℤ
fit_neg none = none
fit_neg (some n) = if leb n i64_min_abs then some (negated n) else none

abbrev pub digits_of : String → Option ℕ
digits_of String.[] = none
digits_of (String.◌∷◌ c s) = parse_digits 0 (String.◌∷◌ c s)

unfoldable pub parse_i64 : String → Option ℤ
unfolding parse_digits
parse_i64 String.[] = none
parse_i64 (String.◌∷◌ c s) =
    if code c == 43
    then fit_pos (digits_of s)
    else if code c == 45
    then fit_neg (digits_of s)
    else fit_pos (digits_of (String.◌∷◌ c s))
