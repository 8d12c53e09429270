-- ===== src/Base/Text.antt =====
-- The functions of Go's `strings`, `strconv` and `fmt` that the code calls, on valid UTF-8 texts.
-- The case maps cover every character that maps to an ASCII letter or from one; other letters
-- beyond ASCII are left alone, and all texts that results are compared with are ASCII.
use Prim.Native.Nat.{ℕ, zero, suc, ◌+◌, ◌-◌, ◌*◌, ◌/◌, ◌%◌}
use Prim.Native.Char.{Char, code}
use Prim.Native.String.{String, [], ◌∷◌, ◌++◌, slice}
use mathlib.Core.Path.{◌≡◌, refl}
use mathlib.Core.Bool.{Bool, true, false, ◌&&◌, ◌||◌}
use mathlib.Core.Option.{Option, none, some}
use text.Mathlib.Text.{◌==◌}
use agent_infra_system.Base.Tests.{ltb, leb, nat_eq, if◌then◌else◌}
use agent_infra_system.Base.Int.{ℤ, pos, negsuc, max_int64}

is_space : Char → Bool
is_space ch =
    let c = code ch in
    (leb 9 c && leb c 13)
    || nat_eq c 32
    || nat_eq c 0x85
    || nat_eq c 0xa0
    || nat_eq c 0x1680
    || (leb 0x2000 c && leb c 0x200a)
    || nat_eq c 0x2028
    || nat_eq c 0x2029
    || nat_eq c 0x202f
    || nat_eq c 0x205f
    || nat_eq c 0x3000

trim_left : (Char → Bool) → String → String
trim_left p [] = []
trim_left p (c ∷ s) = let rest = trim_left p s in if p c then rest else c ∷ s

trim_right : (Char → Bool) → String → String
trim_right p [] = []
trim_right p (c ∷ s) = let rest = trim_right p s in if p c && rest == "" then [] else c ∷ rest

-- `strings.TrimSpace`
unfoldable pub trim_space : String → String
unfolding is_space trim_left trim_right
trim_space s = trim_right is_space (trim_left is_space s)

-- `strings.Trim(s, "/")`
unfoldable pub trim_slashes : String → String
unfolding trim_left trim_right
trim_slashes s = trim_right (λ c. nat_eq (code c) b'/') (trim_left (λ c. nat_eq (code c) b'/') s)

-- `strings.TrimSpace(s) == ""`
unfoldable pub is_blank : String → Bool
is_blank s = trim_space s == ""

-- The character of `to` at the place of `c` in `from`.
translate : String → String → Char → Char
translate [] to c = c
translate (f ∷ from) [] c = c
translate (f ∷ from) (t ∷ to) c = if nat_eq (code f) (code c) then t else translate from to c

-- Each character of `from` is replaced by the one at its place in `to`.
unfoldable pub translate_all : String → String → String → String
unfolding translate
translate_all from to [] = []
translate_all from to (c ∷ s) = translate from to c ∷ translate_all from to s

-- `strings.ToUpper`
unfoldable pub to_upper : String → String
unfolding translate_all
to_upper = translate_all "abcdefghijklmnopqrstuvwxyzıſ" "ABCDEFGHIJKLMNOPQRSTUVWXYZIS"

-- `strings.ToLower`; the last character of the first text is the Kelvin sign
unfoldable pub to_lower : String → String
unfolding translate_all
to_lower = translate_all "ABCDEFGHIJKLMNOPQRSTUVWXYZİK" "abcdefghijklmnopqrstuvwxyzik"

digits_value : ℕ → String → Option ℕ
digits_value n [] = some n
digits_value n (ch ∷ rest) =
    let c = code ch in
    let next = digits_value (n * 10 + (c - b'0')) rest in
    if leb b'0' c && leb c b'9' then next else none

-- a text of one or more digits
number : String → Option ℕ
unfolding digits_value
number [] = none
number (c ∷ s) = digits_value 0 (c ∷ s)

signed : Bool → Option ℕ → Option ℤ
signed negative none = none
signed false (some n) = if leb n max_int64 then some (pos n) else none
signed true (some zero) = some (pos 0)
signed true (some (suc n)) = if leb n max_int64 then some (negsuc n) else none

-- `strconv.Atoi`, on a 64-bit platform
unfoldable pub atoi : String → Option ℤ
unfolding number signed
atoi [] = none
atoi (c ∷ s) =
    if nat_eq (code c) b'-'
    then signed true (number s)
    else if nat_eq (code c) b'+'
    then signed false (number s)
    else signed false (number (c ∷ s))

digit : ℕ → String
digit d = slice "0123456789abcdef" d (suc d)

-- The digits of `n` in front of `acc`; 64 rounds are enough for a number below 2 ^ 64.
show_digits : ℕ → ℕ → ℕ → String → String
unfolding digit
show_digits base zero n acc = acc
show_digits base (suc fuel) n acc =
    let more = show_digits base fuel (n / base) (digit (n % base) ++ acc) in
    if ltb n base then digit n ++ acc else more

-- `%d`, of a number below 2 ^ 64
unfoldable pub show_decimal : ℕ → String
unfolding show_digits
show_decimal n = show_digits 10 64 n ""

-- `%d`, of an int64
unfoldable pub show_int : ℤ → String
unfolding show_decimal
show_int (pos n) = show_decimal n
show_int (negsuc n) = "-" ++ show_decimal (suc n)

pad : ℕ → String → String
pad zero s = s
pad (suc n) s = "0" ++ pad n s

-- `%08x`, of a number below 2 ^ 64
unfoldable pub show_hex8 : ℕ → String
unfolding show_digits pad
show_hex8 n = let s = show_digits 16 64 n "" in pad (8 - Prim.Native.String.len s) s

trim_upper_example : to_upper (trim_space " parked\t") ≡ "PARKED"
unfolding trim_space to_upper
trim_upper_example = refl

show_example : (show_hex8 255 ++ show_decimal 120) ≡ "000000ff120"
unfolding show_hex8 show_decimal
show_example = refl

atoi_example : atoi "-12" ≡ some (negsuc 11)
unfolding atoi
atoi_example = refl
