-- ===== src/Prelude/Hex.antt =====
-- fmt's %016x and strconv.ParseUint of base 16 and 64 bits, on native texts.
use Prim.Native.Char.{Char, code}
use Prim.Native.String.{String}
use Prim.Native.Nat.{ℕ, zero, suc, ◌+◌, ◌*◌, ◌/◌, ◌%◌, ◌-◌, ◌^◌, ◌<◌}
use mathlib.Core.Path.{◌≡◌, refl, sym, ap, ◌∙◌}
use mathlib.Core.Logic.{◌≢◌}
use mathlib.Core.Bool.{Bool, true, false, ◌&&◌}
use mathlib.Core.Option.{Option, none, some}
use native.Mathlib.Omega.{arith}
use native.Mathlib.Nat.{mul_assoc}
use etcd_operator.Prelude.Tests.{ltb, leb, if◌then◌else◌}

hex_digit : ℕ → Char
hex_digit zero = "0"
hex_digit (suc zero) = "1"
hex_digit (suc (suc zero)) = "2"
hex_digit (suc (suc (suc zero))) = "3"
hex_digit (suc (suc (suc (suc zero)))) = "4"
hex_digit (suc (suc (suc (suc (suc zero))))) = "5"
hex_digit (suc (suc (suc (suc (suc (suc zero)))))) = "6"
hex_digit (suc (suc (suc (suc (suc (suc (suc zero))))))) = "7"
hex_digit (suc (suc (suc (suc (suc (suc (suc (suc zero)))))))) = "8"
hex_digit (suc (suc (suc (suc (suc (suc (suc (suc (suc zero))))))))) = "9"
hex_digit (suc (suc (suc (suc (suc (suc (suc (suc (suc (suc zero)))))))))) = "a"
hex_digit (suc (suc (suc (suc (suc (suc (suc (suc (suc (suc (suc zero))))))))))) = "b"
hex_digit (suc (suc (suc (suc (suc (suc (suc (suc (suc (suc (suc (suc zero)))))))))))) = "c"
hex_digit (suc (suc (suc (suc (suc (suc (suc (suc (suc (suc (suc (suc (suc zero))))))))))))) = "d"
hex_digit (suc (suc (suc (suc (suc (suc (suc (suc (suc (suc (suc (suc (suc (suc zero)))))))))))))) =
    "e"
hex_digit _ = "f"

-- The lowest `k` digits, before the text that follows.
hex_digits : ℕ → ℕ → String → String
unfolding hex_digit
hex_digits zero n rest = rest
hex_digits (suc k) n rest = hex_digits k (n / 16) (String.◌∷◌ (hex_digit (n % 16)) rest)

-- A number of 64 bits has 16 digits.
unfoldable pub hex16 : ℕ → String
unfolding hex_digits
hex16 n = hex_digits 16 n ""

-- Both cases of letters.
digit_value : Char → Option ℕ
digit_value c =
    if leb 48 (code c) && leb (code c) 57
    then some (code c - 48)
    else (if leb 97 (code c) && leb (code c) 102
        then some (code c - 87)
        else (if leb 65 (code c) && leb (code c) 70 then some (code c - 55) else none))

hex_value : ℕ → String → Option ℕ
unfolding digit_value
hex_value acc String.[] = some acc
hex_value acc (String.◌∷◌ c s) = elim (digit_value c) [
  | none ↦ none
  | some d ↦ hex_value (acc * 16 + d) s
]

checked : Option ℕ → Option ℕ
checked none = none
checked (some n) = if ltb n (2 ^ 64) then some n else none

-- An empty text and a number of more than 64 bits are errors.
unfoldable pub parse_hex : String → Option ℕ
unfolding hex_value checked
parse_hex String.[] = none
parse_hex (String.◌∷◌ c s) = checked (hex_value 0 (String.◌∷◌ c s))

digit_value-hex_digit : (r : ℕ) → r < 16 → digit_value (hex_digit r) ≡ some r
unfolding digit_value hex_digit
digit_value-hex_digit zero small = refl
digit_value-hex_digit (suc zero) small = refl
digit_value-hex_digit (suc (suc zero)) small = refl
digit_value-hex_digit (suc (suc (suc zero))) small = refl
digit_value-hex_digit (suc (suc (suc (suc zero)))) small = refl
digit_value-hex_digit (suc (suc (suc (suc (suc zero))))) small = refl
digit_value-hex_digit (suc (suc (suc (suc (suc (suc zero)))))) small = refl
digit_value-hex_digit (suc (suc (suc (suc (suc (suc (suc zero))))))) small = refl
digit_value-hex_digit (suc (suc (suc (suc (suc (suc (suc (suc zero)))))))) small = refl
digit_value-hex_digit (suc (suc (suc (suc (suc (suc (suc (suc (suc zero))))))))) small = refl
digit_value-hex_digit (suc (suc (suc (suc (suc (suc (suc (suc (suc (suc zero)))))))))) small = refl
digit_value-hex_digit (suc (suc (suc (suc (suc (suc (suc (suc (suc (suc (suc zero))))))))))) small =
    refl
digit_value-hex_digit (suc (suc (suc (suc (suc (suc (suc (suc (suc (suc (suc (suc zero))))))))))))
      small =
    refl
digit_value-hex_digit
      (suc (suc (suc (suc (suc (suc (suc (suc (suc (suc (suc (suc (suc zero))))))))))))) small =
    refl
digit_value-hex_digit
      (suc (suc (suc (suc (suc (suc (suc (suc (suc (suc (suc (suc (suc (suc zero))))))))))))))
      small =
    refl
digit_value-hex_digit
      (suc (suc (suc (suc (suc (suc (suc (suc (suc (suc (suc (suc (suc (suc (suc zero)))))))))))))))
      small =
    refl
digit_value-hex_digit
      (suc
        (suc (suc (suc (suc (suc (suc (suc (suc (suc (suc (suc (suc (suc (suc (suc n))))))))))))))))
      small =
    ground arith

hex_value-hex_digits :
    (k n acc : ℕ) (rest : String)
    → n < 16 ^ k
    → hex_value acc (hex_digits k n rest) ≡ hex_value (acc * 16 ^ k + n) rest
unfolding hex_digits hex_value
hex_value-hex_digits zero n acc rest small =
    let none_left : acc ≡ acc * 16 ^ 0 + n = omega arith in ap (λ a. hex_value a rest) none_left
hex_value-hex_digits (suc k) n acc rest small =
    let p = 16 ^ k in
    let fits : n / 16 < p = omega arith in
    let digit : digit_value (hex_digit (n % 16)) ≡ some (n % 16) =
      digit_value-hex_digit (n % 16) (omega arith) in
    let step = hex_value-hex_digits k (n / 16) acc (String.◌∷◌ (hex_digit (n % 16)) rest) fits in
    let last : hex_value (acc * p + n / 16) (String.◌∷◌ (hex_digit (n % 16)) rest)
        ≡ hex_value ((acc * p + n / 16) * 16 + n % 16) rest =
      ground (arith, digit) in
    let power : 16 ^ suc k ≡ p * 16 = omega arith in
    let high : acc * 16 ^ suc k ≡ acc * p * 16 =
      ap (λ x. acc * x) power ∙ sym (mul_assoc acc p 16) in
    let same : (acc * p + n / 16) * 16 + n % 16 ≡ acc * 16 ^ suc k + n = omega (arith, high) in
    step ∙ last ∙ ap (λ a. hex_value a rest) same

checked-small : (n : ℕ) → n < 2 ^ 64 → checked (hex_value (0 * 16 ^ 16 + n) "") ≡ some n
unfolding checked hex_value
checked-small n small = ground arith

-- The digits are read back as the number.
pub parse_hex-hex16 : (n : ℕ) → n < 2 ^ 64 → parse_hex (hex16 n) ≡ some n
unfolding parse_hex hex16 hex_digits
parse_hex-hex16 n small = ap checked (hex_value-hex_digits 16 n 0 "" small) ∙ checked-small n small

pub parse_hex-empty : parse_hex "" ≡ none
unfolding parse_hex
parse_hex-empty = refl

abbrev full : String → Bool
full String.[] = false
full (String.◌∷◌ c s) = true

-- There are always digits.
pub hex16-full : (n : ℕ) → hex16 n ≢ ""
unfolding hex16 hex_digits
hex16-full n e = let q : true ≡ false = ap full e in ground arith
