-- ===== src/Prelude/Text.antt =====
-- What the program uses of Go's strings, strconv and fmt packages, on native texts.
use Prim.Native.Char.{Char, code}
use Prim.Native.String.{String, ◌++◌}
use Prim.Native.Nat.{ℕ, zero, suc, ◌+◌, ◌*◌, ◌/◌, ◌%◌, ◌-◌}
use mathlib.Core.Path.{◌≡◌, refl}
use mathlib.Core.Logic.{◌⊎◌, inl, inr}
use mathlib.Core.Bool.{Bool, true, false, ◌&&◌}
use mathlib.Core.List.{List, [], ◌∷◌}
use mathlib.Core.Option.{Option, none, some}
use native.Mathlib.Omega.{arith}
use etcd_operator.Prelude.Tests.{ltb, leb, if◌then◌else◌}
use etcd_operator.Prelude.Int.{ℤ, pos, sub_ℕ}
use etcd_operator.Prelude.Equality.{◌==◌, nat_eq}
use mathlib.Core.Option

-- `s < t`: UTF-8 keeps the order of code points.
unfoldable pub str_ltb : String → String → Bool
str_ltb String.[] String.[] = false
str_ltb String.[] (String.◌∷◌ d t) = true
str_ltb (String.◌∷◌ c s) String.[] = false
str_ltb (String.◌∷◌ c s) (String.◌∷◌ d t) =
    let rest = str_ltb s t in
    if ltb (code c) (code d) then true else if ltb (code d) (code c) then false else rest

pub str_ltb_trans : (s t u : String) → str_ltb s t ≡ true → str_ltb t u ≡ true → str_ltb s u ≡ true
unfolding str_ltb
str_ltb_trans String.[] (String.◌∷◌ d t) (String.◌∷◌ e u) p q = refl
str_ltb_trans (String.◌∷◌ c s) (String.◌∷◌ d t) (String.◌∷◌ e u) p q =
    ground (arith, str_ltb_trans s t u)
str_ltb_trans _ _ String.[] p q = ground arith
str_ltb_trans _ String.[] _ p q = ground arith

pub str_ltb_irrefl : (s : String) → str_ltb s s ≡ false
unfolding str_ltb
str_ltb_irrefl String.[] = refl
str_ltb_irrefl (String.◌∷◌ c s) = ground (arith, str_ltb_irrefl s)

-- A third text is below or above one of the two.
pub str_ltb_cotrans :
    (s t u : String) → str_ltb s u ≡ true → (str_ltb s t ≡ true) ⊎ (str_ltb t u ≡ true)
unfolding str_ltb
str_ltb_cotrans (String.◌∷◌ c s) (String.◌∷◌ d t) (String.◌∷◌ e u) p =
    ground (arith, str_ltb_cotrans s t u)
str_ltb_cotrans String.[] String.[] u p = inr p
str_ltb_cotrans String.[] (String.◌∷◌ d t) u p = inl refl
str_ltb_cotrans (String.◌∷◌ c s) t String.[] p = cc
str_ltb_cotrans (String.◌∷◌ c s) String.[] (String.◌∷◌ e u) p = inr refl

-- strings.HasPrefix s p.
unfoldable pub has_prefix : String → String → Bool
has_prefix s String.[] = true
has_prefix String.[] (String.◌∷◌ d p) = false
has_prefix (String.◌∷◌ c s) (String.◌∷◌ d p) =
    let rest = has_prefix s p in
    if leb (code c) (code d) && leb (code d) (code c) then rest else false

-- strings.Contains s p.
unfoldable pub contains : String → String → Bool
unfolding has_prefix
contains String.[] p = has_prefix String.[] p
contains (String.◌∷◌ c s) p =
    let rest = contains s p in if has_prefix (String.◌∷◌ c s) p then true else rest

-- strings.Index s p, counted in characters.
unfoldable pub index : String → String → Option ℕ
unfolding has_prefix
index p String.[] = if has_prefix "" p then some 0 else none
index p (String.◌∷◌ c s) =
    let rest = index p s in
    if has_prefix (String.◌∷◌ c s) p
    then some 0
    else (elim rest [ none ↦ none | some n ↦ some (suc n) ])

-- s[:n] and s[n:], counted in characters.
unfoldable pub take_chars : ℕ → String → String
take_chars zero s = ""
take_chars (suc n) String.[] = ""
take_chars (suc n) (String.◌∷◌ c s) = String.◌∷◌ c (take_chars n s)

unfoldable pub drop_chars : ℕ → String → String
drop_chars zero s = s
drop_chars (suc n) String.[] = ""
drop_chars (suc n) (String.◌∷◌ c s) = drop_chars n s

-- strings.Join.
unfoldable pub join : String → List String → String
join sep [] = ""
join sep (x ∷ []) = x
join sep (x ∷ y ∷ r) = x ++ (sep ++ join sep (y ∷ r))

digit : ℕ → String
digit zero = "0"
digit (suc zero) = "1"
digit (suc (suc zero)) = "2"
digit (suc (suc (suc zero))) = "3"
digit (suc (suc (suc (suc zero)))) = "4"
digit (suc (suc (suc (suc (suc zero))))) = "5"
digit (suc (suc (suc (suc (suc (suc zero)))))) = "6"
digit (suc (suc (suc (suc (suc (suc (suc zero))))))) = "7"
digit (suc (suc (suc (suc (suc (suc (suc (suc zero)))))))) = "8"
digit _ = "9"

decimal_from : ℕ → ℕ → String
unfolding digit
decimal_from zero n = digit (n % 10)
decimal_from (suc fuel) n =
    let rest = decimal_from fuel (n / 10) in if ltb n 10 then digit n else rest ++ digit (n % 10)

-- fmt's %d of a number that is not negative. A positive number has no more digits than its value.
unfoldable pub decimal : ℕ → String
unfolding decimal_from
decimal n = decimal_from n n

-- fmt's %q of a text with nothing to escape, as an object's name is.
unfoldable pub quote : String → String
quote s = "\"" ++ (s ++ "\"")

-- The value of a text of decimal digits, from the digits read so far.
digits_value : ℕ → String → Option ℕ
digits_value acc String.[] = some acc
digits_value acc (String.◌∷◌ c s) =
    let rest = digits_value (acc * 10 + (code c - 48)) s in
    if leb 48 (code c) && leb (code c) 57 then rest else none

unsigned : String → Option ℕ
unfolding digits_value
unsigned String.[] = none
unsigned (String.◌∷◌ c s) = digits_value 0 (String.◌∷◌ c s)

-- strconv.Atoi: an optional sign and at least one digit, and anything else is an error. Go also
-- rejects what an int cannot hold; here the value stays.
unfoldable pub atoi : String → Option ℤ
unfolding unsigned
atoi String.[] = none
atoi (String.◌∷◌ c s) =
    if code c == 43
    then Option.map pos (unsigned s)
    else if code c == 45
    then Option.map (sub_ℕ 0) (unsigned s)
    else Option.map pos (unsigned (String.◌∷◌ c s))

-- strings.TrimSuffix of a suffix of one character.
unfoldable pub trim_last : Char → String → String
trim_last d String.[] = String.[]
trim_last d (String.◌∷◌ c String.[]) =
    if leb (code c) (code d) && leb (code d) (code c) then String.[] else String.◌∷◌ c String.[]
trim_last d (String.◌∷◌ c (String.◌∷◌ e s)) = String.◌∷◌ c (trim_last d (String.◌∷◌ e s))

decimal_2715 : decimal 2715 ≡ "2715"
unfolding decimal
decimal_2715 = refl
