-- ===== src/Prelude/Text.antt =====
-- Byte strings: `std::string` as a list of characters, with `find`, `find_first_not_of`,
-- `find_last_not_of`, and the decimal print and read of `std::ostream << n` and
-- `std::istream >> n` for the 64-bit unsigned types.
use Prim.Native.Nat.{ℕ, zero, suc, ◌+◌, ◌-◌, ◌*◌, ◌/◌, ◌%◌, ◌^◌, ◌≤◌, ◌<◌}
use Prim.Native.Char.{code}
use Prim.Native.String.{String}
use mathlib.Core.Path.{◌≡◌, refl, sym, ap, ◌∙◌}
use mathlib.Core.Logic.{◌≢◌}
use mathlib.Core.Bool.{Bool, true, false, not, ◌&&◌, ◌||◌}
use mathlib.Core.Option.{Option, none, some}
use mathlib.Core.List.{List, [], ◌∷◌}
use native.Mathlib.Omega.{arith}
use yonderboy.Prelude.Tests.{ltb, leb, ◌==◌, if◌then◌else◌}
use yonderboy.Prelude.Lists.{All}
use yonderboy.Prelude.Keys.{Bytes}

-- The characters of a literal; every literal of the program is ASCII.
abbrev pub codes : String → Bytes
codes String.[] = []
codes (String.◌∷◌ c s) = code c ∷ codes s

abbrev pub is_empty {ℓ} : {A : Type ℓ} → List A → Bool
is_empty [] = true
is_empty (x ∷ xs) = false

-- `s.find(c)` and `s.find_first_of(c)`.
unfoldable pub find_byte : ℕ → Bytes → Option ℕ
find_byte c [] = none
find_byte c (x ∷ xs) =
    if x == c then some 0 else (elim (find_byte c xs) [ none ↦ none | some n ↦ some (suc n) ])

-- The characters of `" \t\n\r\f\v"`, which are also those that `std::istream` skips.
unfoldable pub is_space : ℕ → Bool
is_space c = c == b' ' || (c == b'\t' || (c == b'\n' || (c == b'\r' || (c == 12 || c == 11))))

-- `s.find_first_not_of(" \t\n\r\f\v")`
unfoldable pub find_first_not_of : Bytes → Option ℕ
unfolding is_space
find_first_not_of [] = none
find_first_not_of (x ∷ xs) =
    if is_space x
    then (elim (find_first_not_of xs) [ none ↦ none | some n ↦ some (suc n) ])
    else some 0

-- `s.find_last_not_of(" \t\n\r\f\v")`
unfoldable pub find_last_not_of : Bytes → Option ℕ
unfolding is_space
find_last_not_of [] = none
find_last_not_of (x ∷ xs) = elim (find_last_not_of xs) [
  | none ↦ if is_space x then none else some 0
  | some n ↦ some (suc n)
]

abbrev pub u64_mod : ℕ
u64_mod = 2 ^ 64

-- `stream << n`. The first argument is fuel; a number below the fuel is printed whole.
unfoldable pub decimal_loop : ℕ → ℕ → Bytes → Bytes
decimal_loop zero n out = out
decimal_loop (suc f) n out =
    let rest = decimal_loop f (n / 10) ((b'0' + n % 10) ∷ out) in
    if ltb n 10 then (b'0' + n % 10) ∷ out else rest

unfoldable pub decimal : ℕ → Bytes
unfolding decimal_loop
decimal n = decimal_loop (suc n) n []

abbrev pub is_digit : ℕ → Bool
is_digit c = leb b'0' c && leb c b'9'

-- The value of the leading digits behind `n`.
unfoldable pub read_digits : ℕ → Bytes → ℕ
read_digits n [] = n
read_digits n (c ∷ cs) = if is_digit c then read_digits (n * 10 + (c - b'0')) cs else n

unfoldable pub skip_spaces : Bytes → Bytes
unfolding is_space
skip_spaces [] = []
skip_spaces (c ∷ cs) = if is_space c then skip_spaces cs else c ∷ cs

-- What `stream >> id` stores, and whether it succeeded. No digits give 0, and a number that does
-- not fit gives the largest value; a minus sign negates modulo 2^64.
unfoldable pub read_number : Bool → Bytes → ℕ × Bool
unfolding read_digits
read_number minus [] = (0, false)
read_number minus (c ∷ cs) =
    let v = read_digits 0 (c ∷ cs) in
    if not (is_digit c)
    then (0, false)
    else if leb u64_mod v
    then (u64_mod - 1, false)
    else if minus
    then ((u64_mod - v) % u64_mod, true)
    else (v, true)

unfoldable pub read_sign : ℕ → Bytes → ℕ × Bool
unfolding read_number
read_sign old [] = (old, false)
read_sign old (c ∷ cs) =
    if c == b'-'
    then read_number true cs
    else if c == b'+'
    then read_number false cs
    else read_number false (c ∷ cs)

-- With nothing left after the blanks the stored value stays as it was.
unfoldable pub read_u64 : ℕ → Bytes → ℕ × Bool
unfolding read_sign skip_spaces
read_u64 old s = read_sign old (skip_spaces s)

decimal_0 : decimal 0 ≡ codes "0"
unfolding decimal
decimal_0 = refl

decimal_max : decimal (u64_mod - 1) ≡ codes "18446744073709551615"
unfolding decimal
decimal_max = refl

read_max : read_u64 0 (codes " 18446744073709551615x") ≡ (u64_mod - 1, true)
unfolding read_u64
read_max = refl

read_over : read_u64 7 (codes "18446744073709551616") ≡ (u64_mod - 1, false)
unfolding read_u64
read_over = refl

abbrev pub IsDigits : Bytes → Type 0
IsDigits = All (λ c. (b'0' ≤ c) × (c ≤ b'9'))

read_last : (n : ℕ) (out : Bytes) → read_digits (n / 10) ((b'0' + n % 10) ∷ out) ≡ read_digits n out
unfolding read_digits
read_last n out = ground arith

read_digits-decimal_loop :
    (f n : ℕ) (out : Bytes) → n < f → read_digits 0 (decimal_loop f n out) ≡ read_digits n out
unfolding decimal_loop
read_digits-decimal_loop zero n out h = absurd (omega arith)
read_digits-decimal_loop (suc f) n out h =
    ground (arith, read_last n out, read_digits-decimal_loop f (n / 10) ((b'0' + n % 10) ∷ out))

decimal_loop-IsDigits : (f n : ℕ) (out : Bytes) → IsDigits out → IsDigits (decimal_loop f n out)
unfolding decimal_loop
decimal_loop-IsDigits zero n out h = h
decimal_loop-IsDigits (suc f) n out h =
    ground (arith, decimal_loop-IsDigits f (n / 10) ((b'0' + n % 10) ∷ out))

pub decimal-IsDigits : (n : ℕ) → IsDigits (decimal n)
unfolding decimal
decimal-IsDigits n = decimal_loop-IsDigits (suc n) n [] tt

decimal_loop-ne-nil : (f n : ℕ) (out : Bytes) → n < f → decimal_loop f n out ≢ []
unfolding decimal_loop
decimal_loop-ne-nil zero n out h = absurd (omega arith)
decimal_loop-ne-nil (suc f) n out h =
    ground (arith, decimal_loop-ne-nil f (n / 10) ((b'0' + n % 10) ∷ out))

pub decimal-ne-nil : (n : ℕ) → decimal n ≢ []
unfolding decimal
decimal-ne-nil n = decimal_loop-ne-nil (suc n) n [] (omega arith)

pub is_space-digit : (c : ℕ) → b'0' ≤ c → is_space c ≡ false
unfolding is_space
is_space-digit c h = ground arith

skip_spaces-digit : (c : ℕ) (cs : Bytes) → b'0' ≤ c → skip_spaces (c ∷ cs) ≡ c ∷ cs
unfolding skip_spaces
skip_spaces-digit c cs h = rw (is_space-digit c h)

read_sign-digits :
    (old n c : ℕ) (cs : Bytes)
    → IsDigits (c ∷ cs)
    → read_digits 0 (c ∷ cs) ≡ n
    → n < u64_mod
    → read_sign old (c ∷ cs) ≡ (n, true)
unfolding read_sign read_number
read_sign-digits old n c cs h e lt = ground arith

read_u64_lem : (old : ℕ) (s : Bytes) → read_u64 old s ≡ read_sign old (skip_spaces s)
unfolding read_u64
read_u64_lem old s = refl

read_digits_u64 :
    (old n : ℕ) (s : Bytes)
    → s ≢ []
    → IsDigits s
    → read_digits 0 s ≡ n
    → n < u64_mod
    → read_u64 old s ≡ (n, true)
read_digits_u64 old n [] ne h e lt = absurd (ne refl)
read_digits_u64 old n (c ∷ cs) ne h e lt =
    read_u64_lem old (c ∷ cs)
    ∙ ap (read_sign old) (skip_spaces-digit c cs h.0.0)
    ∙ read_sign-digits old n c cs h e lt

pub read_digits-decimal : (n : ℕ) → read_digits 0 (decimal n) ≡ n
unfolding decimal read_digits
read_digits-decimal n = read_digits-decimal_loop (suc n) n [] (omega arith)

pub skip_spaces-other : (c : ℕ) (cs : Bytes) → is_space c ≡ false → skip_spaces (c ∷ cs) ≡ c ∷ cs
unfolding skip_spaces
skip_spaces-other c cs h = rw h refl

-- A printed 64-bit number is read back.
pub read_u64-decimal : (old n : ℕ) → n < u64_mod → read_u64 old (decimal n) ≡ (n, true)
read_u64-decimal old n h =
    read_digits_u64 old n (decimal n) (decimal-ne-nil n) (decimal-IsDigits n)
      (unfold decimal read_digits in read_digits-decimal_loop (suc n) n [] (omega arith)) h

pub decimal-injective : (m n : ℕ) → m < u64_mod → n < u64_mod → decimal m ≡ decimal n → m ≡ n
decimal-injective m n h k e =
    ground (arith, read_u64-decimal 0 m h, read_u64-decimal 0 n k, ap (read_u64 0) e)

read_sign_again :
    (s : Bytes) (n : ℕ) (good : Bool) → read_sign 0 s ≡ (n, good) → read_sign n s ≡ (n, good)
unfolding read_sign
read_sign_again [] n good h = ground arith
read_sign_again (c ∷ s) n good h = h

-- Reading the same text again over the value that was read changes nothing.
pub read_u64_again :
    (s : Bytes) (n : ℕ) (good : Bool) → read_u64 0 s ≡ (n, good) → read_u64 n s ≡ (n, good)
read_u64_again s n good h =
    read_u64_lem n s ∙ read_sign_again (skip_spaces s) n good (sym (read_u64_lem 0 s) ∙ h)
