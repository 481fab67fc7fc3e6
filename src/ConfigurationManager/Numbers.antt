-- ===== src/ConfigurationManager/Numbers.antt =====
-- daemon/src/configuration_manager.cpp (`valueAsLongLong`): the numbers of the configuration.
use yonderboy.Prelude.{
  ℕ, ◌-◌, ◌^◌, ◌<◌, false, [], ◌∷◌, ◌≡◌, ◌≢◌, refl, ap, ◌∙◌, arith, Bytes, if◌then◌else◌, ◌==◌,
}
use yonderboy.Prelude.Signed.{ℤ, pos, negsuc}
use yonderboy.Prelude.Text.{
  decimal, read_digits, skip_spaces, is_space, is_space-digit, decimal-IsDigits, decimal-ne-nil,
  IsDigits, read_digits-decimal, skip_spaces-other,
}
use yonderboy.ConfigurationManager.{read_signed, read_first, value_as_long_long}

-- The digits of a number below 2^63.
digits_value :
    (default : ℤ) (n : ℕ) (s : Bytes)
    → s ≢ []
    → IsDigits s
    → read_digits 0 s ≡ n
    → n < 2 ^ 63
    → (read_first default s ≡ pos n)
      × (read_first default (b'-' ∷ s) ≡ (if n == 0 then pos 0 else negsuc (n - 1)))
unfolding read_first read_signed
digits_value default n [] ne h e l = absurd (ne refl)
digits_value default n (c ∷ s) ne h e l = (ground arith, ground arith)

value_lem :
    (s : Bytes) (default : ℤ) → value_as_long_long s default ≡ read_first default (skip_spaces s)
unfolding value_as_long_long
value_lem s default = refl

skip_spaces-digits : (s : Bytes) → s ≢ [] → IsDigits s → skip_spaces s ≡ s
skip_spaces-digits [] ne h = absurd (ne refl)
skip_spaces-digits (c ∷ s) ne h = skip_spaces-other c s (is_space-digit c h.0.0)

minus_no_space : is_space b'-' ≡ false
unfolding is_space
minus_no_space = refl

-- A printed number below 2^63 is read back, whatever the default is, and with a minus in front it
-- is read as its negative.
pub value_as_long_long-decimal :
    (default : ℤ) (n : ℕ)
    → n < 2 ^ 63
    → (value_as_long_long (decimal n) default ≡ pos n)
      × (value_as_long_long (b'-' ∷ decimal n) default ≡ (if n == 0 then pos 0 else negsuc (n - 1)))
value_as_long_long-decimal default n h =
    let s = decimal n in
    let digits = decimal-IsDigits n in
    let (plus, minus) =
      digits_value default n s (decimal-ne-nil n) digits (read_digits-decimal n) h in
    (
      value_lem s default
          ∙ ap (read_first default) (skip_spaces-digits s (decimal-ne-nil n) digits)
          ∙ plus,
      value_lem (b'-' ∷ s) default
          ∙ ap (read_first default) (skip_spaces-other b'-' s minus_no_space)
          ∙ minus,
    )
