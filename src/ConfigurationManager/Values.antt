-- ===== src/ConfigurationManager/Values.antt =====
-- How daemon/src/configuration_manager.cpp reads keys, paths and values.
use yonderboy.Prelude.{
  ℕ, ◌+◌, ◌≡◌, refl, arith, true, none, some, Bytes, ◌++◌, ◌∷◌, [], take, drop, length,
  take-length_append, drop-length_add, ◌⊎◌, zero, suc, inl, inr, Option-cases,
}
use yonderboy.Prelude.Text.{find_byte}
use yonderboy.ConfigurationManager.{
  find_last_byte, get_base_path, get_file_name, get_key_pair, value_as_bool,
}

find_last_byte-splits :
    (b : ℕ) (s : Bytes) (n : ℕ) → find_last_byte b s ≡ some n → s ≡ take n s ++ b ∷ drop (n + 1) s
unfolding find_last_byte
find_last_byte-splits b [] n h = ground arith
find_last_byte-splits b (c ∷ cs) zero h = ground arith
find_last_byte-splits b (c ∷ cs) (suc n) h = elim (Option-cases (find_last_byte b cs)) [
  | inl e ↦ ground arith
  | inr (m, e) ↦ ground (arith, find_last_byte-splits b cs n)
]

find_last_byte-rest :
    (b : ℕ) (s : Bytes) (n : ℕ)
    → find_last_byte b s ≡ some n
    → find_last_byte b (drop (n + 1) s) ≡ none
unfolding find_last_byte
find_last_byte-rest b (c ∷ cs) zero h = ground arith
find_last_byte-rest b (c ∷ cs) (suc n) h = elim (Option-cases (find_last_byte b cs)) [
  | inl e ↦ ground arith
  | inr (m, e) ↦ ground (arith, find_last_byte-rest b cs n)
]
find_last_byte-rest b [] n h = ground arith

-- What a path is, next to its base path and its file name.
pub Splits : Bytes → Type 0
Splits path =
    ((path ≡ get_base_path path ++ b'/' ∷ get_file_name path)
      ⊎ ((get_base_path path ≡ []) × (get_file_name path ≡ path)))
    × (find_last_byte b'/' (get_file_name path) ≡ none)

-- A path is its base path, a slash and its file name, or has no base path and is its file name;
-- there is no slash in the file name.
pub get_base_path-Splits : (path : Bytes) → Splits path
unfolding get_base_path get_file_name Splits
get_base_path-Splits path = elim (Option-cases (find_last_byte b'/' path)) [
  | inl e ↦ rw (Splits, get_base_path, get_file_name, e) (inr (refl, refl), e)
  | inr (n, e) ↦
      rw (Splits, get_base_path, get_file_name, e)
        (inl (find_last_byte-splits b'/' path n e), find_last_byte-rest b'/' path n e)
]

find_byte-joined :
    (b : ℕ) (space id : Bytes)
    → find_byte b space ≡ none
    → (find_byte b (space ++ b ∷ id) ≡ some (length space))
unfolding find_byte
find_byte-joined b [] id h = ground arith
find_byte-joined b (c ∷ space) id h = elim (Option-cases (find_byte b space)) [
  | inl e ↦ ground (arith, find_byte-joined b space id e)
  | inr (n, e) ↦ ground arith
]

-- A namespace with no dot in it, a dot and an identifier are read as that namespace and that
-- identifier.
pub get_key_pair-joined :
    (space id : Bytes)
    → find_byte b'.' space ≡ none
    → get_key_pair (space ++ b'.' ∷ id) ≡ (space, id)
unfolding get_key_pair
get_key_pair-joined space id h =
    rw (get_key_pair, find_byte-joined b'.' space id h)
      (λ i. (take-length_append space (b'.' ∷ id) i, drop-length_add space b'.' id i))

pub value_as_bool-default : (value : Bytes) → value_as_bool value true ≡ true
unfolding value_as_bool
value_as_bool-default value = ground arith
