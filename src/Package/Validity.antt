-- ===== src/Package/Validity.antt =====
-- What the constructors of daemon/src/package.cpp make of a key-value map.
use yonderboy.Prelude.{ℕ, Bool, false, some, ◌≡◌, refl, ap, ◌∙◌, Bytes, bytes_key}
use yonderboy.Prelude.Text.{codes, read_u64, read_u64_again}
use yonderboy.Macros.{PackageType, command}
use yonderboy.Package.{
  Package, KeyValueMap, get_value, value_of, set_validity, initialize, convert_id, make_package,
  extract_type, copy_package, blank_package,
}

-- A package with its contents filled in, before the switch of `initialize`.
abbrev filled : PackageType → ℕ → Bool → Bytes → KeyValueMap → Package
filled t n good json m = record {
  type = t;
  valid = false;
  acknowledgement_needed = false;
  id = n;
  has_valid_id = good;
  json = json;
  key_value_map = m;
}

-- `initialize` is its switch, on the type in the map and after the identifier is read.
initialize_switch :
    (p : Package) (t : PackageType) (n : ℕ) (good : Bool)
    → extract_type p.key_value_map ≡ t
    → read_u64 p.id (get_value p (codes "id")) ≡ (n, good)
    → initialize p
      ≡ set_validity t
          (record p { type = t; acknowledgement_needed = false; id = n; has_valid_id = good })
unfolding initialize convert_id
initialize_switch p t n good e r = λ i.
    set_validity (e i) (record p {
      type = e i;
      acknowledgement_needed = false;
      id = (r i).0;
      has_valid_id = (r i).1;
    })

pub make_package-filled :
    (m : KeyValueMap) (json : Bytes) (t : PackageType) (v : Bytes) (n : ℕ) (good : Bool)
    → extract_type m ≡ t
    → value_of (codes "id") m ≡ v
    → read_u64 0 v ≡ (n, good)
    → make_package (some m) json ≡ set_validity t (filled t n good json m)
unfolding make_package
make_package-filled m json t v n good e f g =
    initialize_switch (record blank_package { key_value_map = m; json = json }) t n good e
      (ap (read_u64 0) f ∙ g)

initialize_again :
    (t : PackageType) (n : ℕ) (good : Bool) (json : Bytes) (m : KeyValueMap)
    → extract_type m ≡ t
    → read_u64 n (value_of (codes "id") m) ≡ (n, good)
    → initialize (set_validity t (filled t n good json m)) ≡ set_validity t (filled t n good json m)
unfolding set_validity
initialize_again command n good json m e r = initialize_switch _ command n good e r
initialize_again t n good json m e r = initialize_switch _ t n good e r

-- Copying a package that was made from a map gives the same package: the identifier, the type and
-- the validity are found again.
pub copy_package-make :
    (m : KeyValueMap) (json : Bytes)
    → copy_package (make_package (some m) json) ≡ make_package (some m) json
copy_package-make m json =
    let (n, good) = read_u64 0 (value_of (codes "id") m) in
    unfold copy_package make_package initialize convert_id in
    initialize_again (extract_type m) n good json m refl
      (read_u64_again (value_of (codes "id") m) n good refl)
