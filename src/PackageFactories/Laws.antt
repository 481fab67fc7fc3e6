-- ===== src/PackageFactories/Laws.antt =====
-- The acknowledgements of daemon/src/package_factories.cpp are valid and arrive as they were sent.
use yonderboy.Prelude.{
  not, ℕ, ◌<◌, true, false, some, [], ◌∷◌, ◌≡◌, refl, sym, ap, subst, ◌∙◌, arith, Bytes, bytes_key,
  bytes_eq, bytes_less,
}
use yonderboy.Prelude.Text.{codes, is_empty, decimal, u64_mod, read_u64-decimal, is_space}
use yonderboy.Prelude.Map.{find, place}
use yonderboy.Macros.{acknowledgement}
use yonderboy.Package.Validity.{make_package-filled}
use yonderboy.Package.Trim.{IsTrimmed}
use yonderboy.Package.Wire.{IsClean, IsWireSafe, Lacks, id-IsClean, parse_package-serialize}
use yonderboy.Package.{
  Package, KeyValueMap, get_value, value_of, is_set, serialize, parse_package, make_package,
  extract_type, set_validity,
}
use yonderboy.PackageFactories.{acknowledgement_map, construct_acknowledgement}

acknowledgement_map_plain :
    (id : ℕ)
    → acknowledgement_map id [] ≡ (codes "id", decimal id) ∷ (codes "type", codes "ack") ∷ []
unfolding acknowledgement_map find place bytes_eq bytes_less
acknowledgement_map_plain id = refl

acknowledgement_map_error :
    (id c : ℕ) (cs : Bytes)
    → acknowledgement_map id (c ∷ cs)
      ≡ (codes "error", c ∷ cs) ∷ (codes "id", decimal id) ∷ (codes "type", codes "ack") ∷ []
unfolding acknowledgement_map find place bytes_eq bytes_less
acknowledgement_map_error id c cs = refl

-- An acknowledgement is a valid package of its type; it carries the identifier that it was made
-- for, and the error text, which is missing if it is empty.
pub record Acknowledges (id : ℕ) (error : Bytes) (p : Package) : Type 0 where
  pub type_is : p.type ≡ acknowledgement
  pub is_valid : p.valid ≡ true
  pub id_is : p.id ≡ id
  pub error_is : get_value p (codes "error") ≡ error
  pub error_set : is_set p (codes "error") ≡ not (is_empty error)

-- The two maps that `constructAcknowledgementPackage` fills, in key order.
abbrev ack_entries : ℕ → Bytes → KeyValueMap
ack_entries id [] = (codes "id", decimal id) ∷ (codes "type", codes "ack") ∷ []
ack_entries id (c ∷ cs) =
    (codes "error", c ∷ cs) ∷ (codes "id", decimal id) ∷ (codes "type", codes "ack") ∷ []

acknowledgement_map-entries :
    (id : ℕ) (error : Bytes) → acknowledgement_map id error ≡ ack_entries id error
acknowledgement_map-entries id [] = acknowledgement_map_plain id
acknowledgement_map-entries id (c ∷ cs) = acknowledgement_map_error id c cs

extract_type-ack : (id : ℕ) (error : Bytes) → extract_type (ack_entries id error) ≡ acknowledgement
unfolding extract_type find bytes_eq
extract_type-ack id [] = refl
extract_type-ack id (c ∷ cs) = refl

value_of-ack_id :
    (id : ℕ) (error : Bytes) → value_of (codes "id") (ack_entries id error) ≡ decimal id
unfolding value_of find bytes_eq
value_of-ack_id id [] = refl
value_of-ack_id id (c ∷ cs) = refl

-- The acknowledgement, as the constructor leaves it.
construct_acknowledgement-filled :
    (id : ℕ) (error : Bytes)
    → id < u64_mod
    → construct_acknowledgement id error ≡ record {
      type = acknowledgement;
      valid = true;
      acknowledgement_needed = false;
      id = id;
      has_valid_id = true;
      json = [];
      key_value_map = ack_entries id error;
    }
unfolding construct_acknowledgement set_validity
construct_acknowledgement-filled id error h =
    ap (λ m. make_package (some m) []) (acknowledgement_map-entries id error)
    ∙ make_package-filled (ack_entries id error) [] acknowledgement (decimal id) id true
        (extract_type-ack id error) (value_of-ack_id id error) (read_u64-decimal 0 id h)

-- An acknowledgement of an identifier below 2^64 is a valid package of its type that carries the
-- identifier, and the error text, which is missing if it is empty.
pub construct_acknowledgement-Acknowledges :
    (id : ℕ) (error : Bytes)
    → id < u64_mod
    → Acknowledges id error (construct_acknowledgement id error)
construct_acknowledgement-Acknowledges id error h =
    subst (Acknowledges id error) (sym (construct_acknowledgement-filled id error h))
      (entries error)
  where
    entries :
        (error : Bytes)
        → Acknowledges id error (record {
          type = acknowledgement;
          valid = true;
          acknowledgement_needed = false;
          id = id;
          has_valid_id = true;
          json = [];
          key_value_map = ack_entries id error;
        })
    entries [] =
        unfold find bytes_eq value_of is_set in
        record { type_is = refl; is_valid = refl; id_is = refl; error_is = refl; error_set = refl }
    entries (c ∷ cs) =
        unfold find bytes_eq value_of is_set in
        record { type_is = refl; is_valid = refl; id_is = refl; error_is = refl; error_set = refl }

type-IsClean : IsClean (codes "type", codes "ack")
unfolding is_space
type-IsClean = record {
  key_trimmed = (refl, refl);
  key_no_separator = omega arith;
  key_no_newline = omega arith;
  key_no_brace = omega arith;
  value_trimmed = (refl, refl);
  value_no_newline = omega arith;
}

error-IsClean :
    (error : Bytes) → IsTrimmed error → Lacks b'\n' error → IsClean (codes "error", error)
unfolding is_space
error-IsClean error t l = record {
  key_trimmed = (refl, refl);
  key_no_separator = omega arith;
  key_no_newline = omega arith;
  key_no_brace = omega arith;
  value_trimmed = t;
  value_no_newline = l;
}

ack_entries-IsWireSafe :
    (id : ℕ) (error : Bytes)
    → IsTrimmed error
    → Lacks b'\n' error
    → IsWireSafe (ack_entries id error) []
unfolding bytes_less
ack_entries-IsWireSafe id [] t l = record {
  sorted = ((refl, tt), (tt, tt));
  clean = (id-IsClean id, (type-IsClean, tt));
  json_line = tt;
}
ack_entries-IsWireSafe id (c ∷ cs) t l = record {
  sorted = ((refl, (refl, tt)), ((refl, tt), (tt, tt)));
  clean = (error-IsClean (c ∷ cs) t l, (id-IsClean id, (type-IsClean, tt)));
  json_line = tt;
}

-- The receiver of a written acknowledgement parses the package that was sent, if the error text
-- is one line with no blanks at its ends.
pub parse-acknowledgement :
    (id : ℕ) (error : Bytes)
    → IsTrimmed error
    → Lacks b'\n' error
    → parse_package (serialize (construct_acknowledgement id error))
      ≡ construct_acknowledgement id error
unfolding construct_acknowledgement
parse-acknowledgement id error t l =
    rw (acknowledgement_map-entries id error)
      (parse_package-serialize (ack_entries id error) [] (ack_entries-IsWireSafe id error t l))
