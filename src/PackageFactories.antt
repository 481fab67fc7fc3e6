-- ===== src/PackageFactories.antt =====
-- daemon/src/package_factories.cpp: the packages that the daemon itself makes.
pub mod Laws
use yonderboy.Prelude.{ℕ, Option, none, some, List, [], ◌∷◌, Bytes, if◌then◌else◌, bytes_key}
use yonderboy.Prelude.Text.{codes, is_empty, decimal}
use yonderboy.Prelude.Map.{insert}
use yonderboy.Package.{Package, KeyValueMap, make_package}

-- The map that `constructAcknowledgementPackage` fills.
unfoldable pub acknowledgement_map : ℕ → Bytes → KeyValueMap
unfolding insert
acknowledgement_map id error =
    let m = insert (codes "id") (decimal id) (insert (codes "type") (codes "ack") []) in
    if is_empty error then m else insert (codes "error") error m

-- `constructAcknowledgementPackage(unsigned long long, std::string)`
unfoldable pub construct_acknowledgement : ℕ → Bytes → Package
unfolding acknowledgement_map make_package
construct_acknowledgement id error = make_package (some (acknowledgement_map id error)) []

-- `constructAcknowledgementPackage(Package*, std::string)`; `none` is the null pointer.
unfoldable pub acknowledge : Package → Bytes → Option Package
unfolding construct_acknowledgement
acknowledge p error = if p.has_valid_id then some (construct_acknowledgement p.id error) else none

-- The variable arguments up to the null pointer, as pairs.
unfoldable pub insert_all : List (Bytes × Bytes) → KeyValueMap → KeyValueMap
unfolding insert
insert_all [] m = m
insert_all ((k, v) ∷ r) m = insert_all r (insert k v m)

-- `constructPackage`
unfoldable pub construct_package : Bytes → List (Bytes × Bytes) → Package
unfolding insert_all make_package
construct_package type arguments =
    make_package (some (insert_all arguments (insert (codes "type") type []))) []
