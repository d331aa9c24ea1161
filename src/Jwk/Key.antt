-- ===== src/Jwk/Key.antt =====
-- Key of jwk/key.go and the test and rank of a key for a function. The X.509 members, the JSON
-- encoding and the parsing of key material are not modelled.
use golang_jwt_ci_test.Prelude.{
  ℕ, ◌+◌, ◌*◌, ◌%◌, ◌^◌, Bool, true, false, not, ◌&&◌, Option, none, some, List, [], ◌∷◌, Octets,
  text, ◌==◌, nat_same, list_same, contains, if◌then◌else◌,
}
use golang_jwt_ci_test.Jwa.Algorithm.{Algorithm, algorithm_same}
use golang_jwt_ci_test.Jwa.Material.{Material, octets, private}

-- "sig" and "enc" of PublicKeyUse; the empty text is an absent "use".
abbrev pub signature : Octets
signature = text "sig"

abbrev pub encryption : Octets
encryption = text "enc"

-- Operation
abbrev pub sign : Octets
sign = text "sign"

abbrev pub verify : Octets
verify = text "verify"

abbrev pub encrypt : Octets
encrypt = text "encrypt"

abbrev pub decrypt : Octets
decrypt = text "decrypt"

abbrev pub wrap_key : Octets
wrap_key = text "wrapKey"

abbrev pub unwrap_key : Octets
unwrap_key = text "unwrapKey"

abbrev pub derive_key : Octets
derive_key = text "deriveKey"

abbrev pub derive_bits : Octets
derive_bits = text "deriveBits"

-- The kty value "oct".
abbrev pub octet_sequence : Octets
octet_sequence = text "oct"

pub record Key : Type 0 where
  pub key_type : Octets
  pub public_key_use : Octets
  pub operations : List Octets
  pub algorithm : Option Algorithm
  pub id : Octets
  pub material : Option Material

-- IsPrivate, on a key that is not nil.
unfoldable pub is_private_material : Option Material → Bool
is_private_material (some (private kind n)) = true
is_private_material (some (octets o)) = true
is_private_material _ = false

unfoldable pub is_private : Option Key → Bool
unfolding is_private_material
is_private none = false
is_private (some key) = is_private_material key.material

-- Material, on a key that may be nil.
unfoldable pub material_of : Option Key → Option Material
material_of none = none
material_of (some key) = key.material

-- Type
unfoldable pub type_of : Option Key → Octets
type_of none = []
type_of (some key) = key.key_type

-- `a != nil && b != nil && a != b`
abbrev pub differ_algorithms : Option Algorithm → Option Algorithm → Bool
differ_algorithms (some a) (some b) = not (a == b)
differ_algorithms _ _ = false

-- `a != nil && a == b`
abbrev same_algorithms : Option Algorithm → Option Algorithm → Bool
same_algorithms (some a) (some b) = a == b
same_algorithms _ _ = false

abbrev pub is_present : Option Material → Bool
is_present none = false
is_present (some m) = true

-- The loop over the wanted operations: each must be among those of the key, if it lists any.
unfoldable pub offers : List Octets → List Octets → Bool
offers declared [] = true
offers declared (operation ∷ rest) =
    not (not (declared == []) && not (contains declared operation)) && offers declared rest

unfoldable pub suitable : Key → Octets → List Octets → Option Algorithm → Octets → Bool
unfolding offers
suitable key use_ operations algorithm id =
    is_present key.material
    && not (not (key.public_key_use == []) && not (key.public_key_use == use_))
    && offers key.operations operations
    && not (differ_algorithms key.algorithm algorithm)
    && not (not (key.id == []) && not (id == []) && not (key.id == id))

-- How many of the wanted operations the key lists.
pub listed : List Octets → List Octets → ℕ
listed declared [] = 0
listed declared (operation ∷ rest) =
    (if contains declared operation then 1 else 0) + listed declared rest

-- A uint16, which wraps.
unfoldable pub weight : Key → Octets → List Octets → Option Algorithm → Octets → ℕ
unfolding listed
weight key use_ operations algorithm id =
    ((if key.public_key_use == use_ then 16 else 0)
      + 8 * listed key.operations operations
      + (if same_algorithms key.algorithm algorithm then 64 else 0)
      + (if not (key.id == []) && key.id == id then 128 else 0))
    % 2 ^ 16
