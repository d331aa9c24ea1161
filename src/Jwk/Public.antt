-- ===== src/Jwk/Public.antt =====
-- NewKey, Public and its use on a set, of jwk/key.go. The operations on the values of Go key types
-- (crypto/ecdsa, rsa, ed25519, ecdh, mldsa) are parameters.
pub mod Secrets
mod Tests
use golang_jwt_ci_test.Prelude.{
  ℕ, ◌≡◌, refl, Bool, true, false, Option, none, some, List, [], ◌∷◌, arith, Octets, text,
  if◌then◌else◌, All, is_empty,
}
use golang_jwt_ci_test.Jwa.Algorithm.{Algorithm, mldsa44, mldsa65, mldsa87}
use golang_jwt_ci_test.Jwa.Material.{
  KeyKind, Material, octets, public, private, other, ecdsa, rsa, ed25519, x25519, ecdh, mldsa,
}
use golang_jwt_ci_test.Jwk.Key.{Key, is_private, is_private_material, octet_sequence}
use golang_jwt_ci_test.Jwk.KeySet.{KeySet}

abbrev pub elliptic_curve : Octets
elliptic_curve = text "EC"

abbrev pub rsa_type : Octets
rsa_type = text "RSA"

abbrev pub octet_key_pair : Octets
octet_key_pair = text "OKP"

abbrev pub algorithm_key_pair : Octets
algorithm_key_pair = text "AKP"

-- mldsa.Parameters
pub data ParameterSet : Type 0 where
  set44 set65 set87 : ParameterSet

-- The value of the public half of a private key; the zero value of an ML-DSA key; its parameter set.
pub record KeyLibrary : Type 0 where
  pub public_half : KeyKind → ℕ → ℕ
  pub is_zero_public : ℕ → Bool
  pub is_zero_private : ℕ → Bool
  pub parameters : ℕ → ParameterSet

-- mldsaAlgorithms
abbrev pub mldsa_algorithms : ParameterSet → Algorithm
mldsa_algorithms set44 = mldsa44
mldsa_algorithms set65 = mldsa65
mldsa_algorithms set87 = mldsa87

module _ (l : KeyLibrary) where
  unfoldable pub mldsa_public_key : Material → Option ℕ
  mldsa_public_key (public mldsa n) = if l.is_zero_public n then none else some n
  mldsa_public_key (private mldsa n) =
      if l.is_zero_private n then none else some (l.public_half mldsa n)
  mldsa_public_key _ = none

  unfoldable pub akp_algorithm : Material → Option Algorithm
  akp_algorithm material = elim (mldsa_public_key material) [
    | none ↦ none
    | some n ↦ some (mldsa_algorithms (l.parameters n))
  ]

  abbrev akp_type : Option Algorithm → Octets
  akp_type none = []
  akp_type (some a) = algorithm_key_pair

  unfoldable pub material_type : Material → Octets
  material_type (octets o) = octet_sequence
  material_type (public ecdsa n) = elliptic_curve
  material_type (private ecdsa n) = elliptic_curve
  material_type (public rsa n) = rsa_type
  material_type (private rsa n) = rsa_type
  material_type (public ed25519 n) = octet_key_pair
  material_type (private ed25519 n) = octet_key_pair
  material_type (public x25519 n) = octet_key_pair
  material_type (private x25519 n) = octet_key_pair
  material_type (public ecdh n) = []
  material_type (private ecdh n) = []
  material_type (public mldsa n) = akp_type (akp_algorithm (public mldsa n))
  material_type (private mldsa n) = akp_type (akp_algorithm (private mldsa n))
  material_type (other n) = []

  -- NewKey without options; the algorithm is there for an ML-DSA key only.
  unfoldable pub new_key : Material → Key
  new_key material = record {
    key_type = material_type material;
    public_key_use = [];
    operations = [];
    algorithm = akp_algorithm material;
    id = [];
    material = some material;
  }

  -- The switch of Public: the public half, or none where the function returns nil.
  unfoldable pub public_material : Material → Option Material
  public_material (octets o) = none
  public_material (private mldsa n) =
      if l.is_zero_private n then none else some (public mldsa (l.public_half mldsa n))
  public_material (private kind n) = some (public kind (l.public_half kind n))
  public_material m = some m

  -- Public, on a key that is not nil; its material may be nil.
  unfoldable pub public_key : Key → Option Key
  public_key key = elim key.material [
    | none ↦ some key
    | some m ↦ elim (public_material m) [
      | none ↦ none
      | some p ↦ some (record key { material = some p })
    ]
  ]

  -- The loop of KeySet.Public; a nil key gives nil.
  unfoldable pub public_keys : List (Option Key) → List (Option Key)
  public_keys [] = []
  public_keys (none ∷ rest) = public_keys rest
  public_keys (some key ∷ rest) =
      let others = public_keys rest in
      elim (public_key key) [ none ↦ others | some p ↦ some p ∷ others ]

  unfoldable pub public_set : Option KeySet → Option KeySet
  public_set none = none
  public_set (some set) = some (record { keys = public_keys set.keys })
