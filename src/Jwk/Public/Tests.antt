-- ===== src/Jwk/Public/Tests.antt =====
-- The public set of a private, a symmetric and a public key, over a toy library.
use golang_jwt_ci_test.Prelude.{◌≡◌, refl, false, none, some, [], ◌∷◌, All}
use golang_jwt_ci_test.Jwa.Material.{octets, public, private, ecdsa, ed25519}
use golang_jwt_ci_test.Jwk.KeySet.{KeySet}
use golang_jwt_ci_test.Jwk.Public.{
  KeyLibrary, set44, new_key, material_type, akp_algorithm, mldsa_public_key, public_material,
  public_key, public_keys, public_set,
}
use golang_jwt_ci_test.Jwk.Public.Secrets.{Harmless, public_set-Harmless}

abbrev library : KeyLibrary
library = record {
  public_half = λ kind n. n;
  is_zero_public = λ n. false;
  is_zero_private = λ n. false;
  parameters = λ n. set44;
}

abbrev mixed : KeySet
mixed = record {
  keys =
      some (new_key library (private ecdsa 7))
      ∷ none
      ∷ some (new_key library (octets (1 ∷ 2 ∷ [])))
      ∷ some (new_key library (public ed25519 3))
      ∷ [];
}

abbrev published : KeySet
published = record {
  keys =
      some (record (new_key library (private ecdsa 7)) { material = some (public ecdsa 7) })
      ∷ some (new_key library (public ed25519 3))
      ∷ [];
}

mixed_to_published : public_set library (some mixed) ≡ some published
unfolding public_set public_keys public_key public_material new_key material_type akp_algorithm
    mldsa_public_key
mixed_to_published = refl

public_set-Harmless_example :
    All (Harmless library) published.keys × (public_set library (some published) ≡ some published)
public_set-Harmless_example = public_set-Harmless library mixed published mixed_to_published
