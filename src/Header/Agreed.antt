-- ===== src/Header/Agreed.antt =====
-- SetKeyParameters of header/header.go, the opposite of KeyParameters.
use golang_jwt_ci_test.Prelude.{not, Option, none, some, [], ◌∷◌, ◌==◌, nat_same, list_same}
use golang_jwt_ci_test.Errors.{Result, ok, ◌>>=◌, ◌>>◌, guard, or_fail, unsupported_key_type}
use golang_jwt_ci_test.Jwa.Material.{Material}
use golang_jwt_ci_test.Jwk.Key.{Key}
use golang_jwt_ci_test.Jwk.Public.{KeyLibrary, new_key, public_key}
use golang_jwt_ci_test.Header.Fields.{Header, KeyParameters}

module _ (l : KeyLibrary) where
  -- The JWK of "epk" for the material that an algorithm gave.
  unfoldable pub ephemeral_key : Option Material → Result (Option Key)
  ephemeral_key none = ok none
  ephemeral_key (some material) = do
    guard (not ((new_key l material).key_type == [])) (unsupported_key_type ∷ [])
    key ← or_fail (public_key l (new_key l material)) (unsupported_key_type ∷ [])
    ok (some key)

  unfoldable pub set_key_parameters : KeyParameters → Header → Result Header
  set_key_parameters p h = do
    epk ← ephemeral_key p.ephemeral_public_key
    ok (record h {
      ephemeral_public_key = epk;
      agreement_party_u_info = p.agreement_party_u_info;
      agreement_party_v_info = p.agreement_party_v_info;
      initialization_vector = p.initialization_vector;
      authentication_tag = p.authentication_tag;
      pbes2_salt_input = p.pbes2_salt_input;
      pbes2_count = p.pbes2_count;
    })
