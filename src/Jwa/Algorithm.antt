-- ===== src/Jwa/Algorithm.antt =====
-- The algorithms of jwa (jwa/algorithm.go and the `var` blocks of jwa/*.go). Each one is a
-- package-level pointer, so Go's `==` on them tells them apart; here each is a constructor. An
-- algorithm that a caller implements is not modelled.
pub mod Names
mod Tests
use golang_jwt_ci_test.Prelude.{
  ℕ, zero, suc, ◌≡◌, refl, ◌↔◌, ap, sym, ◌∙◌, Bool, true, false, Option, none, some, List, [], ◌∷◌,
  arith, Octets, text, eqb, eqb_iff, Same, ◌==◌, nat_same, list_same, if◌then◌else◌,
}

pub data Algorithm : Type 0 where
  none_algorithm hs256 hs384 hs512 rs256 rs384 : Algorithm
  rs512 es256 es384 es512 ps256 ps384 : Algorithm
  ps512 eddsa ed25519 mldsa44 mldsa65 mldsa87 : Algorithm
  a128cbc_hs256 a192cbc_hs384 a256cbc_hs512 a128gcm a192gcm a256gcm : Algorithm
  dir rsa15 rsa_oaep rsa_oaep256 a128kw a192kw : Algorithm
  a256kw a128gcmkw a192gcmkw a256gcmkw ecdh_es ecdh_es_a128kw : Algorithm
  ecdh_es_a192kw ecdh_es_a256kw pbes2_hs256_a128kw pbes2_hs384_a192kw pbes2_hs512_a256kw : Algorithm

-- String()
unfoldable pub name : Algorithm → Octets
name none_algorithm = text "none"
name hs256 = text "HS256"
name hs384 = text "HS384"
name hs512 = text "HS512"
name rs256 = text "RS256"
name rs384 = text "RS384"
name rs512 = text "RS512"
name es256 = text "ES256"
name es384 = text "ES384"
name es512 = text "ES512"
name ps256 = text "PS256"
name ps384 = text "PS384"
name ps512 = text "PS512"
name eddsa = text "EdDSA"
name ed25519 = text "Ed25519"
name mldsa44 = text "ML-DSA-44"
name mldsa65 = text "ML-DSA-65"
name mldsa87 = text "ML-DSA-87"
name a128cbc_hs256 = text "A128CBC-HS256"
name a192cbc_hs384 = text "A192CBC-HS384"
name a256cbc_hs512 = text "A256CBC-HS512"
name a128gcm = text "A128GCM"
name a192gcm = text "A192GCM"
name a256gcm = text "A256GCM"
name dir = text "dir"
name rsa15 = text "RSA1_5"
name rsa_oaep = text "RSA-OAEP"
name rsa_oaep256 = text "RSA-OAEP-256"
name a128kw = text "A128KW"
name a192kw = text "A192KW"
name a256kw = text "A256KW"
name a128gcmkw = text "A128GCMKW"
name a192gcmkw = text "A192GCMKW"
name a256gcmkw = text "A256GCMKW"
name ecdh_es = text "ECDH-ES"
name ecdh_es_a128kw = text "ECDH-ES+A128KW"
name ecdh_es_a192kw = text "ECDH-ES+A192KW"
name ecdh_es_a256kw = text "ECDH-ES+A256KW"
name pbes2_hs256_a128kw = text "PBES2-HS256+A128KW"
name pbes2_hs384_a192kw = text "PBES2-HS384+A192KW"
name pbes2_hs512_a256kw = text "PBES2-HS512+A256KW"

-- The pointer, as a number.
unfoldable pub index : Algorithm → ℕ
index none_algorithm = 0
index hs256 = 1
index hs384 = 2
index hs512 = 3
index rs256 = 4
index rs384 = 5
index rs512 = 6
index es256 = 7
index es384 = 8
index es512 = 9
index ps256 = 10
index ps384 = 11
index ps512 = 12
index eddsa = 13
index ed25519 = 14
index mldsa44 = 15
index mldsa65 = 16
index mldsa87 = 17
index a128cbc_hs256 = 18
index a192cbc_hs384 = 19
index a256cbc_hs512 = 20
index a128gcm = 21
index a192gcm = 22
index a256gcm = 23
index dir = 24
index rsa15 = 25
index rsa_oaep = 26
index rsa_oaep256 = 27
index a128kw = 28
index a192kw = 29
index a256kw = 30
index a128gcmkw = 31
index a192gcmkw = 32
index a256gcmkw = 33
index ecdh_es = 34
index ecdh_es_a128kw = 35
index ecdh_es_a192kw = 36
index ecdh_es_a256kw = 37
index pbes2_hs256_a128kw = 38
index pbes2_hs384_a192kw = 39
index pbes2_hs512_a256kw = 40

pub indexed : ℕ → List Algorithm → Option Algorithm
indexed i [] = none
indexed zero (a ∷ rest) = some a
indexed (suc i) (a ∷ rest) = indexed i rest

-- The list of the registry, in its order.
abbrev pub algorithms : List Algorithm
algorithms =
    none_algorithm ∷ hs256 ∷ hs384 ∷ hs512 ∷ rs256 ∷ rs384 ∷ rs512 ∷ es256 ∷ es384 ∷ es512 ∷ ps256
    ∷ ps384 ∷ ps512 ∷ eddsa ∷ ed25519 ∷ mldsa44 ∷ mldsa65 ∷ mldsa87 ∷ a128cbc_hs256 ∷ a192cbc_hs384
    ∷ a256cbc_hs512 ∷ a128gcm ∷ a192gcm ∷ a256gcm ∷ dir ∷ rsa15 ∷ rsa_oaep ∷ rsa_oaep256 ∷ a128kw
    ∷ a192kw ∷ a256kw ∷ a128gcmkw ∷ a192gcmkw ∷ a256gcmkw ∷ ecdh_es ∷ ecdh_es_a128kw
    ∷ ecdh_es_a192kw ∷ ecdh_es_a256kw ∷ pbes2_hs256_a128kw ∷ pbes2_hs384_a192kw ∷ pbes2_hs512_a256kw
    ∷ []

indexed-index : (a : Algorithm) → indexed (index a) algorithms ≡ some a
unfolding index indexed
indexed-index none_algorithm = refl
indexed-index hs256 = refl
indexed-index hs384 = refl
indexed-index hs512 = refl
indexed-index rs256 = refl
indexed-index rs384 = refl
indexed-index rs512 = refl
indexed-index es256 = refl
indexed-index es384 = refl
indexed-index es512 = refl
indexed-index ps256 = refl
indexed-index ps384 = refl
indexed-index ps512 = refl
indexed-index eddsa = refl
indexed-index ed25519 = refl
indexed-index mldsa44 = refl
indexed-index mldsa65 = refl
indexed-index mldsa87 = refl
indexed-index a128cbc_hs256 = refl
indexed-index a192cbc_hs384 = refl
indexed-index a256cbc_hs512 = refl
indexed-index a128gcm = refl
indexed-index a192gcm = refl
indexed-index a256gcm = refl
indexed-index dir = refl
indexed-index rsa15 = refl
indexed-index rsa_oaep = refl
indexed-index rsa_oaep256 = refl
indexed-index a128kw = refl
indexed-index a192kw = refl
indexed-index a256kw = refl
indexed-index a128gcmkw = refl
indexed-index a192gcmkw = refl
indexed-index a256gcmkw = refl
indexed-index ecdh_es = refl
indexed-index ecdh_es_a128kw = refl
indexed-index ecdh_es_a192kw = refl
indexed-index ecdh_es_a256kw = refl
indexed-index pbes2_hs256_a128kw = refl
indexed-index pbes2_hs384_a192kw = refl
indexed-index pbes2_hs512_a256kw = refl

index-injective : (a b : Algorithm) → index a ≡ index b → a ≡ b
index-injective a b h = cc (indexed-index a, indexed-index b, ap (λ i. indexed i algorithms) h)

pub algorithm_eqb_iff : (a b : Algorithm) → (eqb (index a) (index b) ≡ true) ↔ (a ≡ b)
algorithm_eqb_iff a b = (
  λ h. index-injective a b ((eqb_iff (index a) (index b)).0 h),
  λ h. (eqb_iff _ _).1 (ap index h),
)

instance abbrev pub algorithm_same : Same Algorithm
algorithm_same = record { same = λ a b. eqb (index a) (index b); same_iff = algorithm_eqb_iff }

-- registry[algorithm.String()] = algorithm, looked up.
unfoldable pub find_name : Octets → List Algorithm → Option Algorithm
find_name n [] = none
find_name n (a ∷ rest) = if name a == n then some a else find_name n rest

unfoldable pub by_name : Octets → Option Algorithm
by_name n = find_name n algorithms

-- Which algorithms implement jwa.Verifier and jwa.Signer.
unfoldable pub is_verifier : Algorithm → Bool
is_verifier none_algorithm = true
is_verifier hs256 = true
is_verifier hs384 = true
is_verifier hs512 = true
is_verifier rs256 = true
is_verifier rs384 = true
is_verifier rs512 = true
is_verifier es256 = true
is_verifier es384 = true
is_verifier es512 = true
is_verifier ps256 = true
is_verifier ps384 = true
is_verifier ps512 = true
is_verifier eddsa = true
is_verifier ed25519 = true
is_verifier mldsa44 = true
is_verifier mldsa65 = true
is_verifier mldsa87 = true
is_verifier _ = false

-- Which implement jwa.ContentEncrypter.
unfoldable pub is_content_encrypter : Algorithm → Bool
is_content_encrypter a128cbc_hs256 = true
is_content_encrypter a192cbc_hs384 = true
is_content_encrypter a256cbc_hs512 = true
is_content_encrypter a128gcm = true
is_content_encrypter a192gcm = true
is_content_encrypter a256gcm = true
is_content_encrypter _ = false
