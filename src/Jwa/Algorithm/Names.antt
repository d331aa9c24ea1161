-- ===== src/Jwa/Algorithm/Names.antt =====
-- The registry of jwa/algorithm.go: names and algorithms correspond one to one.
use golang_jwt_ci_test.Prelude.{
  ◌≡◌, refl, ap, sym, ◌∙◌, ◌↔◌, none, some, List, [], ◌∷◌, arith, Octets, ◌==◌, nat_same, list_same,
  list_eqb_iff, Bool-cases, inl, inr, false,
}
use golang_jwt_ci_test.Jwa.Algorithm.{
  Algorithm, name, find_name, by_name, algorithms, none_algorithm, hs256, hs384, hs512, rs256,
  rs384, rs512, es256, es384, es512, ps256, ps384, ps512, eddsa, ed25519, mldsa44, mldsa65, mldsa87,
  a128cbc_hs256, a192cbc_hs384, a256cbc_hs512, a128gcm, a192gcm, a256gcm, dir, rsa15, rsa_oaep,
  rsa_oaep256, a128kw, a192kw, a256kw, a128gcmkw, a192gcmkw, a256gcmkw, ecdh_es, ecdh_es_a128kw,
  ecdh_es_a192kw, ecdh_es_a256kw, pbes2_hs256_a128kw, pbes2_hs384_a192kw, pbes2_hs512_a256kw,
}

by_name-name : (a : Algorithm) → by_name (name a) ≡ some a
unfolding by_name find_name name
by_name-name none_algorithm = refl
by_name-name hs256 = refl
by_name-name hs384 = refl
by_name-name hs512 = refl
by_name-name rs256 = refl
by_name-name rs384 = refl
by_name-name rs512 = refl
by_name-name es256 = refl
by_name-name es384 = refl
by_name-name es512 = refl
by_name-name ps256 = refl
by_name-name ps384 = refl
by_name-name ps512 = refl
by_name-name eddsa = refl
by_name-name ed25519 = refl
by_name-name mldsa44 = refl
by_name-name mldsa65 = refl
by_name-name mldsa87 = refl
by_name-name a128cbc_hs256 = refl
by_name-name a192cbc_hs384 = refl
by_name-name a256cbc_hs512 = refl
by_name-name a128gcm = refl
by_name-name a192gcm = refl
by_name-name a256gcm = refl
by_name-name dir = refl
by_name-name rsa15 = refl
by_name-name rsa_oaep = refl
by_name-name rsa_oaep256 = refl
by_name-name a128kw = refl
by_name-name a192kw = refl
by_name-name a256kw = refl
by_name-name a128gcmkw = refl
by_name-name a192gcmkw = refl
by_name-name a256gcmkw = refl
by_name-name ecdh_es = refl
by_name-name ecdh_es_a128kw = refl
by_name-name ecdh_es_a192kw = refl
by_name-name ecdh_es_a256kw = refl
by_name-name pbes2_hs256_a128kw = refl
by_name-name pbes2_hs384_a192kw = refl
by_name-name pbes2_hs512_a256kw = refl

find_name-eq_some :
    (n : Octets) (list : List Algorithm) (a : Algorithm) → find_name n list ≡ some a → name a ≡ n
unfolding find_name
find_name-eq_some n [] a h = cc
find_name-eq_some n (x ∷ rest) a h =
    ground (arith, find_name-eq_some n rest a, list_eqb_iff (name x) n)

by_name-eq_some : (n : Octets) (a : Algorithm) → by_name n ≡ some a → name a ≡ n
unfolding by_name
by_name-eq_some n a h = find_name-eq_some n algorithms a h

-- ByName finds an algorithm under a text if and only if that text is what its String gives: each
-- registered algorithm is found under its own name, and under no other.
pub by_name_iff-name : (n : Octets) (a : Algorithm) → (by_name n ≡ some a) ↔ (name a ≡ n)
by_name_iff-name n a = (by_name-eq_some n a, λ e. ap by_name (sym e) ∙ by_name-name a)

unnamed : by_name [] ≡ none
unfolding by_name find_name name
unnamed = refl

-- No algorithm has the empty name.
pub name_ne_nil : (a : Algorithm) → (name a == []) ≡ false
name_ne_nil a = elim (Bool-cases (name a == [])) [
  | inr e ↦ e
  | inl e ↦
      let found : by_name [] ≡ some a =
        (by_name_iff-name [] a).1 ((list_eqb_iff (name a) []).0 e) in
      cc (unnamed)
]
