-- ===== src/Jwk/Public/Secrets.antt =====
-- Public of a key and of a set, jwk/key.go: what is published holds no secret.
use golang_jwt_ci_test.Prelude.{
  ℕ, ◌≡◌, refl, ap, subst, inl, inr, false, Option, none, some, List, [], ◌∷◌, arith, All,
  Bool-cases, Option-cases,
}
use golang_jwt_ci_test.Jwa.Material.{
  KeyKind, Material, octets, public, private, other, ecdsa, rsa, ed25519, x25519, ecdh, mldsa,
}
use golang_jwt_ci_test.Jwk.Key.{Key, is_private, is_private_material}
use golang_jwt_ci_test.Jwk.KeySet.{KeySet}
use golang_jwt_ci_test.Jwk.Public.{KeyLibrary, public_material, public_key, public_keys, public_set}

module _ (l : KeyLibrary) where
  -- Published material is not secret, and publishing it again leaves it.
  abbrev Published : Material → Type 0
  Published p = (is_private_material (some p) ≡ false) × (public_material l p ≡ some p)

  from_some : {m p : Material} → some m ≡ some p → m ≡ p
  from_some h = cc

  published : (kind : KeyKind) (n : ℕ) {p : Material} → some (public kind n) ≡ some p → Published p
  unfolding public_material is_private_material
  published kind n h = subst Published (from_some h) (refl, refl)

  public_material-Published : (m p : Material) → public_material l m ≡ some p → Published p
  unfolding public_material is_private_material
  public_material-Published (octets o) p h = absurd (cc)
  public_material-Published (public kind n) p h = published kind n h
  public_material-Published (private ecdsa n) p h = published ecdsa _ h
  public_material-Published (private rsa n) p h = published rsa _ h
  public_material-Published (private ed25519 n) p h = published ed25519 _ h
  public_material-Published (private x25519 n) p h = published x25519 _ h
  public_material-Published (private ecdh n) p h = published ecdh _ h
  public_material-Published (private mldsa n) p h = elim (Bool-cases (l.is_zero_private n)) [
    | inl z ↦ absurd (ground (arith, z, h))
    | inr z ↦ published mldsa (l.public_half mldsa n) (ground (arith, z, h))
  ]
  public_material-Published (other n) p h = subst Published (from_some h) (refl, refl)

  -- A key of a published set.
  abbrev pub Harmless : Option Key → Type 0
  Harmless none = ⊥
  Harmless (some key) = (is_private (some key) ≡ false) × (public_key l key ≡ some key)

  public_key-Harmless : (key p : Key) → public_key l key ≡ some p → Harmless (some p)
  unfolding public_key is_private is_private_material
  public_key-Harmless key p h = elim (Option-cases key.material) [
    | inl n ↦
        subst Harmless {x = some key} {y = some p} (ground (arith, n, h))
          (ground (arith, n), ground (arith, n))
    | inr (m, q) ↦ elim (Option-cases (public_material l m)) [
      | inl z ↦ absurd (ground (arith, q, z, h))
      | inr (pm, q') ↦
          let (hidden, again) = public_material-Published m pm q' in
          subst Harmless {x = some (record key { material = some pm })} {y = some p}
            (ground (arith, q, q', h)) (hidden, ground (arith, again))
    ]
  ]

  added :
      (o : Option Key) (rest : List (Option Key))
      → ((p : Key) → o ≡ some p → Harmless (some p))
      → All Harmless rest
      → All Harmless (elim o [ none ↦ rest | some p ↦ some p ∷ rest ])
  added none rest holds others = others
  added (some p) rest holds others = (holds p refl, others)

  public_keys-Harmless : (keys : List (Option Key)) → All Harmless (public_keys l keys)
  unfolding public_keys
  public_keys-Harmless [] = tt
  public_keys-Harmless (none ∷ rest) = public_keys-Harmless rest
  public_keys-Harmless (some key ∷ rest) =
      added (public_key l key) (public_keys l rest) (public_key-Harmless key)
        (public_keys-Harmless rest)

  public_keys-eq_self : (keys : List (Option Key)) → All Harmless keys → public_keys l keys ≡ keys
  unfolding public_keys
  public_keys-eq_self [] a = refl
  public_keys-eq_self (none ∷ rest) (a, later) = absurd a
  public_keys-eq_self (some key ∷ rest) ((a, again), later) =
      ground (arith, again, public_keys-eq_self rest later)

  -- The set that Public gives holds no private and no symmetric key, and Public leaves it as it is.
  pub public_set-Harmless :
      (set published : KeySet)
      → public_set l (some set) ≡ some published
      → All Harmless published.keys × (public_set l (some published) ≡ some published)
  unfolding public_set public_keys
  public_set-Harmless set published h =
      let keys : public_keys l set.keys ≡ published.keys = ap keys_of h in
      let harmless = subst (All Harmless) keys (public_keys-Harmless set.keys) in
      (
        harmless,
        ap (λ found. some (record { keys = found })) (public_keys-eq_self published.keys harmless),
      )
    where
      keys_of : Option KeySet → List (Option Key)
      keys_of none = []
      keys_of (some s) = s.keys
