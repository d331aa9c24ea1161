-- ===== src/Jwa/Gcm/Tests.antt =====
-- Octets under AES-GCM, over a toy cipher that leaves them as they are and appends a constant tag.
use golang_jwt_ci_test.Prelude.{
  ◌≡◌, ◌+◌, ◌-◌, refl, ap, ◌∙◌, Option, some, none, ◌&&◌, if◌then◌else◌, ◌++◌, arith, replicate,
  Octets, length, leb, ◌==◌, list_same, nat_same, list_eqb_iff, length-append, take-append-drop,
}
use golang_jwt_ci_test.Errors.{ok}
use golang_jwt_ci_test.Jwa.Material.{check_key_size}
use golang_jwt_ci_test.Jwa.Gcm.{Aead, IsAead, divided, a128gcm, encrypt, decrypt}
use golang_jwt_ci_test.Jwa.Gcm.Exact.{divided-append, decrypt_iff-encrypt_gcm}

abbrev tag : Octets
tag = replicate 16 7

unfoldable unseal : Octets → Option Octets
unseal s = if leb 16 (length s) && (divided s).1 == tag then some (divided s).0 else none

abbrev toy : Aead
toy = record { seal = λ key iv p aad. p ++ tag; unseal = λ key iv s aad. unseal s }

length-seal : (p : Octets) → length (p ++ tag) ≡ length p + 16
length-seal p = length-append p tag

unseal-seal : (p : Octets) → unseal (p ++ tag) ≡ some p
unfolding unseal
unseal-seal p =
    ap (λ d. if leb 16 (length (p ++ tag)) && d.1 == tag then some d.0 else none)
      (divided-append p tag refl)
    ∙ ground (arith, length-seal p)

seal-unseal : (s p : Octets) → unseal s ≡ some p → p ++ tag ≡ s
unfolding unseal
seal-unseal s p h =
    let whole = take-append-drop (length s - 16) s in
    let tags = list_eqb_iff (divided s).1 tag in ground (arith, h, whole, tags)

toy-IsAead : IsAead toy
toy-IsAead = record {
  length-seal = λ key iv p aad vector. length-seal p;
  unseal-seal = λ key iv p aad vector. unseal-seal p;
  seal-unseal = λ key iv s aad p vector. seal-unseal s p;
}

decrypt_iff-encrypt_gcm_example :
    decrypt toy a128gcm (replicate 3 1) (replicate 16 2) (replicate 12 5) (replicate 2 6) tag
    ≡ ok (replicate 3 1)
unfolding encrypt check_key_size
decrypt_iff-encrypt_gcm_example =
    (decrypt_iff-encrypt_gcm toy toy-IsAead a128gcm (replicate 3 1) (replicate 16 2)
        (replicate 12 5) (replicate 2 6) tag (replicate 3 1)).1
      refl
