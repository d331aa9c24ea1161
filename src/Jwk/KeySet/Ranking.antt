-- ===== src/Jwk/KeySet/Ranking.antt =====
-- The order of Candidates and the choice of Key in jwk/key.go.
use golang_jwt_ci_test.Prelude.{
  ℕ, ◌≤◌, ◌<◌, ◌≡◌, ◌≢◌, ◌↔◌, ◌⊎◌, Bool, true, false, not, ◌&&◌, ◌==◌, nat_same, list_same,
  list_eqb_iff, Octets, contains, refl, ap, sym, ◌∙◌, Option, none, some, List, [], ◌∷◌, arith, All,
  length, ltb, eqb, if◌then◌else◌, Bool-cases, inl, inr,
}
use mathlib.Core.List.{head?}
use golang_jwt_ci_test.Errors.{or_fail, no_suitable_key}
use golang_jwt_ci_test.Jwa.Algorithm.{Algorithm, algorithm_same}
use golang_jwt_ci_test.Jwa.Material.{Material}
use golang_jwt_ci_test.Jwk.Key.{Key, offers, suitable, is_present, differ_algorithms}
use golang_jwt_ci_test.Jwk.KeySet.{
  KeySet, Request, suits, rank, usable, insert, sort_stable, candidates, best_of, key,
}

present_iff : (m : Option Material) → (is_present m ≡ true) ↔ (m ≢ none)
present_iff none = (λ h. absurd (cc), λ h. absurd (h refl))
present_iff (some m) = (λ h q. absurd (cc), λ h. refl)

differ_iff :
    (x y : Option Algorithm)
    → (differ_algorithms x y ≡ false) ↔ ((a b : Algorithm) → x ≡ some a → y ≡ some b → a ≡ b)
differ_iff none y = (λ h a b p q. absurd (cc), λ h. refl)
differ_iff (some a) none = (λ h c b p q. absurd (cc), λ h. refl)
differ_iff (some a) (some b) = (
  λ h c e p q. ground (arith, h, p, q, algorithm_same.same_iff a b),
  λ h. ground (arith, h a b refl refl, algorithm_same.same_iff a b),
)

offers_iff :
    (declared wanted : List Octets)
    → (offers declared wanted ≡ true)
      ↔ ((declared ≡ []) ⊎ All (λ operation. contains declared operation ≡ true) wanted)
unfolding offers
offers_iff declared [] = (λ h. inr tt, λ h. refl)
offers_iff declared (operation ∷ rest) =
    ground (arith, offers_iff declared rest, list_eqb_iff declared [])

use_iff : (x y : Octets) → (not (not (x == []) && not (x == y)) ≡ true) ↔ ((x ≡ []) ⊎ (x ≡ y))
use_iff x y = ground (arith, list_eqb_iff x [], list_eqb_iff x y)

name_iff :
    (x y : Octets)
    → (not (not (x == []) && not (y == []) && not (x == y)) ≡ true)
      ↔ ((x ≡ []) ⊎ ((y ≡ []) ⊎ (x ≡ y)))
name_iff x y = ground (arith, list_eqb_iff x [], list_eqb_iff y [], list_eqb_iff x y)

all_iff :
    (a b c d e : Bool)
    → ((a && b && c && not d && e) ≡ true)
      ↔ ((a ≡ true) × (b ≡ true) × (c ≡ true) × (d ≡ false) × (e ≡ true))
all_iff a b c d e = ground arith

module _ (r : Request) where
  -- The keys of one rank, in their order.
  abbrev pub of_rank : ℕ → List Key → List Key
  of_rank n [] = []
  of_rank n (k ∷ ks) = if eqb (rank r k) n then k ∷ of_rank n ks else of_rank n ks

  -- Every key ranks at least as high as those after it.
  abbrev pub Falling : List Key → Type 0
  Falling [] = Unit
  Falling (k ∷ ks) = All (λ other. rank r other ≤ rank r k) ks × Falling ks

  of_rank-insert :
      (n : ℕ) (k : Key) (ks : List Key) → of_rank n (insert r k ks) ≡ of_rank n (k ∷ ks)
  unfolding insert
  of_rank-insert n k [] = refl
  of_rank-insert n k (x ∷ ks) = ground (arith, of_rank-insert n k ks)

  of_rank-sort_stable : (n : ℕ) (ks : List Key) → of_rank n (sort_stable r ks) ≡ of_rank n ks
  unfolding sort_stable
  of_rank-sort_stable n [] = refl
  of_rank-sort_stable n (k ∷ ks) =
      of_rank-insert n k (sort_stable r ks) ∙ ground (arith, of_rank-sort_stable n ks)

  All-insert : (P : Key → Type 0) (k : Key) (ks : List Key) → P k → All P ks → All P (insert r k ks)
  unfolding insert
  All-insert P k [] h hs = (h, tt)
  All-insert P k (x ∷ ks) h hs = elim (Bool-cases (ltb (rank r k) (rank r x))) [
    | inl e ↦ rw e (hs.0, All-insert P k ks h hs.1)
    | inr e ↦ rw e (h, hs)
  ]

  All-le :
      (m n : ℕ) (ks : List Key)
      → m ≤ n
      → All (λ other. rank r other ≤ m) ks
      → All (λ other. rank r other ≤ n) ks
  All-le m n [] h hs = tt
  All-le m n (k ∷ ks) h hs = (omega arith, All-le m n ks h hs.1)

  insert-Falling : (k : Key) (ks : List Key) → Falling ks → Falling (insert r k ks)
  unfolding insert
  insert-Falling k [] h = (tt, tt)
  insert-Falling k (x ∷ ks) h = elim (Bool-cases (ltb (rank r k) (rank r x))) [
    | inl e ↦ rw e (
      All-insert (λ other. rank r other ≤ rank r x) k ks (ground arith) h.0,
      insert-Falling k ks h.1,
    )
    | inr e ↦
        let le : rank r x ≤ rank r k = ground arith in
        rw e ((le, All-le (rank r x) (rank r k) ks le h.0), h)
  ]

  sort_stable-Falling : (ks : List Key) → Falling (sort_stable r ks)
  unfolding sort_stable
  sort_stable-Falling [] = tt
  sort_stable-Falling (k ∷ ks) = insert-Falling k (sort_stable r ks) (sort_stable-Falling ks)

  short : (ks : List Key) → length ks < 2 → sort_stable r ks ≡ ks
  unfolding sort_stable insert
  short [] h = refl
  short (k ∷ []) h = refl
  short (k ∷ x ∷ ks) h = absurd (omega arith)

  candidates-eq_sort : (set : KeySet) → candidates r (some set) ≡ sort_stable r (usable r set.keys)
  unfolding candidates
  candidates-eq_sort set = elim (Bool-cases (ltb (length (usable r set.keys)) 2)) [
    | inl e ↦ rw e (sym (short (usable r set.keys) (ground arith)))
    | inr e ↦ rw e refl
  ]

  -- A key serves the request: it has material; its use, where it has one, is that of the request; where
  -- it lists operations, all wanted ones are among them; its algorithm, where both have one, is that of
  -- the request; and its name, where both have one, is that of the request.
  abbrev pub Serves : Key → Type 0
  Serves k =
      (k.material ≢ none)
      × ((k.public_key_use ≡ []) ⊎ (k.public_key_use ≡ r.public_key_use))
      × ((k.operations ≡ [])
          ⊎ All (λ operation. contains k.operations operation ≡ true) r.operations)
      × ((a b : Algorithm) → k.algorithm ≡ some a → r.algorithm ≡ some b → a ≡ b)
      × ((k.id ≡ []) ⊎ ((r.id ≡ []) ⊎ (k.id ≡ r.id)))

  suits_iff : (k : Key) → (suits r k ≡ true) ↔ Serves k
  unfolding suits suitable
  suits_iff k =
      let m = present_iff k.material in
      let u = use_iff k.public_key_use r.public_key_use in
      let o = offers_iff k.operations r.operations in
      let a = differ_iff k.algorithm r.algorithm in
      let n = name_iff k.id r.id in
      let all =
        all_iff (is_present k.material)
          (not (not (k.public_key_use == []) && not (k.public_key_use == r.public_key_use)))
          (offers k.operations r.operations) (differ_algorithms k.algorithm r.algorithm)
          (not (not (k.id == []) && not (r.id == []) && not (k.id == r.id))) in
      (
        λ h. let (x, y, z, v, w) = all.0 h in (m.0 x, u.0 y, o.0 z, a.0 v, n.0 w),
        λ (x, y, z, v, w). all.1 (m.1 x, u.1 y, o.1 z, a.1 v, n.1 w),
      )

  -- The keys that serve, among the entries of a set and in their sequence.
  pub data Serving : List (Option Key) → List Key → Type 0 where
    nil : Serving [] []
    skip_nil : {es : List (Option Key)} {ks : List Key} → Serving es ks → Serving (none ∷ es) ks
    skip :
        {k : Key} {es : List (Option Key)} {ks : List Key}
        → ¬ Serves k
        → Serving es ks
        → Serving (some k ∷ es) ks
    take :
        {k : Key} {es : List (Option Key)} {ks : List Key}
        → Serves k
        → Serving es ks
        → Serving (some k ∷ es) (k ∷ ks)

  usable-Serving : (es : List (Option Key)) → Serving es (usable r es)
  unfolding usable
  usable-Serving [] = nil
  usable-Serving (none ∷ es) = skip_nil (usable-Serving es)
  usable-Serving (some k ∷ es) = elim (Bool-cases (suits r k)) [
    | inl e ↦ rw e (take ((suits_iff k).0 e) (usable-Serving es))
    | inr e ↦ rw e (skip (λ h. absurd (ground (arith, e, (suits_iff k).1 h))) (usable-Serving es))
  ]

  -- Candidates gives the keys of the set that serve the request, best first: no key stands before one
  -- of higher rank, and the keys of each rank are those of that rank which serve, in the sequence of
  -- the set, none lost, none repeated.
  pub candidates_ranked :
      (set : KeySet)
      → Falling (candidates r (some set))
        × ((serving : List Key) × Serving set.keys serving
            × ((n : ℕ) → of_rank n (candidates r (some set)) ≡ of_rank n serving))
  candidates_ranked set = rw (candidates-eq_sort set) (
    sort_stable-Falling (usable r set.keys),
    (usable r set.keys, usable-Serving set.keys, λ n. of_rank-sort_stable n (usable r set.keys)),
  )

  abbrev prefer : Key → Option Key → Key
  prefer k none = k
  prefer k (some other) = if ltb (rank r k) (rank r other) then other else k

  head-insert : (k : Key) (ks : List Key) → head? (insert r k ks) ≡ some (prefer k (head? ks))
  unfolding insert
  head-insert k [] = refl
  head-insert k (x ∷ ks) = ground arith

  prefer-prefer :
      (b k : Key) (o : Option Key)
      → prefer b (some (prefer k o))
        ≡ (if ltb (rank r b) (rank r k) then prefer k o else prefer b o)
  prefer-prefer b k none = refl
  prefer-prefer b k (some x) = ground arith

  best_of-some :
      (b : Key) (keys : List (Option Key))
      → best_of r (some b) (rank r b) keys ≡ some (prefer b (head? (sort_stable r (usable r keys))))
  unfolding best_of usable sort_stable
  best_of-some b [] = refl
  best_of-some b (none ∷ rest) = best_of-some b rest
  best_of-some b (some k ∷ rest) =
      let s = sort_stable r (usable r rest) in
      elim (Bool-cases (suits r k)) [
        | inr e ↦ rw e (best_of-some b rest)
        | inl e ↦
            rw (e, head-insert k s, prefer-prefer b k (head? s))
              (ground (arith, best_of-some k rest, best_of-some b rest))
      ]

  best_of-none :
      (keys : List (Option Key)) → best_of r none 0 keys ≡ head? (sort_stable r (usable r keys))
  unfolding best_of usable sort_stable
  best_of-none [] = refl
  best_of-none (none ∷ rest) = best_of-none rest
  best_of-none (some k ∷ rest) = elim (Bool-cases (suits r k)) [
    | inr e ↦ rw e (best_of-none rest)
    | inl e ↦ rw (e, head-insert k (sort_stable r (usable r rest))) (best_of-some k rest)
  ]

  -- Key returns the first of Candidates, and ErrNoSuitableKey where Candidates is empty, also for a
  -- nil set.
  pub key-eq_head :
      (set : Option KeySet) → key r set ≡ or_fail (head? (candidates r set)) (no_suitable_key ∷ [])
  unfolding key candidates
  key-eq_head none = refl
  key-eq_head (some set) =
      ap (λ o. or_fail o (no_suitable_key ∷ []))
        (best_of-none set.keys ∙ ap head? (sym (candidates-eq_sort set)))
