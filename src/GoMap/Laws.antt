-- ===== src/GoMap/Laws.antt =====
-- Laws of the map operations, in the form that rewriting and case splits read.
use gofordevopsclass.Prelude.{
  suc, ◌+◌, ◌≤◌, [], ◌∷◌, none, some, true, if◌then◌else◌, Eq, ◌==◌, is_some, one_if, count, ◌≡◌,
  refl, ◌≢◌, arith,
}
use gofordevopsclass.GoMap.{GoMap, lookup, insert, delete, keys, size, IsGoMap}

pub empty-IsGoMap {ℓ κ} : {K : Type ℓ} ⦃e : Eq K⦄ (V : Type κ) → IsGoMap {K = K} {V = V} []
unfolding lookup
empty-IsGoMap V k = refl

module _ {ℓ κ} {K : Type ℓ} {V : Type κ} ⦃e : Eq K⦄ where
  pub lookup-insert :
      (k q : K) (new : V) (m : GoMap K V)
      → lookup q (insert k new m) ≡ (if k == q then some new else lookup q m)
  unfolding lookup insert
  lookup-insert k q new [] = refl
  lookup-insert k q new ((i, old) ∷ m) =
      ground (arith, e.beq_iff k q, e.beq_iff i k, e.beq_iff i q, lookup-insert k q new m)

  pub lookup-delete :
      (k j : K) (m : GoMap K V) → lookup j (delete k m) ≡ (if k == j then none else lookup j m)
  unfolding lookup delete
  lookup-delete k j [] = ground arith
  lookup-delete k j ((i, w) ∷ m) =
      ground (arith, e.beq_iff k j, e.beq_iff i k, e.beq_iff i j, lookup-delete k j m)

  -- A lookup in a map of one entry finds that entry or nothing.
  pub lookup-size_one :
      (k j : K) (m : GoMap K V)
      → size m ≡ 1
      → is_some (lookup k m) ≡ true
      → is_some (lookup j m) ≡ (k == j)
  unfolding lookup
  lookup-size_one k j [] h s = absurd (omega arith)
  lookup-size_one k j ((i, w) ∷ []) h s =
      ground (arith, e.beq_iff k j, e.beq_iff i k, e.beq_iff i j)
  lookup-size_one k j ((i, w) ∷ x ∷ m) h s = absurd (omega arith)

  count-insert :
      (k j : K) (v : V) (m : GoMap K V)
      → count j (keys (insert k v m)) ≡ (
          if k == j
          then (if is_some (lookup k m) then count j (keys m) else suc (count j (keys m)))
          else count j (keys m))
  unfolding lookup insert
  count-insert k j v [] = ground arith
  count-insert k j v ((i, w) ∷ m) =
      ground (arith, e.beq_iff k j, e.beq_iff i k, e.beq_iff i j, count-insert k j v m)

  count-delete :
      (k j : K) (m : GoMap K V)
      → count j (keys (delete k m)) ≡ (if k == j then 0 else count j (keys m))
  unfolding delete
  count-delete k j [] = ground arith
  count-delete k j ((i, w) ∷ m) =
      ground (arith, e.beq_iff k j, e.beq_iff i k, e.beq_iff i j, count-delete k j m)

  pub insert-IsGoMap : (k : K) (v : V) (m : GoMap K V) → IsGoMap m → IsGoMap (insert k v m)
  insert-IsGoMap k v m h j =
      ground (arith, count-insert k j v m, lookup-insert k j v m, h j, h k, e.beq_iff k j)

  pub delete-IsGoMap : (k : K) (m : GoMap K V) → IsGoMap m → IsGoMap (delete k m)
  delete-IsGoMap k m h j = ground (arith, count-delete k j m, lookup-delete k j m, h j)

  pub size-delete : (k : K) (m : GoMap K V) → size (delete k m) + count k (keys m) ≡ size m
  unfolding delete
  size-delete k [] = refl
  size-delete k ((i, w) ∷ m) = ground (arith, size-delete k m)

  pub insert-ne-nil : (k : K) (v : V) (m : GoMap K V) → insert k v m ≢ []
  unfolding insert
  insert-ne-nil k v [] h = cc
  insert-ne-nil k v ((i, w) ∷ m) h = ground arith

  pub count-lookup : (k : K) (m : GoMap K V) → one_if (is_some (lookup k m)) ≤ count k (keys m)
  unfolding lookup
  count-lookup k [] = omega arith
  count-lookup k ((i, w) ∷ m) = ground (arith, count-lookup k m)
