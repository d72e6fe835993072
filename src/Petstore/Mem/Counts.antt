-- ===== src/Petstore/Mem/Counts.antt =====
-- How often an id stands in the results of the searches of mem.go, and in what `collect` lets
-- through.
use mathlib.Core.List.{Permᴰ, Perm}
use mathlib.Core.Logic.{∥∥₁_elim}
use native.Mathlib.Nat.{ℕ_set}
use gofordevopsclass.Prelude.{
  ℕ, ◌+◌, ◌≤◌, String, Bool, ◌&&◌, if◌then◌else◌, ltb, leb, ◌==◌, Eq, string_eq, List, [], ◌∷◌,
  ◌++◌, Option, none, some, one_if, count, count-append, contains, concat, keep_if, ◌≡◌, refl, ◌∙◌,
  ap, arith, beq_self, beq_comm,
}
use gofordevopsclass.GoMap.{GoMap, lookup, insert, keys, values, IsGoMap}
use gofordevopsclass.GoMap.Laws.{lookup-insert, count-lookup}
use gofordevopsclass.Petstore.Pet.{Pet}
use gofordevopsclass.Petstore.Mem.{Index, ids_at, collect, counted, pet_ids}
use gofordevopsclass.Petstore.Mem.View.{Pets, IsView}

counted-insert :
    (x id : String) (c : ℕ) (m : GoMap String ℕ)
    → counted id (insert x c m) ≡ (if x == id then c else counted id m)
counted-insert x id c m = ground (arith, lookup-insert x id c m)

-- An id passes `collect` once, if its count crosses the number of filters.
pub count-collect :
    (n : ℕ) (m : GoMap String ℕ) (xs : List String) (id : String)
    → count id (collect n m xs)
      ≡ one_if (ltb (counted id m) n && leb n (counted id m + count id xs))
unfolding collect
count-collect n m [] id = ground arith
count-collect n m (x ∷ xs) id = ground (
  arith,
  count-collect n (insert x (counted x m + 1) m) xs id,
  counted-insert x id (counted x m + 1) m,
  string_eq.beq_iff x id,
)

count-concat-permᴰ :
    (id : String) {xs ys : List (List String)}
    → Permᴰ xs ys
    → count id (concat xs) ≡ count id (concat ys)
count-concat-permᴰ id Permᴰ.nil = refl
count-concat-permᴰ id (Permᴰ.cons {a = a} {b = b} {l₁ = l} {l₂ = r} e p) = ground (
  arith,
  ap (count id) e,
  count-append id a (concat l),
  count-append id b (concat r),
  count-concat-permᴰ id p,
)
count-concat-permᴰ id (Permᴰ.swap {a = a} {b = b} {a' = a'} {b' = b'} {l = l} e f) = omega (
  arith,
  ap (count id) e,
  ap (count id) f,
  count-append id a (b ++ concat l),
  count-append id b (concat l),
  count-append id a' (b' ++ concat l),
  count-append id b' (concat l),
)
count-concat-permᴰ id (Permᴰ.trans p q) = count-concat-permᴰ id p ∙ count-concat-permᴰ id q

-- The order in which results arrive does not change how often an id does.
pub count-concat-perm :
    (id : String) {xs ys : List (List String)}
    → Perm xs ys
    → count id (concat xs) ≡ count id (concat ys)
count-concat-perm id p = ∥∥₁_elim p (ℕ_set _ _) (count-concat-permᴰ id)

module _ {A : Type 0} ⦃e : Eq A⦄ where
  pub count-distinct : (a : A) (xs : List A) → count a xs ≤ 1 → count a xs ≡ one_if (contains a xs)
  count-distinct a [] h = refl
  count-distinct a (x ∷ xs) h = ground (arith, count-distinct a xs)

  pub count-keep_if :
      (p : A → Bool) (a : A) (xs : List A)
      → count a (keep_if p xs) ≡ (if p a then count a xs else 0)
  count-keep_if p a [] = ground arith
  count-keep_if p a (x ∷ xs) = ground (arith, count-keep_if p a xs, e.beq_iff x a)

  -- An id comes up once for each time that its pet's key is asked for.
  pub count-ids_at :
      (key : Pet → A) (m : Index A) (ids : Pets)
      → IsView key (λ k. lookup k m) ids
      → (ks : List A) (id : String)
      → count id (ids_at ks m) ≡ (elim (lookup id ids) [ none ↦ 0 | some p ↦ count (key p) ks ])
  unfolding ids_at
  count-ids_at key m ids v [] id = ground arith
  count-ids_at key m ids v (k ∷ ks) id =
      count-step (lookup k m) (lookup id ids) refl refl (count-ids_at key m ids v ks id)
    where
      count-step :
          (w : Option Pets) (o : Option Pet)
          → lookup k m ≡ w
          → lookup id ids ≡ o
          → count id (ids_at ks m) ≡ (elim (lookup id ids) [ none ↦ 0 | some p ↦ count (key p) ks ])
          → count id (ids_at (k ∷ ks) m)
            ≡ (elim (lookup id ids) [ none ↦ 0 | some p ↦ count (key p) (k ∷ ks) ])
      count-step none none x y ih = ground arith
      count-step none (some p) x y ih = ground (arith, v.exact k id, beq_comm k (key p))
      count-step (some w) none x y ih =
          ground (arith, v.exact k id, v.maps k w x id, count-append id (keys w) (ids_at ks m))
      count-step (some w) (some p) x y ih = ground (
        arith,
        v.exact k id,
        v.maps k w x id,
        count-append id (keys w) (ids_at ks m),
        beq_comm k (key p),
      )

-- The pets of a map whose pets stand under their ids, by id.
pub pet_ids-keys :
    (v : Pets)
    → IsGoMap v
    → ((k : String) (p : Pet) → lookup k v ≡ some p → p.id ≡ k)
    → pet_ids (values v) ≡ keys v
unfolding lookup
pet_ids-keys [] m h = refl
pet_ids-keys ((k, p) ∷ v) m h =
    let first : p.id ≡ k = h k p (ground (arith, beq_self k)) in
    let once : count k (keys v) ≡ 0 = ground (arith, m k, beq_self k) in
    let rest : IsGoMap v =
      λ j. ground (arith, m j, string_eq.beq_iff k j, once, count-lookup k v) in
    let named : (j : String) (q : Pet) → lookup j v ≡ some q → q.id ≡ j =
      λ j q x. ground (arith, h j q, string_eq.beq_iff k j, once, count-lookup k v) in
    ground (arith, first, pet_ids-keys v rest named)
