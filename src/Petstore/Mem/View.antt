-- ===== src/Petstore/Mem/View.antt =====
-- The three indexes of the store (names, types, birthdays) as views of its map of ids. An index
-- is read as a function `g` from a key to the map of the pets that have the key.
use mathlib.Core.Path.{fun_ext}
use gofordevopsclass.Prelude.{
  String, Bool, true, ◌&&◌, if◌then◌else◌, nat_beq, ◌==◌, Eq, string_eq, [], Option, none, some,
  is_some, Option-cases, Bool-cases, ◌≡◌, ◌≢◌, refl, sym, subst, inl, inr, arith, beq_self,
}
use gofordevopsclass.GoMap.{GoMap, lookup, insert, delete, size, IsGoMap}
use gofordevopsclass.GoMap.Laws.{
  lookup-insert, lookup-delete, lookup-size_one, empty-IsGoMap, insert-IsGoMap, delete-IsGoMap,
  size-delete, insert-ne-nil,
}
use gofordevopsclass.Petstore.Pet.{Pet}

abbrev pub Pets : Type 0
Pets = GoMap String Pet

abbrev pub find_in {ℓ} : {K : Type ℓ} → (K → Option Pets) → K → String → Option Pet
find_in g k id = elim (g k) [ none ↦ none | some v ↦ lookup id v ]

abbrev pub only : (Pet → Bool) → Option Pet → Option Pet
only t none = none
only t (some p) = if t p then some p else none

abbrev pub or_empty : Option Pets → Pets
or_empty none = []
or_empty (some v) = v

abbrev pub without : String → Option Pets → Option Pets
without id none = none
without id (some v) = if nat_beq (size v) 1 then none else some (delete id v)

module _ {K : Type 0} ⦃e : Eq K⦄ where
  -- The index once a pet has been put under a key, and once an id has been taken from a key.
  abbrev pub added : (K → Option Pets) → K → Pet → K → Option Pets
  added g k p j = if k == j then some (insert p.id p (or_empty (g k))) else g j

  abbrev pub removed : (K → Option Pets) → K → String → K → Option Pets
  removed g k id j = if k == j then without id (g k) else g j

  -- The index holds exactly the pets of the store, each under its key, and no empty map.
  pub record IsView (key : Pet → K) (g : K → Option Pets) (ids : Pets) : Type 0 where
    pub exact : (k : K) (id : String) → find_in g k id ≡ only (λ p. key p == k) (lookup id ids)
    pub maps : (k : K) (v : Pets) → g k ≡ some v → IsGoMap v
    pub full : (k : K) → g k ≢ some []

  pub IsView-resp :
      (key : Pet → K) (g h : K → Option Pets) (ids : Pets)
      → ((k : K) → g k ≡ h k)
      → IsView key h ids
      → IsView key g ids
  IsView-resp key g h ids e v = subst (λ f. IsView key f ids) (sym (fun_ext e)) v

  pub empty-IsView : (key : Pet → K) → IsView key (λ k. none) []
  unfolding lookup
  empty-IsView key = record { exact = λ k id. refl; maps = λ k v h. absurd (cc); full = λ k h. cc }

  find_in-added :
      (g : K → Option Pets) (k j : K) (p : Pet) (id : String)
      → find_in (added g k p) j id ≡ (if (k == j) && (p.id == id) then some p else find_in g j id)
  unfolding lookup
  find_in-added g k j p id =
      ground (arith, e.beq_iff k j, lookup-insert p.id id p (or_empty (g k)), Option-cases (g k))

  -- A delete from a map that keeps an entry, or the map's removal with its last one.
  find_in-removed :
      (g : K → Option Pets) (k j : K) (id i : String)
      → is_some (find_in g k id) ≡ true
      → find_in (removed g k id) j i ≡ (if (k == j) && (id == i) then none else find_in g j i)
  find_in-removed g k j id i h = elim (Option-cases (g k)) [
    | inl x ↦ absurd (ground arith)
    | inr (v, x) ↦ ground (arith, e.beq_iff k j, lookup-delete id i v, lookup-size_one id i v)
  ]

  module _ (key : Pet → K) (g : K → Option Pets) (ids : Pets) (v : IsView key g ids) where
    or_empty-IsGoMap : (k : K) → IsGoMap (or_empty (g k))
    or_empty-IsGoMap k = elim (Option-cases (g k)) [
      | inl x ↦ rw x (empty-IsGoMap Pet)
      | inr (w, x) ↦ rw x (v.maps k w x)
    ]

    added-maps : (p : Pet) (k : K) (w : Pets) → added g (key p) p k ≡ some w → IsGoMap w
    added-maps p k w h = elim (Bool-cases (key p == k)) [
      | inl b ↦
          let x : insert p.id p (or_empty (g (key p))) ≡ w = ground arith in
          subst IsGoMap x (insert-IsGoMap p.id p _ (or_empty-IsGoMap (key p)))
      | inr b ↦ v.maps k w (ground arith)
    ]

    removed-maps : (j k : K) (id : String) (w : Pets) → removed g j id k ≡ some w → IsGoMap w
    removed-maps j k id w h = elim (Bool-cases (j == k)) [
      | inl b ↦ elim (Option-cases (g j)) [
        | inl x ↦ absurd (ground arith)
        | inr (u, x) ↦
            let y : delete id u ≡ w = ground arith in
            subst IsGoMap y (delete-IsGoMap id u (v.maps j u x))
      ]
      | inr b ↦ v.maps k w (ground arith)
    ]

    -- A pet is put under its key. It is new to the store, or keeps the key that it had.
    pub added-IsView :
        (p : Pet)
        → ((q : Pet) → lookup p.id ids ≡ some q → key q ≡ key p)
        → IsView key (added g (key p) p) (insert p.id p ids)
    added-IsView p same = record {
      exact = λ k id. elim (Option-cases (lookup id ids)) [
        | inl x ↦
            ground
              (arith, find_in-added g (key p) k p id, lookup-insert p.id id p ids, v.exact k id)
        | inr (q, x) ↦ ground (
          arith,
          find_in-added g (key p) k p id,
          lookup-insert p.id id p ids,
          v.exact k id,
          same q,
          string_eq.beq_iff p.id id,
        )
      ];
      maps = added-maps p;
      full = λ k h. ground (arith, insert-ne-nil p.id p (or_empty (g (key p))), v.full k);
    }

    -- An id is taken from the index by the key of its pet.
    pub removed-IsView :
        (id : String) (p : Pet)
        → lookup id ids ≡ some p
        → IsView key (removed g (key p) id) (delete id ids)
    removed-IsView id p here = record {
      exact = λ k i. ground (
        arith,
        find_in-removed g (key p) k id i,
        lookup-delete id i ids,
        v.exact k i,
        v.exact (key p) id,
        beq_self (key p),
        string_eq.beq_iff id i,
        e.beq_iff (key p) k,
      );
      maps = λ k w. removed-maps (key p) k id w;
      full = λ k h. elim (Option-cases (g (key p))) [
        | inl x ↦ ground (arith, v.full k)
        | inr (u, x) ↦ ground (
          arith,
          v.full k,
          size-delete id u,
          v.maps (key p) u x id,
          v.exact (key p) id,
          beq_self (key p),
        )
      ];
    }
