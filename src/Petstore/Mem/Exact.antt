-- ===== src/Petstore/Mem/Exact.antt =====
-- What SearchPets of mem.go sends, against the pets that match.
use mathlib.Core.List.{Perm}
use gofordevopsclass.Prelude.{
  ◌<◌, String, Bool, true, false, nat_beq, string_eq, nat_eq, List, [], ◌∷◌, map, Option, none,
  some, is_some, one_if, count, concat, Option-cases, IsDistinct, ◌≡◌, refl, inl, inr, arith,
  beq_self,
}
use gofordevopsclass.GoMap.{lookup, values}
use gofordevopsclass.Petstore.Pet.{Pet, SearchPetsReq}
use gofordevopsclass.Petstore.Tree.{BirthdayTree}
use gofordevopsclass.Petstore.Mem.{
  Data, done, pet_ids, filters, collect, send_items, search_results, search_pets,
}
use gofordevopsclass.Petstore.Mem.Invariant.{Inv}
use gofordevopsclass.Petstore.Mem.Effects.{IsFree, free-r_lock}
use gofordevopsclass.Petstore.Mem.Counts.{count-collect, count-concat-perm, pet_ids-keys}
use gofordevopsclass.Petstore.Mem.Search.{matches, wanted, IsRange, results_count, crosses}

-- Every item is a pet, never nil, and the pet has the property.
abbrev pub AllPets : (Pet → Bool) → List (Option Pet) → Type 0
AllPets t [] = Unit {0}
AllPets t (none ∷ os) = ⊥
AllPets t (some p ∷ os) = (t p ≡ true) × AllPets t os

module _ (tree : BirthdayTree) where
  send_items-AllPets :
      (d : Data tree) (f : SearchPetsReq) (ids : List String)
      → ((id : String) → 0 < count id ids → wanted tree d f id ≡ true)
      → AllPets (matches f) (send_items tree d ids)
  unfolding send_items
  send_items-AllPets d f [] h = tt
  send_items-AllPets d f (id ∷ ids) h = elim (Option-cases (lookup id d.ids)) [
    | inl x ↦ absurd (ground (arith, h id, beq_self id))
    | inr (p, x) ↦
        rw x
          (ground (arith, h id, beq_self id), send_items-AllPets d f ids (λ i n. h i (omega arith)))
  ]

  search_count :
      (d : Data tree) (f : SearchPetsReq) (rs arrivals : List (List String))
      → Inv tree d
      → IsDistinct f.names
      → IsDistinct f.types
      → IsRange f.birthdate_range
      → search_results tree d f ≡ some rs
      → Perm arrivals rs
      → 0 < filters f
      → (id : String)
      → count id (collect (filters f) [] (concat arrivals)) ≡ one_if (wanted tree d f id)
  unfolding lookup
  search_count d f rs arrivals v dn dt dr e p n id = ground (
    arith,
    count-collect (filters f) [] (concat arrivals) id,
    count-concat-perm id p,
    results_count tree d f rs v dr e id,
    crosses tree d f id v dn dt (lookup id d.ids) refl n,
  )

  -- A search with a filter, over a well-formed store whose lock is free. No name and no type is
  -- asked for twice, and a range starts before it ends. Whatever the order in which the three
  -- searches arrive, the ids of exactly the pets that match every filter are found, each once, and
  -- what is sent are the pets of these ids, never nil.
  pub search_pets_exact :
      (d : Data tree) (f : SearchPetsReq) (rs arrivals : List (List String))
      → Inv tree d
      → IsFree d.mu
      → IsDistinct f.names
      → IsDistinct f.types
      → IsRange f.birthdate_range
      → search_results tree d f ≡ some rs
      → Perm arrivals rs
      → 0 < filters f
      → (ids : List String) × (search_pets tree d f arrivals ≡ done (send_items tree d ids))
        × ((id : String) → count id ids ≡ one_if (wanted tree d f id))
        × AllPets (matches f) (send_items tree d ids)
  unfolding search_pets
  search_pets_exact d f rs arrivals v l dn dt dr e p n =
      let (m, x) = free-r_lock d.mu l in
      let counts : (id : String)
          → count id (collect (filters f) [] (concat arrivals)) ≡ one_if (wanted tree d f id) =
        search_count d f rs arrivals v dn dt dr e p n in
      let some_filter : nat_beq (filters f) 0 ≡ false = ground arith in
      (
        collect (filters f) [] (concat arrivals),
        rw (x, search_pets, some_filter) refl,
        counts,
        send_items-AllPets d f _ (λ id h. ground (arith, counts id)),
      )

  -- Without a filter, over a well-formed store whose lock is free, every pet of the store is sent,
  -- each once.
  pub search_pets_all :
      (d : Data tree) (f : SearchPetsReq) (arrivals : List (List String))
      → Inv tree d
      → IsFree d.mu
      → filters f ≡ 0
      → (ps : List Pet) × (search_pets tree d f arrivals ≡ done (map some ps))
        × ((id : String) → count id (pet_ids ps) ≡ one_if (is_some (lookup id d.ids)))
  unfolding search_pets
  search_pets_all d f arrivals v l n =
      let (m, x) = free-r_lock d.mu l in
      (
        values d.ids,
        rw (x, search_pets, n) refl,
        λ id. rw (pet_ids-keys d.ids v.ids_map v.keyed) (v.ids_map id),
      )
