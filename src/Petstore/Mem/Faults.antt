-- ===== src/Petstore/Mem/Faults.antt =====
-- Inputs on which mem.go does not do what its comments say: a pet that changes its name, and a
-- name that is asked for twice.
use gofordevopsclass.Prelude.{
  ◌<◌, String, false, string_eq, nat_eq, [], ◌∷◌, ◌++◌, none, some, count, count-append,
  Option-cases, ◌≡◌, ◌≢◌, sym, inl, inr, arith, beq_self,
}
use gofordevopsclass.GoMap.{lookup, keys}
use gofordevopsclass.GoMap.Laws.{lookup-insert, count-lookup}
use gofordevopsclass.Petstore.Pet.{Pet, PetType, SearchPetsReq}
use gofordevopsclass.Petstore.Tree.{BirthdayTree}
use gofordevopsclass.Petstore.Mem.{
  Data, populate_pet, populate, delete_pet, delete_all, delete_pets, update_pets, filters, collect,
  by_names, by_types, ids_at, find_present, checked_populate, r_lock, can_lock, Index,
}
use gofordevopsclass.Petstore.Mem.View.{find_in}
use gofordevopsclass.Petstore.Mem.Invariant.{Inv, lookup-index_add, lookup-index_remove}
use gofordevopsclass.Petstore.Mem.Effects.{IsFree, delete_pets_exact}
use gofordevopsclass.Petstore.Mem.Counts.{count-collect, count-ids_at}
use gofordevopsclass.Petstore.Mem.Search.{wanted}

ids_at-find_in :
    (k id : String) (m : Index String) (r : Pet)
    → find_in (λ j. lookup j m) k id ≡ some r
    → 0 < count id (ids_at (k ∷ []) m)
unfolding ids_at
ids_at-find_in k id m r h = elim (Option-cases (lookup k m)) [
  | inl x ↦ absurd (ground arith)
  | inr (w, x) ↦ ground (arith, count-lookup id w, count-append id (keys w) [])
]

module _ (tree : BirthdayTree) where
  delete_pets_one :
      (d : Data tree) (id : String)
      → IsFree d.mu
      → (delete_pets tree d (id ∷ [])).1 ≡ delete_pet tree d id
  unfolding delete_pets can_lock delete_all
  delete_pets_one d id f = ground arith

  -- The index of names while `p` is renamed, and while it is then deleted: the old name keeps it.
  renamed_stays :
      (d : Data tree) (old p : Pet)
      → Inv tree d
      → lookup p.id d.ids ≡ some old
      → old.name ≢ p.name
      → find_in (λ k. lookup k (populate_pet tree d p).names) old.name p.id ≡ some old
  unfolding populate_pet
  renamed_stays d old p v x n = ground (
    arith,
    lookup-index_add p.name old.name p d.names,
    string_eq.beq_iff p.name old.name,
    v.by_name.exact old.name p.id,
    beq_self old.name,
  )

  deleted_stays :
      (d : Data tree) (k id : String) (q r : Pet)
      → lookup id d.ids ≡ some q
      → q.name ≢ k
      → find_in (λ j. lookup j d.names) k id ≡ some r
      → find_in (λ j. lookup j (delete_pet tree d id).names) k id ≡ some r
  unfolding delete_pet
  deleted_stays d k id q r x n h =
      ground (arith, lookup-index_remove q.name k id d.names, string_eq.beq_iff q.name k)

  -- UpdatePets with one pet.
  pub rename : Data tree → Pet → Data tree
  rename d p = (update_pets tree d (p ∷ [])).1

  rename_lem :
      (d : Data tree) (p old : Pet)
      → IsFree d.mu
      → lookup p.id d.ids ≡ some old
      → let e = populate_pet tree d p in
        (lookup p.id (rename d p).ids ≡ some p)
        × ((rename d p).names ≡ e.names)
        × IsFree (rename d p).mu
  unfolding rename update_pets checked_populate find_present populate populate_pet r_lock can_lock
  rename_lem d p old f x = ground (arith, lookup-insert p.id p.id p d.ids, beq_self p.id)

  -- On a well-formed store whose lock is free, UpdatePets gives a stored pet a new name, and
  -- DeletePets then deletes the pet. A search for the old name still finds its id, although the
  -- store has no such pet.
  pub renamed_then_deleted :
      (d : Data tree) (old p : Pet) (f : SearchPetsReq)
      → Inv tree d
      → IsFree d.mu
      → lookup p.id d.ids ≡ some old
      → old.name ≢ p.name
      → f.names ≡ old.name ∷ []
      → let e = (delete_pets tree (rename d p) (p.id ∷ [])).1 in
        (0 < count p.id (by_names tree e f)) × (lookup p.id e.ids ≡ none)
  unfolding by_names
  renamed_then_deleted d old p f v l x n h =
      let (a, b, c) = rename_lem d p old l x in
      let s1 = renamed_stays d old p v x n in
      let s2 : find_in (λ k. lookup k (rename d p).names) old.name p.id ≡ some old = ground arith in
      let s3 = deleted_stays (rename d p) old.name p.id p old a (λ y. n (sym y)) s2 in
      let gone = (delete_pets_exact tree (rename d p) (p.id ∷ []) c).1 p.id in
      (
        rw (h, delete_pets_one (rename d p) p.id c)
            (ids_at-find_in old.name p.id (delete_pet tree (rename d p) p.id).names old s3),
        ground (arith, gone, beq_self p.id),
      )

  -- A search of a well-formed store that gives the name of a pet twice and asks for one other
  -- type: the id of the pet is found once, although the pet does not match.
  pub doubled_name_matches :
      (d : Data tree) (p : Pet) (id : String) (t : PetType)
      → Inv tree d
      → lookup id d.ids ≡ some p
      → p.type ≢ t
      → let f : SearchPetsReq = record {
        names = p.name ∷ p.name ∷ [];
        types = t ∷ [];
        birthdate_range = none;
      } in
        (count id (collect (filters f) [] (by_names tree d f ++ by_types tree d f)) ≡ 1)
        × (wanted tree d f id ≡ false)
  unfolding by_names by_types filters lookup
  doubled_name_matches d p id t v x n = (
    ground (
      arith,
      count-collect 2 [] (ids_at (p.name ∷ p.name ∷ []) d.names ++ ids_at (t ∷ []) d.types) id,
      count-append id (ids_at (p.name ∷ p.name ∷ []) d.names) (ids_at (t ∷ []) d.types),
      count-ids_at (λ q. q.name) d.names d.ids v.by_name (p.name ∷ p.name ∷ []) id,
      count-ids_at (λ q. q.type) d.types d.ids v.by_type (t ∷ []) id,
      beq_self p.name,
    ),
    ground arith,
  )
