-- ===== src/Petstore/Mem/Invariant.antt =====
-- When the indexes of the store of mem.go agree with its map of ids.
use gofordevopsclass.Prelude.{
  String, Eq, string_eq, nat_eq, List, [], ◌∷◌, some, Option-cases, ◌≡◌, refl, inl, inr, arith,
  subst, sym,
}
use gofordevopsclass.GoMap.{lookup, insert, delete, IsGoMap}
use gofordevopsclass.GoMap.Laws.{
  lookup-insert, lookup-delete, empty-IsGoMap, insert-IsGoMap, delete-IsGoMap,
}
use gofordevopsclass.Petstore.Calendar.{Time, time_eq}
use gofordevopsclass.Petstore.Pet.{Pet}
use gofordevopsclass.Petstore.Tree.{BirthdayTree}
use gofordevopsclass.Petstore.Mem.{
  Data, Index, index_add, index_remove, birthday_add, birthday_remove, populate_pet, populate,
  delete_pet, delete_all, new, pet_time,
}
use gofordevopsclass.Petstore.Mem.View.{
  Pets, IsView, IsView-resp, empty-IsView, added, removed, added-IsView, removed-IsView,
}

-- A pet that keeps the keys of the pet that it replaces, if it replaces one.
pub record KeepsKeys (ids : Pets) (p : Pet) : Type 0 where
  pub name_kept : (q : Pet) → lookup p.id ids ≡ some q → q.name ≡ p.name
  pub type_kept : (q : Pet) → lookup p.id ids ≡ some q → q.type ≡ p.type
  pub birthday_kept : (q : Pet) → lookup p.id ids ≡ some q → pet_time q ≡ pet_time p

-- A run of writes, each of which keeps the keys of the pet that it replaces.
abbrev pub KeepKeys : Pets → List Pet → Type 0
KeepKeys ids [] = Unit {0}
KeepKeys ids (p ∷ ps) = KeepsKeys ids p × KeepKeys (insert p.id p ids) ps

insert_first : (p : Pet) → insert p.id p [] ≡ (p.id, p) ∷ []
unfolding insert
insert_first p = refl

module _ {K : Type 0} ⦃e : Eq K⦄ where
  pub lookup-index_add :
      (k j : K) (p : Pet) (m : Index K) → lookup j (index_add k p m) ≡ added (λ i. lookup i m) k p j
  unfolding index_add
  lookup-index_add k j p m = elim (Option-cases (lookup k m)) [
    | inl x ↦ ground (arith, insert_first p, lookup-insert k j ((p.id, p) ∷ []) m)
    | inr (v, x) ↦ ground (arith, lookup-insert k j (insert p.id p v) m)
  ]

  pub lookup-index_remove :
      (k j : K) (id : String) (m : Index K)
      → lookup j (index_remove k id m) ≡ removed (λ i. lookup i m) k id j
  unfolding index_remove
  lookup-index_remove k j id m = elim (Option-cases (lookup k m)) [
    | inl x ↦ ground (arith, e.beq_iff k j)
    | inr (v, x) ↦ ground (arith, lookup-insert k j (delete id v) m, lookup-delete k j m)
  ]

module _ (tree : BirthdayTree) where
  open tree use {Tree, get, get-insert, get-delete, get-replace}

  get-birthday_add :
      (p : Pet) (t : Time) (r : Tree)
      → get t (birthday_add tree p r) ≡ added (λ u. get u r) (pet_time p) p t
  unfolding birthday_add
  get-birthday_add p t r = elim (Option-cases (get (pet_time p) r)) [
    | inl x ↦ ground (arith, insert_first p, get-insert (pet_time p) t ((p.id, p) ∷ []) r)
    | inr (v, x) ↦ ground (arith, get-replace (pet_time p) t (insert p.id p v) r)
  ]

  get-birthday_remove :
      (p : Pet) (t : Time) (r : Tree)
      → get t (birthday_remove tree p r) ≡ removed (λ u. get u r) (pet_time p) p.id t
  unfolding birthday_remove
  get-birthday_remove p t r = elim (Option-cases (get (pet_time p) r)) [
    | inl x ↦ ground (arith, time_eq.beq_iff (pet_time p) t)
    | inr (v, x) ↦
        ground (arith, get-replace (pet_time p) t (delete p.id v) r, get-delete (pet_time p) t r)
  ]

  -- Each index holds exactly the pets of `ids`, and each pet stands under its own id.
  pub record Inv (d : Data tree) : Type 0 where
    pub ids_map : IsGoMap d.ids
    pub keyed : (id : String) (p : Pet) → lookup id d.ids ≡ some p → p.id ≡ id
    pub by_name : IsView (λ p. p.name) (λ k. lookup k d.names) d.ids
    pub by_type : IsView (λ p. p.type) (λ k. lookup k d.types) d.ids
    pub by_birthday : IsView pet_time (λ t. get t d.birthday) d.ids

  populate_pet-Inv :
      (d : Data tree) (p : Pet) → Inv d → KeepsKeys d.ids p → Inv (populate_pet tree d p)
  unfolding populate_pet
  populate_pet-Inv d p v k = record {
    ids_map = insert-IsGoMap p.id p d.ids v.ids_map;
    keyed = λ id q h.
        ground (arith, lookup-insert p.id id p d.ids, v.keyed id q, string_eq.beq_iff p.id id);
    by_name =
        IsView-resp _ _ _ _ (λ j. lookup-index_add p.name j p d.names)
          (added-IsView _ _ _ v.by_name p k.name_kept);
    by_type =
        IsView-resp _ _ _ _ (λ j. lookup-index_add p.type j p d.types)
          (added-IsView _ _ _ v.by_type p k.type_kept);
    by_birthday =
        IsView-resp _ _ _ _ (λ t. get-birthday_add p t d.birthday)
          (added-IsView _ _ _ v.by_birthday p k.birthday_kept);
  }

  delete_pet-Inv : (d : Data tree) (id : String) → Inv d → Inv (delete_pet tree d id)
  unfolding delete_pet
  delete_pet-Inv d id v = elim (Option-cases (lookup id d.ids)) [
    | inl x ↦ rw (x, delete_pet) v
    | inr (p, x) ↦
        rw (x, delete_pet)
          (record {
            ids_map = delete-IsGoMap id d.ids v.ids_map;
            keyed = λ i q h. ground (arith, lookup-delete id i d.ids, v.keyed i q);
            by_name =
                IsView-resp _ _ _ _ (λ j. lookup-index_remove p.name j id d.names)
                  (removed-IsView _ _ _ v.by_name id p x);
            by_type =
                IsView-resp _ _ _ _ (λ j. lookup-index_remove p.type j id d.types)
                  (removed-IsView _ _ _ v.by_type id p x);
            by_birthday =
                IsView-resp _ _ _ _ (λ t. get-birthday_remove p t d.birthday)
                  (subst
                    (λ i.
                      IsView pet_time (removed (λ u. get u d.birthday) (pet_time p) i)
                        (delete id d.ids))
                    (sym (v.keyed id p x)) (removed-IsView _ _ _ v.by_birthday id p x));
          })
  ]

  -- A new store is empty, and well formed.
  pub new-Inv : Inv (new tree)
  unfolding new lookup
  new-Inv = record {
    ids_map = empty-IsGoMap Pet;
    keyed = λ id p h. absurd (cc);
    by_name = IsView-resp _ _ _ _ (λ k. refl) (empty-IsView (λ p. p.name));
    by_type = IsView-resp _ _ _ _ (λ k. refl) (empty-IsView (λ p. p.type));
    by_birthday = IsView-resp _ _ _ _ (λ t. tree.get-empty t) (empty-IsView pet_time);
  }

  pub populate-Inv :
      (d : Data tree) (ps : List Pet) → Inv d → KeepKeys d.ids ps → Inv (populate tree d ps)
  unfolding populate populate_pet
  populate-Inv d [] v k = v
  populate-Inv d (p ∷ ps) v k =
      populate-Inv (populate_pet tree d p) ps (populate_pet-Inv d p v k.0) k.1

  pub delete_all-Inv : (d : Data tree) (ids : List String) → Inv d → Inv (delete_all tree d ids)
  unfolding delete_all
  delete_all-Inv d [] v = v
  delete_all-Inv d (id ∷ ids) v = delete_all-Inv (delete_pet tree d id) ids (delete_pet-Inv d id v)
