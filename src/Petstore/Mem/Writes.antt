-- ===== src/Petstore/Mem/Writes.antt =====
-- AddPets, UpdatePets and DeletePets of mem.go: what they do to the map of ids, and that they
-- keep the store well formed.
use gofordevopsclass.Prelude.{
  String, true, string_eq, List, [], ◌∷◌, Option, none, some, count, Option-cases, Bool-cases,
  IsDistinct, ◌≡◌, refl, inl, inr, arith, beq_self,
}
use gofordevopsclass.GoMap.{lookup, insert}
use gofordevopsclass.GoMap.Laws.{lookup-insert}
use gofordevopsclass.Petstore.Pet.{Pet, StorageError}
use gofordevopsclass.Petstore.Tree.{BirthdayTree}
use gofordevopsclass.Petstore.Mem.{
  Data, RwMutex, find_present, add_pets, update_pets, delete_pets, pet_ids, checked_populate,
  r_lock, r_unlock, can_lock,
}
use gofordevopsclass.Petstore.Mem.View.{Pets}
use gofordevopsclass.Petstore.Mem.Invariant.{Inv, KeepKeys, populate-Inv, delete_all-Inv}

-- No pet of the list is in the store.
abbrev pub AreNew : Pets → List Pet → Type 0
AreNew ids [] = Unit {0}
AreNew ids (p ∷ ps) = (lookup p.id ids ≡ none) × AreNew ids ps

find_present-AreNew : (ids : Pets) (ps : List Pet) → find_present true ids ps ≡ none → AreNew ids ps
unfolding find_present
find_present-AreNew ids [] h = tt
find_present-AreNew ids (p ∷ ps) h = ground (arith, find_present-AreNew ids ps)

pub AreNew-find_present :
    (ids : Pets) (ps : List Pet) → AreNew ids ps → find_present true ids ps ≡ none
unfolding find_present
AreNew-find_present ids [] h = refl
AreNew-find_present ids (p ∷ ps) h = ground (arith, AreNew-find_present ids ps h.1)

insert-AreNew :
    (ids : Pets) (p : Pet) (ps : List Pet)
    → count p.id (pet_ids ps) ≡ 0
    → AreNew ids ps
    → AreNew (insert p.id p ids) ps
insert-AreNew ids p [] c h = tt
insert-AreNew ids p (q ∷ ps) c h = (
  ground (
    arith,
    lookup-insert p.id q.id p ids,
    string_eq.beq_iff p.id q.id,
    string_eq.beq_iff q.id p.id,
  ),
  insert-AreNew ids p ps (omega arith) h.1,
)

AreNew-KeepKeys :
    (ids : Pets) (ps : List Pet) → IsDistinct (pet_ids ps) → AreNew ids ps → KeepKeys ids ps
AreNew-KeepKeys ids [] u h = tt
AreNew-KeepKeys ids (p ∷ ps) u h = (
  record {
    name_kept = λ q x. absurd (cc h.0);
    type_kept = λ q x. absurd (cc h.0);
    birthday_kept = λ q x. absurd (cc h.0);
  },
  AreNew-KeepKeys (insert p.id p ids) ps (λ a. omega (arith, u a))
      (insert-AreNew ids p ps (ground (arith, u p.id, beq_self p.id)) h.1),
)

module _ (tree : BirthdayTree) where
  mu-Inv : (d : Data tree) (m : RwMutex) → Inv tree d → Inv tree (record d { mu = m })
  mu-Inv d m v = record {
    ids_map = v.ids_map;
    keyed = v.keyed;
    by_name = v.by_name;
    by_type = v.by_type;
    by_birthday = v.by_birthday;
  }

  checked_populate-Inv :
      (d : Data tree) (e : Pet → StorageError) (o : Option Pet) (m : RwMutex) (ps : List Pet)
      → Inv tree d
      → (o ≡ none → KeepKeys d.ids ps)
      → Inv tree (checked_populate tree e o m d ps).1
  unfolding checked_populate
  checked_populate-Inv d e (some p) m ps v k = mu-Inv d m v
  checked_populate-Inv d e none m ps v k = elim (Bool-cases (can_lock (r_unlock m))) [
    | inl x ↦ rw x (populate-Inv tree _ ps (mu-Inv d _ v) (k refl))
    | inr x ↦ rw x (mu-Inv d _ v)
  ]

  -- AddPets keeps the store well formed, whatever it returns, if no two of the new pets share an
  -- id.
  pub add_pets-Inv :
      (d : Data tree) (ps : List Pet)
      → Inv tree d
      → IsDistinct (pet_ids ps)
      → Inv tree (add_pets tree d ps).1
  unfolding add_pets
  add_pets-Inv d ps v u = elim (Option-cases (r_lock d.mu)) [
    | inl w ↦ rw (w, add_pets) v
    | inr (m, w) ↦
        rw (w, add_pets)
          (checked_populate-Inv d _ _ m ps v
            (λ h. AreNew-KeepKeys d.ids ps u (find_present-AreNew d.ids ps h)))
  ]

  -- UpdatePets keeps the store well formed, whatever it returns, if each pet keeps the name, the
  -- type and the birthday that it has.
  pub update_pets-Inv :
      (d : Data tree) (ps : List Pet)
      → Inv tree d
      → KeepKeys d.ids ps
      → Inv tree (update_pets tree d ps).1
  unfolding update_pets
  update_pets-Inv d ps v u = elim (Option-cases (r_lock d.mu)) [
    | inl w ↦ rw (w, update_pets) v
    | inr (m, w) ↦ rw (w, update_pets) (checked_populate-Inv d _ _ m ps v (λ h. u))
  ]

  -- DeletePets keeps the store well formed, for any ids.
  pub delete_pets-Inv :
      (d : Data tree) (ids : List String) → Inv tree d → Inv tree (delete_pets tree d ids).1
  unfolding delete_pets
  delete_pets-Inv d ids v = elim (Bool-cases (can_lock d.mu)) [
    | inl w ↦ rw w (delete_all-Inv tree d ids v)
    | inr w ↦ rw w (mu-Inv d _ v)
  ]
