-- ===== src/Petstore/Mem/Refines.antt =====
-- The store of mem.go as a map from ids to pets: what AddPets, UpdatePets and DeletePets promise,
-- without the lock and the indexes.
use gofordevopsclass.Prelude.{
  String, Bool, true, false, not, ◌||◌, if◌then◌else◌, string_eq, List, [], ◌∷◌, Option, none, some,
  is_some, contains, Option-cases, Bool-cases, ◌≡◌, refl, sym, ◌∙◌, inl, inr, arith,
}
use gofordevopsclass.GoMap.{lookup}
use gofordevopsclass.Petstore.Pet.{Pet, StorageError}
use gofordevopsclass.Petstore.Tree.{BirthdayTree}
use gofordevopsclass.Petstore.Mem.{
  Data, Outcome, done, failed, blocked, find_present, add_pets, update_pets, delete_pets,
}
use gofordevopsclass.Petstore.Mem.View.{Pets}
use gofordevopsclass.Petstore.Mem.Effects.{
  IsFree, AllAre, latest, Written, add_pets-Written, update_pets-Written, delete_pets_exact, Call,
  adds, updates, deletes, call, add_pets-done, update_pets-done,
}

-- A store in the abstract: the pet of each id.
abbrev pub PetMap : Type 0
PetMap = String → Option Pet

-- Some pet of a list is there, or some is not.
abbrev pub any_at : Bool → PetMap → List Pet → Bool
any_at want s [] = false
any_at want s (p ∷ ps) =
    (if want then is_some (s p.id) else not (is_some (s p.id))) || any_at want s ps

-- A call in the abstract: new pets must all be new, updated ones all be there, and ids may be
-- deleted in any case. none is a refusal.
unfoldable pub map_call : PetMap → Call → Option PetMap
map_call s (adds ps) = if any_at true s ps then none else some (λ id. latest id ps (s id))
map_call s (updates ps) = if any_at false s ps then none else some (λ id. latest id ps (s id))
map_call s (deletes ids) = some (λ id. if contains id ids then none else s id)

abbrev pub then_call {ℓ} : {A : Type ℓ} → Option A → (A → Option A) → Option A
then_call none f = none
then_call (some a) f = f a

-- A run of calls up to its end, or to a refusal.
unfoldable pub map_calls : PetMap → List Call → Option PetMap
map_calls s [] = some s
map_calls s (c ∷ cs) = then_call (map_call s c) (λ t. map_calls t cs)

any_at-same :
    (want : Bool) (s t : PetMap) (ps : List Pet)
    → ((id : String) → s id ≡ t id)
    → any_at want s ps ≡ any_at want t ps
any_at-same want s t [] e = refl
any_at-same want s t (p ∷ ps) e = ground (arith, e p.id, any_at-same want s t ps e)

find_present-any_at :
    (want : Bool) (ids : Pets) (ps : List Pet)
    → is_some (find_present want ids ps) ≡ any_at want (λ id. lookup id ids) ps
unfolding find_present
find_present-any_at want ids [] = refl
find_present-any_at want ids (p ∷ ps) = ground (arith, find_present-any_at want ids ps)

AllAre-any_at :
    (want : Bool) (ids : Pets) (ps : List Pet)
    → AllAre (not want) ids ps
    → any_at want (λ id. lookup id ids) ps ≡ false
AllAre-any_at want ids [] h = refl
AllAre-any_at want ids (p ∷ ps) h = ground (arith, AllAre-any_at want ids ps h.1)

latest_same :
    (id : String) (ps : List Pet) (o q : Option Pet) → o ≡ q → latest id ps o ≡ latest id ps q
latest_same id ps o q e = rw e refl

module _ (tree : BirthdayTree) where
  abbrev pub kept_if_done : Outcome (Unit {0}) × Data tree → Option (Data tree)
  kept_if_done (done u, d) = some d
  kept_if_done (failed e, d) = none
  kept_if_done (blocked, d) = none

  -- The same run on the store, up to a call that does not succeed.
  unfoldable pub store_calls : Data tree → List Call → Option (Data tree)
  unfolding call
  store_calls d [] = some d
  store_calls d (c ∷ cs) = then_call (kept_if_done (call tree d c)) (λ e. store_calls e cs)

  -- The lock of the store is free, and it has the pets of the map.
  abbrev pub IsLike : Data tree → PetMap → Type 0
  IsLike d s = IsFree d.mu × ((id : String) → lookup id d.ids ≡ s id)

  -- Both runs were refused, or both came to their ends, with the same pets.
  abbrev pub SameEnd : Option (Data tree) → Option PetMap → Type 0
  SameEnd none none = Unit {0}
  SameEnd none (some s) = ⊥
  SameEnd (some d) none = ⊥
  SameEnd (some d) (some s) = IsLike d s

  -- A checked write and its abstract step come to the same end.
  Written-SameEnd :
      (want : Bool) (e : Pet → StorageError) (d : Data tree) (s : PetMap) (ps : List Pet)
      (r : Outcome (Unit {0}) × Data tree)
      → IsLike d s
      → Written tree e want d ps r
      → (any_at want s ps ≡ false → r.0 ≡ done tt)
      → SameEnd
          (kept_if_done r)
          (if any_at want s ps then none else some (λ id. latest id ps (s id)))
  Written-SameEnd want e d s ps (done tt, d') l (inl (x, all, after, free)) k =
      let none_at : any_at want s ps ≡ false =
        any_at-same want s (λ id. lookup id d.ids) ps (λ id. sym (l.1 id))
        ∙ AllAre-any_at want d.ids ps all in
      rw none_at (free, λ id. after id ∙ latest_same id ps _ _ (l.1 id))
  Written-SameEnd want e d s ps (done tt, d') l (inr (p, x, y, z)) k = absurd (cc (x))
  Written-SameEnd want e d s ps (failed x, d') l w k = elim (Bool-cases (any_at want s ps)) [
    | inl y ↦ rw y tt
    | inr y ↦ absurd (cc (k y))
  ]
  Written-SameEnd want e d s ps (blocked, d') l w k = elim (Bool-cases (any_at want s ps)) [
    | inl y ↦ rw y tt
    | inr y ↦ absurd (cc (k y))
  ]

  -- The check finds nothing if the map has none of the pets that it looks for.
  nothing_found :
      (want : Bool) (d : Data tree) (s : PetMap) (ps : List Pet)
      → IsLike d s
      → any_at want s ps ≡ false
      → find_present want d.ids ps ≡ none
  nothing_found want d s ps l h = elim (Option-cases (find_present want d.ids ps)) [
    | inl x ↦ x
    | inr (p, x) ↦ absurd (
        ground (
          arith,
          find_present-any_at want d.ids ps,
          any_at-same want s (λ id. lookup id d.ids) ps (λ id. sym (l.1 id)),
        ))
  ]

  call_like :
      (d : Data tree) (s : PetMap) (c : Call)
      → IsLike d s
      → SameEnd (kept_if_done (call tree d c)) (map_call s c)
  unfolding call map_call
  call_like d s (adds ps) l =
      Written-SameEnd true _ d s ps (add_pets tree d ps) l (add_pets-Written tree d ps l.0)
        (λ h. add_pets-done tree d ps l.0 (nothing_found true d s ps l h))
  call_like d s (updates ps) l =
      Written-SameEnd false _ d s ps (update_pets tree d ps) l (update_pets-Written tree d ps l.0)
        (λ h. update_pets-done tree d ps l.0 (nothing_found false d s ps l h))
  call_like d s (deletes ids) l =
      deleted (delete_pets tree d ids) (delete_pets_exact tree d ids l.0)
    where
      deleted :
          (r : Outcome (Unit {0}) × Data tree)
          → (r.0 ≡ done tt)
            × ((i : String) → lookup i r.1.ids ≡ (if contains i ids then none else lookup i d.ids))
            × IsFree r.1.mu
          → SameEnd (kept_if_done r) (some (λ id. if contains id ids then none else s id))
      deleted (done tt, e) (x, y, z) = (z, λ id. ground (arith, y id, l.1 id))
      deleted (failed q, e) (x, y, z) = absurd (cc (x))
      deleted (blocked, e) (x, y, z) = absurd (cc (x))

  -- Any run of AddPets, UpdatePets and DeletePets, on a store whose lock is free: as long as a plain
  -- map from ids to pets takes the calls, each of them succeeds, and the store has the pets
  -- of the map; and the first call that the map refuses is the first that fails on the store.
  pub store_calls-map_calls :
      (d : Data tree) (s : PetMap) (cs : List Call)
      → IsFree d.mu
      → ((id : String) → lookup id d.ids ≡ s id)
      → SameEnd (store_calls d cs) (map_calls s cs)
  unfolding store_calls map_calls
  store_calls-map_calls d s [] f e = (f, e)
  store_calls-map_calls d s (c ∷ cs) f e =
      step (kept_if_done (call tree d c)) (map_call s c) (call_like d s c (f, e))
        (λ t u l. store_calls-map_calls t u cs l.0 l.1)
    where
      step :
          (o : Option (Data tree)) (q : Option PetMap)
          → SameEnd o q
          → ((t : Data tree) (u : PetMap)
              → IsLike t u
              → SameEnd (store_calls t cs) (map_calls u cs))
          → SameEnd (then_call o (λ t. store_calls t cs)) (then_call q (λ t. map_calls t cs))
      step none none l k = tt
      step (some t) (some u) l k = k t u l
      step none (some u) l k = absurd l
      step (some t) none l k = absurd l
