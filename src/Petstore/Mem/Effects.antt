-- ===== src/Petstore/Mem/Effects.antt =====
-- What AddPets, UpdatePets and DeletePets of mem.go return and store, on every branch, and what
-- the read lock that a refused call keeps does to the calls after it.
use gofordevopsclass.Prelude.{
  ◌+◌, ◌≤◌, String, Bool, true, false, not, if◌then◌else◌, ◌==◌, string_eq, List, [], ◌∷◌, Option,
  none, some, is_some, contains, Option-cases, ◌≡◌, refl, inl, inr, arith, ◌⊎◌, ◌≢◌,
}
use gofordevopsclass.GoMap.{lookup}
use gofordevopsclass.GoMap.Laws.{lookup-insert, lookup-delete}
use gofordevopsclass.Petstore.Pet.{Pet, StorageError, already_present, doesnt_exist}
use gofordevopsclass.Petstore.Tree.{BirthdayTree}
use gofordevopsclass.Petstore.Mem.{
  Data, RwMutex, Outcome, done, failed, populate_pet, populate, find_present, add_pets, update_pets,
  delete_pet, delete_all, delete_pets, checked_populate, r_lock, can_lock,
}
use gofordevopsclass.Petstore.Mem.View.{Pets}

-- What the map of ids holds after a list of writes, the last write to an id first.
abbrev pub latest : String → List Pet → Option Pet → Option Pet
latest id [] o = o
latest id (p ∷ ps) o = latest id ps (if p.id == id then some p else o)

-- The lock is free: no reader is in, and no writer waits.
abbrev pub IsFree : RwMutex → Type 0
IsFree m = (m.readers ≡ 0) × (m.writer_waits ≡ false)

-- Every pet of the list is in the store, or none is.
abbrev pub AllAre : Bool → Pets → List Pet → Type 0
AllAre b ids [] = Unit {0}
AllAre b ids (p ∷ ps) = (is_some (lookup p.id ids) ≡ b) × AllAre b ids ps

find_present-none :
    (b : Bool) (ids : Pets) (ps : List Pet) → find_present b ids ps ≡ none → AllAre (not b) ids ps
unfolding find_present
find_present-none b ids [] h = tt
find_present-none b ids (p ∷ ps) h = ground (arith, find_present-none b ids ps)

find_present-some :
    (b : Bool) (ids : Pets) (ps : List Pet) (p : Pet)
    → find_present b ids ps ≡ some p
    → is_some (lookup p.id ids) ≡ b
unfolding find_present
find_present-some b ids [] p h = absurd (cc)
find_present-some b ids (q ∷ ps) p h = ground (arith, find_present-some b ids ps p)

pub free-r_lock : (m : RwMutex) → IsFree m → (m' : RwMutex) × (r_lock m ≡ some m')
unfolding r_lock
free-r_lock m f = (record { readers = m.readers + 1; writer_waits = m.writer_waits }, ground arith)

module _ (tree : BirthdayTree) where
  populate_ids :
      (d : Data tree) (ps : List Pet) (id : String)
      → lookup id (populate tree d ps).ids ≡ latest id ps (lookup id d.ids)
  unfolding populate populate_pet
  populate_ids d [] id = refl
  populate_ids d (p ∷ ps) id =
      ground (arith, populate_ids (populate_pet tree d p) ps id, lookup-insert p.id id p d.ids)

  populate_mu : (d : Data tree) (ps : List Pet) → (populate tree d ps).mu ≡ d.mu
  unfolding populate populate_pet
  populate_mu d [] = refl
  populate_mu d (p ∷ ps) = populate_mu (populate_pet tree d p) ps

  -- A write either stores every pet or refuses one, and then changes nothing but the lock: the
  -- read lock stays taken.
  abbrev pub Written :
      (Pet → StorageError) → Bool → Data tree → List Pet → Outcome (Unit {0}) × Data tree → Type 0
  Written e want d ps (o, d') =
      ((o ≡ done tt)
        × AllAre (not want) d.ids ps
        × ((id : String) → lookup id d'.ids ≡ latest id ps (lookup id d.ids))
        × IsFree d'.mu)
      ⊎ ((p : Pet) × (o ≡ failed (e p))
          × (is_some (lookup p.id d.ids) ≡ want)
          × (d' ≡ record d { mu = record { readers = 1; writer_waits = false } }))

  checked_populate-Written :
      (d : Data tree) (e : Pet → StorageError) (want : Bool) (ps : List Pet) (m : RwMutex)
      → IsFree d.mu
      → r_lock d.mu ≡ some m
      → Written e want d ps (checked_populate tree e (find_present want d.ids ps) m d ps)
  unfolding checked_populate r_lock can_lock
  checked_populate-Written d e want ps m f l = elim (Option-cases (find_present want d.ids ps)) [
    | inl x ↦
        let free : m ≡ record { readers = 1; writer_waits = false } = ground arith in
        rw (x, free, checked_populate)
          (inl (
            refl,
            find_present-none want d.ids ps x,
            populate_ids (record d { mu = record { readers = 0; writer_waits = false } }) ps,
            rw (populate_mu (record d { mu = record { readers = 0; writer_waits = false } }) ps)
                (refl, refl),
          ))
    | inr (p, x) ↦
        let free : m ≡ record { readers = 1; writer_waits = false } = ground arith in
        rw (x, free, checked_populate) (inr (p, refl, find_present-some want d.ids ps p x, refl))
  ]

  -- AddPets on a free lock: it stores every pet if none of the ids is taken, and then gives the
  -- lock back; or it refuses a pet whose id is taken, stores nothing, and keeps the read lock.
  pub add_pets-Written :
      (d : Data tree) (ps : List Pet)
      → IsFree d.mu
      → Written (λ p. already_present p.id) true d ps (add_pets tree d ps)
  unfolding add_pets
  add_pets-Written d ps f =
      let (m, l) = free-r_lock d.mu f in
      rw (l, add_pets) (checked_populate-Written d _ true ps m f l)

  -- On a free lock, pets with new ids are stored, and a pet with an unknown id is not updated.
  pub add_pets-done :
      (d : Data tree) (ps : List Pet)
      → IsFree d.mu
      → find_present true d.ids ps ≡ none
      → (add_pets tree d ps).0 ≡ done tt
  unfolding add_pets checked_populate r_lock can_lock
  add_pets-done d ps f n = ground arith

  pub update_pets-done :
      (d : Data tree) (ps : List Pet)
      → IsFree d.mu
      → find_present false d.ids ps ≡ none
      → (update_pets tree d ps).0 ≡ done tt
  unfolding update_pets checked_populate r_lock can_lock
  update_pets-done d ps f n = ground arith

  pub update_pets_unknown :
      (d : Data tree) (p : Pet)
      → IsFree d.mu
      → lookup p.id d.ids ≡ none
      → ((update_pets tree d (p ∷ [])).0 ≡ failed (doesnt_exist p.id))
        × (1 ≤ (update_pets tree d (p ∷ [])).1.mu.readers)
  unfolding update_pets checked_populate r_lock can_lock find_present
  update_pets_unknown d p f n = ground arith

  -- UpdatePets on a free lock: it stores every pet if all of the ids are in the store, and then gives
  -- the lock back; or it refuses a pet whose id is missing, stores nothing, and keeps the read lock.
  pub update_pets-Written :
      (d : Data tree) (ps : List Pet)
      → IsFree d.mu
      → Written (λ p. doesnt_exist p.id) false d ps (update_pets tree d ps)
  unfolding update_pets
  update_pets-Written d ps f =
      let (m, l) = free-r_lock d.mu f in
      rw (l, update_pets) (checked_populate-Written d _ false ps m f l)

  delete_pet_ids :
      (d : Data tree) (id i : String)
      → lookup i (delete_pet tree d id).ids ≡ (if id == i then none else lookup i d.ids)
  unfolding delete_pet
  delete_pet_ids d id i = ground (arith, lookup-delete id i d.ids, string_eq.beq_iff id i)

  delete_all_ids :
      (d : Data tree) (ids : List String) (i : String)
      → lookup i (delete_all tree d ids).ids ≡ (if contains i ids then none else lookup i d.ids)
  unfolding delete_all
  delete_all_ids d [] i = refl
  delete_all_ids d (id ∷ ids) i =
      ground (arith, delete_all_ids (delete_pet tree d id) ids i, delete_pet_ids d id i)

  delete_all_mu : (d : Data tree) (ids : List String) → (delete_all tree d ids).mu ≡ d.mu
  unfolding delete_all delete_pet
  delete_all_mu d [] = refl
  delete_all_mu d (id ∷ ids) = ground (arith, delete_all_mu (delete_pet tree d id) ids)

  -- DeletePets on a free lock never fails. Afterwards exactly the listed ids are gone, ids that
  -- were not there are passed over, and the lock is free.
  pub delete_pets_exact :
      (d : Data tree) (ids : List String)
      → IsFree d.mu
      → ((delete_pets tree d ids).0 ≡ done tt)
        × ((i : String)
            → lookup i (delete_pets tree d ids).1.ids
              ≡ (if contains i ids then none else lookup i d.ids))
        × IsFree (delete_pets tree d ids).1.mu
  unfolding delete_pets can_lock
  delete_pets_exact d ids f =
      let free : can_lock d.mu ≡ true = ground arith in
      rw (free, delete_pets) (refl, delete_all_ids d ids, rw (delete_all_mu d ids) f)

-- The calls that clients make, one after another.
pub data Call : Type 0 where
  adds updates : List Pet → Call
  deletes : List String → Call

module _ (tree : BirthdayTree) where
  unfoldable pub call : Data tree → Call → Outcome (Unit {0}) × Data tree
  call d (adds ps) = add_pets tree d ps
  call d (updates ps) = update_pets tree d ps
  call d (deletes ids) = delete_pets tree d ids

  unfoldable pub calls : Data tree → List Call → Data tree
  calls d [] = d
  calls d (c ∷ cs) = calls (call d c).1 cs

  -- A read lock is out.
  abbrev pub IsLeaky : Data tree → Type 0
  IsLeaky d = 1 ≤ d.mu.readers

  checked_populate-IsLeaky :
      (d : Data tree) (e : Pet → StorageError) (o : Option Pet) (ps : List Pet) (m : RwMutex)
      → IsLeaky d
      → r_lock d.mu ≡ some m
      → IsLeaky (checked_populate tree e o m d ps).1
        × ((checked_populate tree e o m d ps).0 ≢ done tt)
  unfolding checked_populate r_lock can_lock
  checked_populate-IsLeaky d e (some p) ps m h l = ground arith
  checked_populate-IsLeaky d e none ps m h l = ground arith

  pub call-IsLeaky :
      (d : Data tree) (c : Call) → IsLeaky d → IsLeaky (call d c).1 × ((call d c).0 ≢ done tt)
  unfolding call add_pets update_pets delete_pets can_lock
  call-IsLeaky d (adds ps) h = elim (Option-cases (r_lock d.mu)) [
    | inl x ↦ rw (x, call, add_pets) (h, λ e. cc)
    | inr (m, x) ↦ rw (x, call, add_pets) (checked_populate-IsLeaky d _ _ ps m h x)
  ]
  call-IsLeaky d (updates ps) h = elim (Option-cases (r_lock d.mu)) [
    | inl x ↦ rw (x, call, update_pets) (h, λ e. cc)
    | inr (m, x) ↦ rw (x, call, update_pets) (checked_populate-IsLeaky d _ _ ps m h x)
  ]
  call-IsLeaky d (deletes ids) h = ground arith

  calls-IsLeaky : (d : Data tree) (cs : List Call) → IsLeaky d → IsLeaky (calls d cs)
  unfolding calls
  calls-IsLeaky d [] h = h
  calls-IsLeaky d (c ∷ cs) h = calls-IsLeaky (call d c).1 cs (call-IsLeaky d c h).0

  -- Once AddPets, on a free lock, has refused a pet, no later AddPets, UpdatePets or DeletePets
  -- succeeds, whatever calls come between.
  pub refused_add_jams :
      (d : Data tree) (ps : List Pet) (p : Pet)
      → IsFree d.mu
      → (add_pets tree d ps).0 ≡ failed (already_present p.id)
      → (cs : List Call) (c : Call) → (call (calls (add_pets tree d ps).1 cs) c).0 ≢ done tt
  refused_add_jams d ps p f r cs c = (call-IsLeaky _ c (calls-IsLeaky _ cs leaky)).1
    where
      leaky : IsLeaky (add_pets tree d ps).1
      leaky = elim (add_pets-Written tree d ps f) [
        | inl w ↦ absurd (cc w.0)
        | inr (q, a, b, e) ↦ rw e (omega arith)
      ]
