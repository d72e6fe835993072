-- ===== src/Petstore/Mem.antt =====
-- petstore/server/storage/mem/mem.go: the in-memory store.
-- Its contexts are not cancelled. A call runs to its end before the next one starts, which the
-- write lock gives; what a call leaves of the lock is part of the state.
pub mod View
pub mod Invariant
pub mod Writes
pub mod Effects
pub mod Counts
pub mod Search
pub mod Exact
pub mod Faults
pub mod Refines
use gofordevopsclass.Prelude.{
  ℕ, ◌+◌, ◌-◌, map, String, Bool, true, false, ◌&&◌, ◌||◌, not, if◌then◌else◌, nat_beq, ltb, ◌==◌,
  Eq, nat_eq, string_eq, List, [], ◌∷◌, ◌++◌, Option, none, some, is_some, concat, length,
}
use gofordevopsclass.GoMap.{GoMap, lookup, insert, delete, keys, values, size}
use gofordevopsclass.Petstore.Calendar.{Date, Time, time_eq, time_or_zero, before, equal}
use gofordevopsclass.Petstore.Pet.{
  Pet, PetType, SearchPetsReq, DateRange, StorageError, already_present, doesnt_exist,
}
use gofordevopsclass.Petstore.Tree.{BirthdayTree, Birthdays}

-- The sign that Compare returns: -1, 0, 1.
pub data Sign : Type 0 where
  less same more : Sign

unfoldable pub compare_times : Time → Time → Sign
compare_times a b = if before a b then less else if equal a b then same else more

-- BirthdayToTime(nil, p.Birthday), its error ignored.
abbrev pub pet_time : Pet → Time
pet_time p = time_or_zero p.birthday

-- birthdays.Compare reads the birthday of any pet of each map; with none there, it dereferences nil.
unfoldable pub compare_birthdays : Birthdays → Birthdays → Option Sign
compare_birthdays ((i, p) ∷ a) ((j, q) ∷ b) = some (compare_times (pet_time p) (pet_time q))
compare_birthdays _ _ = none

-- birthdayGet.Compare, against another birthdayGet and against an item.
unfoldable pub compare_get : Pet → Pet → Sign
compare_get p q = compare_times (pet_time p) (pet_time q)

unfoldable pub compare_get_item : Pet → Birthdays → Option Sign
compare_get_item p [] = none
compare_get_item p ((j, q) ∷ b) = some (compare_times (pet_time p) (pet_time q))

-- A map of maps, as the fields names and types are.
abbrev pub Index : Type 0 → Type 0
Index K = GoMap K (GoMap String Pet)

module _ {K : Type 0} ⦃e : Eq K⦄ where
  -- if v, ok := m[k]; ok { v[p.Id] = p } else { m[k] = map[string]*pb.Pet{p.Id: p} }
  unfoldable pub index_add : K → Pet → Index K → Index K
  index_add k p m = elim (lookup k m) [
    | some v ↦ insert k (insert p.id p v) m
    | none ↦ insert k ((p.id, p) ∷ []) m
  ]

  -- if v, ok := m[k]; ok { if len(v) == 1 { delete(m, k) } else { delete(v, id) } }
  unfoldable pub index_remove : K → String → Index K → Index K
  index_remove k id m = elim (lookup k m) [
    | some v ↦ if nat_beq (size v) 1 then delete k m else insert k (delete id v) m
    | none ↦ m
  ]

  -- for _, n := range ks { p, ok := m[n]; if !ok { continue }; for id := range p { append } }
  unfoldable pub ids_at : List K → Index K → List String
  ids_at [] m = []
  ids_at (k ∷ ks) m = elim (lookup k m) [ some v ↦ keys v ++ ids_at ks m | none ↦ ids_at ks m ]

-- sync.RWMutex between two calls: read locks that were not given back, and whether a writer waits
-- for them, which keeps new readers out too.
pub record RwMutex : Type 0 where
  pub readers : ℕ
  pub writer_waits : Bool

-- How a call on the store ends; `blocked` is a call that waits for the lock forever.
pub data Outcome {ℓ} (A : Type ℓ) : Type ℓ where
  done : A → Outcome A
  failed : StorageError → Outcome A
  blocked : Outcome A

-- RLock; a waiting writer keeps readers out. none: the caller waits forever.
unfoldable pub r_lock : RwMutex → Option RwMutex
r_lock m = if m.writer_waits then none else some (record m { readers = m.readers + 1 })

abbrev pub r_unlock : RwMutex → RwMutex
r_unlock m = record m { readers = m.readers - 1 }

-- Lock goes through when no read lock is out; else it waits, and says so.
unfoldable pub can_lock : RwMutex → Bool
can_lock m = nat_beq m.readers 0 && not m.writer_waits

abbrev pub writer_waiting : RwMutex → RwMutex
writer_waiting m = record m { writer_waits = true }

-- The first pet whose id stands in the store (AddPets), or does not (UpdatePets).
unfoldable pub find_present : Bool → GoMap String Pet → List Pet → Option Pet
find_present want ids [] = none
find_present want ids (p ∷ ps) =
    let rest = find_present want ids ps in
    let found = is_some (lookup p.id ids) in
    if (want && found) || (not want && not found) then some p else rest

-- for _, p := range item { ids = append(ids, p.Id) }
abbrev pub pet_ids : List Pet → List String
pet_ids [] = []
pet_ids (p ∷ ps) = p.id ∷ pet_ids ps

abbrev pub item_ids : List Birthdays → List String
item_ids [] = []
item_ids (b ∷ bs) = pet_ids (values b) ++ item_ids bs

-- How many of the three filters a request sets.
unfoldable pub filters : SearchPetsReq → ℕ
filters f =
    (if nat_beq (length f.names) 0 then 0 else 1)
    + (if nat_beq (length f.types) 0 then 0 else 1)
    + (if is_some f.birthdate_range then 1 else 0)

-- count := m[id], which is 0 for a missing id.
abbrev pub counted : String → GoMap String ℕ → ℕ
counted id m = elim (lookup id m) [ none ↦ 0 | some c ↦ c ]

-- The goroutine that counts the ids of all searches in `m`, and sends an id to matchCh when its
-- count hits the number of filters.
unfoldable pub collect : ℕ → GoMap String ℕ → List String → List String
collect n m [] = []
collect n m (id ∷ ids) =
    let c = counted id m + 1 in
    let rest = collect n (insert id c m) ids in if nat_beq c n then id ∷ rest else rest

module _ (tree : BirthdayTree) where
  open tree use {Tree, empty, get, replace, do_range}

  pub record Data : Type 0 where
    pub mu : RwMutex
    pub birthday : Tree
    pub names : Index String
    pub ids : GoMap String Pet
    pub types : Index PetType

  unfoldable pub new : Data
  new = record {
    mu = record { readers = 0; writer_waits = false };
    birthday = empty;
    names = [];
    ids = [];
    types = [];
  }

  -- v := d.birthday.Get(birthdayGet{p}); if v == nil { Insert } else { v.(birthdays)[p.Id] = p }
  unfoldable pub birthday_add : Pet → Tree → Tree
  birthday_add p r = elim (get (pet_time p) r) [
    | none ↦ tree.insert (pet_time p) ((p.id, p) ∷ []) r
    | some v ↦ replace (pet_time p) (insert p.id p v) r
  ]

  -- The end of the loop of DeletePets. The write to a map that has left the tree changes nothing.
  unfoldable pub birthday_remove : Pet → Tree → Tree
  birthday_remove p r = elim (get (pet_time p) r) [
    | none ↦ r
    | some v ↦
        if nat_beq (size v) 1
        then tree.delete (pet_time p) r
        else replace (pet_time p) (delete p.id v) r
  ]

  unfoldable pub populate_pet : Data → Pet → Data
  populate_pet d p = record d {
    ids = insert p.id p d.ids;
    names = index_add p.name p d.names;
    types = index_add p.type p d.types;
    birthday = birthday_add p d.birthday;
  }

  unfoldable pub populate : Data → List Pet → Data
  populate d [] = d
  populate d (p ∷ ps) = populate (populate_pet d p) ps

  -- The check of AddPets and UpdatePets under RLock, with what is behind it: RUnlock, Lock,
  -- populate, Unlock. The return from the loop of the check leaves the read lock taken.
  unfoldable pub checked_populate :
      (Pet → StorageError) → Option Pet → RwMutex → Data → List Pet → Outcome (Unit {0}) × Data
  checked_populate e (some p) mu d ps = (failed (e p), record d { mu = mu })
  checked_populate e none mu d ps =
      let mu' = r_unlock mu in
      if can_lock mu'
      then (done tt, populate (record d { mu = mu' }) ps)
      else (blocked, record d { mu = writer_waiting mu' })

  unfoldable pub add_pets : Data → List Pet → Outcome (Unit {0}) × Data
  unfolding checked_populate
  add_pets d ps = elim (r_lock d.mu) [
    | none ↦ (blocked, d)
    | some mu ↦ checked_populate (λ p. already_present p.id) (find_present true d.ids ps) mu d ps
  ]

  unfoldable pub update_pets : Data → List Pet → Outcome (Unit {0}) × Data
  unfolding checked_populate
  update_pets d ps = elim (r_lock d.mu) [
    | none ↦ (blocked, d)
    | some mu ↦ checked_populate (λ p. doesnt_exist p.id) (find_present false d.ids ps) mu d ps
  ]

  -- One round of the loop of DeletePets.
  unfoldable pub delete_pet : Data → String → Data
  delete_pet d id = elim (lookup id d.ids) [
    | none ↦ d
    | some p ↦ record d {
      ids = delete id d.ids;
      names = index_remove p.name id d.names;
      types = index_remove p.type id d.types;
      birthday = birthday_remove p d.birthday;
    }
  ]

  unfoldable pub delete_all : Data → List String → Data
  delete_all d [] = d
  delete_all d (id ∷ ids) = delete_all (delete_pet d id) ids

  unfoldable pub delete_pets : Data → List String → Outcome (Unit {0}) × Data
  delete_pets d ids =
      if can_lock d.mu
      then (done tt, delete_all d ids)
      else (blocked, record d { mu = writer_waiting d.mu })

  unfoldable pub by_names : Data → SearchPetsReq → List String
  by_names d f = ids_at f.names d.names

  unfoldable pub by_types : Data → SearchPetsReq → List String
  by_types d f = ids_at f.types d.types

  -- none is the panic of DoRange.
  unfoldable pub by_birthdays : Data → SearchPetsReq → Option (List String)
  by_birthdays d f = elim f.birthdate_range [
    | none ↦ some []
    | some r ↦ elim (do_range (time_or_zero r.start) (time_or_zero r.end) d.birthday) [
      | none ↦ none
      | some items ↦ some (item_ids items)
    ]
  ]

  -- What `out` receives for a list of matches: d.ids[id], nil for an id that is not there.
  unfoldable pub send_items : Data → List String → List (Option Pet)
  send_items d [] = []
  send_items d (id ∷ ids) = lookup id d.ids ∷ send_items d ids

  -- The results of the three searches, in the order of d.searches.
  unfoldable pub search_results : Data → SearchPetsReq → Option (List (List String))
  search_results d f = elim (by_birthdays d f) [
    | none ↦ none
    | some b ↦ some (by_names d f ∷ by_types d f ∷ b ∷ [])
  ]

  -- The store while a goroutine keeps a read lock.
  abbrev pub with_reader : Data → Data
  with_reader d = record d { mu = record (d.mu) { readers = d.mu.readers + 1 } }

  -- searchPets, and SearchPets, which runs it. `arrivals` is what searchCh hands over: the results
  -- of the searches in the order in which their goroutines send them. The read lock is given back
  -- at the end.
  unfoldable pub search_pets :
      Data → SearchPetsReq → List (List String) → Outcome (List (Option Pet))
  search_pets d f arrivals = elim (r_lock d.mu) [
    | none ↦ blocked
    | some mu ↦ done (
        if nat_beq (filters f) 0
        then map some (values d.ids)
        else send_items d (collect (filters f) [] (concat arrivals)))
  ]
