-- ===== src/Petstore/Operator.antt =====
-- controllers/pet_controller.go of kubernetes/petstore-operator, with the resource of
-- api/v1alpha1/pet_types.go: the operator that keeps a pet of the store for each Pet resource.
pub mod Finds
pub mod Calls
pub mod Settles
pub mod Rounds
pub mod Lost
use gofordevopsclass.Prelude.{
  ℕ, String, Bool, true, false, if◌then◌else◌, ◌==◌, ◌&&◌, not, string_eq, List, [], ◌∷◌, Option,
  none, some, contains, ◌≡◌,
}
use gofordevopsclass.Petstore.Calendar.{Date}
use gofordevopsclass.Petstore.Pet.{PetMsg, PetType, StorageError}
use gofordevopsclass.Petstore.Server.{SearchMsg}
use gofordevopsclass.Petstore.Client.{
  Service, Answer, got, refused, status_invalid, status_internal, unavailable, client_panics, waits,
  ClientPet, Searched, channel, filter_nil, search_panics, search_waits, add_pets, update_pets,
  delete_pets, search_pets,
}

-- PetSpec. Of the birthday, the code reads the year, the month and the day.
pub record PetSpec : Type 0 where
  pub name : String
  pub type : String
  pub birthday : Date

-- A Pet resource: its spec, the id of its status, and of its metadata the finalizers and whether
-- the time of deletion is set.
pub record PetResource : Type 0 where
  pub spec : PetSpec
  pub id : String
  pub finalizers : List String
  pub deleting : Bool

abbrev pub pet_finalizer : String
pet_finalizer = "pet.petstore.example.com"

-- What the operator uses of Kubernetes, which is not in the repository: the two functions of
-- controllerutil, and what the API server keeps when the patch helper sends it a resource. A
-- resource that is being deleted and has no finalizer is collected.
pub record Kubernetes : Type 0 where
  pub add_finalizer : String → List String → List String
  pub remove_finalizer : String → List String → List String
  pub kept : PetResource → Option PetResource
  pub contains-add_finalizer :
      (f g : String) (fs : List String)
      → contains g (add_finalizer f fs) ≡ (if f == g then true else contains g fs)
  pub contains-remove_finalizer :
      (f g : String) (fs : List String)
      → contains g (remove_finalizer f fs) ≡ (if f == g then false else contains g fs)
  pub kept_lem : (r : PetResource) → r.deleting ≡ false → kept r ≡ some r

-- The calls of a reconcile that may fail, besides those to the store.
pub record Failures : Type 0 where
  pub get_fails : Bool
  pub helper_fails : Bool
  pub dial_fails : Bool
  pub patch_fails : Bool

abbrev pub no_failures : Failures
no_failures = record {
  get_fails = false;
  helper_fails = false;
  dial_fails = false;
  patch_fails = false;
}

pub data Reconciled : Type 0 where
  reconciled : Reconciled
  get_failed helper_failed dial_failed patch_failed : Reconciled
  find_failed create_failed update_failed delete_failed : Reconciled
  reconcile_panics reconcile_waits : Reconciled

-- petTypeToProtoPetType
unfoldable pub pet_type_to_proto_pet_type : String → PetType
pet_type_to_proto_pet_type t =
    if t == "dog" then 1 else if t == "cat" then 2 else if t == "bird" then 3 else 4

-- timeToPbDate: the fields of the date.
unfoldable pub time_to_pb_date : Date → Date
time_to_pb_date d = record { year = d.year; month = d.month; day = d.day }

-- What findPetInStore gives: a pet or nil, or how it goes wrong.
pub data FoundPet : Type 0 where
  found_pet : Option PetMsg → FoundPet
  finding_failed finding_panics finding_waits : FoundPet

-- The loop over the channel: an item with an error is passed over.
unfoldable pub find_id : String → List ClientPet → Option PetMsg
find_id id [] = none
find_id id (c ∷ cs) = elim c.pet [
  | none ↦ find_id id cs
  | some p ↦ if c.is_error then find_id id cs else if p.id == id then some p else find_id id cs
]

abbrev pub found_in : String → Searched → FoundPet
found_in id (channel cs) = found_pet (find_id id cs)
found_in id filter_nil = finding_failed
found_in id search_panics = finding_panics
found_in id search_waits = finding_waits

-- The filter of findPetInStore, and the message of createPetInStore.
unfoldable pub pet_filter : PetSpec → SearchMsg
unfolding pet_type_to_proto_pet_type
pet_filter s = record {
  names = s.name ∷ [];
  types = pet_type_to_proto_pet_type s.type ∷ [];
  birthdate_range = none;
}

unfoldable pub pet_message : String → PetSpec → PetMsg
unfolding pet_type_to_proto_pet_type time_to_pb_date
pet_message id s = record {
  id = id;
  name = s.name;
  type = pet_type_to_proto_pet_type s.type;
  birthday = some (time_to_pb_date s.birthday);
}

-- The result of createPetInStore, with the resource that gets the first id.
abbrev pub created : PetResource → Answer (List String) → Reconciled × PetResource
created pet (got (id ∷ ids)) = (reconciled, record pet { id = id })
created pet (got []) = (reconcile_panics, pet)
created pet client_panics = (reconcile_panics, pet)
created pet waits = (reconcile_waits, pet)
created pet _ = (create_failed, pet)

-- The error of a call whose value is not used.
abbrev pub done_or {ℓ} : {A : Type ℓ} → Reconciled → Answer A → Reconciled
done_or e (got a) = reconciled
done_or e client_panics = reconcile_panics
done_or e waits = reconcile_waits
done_or e _ = e

module _ {ℓ} {S : Type ℓ} (svc : Service S) where
  unfoldable pub create_pet_in_store : S → PetResource → (Reconciled × PetResource) × S
  create_pet_in_store s pet =
      let (a, t) = add_pets svc s (pet_message "" pet.spec ∷ []) [] in (created pet a, t)

  -- The message that was found gets the name, the type and the birthday of the spec.
  unfoldable pub update_pet_in_store : S → PetResource → PetMsg → Reconciled × S
  update_pet_in_store s pet found =
      let (a, t) = update_pets svc s (pet_message found.id pet.spec ∷ []) [] in
      (done_or update_failed a, t)

  unfoldable pub find_pet_in_store : S → PetResource → FoundPet × S
  find_pet_in_store s pet =
      let (c, t) = search_pets svc s (some (pet_filter pet.spec)) [] in (found_in pet.id c, t)

  -- The part of ReconcileNormal behind the search.
  unfoldable pub create_or_update : S → PetResource → FoundPet → (Reconciled × PetResource) × S
  create_or_update s pet (found_pet none) = create_pet_in_store s pet
  create_or_update s pet (found_pet (some p)) =
      let (r, t) = update_pet_in_store s pet p in ((r, pet), t)
  create_or_update s pet finding_failed = ((find_failed, pet), s)
  create_or_update s pet finding_panics = ((reconcile_panics, pet), s)
  create_or_update s pet finding_waits = ((reconcile_waits, pet), s)

module _ {ℓ} {S : Type ℓ} (svc : Service S) (k8s : Kubernetes) where
  unfoldable pub reconcile_normal : Bool → S → PetResource → (Reconciled × PetResource) × S
  reconcile_normal dial_fails s r =
      let pet = record r { finalizers = k8s.add_finalizer pet_finalizer r.finalizers } in
      let (f, t) = find_pet_in_store svc s pet in
      if dial_fails then ((dial_failed, pet), s) else create_or_update svc t pet f

  abbrev pub let_go : PetResource → Reconciled → Reconciled × PetResource
  let_go pet reconciled =
      (reconciled, record pet { finalizers = k8s.remove_finalizer pet_finalizer pet.finalizers })
  let_go pet e = (e, pet)

  unfoldable pub reconcile_delete : Bool → S → PetResource → (Reconciled × PetResource) × S
  reconcile_delete dial_fails s pet =
      let (a, t) = delete_pets svc s (pet.id ∷ []) [] in
      if dial_fails
      then ((dial_failed, pet), s)
      else if pet.id == ""
      then (let_go pet reconciled, s)
      else (let_go pet (done_or delete_failed a), t)

  -- The deferred patch: what the API server holds then, and the result. A call that never comes
  -- back does not get there; a panic goes on behind the patch.
  abbrev pub patched :
      Bool → PetResource → Reconciled × PetResource → Reconciled × Option PetResource
  patched fails old (reconcile_waits, new) = (reconcile_waits, some old)
  patched true old (reconcile_panics, new) = (reconcile_panics, some old)
  patched false old (reconcile_panics, new) = (reconcile_panics, k8s.kept new)
  patched true old (r, new) = (patch_failed, some old)
  patched false old (r, new) = (r, k8s.kept new)

  abbrev pub reconcile_found : Failures → S → PetResource → (Reconciled × Option PetResource) × S
  reconcile_found f s pet =
      let (r, t) =
        if pet.deleting
        then reconcile_delete f.dial_fails s pet
        else reconcile_normal f.dial_fails s pet in
      (patched f.patch_fails pet r, t)

  -- Reconcile, on the resource that the API server holds, if it holds one.
  unfoldable pub reconcile :
      Failures → S → Option PetResource → (Reconciled × Option PetResource) × S
  reconcile f s none = ((if f.get_fails then get_failed else reconciled, none), s)
  reconcile f s (some pet) =
      if f.get_fails
      then ((get_failed, some pet), s)
      else if f.helper_fails
      then ((helper_failed, some pet), s)
      else reconcile_found f s pet
