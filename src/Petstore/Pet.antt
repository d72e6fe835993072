-- ===== src/Petstore/Pet.antt =====
-- The messages of petstore/proto/petstore.proto that the server stores and searches by, as the
-- Go code of petstore/server reads them, and the errors of petstore/server/storage.
use gofordevopsclass.Prelude.{ℕ, String, List, Option}
use gofordevopsclass.Petstore.Calendar.{Date, DateError}

-- pb.PetType, by its number on the wire.
abbrev pub PetType : Type 0
PetType = ℕ

abbrev pub pt_unknown : PetType
pt_unknown = 0

-- A *pb.Pet of a request. Its Birthday is a pointer, and may be nil.
pub record PetMsg : Type 0 where
  pub id : String
  pub name : String
  pub type : PetType
  pub birthday : Option Date

-- A *pb.Pet that ValidatePet has passed: its Birthday has been read, so it is not nil.
pub record Pet : Type 0 where
  pub id : String
  pub name : String
  pub type : PetType
  pub birthday : Date

pub record DateRange : Type 0 where
  pub start : Date
  pub end : Date

-- pb.SearchPetsReq, past the checks for nil of validateSearch.
pub record SearchPetsReq : Type 0 where
  pub names : List String
  pub types : List PetType
  pub birthdate_range : Option DateRange

pub data StorageError : Type 0 where
  id_missing id_set no_name unknown_type : StorageError
  birthday_error : DateError → StorageError
  already_present doesnt_exist : String → StorageError

-- A Go call that returns a value, returns an error, or panics (a nil pointer).
pub data Returned {ℓ} (A : Type ℓ) : Type ℓ where
  ok : A → Returned A
  err : StorageError → Returned A
  panic : Returned A
