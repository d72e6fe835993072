-- ===== src/Petstore/Server.antt =====
-- The gRPC handlers of petstore/server/server.go, over the store of mem.go. Tracing is left out,
-- and with it what goes to the span; the counters of package metrics are part of the state.
pub mod Calls
pub mod Search
pub mod Streams
pub mod Ids
use gofordevopsclass.Prelude.{
  ℕ, suc, ◌+◌, ◌-◌, String, Bool, true, false, if◌then◌else◌, nat_beq, List, [], ◌∷◌, Option, none,
  some, ◌||◌,
}
use gofordevopsclass.Petstore.Calendar.{Date, DateResult, time_of, date_error, birthday_to_time}
use gofordevopsclass.Petstore.Pet.{
  PetMsg, Pet, PetType, pt_unknown, SearchPetsReq, DateRange, StorageError, birthday_error,
  Returned, ok, err, panic,
}
use gofordevopsclass.Petstore.Validate.{validate_pet}
use gofordevopsclass.Petstore.Tree.{BirthdayTree}
use gofordevopsclass.Petstore.Mem.{Data, Outcome, done, failed, blocked, pet_ids}
use gofordevopsclass.Petstore.Mem

-- The counters of one method: its requests, those in flight, its recorded latencies, its errors.
pub record Meter : Type 0 where
  pub requests : ℕ
  pub current : ℕ
  pub latencies : ℕ
  pub errors : ℕ

-- requests.Add(1), current.Add(1)
abbrev pub enter : Meter → Meter
enter m = record m { requests = m.requests + 1; current = m.current + 1 }

-- The deferred function: current.Add(-1), latency.Record, and errors.Add(1) if err != nil.
abbrev pub leave : Bool → Meter → Meter
leave is_err m = record m {
  current = m.current - 1;
  latencies = m.latencies + 1;
  errors = if is_err then m.errors + 1 else m.errors;
}

-- What a client gets: a response, a status of the two codes that the handlers return, the failure
-- of a handler that panics, or no answer.
pub data Reply {ℓ} (A : Type ℓ) : Type ℓ where
  resp : A → Reply A
  invalid_argument internal : StorageError → Reply A
  crashed no_answer : Reply A

-- A pb.DateRange of a request, with pointers.
pub record RangeMsg : Type 0 where
  pub start : Option Date
  pub end : Option Date

pub record SearchMsg : Type 0 where
  pub names : List String
  pub types : List PetType
  pub birthdate_range : Option RangeMsg

pub data SearchError : Type 0 where
  unknown_type_searched start_nil end_nil : SearchError
  bad_start bad_end : SearchError

has_unknown : List PetType → Bool
has_unknown [] = false
has_unknown (t ∷ ts) = nat_beq t pt_unknown || has_unknown ts

abbrev pub is_time : DateResult → Bool
is_time (time_of t) = true
is_time (date_error e) = false

pub data Checked : Type 0 where
  fine : Option DateRange → Checked
  refused : SearchError → Checked

check_dates : Option Date → Option Date → Checked
check_dates none e = refused start_nil
check_dates (some s) none = refused end_nil
check_dates (some s) (some e) =
    if is_time (birthday_to_time s)
    then (if is_time (birthday_to_time e)
        then fine (some (record { start = s; end = e }))
        else refused bad_end)
    else refused bad_start

check_range : Option RangeMsg → Checked
check_range none = fine none
check_range (some r) = check_dates r.start r.end

-- validateSearch. What it passes has no nil date.
unfoldable pub validate_search : SearchMsg → Checked
unfolding has_unknown check_dates check_range
validate_search r =
    if has_unknown r.types then refused unknown_type_searched else check_range r.birthdate_range

-- uuid.New() is a call of another package: `uuid n` is the text of the n-th id that it makes.
module _ (tree : BirthdayTree) (uuid : ℕ → String) where
  pub record Api : Type 0 where
    pub store : Data tree
    pub drawn : ℕ
    pub total : ℕ
    pub add : Meter
    pub update : Meter
    pub delete : Meter
    pub search : Meter

  abbrev pub with_pet : Pet → Returned (List Pet) × ℕ → Returned (List Pet) × ℕ
  with_pet p (ok ps, n) = (ok (p ∷ ps), n)
  with_pet p (err e, n) = (err e, n)
  with_pet p (panic, n) = (panic, n)

  -- The loop of AddPets: a pet that passes gets the next id.
  unfoldable pub prepare : ℕ → List PetMsg → Returned (List Pet) × ℕ
  prepare n [] = (ok [], n)
  prepare n (m ∷ ms) = elim (validate_pet m false) [
    | ok q ↦ with_pet (record q { id = uuid n }) (prepare (suc n) ms)
    | err e ↦ (err e, n)
    | panic ↦ (panic, n)
  ]

  -- The loop of UpdatePets.
  unfoldable pub validate_all : List PetMsg → Returned (List Pet)
  validate_all [] = ok []
  validate_all (m ∷ ms) = elim (validate_pet m true) [
    | ok q ↦ elim (validate_all ms) [ ok qs ↦ ok (q ∷ qs) | err e ↦ err e | panic ↦ panic ]
    | err e ↦ err e
    | panic ↦ panic
  ]

  abbrev pub stored : List String → Outcome (Unit {0}) → Reply (List String)
  stored ids (done _) = resp ids
  stored ids (failed e) = internal e
  stored ids blocked = no_answer

  -- A handler that waits for the lock does not reach its deferred function.
  abbrev pub left : Outcome (Unit {0}) → Meter → Meter
  left (done _) m = leave false m
  left (failed e) m = leave true m
  left blocked m = m

  unfoldable pub add_pets : Api → List PetMsg → Reply (List String) × Api
  unfolding prepare
  add_pets a ms =
      let (r, n) = prepare a.drawn ms in
      let a' = record a { total = a.total + 1; add = enter a.add; drawn = n } in
      elim r [
        | ok ps ↦
            let (o, d) = Mem.add_pets tree a.store ps in
            (stored (pet_ids ps) o, record a' { store = d; add = left o a'.add })
        | err e ↦ (invalid_argument e, record a' { add = leave true a'.add })
        | panic ↦ (crashed, record a' { add = leave false a'.add })
      ]

  unfoldable pub update_pets : Api → List PetMsg → Reply (List String) × Api
  unfolding validate_all
  update_pets a ms =
      let a' = record a { total = a.total + 1; update = enter a.update } in
      elim (validate_all ms) [
        | ok ps ↦
            let (o, d) = Mem.update_pets tree a.store ps in
            (stored [] o, record a' { store = d; update = left o a'.update })
        | err e ↦ (invalid_argument e, record a' { update = leave true a'.update })
        | panic ↦ (crashed, record a' { update = leave false a'.update })
      ]

  unfoldable pub delete_pets : Api → List String → Reply (List String) × Api
  delete_pets a ids =
      let a' = record a { total = a.total + 1; delete = enter a.delete } in
      let (o, d) = Mem.delete_pets tree a.store ids in
      (stored [] o, record a' { store = d; delete = left o a'.delete })
