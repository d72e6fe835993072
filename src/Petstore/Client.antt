-- ===== src/Petstore/Client.antt =====
-- petstore/client/client.go: the client of the pet store, over the calls of the generated stub.
pub mod Connected
pub mod Agreement
use gofordevopsclass.Prelude.{
  String, Bool, true, false, List, [], ◌∷◌, ◌++◌, Option, none, some, string_eq, ℕ,
}
use gofordevopsclass.GoMap.{GoMap, lookup, insert}
use gofordevopsclass.Petstore.Calendar.{Date}
use gofordevopsclass.Petstore.Pet.{PetMsg, Pet, StorageError, Returned, ok, err, panic}
use gofordevopsclass.Petstore.Validate.{validate_pet}
use gofordevopsclass.Petstore.Server.{
  Reply, resp, invalid_argument, internal, crashed, no_answer, SearchMsg,
}
use gofordevopsclass.Petstore.Server.Search.{
  StreamEnd, stream_ok, never_ends, stream_invalid, stream_internal, stream_broken,
  deadline_exceeded, stream_crashed,
}

-- pb.PetStoreClient: what a call does to the state of the service, and what comes back.
pub record Service {ℓ} (S : Type ℓ) : Type ℓ where
  pub add : S → List PetMsg → Reply (List String) × S
  pub update : S → List PetMsg → Reply (List String) × S
  pub delete : S → List String → Reply (List String) × S
  pub search : S → SearchMsg → (List (Option Pet) × StreamEnd) × S

-- What a method of Client gives its caller: a value; an error of its own check; the error of a
-- status, with a message or because the server went down; a panic; or nothing.
pub data Answer {ℓ} (A : Type ℓ) : Type ℓ where
  got : A → Answer A
  refused : StorageError → Answer A
  status_invalid status_internal : StorageError → Answer A
  unavailable client_panics waits : Answer A

unfoldable pub answer_of {ℓ} : {A : Type ℓ} → Reply A → Answer A
answer_of (resp a) = got a
answer_of (invalid_argument e) = status_invalid e
answer_of (internal e) = status_internal e
answer_of crashed = unavailable
answer_of no_answer = waits

-- TraceID(s): the address s, or nil.
abbrev pub CallOption : Type 0
CallOption = Option ℕ

-- metadata.MD: a Go map, which may be nil.
abbrev pub Metadata : Type 0
Metadata = Option (GoMap String (List String))

-- The options applied in turn to callOptions{}: the last address that is not nil.
unfoldable pub traced : Option ℕ → List CallOption → Option ℕ
traced t [] = t
traced t (none ∷ os) = traced t os
traced t (some s ∷ os) = traced (some s) os

-- The outcome of handleCallOptions: the address of the trace and the header, or the panic of a
-- write to a nil map.
pub data Handled : Type 0 where
  handled : Option ℕ → Metadata → Handled
  handling_panics : Handled

abbrev pub mark : ℕ → Metadata → Handled
mark s none = handling_panics
mark s (some md) = handled (some s) (some (insert "trace" [] md))

unfoldable pub handle_call_options : Metadata → List CallOption → Handled
unfolding traced
handle_call_options header options = elim (traced none options) [
  | none ↦ handled none header
  | some s ↦ mark s header
]

abbrev pub first_value : Option (List String) → Option String
first_value (some (v ∷ vs)) = some v
first_value _ = none

-- f: what it writes to the address of the trace.
unfoldable pub trace_written : Option ℕ → Metadata → Option String
trace_written none header = none
trace_written (some s) none = none
trace_written (some s) (some md) = first_value (lookup "otel.traceID" md)

-- The loop over ValidatePet, which trims the names in the messages themselves.
unfoldable pub validated : Bool → List PetMsg → Returned (List PetMsg)
validated for_update [] = ok []
validated for_update (m ∷ ms) = elim (validate_pet m for_update) [
  | ok q ↦ elim (validated for_update ms) [
    | ok qs ↦ ok (record m { name = q.name } ∷ qs)
    | err e ↦ err e
    | panic ↦ panic
  ]
  | err e ↦ err e
  | panic ↦ panic
]

-- The client's Pet: a message, or the error that ended the stream.
pub record ClientPet : Type 0 where
  pub pet : Option PetMsg
  pub is_error : Bool

-- A message as the wire brings it: a nil pet arrives as an empty message.
abbrev pub arrived : Option Pet → PetMsg
arrived none = record { id = ""; name = ""; type = 0; birthday = none }
arrived (some p) = record { id = p.id; name = p.name; type = p.type; birthday = some p.birthday }

-- The goroutine of SearchPets: the messages up to io.EOF, and the error if one comes instead.
unfoldable pub received : List (Option Pet) → StreamEnd → List ClientPet
received [] stream_ok = []
received [] _ = record { pet = none; is_error = true } ∷ []
received (p ∷ ps) e = record { pet = some (arrived p); is_error = false } ∷ received ps e

pub data Searched : Type 0 where
  channel : List ClientPet → Searched
  filter_nil search_panics search_waits : Searched

unfoldable pub channel_of : List (Option Pet) × StreamEnd → Searched
unfolding received
channel_of (ps, never_ends) = search_waits
channel_of (ps, e) = channel (received ps e)

module _ {ℓ} {S : Type ℓ} (svc : Service S) where
  -- The call of the stub, with the options handled before it. The header is nil.
  unfoldable pub with_options {κ} : {A : Type κ} → List CallOption → Reply A × S → S → Answer A × S
  unfolding handle_call_options
  with_options options (r, t) s = elim (handle_call_options none options) [
    | handling_panics ↦ (client_panics, s)
    | handled a h ↦ (answer_of r, t)
  ]

  unfoldable pub add_pets : S → List PetMsg → List CallOption → Answer (List String) × S
  unfolding validated with_options
  add_pets s [] options = (got [], s)
  add_pets s (m ∷ ms) options = elim (validated false (m ∷ ms)) [
    | ok qs ↦ with_options options (svc.add s qs) s
    | err e ↦ (refused e, s)
    | panic ↦ (client_panics, s)
  ]

  unfoldable pub update_pets : S → List PetMsg → List CallOption → Answer (List String) × S
  unfolding validated with_options
  update_pets s [] options = (got [], s)
  update_pets s (m ∷ ms) options = elim (validated true (m ∷ ms)) [
    | ok qs ↦ with_options options (svc.update s qs) s
    | err e ↦ (refused e, s)
    | panic ↦ (client_panics, s)
  ]

  unfoldable pub delete_pets : S → List String → List CallOption → Answer (List String) × S
  unfolding with_options
  delete_pets s [] options = (got [], s)
  delete_pets s (i ∷ is) options = with_options options (svc.delete s (i ∷ is)) s

  unfoldable pub search_pets : S → Option SearchMsg → List CallOption → Searched × S
  unfolding handle_call_options channel_of
  search_pets s none options = (filter_nil, s)
  search_pets s (some f) options = elim (handle_call_options none options) [
    | handling_panics ↦ (search_panics, s)
    | handled a h ↦ let (r, t) = svc.search s f in (channel_of r, t)
  ]
