-- ===== src/Petstore/Validate.antt =====
-- ValidatePet of petstore/server/storage/storage.go.
use gofordevopsclass.Prelude.{
  String, Bool, false, ◌&&◌, not, if◌then◌else◌, nat_eq, Option, none, some, ◌≡◌, ◌≢◌, refl, ◌↔◌,
  arith, nat_beq,
}
use gofordevopsclass.Prelude.Text.{is_empty, trim_space, all_space, trim_space_empty}
use gofordevopsclass.Petstore.Calendar.{
  Date, IsDate, DateResult, time_of, date_error, birthday_to_time, birthday_to_time-IsDate,
  midnight,
}
use gofordevopsclass.Petstore.Pet.{
  PetMsg, Pet, pt_unknown, Returned, ok, err, panic, id_missing, id_set, no_name, unknown_type,
  birthday_error,
}

-- The checks behind the name. `name` is the trimmed one, which the code has written to p.Name.
unfoldable pub validate_rest : PetMsg → String → Option Date → Returned Pet
validate_rest p name none = if nat_beq p.type pt_unknown then err unknown_type else panic
validate_rest p name (some d) =
    if nat_beq p.type pt_unknown then err unknown_type else elim (birthday_to_time d) [
      | time_of t ↦ ok (record { id = p.id; name = name; type = p.type; birthday = d })
      | date_error e ↦ err (birthday_error e)
    ]

-- The code writes the trimmed name to the message; a message that passes is returned here with
-- that name. `d.Month` of a nil Birthday panics.
unfoldable pub validate_pet : PetMsg → Bool → Returned Pet
unfolding validate_rest
validate_pet p for_update =
    if for_update && is_empty p.id
    then err id_missing
    else if not for_update && not (is_empty p.id)
    then err id_set
    else if is_empty (trim_space p.name)
    then err no_name
    else validate_rest p (trim_space p.name) p.birthday

-- What a message must be to pass: an id exactly in updates, a name with a character that is no
-- white space, a known type, and a birthday of the calendar.
pub record IsPassable (p : PetMsg) (for_update : Bool) (d : Date) : Type 0 where
  pub id_rule : is_empty p.id ≡ not for_update
  pub named : all_space p.name ≡ false
  pub typed : p.type ≢ 0
  pub born : p.birthday ≡ some d
  pub dated : IsDate d

abbrev the_pet : PetMsg → Date → Pet
the_pet p d = record { id = p.id; name = trim_space p.name; type = p.type; birthday = d }

passes :
    (p : PetMsg) (u : Bool) (q : Pet) (d : Date) (r : DateResult)
    → p.birthday ≡ some d
    → birthday_to_time d ≡ r
    → validate_pet p u ≡ ok q
    → IsPassable p u d × (q ≡ the_pet p d)
unfolding validate_pet
passes p u q d (time_of t) e f h =
    let dated = ((birthday_to_time-IsDate d t).0 f).0 in
    (ground (arith, trim_space_empty p.name), ground arith)
passes p u q d (date_error x) e f h = absurd (ground arith)

there :
    (p : PetMsg) (u : Bool) (q : Pet) (b : Option Date)
    → p.birthday ≡ b
    → validate_pet p u ≡ ok q
    → (d : Date) × IsPassable p u d × (q ≡ the_pet p d)
unfolding validate_pet
there p u q none e h = absurd (ground arith)
there p u q (some d) e h = let (x, y) = passes p u q d (birthday_to_time d) e refl h in (d, x, y)

back :
    (p : PetMsg) (u : Bool) (q : Pet)
    → (d : Date) × IsPassable p u d × (q ≡ the_pet p d)
    → validate_pet p u ≡ ok q
unfolding validate_pet
back p u q (d, h, e) =
    ground
      (arith, trim_space_empty p.name, (birthday_to_time-IsDate d (midnight d)).1 (h.dated, refl))

-- ValidatePet passes a message exactly if it is passable, and then only the name is changed, by
-- trimming it.
pub validate_pet-IsPassable :
    (p : PetMsg) (u : Bool) (q : Pet)
    → (validate_pet p u ≡ ok q) ↔ ((d : Date) × IsPassable p u d × (q ≡ the_pet p d))
unfolding validate_pet
validate_pet-IsPassable p u q = (there p u q p.birthday refl, back p u q)

-- A message that passes but for a nil birthday makes ValidatePet panic, instead of an error.
pub validate_pet_nil_birthday :
    (p : PetMsg) (u : Bool)
    → is_empty p.id ≡ not u
    → all_space p.name ≡ false
    → p.type ≢ 0
    → p.birthday ≡ none
    → validate_pet p u ≡ panic
unfolding validate_pet
validate_pet_nil_birthday p u a b c d = ground (arith, trim_space_empty p.name)
