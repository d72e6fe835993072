-- ===== src/Petstore/Log/Events.antt =====
-- Event of log.go: its attributes, and what Done renders.
use mathlib.Core.List.{append_assoc}
use gofordevopsclass.Prelude.{
  ℕ, String, Bool, false, ◌==◌, string_eq, if◌then◌else◌, List, [], ◌∷◌, ◌++◌, Option, none, some,
  ◌≡◌, ◌≢◌, ap, ◌∙◌, arith, refl,
}

-- The values that Add tells apart; numbers that are no integers, and durations, by their texts.
pub data Value : Type 0 where
  bool : Bool → Value
  bools : List Bool → Value
  float64 : String → Value
  float64s : List String → Value
  int int64 : ℕ → Value
  ints int64s : List ℕ → Value
  string : String → Value
  strings : List String → Value
  duration : String → Value
  unsupported : Value

-- attribute.KeyValue: Bool, BoolSlice, Float64, ..., StringSlice. Int makes an Int64.
pub data Attribute : Type 0 where
  bool_attr : Bool → Attribute
  bools_attr : List Bool → Attribute
  float64_attr : String → Attribute
  float64s_attr : List String → Attribute
  int64_attr : ℕ → Attribute
  int64s_attr : List ℕ → Attribute
  string_attr : String → Attribute
  strings_attr : List String → Attribute

-- The switch of Add; none is the branch that logs a bug.
unfoldable pub attribute_of : Value → Option Attribute
attribute_of (bool v) = some (bool_attr v)
attribute_of (bools v) = some (bools_attr v)
attribute_of (float64 v) = some (float64_attr v)
attribute_of (float64s v) = some (float64s_attr v)
attribute_of (int v) = some (int64_attr v)
attribute_of (ints v) = some (int64s_attr v)
attribute_of (int64 v) = some (int64_attr v)
attribute_of (int64s v) = some (int64s_attr v)
attribute_of (string v) = some (string_attr v)
attribute_of (strings v) = some (strings_attr v)
attribute_of (duration v) = some (string_attr v)
attribute_of unsupported = none

abbrev pub Attrs : Type 0
Attrs = List (String × Attribute)

-- An Event. none is the nil slice, some [] an empty one that is not nil.
pub record Event : Type 0 where
  pub name : String
  pub attrs : Option Attrs

abbrev pub new_object : Event
new_object = record { name = ""; attrs = none }

-- append(attrs, a)
abbrev pub appended : Option Attrs → String × Attribute → Option Attrs
appended none a = some (a ∷ [])
appended (some kvs) a = some (kvs ++ (a ∷ []))

-- e.attrs[0:0]
abbrev pub emptied : Option Attrs → Option Attrs
emptied none = none
emptied (some kvs) = some []

unfoldable pub reset : Event → Event
reset e = record { name = ""; attrs = emptied e.attrs }

unfoldable pub add : Event → String → Value → Event
unfolding attribute_of
add e k v =
    if e.name == ""
    then e
    else elim (attribute_of v) [ none ↦ e | some a ↦ record e { attrs = appended e.attrs (k, a) } ]

-- What Done adds to the span, if anything.
unfoldable pub rendered : Event → Option (String × Attrs)
rendered e =
    if e.name == "" then none else elim e.attrs [ none ↦ none | some kvs ↦ some (e.name, kvs) ]

-- Add, for a list of keys and values.
abbrev pub add_all : Event → List (String × Value) → Event
add_all e [] = e
add_all e ((k, v) ∷ kvs) = add_all (add e k v) kvs

-- The attributes of the supported values, in order.
abbrev pub attributes : List (String × Value) → Attrs
attributes [] = []
attributes ((k, v) ∷ kvs) = elim (attribute_of v) [
  | none ↦ attributes kvs
  | some a ↦ (k, a) ∷ attributes kvs
]

-- Attributes behind those that an event has; no attributes leave a nil slice nil.
abbrev pub extended : Option Attrs → Attrs → Option Attrs
extended o [] = o
extended none (x ∷ xs) = some (x ∷ xs)
extended (some ys) (x ∷ xs) = some (ys ++ (x ∷ xs))

extended-appended :
    (o : Option Attrs) (x : String × Attribute) (xs : Attrs)
    → extended (appended o x) xs ≡ extended o (x ∷ xs)
extended-appended none x [] = refl
extended-appended none x (y ∷ ys) = refl
extended-appended (some zs) x [] = refl
extended-appended (some zs) x (y ∷ ys) = ap some (append_assoc zs (x ∷ []) (y ∷ ys))

add_all_lem :
    (e : Event) (kvs : List (String × Value))
    → (e.name == "") ≡ false
    → add_all e kvs ≡ record e { attrs = extended e.attrs (attributes kvs) }
unfolding add
add_all_lem e [] h = refl
add_all_lem e ((k, v) ∷ kvs) h = go (attribute_of v) refl (λ f g. add_all_lem f kvs g)
  where
    given :
        {y : Attribute}
        → attribute_of v ≡ some y
        → (k, y) ∷ attributes kvs ≡ attributes ((k, v) ∷ kvs)
    given x = ground (arith, x)

    go :
        (o : Option Attribute)
        → attribute_of v ≡ o
        → ((f : Event)
            → (f.name == "") ≡ false
            → add_all f kvs ≡ record f { attrs = extended f.attrs (attributes kvs) })
        → add_all e ((k, v) ∷ kvs)
          ≡ record e { attrs = extended e.attrs (attributes ((k, v) ∷ kvs)) }
    go none x ih = ground (arith, x, h, ih e h)
    go (some y) x ih =
        let first : add e k v ≡ record e { attrs = appended e.attrs (k, y) } =
          ground (arith, h, x) in
        let later : extended (appended e.attrs (k, y)) (attributes kvs)
            ≡ extended e.attrs (attributes ((k, v) ∷ kvs)) =
          extended-appended e.attrs (k, y) (attributes kvs) ∙ ap (extended e.attrs) (given x) in
        ap (λ f. add_all f kvs) first
        ∙ (ih (record e { attrs = appended e.attrs (k, y) }) h
            ∙ ap (λ z. record e { attrs = z }) later)

-- Done of an event with a name adds to the span the attributes that the event had and those of the
-- values that were added, in order, without the values of unsupported types; it adds nothing
-- if there are none and the event has never had any.
pub rendered-add_all :
    (e : Event) (kvs : List (String × Value))
    → e.name ≢ ""
    → rendered (add_all e kvs)
      ≡ (elim (extended e.attrs (attributes kvs)) [ none ↦ none | some x ↦ some (e.name, x) ])
unfolding rendered
rendered-add_all e kvs h =
    let named : (e.name == "") ≡ false = ground (arith, string_eq.beq_iff e.name "") in
    ap rendered (add_all_lem e kvs named) ∙ rw (named, rendered) refl
