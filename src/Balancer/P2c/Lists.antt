-- ===== src/Balancer/P2c/Lists.antt =====
-- addToValue and removeFromValue of p2c.go, by what they do to the urls of a list.
use gofordevopsclass.Prelude.{
  ◌≤◌, ◌<◌, String, true, false, if◌then◌else◌, nat_beq, ◌==◌, string_eq, length, count, contains,
  List, [], ◌∷◌, ◌++◌, none, some, ◌≡◌, refl, ap, arith, beq_self, beq_comm,
}
use gofordevopsclass.Balancer.Backend.{WeightedBackend, url}
use gofordevopsclass.Balancer.P2c.{add_to_value, others, remove_from_value}

abbrev pub urls : List WeightedBackend → List String
urls [] = []
urls (b ∷ bs) = url b ∷ urls bs

pub urls-append : (xs ys : List WeightedBackend) → urls (xs ++ ys) ≡ urls xs ++ urls ys
urls-append [] ys = refl
urls-append (x ∷ xs) ys = ap (◌∷◌ (url x)) (urls-append xs ys)

-- addToValue appends a backend whose url is new to the list, and refuses any other.
pub add_to_value_lem :
    (b : WeightedBackend) (v : List WeightedBackend)
    → add_to_value b v ≡ (if contains (url b) (urls v) then none else some (v ++ b ∷ []))
unfolding add_to_value
add_to_value_lem b [] = refl
add_to_value_lem b (c ∷ v) = ground (arith, add_to_value_lem b v, beq_comm (url b) (url c))

length-others : (u : String) (v : List WeightedBackend) → length (others u v) ≤ length v
unfolding others
length-others u [] = omega arith
length-others u (b ∷ v) = ground (arith, length-others u v)

others_same :
    (u : String) (v : List WeightedBackend) → length v ≡ length (others u v) → others u v ≡ v
unfolding others
others_same u [] h = refl
others_same u (b ∷ v) h = ground (arith, others_same u v, length-others u v)

-- removeFromValue stores the list without the url, whatever it returns.
pub remove_from_value_lem :
    (u : String) (v : List WeightedBackend) → (remove_from_value u v).1 ≡ others u v
unfolding remove_from_value others
remove_from_value_lem u [] = refl
remove_from_value_lem u (b ∷ v) = ground (arith, others_same u (b ∷ v))

pub count-others :
    (u w : String) (v : List WeightedBackend)
    → count w (urls (others u v)) ≡ (if u == w then 0 else count w (urls v))
unfolding others
count-others u w [] = ground arith
count-others u w (b ∷ v) = ground (
  arith,
  count-others u w v,
  string_eq.beq_iff u (url b),
  string_eq.beq_iff u w,
  string_eq.beq_iff (url b) w,
)

-- A url that is in the list is found.
pub remove_from_value_found :
    (u : String) (v : List WeightedBackend)
    → 0 < count u (urls v)
    → (remove_from_value u v).0 ≡ none
unfolding remove_from_value
remove_from_value_found u [] h = refl
remove_from_value_found u (b ∷ v) h =
    ground (arith, others_same u (b ∷ v), count-others u u (b ∷ v), beq_self u)

pub contains-count :
    (u : String) (xs : List String)
    → contains u xs ≡ (if nat_beq (count u xs) 0 then false else true)
contains-count u [] = refl
contains-count u (x ∷ xs) = ground (arith, contains-count u xs)
