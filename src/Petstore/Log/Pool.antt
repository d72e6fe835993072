-- ===== src/Petstore/Log/Pool.antt =====
-- The pool of events of log.go, and the life of an event: NewEvent, Add, Done. An event is an
-- object in a heap, since two holders of one object share what they write to it.
use gofordevopsclass.Prelude.{
  ℕ, zero, suc, ◌+◌, ltb, nat_eq, ◌==◌, if◌then◌else◌, String, string_eq, List, [], ◌∷◌, ◌++◌,
  Option, none, some, length, get_elem?, ◌≡◌, arith, beq_self,
}
use gofordevopsclass.Petstore.Log.Events.{Value, Attrs, Event, new_object, reset, add, rendered}

-- buf holds up to 100 events, in order; spare is the sync.Pool, which hands out any of its objects.
-- The objects of numbers from `fresh` on have not been made yet.
pub record Pool : Type 0 where
  pub buf : List ℕ
  pub spare : List ℕ
  pub fresh : ℕ
  pub object : ℕ → Event

abbrev pub new_pool : Pool
new_pool = record { buf = []; spare = []; fresh = 0; object = λ a. new_object }

-- *a = e
abbrev pub write : ℕ → Event → (ℕ → Event) → ℕ → Event
write a e h b = if a == b then e else h b

-- A list without the entry at an index.
abbrev pub without_at : ℕ → List ℕ → List ℕ
without_at i [] = []
without_at zero (x ∷ xs) = xs
without_at (suc i) (x ∷ xs) = x ∷ without_at i xs

-- sync.Pool's Get: the object at the index that it picks, or a new one.
unfoldable pub get_spare : ℕ → Pool → ℕ × Pool
get_spare pick p = elim (get_elem? p.spare pick) [
  | some a ↦ (a, record p { spare = without_at pick p.spare })
  | none ↦ (p.fresh, record p { fresh = p.fresh + 1; object = write p.fresh new_object p.object })
]

-- get
unfoldable pub get_from : ℕ → List ℕ → Pool → ℕ × Pool
unfolding get_spare
get_from pick [] p = get_spare pick p
get_from pick (a ∷ rest) p = (a, record p { buf = rest })

unfoldable pub get : ℕ → Pool → ℕ × Pool
unfolding get_from
get pick p = get_from pick p.buf p

-- put: the event goes to buf if there is room, and in any case to the sync.Pool.
unfoldable pub put : ℕ → Pool → Pool
put a p = record p {
  buf = if ltb (length p.buf) 100 then p.buf ++ (a ∷ []) else p.buf;
  spare = a ∷ p.spare;
  object = write a (reset (p.object a)) p.object;
}

unfoldable pub new_event : ℕ → String → Pool → ℕ × Pool
unfolding get
new_event pick name p =
    let (a, q) = get pick p in
    (a, record q { object = write a (record (q.object a) { name = name }) q.object })

unfoldable pub add_to : ℕ → String → Value → Pool → Pool
add_to a k v p = record p { object = write a (add (p.object a) k v) p.object }

abbrev pub add_all_to : ℕ → List (String × Value) → Pool → Pool
add_all_to a [] p = p
add_all_to a ((k, v) ∷ kvs) p = add_all_to a kvs (add_to a k v p)

-- Done: what it adds to the span, and the pool that has the event back.
unfoldable pub done : ℕ → Pool → Option (String × Attrs) × Pool
unfolding put
done a p = (rendered (p.object a), put a p)

-- An event whose Done has come back, on a pool with nothing in buf, is handed out twice: the next
-- NewEvent gets it from buf, and the one behind it from the sync.Pool, if that picks the object
-- that was put last. What the second one does with it, the first one sees.
pub event_shared :
    (a : ℕ) (p : Pool) (n m k : String) (v : Value)
    → p.buf ≡ []
    → let (out, p1) = done a p in
      let (b, p2) = new_event 0 n p1 in
      let (c, p3) = new_event 0 m p2 in
      let p4 = add_to c k v p3 in
      (b ≡ a)
      × (c ≡ a)
      × ((p3.object b).name ≡ m)
      × (p4.object b ≡ add (record (reset (p.object a)) { name = m }) k v)
unfolding done put new_event get get_from get_spare add_to
event_shared a p n m k v e = ground (arith, e, beq_self a)
