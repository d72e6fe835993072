-- ===== src/Petstore/Server/Streams.antt =====
-- What a client can rely on in SearchPets of server.go, and a request that takes the server down.
use mathlib.Core.List.{Perm}
use gofordevopsclass.Prelude.{
  ℕ, suc, ◌+◌, ◌<◌, String, Bool, true, false, leb, ltb, ◌&&◌, beq_self, zero, if◌then◌else◌,
  string_eq, nat_eq, List, [], ◌∷◌, Option, none, some, is_some, one_if, count, length, IsDistinct,
  ◌≡◌, refl, arith,
}
use gofordevopsclass.GoMap.{lookup}
use gofordevopsclass.Petstore.Calendar.{
  Time, before, time_or_zero, birthday_to_time, time_of, time_eq,
}
use gofordevopsclass.Petstore.Pet.{Pet, SearchPetsReq, DateRange}
use gofordevopsclass.Petstore.Tree.{BirthdayTree}
use gofordevopsclass.Petstore.Mem.{
  Data, done, pet_time, filters, send_items, search_results, by_birthdays, r_lock,
}
use gofordevopsclass.Petstore.Mem
use gofordevopsclass.Petstore.Mem.Invariant.{Inv}
use gofordevopsclass.Petstore.Mem.Effects.{IsFree}
use gofordevopsclass.Petstore.Mem.Search.{matches, wanted, IsRange}
use gofordevopsclass.Petstore.Mem.Exact.{AllPets, search_pets_exact}
use gofordevopsclass.Petstore.Server.{Api, enter, SearchMsg, fine, validate_search}
use gofordevopsclass.Petstore.Server.Search.{
  StreamEnd, stream_ok, stream_crashed, deadline_exceeded, stream_items, items_of, request,
  stream_search, search_pets, stream_broken, search_left, store_behind,
}

-- The first entries of a list.
abbrev pub take {ℓ} : {A : Type ℓ} → ℕ → List A → List A
take zero xs = []
take (suc n) [] = []
take (suc n) (x ∷ xs) = x ∷ take n xs

-- The status of a stream of `n` items without errors.
abbrev pub end_of : ℕ → Bool → ℕ → StreamEnd
end_of room late n =
    if leb n room then (if late then deadline_exceeded else stream_ok) else stream_broken

stream_items-take :
    (room : ℕ) (late : Bool) (ps : List (Option Pet))
    → stream_items room late (items_of ps) ≡ (take room ps, end_of room late (length ps))
unfolding stream_items
stream_items-take zero late [] = ground arith
stream_items-take (suc room) late [] = ground arith
stream_items-take zero late (p ∷ ps) = ground arith
stream_items-take (suc room) late (p ∷ ps) = ground (arith, stream_items-take room late ps)

module _ (tree : BirthdayTree) (uuid : ℕ → String) where
  -- The call while it runs, and the counters of SearchPets behind it.
  abbrev pub searched : Api tree uuid → StreamEnd → Api tree uuid
  searched a e = record a { total = a.total + 1; search = search_left (enter a.search) e }

  -- The call behind which the store's goroutine may be waiting, for n items over a connection that
  -- takes room of them.
  abbrev pub behind : Api tree uuid → ℕ → Bool → ℕ → StreamEnd → Api tree uuid
  behind a room stuck n e = record (searched a e) {
    store = if stuck && ltb (room + 2) n then Mem.with_reader tree a.store else a.store;
  }

  pub streamed :
      (a : Api tree uuid) (m : SearchMsg) (r : Option DateRange) (rs arrivals : List (List String))
      (room : ℕ) (late stuck : Bool) (ps : List (Option Pet))
      → validate_search m ≡ fine r
      → Mem.search_pets tree a.store (request m r) arrivals ≡ done ps
      → search_results tree a.store (request m r) ≡ some rs
      → 0 < filters (request m r)
      → search_pets tree uuid a m arrivals room late stuck ≡ (
        (take room ps, end_of room late (length ps)),
        behind a room stuck (length ps) (end_of room late (length ps)),
      )
  unfolding search_pets stream_search store_behind
  streamed a m r rs arrivals room late false ps c e x n =
      rw (c, search_pets, stream_search, e, x, stream_items-take room late ps) refl
  streamed a m r rs arrivals room late true ps c e x n =
      let some_filter : ltb 0 (filters (request m r)) ≡ true = ground arith in
      rw
        (
          c,
          search_pets,
          stream_search,
          store_behind,
          e,
          x,
          some_filter,
          stream_items-take room late ps,
        )
        refl

  -- SearchPets of a request that passes its check and sets a filter, on a server whose store is
  -- well formed and whose lock is free. No name and no type is asked for twice, a range starts
  -- before it ends, the three searches may arrive in any order, and the context does not end before
  -- the last item. The ids of exactly the pets that match are found, each once. Their pets are
  -- sent, none of them nil, up to what the connection takes; the status is OK if it takes all and
  -- the deadline has not passed. The counters of the server change, and nothing else if the
  -- connection takes all; if it breaks with more than two pets behind those that it took, and the
  -- store's goroutine gets stuck in its next send, then that goroutine keeps a read lock.
  pub search_streams_matches :
      (a : Api tree uuid) (m : SearchMsg) (r : Option DateRange) (rs arrivals : List (List String))
      (room : ℕ) (late stuck : Bool)
      → validate_search m ≡ fine r
      → Inv tree a.store
      → IsFree a.store.mu
      → IsDistinct m.names
      → IsDistinct m.types
      → IsRange r
      → search_results tree a.store (request m r) ≡ some rs
      → Perm arrivals rs
      → 0 < filters (request m r)
      → (ids : List String) × ((id : String)
          → count id ids ≡ one_if (wanted tree a.store (request m r) id))
        × AllPets (matches (request m r)) (send_items tree a.store ids)
        × (search_pets tree uuid a m arrivals room late stuck ≡ (
          (
            take room (send_items tree a.store ids),
            end_of room late (length (send_items tree a.store ids)),
          ),
          behind a room stuck
              (length (send_items tree a.store ids))
              (end_of room late (length (send_items tree a.store ids))),
        ))
  unfolding search_pets stream_search
  search_streams_matches a m r rs arrivals room late stuck c v f dn dt g x p n =
      let (ids, e, counts, all) =
        search_pets_exact tree a.store (request m r) rs arrivals v f dn dt g x p n in
      (
        ids,
        counts,
        all,
        streamed a m r rs arrivals room late stuck (send_items tree a.store ids) c e x n,
      )

  crashes_in_store :
      (d : Data tree) (f : SearchPetsReq) (r : DateRange) (id : String) (p : Pet)
      → Inv tree d
      → lookup id d.ids ≡ some p
      → f.birthdate_range ≡ some r
      → before (time_or_zero r.end) (time_or_zero r.start) ≡ true
      → search_results tree d f ≡ none
  unfolding search_results by_birthdays
  crashes_in_store d f r id p v x e b = ground (
    arith,
    tree.do_range_inverted (time_or_zero r.start) (time_or_zero r.end) d.birthday b
        (pet_time p, born),
  )
    where
      born : is_some (tree.get (pet_time p) d.birthday) ≡ true
      born = ground (arith, v.by_birthday.exact (pet_time p) id, beq_self (pet_time p))

  validated :
      (m : SearchMsg) (r : DateRange) (s t : Time)
      → m.types ≡ []
      → m.birthdate_range ≡ some (record { start = some r.start; end = some r.end })
      → birthday_to_time r.start ≡ time_of s
      → birthday_to_time r.end ≡ time_of t
      → validate_search m ≡ fine (some r)
  unfolding validate_search
  validated m r s t y z c d = ground arith

  inverted :
      (r : DateRange) (s t : Time)
      → birthday_to_time r.start ≡ time_of s
      → birthday_to_time r.end ≡ time_of t
      → before t s ≡ true
      → before (time_or_zero r.end) (time_or_zero r.start) ≡ true
  unfolding time_or_zero
  inverted r s t c d b = ground arith

  crashed :
      (a : Api tree uuid) (f : SearchPetsReq) (arrivals : List (List String)) (room : ℕ)
      → IsFree a.store.mu
      → search_results tree a.store f ≡ none
      → stream_search tree uuid a f arrivals room false ≡ ([], stream_crashed)
  unfolding stream_search Mem.search_pets r_lock
  crashed a f arrivals room l n = ground arith

  -- A request with a range that ends before it starts, both dates being of the calendar, passes
  -- the check of SearchPets. On a well-formed store with a pet and a free lock, it takes the
  -- server down.
  pub inverted_range_crashes :
      (a : Api tree uuid) (m : SearchMsg) (r : DateRange) (id : String) (p : Pet) (s t : Time)
      (arrivals : List (List String)) (room : ℕ) (stuck : Bool)
      → Inv tree a.store
      → IsFree a.store.mu
      → lookup id a.store.ids ≡ some p
      → m.types ≡ []
      → m.birthdate_range ≡ some (record { start = some r.start; end = some r.end })
      → birthday_to_time r.start ≡ time_of s
      → birthday_to_time r.end ≡ time_of t
      → before t s ≡ true
      → (validate_search m ≡ fine (some r))
        × ((search_pets tree uuid a m arrivals room false stuck).0 ≡ ([], stream_crashed))
  unfolding search_pets stream_search
  inverted_range_crashes a m r id p s t arrivals room stuck v f x y z c d b =
      let passed = validated m r s t y z c d in
      let down =
        crashes_in_store a.store (request m (some r)) r id p v x refl (inverted r s t c d b) in
      (passed, rw (passed, search_pets) (crashed a (request m (some r)) arrivals room f down))
