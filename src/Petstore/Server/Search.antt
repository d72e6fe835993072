-- ===== src/Petstore/Server/Search.antt =====
-- SearchPets of petstore/server/server.go: the handler that streams what the store finds.
use gofordevopsclass.Prelude.{
  ℕ, zero, suc, ◌+◌, String, Bool, true, false, if◌then◌else◌, List, [], ◌∷◌, Option, none, some,
  is_some, ◌&&◌, ltb, length,
}
use gofordevopsclass.Petstore.Pet.{Pet, SearchPetsReq, DateRange, StorageError}
use gofordevopsclass.Petstore.Tree.{BirthdayTree}
use gofordevopsclass.Petstore.Mem.{done, failed, blocked, search_results, filters}
use gofordevopsclass.Petstore.Mem
use gofordevopsclass.Petstore.Server.{
  Api, Meter, SearchMsg, SearchError, fine, refused, validate_search, enter, leave,
}

-- storage.SearchItem.
pub record SearchItem : Type 0 where
  pub pet : Option Pet
  pub error : Option StorageError

-- How the stream of an answer ends. `stream_broken` is the error of Send, `stream_crashed` a panic
-- in a goroutine of the store, which takes the server down, `never_ends` a wait for the lock.
pub data StreamEnd : Type 0 where
  stream_ok : StreamEnd
  stream_invalid : SearchError → StreamEnd
  stream_internal : StorageError → StreamEnd
  stream_broken deadline_exceeded stream_crashed never_ends : StreamEnd

abbrev pub is_failure : StreamEnd → Bool
is_failure stream_ok = false
is_failure _ = true

abbrev pub with_sent : Option Pet → List (Option Pet) × StreamEnd → List (Option Pet) × StreamEnd
with_sent p (sent, e) = (p ∷ sent, e)

-- for item := range ch { ... }, and the test of ctx.Err() behind it. The connection takes `room`
-- messages before Send fails, and `late` says that the context ends between the last item and the
-- test; it does not end before the last item.
unfoldable pub stream_items : ℕ → Bool → List SearchItem → List (Option Pet) × StreamEnd
stream_items room late [] = ([], if late then deadline_exceeded else stream_ok)
stream_items zero late (i ∷ is) = elim i.error [
  | some e ↦ ([], stream_internal e)
  | none ↦ ([], stream_broken)
]
stream_items (suc room) late (i ∷ is) =
    let rest = stream_items room late is in
    elim i.error [ some e ↦ ([], stream_internal e) | none ↦ with_sent i.pet rest ]

-- storage.SearchItem{Pet: p}
abbrev pub items_of : List (Option Pet) → List SearchItem
items_of [] = []
items_of (p ∷ ps) = record { pet = p; error = none } ∷ items_of ps

-- The request that the store gets, its range past the checks for nil.
abbrev pub request : SearchMsg → Option DateRange → SearchPetsReq
request m r = record { names = m.names; types = m.types; birthdate_range = r }

-- The deferred function of SearchPets runs unless the call never ends or the server is down.
abbrev pub search_left : Meter → StreamEnd → Meter
search_left m stream_crashed = m
search_left m never_ends = m
search_left m e = leave (is_failure e) m

module _ (tree : BirthdayTree) (uuid : ℕ → String) where
  -- a.store.SearchPets and the loop over its channel. What was sent before a panic of the store
  -- is left out.
  unfoldable pub stream_search :
      Api tree uuid → SearchPetsReq → List (List String) → ℕ → Bool → List (Option Pet) × StreamEnd
  stream_search a f arrivals room late = elim (Mem.search_pets tree a.store f arrivals) [
    | blocked ↦ ([], never_ends)
    | failed e ↦ stream_items room late (record { pet = none; error = some e } ∷ [])
    | done items ↦
        if is_some (search_results tree a.store f)
        then stream_items room late (items_of items)
        else ([], stream_crashed)
  ]

  -- The store behind the call. A Send that fails ends the loop when room + 1 items were taken; the
  -- channel holds one more, and the store's goroutine, if it has another one, waits in `out <-` with
  -- the read lock for ever. `stuck` says that it comes there before it sees that the context of the
  -- call has ended. Without filters the store sends under a select on the context, and never waits.
  unfoldable pub store_behind :
      Api tree uuid → SearchPetsReq → List (List String) → ℕ → Bool → Mem.Data tree
  store_behind a f arrivals room stuck =
      if stuck
      then (elim (Mem.search_pets tree a.store f arrivals) [
        | blocked ↦ a.store
        | failed e ↦ a.store
        | done items ↦
            if is_some (search_results tree a.store f)
              && ltb 0 (filters f)
              && ltb (room + 2) (length items)
            then Mem.with_reader tree a.store
            else a.store
      ])
      else a.store

  unfoldable pub search_pets :
      Api tree uuid
      → SearchMsg
      → List (List String)
      → ℕ
      → Bool
      → Bool
      → (List (Option Pet) × StreamEnd) × Api tree uuid
  unfolding stream_search store_behind
  search_pets a m arrivals room late stuck =
      let a' = record a { total = a.total + 1; search = enter a.search } in
      elim (validate_search m) [
        | refused e ↦ (([], stream_invalid e), record a' { search = leave true a'.search })
        | fine r ↦
            let (sent, e) = stream_search a (request m r) arrivals room late in
            let d = store_behind a (request m r) arrivals room stuck in
            ((sent, e), record a' { store = d; search = search_left a'.search e })
      ]
