-- ===== src/Petstore/Client/Connected.antt =====
-- The client of client.go with the server of server.go at the other end of its connection.
use gofordevopsclass.Prelude.{ℕ, String, false, List, [], Option, none, some, length}
use gofordevopsclass.Petstore.Pet.{Pet, SearchPetsReq}
use gofordevopsclass.Petstore.Tree.{BirthdayTree}
use gofordevopsclass.Petstore.Mem.{Outcome, done, failed, blocked, search_results}
use gofordevopsclass.Petstore.Mem
use gofordevopsclass.Petstore.Server.{Api, SearchMsg, fine, refused, validate_search}
use gofordevopsclass.Petstore.Server
use gofordevopsclass.Petstore.Server.Search.{StreamEnd, request}
use gofordevopsclass.Petstore.Server.Search
use gofordevopsclass.Petstore.Client.{Service}

abbrev pub items_count : Outcome (List (Option Pet)) → ℕ
items_count (done ps) = length ps
items_count _ = 0

module _ (tree : BirthdayTree) (uuid : ℕ → String)
    (order : List (List String) → List (List String)) where
  -- The results of the searches in the order in which they arrive.
  abbrev pub arrivals : Api tree uuid → SearchPetsReq → List (List String)
  arrivals a f = elim (search_results tree a.store f) [ none ↦ [] | some rs ↦ order rs ]

  -- A search over a connection that takes all that is sent.
  abbrev pub search_all :
      Api tree uuid → SearchMsg → (List (Option Pet) × StreamEnd) × Api tree uuid
  search_all a m = elim (validate_search m) [
    | refused e ↦ Search.search_pets tree uuid a m [] 0 false false
    | fine r ↦
        let found = arrivals a (request m r) in
        Search.search_pets tree uuid a m found
          (items_count (Mem.search_pets tree a.store (request m r) found)) false false
  ]

  -- The handlers of the server as the service that a client calls.
  abbrev pub server : Service (Api tree uuid)
  server = record {
    add = Server.add_pets tree uuid;
    update = Server.update_pets tree uuid;
    delete = Server.delete_pets tree uuid;
    search = search_all;
  }
