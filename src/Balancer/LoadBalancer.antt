-- ===== src/Balancer/LoadBalancer.antt =====
-- LoadBalancer of lb/server/http/server.go: the pools by pattern, and the routes of the mux that
-- serves them. http.ServeMux is a map from patterns to handlers whose Handle panics on a pattern
-- that it has, and on an empty one. A pool is an object of its own, which both maps name by a number.
pub mod Routes
use gofordevopsclass.Prelude.{
  ℕ, suc, ◌+◌, String, Bool, true, false, if◌then◌else◌, ◌==◌, string_eq, nat_eq, List, [], ◌∷◌,
  Option, none, some,
}
use gofordevopsclass.Prelude.Text.{is_empty}
use gofordevopsclass.GoMap.{GoMap, lookup, insert, delete}
use gofordevopsclass.Balancer.P2c.{Pool, Ran, ran, panicked, close}

-- http.ServeMux
abbrev pub Mux : Type 0
Mux = GoMap String ℕ

-- mux.Handle(pattern, pool)
unfoldable pub handle : String → ℕ → Mux → Ran Mux
handle p r m =
    if is_empty p
    then panicked
    else (elim (lookup p m) [ none ↦ ran (insert p r m) | some x ↦ panicked ])

-- The pools that were made, by number: the memory in which Pool values live.
abbrev pub Heap : Type 0
Heap = GoMap ℕ Pool

pub record LoadBalancer : Type 0 where
  pub pools : GoMap String ℕ
  pub mux : Mux
  pub heap : Heap

unfoldable pub new : LoadBalancer
new = record { pools = []; mux = []; heap = [] }

pub data LbError : Type 0 where
  already_registered pool_not_found : LbError

abbrev routed : LoadBalancer → Ran Mux → Ran (Option LbError × LoadBalancer)
routed l panicked = panicked
routed l (ran m) = ran (none, record l { mux = m })

-- AddPool
unfoldable pub add_pool : String → ℕ → LoadBalancer → Ran (Option LbError × LoadBalancer)
add_pool p r l = elim (lookup p l.pools) [
  | some x ↦ ran (some already_registered, l)
  | none ↦ routed (record l { pools = insert p r l.pools }) (handle p r l.mux)
]

-- GetPool
unfoldable pub get_pool : String → LoadBalancer → Option ℕ
get_pool p l = lookup p l.pools

-- for k, v := range l.pools { mux.Handle(k, v) }, on a new mux.
unfoldable pub handle_all : GoMap String ℕ → Mux → Ran Mux
handle_all [] m = ran m
handle_all ((k, v) ∷ ps) m = elim (handle k v m) [ ran n ↦ handle_all ps n | panicked ↦ panicked ]

-- p.Close(), whose error is dropped; a pool that is not in memory cannot be closed.
close_in : ℕ → Heap → Ran Heap
close_in r h = elim (lookup r h) [
  | none ↦ ran h
  | some p ↦ elim (close p) [ ran q ↦ ran (insert r q h) | panicked ↦ panicked ]
]

-- RemovePool
unfoldable pub remove_pool : String → LoadBalancer → Ran LoadBalancer
unfolding close_in
remove_pool p l = elim (lookup p l.pools) [
  | none ↦ ran l
  | some r ↦ elim (close_in r l.heap) [
    | panicked ↦ panicked
    | ran h ↦ elim (handle_all (delete p l.pools) []) [
      | panicked ↦ panicked
      | ran m ↦ ran (record { pools = delete p l.pools; mux = m; heap = h })
    ]
  ]
]
