-- ===== src/Balancer/LoadBalancer/Routes.antt =====
-- The mux of the load balancer (lb/server/http/server.go) against the patterns of its pools.
use gofordevopsclass.Prelude.{
  ℕ, ◌≤◌, ◌<◌, String, true, false, if◌then◌else◌, ◌==◌, string_eq, nat_eq, is_some, count, [], ◌∷◌,
  Option, none, some, Option-cases, Bool-cases, ◌≡◌, ◌≢◌, ◌⊎◌, inl, inr, refl, arith, beq_self,
  beq-eq,
}
use gofordevopsclass.Prelude.Text.{is_empty}
use gofordevopsclass.GoMap.{GoMap, lookup, insert, delete, keys, IsGoMap}
use gofordevopsclass.GoMap.Laws.{
  lookup-insert, lookup-delete, insert-IsGoMap, delete-IsGoMap, count-lookup,
}
use gofordevopsclass.Balancer.P2c.{Pool, Ran, ran, panicked, close}
use gofordevopsclass.Balancer.LoadBalancer.{
  LoadBalancer, LbError, already_registered, Mux, handle, handle_all, add_pool, remove_pool,
  close_in,
}

-- The routes are the pools, every pool is in memory and open, no pool has two patterns, and none has
-- the empty one.
pub record LbInv (l : LoadBalancer) : Type 0 where
  pub map : IsGoMap l.pools
  pub routes : (p : String) → lookup p l.mux ≡ lookup p l.pools
  pub live :
      (p : String) (r : ℕ)
      → lookup p l.pools ≡ some r
      → (q : Pool) × (lookup r l.heap ≡ some q) × (q.closed ≡ false)
  pub apart : (p q : String) (r : ℕ) → lookup p l.pools ≡ some r → lookup q l.pools ≡ some r → p ≡ q
  pub named : (p : String) → is_empty p ≡ true → lookup p l.pools ≡ none

-- Routes that are all new, and not of the empty pattern, are all added.
handle_all_lem :
    (ps : GoMap String ℕ) (m : Mux)
    → ((k : String) → count k (keys ps) ≤ 1)
    → ((k : String) → 0 < count k (keys ps) → lookup k m ≡ none)
    → ((k : String) → 0 < count k (keys ps) → is_empty k ≡ false)
    → (n : Mux) × (handle_all ps m ≡ ran n)
      × ((k : String) → lookup k n ≡ (elim (lookup k ps) [ none ↦ lookup k m | some r ↦ some r ]))
unfolding handle_all handle lookup
handle_all_lem [] m d f i = (m, refl, (λ k. refl))
handle_all_lem ((j, r) ∷ ps) m d f i =
    let proper : is_empty j ≡ false = i j (ground (arith, beq_self j)) in
    let free : lookup j m ≡ none = f j (ground (arith, beq_self j)) in
    let (n, e, g) =
      handle_all_lem ps (insert j r m) (λ k. omega (arith, d k))
        (λ k h. ground (arith, lookup-insert j k r m, f k, d k, string_eq.beq_iff j k))
        (λ k h. i k (ground arith)) in
    (
      n,
      rw (proper, free, handle_all, handle) e,
      (λ k. ground (
        arith,
        g k,
        lookup-insert j k r m,
        string_eq.beq_iff j k,
        d k,
        count-lookup k ps,
        Option-cases (lookup k ps),
      )),
    )

added-LbInv :
    (p : String) (r : ℕ) (q : Pool) (l : LoadBalancer)
    → LbInv l
    → lookup r l.heap ≡ some q
    → q.closed ≡ false
    → ((k : String) → lookup k l.pools ≢ some r)
    → lookup p l.pools ≡ none
    → is_empty p ≡ false
    → LbInv (record l { pools = insert p r l.pools; mux = insert p r l.mux })
added-LbInv p r q l v x o fresh y proper = record {
  named = λ k h. elim (Bool-cases (p == k)) [
    | inl b ↦ absurd (cc (beq-eq p k b, h, proper))
    | inr b ↦ ground (arith, lookup-insert p k r l.pools, v.named k h)
  ];
  map = insert-IsGoMap p r l.pools v.map;
  routes = λ k. ground (arith, lookup-insert p k r l.mux, lookup-insert p k r l.pools, v.routes k);
  live = λ k j h. elim (Bool-cases (p == k)) [
    | inl b ↦ (q, ground (arith, lookup-insert p k r l.pools), o)
    | inr b ↦ v.live k j (ground (arith, lookup-insert p k r l.pools))
  ];
  apart = λ k m j h g. ground (
    arith,
    lookup-insert p k r l.pools,
    lookup-insert p m r l.pools,
    string_eq.beq_iff p k,
    string_eq.beq_iff p m,
    v.apart k m j,
    fresh k,
    fresh m,
  );
}

-- What AddPool does of the pool r for a pattern p: it routes a new one, or refuses a taken one.
abbrev pub Answered : String → ℕ → LoadBalancer → Ran (Option LbError × LoadBalancer) → Type 0
Answered p r l o =
    (e : Option LbError) × (l' : LoadBalancer) × (o ≡ ran (e, l'))
    × LbInv l'
    × (((e ≡ none)
          × (lookup p l.pools ≡ none)
          × ((k : String) → lookup k l'.mux ≡ (if p == k then some r else lookup k l.mux)))
        ⊎ ((e ≡ some already_registered) × (is_some (lookup p l.pools) ≡ true) × (l' ≡ l)))

pub add_proper :
    (p : String) (r : ℕ) (q : Pool) (l : LoadBalancer)
    → LbInv l
    → lookup r l.heap ≡ some q
    → q.closed ≡ false
    → ((k : String) → lookup k l.pools ≢ some r)
    → is_empty p ≡ false
    → Answered p r l (add_pool p r l)
unfolding add_pool handle
add_proper p r q l v x o fresh proper = elim (Option-cases (lookup p l.pools)) [
  | inr (j, y) ↦ (some already_registered, l, ground arith, v, inr (refl, ground arith, refl))
  | inl y ↦
      let l' : LoadBalancer = record l { pools = insert p r l.pools; mux = insert p r l.mux } in
      (
        none,
        l',
        ground (arith, v.routes p, proper),
        added-LbInv p r q l v x o fresh y proper,
        inl (refl, y, (λ k. lookup-insert p k r l.mux)),
      )
]

-- AddPool, on a well-formed balancer, of an open pool that has no pattern yet, panics for the empty
-- pattern; for every other one it does not, and leaves the balancer well formed. A new pattern is
-- routed to the pool, and every other pattern keeps its route; for a pattern that is taken the
-- answer is an error, and nothing changes.
pub add_pool_exact :
    (p : String) (r : ℕ) (q : Pool) (l : LoadBalancer)
    → LbInv l
    → lookup r l.heap ≡ some q
    → q.closed ≡ false
    → ((k : String) → lookup k l.pools ≢ some r)
    → ((is_empty p ≡ true) × (add_pool p r l ≡ panicked))
      ⊎ ((is_empty p ≡ false) × Answered p r l (add_pool p r l))
unfolding add_pool handle
add_pool_exact p r q l v x o fresh = elim (Bool-cases (is_empty p)) [
  | inl b ↦ inl (b, ground (arith, v.named p b))
  | inr b ↦ inr (b, add_proper p r q l v x o fresh b)
]

-- The load balancer once a pool has been closed and its pattern taken away.
abbrev without_pool : String → ℕ → Pool → Mux → LoadBalancer → LoadBalancer
without_pool p r q n l = record {
  pools = delete p l.pools;
  mux = n;
  heap = insert r (record q { closed = true }) l.heap;
}

removed-LbInv :
    (p : String) (r : ℕ) (q : Pool) (n : Mux) (l : LoadBalancer)
    → LbInv l
    → lookup p l.pools ≡ some r
    → ((k : String) → lookup k n ≡ lookup k (delete p l.pools))
    → LbInv (without_pool p r q n l)
removed-LbInv p r q n l v y g = record {
  named = λ k h. ground (arith, lookup-delete p k l.pools, v.named k h);
  map = delete-IsGoMap p l.pools v.map;
  routes = g;
  live = λ k j h.
      let there : lookup k l.pools ≡ some j = ground (arith, lookup-delete p k l.pools) in
      let (u, x, o) = v.live k j there in
      (
        u,
        ground (
          arith,
          lookup-insert r j (record q { closed = true }) l.heap,
          nat_eq.beq_iff r j,
          v.apart p k r y,
          lookup-delete p k l.pools,
          string_eq.beq_iff p k,
        ),
        o,
      );
  apart = λ k m j h g'.
      v.apart k m j (ground (arith, lookup-delete p k l.pools))
        (ground (arith, lookup-delete p m l.pools));
}

removed :
    (p : String) (r : ℕ) (l : LoadBalancer)
    → LbInv l
    → lookup p l.pools ≡ some r
    → (l' : LoadBalancer) × (remove_pool p l ≡ ran l')
      × LbInv l'
      × ((k : String) → lookup k l'.mux ≡ (if p == k then none else lookup k l.mux))
unfolding remove_pool close close_in lookup
removed p r l v y =
    let (q, here, opened) = v.live p r y in
    let m' = delete-IsGoMap p l.pools v.map in
    let there_named : (k : String)
        → is_some (lookup k (delete p l.pools)) ≡ true
        → is_empty k ≡ false =
      λ k h. elim (Bool-cases (is_empty k)) [
        | inr b ↦ b
        | inl b ↦ ground (arith, lookup-delete p k l.pools, v.named k b)
      ] in
    let (n, e, g) =
      handle_all_lem (delete p l.pools) [] (λ k. ground (arith, m' k)) (λ k h. refl)
        (λ k h. there_named k (ground (arith, m' k))) in
    let same : (k : String) → lookup k n ≡ lookup k (delete p l.pools) =
      λ k. ground (arith, g k, Option-cases (lookup k (delete p l.pools))) in
    (
      without_pool p r q n l,
      ground arith,
      removed-LbInv p r q n l v y same,
      (λ k. ground (arith, same k, lookup-delete p k l.pools, v.routes k)),
    )

-- RemovePool on a well-formed balancer does not panic and leaves it well formed. It takes the
-- route of the pattern away, and every other pattern keeps its own.
pub remove_pool_exact :
    (p : String) (l : LoadBalancer)
    → LbInv l
    → (l' : LoadBalancer) × (remove_pool p l ≡ ran l')
      × LbInv l'
      × ((k : String) → lookup k l'.mux ≡ (if p == k then none else lookup k l.mux))
unfolding remove_pool
remove_pool_exact p l v = elim (Option-cases (lookup p l.pools)) [
  | inl y ↦ (l, ground arith, v, (λ k. ground (arith, v.routes k, string_eq.beq_iff p k)))
  | inr (r, y) ↦ removed p r l v y
]
