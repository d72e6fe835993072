-- ===== src/Balancer/P2c/Picks.antt =====
-- ServeHTTP and Health of p2c.go.
use gofordevopsclass.Prelude.{
  ℕ, zero, suc, ◌+◌, ◌≤◌, ◌<◌, Bool, if◌then◌else◌, length, length-append, get_elem?, List, [], ◌∷◌,
  map, some, ◌≡◌, ◌↔◌, ◌⊎◌, refl, arith, ap,
}
use gofordevopsclass.Prelude.Int.{ℤ, pos_part, neg_part, ltb_ℤ}
use gofordevopsclass.Balancer.Backend.{WeightedBackend}
use gofordevopsclass.Balancer.P2c.{
  Pool, serve_http, health, health_of, ps_full, ps_empty, ps_degraded, bs_healthy, bs_sick,
}

abbrev pub ◌≤ℤ◌ : ℤ → ℤ → Type 0
◌≤ℤ◌ a b = pos_part a + neg_part b ≤ pos_part b + neg_part a

get_elem?-below {ℓ} :
    {A : Type ℓ} (xs : List A) (i : ℕ) → i < length xs → (a : A) × (get_elem? xs i ≡ some a)
get_elem?-below [] i h = elim h [ ]
get_elem?-below (x ∷ xs) zero h = (x, refl)
get_elem?-below (x ∷ xs) (suc i) h = get_elem?-below xs i (omega arith)

-- For the two indices that the random numbers give, which are below the number of healthy
-- backends, ServeHTTP serves by one of the two backends, and none of the two has less weight.
pub serve_http_lighter :
    (x y : ℕ) (p : Pool)
    → x < length p.healthy
    → y < length p.healthy
    → (a b c : WeightedBackend) × (get_elem? p.healthy x ≡ some a)
      × (get_elem? p.healthy y ≡ some b)
      × (serve_http x y p ≡ some c)
      × ((c ≡ a) ⊎ (c ≡ b))
      × (◌≤ℤ◌ c.weight a.weight)
      × (◌≤ℤ◌ c.weight b.weight)
unfolding serve_http
serve_http_lighter x y p h k =
    let (a, e) = get_elem?-below p.healthy x h in
    let (b, f) = get_elem?-below p.healthy y k in
    (
      a,
      b,
      (if ltb_ℤ a.weight b.weight then a else b),
      e,
      f,
      ground arith,
      ground arith,
      ground arith,
      ground arith,
    )

-- The number of backends that a request for health asks for.
abbrev pub asked : Bool → Bool → Pool → ℕ
asked h s p = (if h then length p.healthy else 0) + (if s then length p.sick else 0)

length-map {ℓ κ} :
    {A : Type ℓ} {B : Type κ} (f : A → B) (xs : List A) → length (map f xs) ≡ length xs
length-map f [] = refl
length-map f (x ∷ xs) = ap suc (length-map f xs)

-- Health says empty exactly for a pool with no backends, degraded exactly for one with a sick
-- backend, full exactly for one with healthy backends only, and lists as many backends as are asked
-- for.
pub health_exact :
    (h s : Bool) (p : Pool)
    → (((health h s p).status ≡ ps_empty) ↔ ((p.healthy ≡ []) × (p.sick ≡ [])))
      × (((health h s p).status ≡ ps_degraded) ↔ (0 < length p.sick))
      × (((health h s p).status ≡ ps_full) ↔ ((0 < length p.healthy) × (p.sick ≡ [])))
      × (length (health h s p).backends ≡ asked h s p)
unfolding health
health_exact h s p = lists p.healthy p.sick refl refl
  where
    lists :
        (xs ys : List WeightedBackend)
        → p.healthy ≡ xs
        → p.sick ≡ ys
        → (((health h s p).status ≡ ps_empty) ↔ ((p.healthy ≡ []) × (p.sick ≡ [])))
          × (((health h s p).status ≡ ps_degraded) ↔ (0 < length p.sick))
          × (((health h s p).status ≡ ps_full) ↔ ((0 < length p.healthy) × (p.sick ≡ [])))
          × (length (health h s p).backends ≡ asked h s p)
    lists [] [] e f = ground arith
    lists (x ∷ xs) [] e f = ground (
      arith,
      length-map (health_of bs_healthy) (x ∷ xs),
      length-append (map (health_of bs_healthy) (x ∷ xs)) [],
    )
    lists [] (y ∷ ys) e f = ground (arith, length-map (health_of bs_sick) (y ∷ ys))
    lists (x ∷ xs) (y ∷ ys) e f = ground (
      arith,
      length-map (health_of bs_healthy) (x ∷ xs),
      length-append (map (health_of bs_healthy) (x ∷ xs)) [],
      length-map (health_of bs_sick) (y ∷ ys),
      length-append (map (health_of bs_healthy) (x ∷ xs)) (map (health_of bs_sick) (y ∷ ys)),
    )
