-- ===== src/Balancer/Backend.antt =====
-- Backends of lb/server/http/server.go and the weights of lb/server/http/p2c.go.
use gofordevopsclass.Prelude.{
  ℕ, zero, suc, ◌+◌, ◌<◌, String, if◌then◌else◌, ltb, length, List, [], ◌∷◌, Option, none, some,
  ◌≡◌, refl, arith,
}
use gofordevopsclass.Prelude.Int.{ℤ, pos, negsuc}

pub data HealthState : Type 0 where
  unknown_hs healthy sick : HealthState

-- IPBackend, with the text of its url() and without its proxy.
pub record IpBackend : Type 0 where
  pub ip : String
  pub port : ℕ
  pub url_path : String
  pub health : HealthState
  pub url : String

-- weightedBackend. The int32 weight is the number of requests that the backend is serving.
pub record WeightedBackend : Type 0 where
  pub backend : IpBackend
  pub weight : ℤ

abbrev pub url : WeightedBackend → String
url w = w.backend.url

abbrev pub set_health : HealthState → WeightedBackend → WeightedBackend
set_health h w = record w { backend = record (w.backend) { health = h } }

-- call: atomic.AddInt32(&w.weight, 1), which wraps at 2 ^ 31.
unfoldable pub call : WeightedBackend → WeightedBackend
call w = record w {
  weight = elim w.weight [
    | pos n ↦ if ltb n 2147483647 then pos (n + 1) else negsuc 2147483647
    | negsuc zero ↦ pos 0
    | negsuc (suc n) ↦ negsuc n
  ];
}

-- done: atomic.AddInt32(&w.weight, -1), and a panic (none) if the weight falls below 0.
unfoldable pub done : WeightedBackend → Option WeightedBackend
done w = elim w.weight [
  | pos zero ↦ none
  | pos (suc n) ↦ some (record w { weight = pos n })
  | negsuc n ↦ none
]

-- What the handlers of one backend do, in any order: each starts with `call` and ends with `done`.
pub data Event : Type 0 where
  starts ends : Event

-- The weight after a run of events; none is the panic of `done`.
unfoldable pub serve : WeightedBackend → List Event → Option WeightedBackend
serve w [] = some w
serve w (starts ∷ es) = serve (call w) es
serve w (ends ∷ es) = elim (done w) [ none ↦ none | some w' ↦ serve w' es ]

-- The requests in flight after a run from `n` of them; none if one ends that has not started.
abbrev pub in_flight : ℕ → List Event → Option ℕ
in_flight n [] = some n
in_flight n (starts ∷ es) = in_flight (suc n) es
in_flight zero (ends ∷ es) = none
in_flight (suc n) (ends ∷ es) = in_flight n es

-- The weight counts the requests in flight, and `done` panics for none of them, as long as there
-- are fewer than 2 ^ 31.
pub serve-in_flight :
    (w : WeightedBackend) (n m : ℕ) (es : List Event)
    → w.weight ≡ pos n
    → n + length es < 2147483648
    → in_flight n es ≡ some m
    → serve w es ≡ some (record w { weight = pos m })
unfolding serve call done
serve-in_flight w n m [] e b h = ground arith
serve-in_flight w n m (starts ∷ es) e b h =
    serve-in_flight (call w) (suc n) m es (ground arith) (omega arith) h
serve-in_flight w zero m (ends ∷ es) e b h = absurd (cc)
serve-in_flight w (suc n) m (ends ∷ es) e b h =
    let ended : done w ≡ some (record w { weight = pos n }) = ground arith in
    rw (ended, serve) (serve-in_flight (record w { weight = pos n }) n m es refl (omega arith) h)
