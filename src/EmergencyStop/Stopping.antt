-- ===== src/EmergencyStop/Stopping.antt =====
-- Who is told to stop by sendStop of design_for_chaos/es/es.go.
use gofordevopsclass.Prelude.{
  ℕ, ◌≤◌, String, Bool, true, false, ◌&&◌, if◌then◌else◌, ◌==◌, string_eq, nat_eq, ltb, length,
  count, contains, beq_self, List, [], ◌∷◌, some, ◌≡◌, refl, arith,
}
use gofordevopsclass.GoMap.{lookup, insert, delete}
use gofordevopsclass.GoMap.Laws.{lookup-insert, lookup-delete}
use gofordevopsclass.EmergencyStop.{
  Channel, Reader, ran, stop_status, subscribed, put_stop, stop_channels, send_stop, with_lock,
}

-- Open, and with at most one entry.
abbrev pub IsOpen : Channel → Type 0
IsOpen ch = (ch.closed ≡ false) × (length ch.queue ≤ 1)

-- Each subscribed channel is in memory and open, no channel is subscribed twice, and nobody holds the
-- mutex.
pub record Inv (r : Reader) : Type 0 where
  pub open_channel :
      (n : String) (c : ℕ)
      → contains c (subscribed n r) ≡ true
      → (ch : Channel) × (lookup c r.channels ≡ some ch) × IsOpen ch
  pub once : (n : String) (c : ℕ) → count c (subscribed n r) ≤ 1
  pub apart :
      (n k : String) (c : ℕ)
      → contains c (subscribed n r) ≡ true
      → contains c (subscribed k r) ≡ true
      → n ≡ k
  pub free : r.mu ≡ false

-- A channel that was told to stop.
abbrev pub told : Channel
told = record { queue = stop_status ∷ []; closed = true }

put_stop_lem : (q : List String) → length q ≤ 1 → put_stop 2 q ≡ some (stop_status ∷ [])
unfolding put_stop
put_stop_lem [] h = refl
put_stop_lem (x ∷ []) h = refl
put_stop_lem (x ∷ y ∷ q) h = ground arith

pub contains-count : (c : ℕ) (l : List ℕ) → contains c l ≡ ltb 0 (count c l)
contains-count c [] = refl
contains-count c (d ∷ l) = ground (arith, contains-count c l)

abbrev has : List ℕ → Bool
has [] = false
has (c ∷ cs) = true

has_none : (l : List ℕ) → has l ≡ false → l ≡ []
has_none [] h = refl
has_none (c ∷ l) h = ground arith

stop_channels_lem :
    (n : String) (cs : List ℕ) (r : Reader)
    → ((c : ℕ) → count c cs ≤ 1)
    → ((c : ℕ)
        → contains c cs ≡ true
        → (ch : Channel) × (lookup c r.channels ≡ some ch) × IsOpen ch)
    → (q : Reader) × (stop_channels n cs r ≡ ran q)
      × (q.entries ≡ r.entries)
      × ((k : String) → subscribed k q ≡ (if has cs && (n == k) then [] else subscribed k r))
      × ((c : ℕ) → lookup c q.channels ≡ (if contains c cs then some told else lookup c r.channels))
unfolding stop_channels
stop_channels_lem n [] r d o = (r, refl, refl, (λ k. refl), λ c. refl)
stop_channels_lem n (c ∷ cs) r d o =
    let (ch, here, (closed, short)) = o c (ground (arith, beq_self c)) in
    let r' : Reader = record r {
      channels = insert c told r.channels;
      subscribers = delete n r.subscribers;
    } in
    let still_open : (x : ℕ)
        → contains x cs ≡ true
        → (h : Channel) × (lookup x r'.channels ≡ some h) × IsOpen h =
      λ x i.
        let (h, there, u) = o x (ground arith) in
        (
          h,
          ground (
            arith,
            lookup-insert c x told r.channels,
            d x,
            contains-count x cs,
            nat_eq.beq_iff c x,
          ),
          u,
        ) in
    let (q, e, s, f, g) =
      stop_channels_lem n cs r' (λ x. omega (arith, d x)) (λ x i. still_open x i) in
    (
      q,
      ground (arith, put_stop_lem ch.queue short),
      s,
      (λ k. ground (arith, f k, lookup-delete n k r.subscribers)),
      (λ x. ground (arith, g x, lookup-insert c x told r.channels)),
    )

pub send_stop_lem :
    (n : String) (r : Reader)
    → Inv r
    → (q : Reader) × (send_stop n r ≡ ran q)
      × (q.entries ≡ r.entries)
      × Inv q
      × ((k : String) → subscribed k q ≡ (if n == k then [] else subscribed k r))
      × ((c : ℕ)
          → lookup c q.channels
            ≡ (if contains c (subscribed n r) then some told else lookup c r.channels))
unfolding send_stop with_lock
send_stop_lem n r v =
    let (p, e, s, f, g) =
      stop_channels_lem n (subscribed n r) (record r { mu = true }) (v.once n) (v.open_channel n) in
    let q : Reader = record p { mu = false } in
    let f' : (k : String) → subscribed k q ≡ (if n == k then [] else subscribed k r) =
      λ k. ground (arith, f k, string_eq.beq_iff n k, has_none (subscribed n r)) in
    (
      q,
      ground (arith, e, v.free),
      s,
      record {
        open_channel = λ k c i.
            let was : contains c (subscribed k r) ≡ true = ground (arith, f' k) in
            let (h, there, u) = v.open_channel k c was in
            (h, ground (arith, g c, f' k, v.apart n k c, string_eq.beq_iff n k), u);
        once = λ k c. ground (arith, f' k, v.once k c);
        apart = λ k j c i h. v.apart k j c (ground (arith, f' k)) (ground (arith, f' j));
        free = refl;
      },
      f',
      g,
    )
