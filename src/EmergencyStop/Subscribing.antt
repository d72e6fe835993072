-- ===== src/EmergencyStop/Subscribing.antt =====
-- Subscribe and Cancel of design_for_chaos/es/es.go.
use gofordevopsclass.Prelude.{
  ℕ, suc, ◌≤◌, String, true, false, not, ◌&&◌, ◌||◌, if◌then◌else◌, ◌==◌, string_eq, nat_eq, ltb,
  length, count, contains, count-append, beq_self, keep_if, List, [], ◌∷◌, ◌++◌, none, some, ◌≡◌,
  ◌≢◌, refl, arith, Bool-cases, inl, inr,
}
use gofordevopsclass.GoMap.{lookup, insert}
use gofordevopsclass.GoMap.Laws.{lookup-insert}
use gofordevopsclass.EmergencyStop.{
  Channel, Reader, ran, panicked, go_status, status, subscribed, subscribe, cancel, send_stop,
}
use gofordevopsclass.EmergencyStop.Stopping.{Inv, told, send_stop_lem, contains-count}

-- A channel with Go in it.
abbrev pub started : Channel
started = record { queue = go_status ∷ []; closed = false }

contains-added : (c d : ℕ) (l : List ℕ) → contains c (l ++ d ∷ []) ≡ (contains c l || (d == c))
contains-added c d [] = ground arith
contains-added c d (x ∷ l) = ground (arith, contains-added c d l)

-- A channel that is not in memory is subscribed nowhere.
unused :
    (n : String) (r : Reader)
    → Inv r
    → lookup r.next_channel r.channels ≡ none
    → contains r.next_channel (subscribed n r) ≡ false
unused n r v fresh = elim (Bool-cases (contains r.next_channel (subscribed n r))) [
  | inr x ↦ x
  | inl x ↦ let (h, there, u) = v.open_channel n r.next_channel x in ground arith
]

joined :
    (n : String) (r q : Reader)
    → Inv r
    → lookup r.next_channel r.channels ≡ none
    → ((d : ℕ)
        → lookup d q.channels ≡ (if r.next_channel == d then some started else lookup d r.channels))
    → ((k : String)
        → subscribed k q
          ≡ (if n == k then subscribed k r ++ r.next_channel ∷ [] else subscribed k r))
    → q.mu ≡ false
    → Inv q
joined n r q v fresh g f unlocked = record {
  free = unlocked;
  open_channel = λ k d i. elim (Bool-cases (r.next_channel == d)) [
    | inl x ↦ (started, ground (arith, g d), (refl, omega arith))
    | inr x ↦
        let (h, there, u) =
          v.open_channel k d
            (ground (arith, f k, contains-added d r.next_channel (subscribed k r))) in
        (h, ground (arith, g d), u)
  ];
  once = λ k d. ground (
    arith,
    f k,
    v.once k d,
    unused k r v fresh,
    contains-count d (subscribed k r),
    count-append d (subscribed k r) (r.next_channel ∷ []),
    nat_eq.beq_iff r.next_channel d,
  );
  apart = λ k j d i h. elim (Bool-cases (r.next_channel == d)) [
    | inl x ↦ ground (
      arith,
      f k,
      f j,
      unused k r v fresh,
      unused j r v fresh,
      nat_eq.beq_iff r.next_channel d,
      string_eq.beq_iff n k,
      string_eq.beq_iff n j,
    )
    | inr x ↦
        v.apart k j d (ground (arith, f k, contains-added d r.next_channel (subscribed k r)))
          (ground (arith, f j, contains-added d r.next_channel (subscribed j r)))
  ];
}

-- Subscribe, on a reader whose subscribed channels are open, in memory and subscribed once, and
-- whose next channel is new, leaves the reader so. For a name that is on, the subscriber gets an
-- open channel with Go and joins the subscribers of the name; for another name it gets a closed
-- channel with Stop and joins nobody. All the other channels and subscriptions stay.
pub subscribe_exact :
    (n : String) (r : Reader)
    → Inv r
    → lookup r.next_channel r.channels ≡ none
    → (q : Reader) × (subscribe n r ≡ ran (r.next_channel, q))
      × Inv q
      × (lookup r.next_channel q.channels
          ≡ some (if status n r == go_status then started else told))
      × ((k : String)
          → subscribed k q ≡ (
              if (status n r == go_status) && (n == k)
              then subscribed k r ++ r.next_channel ∷ []
              else subscribed k r))
      × ((d : ℕ) → d ≢ r.next_channel → lookup d q.channels ≡ lookup d r.channels)
unfolding subscribe
subscribe_exact n r v fresh = elim (Bool-cases (status n r == go_status)) [
  | inl b ↦
      let c = r.next_channel in
      let q : Reader = record r {
        channels = insert c started r.channels;
        next_channel = suc c;
        subscribers = insert n (subscribed n r ++ c ∷ []) r.subscribers;
      } in
      let here : (k : String)
          → subscribed k q ≡ (if n == k then subscribed k r ++ c ∷ [] else subscribed k r) =
        λ k. ground (
          arith,
          lookup-insert n k (subscribed n r ++ c ∷ []) r.subscribers,
          string_eq.beq_iff n k,
        ) in
      (
        q,
        ground (arith, v.free),
        joined n r q v fresh (λ d. lookup-insert c d started r.channels) here v.free,
        ground (arith, lookup-insert c c started r.channels, beq_self c),
        (λ k. ground (arith, here k)),
        λ d h. ground (arith, lookup-insert c d started r.channels),
      )
  | inr b ↦
      let c = r.next_channel in
      let q : Reader = record r { channels = insert c told r.channels; next_channel = suc c } in
      (
        q,
        ground arith,
        record {
          open_channel = λ k d i.
              let (h, there, u) = v.open_channel k d i in
              (h, ground (arith, lookup-insert c d told r.channels, nat_eq.beq_iff c d), u);
          once = v.once;
          apart = v.apart;
          free = v.free;
        },
        ground (arith, lookup-insert c c told r.channels, beq_self c),
        (λ k. ground arith),
        λ d h. ground (arith, lookup-insert c d told r.channels),
      )
]

-- On a reader whose subscribed channels are open, in memory and subscribed once, sendStop for a
-- name returns, and after it every Cancel for the name panics.
pub cancel_after_stop_panics :
    (n : String) (c : ℕ) (r : Reader)
    → Inv r
    → (q : Reader) × (send_stop n r ≡ ran q) × (cancel n c q ≡ panicked)
unfolding cancel
cancel_after_stop_panics n c r v =
    let (q, e, s, w, f, g) = send_stop_lem n r v in (q, e, ground (arith, f n, beq_self n, w.free))

contains-none : (c : ℕ) (l : List ℕ) → contains c l ≡ true → ltb (length l) 1 ≡ false
contains-none c [] h = ground arith
contains-none c (d ∷ l) h = ground arith

contains-kept :
    (c d : ℕ) (l : List ℕ)
    → contains d (keep_if (λ x. not (x == c)) l) ≡ (contains d l && not (c == d))
contains-kept c d [] = refl
contains-kept c d (x ∷ l) = ground (arith, contains-kept c d l)

count-kept : (c d : ℕ) (l : List ℕ) → count d (keep_if (λ x. not (x == c)) l) ≤ count d l
count-kept c d [] = omega arith
count-kept c d (x ∷ l) = ground (arith, count-kept c d l)

-- Cancel of a channel that is still subscribed, on a reader whose subscribed channels are open, in
-- memory and subscribed once, returns, leaves the reader so, and takes away this subscription and
-- nothing else.
pub cancel_exact :
    (n : String) (c : ℕ) (r : Reader)
    → Inv r
    → contains c (subscribed n r) ≡ true
    → (q : Reader) × (cancel n c r ≡ ran q)
      × Inv q
      × ((k : String) (d : ℕ)
          → contains d (subscribed k q)
            ≡ (contains d (subscribed k r) && not ((n == k) && (c == d))))
unfolding cancel
cancel_exact n c r v h =
    let l = keep_if (λ d. not (d == c)) (subscribed n r) in
    let q : Reader = record r { subscribers = insert n l r.subscribers } in
    let here : (k : String) → subscribed k q ≡ (if n == k then l else subscribed k r) =
      λ k. ground (arith, lookup-insert n k l r.subscribers) in
    let kept : (k : String) (d : ℕ)
        → contains d (subscribed k q)
          ≡ (contains d (subscribed k r) && not ((n == k) && (c == d))) =
      λ k d. ground (arith, here k, contains-kept c d (subscribed n r), string_eq.beq_iff n k) in
    (
      q,
      ground (arith, contains-none c (subscribed n r), v.free),
      record {
        free = v.free;
        open_channel = λ k d i. v.open_channel k d (ground (arith, kept k d));
        once =
            λ k d. ground (arith, here k, v.once k d, v.once n d, count-kept c d (subscribed n r));
        apart = λ k j d i e. v.apart k j d (ground (arith, kept k d)) (ground (arith, kept j d));
      },
      kept,
    )
