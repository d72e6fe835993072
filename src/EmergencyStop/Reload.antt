-- ===== src/EmergencyStop/Reload.antt =====
-- Who is told to stop by one turn of the loop of design_for_chaos/es/es.go.
use gofordevopsclass.Prelude.{
  ℕ, ◌≤◌, String, Bool, true, false, ◌&&◌, ◌||◌, if◌then◌else◌, ◌==◌, string_eq, nat_eq, count, ltb,
  length, contains, beq-eq, List, [], ◌∷◌, ◌++◌, map, Option, none, some, ◌≡◌, refl, arith,
  Bool-cases, inl, inr, subst, sym,
}
use gofordevopsclass.GoMap.{GoMap, lookup, IsGoMap, keys}
use gofordevopsclass.EmergencyStop.{
  Info, Reader, Ran, ran, blocked, status_of, status, subscribed, turns_off, stop_old, load, turn,
  turned, with_lock, unlocked, send_stop, stop_all,
}
use gofordevopsclass.EmergencyStop.Loading.{first_valid, load_exact}
use gofordevopsclass.EmergencyStop.Stopping.{Inv, told, send_stop_lem}

-- The entry of the name k is turned off, by the new entries m.
abbrev any_turns : GoMap String Info → String → GoMap String Info → Bool
any_turns m k [] = false
any_turns m k ((n, i) ∷ old) = (n == k) && turns_off i (lookup n m) || any_turns m k old

abbrev pub turns_entry : Option Info → Option Info → Bool
turns_entry none o = false
turns_entry (some i) o = turns_off i o

absent :
    (m old : GoMap String Info) (k : String) → count k (keys old) ≡ 0 → any_turns m k old ≡ false
absent m [] k h = refl
absent m ((n, i) ∷ old) k h = ground (arith, absent m old k)

any_turns-lookup :
    (m old : GoMap String Info) (k : String)
    → count k (keys old) ≤ 1
    → any_turns m k old ≡ turns_entry (lookup k old) (lookup k m)
unfolding lookup
any_turns-lookup m [] k h = refl
any_turns-lookup m ((n, i) ∷ old) k h = elim (Bool-cases (n == k)) [
  | inl b ↦ ground (arith, absent m old k, string_eq.beq_iff n k)
  | inr b ↦ ground (arith, any_turns-lookup m old k)
]

abbrev StopsOld : GoMap String Info → GoMap String Info → Reader → Ran Reader → Type 0
StopsOld m old r o =
    (q : Reader) × (o ≡ ran q)
    × Inv q
    × ((k : String) → subscribed k q ≡ (if any_turns m k old then [] else subscribed k r))
    × ((k : String) (c : ℕ)
        → contains c (subscribed k r) ≡ true
        → lookup c q.channels ≡ (if any_turns m k old then some told else lookup c r.channels))
    × ((c : ℕ)
        → ((k : String) → contains c (subscribed k r) ≡ false)
        → lookup c q.channels ≡ lookup c r.channels)

stop_old_lem :
    (m old : GoMap String Info) (r : Reader) → Inv r → StopsOld m old r (stop_old m old r)
unfolding stop_old
stop_old_lem m [] r v = (r, refl, v, (λ k. refl), (λ k c i. refl), λ c h. refl)
stop_old_lem m ((n, i) ∷ old) r v = elim (Bool-cases (turns_off i (lookup n m))) [
  | inr b ↦
      let (q, e, u, f, g, z) = stop_old_lem m old r v in
      (q, ground arith, u, (λ k. ground (arith, f k)), (λ k c h. ground (arith, g k c)), z)
  | inl b ↦
      let (p, e', s, w, f', g') = send_stop_lem n r v in
      let (q, e, u, f, g, z) = stop_old_lem m old p w in
      let free : (c : ℕ)
          → contains c (subscribed n r) ≡ true
          → (k : String) → contains c (subscribed k p) ≡ false =
        λ c h k. ground (arith, f' k, v.apart n k c h, string_eq.beq_iff n k) in
      (
        q,
        ground arith,
        u,
        (λ k. ground (arith, f k, f' k)),
        (λ k c h. elim (Bool-cases (n == k)) [
          | inl y ↦
              let here : contains c (subscribed n r) ≡ true =
                subst (λ t. contains c (subscribed t r) ≡ true) (sym (beq-eq n k y)) h in
              ground (arith, z c (free c here), g' c)
          | inr y ↦ ground (arith, f' k, g k c, g' c, v.apart n k c, string_eq.beq_iff n k)
        ]),
        λ c h. ground (arith, z c (λ k. ground (arith, f' k, h k)), g' c, h n),
      )
]

-- The channels and subscriptions of the name k are as one turn of the loop leaves them: all told to
-- stop and gone, or all as they were.
abbrev pub TurnedFor : Bool → String → Reader → Reader → Type 0
TurnedFor off k r q =
    (subscribed k q ≡ (if off then [] else subscribed k r))
    × ((c : ℕ)
        → contains c (subscribed k r) ≡ true
        → lookup c q.channels ≡ (if off then some told else lookup c r.channels))

pub turn_exact :
    (l : List Info) (r : Reader)
    → IsGoMap r.entries
    → Inv r
    → (q : Reader) × (turn (some (map some l)) r ≡ ran q)
      × IsGoMap q.entries
      × Inv q
      × ((k : String) → status k q ≡ status_of (first_valid k l))
      × ((k : String) → TurnedFor (turns_entry (lookup k r.entries) (first_valid k l)) k r q)
unfolding turn status
turn_exact l r gm v =
    let ((m, e, g, f), broken) = load_exact l [] r in
    let (q, e', u, s, t, z) = stop_old_lem m r.entries r v in
    let off : (k : String)
        → any_turns m k r.entries ≡ turns_entry (lookup k r.entries) (first_valid k l) =
      λ k. ground (arith, any_turns-lookup m r.entries k (ground (arith, gm k)), f k) in
    (
      record q { entries = m },
      ground arith,
      g,
      record { open_channel = u.open_channel; once = u.once; apart = u.apart; free = u.free },
      (λ k. ground (arith, f k)),
      λ k. (ground (arith, s k, off k), λ c h. ground (arith, t k c h, off k)),
    )

-- A caller that holds the mutex never comes back from sendStop.
send_stop-held : (n : String) (r : Reader) → r.mu ≡ true → send_stop n r ≡ blocked
unfolding send_stop with_lock
send_stop-held n r h = ground arith

-- The range of loop over the subscribers, with the mutex held.
stop_all-held :
    (ns : List String) (r : Reader)
    → r.mu ≡ true
    → stop_all ns r ≡ (if ltb 0 (length ns) then blocked else ran r)
unfolding stop_all
stop_all-held [] r h = refl
stop_all-held (n ∷ ns) r h = ground (arith, send_stop-held n r h)

failed_turn :
    (r : Reader)
    → r.mu ≡ false
    → turned (none, r) ≡ (if ltb 0 (length (keys r.subscribers)) then blocked else ran r)
unfolding with_lock
failed_turn r h =
    rw (h, stop_all-held (keys r.subscribers) (record r { mu = true }) refl)
      (by_names (keys r.subscribers))
  where
    by_names :
        (ns : List String)
        → unlocked (if ltb 0 (length ns) then blocked else ran (record r { mu = true }))
          ≡ (if ltb 0 (length ns) then blocked else ran (record r { mu = false }))
    by_names [] = ground arith
    by_names (n ∷ ns) = ground arith

-- After a reload that fails, on a reader whose mutex is free, the loop never comes back if any name
-- is in the map of the subscribers, since it waits for its own mutex; if none is, it goes on. The
-- reader is then as it was for a file that does not open, and has lost its entries for one with an
-- entry that does not decode.
pub failed_reload_blocks :
    (l : List Info) (ds : List (Option Info)) (r : Reader)
    → r.mu ≡ false
    → (turn none r ≡ (if ltb 0 (length (keys r.subscribers)) then blocked else ran r))
      × (turn (some (map some l ++ none ∷ ds)) r ≡ (
          if ltb 0 (length (keys r.subscribers)) then blocked else ran (record r { entries = [] })))
unfolding turn load
failed_reload_blocks l ds r h =
    let (y, broken) = load_exact l ds r in
    (failed_turn r h, ground (arith, broken, failed_turn (record r { entries = [] }) h))
