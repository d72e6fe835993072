-- ===== src/EmergencyStop/Examples.antt =====
-- The theorems on the emergency stop at a reader with one subscriber.
use gofordevopsclass.Prelude.{
  ℕ, String, true, false, ◌&&◌, if◌then◌else◌, ◌==◌, ◌++◌, map, string_eq, nat_eq, contains, [],
  ◌∷◌, none, some, ◌≡◌, ◌≢◌, refl, arith,
}
use gofordevopsclass.GoMap.{lookup, IsGoMap}
use gofordevopsclass.EmergencyStop.{
  Info, Reader, ran, blocked, go_status, status_of, status, subscribed, subscribe, turn,
}
use gofordevopsclass.EmergencyStop.Loading.{first_valid}
use gofordevopsclass.EmergencyStop.Stopping.{Inv, told}
use gofordevopsclass.EmergencyStop.Reload.{TurnedFor, turns_entry, turn_exact, failed_reload_blocks}
use gofordevopsclass.EmergencyStop.Subscribing.{started, subscribe_exact}

abbrev on : Info
on = record { name = "sat"; status = "go" }

abbrev off : Info
off = record { name = "sat"; status = "stop" }

abbrev reader : Reader
reader = record {
  entries = ("sat", on) ∷ [];
  subscribers = ("sat", 0 ∷ []) ∷ [];
  channels = (0, started) ∷ [];
  next_channel = 1;
  mu = false;
}

subscribers_of : (n : String) → subscribed n reader ≡ (if "sat" == n then 0 ∷ [] else [])
unfolding lookup
subscribers_of n = ground arith

channel_0 : lookup 0 reader.channels ≡ some started
unfolding lookup
channel_0 = refl

reader-Inv : Inv reader
reader-Inv = record {
  free = refl;
  open_channel = λ n c i. (
    started,
    ground (arith, subscribers_of n, channel_0, nat_eq.beq_iff 0 c),
    (refl, omega arith),
  );
  once = λ n c. ground (arith, subscribers_of n);
  apart = λ n k c i h. ground (
    arith,
    subscribers_of n,
    subscribers_of k,
    string_eq.beq_iff "sat" n,
    string_eq.beq_iff "sat" k,
  );
}

entries-IsGoMap : IsGoMap reader.entries
unfolding lookup
entries-IsGoMap k = ground arith

turn_exact_example :
    (q : Reader) × (turn (some (map some (off ∷ []))) reader ≡ ran q)
    × IsGoMap q.entries
    × Inv q
    × ((k : String) → status k q ≡ status_of (first_valid k (off ∷ [])))
    × ((k : String)
        → TurnedFor (turns_entry (lookup k reader.entries) (first_valid k (off ∷ []))) k reader q)
turn_exact_example = turn_exact (off ∷ []) reader entries-IsGoMap reader-Inv

failed_reload_blocks_example :
    (turn none reader ≡ blocked) × (turn (some (map some (on ∷ []) ++ none ∷ [])) reader ≡ blocked)
failed_reload_blocks_example = failed_reload_blocks (on ∷ []) [] reader refl

new_channel : lookup reader.next_channel reader.channels ≡ none
unfolding lookup
new_channel = refl

subscribe_exact_example :
    (q : Reader) × (subscribe "sat" reader ≡ ran (1, q))
    × Inv q
    × (lookup 1 q.channels ≡ some (if status "sat" reader == go_status then started else told))
    × ((k : String)
        → subscribed k q ≡ (
            if (status "sat" reader == go_status) && ("sat" == k)
            then subscribed k reader ++ 1 ∷ []
            else subscribed k reader))
    × ((d : ℕ) → d ≢ 1 → lookup d q.channels ≡ lookup d reader.channels)
subscribe_exact_example = subscribe_exact "sat" reader reader-Inv new_channel

subscriber : contains 0 (subscribed "sat" reader) ≡ true
unfolding lookup
subscriber = refl
