-- ===== src/EmergencyStop.antt =====
-- design_for_chaos/es/es.go: the emergency stop. A reader keeps the entries of a file and the
-- channels of those who subscribed to one of them. The methods run one at a time here, and take the
-- mutex, which is not reentrant; a channel is an object of its own, which is named by a number.
pub mod Loading
pub mod Stopping
pub mod Reload
pub mod Subscribing
mod Examples
use gofordevopsclass.Prelude.{
  ℕ, zero, suc, ◌+◌, ◌-◌, String, Bool, true, false, not, ◌&&◌, ◌||◌, if◌then◌else◌, ◌==◌,
  string_eq, nat_eq, ltb, is_some, length, keep_if, List, [], ◌∷◌, ◌++◌, Option, none, some,
}
use gofordevopsclass.Prelude.Text.{trim_space, is_empty}
use gofordevopsclass.GoMap.{GoMap, lookup, insert, delete, keys}

-- Status is a string.
abbrev pub go_status : String
go_status = "go"

abbrev pub stop_status : String
stop_status = "stop"

pub record Info : Type 0 where
  pub name : String
  pub status : String

-- A chan Status of capacity 1.
pub record Channel : Type 0 where
  pub queue : List String
  pub closed : Bool

pub record Reader : Type 0 where
  pub entries : GoMap String Info
  pub subscribers : GoMap String (List ℕ)
  -- The channels that were made, by number, and the next number.
  pub channels : GoMap ℕ Channel
  pub next_channel : ℕ
  -- Whether the mutex is held.
  pub mu : Bool

-- A call returns, panics, or never returns.
pub data Ran {ℓ} (A : Type ℓ) : Type ℓ where
  ran : A → Ran A
  panicked blocked : Ran A

-- Info.validate has a copy of the Info, so the trimmed name is not kept: true if there is no error.
unfoldable pub validate : Info → Bool
validate i =
    if is_empty (trim_space i.name) then false else i.status == go_status || i.status == stop_status

-- The loop of load, over what the decoder gives: none is an entry that does not decode.
unfoldable pub load_entries : List (Option Info) → GoMap String Info → Option (GoMap String Info)
load_entries [] m = some m
load_entries (none ∷ ds) m = none
load_entries (some i ∷ ds) m =
    let m' = if is_some (lookup i.name m) then m else if validate i then insert i.name i m else m in
    load_entries ds m'

-- load: what it returns (none is an error) and the reader, for a file (none does not open). Entries
-- that do not decode clear those of the reader.
abbrev loaded : Option (GoMap String Info) → Reader → Option (GoMap String Info) × Reader
loaded none r = (none, record r { entries = [] })
loaded (some m) r = (some m, r)

unfoldable pub load : Option (List (Option Info)) → Reader → Option (GoMap String Info) × Reader
load none r = (none, r)
load (some ds) r = loaded (load_entries ds []) r

-- r.mu.Lock(), the body and r.mu.Unlock(): a caller waits for a mutex that is held, also if it is
-- the caller that holds it.
abbrev pub unlocked : Ran Reader → Ran Reader
unlocked (ran r) = ran (record r { mu = false })
unlocked panicked = panicked
unlocked blocked = blocked

unfoldable pub with_lock : (Reader → Ran Reader) → Reader → Ran Reader
with_lock body r = if r.mu then blocked else unlocked (body (record r { mu = true }))

-- Reader.Status
abbrev pub status_of : Option Info → String
status_of none = stop_status
status_of (some i) = if i.status == go_status then go_status else stop_status

unfoldable pub status : String → Reader → String
status n r = status_of (lookup n r.entries)

abbrev pub listed : Option (List ℕ) → List ℕ
listed none = []
listed (some l) = l

-- r.subscribers[n]
abbrev pub subscribed : String → Reader → List ℕ
subscribed n r = listed (lookup n r.subscribers)

-- Subscribe: the number of the channel, and the reader. The mutex, which is taken for a name that is
-- on, is given back.
unfoldable pub subscribe : String → Reader → Ran (ℕ × Reader)
subscribe n r =
    let c = r.next_channel in
    if status n r == go_status
    then (if r.mu
        then blocked
        else ran (
          c,
          record r {
            channels = insert c (record { queue = go_status ∷ []; closed = false }) r.channels;
            next_channel = suc c;
            subscribers = insert n (subscribed n r ++ c ∷ []) r.subscribers;
          },
        ))
    else ran (
      c,
      record r {
        channels = insert c (record { queue = stop_status ∷ []; closed = true }) r.channels;
        next_channel = suc c;
      },
    )

-- The Cancel that Subscribe returns for a channel with Go. Its make has the capacity
-- len(r.subscribers[name])-1, and panics if that is -1.
unfoldable pub cancel : String → ℕ → Reader → Ran Reader
cancel n c r =
    let l = subscribed n r in
    if r.mu
    then blocked
    else if ltb (length l) 1
    then panicked
    else ran (record r { subscribers = insert n (keep_if (λ d. not (d == c)) l) r.subscribers })

-- The for loop over `ch <- Stop`, on an open channel: if it is full, the oldest entry goes.
unfoldable pub put_stop : ℕ → List String → Option (List String)
put_stop zero q = none
put_stop (suc f) [] = some (stop_status ∷ [])
put_stop (suc f) (x ∷ q) = put_stop f q

-- One turn of the loop of sendStop, with close(ch) and delete(r.subscribers, name).
abbrev stopped : String → ℕ → Reader → Option (List String) → Ran Reader
stopped n c r none = blocked
stopped n c r (some q) = ran (record r {
  channels = insert c (record { queue = q; closed = true }) r.channels;
  subscribers = delete n r.subscribers;
})

abbrev stop_channel : String → ℕ → Reader → Option Channel → Ran Reader
stop_channel n c r none = blocked
stop_channel n c r (some ch) = if ch.closed then panicked else stopped n c r (put_stop 2 ch.queue)

unfoldable pub stop_channels : String → List ℕ → Reader → Ran Reader
stop_channels n [] r = ran r
stop_channels n (c ∷ cs) r = elim (stop_channel n c r (lookup c r.channels)) [
  | ran q ↦ stop_channels n cs q
  | panicked ↦ panicked
  | blocked ↦ blocked
]

-- sendStop
unfoldable pub send_stop : String → Reader → Ran Reader
unfolding with_lock
send_stop n r = with_lock (stop_channels n (subscribed n r)) r

-- Whether loop stops the name, for its old and its new entry.
abbrev pub turns_off : Info → Option Info → Bool
turns_off i none = true
turns_off i (some j) = i.status == go_status && not (j.status == go_status)

-- The range of loop over the old entries.
unfoldable pub stop_old : GoMap String Info → GoMap String Info → Reader → Ran Reader
stop_old m [] r = ran r
stop_old m ((n, i) ∷ old) r =
    if turns_off i (lookup n m)
    then (elim (send_stop n r) [
      | ran q ↦ stop_old m old q
      | panicked ↦ panicked
      | blocked ↦ blocked
    ])
    else stop_old m old r

abbrev stored : GoMap String Info → Ran Reader → Ran Reader
stored m (ran r) = ran (record r { entries = m })
stored m panicked = panicked
stored m blocked = blocked

-- The range of loop over the names of r.subscribers, after an error of load.
unfoldable pub stop_all : List String → Reader → Ran Reader
stop_all [] r = ran r
stop_all (n ∷ ns) r = elim (send_stop n r) [
  | ran q ↦ stop_all ns q
  | panicked ↦ panicked
  | blocked ↦ blocked
]

-- One turn of loop.
abbrev pub turned : Option (GoMap String Info) × Reader → Ran Reader
turned (none, r) = with_lock (stop_all (keys r.subscribers)) r
turned (some m, r) = stored m (stop_old m r.entries r)

unfoldable pub turn : Option (List (Option Info)) → Reader → Ran Reader
turn file r = turned (load file r)
