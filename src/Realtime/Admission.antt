-- ===== src/Realtime/Admission.antt =====
-- src/realtime.rs: the slots that connections hold, and the hub's count of them.
use luxor.Base.{ℕ, ◌+◌, ◌≤◌, ◌≡◌, refl, Bool, true, false, none, some, List, [], ◌∷◌, ◌++◌, arith}
use luxor.Realtime.{RealtimeHub, new_hub, try_admit, release}

-- The slots ever handed out, newest first, each with its `released` flag.
pub record Instance : Type 0 where
  pub hub : RealtimeHub
  pub slots : List Bool

unfoldable pub held : List Bool → ℕ
held [] = 0
held (true ∷ ss) = held ss
held (false ∷ ss) = held ss + 1

-- What can happen: a handshake that is admitted or refused, and a slot released or dropped, at any
-- place and any number of times.
pub data Step : Instance → Instance → Type 0 where
  admit :
      (i : Instance) (flag : Bool) (hub : RealtimeHub)
      → try_admit i.hub ≡ some (flag, hub)
      → Step i (record { hub = hub; slots = flag ∷ i.slots })
  refuse : (i : Instance) → try_admit i.hub ≡ none → Step i i
  free :
      (hub : RealtimeHub) (before : List Bool) (flag : Bool) (after : List Bool)
      → Step
          (record { hub = hub; slots = before ++ flag ∷ after })
          (record { hub = (release flag hub).1; slots = before ++ (release flag hub).0 ∷ after })

pub data Reach (max : ℕ) : Instance → Type 0 where
  start : Reach max (record { hub = new_hub max; slots = [] })
  next : {i j : Instance} → Reach max i → Step i j → Reach max j

pub record IsBalanced (max : ℕ) (i : Instance) : Type 0 where
  pub counted : i.hub.connections ≡ held i.slots
  pub bounded : i.hub.connections ≤ max
  pub capacity : i.hub.max_connections ≡ max

held-append :
    (ss : List Bool) (flag : Bool) (ts : List Bool)
    → held (ss ++ flag ∷ ts) ≡ held (flag ∷ []) + (held ss + held ts)
unfolding held
held-append [] true ts = omega arith
held-append [] false ts = omega arith
held-append (true ∷ ss) flag ts = held-append ss flag ts
held-append (false ∷ ss) flag ts = omega (arith, held-append ss flag ts)

Step-IsBalanced : (max : ℕ) {i j : Instance} → Step i j → IsBalanced max i → IsBalanced max j
unfolding try_admit release held
Step-IsBalanced max (admit i flag hub e) b = ground arith
Step-IsBalanced max (refuse i e) b = b
Step-IsBalanced max (free hub before true after) b = record {
  counted = omega (arith, b.counted, held-append before true after);
  bounded = b.bounded;
  capacity = b.capacity;
}
Step-IsBalanced max (free hub before false after) b = record {
  counted = omega (arith, b.counted, held-append before false after, held-append before true after);
  bounded = omega (arith, b.bounded);
  capacity = b.capacity;
}

-- After any handshakes, releases and drops, the count of the hub is the number of slots that are
-- held, and is at most the maximum; a slot released twice is counted once.
pub Reach-IsBalanced : (max : ℕ) {i : Instance} → Reach max i → IsBalanced max i
unfolding new_hub held
Reach-IsBalanced max start = record { counted = refl; bounded = omega arith; capacity = refl }
Reach-IsBalanced max (next r s) = Step-IsBalanced max s (Reach-IsBalanced max r)
