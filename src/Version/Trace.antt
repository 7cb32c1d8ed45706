-- ===== src/Version/Trace.antt =====
-- Any run of one clock: the stamps that it issues, in order.
use wave_span.Base.{
  ℕ, ◌+◌, ◌*◌, ◌^◌, ◌≤◌, ◌<◌, ◌≡◌, lt, arith, Option, none, some, List, [], ◌∷◌, length, All,
  All-imp, ap, subst,
}
use wave_span.Version.{Timestamp, compare_timestamp}
use wave_span.Version.Clock.{Clock, UpdateResult, max_logical, now, update}
use wave_span.Version.Monotone.{now-IsLater, update_lem, update_bound, now_bound, UpdateSpec}

pub data Event : Type 0 where
  send : ℕ → Event
  receive : Timestamp → ℕ → Event

abbrev pub issued : UpdateResult → Option Timestamp
issued (UpdateResult.accepted t) = some t
issued (UpdateResult.rejected e) = none

-- The clock after one call, and the stamp that the caller gets.
unfoldable pub handle : Clock → Event → Clock × Option Timestamp
handle c (send wall) = let (c', t) = now c wall in (c', some t)
handle c (receive remote wall) = let (c', r) = update c remote wall in (c', issued r)

abbrev pub put : Option Timestamp → List Timestamp → List Timestamp
put none ts = ts
put (some t) ts = t ∷ ts

unfoldable pub stamps : Clock → List Event → List Timestamp
stamps c [] = []
stamps c (e ∷ es) = let (c', t) = handle c e in put t (stamps c' es)

-- Each stamp is later than the one before it.
abbrev pub IsAscending : Timestamp → List Timestamp → Type 0
IsAscending t [] = Unit
IsAscending t (r ∷ rs) = (compare_timestamp t r ≡ lt) × IsAscending r rs

-- The wall clock reads at most `top` less the skew bound, and no remote counter is the largest uint32.
abbrev pub IsSane : ℕ → ℕ → Event → Type 0
IsSane skew top (send wall) = wall + skew ≤ top
IsSane skew top (receive remote wall) = (wall + skew ≤ top) × (remote.logical + 1 < 2 ^ 32)

IsSane-mono :
    (skew top top' : ℕ) → top ≤ top' → (e : Event) → IsSane skew top e → IsSane skew top' e
IsSane-mono skew top top' h (send wall) s = omega arith
IsSane-mono skew top top' h (receive remote wall) s = omega arith

abbrev HandleSpec : Timestamp → Timestamp → Option Timestamp → Type 0
HandleSpec last last' none = last' ≡ last
HandleSpec last last' (some t) = (compare_timestamp last t ≡ lt) × (last' ≡ t)

update_spec :
    (c c' : Clock) (remote : Timestamp) (wall : ℕ) (r : UpdateResult)
    → UpdateSpec c remote wall c' r
    → HandleSpec c.last c'.last (issued r)
update_spec c c' remote wall (UpdateResult.accepted t) h =
    (h.1.later, ap (λ (k : Clock). k.last) h.4)
update_spec c c' remote wall (UpdateResult.rejected e) h = h.2

handle_lem :
    (c : Clock) (e : Event) (top : ℕ)
    → c.last.logical ≤ max_logical
    → c.last.physical_ms ≤ top
    → top + 65536 < 2 ^ 64
    → IsSane c.max_skew_ms top e
    → HandleSpec c.last (handle c e).0.last (handle c e).1
unfolding handle
handle_lem c (send wall) top f h k s =
    let n = now-IsLater c wall f (omega arith) (omega arith) in (n.0.later, n.2)
handle_lem c (receive remote wall) top f h k s =
    update_spec c (update c remote wall).0 remote wall (update c remote wall).1
      (update_lem c remote wall f (omega arith) (omega arith) s.1)

handle_bound :
    (c : Clock) (e : Event) (top : ℕ)
    → c.last.logical ≤ max_logical
    → c.last.physical_ms ≤ top
    → top + 65536 < 2 ^ 64
    → IsSane c.max_skew_ms top e
    → ((handle c e).0.last.physical_ms ≤ top + 65536)
      × ((handle c e).0.last.logical ≤ max_logical)
      × ((handle c e).0.max_skew_ms ≡ c.max_skew_ms)
unfolding handle
handle_bound c (send wall) top f h k s = now_bound c wall top f h (omega arith) k
handle_bound c (receive remote wall) top f h k s = update_bound c remote wall top f h s.0 k s.1

put-IsAscending :
    (last last' : Timestamp) (t : Option Timestamp) (ts : List Timestamp)
    → HandleSpec last last' t
    → IsAscending last' ts
    → IsAscending last (put t ts)
put-IsAscending last last' none ts h a = subst (λ x. IsAscending x ts) h a
put-IsAscending last last' (some t) ts h a = (h.0, subst (λ x. IsAscending x ts) h.1 a)

-- Whatever sends and receives one clock handles, with wall readings and skew at most `top`, no remote
-- counter the largest uint32, and room in the physical field for the run, the stamps that it issues are
-- strictly increasing, from its last stamp on.
pub stamps-IsAscending :
    (c : Clock) (es : List Event) (top : ℕ)
    → c.last.logical ≤ max_logical
    → c.last.physical_ms ≤ top
    → top + 65536 * length es + 65536 < 2 ^ 64
    → All (IsSane c.max_skew_ms top) es
    → IsAscending c.last (stamps c es)
unfolding stamps
stamps-IsAscending c [] top f h k s = tt
stamps-IsAscending c (e ∷ es) top f h k s =
    let b = handle_bound c e top f h (omega arith) s.0 in
    let c' : Clock = (handle c e).0 in
    put-IsAscending c.last c'.last (handle c e).1 (stamps c' es)
      (handle_lem c e top f h (omega arith) s.0)
      (stamps-IsAscending c' es (top + 65536) b.1 b.0 (omega arith)
        (rw b.2 (All-imp (IsSane-mono c.max_skew_ms top (top + 65536) (omega arith)) es s.1)))
