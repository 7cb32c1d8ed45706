-- ===== src/Version.antt =====
-- internal/version/version.go and the comparison half of internal/version/hlc.go: the timestamp pair,
-- the version envelope with its last-write-wins order, the mutation identity and the sequencer.
-- `*wavespanv1.Version` is `Option Version`: the wire message has the same five fields (the
-- `vector_clock` field is never read).
pub mod Clock
pub mod Order
pub mod Monotone
pub mod Trace
pub mod Identity
mod Tests
use wave_span.Base.{
  ℕ, zero, suc, ◌+◌, ◌/◌, ◌%◌, ◌^◌, Bytes, compare_bytes, bytes_eq, Ordering, lt, eq, gt, Bool, not,
  ◌&&◌, ◌==◌, ltb, if◌then◌else◌, Option, some, none, List, [], ◌∷◌, ◌++◌, first_difference,
}

pub record Timestamp : Type 0 where
  pub physical_ms : ℕ  -- uint64
  pub logical : ℕ  -- uint32

-- `cmpUint64` and `cmpUint32`: the same three-way switch on two widths.
unfoldable pub cmp_uint : ℕ → ℕ → Ordering
cmp_uint a b = if ltb a b then lt else if ltb b a then gt else eq

unfoldable pub compare_timestamp : Timestamp → Timestamp → Ordering
unfolding cmp_uint
compare_timestamp t o =
    if not (t.physical_ms == o.physical_ms)
    then cmp_uint t.physical_ms o.physical_ms
    else cmp_uint t.logical o.logical

pub record Version : Type 0 where
  pub hlc_physical_ms : ℕ  -- uint64
  pub hlc_logical : ℕ  -- uint32
  pub writer_cluster_id : Bytes
  pub writer_member_id : Bytes
  pub writer_sequence : ℕ  -- uint64

unfoldable pub timestamp : Version → Timestamp
timestamp a = record { physical_ms = a.hlc_physical_ms; logical = a.hlc_logical }

-- `if c := strings.Compare(..); c != 0 { return c }` keeps the first difference.
unfoldable pub compare_version : Version → Version → Ordering
unfolding cmp_uint
compare_version a b =
    if not (a.hlc_physical_ms == b.hlc_physical_ms)
    then cmp_uint a.hlc_physical_ms b.hlc_physical_ms
    else if not (a.hlc_logical == b.hlc_logical)
    then cmp_uint a.hlc_logical b.hlc_logical
    else first_difference (compare_bytes a.writer_cluster_id b.writer_cluster_id) (
        first_difference (compare_bytes a.writer_member_id b.writer_member_id)
          (cmp_uint a.writer_sequence b.writer_sequence))

unfoldable pub equal : Version → Version → Bool
equal a b =
    a.hlc_physical_ms == b.hlc_physical_ms
    && (a.hlc_logical == b.hlc_logical
        && (bytes_eq a.writer_cluster_id b.writer_cluster_id
            && (bytes_eq a.writer_member_id b.writer_member_id
                && a.writer_sequence == b.writer_sequence)))

abbrev pub zero_version : Version
zero_version = record {
  hlc_physical_ms = 0;
  hlc_logical = 0;
  writer_cluster_id = [];
  writer_member_id = [];
  writer_sequence = 0;
}

unfoldable pub from_proto : Option Version → Version
from_proto none = zero_version
from_proto (some p) = p

unfoldable pub to_proto : Version → Option Version
to_proto a = some a

-- `strconv.FormatUint(n, 10)`; 20 digits hold every uint64.
unfoldable pub decimal : ℕ → ℕ → Bytes
decimal zero n = []
decimal (suc digits) n =
    let front = decimal digits (n / 10) in
    if ltb n 10 then (48 + n) ∷ [] else front ++ (48 + n % 10) ∷ []

unfoldable pub format_uint : ℕ → Bytes
unfolding decimal
format_uint n = decimal 20 n

-- ASCII unit separator.
abbrev pub id_sep : ℕ
id_sep = 31

unfoldable pub mutation_id : Version → Bytes
unfolding format_uint
mutation_id a =
    a.writer_cluster_id ++ id_sep ∷ (a.writer_member_id ++ id_sep ∷ format_uint a.writer_sequence)

-- The per-member writer sequence; the lock makes each call one step.
pub record Sequencer : Type 0 where
  pub last : ℕ  -- uint64

unfoldable pub new_sequencer : ℕ → Sequencer
new_sequencer start = record { last = start }

unfoldable pub next : Sequencer → Sequencer × ℕ
next s = let n = (s.last + 1) % 2 ^ 64 in (record { last = n }, n)
