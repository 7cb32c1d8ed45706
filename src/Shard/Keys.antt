-- ===== src/Shard/Keys.antt =====
-- The rows' keys: statemachine.go, ttl.go, dedup.go, freeze.go and base_sm.go of internal/collections.
use wave_span.Base.{ℕ, Bytes, codes, [], ◌∷◌, ◌++◌}
use wave_span.Budget.Wire.{put_u64}
use wave_span.Budget.Codec.{append_chunk}
use wave_span.Shard.{ShardSm}
use wave_span.Shard.Scores.{sortable_score}

abbrev pub sub_meta : ℕ
sub_meta = 0

abbrev pub sub_data : ℕ
sub_data = 1

abbrev pub sub_ttl : ℕ
sub_ttl = 2

abbrev pub sub_dedup : ℕ
sub_dedup = 3

abbrev pub sub_dedup_ring : ℕ
sub_dedup_ring = 4

abbrev pub scope_card : ℕ
scope_card = 0

abbrev pub scope_elem : ℕ
scope_elem = 1

abbrev pub scope_z_ptr : ℕ
scope_z_ptr = 2

abbrev pub scope_type : ℕ
scope_type = 3

abbrev pub scope_ttl_ptr : ℕ
scope_ttl_ptr = 4

abbrev pub frozen_tag : ℕ
frozen_tag = 1

unfoldable pub data_space : ShardSm → Bytes
data_space s = s.prefix ++ sub_data ∷ []

-- `appendChunk` puts a chunk behind what is there.
unfoldable pub coll_scope : ShardSm → Bytes → Bytes → Bytes
unfolding data_space append_chunk
coll_scope s ns coll = (data_space s ++ append_chunk ns) ++ append_chunk coll

unfoldable pub card_key : ShardSm → Bytes → Bytes → Bytes
card_key s ns coll = coll_scope s ns coll ++ scope_card ∷ []

unfoldable pub type_key : ShardSm → Bytes → Bytes → Bytes
type_key s ns coll = coll_scope s ns coll ++ scope_type ∷ []

unfoldable pub elem_prefix : ShardSm → Bytes → Bytes → Bytes
elem_prefix s ns coll = coll_scope s ns coll ++ scope_elem ∷ []

unfoldable pub elem_key : ShardSm → Bytes → Bytes → Bytes → Bytes
elem_key s ns coll member = elem_prefix s ns coll ++ member

unfoldable pub zscore_key : ShardSm → Bytes → Bytes → ℕ → Bytes → Bytes
zscore_key s ns coll score member = (elem_prefix s ns coll ++ sortable_score score) ++ member

unfoldable pub zptr_key : ShardSm → Bytes → Bytes → Bytes → Bytes
zptr_key s ns coll member = (coll_scope s ns coll ++ scope_z_ptr ∷ []) ++ member

unfoldable pub ttl_space : ShardSm → Bytes
ttl_space s = s.prefix ++ sub_ttl ∷ []

unfoldable pub ttl_index_key : ShardSm → ℕ → Bytes → Bytes → Bytes → Bytes
ttl_index_key s expiry ns coll member =
    (((ttl_space s ++ put_u64 expiry) ++ append_chunk ns) ++ append_chunk coll) ++ member

unfoldable pub ttl_ptr_key : ShardSm → Bytes → Bytes → Bytes → Bytes
ttl_ptr_key s ns coll member = (coll_scope s ns coll ++ scope_ttl_ptr ∷ []) ++ member

unfoldable pub dedup_seq_key : ShardSm → Bytes
dedup_seq_key s = (s.prefix ++ sub_meta ∷ []) ++ codes "dedupseq"

unfoldable pub dedup_key : ShardSm → Bytes → Bytes
dedup_key s key = (s.prefix ++ sub_dedup ∷ []) ++ key

unfoldable pub dedup_ring_key : ShardSm → ℕ → Bytes
dedup_ring_key s slot = (s.prefix ++ sub_dedup_ring ∷ []) ++ put_u64 slot

unfoldable pub applied_key : ShardSm → Bytes
applied_key s = (s.prefix ++ sub_meta ∷ []) ++ codes "applied"

unfoldable pub frozen_space : ShardSm → Bytes
frozen_space s = (s.prefix ++ sub_meta ∷ []) ++ frozen_tag ∷ []

unfoldable pub frozen_key : ShardSm → Bytes → Bytes
frozen_key s start = frozen_space s ++ start

-- The position of a collection in the ordered key space.
unfoldable pub route_key : Bytes → Bytes → Bytes
unfolding append_chunk
route_key ns coll = append_chunk ns ++ append_chunk coll
