-- ===== src/Outcomes/Series/Coverage.antt =====
-- apps/worker/src/outcomes/coverage.ts: what a scan has seen.
use tripwire_launch_auditor.Prelude.{
  ℕ, ◌+◌, ◌-◌, ◌/◌, min, max, List, [], ◌∷◌, ◌++◌, ltb, leb, if◌then◌else◌,
}

-- The coverage record, whose texts are constructors.
pub data Gap : Type 0 where
  empty_window no_pool_id no_pool_address : Gap
  log_cap_hit : ℕ → Gap
  no_modify_events no_sync_events v3_not_implemented sell_not_wired : Gap

pub data Note : Type 0 where
  tail_capped sell_size_zero : Note

pub record Coverage : Type 0 where
  pub from_block : ℕ
  pub to_block : ℕ
  pub blocks_scanned : ℕ
  pub chunk_size : ℕ
  pub call_count : ℕ
  pub gaps : List Gap
  pub notes : List Note

unfoldable pub span_of : ℕ → ℕ → ℕ
span_of from to = if leb from to then to - from + 1 else 0

-- `Math.ceil(span / chunk)`
unfoldable pub count_calls : ℕ → ℕ → ℕ → ℕ
unfolding span_of
count_calls from to chunk = if ltb 0 chunk then (span_of from to + chunk - 1) / chunk else 0

unfoldable pub new_coverage : ℕ → ℕ → ℕ → Coverage
unfolding span_of count_calls
new_coverage from to chunk = record {
  from_block = from;
  to_block = to;
  blocks_scanned = span_of from to;
  chunk_size = chunk;
  call_count = count_calls from to chunk;
  gaps = [];
  notes = [];
}

unfoldable pub merge_coverage : Coverage → Coverage → Coverage
merge_coverage a b = record {
  from_block = min a.from_block b.from_block;
  to_block = max a.to_block b.to_block;
  blocks_scanned = a.blocks_scanned + b.blocks_scanned;
  chunk_size = max a.chunk_size b.chunk_size;
  call_count = a.call_count + b.call_count;
  gaps = a.gaps ++ b.gaps;
  notes = a.notes ++ b.notes;
}

unfoldable pub add_gap : Gap → Coverage → Coverage
add_gap g c = record c { gaps = c.gaps ++ g ∷ [] }
