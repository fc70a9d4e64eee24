-- ===== src/CacheSim/Tests.antt =====
-- Runs of the cache simulator at concrete inputs.
use computer_systems_project.Base.{
  ◌+◌, ◌*◌, ◌%◌, ◌/◌, ◌^◌, ◌≡◌, ◌↔◌, none, some, List, [], ◌∷◌, replicate, length, arith,
}
use computer_systems_project.CacheSim.{
  CacheLine, blank, no_stats, TraceLines, create_cache, tag_of, set_index, access_set,
  process_lines, simulate,
}
use computer_systems_project.CacheSim.Address.{same_block_iff, address_parts}
use computer_systems_project.CacheSim.Recency.{Tracks, replicate-Tracks}
use computer_systems_project.CacheSim.Recency.Access.{Serves, access_set-Serves}
use computer_systems_project.CacheSim.Recency.Dirty.{AllFlagged, access_set-Flagged}
use computer_systems_project.CacheSim.Trace.{accesses, history, CacheTracks, run-CacheTracks}
use computer_systems_project.CacheSim.Counts.{used_total, modifies}
use computer_systems_project.CacheSim.Counts.Run.{dirty_total, simulate_totals}

-- The only line of a set after it was read in with tag 1.
abbrev one_line : List CacheLine
one_line = (access_set 4 1 b'L' (replicate 1 blank) no_stats).0

one_line-Tracks : Tracks 1 (1 ∷ []) one_line
one_line-Tracks =
    (access_set-Serves 4 1 b'L' no_stats (replicate-Tracks 1) (omega arith) (omega arith)).tracks

-- Tag 2 takes its place.
access_set-Serves_example :
    let (ls, st, o) = access_set 4 2 b'S' one_line no_stats in Serves 1 (1 ∷ []) 2 one_line ls o
access_set-Serves_example =
    access_set-Serves 4 2 b'S' no_stats one_line-Tracks (omega arith) (omega arith)

-- The store that brings tag 2 in makes its line dirty.
access_set-Flagged_example : AllFlagged one_line 2 b'S' (access_set 4 2 b'S' one_line no_stats).0
access_set-Flagged_example =
    access_set-Flagged 4 2 b'S' no_stats one_line-Tracks (omega arith) (omega arith)

abbrev trace : TraceLines
trace =
    some (record { operation = b'M'; address = 32 })
    ∷ some (record { operation = b'L'; address = 96 })
    ∷ some (record { operation = b'S'; address = 33 })
    ∷ none
    ∷ []

run-CacheTracks_example :
    CacheTracks 1 1
      (λ i. history 1 4 i (accesses trace) [])
      (process_lines 1 4 trace (create_cache 1 1) no_stats).1
run-CacheTracks_example = run-CacheTracks 1 4 1 trace no_stats (omega arith) (omega arith)

simulate_totals_example :
    let st = simulate 1 1 4 (some trace) in
    let c = (process_lines 1 4 trace (create_cache 1 1) no_stats).1 in
    (st.hits + st.misses ≡ length (accesses trace) + modifies (accesses trace))
    × (st.misses ≡ st.evictions + used_total c)
    × (st.dirty_bytes ≡ dirty_total c * 2 ^ 4 % 2 ^ 64)
simulate_totals_example = simulate_totals 1 4 1 trace (omega arith) (omega arith)

same_block_iff_example :
    ((tag_of 1 4 32 ≡ tag_of 1 4 33) × (set_index 1 4 32 ≡ set_index 1 4 33))
    ↔ (32 / 2 ^ 4 ≡ 33 / 2 ^ 4)
same_block_iff_example = same_block_iff 1 4 32 33

address_parts_example : (tag_of 1 4 97 * 2 ^ 1 + set_index 1 4 97) * 2 ^ 4 + 97 % 2 ^ 4 ≡ 97
address_parts_example = address_parts 1 4 97
