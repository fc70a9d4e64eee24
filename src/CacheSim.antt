-- ===== src/CacheSim.antt =====
-- The cache simulator of lab4-cachelab4-qinlinj/csim.c: cache lines, the access of one address,
-- the run over a trace and the summary that `main` prints.
--
-- `unsigned long` counters keep their wrap-around at 2 ^ 64. The `valid` and `dirty` words are only
-- ever set to 0 or 1 and tested for zero, so they are Booleans. What `verbose` prints of an access
-- is its `Outcome`.
mod Tests
pub mod Address
pub mod Counts
pub mod Recency
pub mod Scan
pub mod Trace
use computer_systems_project.Base.{
  ℕ, ◌+◌, ◌/◌, ◌%◌, ◌^◌, Bool, true, false, ◌&&◌, ◌||◌, Option, none, some, List, [], ◌∷◌, map,
  get_or, set, replicate, modify, ltb, ◌==◌, if◌then◌else◌,
}

pub record CacheLine : Type 0 where
  pub valid : Bool
  pub tag : ℕ
  pub lru : ℕ
  pub dirty : Bool

pub record Stats : Type 0 where
  pub hits : ℕ
  pub misses : ℕ
  pub evictions : ℕ
  pub dirty_bytes : ℕ
  pub dirty_evictions : ℕ

-- What a verbose run prints of an access.
pub data Outcome : Type 0 where
  hit miss miss_eviction : Outcome

abbrev pub blank : CacheLine
blank = record { valid = false; tag = 0; lru = 0; dirty = false }

abbrev pub no_stats : Stats
no_stats = record { hits = 0; misses = 0; evictions = 0; dirty_bytes = 0; dirty_evictions = 0 }

-- `2 ^ s` sets of `lines` blank lines each.
pub create_cache : (s lines : ℕ) → List (List CacheLine)
create_cache s lines = replicate (2 ^ s) (replicate lines blank)

pub tag_of : (s b address : ℕ) → ℕ
tag_of s b address = address / 2 ^ (s + b)

-- The cast to `int` keeps this value at `s ≤ 31`.
pub set_index : (s b address : ℕ) → ℕ
set_index s b address = address / 2 ^ b % 2 ^ s

-- `x++` and `x += n` on an `unsigned long`.
abbrev pub add64 : ℕ → ℕ → ℕ
add64 x n = (x + n) % 2 ^ 64

abbrev pub is_modify : ℕ → Bool
is_modify operation = operation == b'M'

abbrev pub is_write : ℕ → Bool
is_write operation = operation == b'M' || operation == b'S'

-- `empty_line` after the line at index `i` has been looked at without a hit.
abbrev pub next_empty : (i : ℕ) (empty_line : Option ℕ) → CacheLine → Option ℕ
next_empty i (some k) l = some k
next_empty i none l = if l.valid then none else some i

-- The search loop from line `i` on: the line that hits, and the first empty line before it.
pub scan : (tag i : ℕ) (empty_line : Option ℕ) → List CacheLine → Option ℕ × Option ℕ
scan tag i empty_line [] = (none, empty_line)
scan tag i empty_line (l ∷ ls) =
    let rest = scan tag (i + 1) (next_empty i empty_line l) ls in
    if l.valid && l.tag == tag then (some i, empty_line) else rest

abbrev pub lru_at : List CacheLine → ℕ → ℕ
lru_at ls i = (get_or ls i blank).lru

-- The eviction loop: `i` is the index of the head of the last argument in the whole set.
pub max_lru_loop : (all : List CacheLine) (i max_lru_index : ℕ) → List CacheLine → ℕ
max_lru_loop all i max_lru_index [] = max_lru_index
max_lru_loop all i max_lru_index (l ∷ ls) =
    max_lru_loop all (i + 1) (if ltb (lru_at all max_lru_index) l.lru then i else max_lru_index) ls

-- The loop starts at line 1, with line 0 as the best so far.
pub max_lru : List CacheLine → ℕ
unfolding max_lru_loop
max_lru [] = 0
max_lru (l ∷ ls) = max_lru_loop (l ∷ ls) 1 0 ls

-- A hit: the line is fresh again, and dirty after a write.
pub touch : (operation : ℕ) → CacheLine → CacheLine
touch operation l = record l { lru = 0; dirty = if is_write operation then true else l.dirty }

-- A miss brings the block into an empty line.
pub fill : (tag operation : ℕ) → CacheLine → CacheLine
fill tag operation l = record {
  valid = true;
  tag = tag;
  lru = 0;
  dirty = if is_write operation then true else l.dirty;
}

-- A miss in a full set: the victim's dirty flag is reset before the line is filled.
pub replace : (tag operation : ℕ) → CacheLine → CacheLine
unfolding fill
replace tag operation l = fill tag operation (record l { dirty = false })

pub tick : CacheLine → CacheLine
tick l = record l { lru = add64 l.lru 1 }

pub hit_stats : (operation : ℕ) → Stats → Stats
hit_stats operation st = record st {
  hits = if is_modify operation then add64 (add64 st.hits 1) 1 else add64 st.hits 1;
}

pub miss_stats : (operation : ℕ) → Stats → Stats
miss_stats operation st = record st {
  hits = if is_modify operation then add64 st.hits 1 else st.hits;
  misses = add64 st.misses 1;
}

pub evict_stats : (b operation : ℕ) → (dirty : Bool) → Stats → Stats
unfolding miss_stats
evict_stats b operation dirty st = record (miss_stats operation st) {
  evictions = add64 st.evictions 1;
  dirty_evictions = if dirty then add64 st.dirty_evictions (2 ^ b) else st.dirty_evictions;
}

-- The access of one set, on its lines. `lines` is not empty.
module _ (b tag operation : ℕ) where
  pub access_found : Option ℕ × Option ℕ → List CacheLine → Stats → List CacheLine × Stats × Outcome
  unfolding hit_stats miss_stats evict_stats max_lru touch fill replace
  access_found (some i, _) ls st = (modify ls i (touch operation), hit_stats operation st, hit)
  access_found (none, some k) ls st =
      (modify ls k (fill tag operation), miss_stats operation st, miss)
  access_found (none, none) ls st = (
    modify ls (max_lru ls) (replace tag operation),
    evict_stats b operation (get_or ls (max_lru ls) blank).dirty st,
    miss_eviction,
  )

  -- The search, one of the three cases, and `lru++` on every line of the set.
  pub access_set : List CacheLine → Stats → List CacheLine × Stats × Outcome
  unfolding scan access_found tick
  access_set ls st =
      let (ls', st', o) = access_found (scan tag 0 none ls) ls st in (map tick ls', st', o)

-- `access_data` of csim.c.
unfoldable pub access_data :
    (s b address operation : ℕ)
    → List (List CacheLine)
    → Stats
    → List (List CacheLine) × Stats × Outcome
access_data s b address operation c st =
    let index = set_index s b address in
    let (ls, st', o) = access_set b (tag_of s b address) operation (get_or c index []) st in
    (set c index ls, st', o)

-- A line of the trace as `sscanf` reads it; the size is not used.
pub record Access : Type 0 where
  pub operation : ℕ
  pub address : ℕ

-- The lines that `fgets` yields, with `none` for one that `sscanf` cannot read.
abbrev pub TraceLines : Type 0
TraceLines = List (Option Access)

-- The loop over the lines, with the return value: 1 at a line that cannot be read.
pub process_lines :
    (s b : ℕ) → TraceLines → List (List CacheLine) → Stats → ℕ × List (List CacheLine) × Stats
unfolding access_data
process_lines s b [] c st = (0, c, st)
process_lines s b (none ∷ ls) c st = (1, c, st)
process_lines s b (some a ∷ ls) c st =
    let (c', st', _) = access_data s b a.address a.operation c st in process_lines s b ls c' st'

-- `process_trace_file`: `none` is a file that cannot be opened.
pub process_trace_file :
    (s b : ℕ)
    → Option TraceLines
    → List (List CacheLine)
    → Stats
    → ℕ × List (List CacheLine) × Stats
process_trace_file s b none c st = (1, c, st)
process_trace_file s b (some ls) c st = process_lines s b ls c st

-- The two loops of `main` over all lines.
pub add_dirty_set : (b : ℕ) → List CacheLine → ℕ → ℕ
add_dirty_set b [] n = n
add_dirty_set b (l ∷ ls) n = add_dirty_set b ls (if l.valid && l.dirty then add64 n (2 ^ b) else n)

pub add_dirty : (b : ℕ) → List (List CacheLine) → ℕ → ℕ
unfolding add_dirty_set
add_dirty b [] n = n
add_dirty b (ls ∷ c) n = add_dirty b c (add_dirty_set b ls n)

-- What `main` read from its arguments: -1 or NULL is `none`.
pub record Options : Type 0 where
  pub s : Option ℕ
  pub lines : Option ℕ
  pub b : Option ℕ
  pub trace : Option (Option TraceLines)

-- The statistics that are printed; `none` is the exit with status 1. The return value of
-- `process_trace_file` is dropped.
pub simulate : (s lines b : ℕ) → Option TraceLines → Stats
simulate s lines b trace =
    let (_, c, st) = process_trace_file s b trace (create_cache s lines) no_stats in
    record st { dirty_bytes = add_dirty b c st.dirty_bytes }

pub run_options : Option ℕ → Option ℕ → Option ℕ → Option (Option TraceLines) → Option Stats
run_options (some s) (some lines) (some b) (some t) = some (simulate s lines b t)
run_options _ _ _ _ = none

pub run_main : Options → Option Stats
unfolding run_options
run_main o = run_options o.s o.lines o.b o.trace
