-- ===== src/CacheSim/Counts.antt =====
-- The statistics of csim.c: what one access adds to the counters.
pub mod Run
use computer_systems_project.Base.{
  ℕ, zero, suc, ◌+◌, ◌*◌, ◌/◌, ◌%◌, ◌^◌, ◌<◌, ◌≤◌, ◌≡◌, ◌≢◌, sym, ap, ◌∙◌, refl, subst, Bool, true,
  false, ◌&&◌, ◌⊎◌, inl, inr, Option, none, some, List, [], ◌∷◌, map, arith, length, get_elem?,
  get_or, modify, set, replicate, ◌==◌, if◌then◌else◌, get_elem?-eq-get_or, Bool-cases,
}
use computer_systems_project.CacheSim.{
  CacheLine, blank, Stats, Outcome, hit, miss, miss_eviction, Access, TraceLines, no_stats,
  is_modify, tag_of, set_index, create_cache, touch, fill, replace, tick, scan, max_lru, add64,
  hit_stats, miss_stats, evict_stats, access_found, access_set, access_data, process_lines,
  add_dirty_set, add_dirty, simulate, process_trace_file,
}
use computer_systems_project.CacheSim.Scan.{
  Hit, Hit-at, scan-Hit, Empty, Empty-at, scan-Empty, scan_full, max_lru-IsMaxLru,
}

abbrev pub one_if : Bool → ℕ
one_if b = if b then 1 else 0

-- The lines in use.
pub used : List CacheLine → ℕ
used [] = 0
used (l ∷ ls) = one_if l.valid + used ls

pub used_total : List (List CacheLine) → ℕ
unfolding used
used_total [] = 0
used_total (ls ∷ c) = used ls + used_total c

used-modify :
    (ls : List CacheLine) (k : ℕ) (f : CacheLine → CacheLine) {l : CacheLine}
    → get_elem? ls k ≡ some l
    → used (modify ls k f) + one_if l.valid ≡ used ls + one_if (f l).valid
unfolding used
used-modify [] k f at = cc
used-modify (x ∷ ls) zero f at = ground arith
used-modify (x ∷ ls) (suc k) f at = omega (arith, used-modify ls k f at)

used-map-tick : (ls : List CacheLine) → used (map tick ls) ≡ used ls
unfolding used tick
used-map-tick [] = refl
used-map-tick (l ∷ ls) = omega (arith, used-map-tick ls)

pub used_total-set :
    (c : List (List CacheLine)) (i : ℕ) (new : List CacheLine) {old : List CacheLine}
    → get_elem? c i ≡ some old
    → used_total (set c i new) + used old ≡ used_total c + used new
unfolding used_total
used_total-set [] i new at = cc
used_total-set (x ∷ c) zero new at = ground arith
used_total-set (x ∷ c) (suc i) new at = omega (arith, used_total-set c i new at)

used-replicate : (n : ℕ) → used (replicate n blank) ≡ 0
unfolding used
used-replicate zero = refl
used-replicate (suc n) = omega (arith, used-replicate n)

pub used_total-replicate : (k n : ℕ) → used_total (replicate k (replicate n blank)) ≡ 0
unfolding used_total
used_total-replicate zero n = refl
used_total-replicate (suc k) n = omega (arith, used_total-replicate k n, used-replicate n)

pub used_total-create_cache : (s n : ℕ) → used_total (create_cache s n) ≡ 0
unfolding create_cache
used_total-create_cache s n = used_total-replicate (2 ^ s) n

-- No counter is near its wrap-around.
pub record HasRoom (st : Stats) : Type 0 where
  pub room : st.hits + st.misses + 2 < 2 ^ 64
  pub below : st.evictions ≤ st.misses

-- An access is one hit or miss, a modify operation one hit more, and a miss takes a line into use
-- unless it evicts.
pub record SetCounts (operation : ℕ) (ls : List CacheLine) (st : Stats) (ls' : List CacheLine)
    (st' : Stats) : Type 0 where
  pub answered : st'.hits + st'.misses ≡ st.hits + st.misses + 1 + one_if (is_modify operation)
  pub filled : st'.misses + st.evictions + used ls ≡ st.misses + st'.evictions + used ls'

module _ (b t operation : ℕ) {ls : List CacheLine} (st : Stats) (pos : 0 < length ls)
    (room : HasRoom st) where
  access_found-SetCounts :
      (r : Option ℕ × Option ℕ)
      → scan t 0 none ls ≡ r
      → let (ls', st', o) = access_found b t operation r ls st in
        SetCounts operation ls st (map tick ls') st'
  unfolding access_found hit_stats miss_stats evict_stats touch fill replace
  access_found-SetCounts (some k, e) at =
      let line_hit = scan-Hit t 0 none e k ls at in
      let same = used-modify ls k (touch operation) (Hit-at k ls line_hit) in
      record {
        answered = ground arith;
        filled =
            ground (arith, same, line_hit.valid, used-map-tick (modify ls k (touch operation)));
      }
  access_found-SetCounts (none, some k) at =
      let empty = scan-Empty t 0 k ls at in
      let more = used-modify ls k (fill t operation) (Empty-at k ls empty) in
      record {
        answered = ground arith;
        filled =
            ground (arith, more, empty.invalid, used-map-tick (modify ls k (fill t operation)));
      }
  access_found-SetCounts (none, none) at =
      let k = max_lru ls in
      let victim = get_elem?-eq-get_or ls k blank (max_lru-IsMaxLru ls pos).in_range in
      let same = used-modify ls k (replace t operation) victim in
      record {
        answered = ground arith;
        filled = ground (
          arith,
          same,
          scan_full t 0 ls at k (get_or ls k blank) victim,
          used-map-tick (modify ls k (replace t operation)),
        );
      }

  pub access_set-SetCounts :
      let (ls', st', o) = access_set b t operation ls st in SetCounts operation ls st ls' st'
  unfolding access_set
  access_set-SetCounts = access_found-SetCounts (scan t 0 none ls) refl

dirty_bytes-access_found :
    (b t operation : ℕ) (r : Option ℕ × Option ℕ) (ls : List CacheLine) (st : Stats)
    → (access_found b t operation r ls st).1.dirty_bytes ≡ st.dirty_bytes
unfolding access_found hit_stats miss_stats evict_stats
dirty_bytes-access_found b t operation (some k, e) ls st = refl
dirty_bytes-access_found b t operation (none, some k) ls st = refl
dirty_bytes-access_found b t operation (none, none) ls st = refl

-- An access does not touch the field that only `main` fills in.
pub dirty_bytes-access_data :
    (s b address operation : ℕ) (c : List (List CacheLine)) (st : Stats)
    → (access_data s b address operation c st).1.dirty_bytes ≡ st.dirty_bytes
unfolding access_data access_set
dirty_bytes-access_data s b address operation c st = dirty_bytes-access_found b _ operation _ _ st

-- After `n` accesses, `m` of them modify operations: every access is a hit or a miss, a modify
-- operation is one hit more, and the misses are the evictions and the lines in use.
pub record Counted (n m : ℕ) (c : List (List CacheLine)) (st : Stats) : Type 0 where
  pub answered : st.hits + st.misses ≡ n + m
  pub filled : st.misses ≡ st.evictions + used_total c

pub modifies : List Access → ℕ
modifies [] = 0
modifies (a ∷ rest) = one_if (is_modify a.operation) + modifies rest
