-- ===== src/CacheSim/Counts/Run.antt =====
-- What the counters of a whole run of csim.c add up to, and the dirty bytes that `main` reports.
use computer_systems_project.Base.{
  ℕ, suc, ◌+◌, ◌*◌, ◌%◌, ◌^◌, ◌<◌, ◌≡◌, ◌∙◌, refl, ◌&&◌, none, some, List, [], ◌∷◌, arith, length,
  Bool-cases, inl, inr,
}
use computer_systems_project.CacheSim.{
  CacheLine, Stats, Access, TraceLines, no_stats, is_modify, tag_of, create_cache, add64,
  access_set, access_data, process_lines, add_dirty_set, add_dirty, simulate, process_trace_file,
}
use computer_systems_project.CacheSim.Trace.{
  accesses, CacheTracks, create_cache-CacheTracks, next, push, length-push, index, here, here_at,
  access_data_cache, access_data_stats, access_data-CacheTracks,
}
use computer_systems_project.CacheSim.Counts.{
  one_if, dirty_bytes-access_data, used_total, used_total-set, used_total-create_cache, HasRoom,
  SetCounts, access_set-SetCounts, Counted, modifies,
}

module _ (s b : ℕ) {n : ℕ} (a : Access) {h : ℕ → List ℕ} {c : List (List CacheLine)} (st : Stats)
    (pos : 0 < n) (short : (i : ℕ) → suc (length (h i)) < 2 ^ 64) (tr : CacheTracks n s h c) where
  one_access :
      let (ls', st', o) =
        access_set b (tag_of s b a.address) a.operation (here s b a st pos short tr) st in
      HasRoom st → SetCounts a.operation (here s b a st pos short tr) st ls' st'
  one_access room =
      access_set-SetCounts b (tag_of s b a.address) a.operation st
        (omega (arith, (tr.tracks _ _ (here_at s b a st pos short tr)).size)) room

  access_data-Counted :
      (k m : ℕ)
      → Counted k m c st
      → k + m + 2 < 2 ^ 64
      → let (c', st', o) = access_data s b a.address a.operation c st in
        Counted (k + 1) (m + one_if (is_modify a.operation)) c' st'
  access_data-Counted k m counted room =
      let one = one_access (record { room = omega arith; below = omega arith }) in
      rw (access_data_cache s b a st pos short tr, access_data_stats s b a st pos short tr)
        (record {
          answered = omega (arith, one.answered);
          filled = omega (
            arith,
            one.filled,
            used_total-set c (index s b a st pos short tr) (next s b a st pos short tr)
                (here_at s b a st pos short tr),
          );
        })

process_lines-Counted :
    (s b : ℕ) {n : ℕ} (ls : TraceLines) (h : ℕ → List ℕ) (c : List (List CacheLine)) (st : Stats)
    (k m : ℕ)
    → 0 < n
    → ((i : ℕ) → suc (length (h i) + length ls) < 2 ^ 64)
    → CacheTracks n s h c
    → Counted k m c st
    → k + m + 2 * length ls + 2 < 2 ^ 64
    → let (_, c', st') = process_lines s b ls c st in
      Counted (k + length (accesses ls)) (m + modifies (accesses ls)) c' st'
unfolding process_lines accesses modifies
process_lines-Counted s b [] h c st k m pos short tr counted room = record {
  answered = omega arith;
  filled = omega arith;
}
process_lines-Counted s b (none ∷ ls) h c st k m pos short tr counted room = record {
  answered = omega arith;
  filled = omega arith;
}
process_lines-Counted s b (some a ∷ ls) h c st k m pos short tr counted room =
    let rest =
      process_lines-Counted s b ls (push s b a h) (access_data s b a.address a.operation c st).0
        (access_data s b a.address a.operation c st).1 (k + 1) (m + one_if (is_modify a.operation))
        pos (λ i. omega (arith, short i, length-push s b a h i))
        (access_data-CacheTracks s b a st pos (λ i. omega (arith, short i)) tr)
        (access_data-Counted s b a st pos (λ i. omega (arith, short i)) tr k m counted
          (omega arith))
        (ground arith) in
    record { answered = omega (arith, rest.answered); filled = rest.filled }

-- The dirty lines of a set and of the cache, as `main` counts them.
pub dirty_lines : List CacheLine → ℕ
dirty_lines [] = 0
dirty_lines (l ∷ ls) = one_if (l.valid && l.dirty) + dirty_lines ls

pub dirty_total : List (List CacheLine) → ℕ
dirty_total [] = 0
dirty_total (ls ∷ c) = dirty_lines ls + dirty_total c

add_dirty_set_lem :
    (b : ℕ) (ls : List CacheLine) (n : ℕ)
    → n < 2 ^ 64
    → add_dirty_set b ls n ≡ (n + dirty_lines ls * 2 ^ b) % 2 ^ 64
unfolding add_dirty_set dirty_lines
add_dirty_set_lem b [] n lt = omega arith
add_dirty_set_lem b (l ∷ ls) n lt = elim (Bool-cases (l.valid && l.dirty)) [
  | inl dirty ↦ rw dirty (add_dirty_set_lem b ls (add64 n (2 ^ b)) (omega arith) ∙ omega arith)
  | inr clean ↦ rw clean (add_dirty_set_lem b ls n lt ∙ omega arith)
]

add_dirty_lem :
    (b : ℕ) (c : List (List CacheLine)) (n : ℕ)
    → n < 2 ^ 64
    → add_dirty b c n ≡ (n + dirty_total c * 2 ^ b) % 2 ^ 64
unfolding add_dirty dirty_total
add_dirty_lem b [] n lt = omega arith
add_dirty_lem b (ls ∷ c) n lt =
    add_dirty_lem b c (add_dirty_set b ls n) (omega (arith, add_dirty_set_lem b ls n lt))
    ∙ omega (arith, add_dirty_set_lem b ls n lt)

dirty_bytes-process_lines :
    (s b : ℕ) (ls : TraceLines) (c : List (List CacheLine)) (st : Stats)
    → (process_lines s b ls c st).2.dirty_bytes ≡ st.dirty_bytes
unfolding process_lines
dirty_bytes-process_lines s b [] c st = refl
dirty_bytes-process_lines s b (none ∷ ls) c st = refl
dirty_bytes-process_lines s b (some a ∷ ls) c st =
    dirty_bytes-process_lines s b ls _ _ ∙ dirty_bytes-access_data s b a.address a.operation c st

-- What `main` prints for a trace of fewer than 2 ^ 63 - 1 lines, up to the first that cannot be read,
-- and at least one line in each set: every access is counted as one hit or miss and a modify
-- operation as one hit more; there are no more evictions than misses, and what is left of the misses
-- is the number of lines in use at the end; the dirty bytes are the bytes of the dirty lines at the
-- end, modulo 2 ^ 64.
pub simulate_totals :
    (s b n : ℕ) (ls : TraceLines)
    → 0 < n
    → 2 * length ls + 2 < 2 ^ 64
    → let st = simulate s n b (some ls) in
      let c = (process_lines s b ls (create_cache s n) no_stats).1 in
      (st.hits + st.misses ≡ length (accesses ls) + modifies (accesses ls))
      × (st.misses ≡ st.evictions + used_total c)
      × (st.dirty_bytes ≡ dirty_total c * 2 ^ b % 2 ^ 64)
unfolding simulate process_trace_file
simulate_totals s b n ls pos short = (omega (arith, counted.answered), counted.filled, dirty)
  where
    counted :
        let (_, c, st) = process_lines s b ls (create_cache s n) no_stats in
        Counted (0 + length (accesses ls)) (0 + modifies (accesses ls)) c st
    counted =
        process_lines-Counted s b ls (λ i. []) (create_cache s n) no_stats 0 0 pos
          (λ i. omega arith) (create_cache-CacheTracks n s)
          (record { answered = refl; filled = omega (arith, used_total-create_cache s n) })
          (omega arith)

    c : List (List CacheLine)
    c = (process_lines s b ls (create_cache s n) no_stats).1

    dirty : (simulate s n b (some ls)).dirty_bytes ≡ dirty_total c * 2 ^ b % 2 ^ 64
    dirty =
        rw (dirty_bytes-process_lines s b ls (create_cache s n) no_stats)
          (add_dirty_lem b c 0 (omega arith) ∙ omega arith)
