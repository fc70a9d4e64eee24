-- ===== src/CacheSim/Recency/Dirty.antt =====
-- The dirty flags of csim.c: what one access of a set leaves in them.
use computer_systems_project.Base.{
  ℕ, suc, ◌^◌, ◌<◌, ◌≡◌, ◌≢◌, sym, ap, ◌∙◌, refl, subst, true, false, Option, none, some, List, map,
  arith, length, get_elem?, ◌⊎◌, Bool-cases, inl, inr, ◌==◌,
}
use computer_systems_project.CacheSim.{
  CacheLine, Stats, touch, fill, replace, tick, scan, access_found, access_set, is_write,
}
use computer_systems_project.CacheSim.Scan.{scan-Hit, scan-Empty, scan_full}
use computer_systems_project.CacheSim.Recency.{Holds, Cached, Tracks}
use computer_systems_project.CacheSim.Recency.Step.{
  after, LineAfter, written, kept, line_after, Installs,
}
use computer_systems_project.CacheSim.Recency.Access.{
  touch-Installs, fill-Installs, replace-Installs, missed_of_scan, not-Cached_of_missed,
}

-- A store, or a load followed by a store.
abbrev pub Writes : ℕ → Type 0
Writes operation = (operation ≡ b'S') ⊎ (operation ≡ b'M')

-- The test of the code decides it.
is_write-Writes : (operation : ℕ) → is_write operation ≡ true → Writes operation
is_write-Writes operation h = elim (Bool-cases (operation == b'S')) [
  | inl same ↦ inl (ground arith)
  | inr other ↦ inr (ground arith)
]

is_write-false : (operation : ℕ) → is_write operation ≡ false → ¬ Writes operation
is_write-false operation h (inl same) = ground arith
is_write-false operation h (inr same) = ground arith

-- Why the valid line `m` at index `j` has its dirty flag after an access of the block `t` of `ls`.
pub data Flagged (ls : List CacheLine) (t operation j : ℕ) (m : CacheLine) : Type 0 where
  stored : m.tag ≡ t → Writes operation → m.dirty ≡ true → Flagged ls t operation j m
  read_again :
      (l : CacheLine)
      → m.tag ≡ t
      → ¬ Writes operation
      → Holds ls j l
      → l.tag ≡ t
      → m.dirty ≡ l.dirty
      → Flagged ls t operation j m
  loaded :
      m.tag ≡ t → ¬ Writes operation → ¬ Cached ls t → m.dirty ≡ false → Flagged ls t operation j m
  untouched :
      (l : CacheLine)
      → m.tag ≢ t
      → Holds ls j l
      → l.tag ≡ m.tag
      → m.dirty ≡ l.dirty
      → Flagged ls t operation j m

abbrev pub AllFlagged : (ls : List CacheLine) (t operation : ℕ) → List CacheLine → Type 0
AllFlagged ls t operation ls' = (j : ℕ) (m : CacheLine) → Holds ls' j m → Flagged ls t operation j m

module _ (b t operation : ℕ) {n : ℕ} {h : List ℕ} {ls : List CacheLine} (st : Stats)
    (tr : Tracks n h ls) (pos : 0 < n) (short : suc (length h) < 2 ^ 64) where
  -- The written line is left to the case of the access; the others keep their flag.
  after-Flagged :
      {k : ℕ} {f : CacheLine → CacheLine} {o : CacheLine}
      → Installs h ls t k f
      → get_elem? ls k ≡ some o
      → ((m : CacheLine) → m.tag ≡ t → m.dirty ≡ (f o).dirty → Flagged ls t operation k m)
      → AllFlagged ls t operation (after ls k f)
  unfolding tick
  after-Flagged {k} {f} {o} ins at_o at_k j m e = go (line_after ls k f j m e.at)
    where
      go : LineAfter ls k f j m → Flagged ls t operation j m
      go (written l at here new) =
          let same : some l ≡ some ins.old = sym at ∙ ap (get_elem? ls) (sym here) ∙ ins.at in
          let e' : l ≡ ins.old = cc in
          let now : m ≡ tick (f ins.old) = new ∙ ap (λ x. tick (f x)) e' in
          let found : some o ≡ some ins.old = sym at_o ∙ ins.at in
          let e₂ : o ≡ ins.old = cc in
          subst (λ i. Flagged ls t operation i m) here
            (at_k m (ap (λ x. x.tag) now ∙ ins.tag)
              (ap (λ x. x.dirty) now ∙ ap (λ x. (f x).dirty) (sym e₂)))
      go (kept l at away new) =
          let holds : Holds ls j l = record { at = at; valid = ground (arith, e.valid) } in
          let tag : m.tag ≡ l.tag = ap (λ x. x.tag) new in
          untouched l (λ same. ins.others j l holds away (sym tag ∙ same)) holds (sym tag)
            (ap (λ x. x.dirty) new)

  access_found-Flagged :
      (r : Option ℕ × Option ℕ)
      → scan t 0 none ls ≡ r
      → AllFlagged ls t operation (map tick (access_found b t operation r ls st).0)
  unfolding access_found touch fill replace
  access_found-Flagged (some k, e) at =
      let line_hit = scan-Hit t 0 none e k ls at in
      let place : k ≡ line_hit.offset = omega (arith, line_hit.index) in
      let here = ap (get_elem? ls) place ∙ line_hit.at in
      after-Flagged (touch-Installs b t operation st tr pos short k line_hit) here λ m tag dirty.
        elim (Bool-cases (is_write operation)) [
          | inl write ↦ stored tag (is_write-Writes operation write) (ground (arith, dirty, write))
          | inr read ↦
              read_again line_hit.line tag (is_write-false operation read)
                (record { at = here; valid = line_hit.valid }) line_hit.same_tag
                (ground (arith, dirty, read))
        ]
  access_found-Flagged (none, some k) at =
      let missed = missed_of_scan b t operation st tr pos short (some k) at in
      let empty = scan-Empty t 0 k ls at in
      let place : k ≡ empty.offset = omega (arith, empty.index) in
      let here = ap (get_elem? ls) place ∙ empty.at in
      after-Flagged (fill-Installs b t operation st tr pos short k empty missed) here λ m tag dirty.
        elim (Bool-cases (is_write operation)) [
          | inl write ↦ stored tag (is_write-Writes operation write) (ground (arith, dirty, write))
          | inr read ↦
              loaded tag (is_write-false operation read)
                (not-Cached_of_missed b t operation st tr pos short missed)
                (ground
                  (arith, dirty, read, tr.clean empty.offset empty.line empty.at empty.invalid))
        ]
  access_found-Flagged (none, none) at =
      let missed = missed_of_scan b t operation st tr pos short none at in
      let full = scan_full t 0 ls at in
      let ins = replace-Installs b t operation st tr pos short missed full in
      after-Flagged ins ins.at λ m tag dirty. elim (Bool-cases (is_write operation)) [
        | inl write ↦ stored tag (is_write-Writes operation write) (ground (arith, dirty, write))
        | inr read ↦
            loaded tag (is_write-false operation read)
              (not-Cached_of_missed b t operation st tr pos short missed)
              (ground (arith, dirty, read))
      ]

  -- On a set of at least one line that tracks a history of fewer than 2 ^ 64 - 1 accesses, the valid
  -- lines after an access of the block `t` have these dirty flags. The line of `t` is dirty after a
  -- write. After a read it keeps the flag that it had when `t` was there, and is clean when `t` was
  -- not. The line of another block keeps the flag that it had at the same index.
  pub access_set-Flagged : AllFlagged ls t operation (access_set b t operation ls st).0
  unfolding access_set
  access_set-Flagged = access_found-Flagged (scan t 0 none ls) refl
