-- ===== src/CacheSim/Recency/Step.antt =====
-- One access keeps the history of a set: the line at `k` is given the tag `t`, and every counter
-- of the set is incremented.
use computer_systems_project.Base.{
  ℕ, suc, ◌^◌, ◌<◌, ◌≤◌, ◌≡◌, ◌≢◌, sym, ap, ◌∙◌, subst, true, false, ◌⊎◌, inl, inr, some, List, ◌∷◌,
  map, arith, length, get_elem?, modify, Option-cases, length-modify, length-map, get_elem?-map,
  get_elem?-modify, ℕ_discrete,
}
use computer_systems_project.CacheSim.{CacheLine, tick}
use computer_systems_project.CacheSim.Recency.{
  age, age-le-length, age_pos, age_inj, Holds, Cached, AllNewer, Tracks,
}

module _ (ls : List CacheLine) (k : ℕ) (f : CacheLine → CacheLine) where
  abbrev pub after : List CacheLine
  after = map tick (modify ls k f)

  -- A line after the access is the one that was written or an old one, ticked.
  pub data LineAfter (j : ℕ) (m : CacheLine) : Type 0 where
    written : (l : CacheLine) → get_elem? ls j ≡ some l → k ≡ j → m ≡ tick (f l) → LineAfter j m
    kept : (l : CacheLine) → get_elem? ls j ≡ some l → k ≢ j → m ≡ tick l → LineAfter j m

  pub line_after : (j : ℕ) (m : CacheLine) → get_elem? after j ≡ some m → LineAfter j m
  line_after j m at = elim (Option-cases (get_elem? ls j)) [
    | inl out ↦ absurd (ground (arith, get_elem?-map changed tick j, get_elem?-modify ls k j f))
    | inr (l, e) ↦ elim (ℕ_discrete k j) [
      | yes here ↦
          written l e here (ground (arith, get_elem?-map changed tick j, get_elem?-modify ls k j f))
      | no away ↦
          kept l e away (ground (arith, get_elem?-map changed tick j, get_elem?-modify ls k j f))
    ]
  ]
    where
      changed : List CacheLine
      changed = modify ls k f

  after_kept :
      (j : ℕ) (l : CacheLine) → get_elem? ls j ≡ some l → k ≢ j → get_elem? after j ≡ some (tick l)
  after_kept j l e away =
      ground (arith, get_elem?-map (modify ls k f) tick j, get_elem?-modify ls k j f)

  after_written : (l : CacheLine) → get_elem? ls k ≡ some l → get_elem? after k ≡ some (tick (f l))
  after_written l e =
      ground (arith, get_elem?-map (modify ls k f) tick k, get_elem?-modify ls k k f)

-- What the access must have found at `k`: the block of the tag or a line to evict, which is the
-- oldest of a full set, and no other line with the tag.
pub record Installs (h : List ℕ) (ls : List CacheLine) (t k : ℕ) (f : CacheLine → CacheLine)
    : Type 0 where
  pub old : CacheLine
  pub at : get_elem? ls k ≡ some old
  pub valid : (f old).valid ≡ true
  pub tag : (f old).tag ≡ t
  pub fresh : (f old).lru ≡ 0
  pub others : (j : ℕ) (l : CacheLine) → Holds ls j l → k ≢ j → l.tag ≢ t
  pub victim :
      old.valid ≡ true
      → old.tag ≢ t
      → (j : ℕ) (l : CacheLine) → get_elem? ls j ≡ some l
      → (l.valid ≡ true) × (l.lru ≤ old.lru)
  pub short : suc (length h) < 2 ^ 64

module _ {n : ℕ} {h : List ℕ} {ls : List CacheLine} {t k : ℕ} {f : CacheLine → CacheLine}
    (tr : Tracks n h ls) (ins : Installs h ls t k f) where
  -- The counter of a valid line does not wrap.
  tick_lru : (j : ℕ) (l : CacheLine) → Holds ls j l → (tick l).lru ≡ suc l.lru
  unfolding tick
  tick_lru j l e = omega (arith, age-le-length l.tag h (tr.aged j l e), ins.short)

  -- A valid line after the access: the one of the latest block, or an old one, one older.
  data LineNow (j : ℕ) (m : CacheLine) : Type 0 where
    newest : k ≡ j → m.tag ≡ t → m.lru ≡ 1 → LineNow j m
    older :
        (l : CacheLine)
        → k ≢ j
        → Holds ls j l
        → m.tag ≡ l.tag
        → m.lru ≡ suc l.lru
        → l.tag ≢ t
        → LineNow j m

  line_now : (j : ℕ) (m : CacheLine) → Holds (after ls k f) j m → LineNow j m
  unfolding tick
  line_now j m e = go (line_after ls k f j m e.at)
    where
      go : LineAfter ls k f j m → LineNow j m
      go (written l at here new) =
          let same : some l ≡ some ins.old = sym at ∙ ap (get_elem? ls) (sym here) ∙ ins.at in
          let e' : l ≡ ins.old = cc in
          let now : m ≡ tick (f ins.old) = new ∙ ap (λ x. tick (f x)) e' in
          newest here (ap (λ x. x.tag) now ∙ ins.tag)
            (ap (λ x. x.lru) now ∙ omega (arith, ins.fresh))
      go (kept l at away new) =
          let holds : Holds ls j l = record { at = at; valid = ground (arith, e.valid) } in
          older l away holds (ap (λ x. x.tag) new) (ap (λ x. x.lru) new ∙ tick_lru j l holds)
            (ins.others j l holds away)

  after-aged : (j : ℕ) (m : CacheLine) → Holds (after ls k f) j m → age m.tag (t ∷ h) ≡ some m.lru
  after-aged j m e = go (line_now j m e)
    where
      go : LineNow j m → age m.tag (t ∷ h) ≡ some m.lru
      go (newest here tag lru) = ground arith
      go (older l away holds tag lru other) = ground (arith, tr.aged j l holds)

  after-distinct :
      (i j : ℕ) (l m : CacheLine)
      → Holds (after ls k f) i l
      → Holds (after ls k f) j m
      → l.tag ≡ m.tag
      → i ≡ j
  after-distinct i j l m e g same = go (line_now i l e) (line_now j m g)
    where
      go : LineNow i l → LineNow j m → i ≡ j
      go (newest here tag lru) (newest here' tag' lru') = cc
      go (newest here tag lru) (older l' away holds tag' lru' other) =
          absurd (other (sym tag' ∙ sym same ∙ tag))
      go (older l' away holds tag' lru' other) (newest here tag lru) =
          absurd (other (sym tag' ∙ same ∙ tag))
      go (older l₁ away₁ holds₁ tag₁ lru₁ other₁) (older l₂ away₂ holds₂ tag₂ lru₂ other₂) =
          tr.distinct i j l₁ l₂ holds₁ holds₂ (sym tag₁ ∙ same ∙ tag₂)

  after-clean :
      (j : ℕ) (m : CacheLine)
      → get_elem? (after ls k f) j ≡ some m
      → m.valid ≡ false
      → m.dirty ≡ false
  unfolding tick
  after-clean j m at free = go (line_after ls k f j m at)
    where
      go : LineAfter ls k f j m → m.dirty ≡ false
      go (written l e here new) =
          let same : some l ≡ some ins.old = sym e ∙ ap (get_elem? ls) (sym here) ∙ ins.at in
          let e' : l ≡ ins.old = cc in
          let valid : m.valid ≡ true =
            ap (λ x. x.valid) (new ∙ ap (λ x. tick (f x)) e') ∙ ins.valid in
          cc
      go (kept l e away new) =
          ap (λ x. x.dirty) new ∙ tr.clean j l e (sym (ap (λ x. x.valid) new) ∙ free)

  -- The lines that stay are younger than the block that was evicted.
  pub kept-lt :
      (u b : ℕ)
      → age u h ≡ some b
      → (j : ℕ) (l : CacheLine) → Holds ls j l
      → l.lru ≤ b
      → l.tag ≢ u
      → l.lru < b
  kept-lt u b aged j l holds le other = elim (ℕ_discrete l.lru b) [
    | yes same ↦ absurd (other (age_inj l.tag u h (tr.aged j l holds ∙ ap some same) aged))
    | no differs ↦ omega arith
  ]

  after-AllNewer :
      (b : ℕ)
      → 0 < b
      → ((j : ℕ) (l : CacheLine) → get_elem? ls j ≡ some l → k ≢ j → (l.valid ≡ true) × (l.lru < b))
      → AllNewer (after ls k f) (suc b)
  unfolding tick
  after-AllNewer b pos old j m at = go (line_after ls k f j m at)
    where
      go : LineAfter ls k f j m → (m.valid ≡ true) × (m.lru < suc b)
      go (written l e here new) =
          let same : some l ≡ some ins.old = sym e ∙ ap (get_elem? ls) (sym here) ∙ ins.at in
          let e' : l ≡ ins.old = cc in
          let now : m ≡ tick (f ins.old) = new ∙ ap (λ x. tick (f x)) e' in
          let lru : m.lru ≡ 1 = ap (λ x. x.lru) now ∙ omega (arith, ins.fresh) in
          (ap (λ x. x.valid) now ∙ ins.valid, omega arith)
      go (kept l e away new) =
          let holds : Holds ls j l = record { at = e; valid = (old j l e away).0 } in
          let lru : m.lru ≡ suc l.lru = ap (λ x. x.lru) new ∙ tick_lru j l holds in
          (ap (λ x. x.valid) new ∙ (old j l e away).0, omega (arith, (old j l e away).1))

  -- A block in another line than `k` stays.
  pub kept-Cached : (u : ℕ) (c : Cached ls u) → k ≢ c.index → Cached (after ls k f) u
  unfolding tick
  kept-Cached u c away = record {
    index = c.index;
    line = tick c.line;
    holds = record { at = after_kept ls k f c.index c.line c.holds.at away; valid = c.holds.valid };
    same_tag = c.same_tag;
  }

  pub written-Cached : Cached (after ls k f) t
  unfolding tick
  written-Cached = record {
    index = k;
    line = tick (f ins.old);
    holds = record { at = after_written ls k f ins.old ins.at; valid = ins.valid };
    same_tag = ins.tag;
  }

  -- The block that stood at `k` is gone, unless it is the one that was accessed.
  pub not-Cached_evicted :
      ins.old.valid ≡ true → ins.old.tag ≢ t → ¬ Cached (after ls k f) ins.old.tag
  not-Cached_evicted valid other c = go (line_now c.index c.line c.holds)
    where
      go : LineNow c.index c.line → ⊥
      go (newest here tag lru) = other (sym c.same_tag ∙ tag)
      go (older l away holds tag lru differs) = away (
          tr.distinct k c.index ins.old l (record { at = ins.at; valid = valid }) holds
            (sym c.same_tag ∙ tag))

  evicted-recent :
      (u b : ℕ)
      → age u h ≡ some b
      → t ≢ u
      → Cached ls u
      → Cached (after ls k f) u ⊎ AllNewer (after ls k f) (suc b)
  unfolding tick
  evicted-recent u b aged other c = elim (ℕ_discrete k c.index) [
    | no away ↦ inl (kept-Cached u c away)
    | yes here ↦ inr (after-AllNewer b (age_pos u h aged) (younger here))
  ]
    where
      younger :
          k ≡ c.index
          → (j : ℕ) (l : CacheLine) → get_elem? ls j ≡ some l
          → k ≢ j
          → (l.valid ≡ true) × (l.lru < b)
      younger here j l at away =
          let at_old : some c.line ≡ some ins.old =
            sym c.holds.at ∙ ap (get_elem? ls) (sym here) ∙ ins.at in
          let old : c.line ≡ ins.old = cc in
          let tag : ins.old.tag ≡ u = ap (λ x. x.tag) (sym old) ∙ c.same_tag in
          let valid : ins.old.valid ≡ true = ap (λ x. x.valid) (sym old) ∙ c.holds.valid in
          let v = ins.victim valid (λ e. other (sym e ∙ tag)) j l at in
          let old_holds : Holds ls k ins.old = record { at = ins.at; valid = valid } in
          let lru : some ins.old.lru ≡ some b =
            sym (tr.aged k ins.old old_holds) ∙ ap (λ x. age x h) tag ∙ aged in
          let le : l.lru ≤ b = ground (arith, v.1) in
          let holds : Holds ls j l = record { at = at; valid = v.0 } in
          (
            v.0,
            kept-lt u b aged j l holds le
                (λ e. away (tr.distinct k j ins.old l old_holds holds (tag ∙ sym e))),
          )

  after-recent :
      (u a : ℕ) → age u (t ∷ h) ≡ some a → Cached (after ls k f) u ⊎ AllNewer (after ls k f) a
  unfolding tick
  after-recent u a aged = elim (ℕ_discrete t u) [
    | yes same ↦ inl (subst (Cached (after ls k f)) same written-Cached)
    | no other ↦ elim (Option-cases (age u h)) [
      | inl never ↦ absurd (ground arith)
      | inr (b, before) ↦
          let later : suc b ≡ a = ground arith in
          subst (λ x. Cached (after ls k f) u ⊎ AllNewer (after ls k f) x) later
            (elim (tr.recent u b before) [
              | inl c ↦ evicted-recent u b before other c
              | inr newer ↦
                  inr (after-AllNewer b (age_pos u h before) (λ j l at away. newer j l at))
            ])
    ]
  ]

  -- The access keeps track of the history.
  pub after-Tracks : Tracks n (t ∷ h) (after ls k f)
  after-Tracks = record {
    size = length-map (modify ls k f) tick ∙ length-modify ls k f ∙ tr.size;
    aged = after-aged;
    distinct = after-distinct;
    clean = after-clean;
    recent = after-recent;
  }
