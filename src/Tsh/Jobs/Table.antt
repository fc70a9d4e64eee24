-- ===== src/Tsh/Jobs/Table.antt =====
-- Facts about the array of jobs: the two scans and a write.
use computer_systems_project.Base.{
  ℕ, zero, suc, ◌+◌, ◌<◌, ◌≤◌, ◌≡◌, ◌≢◌, refl, sym, ap, ◌∙◌, subst, Bool, true, false, ◌⊎◌, inl,
  inr, some, List, [], ◌∷◌, arith, length, get_elem?, set, Bool-cases, dec_lt, ℕ_discrete,
  get_elem?-set_self, get_elem?-set_ne, length-set, lt-length_of_get_elem?,
}
use computer_systems_project.Tsh.State.{Job}
use computer_systems_project.Tsh.Jobs.{exists_in, maxjid_loop, find_from}

abbrev pub NoneOf : (Job → Bool) → List Job → Type 0
NoneOf p jobs = (i : ℕ) (j : Job) → get_elem? jobs i ≡ some j → p j ≡ false

-- `r` is the number, counted from `k`, of the first job with the property.
pub record FirstAt (p : Job → Bool) (k : ℕ) (jobs : List Job) (r : ℕ) : Type 0 where
  pub offset : ℕ
  pub job : Job
  pub number : r ≡ k + offset
  pub at : get_elem? jobs offset ≡ some job
  pub holds : p job ≡ true
  pub before : (i : ℕ) (j : Job) → i < offset → get_elem? jobs i ≡ some j → p j ≡ false

module _ (p : Job → Bool) where
  NoneOf-cons : (j : Job) (js : List Job) → p j ≡ false → NoneOf p js → NoneOf p (j ∷ js)
  NoneOf-cons j js h rest zero x at = subst (λ y. p y ≡ false) (cc) h
  NoneOf-cons j js h rest (suc i) x at = rest i x at

  FirstAt-cons :
      (k r : ℕ) (j : Job) (js : List Job)
      → p j ≡ false
      → FirstAt p (k + 1) js r
      → FirstAt p k (j ∷ js) r
  FirstAt-cons k r j js miss f = record {
    offset = suc f.offset;
    job = f.job;
    number = omega (arith, f.number);
    at = f.at;
    holds = f.holds;
    before = earlier;
  }
    where
      earlier : (i : ℕ) (x : Job) → i < suc f.offset → get_elem? (j ∷ js) i ≡ some x → p x ≡ false
      earlier zero x lt at = subst (λ y. p y ≡ false) (cc) miss
      earlier (suc i) x lt at = f.before i x (omega arith) at

  pub find_from-cases :
      (k : ℕ) (jobs : List Job)
      → ((find_from p k jobs ≡ 0) × NoneOf p jobs) ⊎ FirstAt p k jobs (find_from p k jobs)
  unfolding find_from
  find_from-cases k [] = inl (refl, λ i j at. cc)
  find_from-cases k (j ∷ js) = elim (Bool-cases (p j)) [
    | inl here ↦ rw here (
        inr (record {
          offset = 0;
          job = j;
          number = omega arith;
          at = refl;
          holds = here;
          before = λ i x lt. absurd (omega arith);
        }))
    | inr miss ↦ rw miss (elim (find_from-cases (k + 1) js) [
      | inl (e, rest) ↦ inl (e, NoneOf-cons j js miss rest)
      | inr f ↦ inr (FirstAt-cons k _ j js miss f)
    ])
  ]

  -- The scan from 1 returns 0 only when no job has the property.
  pub find_from-eq-zero : (jobs : List Job) → find_from p 1 jobs ≡ 0 → NoneOf p jobs
  find_from-eq-zero jobs h = elim (find_from-cases 1 jobs) [
    | inl (e, none_of) ↦ none_of
    | inr f ↦ absurd (omega (arith, f.number))
  ]

  pub find_from_of_NoneOf : (k : ℕ) (jobs : List Job) → NoneOf p jobs → find_from p k jobs ≡ 0
  find_from_of_NoneOf k jobs none_of = elim (find_from-cases k jobs) [
    | inl (e, _) ↦ e
    | inr f ↦ ground (arith, f.holds, none_of f.offset f.job f.at)
  ]

  -- Where one job alone has the property, the scan finds it.
  pub find_from_unique :
      (jobs : List Job) (i : ℕ) (j : Job)
      → get_elem? jobs i ≡ some j
      → p j ≡ true
      → ((k : ℕ) (x : Job) → get_elem? jobs k ≡ some x → p x ≡ true → k ≡ i)
      → find_from p 1 jobs ≡ suc i
  find_from_unique jobs i j at h one = elim (find_from-cases 1 jobs) [
    | inl (e, none_of) ↦ ground (arith, none_of i j at)
    | inr f ↦ omega (arith, f.number, one f.offset f.job f.at f.holds)
  ]

-- `maxjid_loop k` is the greatest job id up to `k` that is in use.
pub record Greatest (k : ℕ) (jobs : List Job) (m : ℕ) : Type 0 where
  pub bound : m ≤ k
  pub used : m ≢ 0 → exists_in jobs m ≡ true
  pub above : (i : ℕ) → m < i → i ≤ k → exists_in jobs i ≡ false

pub maxjid_loop-Greatest : (k : ℕ) (jobs : List Job) → Greatest k jobs (maxjid_loop k jobs)
unfolding maxjid_loop
maxjid_loop-Greatest zero jobs = record {
  bound = omega arith;
  used = λ h. absurd (h refl);
  above = λ i a b. absurd (omega arith);
}
maxjid_loop-Greatest (suc k) jobs = elim (Bool-cases (exists_in jobs (suc k))) [
  | inl here ↦
      rw here
        (record { bound = omega arith; used = λ h. here; above = λ i a b. absurd (omega arith) })
  | inr free ↦
      let g = maxjid_loop-Greatest k jobs in
      rw free (record {
        bound = omega (arith, g.bound);
        used = g.used;
        above = λ i a b. elim (ℕ_discrete i (suc k)) [
          | yes same ↦ rw same free
          | no other ↦ g.above i a (omega arith)
        ];
      })
]

pub Greatest-unique :
    {k : ℕ} {jobs : List Job} {m n : ℕ} → Greatest k jobs m → Greatest k jobs n → m ≡ n
Greatest-unique {k} {jobs} {m} {n} g h = elim (dec_lt m n) [
  | yes p ↦ ground (arith, g.above n p h.bound, h.used (omega arith))
  | no p ↦ elim (dec_lt n m) [
    | yes q ↦ ground (arith, h.above m q g.bound, g.used (omega arith))
    | no q ↦ omega arith
  ]
]

-- A write that keeps the property of the old entry does not lose the last entry that has it.
pub find_from-set :
    (p : Job → Bool) (jobs : List Job) (i : ℕ) (v : Job)
    → ((old : Job) → get_elem? jobs i ≡ some old → p old ≡ true → p v ≡ true)
    → find_from p 1 jobs ≢ 0
    → find_from p 1 (set jobs i v) ≢ 0
find_from-set p jobs i v keeps there gone = elim (find_from-cases p 1 jobs) [
  | inl (e, _) ↦ there e
  | inr f ↦ elim (ℕ_discrete i f.offset) [
    | no other ↦ absurd (
        let e = none_left f.offset f.job (get_elem?-set_ne jobs v other ∙ f.at) in
        let h = f.holds in cc)
    | yes same ↦ absurd (
        let range : i < length jobs =
          subst (λ n. n < length jobs) (sym same) (lt-length_of_get_elem? jobs f.offset f.at) in
        let e = none_left i v (get_elem?-set_self jobs i v range) in
        let h = keeps f.job (ap (get_elem? jobs) same ∙ f.at) f.holds in cc)
  ]
]
  where
    none_left : NoneOf p (set jobs i v)
    none_left = find_from-eq-zero p (set jobs i v) gone

-- A write of an entry without the property does not make a first one that has it.
pub find_from-set_none :
    (p : Job → Bool) (jobs : List Job) (i : ℕ) (v : Job)
    → p v ≡ false
    → find_from p 1 jobs ≡ 0
    → find_from p 1 (set jobs i v) ≡ 0
find_from-set_none p jobs i v h gone = elim (find_from-cases p 1 (set jobs i v)) [
  | inl (e, _) ↦ e
  | inr f ↦ absurd (
      let range : f.offset < length jobs =
        subst (λ n. f.offset < n) (length-set jobs i v)
          (lt-length_of_get_elem? (set jobs i v) f.offset f.at) in
      elim (ℕ_discrete i f.offset) [
        | no other ↦
            let e =
              find_from-eq-zero p jobs gone f.offset f.job
                (sym (get_elem?-set_ne jobs v other) ∙ f.at) in
            let h' = f.holds in cc
        | yes same ↦
            let e : some v ≡ some f.job =
              sym (get_elem?-set_self jobs i v (omega arith))
              ∙ ap (get_elem? (set jobs i v)) same
              ∙ f.at in
            let e' : v ≡ f.job = cc in let h' = f.holds in cc
      ])
]
