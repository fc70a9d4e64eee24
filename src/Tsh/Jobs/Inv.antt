-- ===== src/Tsh/Jobs/Inv.antt =====
-- The invariant of the job list, on the array and `nextjid`, and its preservation by the writes.
use computer_systems_project.Base.{
  ℕ, zero, suc, ◌-◌, ◌<◌, ◌≤◌, ◌≡◌, ◌≢◌, refl, sym, ap, ◌∙◌, subst, true, false, not, some, List,
  arith, length, get_elem?, get_or, set, replicate, ℕ_discrete, length-set, get_elem?-replicate,
  get_elem?-set_self, get_elem?-set_ne, get_or-set_self, get_or-set_ne, lt-length_of_get_elem?,
  get_elem?-eq-get_or,
}
use computer_systems_project.Base.Int.{is_pos}
use computer_systems_project.Tsh.State.{Job, no_job}
use computer_systems_project.Tsh.Jobs.{max_jobs, is_undef, is_fg, exists_in, maxjid_loop}
use computer_systems_project.Tsh.Jobs.Table.{
  NoneOf, Greatest, maxjid_loop-Greatest, Greatest-unique,
}

-- The array has its 64 slots, a job in use carries its own number and a positive process id, at most
-- one job is in the foreground, and `nextjid` is one past the greatest number in use.
pub record JobsValid (jobs : List Job) (next_jid : ℕ) : Type 0 where
  pub size : length jobs ≡ max_jobs
  pub named :
      (i : ℕ) (j : Job)
      → get_elem? jobs i ≡ some j
      → is_undef j.state ≡ false
      → (j.jid ≡ suc i) × (is_pos j.pid ≡ true)
  pub one_fg :
      (i k : ℕ) (j x : Job)
      → get_elem? jobs i ≡ some j
      → get_elem? jobs k ≡ some x
      → is_fg j.state ≡ true
      → is_fg x.state ≡ true
      → i ≡ k
  pub next : next_jid ≡ suc (maxjid_loop max_jobs jobs)

pub data Written (jobs : List Job) (i : ℕ) (v : Job) (k : ℕ) (x : Job) : Type 0 where
  this : k ≡ i → x ≡ v → Written jobs i v k x
  that : i ≢ k → get_elem? jobs k ≡ some x → Written jobs i v k x

pub written :
    (jobs : List Job) (i : ℕ) (v : Job) (k : ℕ) (x : Job)
    → get_elem? (set jobs i v) k ≡ some x
    → Written jobs i v k x
written jobs i v k x at = elim (ℕ_discrete i k) [
  | yes same ↦
      let range : k < length jobs =
        subst (λ n. k < n) (length-set jobs i v) (lt-length_of_get_elem? (set jobs i v) k at) in
      let e : some v ≡ some x =
        sym (get_elem?-set_self jobs i v (omega arith)) ∙ ap (get_elem? (set jobs i v)) same ∙ at in
      this (sym same) (sym (cc))
  | no other ↦ that other (sym (get_elem?-set_ne jobs v other) ∙ at)
]

module _ (jobs : List Job) (i : ℕ) (v : Job) where
  pub exists_in-set_self :
      i < length jobs → i < max_jobs → exists_in (set jobs i v) (suc i) ≡ not (is_undef v.state)
  unfolding exists_in
  exists_in-set_self range small =
      let e : suc i - 1 ≡ i = omega arith in
      rw (e, get_or-set_self jobs i v no_job range) (ground arith)

  pub exists_in-set_ne : (k : ℕ) → suc i ≢ k → exists_in (set jobs i v) k ≡ exists_in jobs k
  unfolding exists_in
  exists_in-set_ne zero other = refl
  exists_in-set_ne (suc k) other =
      let e : suc k - 1 ≡ k = omega arith in
      let away : i ≢ k = omega arith in rw (e, get_or-set_ne jobs v no_job away)

-- A job id in use is the index of a job.
pub exists_in-at :
    (jobs : List Job) (k : ℕ)
    → length jobs ≡ max_jobs
    → exists_in jobs k ≡ true
    → (0 < k)
      × (k ≤ max_jobs)
      × (get_elem? jobs (k - 1) ≡ some (get_or jobs (k - 1) no_job))
      × (is_undef (get_or jobs (k - 1) no_job).state ≡ false)
unfolding exists_in
exists_in-at jobs k size h = (
  ground arith,
  ground arith,
  get_elem?-eq-get_or jobs (k - 1) no_job (ground arith),
  ground arith,
)

maxjid-set-used :
    (jobs : List Job) (i : ℕ) (v : Job)
    → length jobs ≡ max_jobs
    → exists_in jobs (suc i) ≡ true
    → is_undef v.state ≡ false
    → maxjid_loop max_jobs (set jobs i v) ≡ maxjid_loop max_jobs jobs
maxjid-set-used jobs i v size used defined =
    Greatest-unique (maxjid_loop-Greatest max_jobs (set jobs i v)) (record {
      bound = g.bound;
      used = λ h. same _ ∙ g.used h;
      above = λ k a b. same k ∙ g.above k a b;
    })
  where
    g : Greatest max_jobs jobs (maxjid_loop max_jobs jobs)
    g = maxjid_loop-Greatest max_jobs jobs

    same : (k : ℕ) → exists_in (set jobs i v) k ≡ exists_in jobs k
    same k = elim (ℕ_discrete (suc i) k) [
      | yes e ↦
          let small : suc i ≤ max_jobs = (exists_in-at jobs (suc i) size used).1 in
          subst (λ n. exists_in (set jobs i v) n ≡ exists_in jobs n) e
            (exists_in-set_self jobs i v (omega arith) small ∙ ap not defined ∙ sym used)
      | no other ↦ exists_in-set_ne jobs i v k other
    ]

pub replicate-JobsValid : JobsValid (replicate max_jobs no_job) 1
unfolding maxjid_loop exists_in
replicate-JobsValid = record {
  size = refl;
  named = λ i j at used. ground (arith, get_elem?-replicate max_jobs i no_job at);
  one_fg = λ i k j x at at' f g. ground (arith, get_elem?-replicate max_jobs i no_job at);
  next = refl;
}

-- The slot that `nextjid` names is free.
pub next-free :
    {jobs : List Job} {n : ℕ} (i : ℕ)
    → JobsValid jobs n
    → n ≡ suc i
    → i < max_jobs
    → exists_in jobs (suc i) ≡ false
next-free {jobs} i v e small =
    let g = maxjid_loop-Greatest max_jobs jobs in g.above (suc i) (omega (arith, v.next)) small

-- A job put into the foreground is the only one there, if there was none.
set-one_fg :
    {jobs : List Job} {n : ℕ} (i : ℕ) (v : Job)
    → JobsValid jobs n
    → (is_fg v.state ≡ true → NoneOf (λ j. is_fg j.state) jobs)
    → (k l : ℕ) (x y : Job) → get_elem? (set jobs i v) k ≡ some x
    → get_elem? (set jobs i v) l ≡ some y
    → is_fg x.state ≡ true
    → is_fg y.state ≡ true
    → k ≡ l
set-one_fg {jobs} i v valid first k l x y at at' f g = elim (written jobs i v k x at) [
  | this here new ↦ elim (written jobs i v l y at') [
    | this here' new' ↦ here ∙ sym here'
    | that away' old' ↦ let none_fg = first (ap (λ z. is_fg z.state) (sym new) ∙ f) l y old' in cc
  ]
  | that away old ↦ elim (written jobs i v l y at') [
    | this here' new' ↦ let none_fg = first (ap (λ z. is_fg z.state) (sym new') ∙ g) k x old in cc
    | that away' old' ↦ valid.one_fg k l x y old old' f g
  ]
]

-- A job is stored in the slot that `nextjid` names.
pub set-JobsValid_new :
    {jobs : List Job} {n : ℕ} (i : ℕ) (v : Job)
    → JobsValid jobs n
    → n ≡ suc i
    → i < max_jobs
    → v.jid ≡ suc i
    → is_pos v.pid ≡ true
    → is_undef v.state ≡ false
    → (is_fg v.state ≡ true → NoneOf (λ j. is_fg j.state) jobs)
    → JobsValid (set jobs i v) (suc n)
set-JobsValid_new {jobs} {n} i v valid e small jid pid defined first = record {
  size = length-set jobs i v ∙ valid.size;
  named = named;
  one_fg = set-one_fg i v valid first;
  next = ap suc (e ∙ Greatest-unique greatest (maxjid_loop-Greatest max_jobs (set jobs i v)));
}
  where
    named :
        (k : ℕ) (x : Job)
        → get_elem? (set jobs i v) k ≡ some x
        → is_undef x.state ≡ false
        → (x.jid ≡ suc k) × (is_pos x.pid ≡ true)
    named k x at used = elim (written jobs i v k x at) [
      | this here new ↦
          (ap (λ y. y.jid) new ∙ jid ∙ ap suc (sym here), ap (λ y. is_pos y.pid) new ∙ pid)
      | that away old ↦ valid.named k x old used
    ]

    greatest : Greatest max_jobs (set jobs i v) (suc i)
    greatest = record {
      bound = small;
      used = λ h. exists_in-set_self jobs i v (omega (arith, valid.size)) small ∙ ap not defined;
      above = λ k a b.
          exists_in-set_ne jobs i v k (omega arith)
          ∙ (maxjid_loop-Greatest max_jobs jobs).above k (omega (arith, valid.next)) b;
    }

-- A job is cleared, and `nextjid` is computed anew.
pub set-JobsValid_clear :
    {jobs : List Job} {n : ℕ} (i : ℕ) (v : Job)
    → JobsValid jobs n
    → is_undef v.state ≡ true
    → is_fg v.state ≡ false
    → JobsValid (set jobs i v) (suc (maxjid_loop max_jobs (set jobs i v)))
set-JobsValid_clear {jobs} i v valid gone away = record {
  size = length-set jobs i v ∙ valid.size;
  named = λ k x at used. elim (written jobs i v k x at) [
    | this here new ↦ absurd (let e = ap (λ y. is_undef y.state) new in cc)
    | that other old ↦ valid.named k x old used
  ];
  one_fg = λ k l x y at at' f g. elim (written jobs i v k x at) [
    | this here new ↦ absurd (let e = ap (λ z. is_fg z.state) new in cc)
    | that other old ↦ elim (written jobs i v l y at') [
      | this here new ↦ absurd (let e = ap (λ z. is_fg z.state) new in cc)
      | that other' old' ↦ valid.one_fg k l x y old old' f g
    ]
  ];
  next = refl;
}

-- A job in use changes its state to one in use.
pub set-JobsValid_state :
    {jobs : List Job} {n : ℕ} (i : ℕ) (old v : Job)
    → JobsValid jobs n
    → exists_in jobs (suc i) ≡ true
    → get_elem? jobs i ≡ some old
    → v.jid ≡ old.jid
    → v.pid ≡ old.pid
    → is_undef v.state ≡ false
    → (is_fg v.state ≡ true → NoneOf (λ j. is_fg j.state) jobs)
    → JobsValid (set jobs i v) n
set-JobsValid_state {jobs} i old v valid used at jid pid defined first = record {
  size = length-set jobs i v ∙ valid.size;
  named = λ k x at' u. elim (written jobs i v k x at') [
    | this here new ↦
        let before = valid.named i old at old_used in
        (
          ap (λ y. y.jid) new ∙ jid ∙ before.0 ∙ ap suc (sym here),
          ap (λ y. is_pos y.pid) new ∙ ap is_pos pid ∙ before.1,
        )
    | that away before ↦ valid.named k x before u
  ];
  one_fg = set-one_fg i v valid first;
  next = valid.next ∙ ap suc (sym (maxjid-set-used jobs i v valid.size used defined));
}
  where
    old_used : is_undef old.state ≡ false
    old_used =
        let e : suc i - 1 ≡ i = omega arith in
        let found = exists_in-at jobs (suc i) valid.size used in
        let same : some (get_or jobs (suc i - 1) no_job) ≡ some old =
          sym found.2 ∙ ap (get_elem? jobs) e ∙ at in
        let e' : get_or jobs (suc i - 1) no_job ≡ old = cc in
        subst (λ (j : Job). is_undef j.state ≡ false) e' found.3

-- A slot whose job is defined is in use.
pub exists_in-of_at :
    (jobs : List Job) (i : ℕ) (j : Job)
    → length jobs ≡ max_jobs
    → get_elem? jobs i ≡ some j
    → is_undef j.state ≡ false
    → (get_or jobs i no_job ≡ j) × (exists_in jobs (suc i) ≡ true)
unfolding exists_in
exists_in-of_at jobs i j size at defined =
    let range : i < length jobs = lt-length_of_get_elem? jobs i at in
    let same : some (get_or jobs i no_job) ≡ some j =
      sym (get_elem?-eq-get_or jobs i no_job range) ∙ at in
    let e : suc i - 1 ≡ i = omega arith in
    let here : get_or jobs i no_job ≡ j = cc in (here, rw (e, here, defined) (ground arith))

pub exists_in-zero : (jobs : List Job) → exists_in jobs 0 ≡ false
unfolding exists_in
exists_in-zero jobs = refl
