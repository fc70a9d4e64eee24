-- ===== src/Mm/Lists/Splice.antt =====
-- Removal of a free block of more than 16 bytes from its list.
use computer_systems_project.Base.{ℕ, ◌%◌, ◌≡◌, ◌≢◌, sym, ◌∙◌, true, List, [], ◌∷◌, ◌++◌, arith}
use computer_systems_project.Mm.{Memory}
use computer_systems_project.Mm.Lists.{next_at, prev_at}
use computer_systems_project.Mm.Lists.Chain.{head_of, NotIn, Distinct, Chain}
use computer_systems_project.Mm.Lists.Remove.{last_of, NotIn-last_of, NotIn-middle}

-- A memory in which the neighbours of a block hold each other's address, and the payloads of the
-- other blocks are as before.
abbrev pub Spliced : (block prev next : ℕ) → (mem mem' : Memory) → Type 0
Spliced block prev next mem mem' =
    ((b : ℕ) → b % 16 ≡ 8 → b ≢ block → b ≢ prev → mem' (next_at b) ≡ mem (next_at b))
    × ((b : ℕ) → b % 16 ≡ 8 → b ≢ block → b ≢ next → mem' (prev_at b) ≡ mem (prev_at b))
    × (prev ≢ 0 → mem' (next_at prev) ≡ next)
    × (next ≢ 0 → mem' (prev_at next) ≡ prev)

pub head_of-other : (p : ℕ) (bs : List ℕ) → p % 16 ≡ 8 → NotIn p bs → p ≢ head_of bs
head_of-other p [] aligned away = λ e. omega (arith, aligned, e)
head_of-other p (b ∷ bs) aligned away = away.0

pub NotIn-behind :
    (p block : ℕ) (front rest : List ℕ) → NotIn p (front ++ block ∷ rest) → NotIn p rest
NotIn-behind p block [] rest away = away.1
NotIn-behind p block (f ∷ fs) rest away = NotIn-behind p block fs rest away.1

pub splice-same :
    (mem mem' : Memory) (block prev next p : ℕ) (bs : List ℕ)
    → Spliced block prev next mem mem'
    → NotIn block bs
    → NotIn prev bs
    → NotIn next bs
    → Chain mem true p bs
    → Chain mem' true p bs
splice-same mem mem' block prev next p [] s x y z c = tt
splice-same mem mem' block prev next p (b ∷ bs) s x y z c = (
  c.0,
  s.0 b c.0 (λ e. x.0 (sym e)) (λ e. y.0 (sym e)) ∙ c.1,
  (λ e. s.1 b c.0 (λ e'. x.0 (sym e')) (λ e'. z.0 (sym e')) ∙ c.2 e),
  splice-same mem mem' block prev next b bs s x.1 y.1 z.1 c.3,
)

pub splice-rest :
    (mem mem' : Memory) (block prev : ℕ) (rest : List ℕ)
    → Spliced block prev (head_of rest) mem mem'
    → Distinct (block ∷ rest)
    → NotIn prev rest
    → Chain mem true block rest
    → Chain mem' true prev rest
splice-rest mem mem' block prev [] s d away c = tt
splice-rest mem mem' block prev (n ∷ r) s d away c = (
  c.0,
  s.0 n c.0 (λ e. d.0.0 (sym e)) (λ e. away.0 (sym e)) ∙ c.1,
  (λ e. s.3 (λ zero. head_of-other n [] c.0 tt zero)),
  splice-same mem mem' block prev n n r s d.0.1 away.1 d.1.0 c.3,
)

pub splice-front :
    (mem mem' : Memory) (block p first : ℕ) (front rest : List ℕ)
    → Spliced block (last_of first front) (head_of rest) mem mem'
    → Distinct (first ∷ front ++ block ∷ rest)
    → Chain mem true p (first ∷ front ++ block ∷ rest)
    → Chain mem' true p (first ∷ front ++ rest)
splice-front mem mem' block p first [] rest s d c = (
  c.0,
  s.2 (λ e. head_of-other first [] c.0 tt e),
  (λ e. s.1 first c.0 d.0.0 (head_of-other first rest c.0 d.0.1) ∙ c.2 e),
  splice-rest mem mem' block first rest s d.1 d.0.1 c.3.3,
)
splice-front mem mem' block p first (g ∷ gs) rest s d c =
    let other = NotIn-middle first block (g ∷ gs) rest d.0 in
    let behind = NotIn-behind first block (g ∷ gs) rest d.0 in
    (
      c.0,
      s.0 first c.0 other (NotIn-last_of first g gs (block ∷ rest) d.0) ∙ c.1,
      (λ e. s.1 first c.0 other (head_of-other first rest c.0 behind) ∙ c.2 e),
      splice-front mem mem' block first g gs rest s d.1 c.3,
    )
