-- ===== src/Mm/Layout/Members.antt =====
-- Members of free lists.
use computer_systems_project.Base.{
  ℕ, zero, suc, ◌+◌, ◌<◌, ◌≤◌, ◌≡◌, ◌≢◌, refl, sym, ap, ◌∙◌, inl, inr, Bool, true, false, ◌==◌,
  ==_self, if◌then◌else◌, Bool-cases, List, [], ◌∷◌, ◌++◌, length, arith,
}
use computer_systems_project.Mm.{Memory}
use computer_systems_project.Mm.Layout.{In, total}
use computer_systems_project.Mm.Lists.{next_at, prev_at}
use computer_systems_project.Mm.Lists.Chain.{NotIn, Distinct, Chain}

pub In-parts : (x : ℕ) (xs : List ℕ) → In x xs → (f : List ℕ) × (r : List ℕ) × (xs ≡ f ++ x ∷ r)
In-parts x [] h = absurd h
In-parts x (b ∷ bs) (inl e) = ([], bs, ap (λ t. t ∷ bs) (sym e))
In-parts x (b ∷ bs) (inr h) = let (f, r, e) = In-parts x bs h in (b ∷ f, r, ap (λ t. b ∷ t) e)

pub In-drop : (x b : ℕ) (f r : List ℕ) → In x (f ++ r) → In x (f ++ b ∷ r)
In-drop x b [] r h = inr h
In-drop x b (c ∷ f) r (inl e) = inl e
In-drop x b (c ∷ f) r (inr h) = inr (In-drop x b f r h)

pub In-keep : (x b : ℕ) (f r : List ℕ) → x ≢ b → In x (f ++ b ∷ r) → In x (f ++ r)
In-keep x b [] r other (inl e) = absurd (other e)
In-keep x b [] r other (inr h) = h
In-keep x b (c ∷ f) r other (inl e) = inl e
In-keep x b (c ∷ f) r other (inr h) = inr (In-keep x b f r other h)

pub NotIn-In : (x b : ℕ) (xs : List ℕ) → NotIn b xs → In x xs → x ≢ b
NotIn-In x b [] away h = absurd h
NotIn-In x b (c ∷ xs) away (inl e) = λ f. away.0 (sym f ∙ e)
NotIn-In x b (c ∷ xs) away (inr h) = NotIn-In x b xs away.1 h

pub NotIn-of : (b : ℕ) (xs : List ℕ) → ((x : ℕ) → In x xs → x ≢ b) → NotIn b xs
NotIn-of b [] other = tt
NotIn-of b (c ∷ xs) other =
    ((λ e. other c (inl refl) (sym e)), NotIn-of b xs (λ x h. other x (inr h)))

NotIn-drop : (x b : ℕ) (f r : List ℕ) → NotIn x (f ++ b ∷ r) → NotIn x (f ++ r)
NotIn-drop x b [] r h = h.1
NotIn-drop x b (c ∷ f) r h = (h.0, NotIn-drop x b f r h.1)

pub Distinct-drop : (b : ℕ) (f r : List ℕ) → Distinct (f ++ b ∷ r) → Distinct (f ++ r)
Distinct-drop b [] r d = d.1
Distinct-drop b (c ∷ f) r d = (NotIn-drop c b f r d.0, Distinct-drop b f r d.1)

-- The removed block is not in what is left.
pub Distinct-other : (x b : ℕ) (f r : List ℕ) → Distinct (f ++ b ∷ r) → In x (f ++ r) → x ≢ b
Distinct-other x b [] r d h = NotIn-In x b r d.0 h
Distinct-other x b (c ∷ f) r d (inl e) =
    λ g. NotIn-In b c (f ++ b ∷ r) d.0 (In-middle b f r) (sym g ∙ e)
  where
    In-middle : (b : ℕ) (f r : List ℕ) → In b (f ++ b ∷ r)
    In-middle b [] r = inl refl
    In-middle b (c ∷ f) r = inr (In-middle b f r)
Distinct-other x b (c ∷ f) r d (inr h) = Distinct-other x b f r d.1 h

-- A chain lies in the words of its blocks.
pub Chain-agree :
    (mem mem' : Memory) (both : Bool) (prev : ℕ) (bs : List ℕ)
    → ((b : ℕ)
        → In b bs
        → (mem' (next_at b) ≡ mem (next_at b)) × (both ≡ true → mem' (prev_at b) ≡ mem (prev_at b)))
    → Chain mem both prev bs
    → Chain mem' both prev bs
Chain-agree mem mem' both prev [] same c = tt
Chain-agree mem mem' both prev (b ∷ bs) same c =
    let here = same b (inl refl) in
    (
      c.0,
      here.0 ∙ c.1,
      (λ e. here.1 e ∙ c.2 e),
      Chain-agree mem mem' both b bs (λ x h. same x (inr h)) c.3,
    )

abbrev pub update : (ℕ → List ℕ) → ℕ → List ℕ → ℕ → List ℕ
update lists c l k = if k == c then l else lists k

total_below :
    (n : ℕ) (lists : ℕ → List ℕ) (c : ℕ) (l : List ℕ)
    → n ≤ c
    → total n (update lists c l) ≡ total n lists
total_below zero lists c l h = refl
total_below (suc n) lists c l h =
    let other : (n == c) ≡ false = ground arith in
    let here : update lists c l n ≡ lists n = rw other refl in
    omega (arith, ap (length {0}) here, total_below n lists c l (omega arith))

pub total-update :
    (n : ℕ) (lists : ℕ → List ℕ) (c : ℕ) (l : List ℕ)
    → c < n
    → total n (update lists c l) + length (lists c) ≡ total n lists + length l
total-update zero lists c l h = absurd (omega arith)
total-update (suc n) lists c l h = elim (Bool-cases (n == c)) [
  | inl same ↦
      let e : n ≡ c = ground arith in
      let here : update lists c l n ≡ l = rw same refl in
      let there : lists n ≡ lists c = ap lists e in
      omega (
        arith,
        ap (length {0}) here,
        ap (length {0}) there,
        total_below n lists c l (omega (arith, e)),
      )
  | inr other ↦
      let here : update lists c l n ≡ lists n = rw other refl in
      omega (arith, ap (length {0}) here, total-update n lists c l (ground arith))
]

pub length-le_total :
    (n : ℕ) (lists : ℕ → List ℕ) (c : ℕ) → c < n → length (lists c) ≤ total n lists
length-le_total zero lists c h = absurd (omega arith)
length-le_total (suc n) lists c h = elim (Bool-cases (n == c)) [
  | inl same ↦
      let there : lists n ≡ lists c = ap lists (ground arith) in
      omega (arith, ap (length {0}) there)
  | inr other ↦ omega (arith, length-le_total n lists c (ground arith))
]

pub update_self : (lists : ℕ → List ℕ) (c : ℕ) (l : List ℕ) → update lists c l c ≡ l
update_self lists c l = rw (==_self c) refl

pub update_ne :
    (lists : ℕ → List ℕ) (c : ℕ) (l : List ℕ) (k : ℕ) → k ≢ c → update lists c l k ≡ lists k
update_ne lists c l k other = let e : (k == c) ≡ false = ground arith in rw e refl
