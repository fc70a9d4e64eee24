-- ===== src/Queue/Chain.antt =====
-- The elements of a queue on the heap, and what writes to the heap do to them.
use computer_systems_project.Base.{
  ℕ, suc, ◌+◌, ◌*◌, ◌<◌, ◌≡◌, ◌≢◌, refl, ap, ◌∙◌, sym, false, ◌==◌, Option, some, List, [], ◌∷◌,
  length, arith, ==_self,
}
use computer_systems_project.Queue.{Element, Heap, Queue, put, set_next}

abbrev pub Elements : Type 0
Elements = List (ℕ × List ℕ)

abbrev pub head_of : Elements → ℕ
head_of [] = 0
head_of ((a, v) ∷ r) = a

abbrev pub last_of : Elements → ℕ
last_of [] = 0
last_of ((a, v) ∷ []) = a
last_of ((a, v) ∷ (b, w) ∷ r) = last_of ((b, w) ∷ r)

abbrev pub NotIn : ℕ → Elements → Type 0
NotIn p [] = Unit
NotIn p ((a, v) ∷ r) = (p ≢ a) × NotIn p r

abbrev pub Distinct : Elements → Type 0
Distinct [] = Unit
Distinct ((a, v) ∷ r) = NotIn a r × Distinct r

abbrev pub Below : ℕ → Elements → Type 0
Below n [] = Unit
Below n ((a, v) ∷ r) = (a < n) × Below n r

-- Each element is on the heap with its value and the address of the one behind it.
abbrev pub Linked : (ℕ → Option Element) → Elements → Type 0
Linked at [] = Unit
Linked at ((a, v) ∷ r) =
    (a ≢ 0) × (at a ≡ some (record { value = v; next = head_of r })) × Linked at r

abbrev pub values : Elements → List (List ℕ)
values [] = []
values ((a, v) ∷ r) = v ∷ values r

-- The queue `q` on the heap `h` holds the strings `vs`; `others` allocations are not its own.
pub record HoldsQueue (others : ℕ) (h : Heap) (q : Queue) (vs : List (List ℕ)) : Type 0 where
  pub elements : Elements
  pub linked : Linked h.at elements
  pub distinct : Distinct elements
  pub below : Below h.top elements
  pub positive : 0 < h.top
  pub head : q.head ≡ head_of elements
  pub tail : q.tail ≡ last_of elements
  pub size : q.size ≡ length vs
  pub strings : values elements ≡ vs
  pub owned : h.live ≡ others + 1 + 2 * length vs

pub put_ne : (at : ℕ → Option Element) (p x : ℕ) (e : Option Element) → x ≢ p → put at p e x ≡ at x
put_ne at p x e other = ground arith

pub set_next_ne : (at : ℕ → Option Element) (p q x : ℕ) → x ≢ p → set_next p q at x ≡ at x
unfolding set_next
set_next_ne at p q x other = let e : (x == p) ≡ false = ground arith in rw e refl

pub set_next_self :
    (at : ℕ → Option Element) (p q n : ℕ) (v : List ℕ)
    → at p ≡ some (record { value = v; next = n })
    → set_next p q at p ≡ some (record { value = v; next = q })
unfolding set_next
set_next_self at p q n v e = rw (==_self p, e) refl

-- A heap that agrees at the addresses of the elements.
pub Linked-frame :
    (at at' : ℕ → Option Element) (p : ℕ) (els : Elements)
    → ((x : ℕ) → x ≢ p → at' x ≡ at x)
    → NotIn p els
    → Linked at els
    → Linked at' els
Linked-frame at at' p [] same away l = tt
Linked-frame at at' p ((a, v) ∷ r) same away l =
    (l.0, same a (λ e. away.0 (sym e)) ∙ l.1, Linked-frame at at' p r same away.1 l.2)

pub NotIn-Below : (n : ℕ) (els : Elements) → Below n els → NotIn n els
NotIn-Below n [] b = tt
NotIn-Below n ((a, v) ∷ r) b = (omega (arith, b.0), NotIn-Below n r b.1)

pub Below-suc : (n : ℕ) (els : Elements) → Below n els → Below (n + 1) els
Below-suc n [] b = tt
Below-suc n ((a, v) ∷ r) b = (omega (arith, b.0), Below-suc n r b.1)

pub length-values : (els : Elements) → length (values els) ≡ length els
length-values [] = refl
length-values ((a, v) ∷ r) = ap suc (length-values r)
