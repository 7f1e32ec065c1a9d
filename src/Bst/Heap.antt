-- ===== src/Bst/Heap.antt =====
-- `struct tree_node` at addresses, and commands that read and write the heap.
use interview_questions.Prelude.{
  ◌==◌, if◌then◌else◌, ==_refl, ne→==, ℕ, ◌≡◌, ◌≢◌, Option, none, some,
}
use interview_questions.Prelude.Int.{ℤ}
use interview_questions.Prelude.Run.{Run, done, fault, no_fuel}

abbrev pub Ptr : Type 0
Ptr = ℕ

-- `NULL`.
abbrev pub null : Ptr
null = 0

pub record Node : Type 0 where
  pub key : ℤ
  pub parent : Ptr
  pub left : Ptr
  pub right : Ptr

-- An address that holds no node is not allocated, or was given back.
abbrev pub Heap : Type 0
Heap = Ptr → Option Node

unfoldable pub write : Heap → Ptr → Option Node → Heap
write h p c a = if a == p then c else h a

abbrev pub M : Type 0 → Type 0
M A = Heap → Run (A × Heap)

abbrev pub pure : {A : Type 0} → A → M A
pure a h = done (a, h)

abbrev pub fails : {A : Type 0} → M A
fails h = fault

abbrev pub out_of_fuel : {A : Type 0} → M A
out_of_fuel h = no_fuel

infixl 5 ◌>>=◌ ◌>>◌
abbrev pub ◌>>=◌ : {A B : Type 0} → M A → (A → M B) → M B
◌>>=◌ m f h = elim (m h) [ done (a, g) ↦ f a g | fault ↦ fault | no_fuel ↦ no_fuel ]

abbrev pub ◌>>◌ : {B : Type 0} → M (Unit {0}) → M B → M B
m >> k = m >>= λ _. k

-- `*p`, which faults at `NULL` and at an address that holds no node.
unfoldable pub load : Ptr → M Node
load p h = if p == null then fault else elim (h p) [ none ↦ fault | some n ↦ done (n, h) ]

unfoldable pub store : Ptr → Node → M (Unit {0})
store p n h = done (tt, write h p (some n))

-- `p->left = v`, and so for the other two pointers.
unfoldable pub set_left : Ptr → Ptr → M (Unit {0})
set_left p v = do n ← load p; store p (record n { left = v })

unfoldable pub set_right : Ptr → Ptr → M (Unit {0})
set_right p v = do n ← load p; store p (record n { right = v })

unfoldable pub set_parent : Ptr → Ptr → M (Unit {0})
set_parent p v = do n ← load p; store p (record n { parent = v })

-- What `malloc` does is not in the program: `fresh` picks the address, or fails.
abbrev pub Malloc : Type 0
Malloc = Heap → Option Ptr

-- What `malloc` promises: an address that is not `NULL` and not in use.
abbrev pub IsFresh : Malloc → Type 0
IsFresh fresh = (h : Heap) (p : Ptr) → fresh h ≡ some p → (p ≢ null) × (h p ≡ none)

-- `new_tree_node`.
unfoldable pub new_tree_node : Malloc → ℤ → (left right parent : Ptr) → M Ptr
new_tree_node fresh k left right parent h = elim (fresh h) [
  | none ↦ done (null, h)
  | some p ↦
      done (p, write h p (some (record { key = k; parent = parent; left = left; right = right })))
]

-- `destroy_tree_node`, which is `free`.
unfoldable pub destroy_tree_node : Ptr → M (Unit {0})
destroy_tree_node p = do _ ← load p; λ h. done (tt, write h p none)

pub write_self : (h : Heap) (p : Ptr) (c : Option Node) → write h p c p ≡ c
unfolding write
write_self h p c = rw (==_refl p)

pub write_ne : (h : Heap) (p a : Ptr) (c : Option Node) → a ≢ p → write h p c a ≡ h a
unfolding write
write_ne h p a c ne = rw (ne→== a p ne)

-- A command that ends hands its value and heap on.
pub bind-done :
    {A B : Type 0} (m : M A) (f : A → M B) (h g : Heap) (a : A)
    → m h ≡ done (a, g)
    → (m >>= f) h ≡ f a g
bind-done m f h g a e = rw (e, ◌>>=◌)

pub new_tree_node-ok :
    (fresh : Malloc) (k : ℤ) (left right parent : Ptr) (h : Heap) (p : Ptr)
    → fresh h ≡ some p
    → new_tree_node fresh k left right parent h
      ≡ done (p, write h p (some (record { key = k; parent = parent; left = left; right = right })))
unfolding new_tree_node
new_tree_node-ok fresh k left right parent h p e = rw (e, new_tree_node)

pub load-ok : (h : Heap) (p : Ptr) (n : Node) → p ≢ null → h p ≡ some n → load p h ≡ done (n, h)
unfolding load
load-ok h p n ne e = rw (ne→== p null ne, e)

module _ (h : Heap) (p v : Ptr) (n : Node) (ne : p ≢ null) (e : h p ≡ some n) where
  pub set_left-ok : set_left p v h ≡ done (tt, write h p (some (record n { left = v })))
  unfolding set_left store
  set_left-ok = bind-done (load p) _ h h n (load-ok h p n ne e)

  pub set_right-ok : set_right p v h ≡ done (tt, write h p (some (record n { right = v })))
  unfolding set_right store
  set_right-ok = bind-done (load p) _ h h n (load-ok h p n ne e)

  pub set_parent-ok : set_parent p v h ≡ done (tt, write h p (some (record n { parent = v })))
  unfolding set_parent store
  set_parent-ok = bind-done (load p) _ h h n (load-ok h p n ne e)

pub destroy_tree_node-ok :
    (h : Heap) (p : Ptr) (n : Node)
    → p ≢ null
    → h p ≡ some n
    → destroy_tree_node p h ≡ done (tt, write h p none)
unfolding destroy_tree_node
destroy_tree_node-ok h p n ne e = bind-done (load p) _ h h n (load-ok h p n ne e)
