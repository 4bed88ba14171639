-- ===== src/Ring/Queue.antt =====
-- A ring with a pointer to its oldest node holds a queue of nodes.
use yinyang_os.Base.{
  ℕ, ◌≡◌, refl, true, false, List, [], ◌∷◌, ◌++◌, Option, none, some, arith, has, Distinct,
  Distinct-append_iff, has-append, append-nil,
}
use yinyang_os.Ring.{Links, unlink, enqueue, dequeue}
use yinyang_os.Ring.Linked.{
  Linked, prev-mem, frame, link_before-Linked, unlink-Linked, Linked-append, next-mem,
}

abbrev pub IsQueue : Links → Option ℕ → List ℕ → Type 0
IsQueue l none [] = Unit
IsQueue l none (x ∷ xs) = ⊥
IsQueue l (some h) [] = ⊥
IsQueue l (some h) (x ∷ xs) = (h ≡ x) × Linked l x xs x

-- The links agree at every node of a list.
abbrev pub SameAt : List ℕ → Links → Links → Type 0
SameAt xs l m = (b : ℕ) → has b xs ≡ true → (m.next b ≡ l.next b) × (m.prev b ≡ l.prev b)

-- The links agree at every node outside a list.
abbrev pub SameOutside : List ℕ → Links → Links → Type 0
SameOutside xs l m = (b : ℕ) → has b xs ≡ false → (m.next b ≡ l.next b) × (m.prev b ≡ l.prev b)

pub IsQueue-frame :
    (l m : Links) (o : Option ℕ) (xs : List ℕ) → SameAt xs l m → IsQueue l o xs → IsQueue m o xs
IsQueue-frame l m none [] same q = tt
IsQueue-frame l m none (x ∷ xs) same q = elim q [ ]
IsQueue-frame l m (some h) [] same q = elim q [ ]
IsQueue-frame l m (some h) (x ∷ xs) same q =
    (q.0, frame l m x xs x (λ b i. (same b i).0) (λ b i. (same b i).1) q.1)

pub enqueue-IsQueue :
    (l : Links) (o : Option ℕ) (xs : List ℕ) (n : ℕ)
    → IsQueue l o xs
    → Distinct xs
    → has n xs ≡ false
    → IsQueue (enqueue l o n).0 (enqueue l o n).1 (xs ++ n ∷ [])
unfolding enqueue
enqueue-IsQueue l none [] n q d fresh = ground arith
enqueue-IsQueue l none (x ∷ xs) n q d fresh = elim q [ ]
enqueue-IsQueue l (some h) [] n q d fresh = elim q [ ]
enqueue-IsQueue l (some h) (x ∷ xs) n q d fresh =
    (q.0, rw q.0 (link_before-Linked l x n x xs q.1 d d.0 fresh (ground arith)))

pub enqueue-SameOutside :
    (l : Links) (o : Option ℕ) (xs : List ℕ) (n : ℕ)
    → IsQueue l o xs
    → SameOutside (n ∷ xs) l (enqueue l o n).0
unfolding enqueue
enqueue-SameOutside l none xs n q b out = ground arith
enqueue-SameOutside l (some h) [] n q b out = elim q [ ]
enqueue-SameOutside l (some h) (x ∷ xs) n q b out = ground (arith, prev-mem l x xs x q.1)

-- With two nodes or more the second becomes the head.
pub dequeue_next :
    (l : Links) (x y : ℕ) (ys : List ℕ)
    → IsQueue l (some x) (x ∷ y ∷ ys)
    → Distinct (x ∷ y ∷ ys)
    → dequeue l x ≡ (unlink l x, some y)
unfolding dequeue
dequeue_next l x y ys q d = ground (arith, prev-mem l y ys x q.1.2)

pub dequeue-IsQueue :
    (l : Links) (x : ℕ) (xs : List ℕ)
    → IsQueue l (some x) (x ∷ xs)
    → Distinct (x ∷ xs)
    → IsQueue (dequeue l x).0 (dequeue l x).1 xs
unfolding dequeue
dequeue-IsQueue l x [] q d = ground arith
dequeue-IsQueue l x (y ∷ ys) q d = rw (dequeue_next l x y ys q d) (
  refl,
  rw (← append-nil ys) (
      unlink-Linked l x y y ys [] q.1.2 (q.1.0, q.1.1) d.1 tt d.0 (ground arith) refl (ground arith)
        (λ b i. refl)),
)

pub dequeue-SameOutside :
    (l : Links) (x : ℕ) (xs : List ℕ)
    → IsQueue l (some x) (x ∷ xs)
    → SameOutside (x ∷ xs) l (dequeue l x).0
unfolding dequeue
dequeue-SameOutside l x [] q b out = ground arith
dequeue-SameOutside l x (y ∷ ys) q b out = ground (arith, prev-mem l x (y ∷ ys) x q.1)

-- Unlinking a node other than the oldest.
pub unlink-IsQueue :
    (l : Links) (x p : ℕ) (xs ys : List ℕ)
    → IsQueue l (some x) (x ∷ xs ++ p ∷ ys)
    → Distinct (x ∷ xs ++ p ∷ ys)
    → IsQueue (unlink l p) (some x) (x ∷ xs ++ ys)
unlink-IsQueue l x p xs ys q d =
    let (front, back) = Linked-append l x p x xs ys q.1 in
    let (fd, bd, apart) = Distinct-append_iff (x ∷ xs) (p ∷ ys) d in
    (
      refl,
      unlink-Linked l p x x xs ys front back fd bd.1 (ground (arith, apart p))
          (ground (arith, apart x)) (ground (arith, apart x))
          (ground (arith, next-mem l p x ys back, apart (l.next p)))
          (λ b i. ground (arith, apart b)),
    )

pub unlink-SameOutside :
    (l : Links) (x p : ℕ) (xs ys : List ℕ)
    → IsQueue l (some x) (x ∷ xs ++ p ∷ ys)
    → SameOutside (x ∷ xs ++ p ∷ ys) l (unlink l p)
unfolding unlink
unlink-SameOutside l x p xs ys q b out =
    let (front, back) = Linked-append l x p x xs ys q.1 in
    ground (arith, prev-mem l x xs p front, next-mem l p x ys back, has-append b xs (p ∷ ys))
