-- ===== src/Tree/Avl/Rotations.antt =====
-- Rotations of the AVL tree: they keep the keys in order, and restore the balance.
use mathlib.Core.List.{append_assoc}
use foo.Prelude.{ℕ, ◌+◌, max, ◌≤◌, ◌<◌, ◌≡◌, refl, List, [], ◌∷◌, ◌++◌, arith, false}
use foo.Tree.Avl.{
  Node, nil, node, get_height, is_null, join, left_left_rotation, right_right_rotation,
  left_right_rotation, right_left_rotation,
}

module _ {K : Type 0} where
  -- The keys in ascending order of place.
  abbrev pub keys : Node K → List K
  keys nil = []
  keys (node l k h r) = keys l ++ (k ∷ keys r)

  -- The stored heights are right, and those of two siblings differ by at most one.
  abbrev pub IsAvl : Node K → Type 0
  IsAvl nil = Unit {0}
  IsAvl (node l k h r) =
      (h ≡ max (get_height l) (get_height r) + 1)
      × (get_height l ≤ get_height r + 1)
      × (get_height r ≤ get_height l + 1)
      × IsAvl l
      × IsAvl r

  pub positive_height : (t : Node K) → IsAvl t → 0 < get_height t → is_null t ≡ false
  positive_height nil v h = absurd (omega arith)
  positive_height (node l k h r) v p = refl

  pub join-IsAvl :
      (l : Node K) (k : K) (r : Node K)
      → IsAvl l
      → IsAvl r
      → get_height l ≤ get_height r + 1
      → get_height r ≤ get_height l + 1
      → IsAvl (join l k r)
  unfolding join
  join-IsAvl l k r p q u v = (refl, u, v, p, q)

  -- The result of a rotation: balanced, of a given height, with the same keys.
  pub record Rotated (t : Node K) (height : ℕ) (ks : List K) : Type 0 where
    pub avl : IsAvl t
    pub tall : get_height t ≡ height
    pub same : keys t ≡ ks

  pub left_left-Rotated :
      (a : Node K) (j : K) (i : ℕ) (b : Node K) (k : K) (h : ℕ) (r : Node K)
      → IsAvl a
      → IsAvl b
      → IsAvl r
      → get_height a ≡ get_height r + 1
      → get_height r ≤ get_height b
      → get_height b ≤ get_height r + 1
      → Rotated
          (left_left_rotation (node (node a j i b) k h r))
          (get_height b + 2)
          ((keys a ++ (j ∷ keys b)) ++ (k ∷ keys r))
  unfolding left_left_rotation
  left_left-Rotated a j i b k h r va vb vr p q s = record {
    avl = (refl, omega arith, omega arith, va, (refl, omega arith, omega arith, vb, vr));
    tall = omega arith;
    same = simp append_assoc;
  }

  pub right_right-Rotated :
      (l : Node K) (k : K) (h : ℕ) (a : Node K) (j : K) (i : ℕ) (b : Node K)
      → IsAvl l
      → IsAvl a
      → IsAvl b
      → get_height b ≡ get_height l + 1
      → get_height l ≤ get_height a
      → get_height a ≤ get_height l + 1
      → Rotated
          (right_right_rotation (node l k h (node a j i b)))
          (get_height a + 2)
          (keys l ++ (k ∷ (keys a ++ (j ∷ keys b))))
  unfolding right_right_rotation
  right_right-Rotated l k h a j i b vl va vb p q s = record {
    avl = (refl, omega arith, omega arith, (refl, omega arith, omega arith, vl, va), vb);
    tall = omega arith;
    same = simp append_assoc;
  }

  pub left_right-Rotated :
      (a : Node K) (j : K) (i : ℕ) (b : Node K) (k : K) (h : ℕ) (r : Node K)
      → IsAvl a
      → IsAvl b
      → IsAvl r
      → get_height b ≡ get_height r + 1
      → get_height a ≡ get_height r
      → Rotated
          (left_right_rotation (node (node a j i b) k h r))
          (get_height r + 2)
          ((keys a ++ (j ∷ keys b)) ++ (k ∷ keys r))
  unfolding left_right_rotation
  left_right-Rotated a j i nil k h r va vb vr p q = absurd (omega arith)
  left_right-Rotated a j i (node c m n d) k h r va vb vr p q = record {
    avl = (
      omega arith,
      omega arith,
      omega arith,
      (refl, omega arith, omega arith, va, vb.3),
      (refl, omega arith, omega arith, vb.4, vr),
    );
    tall = omega arith;
    same = simp append_assoc;
  }

  pub right_left-Rotated :
      (l : Node K) (k : K) (h : ℕ) (a : Node K) (j : K) (i : ℕ) (b : Node K)
      → IsAvl l
      → IsAvl a
      → IsAvl b
      → get_height a ≡ get_height l + 1
      → get_height b ≡ get_height l
      → Rotated
          (right_left_rotation (node l k h (node a j i b)))
          (get_height l + 2)
          (keys l ++ (k ∷ (keys a ++ (j ∷ keys b))))
  unfolding right_left_rotation
  right_left-Rotated l k h nil j i b vl va vb p q = absurd (omega arith)
  right_left-Rotated l k h (node c m n d) j i b vl va vb p q = record {
    avl = (
      omega arith,
      omega arith,
      omega arith,
      (refl, omega arith, omega arith, vl, va.3),
      (refl, omega arith, omega arith, va.4, vb),
    );
    tall = omega arith;
    same = simp append_assoc;
  }
