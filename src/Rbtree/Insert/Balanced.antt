-- ===== src/Rbtree/Insert/Balanced.antt =====
-- `rb_insert_fixup` and the colouring rules.
use javalette.Prelude.{
  ℕ, ◌+◌, ◌≡◌, List, ◌∷◌, arith, Returns, [], Option, Returns-bind, refl, ◌∙◌, assert, not, ◌>>◌,
}
use javalette.Rbtree.{
  Color, red, black, Node, nil, node, Frame, from_left, from_right, color, frame_color, plug, paint,
  close, is_black,
}
use javalette.Rbtree.Balance.{IsBalanced, height, Fits, Allows, outer, top_color, plug-IsBalanced}
use javalette.Rbtree.Insert.{settle_left, insert_fixup, settle_right, branch, loop_asserts}

Returns-branch {ℓ} :
    {A : Type ℓ} (P : A → Type 0) (pc uc : Color) (a b c : Option A)
    → (pc ≡ black → Returns P a)
    → (pc ≡ red → uc ≡ red → Returns P b)
    → (pc ≡ red → uc ≡ black → Returns P c)
    → Returns P (branch pc uc a b c)
Returns-branch P black uc a b c f g h = f refl
Returns-branch P red red a b c f g h = g refl refl
Returns-branch P red black a b c f g h = h refl refl

pub Allows-black : (c : Color) → Allows c black
Allows-black red = refl
Allows-black black = tt

module _ {ℓ} {K : Type ℓ} where
  abbrev Settled : ℕ → Node K → Type 0
  Settled h t = IsBalanced t × (height t ≡ h + 1) × (color t ≡ black)

  settle_left-Settled :
      (h : ℕ) (z : Node K) (p : Frame K) (c : Color) (k : K) (u : Node K) (rest : List (Frame K))
      → IsBalanced z
      → color z ≡ red
      → height z ≡ h
      → frame_color p ≡ red
      → Fits h (p ∷ from_left c k u ∷ rest)
      → color u ≡ black
      → Returns (Settled h) (settle_left z p c k u)
  unfolding settle_left
  settle_left-Settled h nil p c k u rest b r e pr f ub = cc
  settle_left-Settled h (node zc zl zk zr) (from_left pc pk pr) c k u rest b r e pe f ub =
      ground arith
  settle_left-Settled h (node zc zl zk zr) (from_right pc pl pk) c k u rest b r e pe f ub =
      ground arith

  settle_right-Settled :
      (h : ℕ) (z : Node K) (p : Frame K) (c : Color) (u : Node K) (k : K) (rest : List (Frame K))
      → IsBalanced z
      → color z ≡ red
      → height z ≡ h
      → frame_color p ≡ red
      → Fits h (p ∷ from_right c u k ∷ rest)
      → color u ≡ black
      → Returns (Settled h) (settle_right z p c u k)
  unfolding settle_right
  settle_right-Settled h nil p c u k rest b r e pr f ub = cc
  settle_right-Settled h (node zc zl zk zr) (from_left pc pk pr) c u k rest b r e pe f ub =
      ground arith
  settle_right-Settled h (node zc zl zk zr) (from_right pc pl pk) c u k rest b r e pe f ub =
      ground arith

  -- A root with its black height.
  abbrev pub Built : Node K × ℕ → Type 0
  Built (root, bh) = IsBalanced root × (color root ≡ black) × (bh ≡ height root)

  pub Built-plug :
      (bh h : ℕ) (z : Node K) (fs : List (Frame K))
      → IsBalanced z
      → height z ≡ h
      → Fits h fs
      → Allows (top_color fs) (color z)
      → bh ≡ outer h fs
      → Built (plug z fs, bh)
  Built-plug bh h z fs b e f a o =
      let q = plug-IsBalanced h z fs b e f a in (q.0, q.2, ground arith)

  -- The red uncle's case: the node that the loop goes on with.
  rise_left :
      (h : ℕ) (z : Node K) (p : Frame K) (c : Color) (k : K) (u : Node K) (rest : List (Frame K))
      → IsBalanced z
      → color z ≡ red
      → height z ≡ h
      → frame_color p ≡ red
      → Fits h (p ∷ from_left c k u ∷ rest)
      → color u ≡ red
      → let z' = node red (paint black (close z p)) k (paint black u) in
        IsBalanced z' × (height z' ≡ h + 1)
  rise_left h z (from_left pc pk pr) c k u rest b r e pe f ue = ground arith
  rise_left h z (from_right pc pl pk) c k u rest b r e pe f ue = ground arith

  rise_right :
      (h : ℕ) (z : Node K) (p : Frame K) (c : Color) (u : Node K) (k : K) (rest : List (Frame K))
      → IsBalanced z
      → color z ≡ red
      → height z ≡ h
      → frame_color p ≡ red
      → Fits h (p ∷ from_right c u k ∷ rest)
      → color u ≡ red
      → let z' = node red (paint black u) k (paint black (close z p)) in
        IsBalanced z' × (height z' ≡ h + 1)
  rise_right h z (from_left pc pk pr) c u k rest b r e pe f ue = ground arith
  rise_right h z (from_right pc pl pk) c u k rest b r e pe f ue = ground arith

  Fits-above :
      (h : ℕ) (p pp : Frame K) (rest : List (Frame K))
      → frame_color p ≡ red
      → Fits h (p ∷ pp ∷ rest)
      → Fits (h + 1) rest × (outer h (p ∷ pp ∷ rest) ≡ outer (h + 1) rest)
  Fits-above h (from_left pc pk pr) (from_left c k u) rest r f = ground arith
  Fits-above h (from_left pc pk pr) (from_right c u k) rest r f = ground arith
  Fits-above h (from_right pc pl pk) (from_left c k u) rest r f = ground arith
  Fits-above h (from_right pc pl pk) (from_right c u k) rest r f = ground arith

  Fits-black :
      (h : ℕ) (p pp : Frame K) (rest : List (Frame K))
      → frame_color p ≡ red
      → Fits h (p ∷ pp ∷ rest)
      → frame_color pp ≡ black
  Fits-black h (from_left pc pk pr) (from_left c k u) rest r f = ground arith
  Fits-black h (from_left pc pk pr) (from_right c u k) rest r f = ground arith
  Fits-black h (from_right pc pl pk) (from_left c k u) rest r f = ground arith
  Fits-black h (from_right pc pl pk) (from_right c u k) rest r f = ground arith

  -- The assertions on the colours hold.
  Returns-loop_asserts :
      (z : Node K) (c : Color) (m : Option (Node K × ℕ))
      → color z ≡ red
      → c ≡ black
      → Returns Built m
      → Returns Built (loop_asserts z c m)
  Returns-loop_asserts z c m r e h = rw (r, e) h

  Returns-red :
      (z : Node K) (m : Option (Node K × ℕ))
      → color z ≡ red
      → Returns Built m
      → Returns Built (assert (not (is_black (color z))) >> m)
  Returns-red z m r h = rw (r) h

  -- A red node is put where a tree of its black height fits.
  pub insert_fixup-Built :
      (bh h : ℕ) (z : Node K) (fs : List (Frame K))
      → IsBalanced z
      → color z ≡ red
      → height z ≡ h
      → Fits h fs
      → bh ≡ outer h fs
      → Returns Built (insert_fixup bh z fs)
  unfolding insert_fixup
  insert_fixup-Built bh h nil [] b r e f o = cc
  insert_fixup-Built bh h (node c l k x) [] b r e f o = ground arith
  insert_fixup-Built bh h z (from_left c k x ∷ []) b r e f o = ground arith
  insert_fixup-Built bh h z (from_right c x k ∷ []) b r e f o = ground arith
  insert_fixup-Built bh h z (p ∷ from_left c k u ∷ rest) b r e f o =
      Returns-branch Built (frame_color p) (color u) _ _ _
        (λ pb.
          Returns-red z _ r (Built-plug bh h z (p ∷ from_left c k u ∷ rest) b e f (rw pb tt) o))
        (λ pr ur.
          let (fr, re) = Fits-above h p (from_left c k u) rest pr f in
          let g = rise_left h z p c k u rest b r e pr f ur in
          Returns-loop_asserts z c _ r (Fits-black h p (from_left c k u) rest pr f) (
            insert_fixup-Built bh (h + 1) (node red (paint black (close z p)) k (paint black u))
              rest g.0 refl g.1 fr (o ∙ re)))
        (λ pr ub.
          let (fr, re) = Fits-above h p (from_left c k u) rest pr f in
          Returns-loop_asserts z c _ r (Fits-black h p (from_left c k u) rest pr f) (
            Returns-bind (Settled h) Built _ _ (settle_left-Settled h z p c k u rest b r e pr f ub)
              (λ t (tb, th, tc).
                Built-plug bh (h + 1) t rest tb th fr (rw tc (Allows-black (top_color rest)))
                  (o ∙ re))))
  insert_fixup-Built bh h z (p ∷ from_right c u k ∷ rest) b r e f o =
      Returns-branch Built (frame_color p) (color u) _ _ _
        (λ pb.
          Returns-red z _ r (Built-plug bh h z (p ∷ from_right c u k ∷ rest) b e f (rw pb tt) o))
        (λ pr ur.
          let (fr, re) = Fits-above h p (from_right c u k) rest pr f in
          let g = rise_right h z p c u k rest b r e pr f ur in
          Returns-loop_asserts z c _ r (Fits-black h p (from_right c u k) rest pr f) (
            insert_fixup-Built bh (h + 1) (node red (paint black u) k (paint black (close z p)))
              rest g.0 refl g.1 fr (o ∙ re)))
        (λ pr ub.
          let (fr, re) = Fits-above h p (from_right c u k) rest pr f in
          Returns-loop_asserts z c _ r (Fits-black h p (from_right c u k) rest pr f) (
            Returns-bind (Settled h) Built _ _ (settle_right-Settled h z p c u k rest b r e pr f ub)
              (λ t (tb, th, tc).
                Built-plug bh (h + 1) t rest tb th fr (rw tc (Allows-black (top_color rest)))
                  (o ∙ re))))
