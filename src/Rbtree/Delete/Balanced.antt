-- ===== src/Rbtree/Delete/Balanced.antt =====
-- `rb_delete_fixup`, its fuel, and the colouring rules.
use javalette.Prelude.{
  ℕ, zero, suc, ◌+◌, ◌*◌, ◌≤◌, ◌<◌, ◌≡◌, refl, ◌∙◌, Option, List, [], ◌∷◌, length, arith, Returns,
  Returns-bind, Returns-assert, ◌⊎◌, inl, inr,
}
use javalette.Rbtree.{
  is_black, Color, red, black, Node, nil, node, Frame, from_left, from_right, color, plug, paint,
  frame_color,
}
use javalette.Rbtree.Balance.{IsBalanced, height, Fits, outer, top_color, Allows, weight}
use javalette.Rbtree.Insert.Balanced.{Built, Allows-black, Built-plug}
use javalette.Rbtree.Delete.{delete_branch, restore_left, restore_right, delete_fixup}

Returns-delete_branch {ℓ κ} :
    {A : Type ℓ} (P : A → Type κ) (z wl wr w : Color) (a b c d : Option A)
    → (z ≡ red → Returns P a)
    → (z ≡ black → wl ≡ black → wr ≡ black → w ≡ black → Returns P b)
    → (z ≡ black → wl ≡ black → wr ≡ black → w ≡ red → Returns P c)
    → (z ≡ black → (wl ≡ red) ⊎ (wr ≡ red) → Returns P d)
    → Returns P (delete_branch z wl wr w a b c d)
Returns-delete_branch P red wl wr w a b c d f g h k = f refl
Returns-delete_branch P black black black black a b c d f g h k = g refl refl refl refl
Returns-delete_branch P black black black red a b c d f g h k = h refl refl refl refl
Returns-delete_branch P black red wr w a b c d f g h k = k refl (inl refl)
Returns-delete_branch P black black red w a b c d f g h k = k refl (inr refl)

module _ {ℓ} {K : Type ℓ} where
  -- The rounds that are left: a turn below a black parent adds a red one.
  abbrev pub rounds : Color → List (Frame K) → ℕ
  rounds red fs = 0
  rounds black [] = 0
  rounds black (f ∷ fs) = length fs * 3 + 3 + weight (frame_color f) * 4

  -- A subtree of black height `h` that may hang below any parent of the colour `c`.
  abbrev pub Restored : ℕ → Color → Node K → Type 0
  Restored h c t = IsBalanced t × (height t ≡ h) × (color t ≡ c)

  restore_left-Restored :
      (h : ℕ) (c : Color) (z : Node K) (k : K) (wc : Color) (wl : Node K) (wk : K) (wr : Node K)
      → IsBalanced z
      → height z + 1 ≡ h
      → IsBalanced (node wc wl wk wr)
      → height (node wc wl wk wr) ≡ h
      → Allows c wc
      → color z ≡ black
      → (color wl ≡ red) ⊎ (color wr ≡ red)
      → Returns (Restored (h + weight c) c) (restore_left c z k wc wl wk wr)
  unfolding restore_left
  restore_left-Restored h c z k red wl wk wr b e wb we a zb n = ground arith
  restore_left-Restored h c z k black wl wk (node red wrl wrk wrr) b e wb we a zb n = ground arith
  restore_left-Restored h c z k black (node lc ll lk lr) wk nil b e wb we a zb n = ground arith
  restore_left-Restored h c z k black nil wk nil b e wb we a zb n = ground arith
  restore_left-Restored h c z k black nil wk (node black wrl wrk wrr) b e wb we a zb n =
      ground arith
  restore_left-Restored h c z k black (node lc ll lk lr) wk (node black wrl wrk wrr) b e wb we a zb
        n =
      ground arith

  restore_right-Restored :
      (h : ℕ) (c wc : Color) (wl : Node K) (wk : K) (wr : Node K) (k : K) (z : Node K)
      → IsBalanced z
      → height z + 1 ≡ h
      → IsBalanced (node wc wl wk wr)
      → height (node wc wl wk wr) ≡ h
      → Allows c wc
      → color z ≡ black
      → (color wl ≡ red) ⊎ (color wr ≡ red)
      → Returns (Restored (h + weight c) c) (restore_right c wc wl wk wr k z)
  unfolding restore_right
  restore_right-Restored h c red wl wk wr k z b e wb we a zb n = ground arith
  restore_right-Restored h c black (node red ll lk lr) wk wr k z b e wb we a zb n = ground arith
  restore_right-Restored h c black nil wk (node rc rl rk rr) k z b e wb we a zb n = ground arith
  restore_right-Restored h c black nil wk nil k z b e wb we a zb n = ground arith
  restore_right-Restored h c black (node black ll lk lr) wk nil k z b e wb we a zb n = ground arith
  restore_right-Restored h c black (node black ll lk lr) wk (node rc rl rk rr) k z b e wb we a zb
        n =
      ground arith

  paint_black : (z : Node K) → color z ≡ black → paint black z ≡ z
  paint_black nil e = refl
  paint_black (node c l k r) e = rw e

  -- A red node takes the extra black.
  fill_red :
      (bh h : ℕ) (z : Node K) (fs : List (Frame K))
      → IsBalanced (paint black z)
      → height z + 1 ≡ h
      → Fits h fs
      → bh ≡ outer h fs
      → color z ≡ red
      → Built (plug (paint black z) fs, bh)
  fill_red bh h nil fs b e f o r = cc
  fill_red bh h (node c l k x) fs b e f o r =
      Built-plug bh h (node black l k x) fs b (ground arith) f (Allows-black (top_color fs)) o

  rise_left :
      (h : ℕ) (c : Color) (z : Node K) (k : K) (wc : Color) (wl : Node K) (wk : K) (wr : Node K)
      (rest : List (Frame K))
      → IsBalanced z
      → height z + 1 ≡ h
      → Fits h (from_left c k (node wc wl wk wr) ∷ rest)
      → color z ≡ black
      → color wl ≡ black
      → color wr ≡ black
      → wc ≡ black
      → IsBalanced (paint black (node c z k (node red wl wk wr)))
        × (height (node c z k (node red wl wk wr)) + 1 ≡ h + weight c)
  rise_left h c z k wc wl wk wr rest b e f zb lb rb wb = ground arith

  turn_left :
      (h : ℕ) (c : Color) (z : Node K) (k : K) (wc : Color) (wl : Node K) (wk : K) (wr : Node K)
      (rest : List (Frame K))
      → Fits h (from_left c k (node wc wl wk wr) ∷ rest)
      → wc ≡ red
      → Fits h (from_left red k wl ∷ from_left black wk wr ∷ rest)
        × (outer h (from_left c k (node wc wl wk wr) ∷ rest)
            ≡ outer h (from_left red k wl ∷ from_left black wk wr ∷ rest))
        × (c ≡ black)
  turn_left h red z k wc wl wk wr rest f wr' = absurd (cc f.2)
  turn_left h black z k wc wl wk wr rest f wr' = ground arith

  rise_right :
      (h : ℕ) (c wc : Color) (wl : Node K) (wk : K) (wr : Node K) (k : K) (z : Node K)
      (rest : List (Frame K))
      → IsBalanced z
      → height z + 1 ≡ h
      → Fits h (from_right c (node wc wl wk wr) k ∷ rest)
      → color z ≡ black
      → color wl ≡ black
      → color wr ≡ black
      → wc ≡ black
      → IsBalanced (paint black (node c (node red wl wk wr) k z))
        × (height (node c (node red wl wk wr) k z) + 1 ≡ h + weight c)
  rise_right h c wc wl wk wr k z rest b e f zb lb rb wb = ground arith

  turn_right :
      (h : ℕ) (c wc : Color) (wl : Node K) (wk : K) (wr : Node K) (k : K) (z : Node K)
      (rest : List (Frame K))
      → Fits h (from_right c (node wc wl wk wr) k ∷ rest)
      → wc ≡ red
      → Fits h (from_right red wr k ∷ from_right black wl wk ∷ rest)
        × (outer h (from_right c (node wc wl wk wr) k ∷ rest)
            ≡ outer h (from_right red wr k ∷ from_right black wl wk ∷ rest))
        × (c ≡ black)
  turn_right h red wc wl wk wr k z rest f wr' = absurd (cc f.2)
  turn_right h black wc wl wk wr k z rest f wr' = ground arith

  rounds-le : (c : Color) (fs : List (Frame K)) → rounds c fs ≤ length fs * 3 + weight c * 4
  rounds-le red fs = omega arith
  rounds-le black [] = omega arith
  rounds-le black (from_left red k r ∷ fs) = omega arith
  rounds-le black (from_left black k r ∷ fs) = omega arith
  rounds-le black (from_right red l k ∷ fs) = omega arith
  rounds-le black (from_right black l k ∷ fs) = omega arith

  turn_rounds :
      (c : Color) (fuel : ℕ) (rest : List (Frame K))
      → c ≡ black
      → length rest * 3 + 3 + weight c * 4 < suc fuel
      → suc (length rest) * 3 + 3 + 0 * 4 < fuel
  turn_rounds red fuel rest e m = cc
  turn_rounds black fuel rest e m = omega arith

  pub delete_fixup-Built :
      (fuel bh h : ℕ) (z : Node K) (fs : List (Frame K))
      → rounds (color z) fs < fuel
      → IsBalanced (paint black z)
      → height z + 1 ≡ h
      → Fits h fs
      → bh ≡ outer h fs
      → Returns Built (delete_fixup fuel bh z fs)
  unfolding delete_fixup
  delete_fixup-Built zero bh h z fs m b e f o = elim m [ ]
  delete_fixup-Built (suc fuel) bh h nil [] m b e f o = ground arith
  delete_fixup-Built (suc fuel) bh h (node red l k x) [] m b e f o = ground arith
  delete_fixup-Built (suc fuel) bh h (node black l k x) [] m b e f o = ground arith
  delete_fixup-Built (suc fuel) bh h z (from_left c k nil ∷ rest) m b e f o = absurd (omega arith)
  delete_fixup-Built (suc fuel) bh h z (from_right c nil k ∷ rest) m b e f o = absurd (omega arith)
  delete_fixup-Built (suc fuel) bh h z (from_left c k (node wc wl wk wr) ∷ rest) m b e f o =
      Returns-delete_branch Built (color z) (color wl) (color wr) wc _ _ _ _
        (λ zr. fill_red bh h z (from_left c k (node wc wl wk wr) ∷ rest) b e f o zr)
        (λ zb lb rb wb.
          let up =
            rise_left h c z k wc wl wk wr rest (rw (paint_black z zb) at b) e f zb lb rb wb in
          delete_fixup-Built fuel bh (h + weight c) (node c z k (node red wl wk wr)) rest
            (omega (arith, rounds-le c rest, rw zb at m)) up.0 up.1 f.4 o)
        (λ zb lb rb red_w.
          let turned = turn_left h c z k wc wl wk wr rest f red_w in
          Returns-assert Built (is_black c) _ (rw turned.2) (
            delete_fixup-Built fuel bh h z (from_left red k wl ∷ from_left black wk wr ∷ rest)
              (rw zb (turn_rounds c fuel rest turned.2 (rw zb at m))) b e turned.0 (o ∙ turned.1)))
        (λ zb n.
          Returns-bind (Restored (h + weight c) c) Built _ _
            (restore_left-Restored h c z k wc wl wk wr (rw (paint_black z zb) at b) e f.0 f.1 f.2 zb
              n)
            (λ t (tb, th, tc). Built-plug bh (h + weight c) t rest tb th f.4 (rw tc f.3) o))
  delete_fixup-Built (suc fuel) bh h z (from_right c (node wc wl wk wr) k ∷ rest) m b e f o =
      Returns-delete_branch Built (color z) (color wl) (color wr) wc _ _ _ _
        (λ zr. fill_red bh h z (from_right c (node wc wl wk wr) k ∷ rest) b e f o zr)
        (λ zb lb rb wb.
          let up =
            rise_right h c wc wl wk wr k z rest (rw (paint_black z zb) at b) e f zb lb rb wb in
          delete_fixup-Built fuel bh (h + weight c) (node c (node red wl wk wr) k z) rest
            (omega (arith, rounds-le c rest, rw zb at m)) up.0 up.1 f.4 o)
        (λ zb lb rb red_w.
          let turned = turn_right h c wc wl wk wr k z rest f red_w in
          Returns-assert Built (is_black c) _ (rw turned.2) (
            delete_fixup-Built fuel bh h z (from_right red wr k ∷ from_right black wl wk ∷ rest)
              (rw zb (turn_rounds c fuel rest turned.2 (rw zb at m))) b e turned.0 (o ∙ turned.1)))
        (λ zb n.
          Returns-bind (Restored (h + weight c) c) Built _ _
            (restore_right-Restored h c wc wl wk wr k z (rw (paint_black z zb) at b) e f.0 f.1 f.2
              zb n)
            (λ t (tb, th, tc). Built-plug bh (h + weight c) t rest tb th f.4 (rw tc f.3) o))
