-- ===== src/Quadr/Runs.antt =====
-- What a piece of straight-line code does to the variables.
use javalette.Prelude.{
  ℕ, ◌<◌, ◌≤◌, false, List, [], ◌∷◌, ◌++◌, Option, none, some, ◌==◌, ◌≡◌, refl, ◌∙◌, ◌>>=◌, Returns,
  Returns-bind, Returns-imp, arith,
}
use javalette.Quadr.{Quadr}
use javalette.Quadr.Machine.{Arith, Store, exec, exec_op, set_val, set_points}

pub above_number : (k x y : ℕ) → k ≤ x → y < k → (x == y) ≡ false
above_number k x y m p = ground arith

module _ {V : Type 0} where
  -- The variables below `k` and the arrays are as they were.
  pub record Keeps (k : ℕ) (s s' : Store V) : Type 0 where
    pub vals : (x : ℕ) → x < k → s'.val x ≡ s.val x
    pub pointers : (x : ℕ) → x < k → s'.points x ≡ s.points x
    pub elems : (a i : ℕ) → s'.elem a i ≡ s.elem a i

  pub Keeps-refl : (k : ℕ) (s : Store V) → Keeps k s s
  Keeps-refl k s = record { vals = λ x p. refl; pointers = λ x p. refl; elems = λ a i. refl }

  pub Keeps-trans :
      (j k : ℕ) (s s1 s2 : Store V) → j ≤ k → Keeps j s s1 → Keeps k s1 s2 → Keeps j s s2
  Keeps-trans j k s s1 s2 m h h1 = record {
    vals = λ x p. h1.vals x (omega (arith, p, m)) ∙ h.vals x p;
    pointers = λ x p. h1.pointers x (omega (arith, p, m)) ∙ h.pointers x p;
    elems = λ a i. h1.elems a i ∙ h.elems a i;
  }

module _ {V : Type 0} ⦃ar : Arith V⦄ where
  then_exec :
      (m : Option (Store V)) (xs ys : List Quadr)
      → ((s : Store V) → exec (xs ++ ys) s ≡ (exec xs s >>= λ s'. exec ys s'))
      → (m >>= λ s'. exec (xs ++ ys) s') ≡ ((m >>= λ s'. exec xs s') >>= λ s'. exec ys s')
  then_exec none xs ys h = refl
  then_exec (some s) xs ys h = h s

  pub exec-append :
      (xs ys : List Quadr) (s : Store V) → exec (xs ++ ys) s ≡ (exec xs s >>= λ s'. exec ys s')
  exec-append [] ys s = refl
  exec-append (x ∷ xs) ys s = then_exec (exec_op x.op x s) xs ys (λ s1. exec-append xs ys s1)

module _ {V : Type 0} ⦃ar : Arith V⦄ where
  -- The code runs from any store, keeps the variables below `k`, and takes a store to one that is
  -- related to it by `Q`.
  abbrev pub Runs : ℕ → List Quadr → (Store V → Store V → Type 0) → Type 0
  Runs k ys Q = (s : Store V) → Returns (λ s'. Keeps k s s' × Q s s') (exec ys s)

  pub Runs-trans :
      (j k : ℕ) (ys zs : List Quadr) (Q R T : Store V → Store V → Type 0)
      → j ≤ k
      → Runs j ys Q
      → Runs k zs R
      → ((s s1 s2 : Store V) → Keeps j s s1 → Q s s1 → Keeps k s1 s2 → R s1 s2 → T s s2)
      → Runs j (ys ++ zs) T
  Runs-trans j k ys zs Q R T m e e1 t = λ s. rw (exec-append ys zs s) (
      Returns-bind (λ s1. Keeps j s s1 × Q s s1) _ _ _ (e s)
        (λ s1 (h, q).
          Returns-imp (λ s2. Keeps k s1 s2 × R s1 s2) _ _
            (λ s2 (h1, q1). (Keeps-trans j k s s1 s2 m h h1, t s s1 s2 h q h1 q1)) (e1 s1)))

  pub Runs-weaken :
      (j k : ℕ) (ys : List Quadr) (Q : Store V → Store V → Type 0)
      → j ≤ k
      → Runs k ys Q
      → Runs j ys Q
  Runs-weaken j k ys Q m e = λ s.
      Returns-imp (λ s'. Keeps k s s' × Q s s') _ _
        (λ s' (h, q). (Keeps-trans j k s s s' m (Keeps-refl j s) h, q)) (e s)

  -- A variable that is not among the kept ones gets a value.
  pub Keeps-set_val : (k x : ℕ) (v : V) (s : Store V) → k ≤ x → Keeps k s (set_val x v s)
  Keeps-set_val k x v s m = record {
    vals = λ y p. rw (above_number k x y m p) refl;
    pointers = λ y p. refl;
    elems = λ a i. refl;
  }

  pub Keeps-set_points : (k x a : ℕ) (s : Store V) → k ≤ x → Keeps k s (set_points x a s)
  Keeps-set_points k x a s m = record {
    vals = λ y p. refl;
    pointers = λ y p. rw (above_number k x y m p) refl;
    elems = λ a i. refl;
  }
