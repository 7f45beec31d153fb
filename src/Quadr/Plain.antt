-- ===== src/Quadr/Plain.antt =====
-- Expressions without calls, strings, boolean operators and negated `int`s, whose variables are
-- declared.
use javalette.Prelude.{
  ℕ, ◌<◌, ◌≤◌, true, Option, none, some, ◌≡◌, refl, sym, ap, subst, arith, Never, ◌>>=◌,
}
use javalette.Types.{Ty, int, double, boolean, array}
use javalette.Tree.Exprs.{BinaryOp, op_add, op_sub, op_mul, op_div, op_mod, op_neg, op_not, op_plus}
use javalette.Quadr.Blocks.{Var}
use javalette.Quadr.Emit.{is_array_var}
use javalette.Quadr.Typed.{
  Typed, binary, unary, int_node, bool_node, double_node, str_node, ident_node, array_node,
  call_node,
}
use javalette.Quadr.Machine.{Arith, Store, eval}
use javalette.Quadr.Runs.{Keeps}

abbrev pub IsNumber : Ty → Type 0
IsNumber int = Unit
IsNumber double = Unit
IsNumber _ = Never

abbrev pub IsInt : Ty → Type 0
IsInt int = Unit
IsInt _ = Never

abbrev pub IsDouble : Ty → Type 0
IsDouble double = Unit
IsDouble _ = Never

abbrev pub IsScalar : Ty → Type 0
IsScalar int = Unit
IsScalar double = Unit
IsScalar boolean = Unit
IsScalar _ = Never

abbrev pub IsArrayTy : Ty → Type 0
IsArrayTy (array a e n) = IsScalar e
IsArrayTy _ = Never

abbrev pub IsArrayVar : Option Var → Type 0
IsArrayVar none = Never
IsArrayVar (some v) = IsArrayTy v.ty × (is_array_var v.qtype ≡ true)

abbrev pub IsArith : BinaryOp → Type 0
IsArith op_add = Unit
IsArith op_sub = Unit
IsArith op_mul = Unit
IsArith op_div = Unit
IsArith op_mod = Unit
IsArith _ = Never

abbrev pub Plain : ℕ → (ℕ → Option Var) → Typed → Type 0
Plain k vars (binary op type l r) = IsArith op × IsNumber type × Plain k vars l × Plain k vars r
Plain k vars (unary op_neg type e) = IsDouble type × Plain k vars e
Plain k vars (unary op_plus type e) = IsNumber type × Plain k vars e
Plain k vars (int_node type n) = IsInt type
Plain k vars (double_node type d) = IsDouble type
Plain k vars (ident_node type x) = x < k
Plain k vars (array_node type x index) = (x < k) × IsArrayVar (vars x) × Plain k vars index
Plain k vars _ = Never

pub Plain-later :
    (j k : ℕ) (f g : ℕ → Option Var) (e : Typed)
    → j ≤ k
    → ((x : ℕ) → x < j → g x ≡ f x)
    → Plain j f e
    → Plain k g e
Plain-later j k f g (binary op type l r) m h p =
    (p.0, p.1, Plain-later j k f g l m h p.2, Plain-later j k f g r m h p.3)
Plain-later j k f g (unary op_neg type e) m h p = (p.0, Plain-later j k f g e m h p.1)
Plain-later j k f g (unary op_plus type e) m h p = (p.0, Plain-later j k f g e m h p.1)
Plain-later j k f g (unary op_not type e) m h p = elim p [ ]
Plain-later j k f g (int_node type n) m h p = p
Plain-later j k f g (double_node type d) m h p = p
Plain-later j k f g (ident_node type x) m h p = omega (arith, m, p)
Plain-later j k f g (array_node type x index) m h p =
    (omega (arith, m, p.0), subst IsArrayVar (sym (h x p.0)) p.1, Plain-later j k f g index m h p.2)
Plain-later j k f g (bool_node type n) m h p = elim p [ ]
Plain-later j k f g (str_node type n) m h p = elim p [ ]
Plain-later j k f g (call_node type n es) m h p = elim p [ ]

module _ {V : Type 0} ⦃ar : Arith V⦄ where
  same_element :
      (x : ℕ) (s s' : Store V) (m : Option V)
      → ((a i : ℕ) → s'.elem a i ≡ s.elem a i)
      → (m >>= λ v. some (s'.elem x (ar.index v))) ≡ (m >>= λ v. some (s.elem x (ar.index v)))
  same_element x s s' none h = refl
  same_element x s s' (some v) h = ap some (h x (ar.index v))

  -- The value of an expression is that of its variables and elements.
  pub eval-Keeps :
      (k : ℕ) (vars : ℕ → Option Var) (e : Typed) (s s' : Store V)
      → Plain k vars e
      → Keeps k s s'
      → eval e s' ≡ eval e s
  eval-Keeps k vars (binary op type l r) s s' p h =
      rw (eval-Keeps k vars l s s' p.2 h, eval-Keeps k vars r s s' p.3 h) refl
  eval-Keeps k vars (unary op_neg type e) s s' p h = rw (eval-Keeps k vars e s s' p.1 h) refl
  eval-Keeps k vars (unary op_plus type e) s s' p h = eval-Keeps k vars e s s' p.1 h
  eval-Keeps k vars (unary op_not type e) s s' p h = elim p [ ]
  eval-Keeps k vars (int_node type n) s s' p h = refl
  eval-Keeps k vars (double_node type d) s s' p h = refl
  eval-Keeps k vars (ident_node type x) s s' p h = ap some (h.vals x p)
  eval-Keeps k vars (array_node type x index) s s' p h =
      rw (eval-Keeps k vars index s s' p.2 h) (same_element x s s' (eval index s) h.elems)
  eval-Keeps k vars (bool_node type n) s s' p h = elim p [ ]
  eval-Keeps k vars (str_node type n) s s' p h = elim p [ ]
  eval-Keeps k vars (call_node type n es) s s' p h = elim p [ ]
