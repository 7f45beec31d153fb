-- ===== src/Quadr/Emitted.antt =====
-- src/quadr.c: code that is appended to the current block, and what it computes.
use javalette.Prelude.{
  ℕ, suc, ◌<◌, ◌≤◌, Bool, false, List, [], ◌∷◌, ◌++◌, Option, some, ◌==◌, ◌≡◌, refl, sym, ◌∙◌, ap,
  subst, Returns, arith, append_assoc, append-nil, ==_refl, Never,
}
use javalette.Types.{Ty, int, double, boolean, array, void, str, func}
use javalette.Quadr.{Quadr, is_block_end, last_quadr, vt_int, vt_double, VarType, vt_array}
use javalette.Quadr.Blocks.{Func, Var, ends_block, declare_var, add_quadr, emit, add_var}

pub last-append : (xs : List Quadr) (q : Quadr) → last_quadr (xs ++ q ∷ []) ≡ some q
last-append [] q = refl
last-append (x ∷ []) q = refl
last-append (x ∷ y ∷ xs) q = last-append (y ∷ xs) q

other_number : (n x : ℕ) → x < n → (n == x) ≡ false
other_number n x p = ground arith

-- The current block, with its code, to which more can be added.
pub record At (f : Func) (c : ℕ) (xs : List Quadr) (next : Option ℕ) (referenced : Bool)
    : Type 0 where
  pub current : f.cur_block ≡ some c
  pub here : f.blocks c ≡ some (record { lst = xs; next = next; referenced = referenced })
  pub unended : ends_block (last_quadr xs) ≡ false

-- A new variable, which takes no code.
pub record Declared (f : Func) (v : Var) (x : ℕ) (f' : Func) : Type 0 where
  pub number : x ≡ f.var_count
  pub more : f'.var_count ≡ suc f.var_count
  pub made : f'.var_at x ≡ some v
  pub blocks_same : f'.blocks ≡ f.blocks
  pub block_same : f'.cur_block ≡ f.cur_block
  pub keeps : (y : ℕ) → y < f.var_count → f'.var_at y ≡ f.var_at y
  pub ids : f'.next_block_id ≡ f.next_block_id

pub add_var-Declared :
    (type : Ty) (q : VarType) (f : Func)
    → Declared f (record { ty = type; qtype = q }) f.var_count (add_var type q f).1
add_var-Declared type q f = record {
  number = refl;
  more = refl;
  made = rw (==_refl f.var_count) refl;
  blocks_same = refl;
  block_same = refl;
  keeps = λ x p. rw (other_number f.var_count x p) refl;
  ids = refl;
}

abbrev pub IsDeclarable : Ty → Type 0
IsDeclarable int = Unit
IsDeclarable double = Unit
IsDeclarable boolean = Unit
IsDeclarable (array a e n) = Unit
IsDeclarable _ = Never

abbrev pub qtype_of : Ty → VarType
qtype_of double = vt_double
qtype_of (array a e n) = vt_array
qtype_of _ = vt_int

pub declare_var-Declared :
    (type : Ty) (f : Func)
    → IsDeclarable type
    → Returns
        (λ (x, f'). Declared f (record { ty = type; qtype = qtype_of type }) x f')
        (declare_var type f)
unfolding declare_var
declare_var-Declared int f h = add_var-Declared int vt_int f
declare_var-Declared double f h = add_var-Declared double vt_double f
declare_var-Declared boolean f h = add_var-Declared boolean vt_int f
declare_var-Declared (array a e n) f h = add_var-Declared (array a e n) vt_array f
declare_var-Declared void f h = elim h [ ]
declare_var-Declared str f h = elim h [ ]
declare_var-Declared (func a t n ts) f h = elim h [ ]

module _ (c : ℕ) (next : Option ℕ) (referenced : Bool) where
  -- From `f` to `f'` the code `ys` has been appended to `xs`, the code of the current block; the other
  -- blocks and the variables of `f` are as they were.
  pub record Appended (xs : List Quadr) (f f' : Func) (ys : List Quadr) : Type 0 where
    pub at : At f' c (xs ++ ys) next referenced
    pub count : f.var_count ≤ f'.var_count
    pub keeps : (x : ℕ) → x < f.var_count → f'.var_at x ≡ f.var_at x
    pub others : (d : ℕ) → (c == d) ≡ false → f'.blocks d ≡ f.blocks d
    pub ids : f'.next_block_id ≡ f.next_block_id

  pub Appended-trans :
      (xs ys zs : List Quadr) (f f1 f2 : Func)
      → Appended xs f f1 ys
      → Appended (xs ++ ys) f1 f2 zs
      → Appended xs f f2 (ys ++ zs)
  Appended-trans xs ys zs f f1 f2 e e1 = record {
    at = subst (λ z. At f2 c z next referenced) (append_assoc xs ys zs) e1.at;
    count = omega (arith, e.count, e1.count);
    keeps = λ x p. e1.keeps x (omega (arith, p, e.count)) ∙ e.keeps x p;
    others = λ d p. e1.others d p ∙ e.others d p;
    ids = e1.ids ∙ e.ids;
  }

  pub Appended-none : (xs : List Quadr) (f : Func) → At f c xs next referenced → Appended xs f f []
  Appended-none xs f h = record {
    at = subst (λ z. At f c z next referenced) (sym (append-nil xs)) h;
    count = omega arith;
    keeps = λ x p. refl;
    others = λ d p. refl;
    ids = refl;
  }

  pub Declared-At :
      (xs : List Quadr) (f : Func) (v : Var) (x : ℕ) (f' : Func)
      → At f c xs next referenced
      → Declared f v x f'
      → At f' c xs next referenced
  Declared-At xs f v x f' h d = record {
    current = d.block_same ∙ h.current;
    here = ap (λ b. b c) d.blocks_same ∙ h.here;
    unended = h.unended;
  }

  -- One quadruple that does not end the block.
  pub emit-Appended :
      (xs : List Quadr) (q : Quadr) (f : Func)
      → At f c xs next referenced
      → is_block_end q.op ≡ false
      → Returns (λ f'. Appended xs f f' (q ∷ []) × (f'.var_count ≡ f.var_count)) (emit q f)
  unfolding add_quadr
  emit-Appended xs q f h e =
      rw (h.current, h.here, h.unended)
        (
          record {
            at = record {
              current = refl;
              here = rw (==_refl c) refl;
              unended = ap ends_block (last-append xs q) ∙ e;
            };
            count = omega arith;
            keeps = λ x p. refl;
            others = λ d p. rw p refl;
            ids = refl;
          },
          refl,
        )

  -- The code that is appended after a variable is declared.
  pub Declared-then :
      (xs ys : List Quadr) (f : Func) (v : Var) (x : ℕ) (f1 f2 : Func)
      → Declared f v x f1
      → Appended xs f1 f2 ys
      → Appended xs f f2 ys
  Declared-then xs ys f v x f1 f2 d e = record {
    at = e.at;
    count = omega (arith, d.more, e.count);
    keeps = λ y p. e.keeps y (omega (arith, p, d.more)) ∙ d.keeps y p;
    others = λ y p. e.others y p ∙ ap (λ b. b y) d.blocks_same;
    ids = e.ids ∙ d.ids;
  }
