-- ===== src/Tree/Semantics/Nodes/Falling.antt =====
-- The instructions of src/tree.h that control can leave at their end.
use javalette.Prelude.{◌≡◌, refl, Bool, true, false, ◌&&◌, ◌||◌, List, arith}
use javalette.Types.{Ty}
use javalette.Tree.{Pos}
use javalette.Tree.Exprs.{Expr}
use javalette.Tree.Instrs.{
  Optional, Declarator, Instr, Instrs, empty, expression, sequence, declaration, assign, inc, dec,
  if_node, if_else_node, while_node, for_node, return_node, no_instrs, block, instr,
}

-- Control can leave the instruction at its end, whatever the conditions are.
mutual
  pub data Falls : Instr → Type 0 where
    empty_falls : Falls empty
    expression_falls : {e : Expr} → Falls (expression e)
    declaration_falls : {p : Pos} {t : Ty} {ds : List Declarator} → Falls (declaration p t ds)
    assign_falls : {p : Pos} {l e : Expr} → Falls (assign p l e)
    inc_falls : {p : Pos} {l : Expr} → Falls (inc p l)
    dec_falls : {p : Pos} {l : Expr} → Falls (dec p l)
    if_falls : {p : Pos} {e : Expr} {i : Instr} → Falls (if_node p e i)
    then_falls : {p : Pos} {e : Expr} {i j : Instr} → Falls i → Falls (if_else_node p e i j)
    else_falls : {p : Pos} {e : Expr} {i j : Instr} → Falls j → Falls (if_else_node p e i j)
    while_falls : {p : Pos} {e : Expr} {i : Instr} → Falls (while_node p e i)
    for_falls : {p : Pos} {i1 : Instr} {e : Expr} {i3 i : Instr} → Falls (for_node p i1 e i3 i)
    sequence_falls : {is : Instrs} → AllFall is → Falls (sequence is)

  pub data AllFall : Instrs → Type 0 where
    end_falls : AllFall no_instrs
    instr_falls : {i : Instr} {is : Instrs} → Falls i → AllFall is → AllFall (instr i is)
    block_falls : {i : Instr} {is : Instrs} → Falls i → AllFall is → AllFall (block i is)

-- The answer "there was a return" is right.
abbrev pub Verdict : Bool → Type 0 → Type 0
Verdict b F = (b ≡ true → F → ⊥) × (b ≡ false → F)

pub falling : (F : Type 0) → F → Verdict false F
falling F f = (λ h. absurd (ground arith), λ h. f)

pub instr_parts : {i : Instr} {is : Instrs} → AllFall (instr i is) → Falls i × AllFall is
instr_parts (instr_falls f fs) = (f, fs)

pub block_parts : {i : Instr} {is : Instrs} → AllFall (block i is) → Falls i × AllFall is
block_parts (block_falls f fs) = (f, fs)

-- An entry and the rest of a list.
pub Verdict-both :
    (a b : Bool) (F G H : Type 0)
    → (H → F × G)
    → (F → G → H)
    → Verdict a F
    → Verdict b G
    → Verdict (a || b) H
Verdict-both true b F G H out in_ v u = (λ h f. v.0 refl (out f).0, λ h. absurd (ground arith))
Verdict-both false true F G H out in_ v u = (λ h f. u.0 refl (out f).1, λ h. absurd (ground arith))
Verdict-both false false F G H out in_ v u =
    (λ h. absurd (ground arith), λ h. in_ (v.1 refl) (u.1 refl))

neither :
    {p : Pos} {e : Expr} {i j : Instr}
    → (Falls i → ⊥)
    → (Falls j → ⊥)
    → Falls (if_else_node p e i j)
    → ⊥
neither h k (then_falls f) = h f
neither h k (else_falls f) = k f

pub Verdict-else :
    (p : Pos) (e : Expr) (a b : Bool) (i j : Instr)
    → Verdict a (Falls i)
    → Verdict b (Falls j)
    → Verdict (a && b) (Falls (if_else_node p e i j))
Verdict-else p e true true i j v u =
    (λ h. neither (v.0 refl) (u.0 refl), λ h. absurd (ground arith))
Verdict-else p e true false i j v u = (λ h. absurd (ground arith), λ h. else_falls (u.1 refl))
Verdict-else p e false b i j v u = (λ h. absurd (ground arith), λ h. then_falls (v.1 refl))

no_sequence : {is : Instrs} → (AllFall is → ⊥) → Falls (sequence is) → ⊥
no_sequence h (sequence_falls fs) = h fs

pub Verdict-sequence :
    (b : Bool) (is : Instrs) → Verdict b (AllFall is) → Verdict b (Falls (sequence is))
Verdict-sequence b is v = (λ h. no_sequence (v.0 h), λ h. sequence_falls (v.1 h))

pub no_return : {p : Pos} {e : Optional} → Falls (return_node p e) → ⊥
no_return f = elim f [ ]
