-- ===== src/Quadr/Jumps.antt =====
-- src/quadr.c: the relation that a conditional jump tests.
use javalette.Prelude.{Bool, true, false, not, ◌≡◌, refl, Returns, Never, if◌then◌else◌}
use javalette.Tree.Exprs.{
  BinaryOp, op_add, op_sub, op_mul, op_div, op_mod, op_eq, op_neq, op_gt, op_lt, op_geq, op_leq,
  op_or, op_and,
}
use javalette.Quadr.{
  QuadrOp, quadr_if_op, is_if_op, q_if_eq, q_if_ne, q_if_lt, q_if_gt, q_if_le, q_if_ge,
}

-- How two values compare, of which none is a `double` that is not a number.
pub data Outcome : Type 0 where
  less equal greater : Outcome

-- The relations of the language.
abbrev pub holds : BinaryOp → Outcome → Bool
holds op_eq equal = true
holds op_neq less = true
holds op_neq greater = true
holds op_gt greater = true
holds op_lt less = true
holds op_geq equal = true
holds op_geq greater = true
holds op_leq less = true
holds op_leq equal = true
holds op o = false

-- Whether a quadruple jumps.
abbrev pub jumps : QuadrOp → Outcome → Bool
jumps q_if_eq equal = true
jumps q_if_ne less = true
jumps q_if_ne greater = true
jumps q_if_gt greater = true
jumps q_if_lt less = true
jumps q_if_ge equal = true
jumps q_if_ge greater = true
jumps q_if_le less = true
jumps q_if_le equal = true
jumps q o = false

abbrev pub IsComparison : BinaryOp → Type 0
IsComparison op_eq = Unit
IsComparison op_neq = Unit
IsComparison op_gt = Unit
IsComparison op_lt = Unit
IsComparison op_geq = Unit
IsComparison op_leq = Unit
IsComparison _ = Never

-- For a comparison: `quadr_if_op` gives a conditional jump, which is
-- taken when the comparison is as `jmp_if_true` says.
pub quadr_if_op-jumps :
    (op : BinaryOp) (jmp_if_true : Bool) (o : Outcome)
    → IsComparison op
    → Returns
        (λ q.
          (is_if_op q ≡ true)
          × (jumps q o ≡ (if jmp_if_true then holds op o else not (holds op o))))
        (quadr_if_op op jmp_if_true)
quadr_if_op-jumps op_eq true less c = (refl, refl)
quadr_if_op-jumps op_eq true equal c = (refl, refl)
quadr_if_op-jumps op_eq true greater c = (refl, refl)
quadr_if_op-jumps op_eq false less c = (refl, refl)
quadr_if_op-jumps op_eq false equal c = (refl, refl)
quadr_if_op-jumps op_eq false greater c = (refl, refl)
quadr_if_op-jumps op_neq true less c = (refl, refl)
quadr_if_op-jumps op_neq true equal c = (refl, refl)
quadr_if_op-jumps op_neq true greater c = (refl, refl)
quadr_if_op-jumps op_neq false less c = (refl, refl)
quadr_if_op-jumps op_neq false equal c = (refl, refl)
quadr_if_op-jumps op_neq false greater c = (refl, refl)
quadr_if_op-jumps op_gt true less c = (refl, refl)
quadr_if_op-jumps op_gt true equal c = (refl, refl)
quadr_if_op-jumps op_gt true greater c = (refl, refl)
quadr_if_op-jumps op_gt false less c = (refl, refl)
quadr_if_op-jumps op_gt false equal c = (refl, refl)
quadr_if_op-jumps op_gt false greater c = (refl, refl)
quadr_if_op-jumps op_lt true less c = (refl, refl)
quadr_if_op-jumps op_lt true equal c = (refl, refl)
quadr_if_op-jumps op_lt true greater c = (refl, refl)
quadr_if_op-jumps op_lt false less c = (refl, refl)
quadr_if_op-jumps op_lt false equal c = (refl, refl)
quadr_if_op-jumps op_lt false greater c = (refl, refl)
quadr_if_op-jumps op_geq true less c = (refl, refl)
quadr_if_op-jumps op_geq true equal c = (refl, refl)
quadr_if_op-jumps op_geq true greater c = (refl, refl)
quadr_if_op-jumps op_geq false less c = (refl, refl)
quadr_if_op-jumps op_geq false equal c = (refl, refl)
quadr_if_op-jumps op_geq false greater c = (refl, refl)
quadr_if_op-jumps op_leq true less c = (refl, refl)
quadr_if_op-jumps op_leq true equal c = (refl, refl)
quadr_if_op-jumps op_leq true greater c = (refl, refl)
quadr_if_op-jumps op_leq false less c = (refl, refl)
quadr_if_op-jumps op_leq false equal c = (refl, refl)
quadr_if_op-jumps op_leq false greater c = (refl, refl)
quadr_if_op-jumps op_add b o c = elim c [ ]
quadr_if_op-jumps op_sub b o c = elim c [ ]
quadr_if_op-jumps op_mul b o c = elim c [ ]
quadr_if_op-jumps op_div b o c = elim c [ ]
quadr_if_op-jumps op_mod b o c = elim c [ ]
quadr_if_op-jumps op_or b o c = elim c [ ]
quadr_if_op-jumps op_and b o c = elim c [ ]
