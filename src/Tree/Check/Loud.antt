-- ===== src/Tree/Check/Loud.antt =====
-- src/tree.c: the reports of each kind of expression.
use javalette.Tree.Check.Rules.{failed}
use javalette.Tree.Check.Reports.{Outcome, finish-true, finish-false}
use javalette.Tree.Check.Sound.{and_left}
use javalette.Prelude.{
  ℕ, ◌≡◌, ◌≤◌, ◌<◌, refl, sym, ◌∙◌, Option, none, some, true, false, Bool, ◌&&◌, length, Returns,
  Returns-if, if◌then◌else◌, arith, Bool-cases, inl, inr, ◌∷◌,
}
use javalette.Types.{Ty}
use javalette.Tree.{Pos}
use javalette.Tree.Scopes.{Decl}
use javalette.Tree.Exprs.{BinaryOp, UnaryOp, Expr}
use javalette.Tree.Check.{
  Report, Checked, finish, ident_result, conclude, unary_result, both, Message, index_result,
  unary_ok, undefined, undefined_identifier, same, suppressed, error, binary_type, uninitialized,
  is_int, out_of_range, src_pos, bad_index, decided,
}

pub loud :
    (r : Report) (c : Checked)
    → Outcome r c
    → c.report.suppress ≡ true
    → length r.errors < length c.report.errors
loud r c o q = elim (Bool-cases c.ok) [
  | inl k ↦ failed (sym (o.accepted k).0 ∙ q)
  | inr k ↦ (o.rejected k).1
]

-- The errors of a later part come on top.
pub later :
    (r r' : Report) (c : Checked) → length r.errors ≤ length r'.errors → Outcome r' c → Outcome r c
later r r' c le o = record {
  grown = let k = o.grown in omega arith;
  accepted = o.accepted;
  rejected = λ h. let k = o.rejected h in (k.0, (let l = k.1 in omega arith));
}

pub Outcome-if :
    (r : Report) (b : Bool) (c d : Checked)
    → (b ≡ true → Outcome r c)
    → (b ≡ false → Outcome r d)
    → Outcome r (if b then c else d)
Outcome-if r true c d h k = h refl
Outcome-if r false c d h k = k refl

pub conclude-Outcome :
    (p : Pos) (o : Option Ty) (r r' : Report)
    → length r.errors ≤ length r'.errors
    → r'.suppress ≡ false
    → Outcome r (conclude p o r')
conclude-Outcome p none r r' le q = finish-false p none r r' le (λ k. failed (sym q ∙ k))
conclude-Outcome p (some t) r r' le q = finish-true p t r r' le q

pub both-Outcome :
    (op : BinaryOp) (p : Pos) (r : Report) (l c : Checked) → Outcome r c → Outcome r (both op p l c)
both-Outcome op p r l c o =
    Outcome-if r (c.ok && same l.type c.type) _ _
      (λ q.
        conclude-Outcome p (binary_type op l.type) r c.report o.grown
          (o.accepted (and_left c.ok _ q)).0)
      (λ q. finish-false p none r c.report o.grown (loud r c o))

pub unary_result-Outcome :
    (op : UnaryOp) (p : Pos) (r : Report) (c : Checked) (x : Option Ty)
    → c.type ≡ x
    → c.ok ≡ true
    → Outcome r c
    → Returns (Outcome r) (unary_result op p x c.report)
unary_result-Outcome op p r c none e k o = let et = (o.accepted k).1.1 in absurd (ground arith)
unary_result-Outcome op p r c (some t) e k o =
    Returns-if (Outcome r) (unary_ok op t) _ _
      (λ q. finish-true p t r c.report o.grown (o.accepted k).0)
      (λ q. finish-false p none r c.report o.grown (loud r c o))

pub undefined-Outcome : (p : Pos) (m : Message) (r : Report) → Outcome r (undefined p m r)
undefined-Outcome p m r =
    finish-false p none r (suppressed (error p m r)) (omega arith) (λ k. omega arith)

pub ident_result-Outcome :
    (p : Pos) (r : Report) (o : Option Decl) → r.suppress ≡ false → Outcome r (ident_result p o r)
ident_result-Outcome p r none q = undefined-Outcome p undefined_identifier r
ident_result-Outcome p r (some d) q =
    finish-true p d.type r (if d.initialized then r else error p uninitialized r) (ground arith)
      (ground arith)

decided-Outcome :
    (p : Pos) (t : Ty) (r : Report) (b : Bool) (x y : Report)
    → (b ≡ true → (length r.errors ≤ length x.errors) × (x.suppress ≡ false))
    → (b ≡ false → (length r.errors < length y.errors))
    → Outcome r (finish p (decided b x y).0 (some t) (decided b x y).1)
decided-Outcome p t r true x y h k = finish-true p t r x (h refl).0 (h refl).1
decided-Outcome p t r false x y h k =
    let l = k refl in finish-false p (some t) r y (omega arith) (λ q. l)

pub index_result-Outcome :
    (p : Pos) (i : Expr) (n : ℕ) (t : Ty) (r : Report) (c : Checked)
    → Outcome r c
    → Outcome r (finish p (index_result i n c).0 (some t) (index_result i n c).1)
index_result-Outcome p i n t r c o =
    decided-Outcome p t r (c.ok && is_int c.type)
      (if out_of_range i n
        then record c.report { warnings = src_pos i ∷ c.report.warnings }
        else c.report)
      (error (src_pos i) bad_index c.report)
      (λ q.
        let g = o.grown in
        let a = (o.accepted (and_left c.ok _ q)).0 in (ground arith, ground arith))
      (λ q. let g = o.grown in omega arith)
