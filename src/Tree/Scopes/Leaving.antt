-- ===== src/Tree/Scopes/Leaving.antt =====
-- src/tree.c: `pop_scope` after what a scope has declared.
use javalette.Prelude.{
  zero, ℕ, suc, ◌≤◌, ◌<◌, ◌≡◌, refl, ap, sym, ◌∙◌, subst, ◌++◌, length, none, some, Returns,
  Ensures, arith, of_Ensures, Ensures-if, leb, Returns-bind, Ensures-Returns,
}
use javalette.Tree.Scopes.{
  Scopes, push_scope, pop_scope, update, pop_level, drop, max_scopes, declare, pop_decls,
  initialize, take,
}
use javalette.Tree.Scopes.Runs.{
  Within, Runs, done, declaring, initializing, nested, Within-refl, Within-Declared, Declared,
  declare-Declared, Within-initialize, Within-Restored,
}
use javalette.Tree.Scopes.Restore.{Restored, drop-length, pop_decls-Restored, view, take-length}

update_at : (f : ℕ → ℕ) (x y a : ℕ) → y ≡ x → update f x a y ≡ a
update_at f x y a e = ground arith

update_below : (f : ℕ → ℕ) (x y a : ℕ) → y < x → update f x a y ≡ f y
update_below f x y a h = ground arith

-- `push_scope` records where the declarations of the new scope begin.
abbrev Entered : Scopes → Scopes → Type 0
Entered s a =
    (a.chains ≡ s.chains)
    × (a.decls ≡ s.decls)
    × (a.cur_scope ≡ suc s.cur_scope)
    × (a.scopes ≡ update s.scopes (suc s.cur_scope) (length s.decls))

push_scope-Entered : (s : Scopes) → Ensures (Entered s) (push_scope s)
unfolding push_scope
push_scope-Entered s =
    Ensures-if (Entered s) (leb max_scopes (suc s.cur_scope)) none _ tt (refl, refl, refl, refl)

-- The scope that was entered in `s` is left.
abbrev pub Left : Scopes → Scopes → Type 0
Left s c =
    Restored s.chains c.chains
    × (c.decls ≡ s.decls)
    × (c.cur_scope ≡ s.cur_scope)
    × ((i : ℕ) → i ≤ s.cur_scope → c.scopes i ≡ s.scopes i)

pop_level-Left :
    (s a b : Scopes) (n : ℕ)
    → Entered s a
    → Within a b
    → n ≡ suc s.cur_scope
    → Returns (Left s) (pop_level b n)
pop_level-Left s a b zero (chains, decls, level, scopes) h e = ground arith
pop_level-Left s a b (suc n) (chains, decls, level, scopes) h e =
    let first : b.scopes (suc n) ≡ length s.decls =
      h.starts (suc n) (omega arith)
      ∙ ap (λ f. f (suc n)) scopes
      ∙ update_at s.scopes (suc s.cur_scope) (suc n) (length s.decls) e in
    let listed : b.decls ≡ s.decls ++ h.added = h.listed ∙ ap (λ l. l ++ h.added) decls in
    let dropped : drop (b.scopes (suc n)) b.decls ≡ h.added =
      ap (λ i. drop i b.decls) first
      ∙ ap (drop (length s.decls)) listed
      ∙ drop-length s.decls h.added in
    Returns-bind (Restored s.chains) (Left s) _ _
      (subst (λ xs. Returns (Restored s.chains) (pop_decls xs b.chains)) (sym dropped)
        (pop_decls-Restored h.added b.chains s.chains h.enough
          (λ y. h.holds y ∙ ap (λ c. view c y) chains)))
      (λ c r. (
        r,
        ap (λ i. take i b.decls) first
            ∙ ap (take (length s.decls)) listed
            ∙ take-length s.decls h.added,
        omega arith,
        λ i le.
            h.starts i (omega arith)
            ∙ ap (λ f. f i) scopes
            ∙ update_below s.scopes (suc s.cur_scope) i (length s.decls) (omega arith),
      ))

pub pop_scope-Left :
    (s a b : Scopes) → push_scope s ≡ some a → Within a b → Returns (Left s) (pop_scope b)
unfolding pop_scope
pop_scope-Left s a b e h =
    let entered = of_Ensures (Entered s) (push_scope s) a (push_scope-Entered s) e in
    pop_level-Left s a b b.cur_scope entered h (h.level ∙ entered.2)

pub Within-Runs : (w : ℕ) (s s' : Scopes) → Runs w s s' → Within s s'
Within-Runs w s s' done = Within-refl s
Within-Runs w s s'' (declaring {s' = s'} x t p r e) =
    Within-Declared s s' s'' x (Within-Runs w s s' r)
      (of_Ensures (Declared x s') (declare w x t p s') s'' (declare-Declared w x t p s') e)
Within-Runs w s s'' (initializing {s' = s'} x r e) =
    of_Ensures (Within s) (initialize x s') s'' (Within-initialize s s' x (Within-Runs w s s' r)) e
Within-Runs w s c (nested {s' = s'} {a = a} {b = b} r pushes inner pops) =
    let l =
      of_Ensures (Left s') (pop_scope b) c
        (Ensures-Returns (Left s') (pop_scope b)
          (pop_scope-Left s' a b pushes (Within-Runs w a b inner)))
        pops in
    Within-Restored s s' c (Within-Runs w s s' r) l.0 l.1 l.2 l.3

-- In a scope that `push_scope` enters, after any declarations, initializations and blocks, the
-- `pop_scope` succeeds; then every symbol has the declarations it had before, in the same order,
-- and the list of declarations, the current scope and its recorded starts are those before.
pub leave-Left :
    (w : ℕ) (s a b : Scopes) → push_scope s ≡ some a → Runs w a b → Returns (Left s) (pop_scope b)
leave-Left w s a b e r = pop_scope-Left s a b e (Within-Runs w a b r)
