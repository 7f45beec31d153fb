-- ===== src/Tree/Scopes/Runs.antt =====
-- src/tree.c: what the declarations and the inner blocks of a block do to the symbols.
use javalette.Prelude.{
  ℕ, suc, ◌≤◌, ◌≡◌, refl, ap, sym, ◌∙◌, List, [], ◌∷◌, ◌++◌, length, some, arith, append-nil,
  Ensures, inl, ◌⊎◌, inr, Ensures-if, Ensures-imp, leb, false, append_assoc, ◌*◌, Bool-cases, subst,
  ◌==◌, ==_iff,
}
use javalette.Types.{Ty}
use javalette.Tree.{Pos}
use javalette.Tree.Scopes.{
  Scopes, Decl, declare, push_scope, pop_scope, initialize, grow, update, initialize_first, store,
  drop, declared_in,
}
use javalette.Tree.Scopes.Restore.{Enough, Holds, Restored, view, count, count-append}

-- What a run of declarations and of inner blocks keeps of the state it starts in.
pub record Within (s s' : Scopes) : Type 0 where
  pub added : List ℕ
  pub listed : s'.decls ≡ s.decls ++ added
  pub enough : Enough s'.chains added
  pub holds : Holds s'.chains added s.chains
  pub level : s'.cur_scope ≡ s.cur_scope
  pub starts : (i : ℕ) → i ≤ s.cur_scope → s'.scopes i ≡ s.scopes i

-- Declarations, assignments and blocks, in any order and at any depth.
pub data Runs (pointer_size : ℕ) : Scopes → Scopes → Type 0 where
  done : {s : Scopes} → Runs pointer_size s s
  declaring :
      {s s' s'' : Scopes} (x : ℕ) (t : Ty) (p : Pos)
      → Runs pointer_size s s'
      → declare pointer_size x t p s' ≡ some s''
      → Runs pointer_size s s''
  initializing :
      {s s' s'' : Scopes} (x : ℕ)
      → Runs pointer_size s s'
      → initialize x s' ≡ some s''
      → Runs pointer_size s s''
  nested :
      {s s' a b c : Scopes}
      → Runs pointer_size s s'
      → push_scope s' ≡ some a
      → Runs pointer_size a b
      → pop_scope b ≡ some c
      → Runs pointer_size s c

pub Within-refl : (s : Scopes) → Within s s
Within-refl s = record {
  added = [];
  listed = sym (append-nil s.decls);
  enough = λ y. omega arith;
  holds = λ y. refl;
  level = refl;
  starts = λ i h. refl;
}

-- What one declaration changes: nothing, or it is pushed on its symbol's chain.
abbrev pub Declared : ℕ → Scopes → Scopes → Type 0
Declared x s s' =
    (s'.cur_scope ≡ s.cur_scope)
    × (s'.scopes ≡ s.scopes)
    × (((s'.decls ≡ s.decls) × (s'.chains ≡ s.chains))
        ⊎ ((d : Decl) × (s'.decls ≡ s.decls ++ (x ∷ []))
            × (s'.chains ≡ update s.chains x (d ∷ s.chains x))))

grow_keeps :
    (s : Scopes)
    → ((grow s).cur_scope ≡ s.cur_scope)
      × ((grow s).scopes ≡ s.scopes)
      × ((grow s).decls ≡ s.decls)
      × ((grow s).chains ≡ s.chains)
grow_keeps s = ground arith

store-Declared :
    (w x : ℕ) (s s' : Scopes) (d : Decl)
    → s'.cur_scope ≡ s.cur_scope
    → s'.scopes ≡ s.scopes
    → s'.decls ≡ s.decls
    → s'.chains ≡ update s.chains x (d ∷ s.chains x)
    → Ensures (Declared x s) (store w x s')
store-Declared w x s s' d level scopes decls chains =
    Ensures-if (Declared x s) (leb (w * suc (length s'.decls)) s'.decls_bytes) _ _
      (level, scopes, inr (d, ap (λ l. l ++ (x ∷ [])) decls, chains)) tt

pub declare-Declared :
    (w x : ℕ) (t : Ty) (p : Pos) (s : Scopes) → Ensures (Declared x s) (declare w x t p s)
unfolding declare
declare-Declared w x t p s =
    let d : Decl = record { type = t; scope = s.cur_scope; initialized = false } in
    let s1 : Scopes = record s { chains = update s.chains x (d ∷ s.chains x) } in
    let g = grow_keeps s1 in
    Ensures-if (Declared x s) (declared_in s.cur_scope (s.chains x))
      (some (record s { duplicates = p ∷ s.duplicates })) (store w x (grow s1))
      (refl, refl, inl (refl, refl)) (store-Declared w x s (grow s1) d g.0 g.1 g.2 g.3)

-- A step that leaves the outline of every chain as it was.
pub Within-Restored :
    (s s' s'' : Scopes)
    → Within s s'
    → Restored s'.chains s''.chains
    → s''.decls ≡ s'.decls
    → s''.cur_scope ≡ s'.cur_scope
    → ((i : ℕ) → i ≤ s'.cur_scope → s''.scopes i ≡ s'.scopes i)
    → Within s s''
Within-Restored s s' s'' h chains decls level scopes = record {
  added = h.added;
  listed = decls ∙ h.listed;
  enough = λ y. let e = h.enough y in let k = chains y in grind arith;
  holds = λ y. ap (drop (count y h.added)) (chains y) ∙ h.holds y;
  level = level ∙ h.level;
  starts = λ i le. scopes i (subst (λ n. i ≤ n) (sym h.level) le) ∙ h.starts i le;
}

pushed :
    (s s' : Scopes) (x y : ℕ) (d : Decl) (h : Within s s')
    → (count y (h.added ++ (x ∷ [])) ≤ length (view (update s'.chains x (d ∷ s'.chains x)) y))
      × (drop (count y (h.added ++ (x ∷ []))) (view (update s'.chains x (d ∷ s'.chains x)) y)
          ≡ view s.chains y)
pushed s s' x y d h =
    let c = count-append y h.added (x ∷ []) in
    let e = h.enough y in
    let k = h.holds y in
    elim (Bool-cases (y == x)) [
      | inl q ↦ let p = ap s'.chains ((==_iff y x).0 q) in grind arith
      | inr q ↦ grind arith
    ]

pub Within-Declared : (s s' s'' : Scopes) (x : ℕ) → Within s s' → Declared x s' s'' → Within s s''
Within-Declared s s' s'' x h (level, scopes, inl (decls, chains)) =
    Within-Restored s s' s'' h (λ y. ap (λ c. view c y) chains) decls level
      (λ i le. ap (λ f. f i) scopes)
Within-Declared s s' s'' x h (level, scopes, inr (d, decls, chains)) = record {
  added = h.added ++ (x ∷ []);
  listed = decls ∙ ap (λ l. l ++ (x ∷ [])) h.listed ∙ append_assoc s.decls h.added (x ∷ []);
  enough = λ y.
      subst (λ c. count y (h.added ++ (x ∷ [])) ≤ length (view c y)) (sym chains)
        (pushed s s' x y d h).0;
  holds = λ y.
      ap (λ c. drop (count y (h.added ++ (x ∷ []))) (view c y)) chains ∙ (pushed s s' x y d h).1;
  level = level ∙ h.level;
  starts = λ i le. ap (λ f. f i) scopes ∙ h.starts i le;
}

initialize_first-Restored :
    (x : ℕ) (s : Scopes) (l : List Decl)
    → s.chains x ≡ l
    → Ensures
        (λ c.
          Restored s.chains c.chains
          × (c.decls ≡ s.decls)
          × (c.cur_scope ≡ s.cur_scope)
          × (c.scopes ≡ s.scopes))
        (initialize_first x s l)
initialize_first-Restored x s [] e = tt
initialize_first-Restored x s (d ∷ prev) e = (
  λ y. elim (Bool-cases (y == x)) [
    | inl q ↦ let p = ap s.chains ((==_iff y x).0 q) ∙ e in grind arith
    | inr q ↦ grind arith
  ],
  refl,
  refl,
  refl,
)

pub Within-initialize : (s s' : Scopes) (x : ℕ) → Within s s' → Ensures (Within s) (initialize x s')
Within-initialize s s' x h =
    Ensures-imp _ (Within s) (initialize x s')
      (λ c r. Within-Restored s s' c h r.0 r.1 r.2 (λ i le. ap (λ f. f i) r.3))
      (initialize_first-Restored x s' (s'.chains x) refl)
