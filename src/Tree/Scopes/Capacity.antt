-- ===== src/Tree/Scopes/Capacity.antt =====
-- src/tree.c: the memory of the array of declarations.
use javalette.Prelude.{
  zero, if◌then◌else◌, ℕ, suc, ◌*◌, ◌≤◌, ◌<◌, ◌≡◌, length, none, Bool, false, arith, ◌∙◌, sym, ap,
  subst,
}
use javalette.Types.{Ty}
use javalette.Tree.{Pos}
use javalette.Tree.Scopes.{Scopes, declare, declared_in, grow, store, push_decl}

grow_full :
    (s : Scopes)
    → length s.decls ≡ s.decls_size
    → ((grow s).decls_bytes ≡ s.decls_size * 2) × ((grow s).decls ≡ s.decls)
grow_full s h = ground arith

store_out_of_bounds :
    (w x : ℕ) (s : Scopes) → s.decls_bytes < w * suc (length s.decls) → store w x s ≡ none
store_out_of_bounds w x s h = ground arith

too_small : (w b n : ℕ) → 2 ≤ w → b ≡ 2048 → n ≡ 1024 → b < w * suc n
too_small w b n hw hb hn = subst (λ n. b < w * suc n) (sym hn) (omega arith)

mul_mono : (w a b : ℕ) → a ≤ b → w * a ≤ w * b
mul_mono zero a b h = omega arith
mul_mono (suc w) a b h = let k = mul_mono w a b h in omega arith

store-grow_full :
    (w x : ℕ) (s : Scopes)
    → 2 ≤ w
    → s.decls_size ≡ 1024
    → length s.decls ≡ 1024
    → store w x (grow s) ≡ none
store-grow_full w x s hw hs hl =
    let g = grow_full s (hl ∙ sym hs) in
    store_out_of_bounds w x (grow s) (
      too_small w (grow s).decls_bytes (length (grow s).decls) hw (g.0 ∙ ap (λ n. n * 2) hs)
        (ap length g.1 ∙ hl))

if_false {ℓ} : {A : Type ℓ} (b : Bool) (x y : A) → b ≡ false → (if b then x else y) ≡ y
if_false b x y e = ap (λ c. if c then x else y) e

-- With pointers of two bytes or more, `declare` of a symbol that is new in its scope fails when the
-- array is full at its first size: 1024 declarations are live, and the enlarged array has no room
-- for one more, because `xrealloc` was given the number of entries as the number of bytes.
pub declare_full :
    (w x : ℕ) (t : Ty) (p : Pos) (s : Scopes)
    → 2 ≤ w
    → s.decls_size ≡ 1024
    → length s.decls ≡ 1024
    → declared_in s.cur_scope (s.chains x) ≡ false
    → declare w x t p s ≡ none
unfolding declare
declare_full w x t p s hw hs hl e =
    if_false (declared_in s.cur_scope (s.chains x)) _ _ e
    ∙ store-grow_full w x (push_decl x t s) hw hs hl
