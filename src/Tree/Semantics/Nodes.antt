-- ===== src/Tree/Semantics/Nodes.antt =====
-- src/tree.c: `do_semantic_check` and `semantic_check`.
use javalette.Tree.Semantics.{
  State, call, check_against, complain, new_var, should_generate_code, add_basic_blocks,
  void_declaration, end_function, return_type, main_type, ill_typed, start_function,
  gen_quadr_bool_expr, no_main, invalid_statement, generate, gen_goto, new_basic_block,
  gen_quadr_return, gen_expr, missing_return, gen_assign, gen_copy_var, check_assign, negative_size,
  check_step, check_condition, gen_quadr,
}
pub mod Reach
pub mod Steps
pub mod Falling
pub mod Returning
pub mod Funcs
mod Tests
use javalette.Prelude.{
  ℕ, suc, zero, ◌+◌, Bool, true, false, not, ◌&&◌, ◌||◌, List, [], ◌∷◌, ◌++◌, Option, none, some,
  length, ◌==◌, if◌then◌else◌, ◌>>=◌, ◌>>◌, assert,
}
use javalette.Types.{Ty, Tys, void, int, boolean, func, array, none_left, same_type, type_equiv}
use javalette.Tree.{Pos}
use javalette.Tree.Scopes.{Decl, Scopes, push_scope, pop_scope, declare, initialize}
use javalette.Tree.Exprs.{Expr, ident_node, array_node, src_pos, ℤ, pos, negsuc}
use javalette.Tree.Check.{Report, Checked, type_check, Env, array_of, index_result}
use javalette.Tree.Instrs.{
  Optional, absent, present, Declarator, var_declarator, array_declarator, Instr, Instrs, empty,
  expression, sequence, declaration, assign, inc, dec, if_node, if_else_node, while_node, for_node,
  return_node, no_instrs, block, instr, Func, Arg,
}

module _ (pointer_size : ℕ) where
  -- `declare` and what the declaration then gets.
  abbrev pub declare_in : ℕ → Ty → Pos → State → Option State
  declare_in x t p s =
      declare pointer_size x t p s.scopes >>= λ scopes. some (record s { scopes = scopes })

  abbrev pub initialize_in : ℕ → State → Option State
  initialize_in x s = initialize x s.scopes >>= λ scopes. some (record s { scopes = scopes })

  abbrev pub check_declarator : Ty → Declarator → State → Option State
  check_declarator t (var_declarator p x absent) s = declare_in x t p s >>= λ s. some (new_var t s)
  check_declarator t (var_declarator p x (present e)) s =
      check_against e (λ u. type_equiv u t) (src_pos e) ill_typed s >>= λ s.
      let var0 = s.vars in
      declare_in x t p (generate (gen_assign var0 e) (new_var t s)) >>= λ s.
      let var = s.vars in
      initialize_in x (new_var t s) >>= λ s. some (generate (gen_copy_var var var0) s)
  check_declarator t (array_declarator p x a (pos n)) s = declare_in x (array a t n) p s >>= λ s.
      initialize_in x s >>= λ s. some (new_var (array a t n) s)
  check_declarator t (array_declarator p x a (negsuc n)) s =
      let size : ℕ = 2147483647 in
      declare_in x (array a t size) p (complain p negative_size s) >>= λ s.
      initialize_in x s >>= λ s. some (new_var (array a t size) s)

  abbrev pub check_declarators : Ty → List Declarator → State → Option State
  check_declarators t [] s = some s
  check_declarators t (d ∷ ds) s = check_declarator t d s >>= check_declarators t ds

  abbrev pub check_declaration : Pos → Ty → List Declarator → State → Option State
  check_declaration p t ds s =
      if same_type t void then some (complain p void_declaration s) else check_declarators t ds s

  -- A variable of C that is assigned a block only if code is generated, and the state.
  abbrev pub open_if : Expr → State → Option ℕ × State
  open_if e s =
      if should_generate_code s
      then (
        some s.blocks,
        call (add_basic_blocks (suc s.blocks))
            (new_basic_block (call (gen_quadr_bool_expr e s.blocks false) (new_basic_block s))),
      )
      else (none, s)

  -- `none` is the use of a block that was not assigned.
  abbrev pub add_block : Option ℕ → State → Option State
  add_block b s =
      if should_generate_code s then (b >>= λ b. some (call (add_basic_blocks b) s)) else some s

  -- Between the two parts of an `if` with `else`.
  abbrev pub open_else : Option ℕ → State → Option (Option ℕ × State)
  open_else b s =
      if should_generate_code s
      then (b >>= λ b.
          some (
            some s.blocks,
            call (add_basic_blocks b) (call (gen_goto s.blocks) (new_basic_block s)),
          ))
      else some (none, s)

  -- The blocks of a loop's condition and body.
  abbrev pub open_loop : State → Option ℕ × Option ℕ × State
  open_loop s =
      if should_generate_code s
      then (
        some s.blocks,
        some (suc s.blocks),
        call (add_basic_blocks (suc s.blocks))
            (new_basic_block (call (gen_goto s.blocks) (new_basic_block s))),
      )
      else (none, none, s)

  abbrev pub close_loop : Expr → Option ℕ → Option ℕ → State → Option State
  close_loop e cond body s =
      if should_generate_code s
      then (cond >>= λ c. body >>= λ b.
          let s = call (gen_quadr_bool_expr e b true) (call (add_basic_blocks c) s) in
          some (call (add_basic_blocks s.blocks) (new_basic_block s)))
      else some s

  -- `ret` is the return type of the function that is checked.
  abbrev pub check_return : Ty → Pos → Optional → State → Option State
  check_return ret p absent s = some (if same_type ret void then s else complain p return_type s)
  check_return ret p (present e) s =
      if same_type ret void
      then some (complain p return_type s)
      else check_against e (type_equiv ret) p return_type s

  -- The scope of a block or a function.
  abbrev pub enter : State → Option State
  enter s = push_scope s.scopes >>= λ scopes. some (record s { scopes = scopes })

  abbrev pub leave : State → Option State
  leave s = pop_scope s.scopes >>= λ scopes. some (record s { scopes = scopes })

  abbrev pub done_with : Bool → Option State → Option (Bool × State)
  done_with b m = m >>= λ s. some (b, s)

  -- `do_semantic_check` of an instruction: `*was_return` and the state after it.
  unfoldable mutual
    pub do_semantic_check : Ty → Instr → State → Option (Bool × State)
    do_semantic_check ret empty s = some (false, s)
    do_semantic_check ret (expression e) s =
        check_against e (λ u. type_equiv u void) (src_pos e) invalid_statement s >>= λ s.
        some (false, generate (gen_expr e) s)
    do_semantic_check ret (sequence is) s = check_instrs ret is s
    do_semantic_check ret (declaration p t ds) s = done_with false (check_declaration p t ds s)
    do_semantic_check ret (assign p l e) s = done_with false (check_assign p l e s)
    do_semantic_check ret (inc p l) s = done_with false (check_step (inc p l) p l s)
    do_semantic_check ret (dec p l) s = done_with false (check_step (dec p l) p l s)
    do_semantic_check ret (if_node p e i) s = check_condition e s >>= λ s.
        let o = open_if e s in
        do_semantic_check ret i o.1 >>= λ r. done_with false (add_block o.0 r.1)
    do_semantic_check ret (if_else_node p e i j) s = check_condition e s >>= λ s.
        let o = open_if e s in
        do_semantic_check ret i o.1 >>= λ r1. open_else o.0 r1.1 >>= λ o2.
        do_semantic_check ret j o2.1 >>= λ r2. done_with (r1.0 && r2.0) (add_block o2.0 r2.1)
    do_semantic_check ret (while_node p e i) s = check_condition e s >>= λ s.
        let o = open_loop s in
        do_semantic_check ret i o.2 >>= λ r. done_with false (close_loop e o.0 o.1 r.1)
    do_semantic_check ret (for_node p i1 e i3 i) s = do_semantic_check ret i1 s >>= λ r1.
        check_condition e r1.1 >>= λ s.
        let o = open_loop s in
        do_semantic_check ret i o.2 >>= λ r2.
        do_semantic_check ret i3 r2.1 >>= λ r3. done_with false (close_loop e o.0 o.1 r3.1)
    do_semantic_check ret (return_node p e) s =
        check_return ret p e s >>= λ s. some (true, generate (gen_quadr (return_node p e)) s)

    -- The loop over the entries of a `NODE_BLOCK` or `NODE_INSTR`.
    pub check_instrs : Ty → Instrs → State → Option (Bool × State)
    check_instrs ret no_instrs s = some (false, s)
    check_instrs ret (instr i is) s = do_semantic_check ret i s >>= λ r.
        check_instrs ret is r.1 >>= λ r'. some (r.0 || r'.0, r'.1)
    check_instrs ret (block i is) s = enter s >>= λ s1. do_semantic_check ret i s1 >>= λ r.
        leave r.1 >>= λ s2. check_instrs ret is s2 >>= λ r'. some (r.0 || r'.0, r'.1)

  -- The parameters of a function.
  abbrev pub check_args : List Arg → State → Option State
  check_args [] s = some s
  check_args (a ∷ rest) s = declare_in a.ident a.type a.pos s >>= λ s.
      initialize_in a.ident s >>= λ s. check_args rest (new_var a.type s)

  abbrev pub return_of : Ty → Option Ty
  return_of (func a t n ts) = some t
  return_of _ = none

  -- The end of a function, by its return type and `wr`.
  abbrev pub finish_func : Pos → Ty → Bool → State → State
  finish_func p ret true s = call end_function s
  finish_func p ret false s =
      if same_type ret void
      then call end_function
          (call gen_quadr_return (call (add_basic_blocks s.blocks) (new_basic_block s)))
      else call end_function (complain p missing_return s)

  -- Whether the first entry of the list is a `NODE_BLOCK`.
  abbrev pub is_block : Instr → Bool
  is_block (sequence (block i is)) = true
  is_block _ = false

  -- One function of `NODE_FUNC`, the function `main` apart.
  unfoldable pub check_func : Func → State → Option State
  check_func f s = return_of f.type >>= λ ret. enter s >>= λ s.
      check_args f.args (call (start_function f.ident) s) >>= λ s.
      assert (is_block f.body)
      >> (do_semantic_check ret f.body s >>= λ r. leave (finish_func f.pos ret r.0 r.1))

  -- The loop over the functions: `was_main` and the state.
  unfoldable pub check_funcs : ℕ → Ty → List Func → Bool → State → Option (Bool × State)
  check_funcs main_sym main [] was_main s = some (was_main, s)
  check_funcs main_sym main (f ∷ fs) was_main s =
      let is_main = f.ident == main_sym in
      let s1 = if is_main && not (type_equiv f.type main) then complain f.pos main_type s else s in
      check_func f s1 >>= check_funcs main_sym main fs (was_main || is_main)

  -- `semantic_check`, given the address of `main` in the symbol table and of its type.
  unfoldable pub semantic_check : ℕ → ℕ → List Func → State → Option State
  semantic_check main_sym main_addr fs s =
      check_funcs main_sym (func main_addr int 0 none_left) fs false s >>= λ r.
      some (if r.0 then r.1 else complain (record { line = 0; col = 0; len = 0 }) no_main r.1)
