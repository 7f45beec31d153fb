-- ===== src/Flow/Occurrences.antt =====
-- src/flow.c: what one block does with a variable first.
use javalette.Prelude.{
  ℕ, suc, ◌+◌, Bool, true, false, List, [], ◌∷◌, Option, none, some, ◌==◌, ◌||◌, ◌≡◌, refl,
  if◌then◌else◌, length, arith, Bool-cases, inl, inr, sym, ◌&&◌, ==_refl, if_second, if_first,
}
use javalette.Quadr.{
  Quadr, QuadrArg, qa_none, qa_var, qa_int, qa_double, qa_label, qa_str, qa_func, used_in_quadr,
  assigned_in_quadr, is_write, is_var,
}
use javalette.Flow.{
  VarSet, FlowData, compute_live_def_use, live_rounds, live_round, use_arg, use_result, update_live,
  define_var, not,
}

-- A position, counted from the quadruple before.
abbrev pub shifted : Option ℕ → Option ℕ
shifted none = none
shifted (some k) = some (suc k)

-- The position of the first quadruple that uses the variable, if none before it sets it.
abbrev pub first_use : List Quadr → ℕ → Option ℕ
first_use [] v = none
first_use (q ∷ qs) v =
    if used_in_quadr q v
    then some 0
    else if assigned_in_quadr q v
    then none
    else shifted (first_use qs v)

-- Whether a quadruple sets the variable before any uses it.
abbrev pub first_set : List Quadr → ℕ → Bool
first_set [] v = false
first_set (q ∷ qs) v =
    if used_in_quadr q v then false else if assigned_in_quadr q v then true else first_set qs v

abbrev pub is_some : Option ℕ → Bool
is_some none = false
is_some (some k) = true

-- The two orders in which the places of a quadruple are looked at.
cases_agree {ℓ} :
    {A : Type ℓ} (a1 a2 w r : Bool) (x y z : A)
    → (if a2 then x else if a1 then x else if r then if w then x else y else z)
      ≡ (if a1 || a2 || (w && r) then x else if not w && r then y else z)
cases_agree true true w r x y z = refl
cases_agree true false w r x y z = refl
cases_agree false true w r x y z = refl
cases_agree false false true true x y z = refl
cases_agree false false true false x y z = refl
cases_agree false false false true x y z = refl
cases_agree false false false false x y z = refl

or_true : (a b c : Bool) → c ≡ true → (a || b || c) ≡ true
or_true true b c e = refl
or_true false true c e = refl
or_true false false c e = e

not_assigned : (q : Quadr) (x : ℕ) → is_write q.op ≡ true → assigned_in_quadr q x ≡ false
not_assigned q x w = rw w refl

writes : (q : Quadr) (x : ℕ) → is_write q.op ≡ true → q.result ≡ qa_var x → used_in_quadr q x ≡ true
writes q x w e =
    or_true (is_var q.arg1 x) (is_var q.arg2 x) (is_write q.op && is_var q.result x)
      (rw (w, e) (==_refl x))

sets_result :
    (q : Quadr) (x : ℕ) → is_write q.op ≡ false → q.result ≡ qa_var x → assigned_in_quadr q x ≡ true
sets_result q x w e = rw (w, e) (==_refl x)

-- A distance is that of the position, counted from `i`.
abbrev pub Placed : Option ℕ → ℕ → ℕ → Type 0
Placed none i dist = Unit
Placed (some k) i dist = dist ≡ i + k

module _ {S : Type 0} ⦃sets : VarSet S⦄ where
  -- What the flow data say of a variable.
  pub record Says (fd : FlowData S) (v : ℕ) (set : Bool) (first : Option ℕ) (i : ℕ) : Type 0 where
    pub in_def : sets.member fd.live_def v ≡ set
    pub in_use : sets.member fd.live_in v ≡ is_some first
    pub at : Placed first i (fd.nearest_use_dist v)

  Says-shifted :
      (fd : FlowData S) (v : ℕ) (set : Bool) (first : Option ℕ) (i : ℕ)
      → Says fd v set first (suc i)
      → Says fd v set (shifted first) i
  Says-shifted fd v set none i h = record { in_def = h.in_def; in_use = h.in_use; at = tt }
  Says-shifted fd v set (some j) i h = record {
    in_def = h.in_def;
    in_use = h.in_use;
    at = omega (arith, h.at);
  }

  update_live-Says :
      (fd : FlowData S) (x v : ℕ) (set : Bool) (first : Option ℕ) (i : ℕ)
      → Says fd v set first i
      → Says
          (update_live fd x i)
          v
          (if x == v then false else set)
          (if x == v then some 0 else first)
          i
  update_live-Says fd x v set first i h = elim (Bool-cases (x == v)) [
    | inl e ↦ rw e (record {
      in_def = rw (sets.member-remove, e) refl;
      in_use = rw (sets.member-put, e) refl;
      at = rw e (omega arith);
    })
    | inr e ↦ rw e (record {
      in_def = rw (sets.member-remove, e) h.in_def;
      in_use = rw (sets.member-put, e) h.in_use;
      at = rw e h.at;
    })
  ]

  define_var-Says :
      (fd : FlowData S) (x v : ℕ) (set : Bool) (first : Option ℕ) (i : ℕ)
      → Says fd v set first i
      → Says (define_var fd x) v (if x == v then true else set) (if x == v then none else first) i
  define_var-Says fd x v set first i h = elim (Bool-cases (x == v)) [
    | inl e ↦ rw e (record {
      in_def = rw (sets.member-put, e) refl;
      in_use = rw (sets.member-remove, e) refl;
      at = tt;
    })
    | inr e ↦ rw e (record {
      in_def = rw (sets.member-put, e) h.in_def;
      in_use = rw (sets.member-remove, e) h.in_use;
      at = h.at;
    })
  ]

  use_arg-Says :
      (a : QuadrArg) (fd : FlowData S) (v : ℕ) (set : Bool) (first : Option ℕ) (i : ℕ)
      → Says fd v set first i
      → Says
          (use_arg a i fd)
          v
          (if is_var a v then false else set)
          (if is_var a v then some 0 else first)
          i
  use_arg-Says (qa_var x) fd v set first i h = update_live-Says fd x v set first i h
  use_arg-Says qa_none fd v set first i h = h
  use_arg-Says (qa_int n) fd v set first i h = h
  use_arg-Says (qa_double n) fd v set first i h = h
  use_arg-Says (qa_label n) fd v set first i h = h
  use_arg-Says (qa_str n) fd v set first i h = h
  use_arg-Says (qa_func n) fd v set first i h = h

  use_result-Says :
      (q : Quadr) (r : QuadrArg) (fd : FlowData S) (v : ℕ) (set : Bool) (first : Option ℕ) (i : ℕ)
      → q.result ≡ r
      → Says fd v set first i
      → Says
          (use_result q r i fd)
          v
          (if is_var r v then if is_write q.op then false else true else set)
          (if is_var r v then if is_write q.op then some 0 else none else first)
          i
  use_result-Says q (qa_var x) fd v set first i e h = elim (Bool-cases (is_write q.op)) [
    | inl w ↦
        let says = λ (fd' : FlowData S).
          Says fd' v (if x == v then if is_write q.op then false else true else set)
            (if x == v then if is_write q.op then some 0 else none else first) i in
        if_second says _ _ _ (not_assigned q x w)
          (if_first says _ _ _ (writes q x w e) (rw w (update_live-Says fd x v set first i h)))
    | inr w ↦
        let says = λ (fd' : FlowData S).
          Says fd' v (if x == v then if is_write q.op then false else true else set)
            (if x == v then if is_write q.op then some 0 else none else first) i in
        if_first says _ _ _ (sets_result q x w e) (rw w (define_var-Says fd x v set first i h))
  ]
  use_result-Says q qa_none fd v set first i e h = h
  use_result-Says q (qa_int n) fd v set first i e h = h
  use_result-Says q (qa_double n) fd v set first i e h = h
  use_result-Says q (qa_label n) fd v set first i e h = h
  use_result-Says q (qa_str n) fd v set first i e h = h
  use_result-Says q (qa_func n) fd v set first i e h = h

  live_round-Says :
      (q : Quadr) (fd : FlowData S) (v : ℕ) (set : Bool) (first : Option ℕ) (i : ℕ)
      → Says fd v set first (suc i)
      → Says
          (live_round q i fd)
          v
          (if used_in_quadr q v then false else if assigned_in_quadr q v then true else set)
          (if used_in_quadr q v
            then some 0
            else if assigned_in_quadr q v
            then none
            else shifted first)
          i
  live_round-Says q fd v set first i h =
      let a1 = is_var q.arg1 v in
      let a2 = is_var q.arg2 v in
      let r = is_var q.result v in
      let w = is_write q.op in
      rw
        (
          sym (cases_agree a1 a2 w r false true set),
          sym (cases_agree a1 a2 w r (some 0) none (shifted first)),
        )
        (use_arg-Says q.arg2 _ v _ _ i (
          use_arg-Says q.arg1 _ v _ _ i (
            use_result-Says q q.result fd v set (shifted first) i refl
              (Says-shifted fd v set first i h))))

  live_rounds-Says :
      (qs : List Quadr) (i v : ℕ) (fd : FlowData S)
      → Says fd v false none (i + length qs)
      → Says (live_rounds qs i fd) v (first_set qs v) (first_use qs v) i
  live_rounds-Says [] i v fd h = record { in_def = h.in_def; in_use = h.in_use; at = tt }
  live_rounds-Says (q ∷ qs) i v fd h =
      live_round-Says q (live_rounds qs (suc i) fd) v (first_set qs v) (first_use qs v) i (
        live_rounds-Says qs (suc i) v fd (record { in_def = h.in_def; in_use = h.in_use; at = tt }))

  -- For a block's code and a variable: `compute_live_def_use` has the variable in `live_def` when a
  -- quadruple sets it before any uses it, in `live_in` when a quadruple uses it before any sets it,
  -- and then `nearest_use_dist` is the position of the first such quadruple.
  pub compute_live_def_use-Says :
      (code : List Quadr) (v : ℕ)
      → Says (compute_live_def_use code) v (first_set code v) (first_use code v) 0
  unfolding compute_live_def_use
  compute_live_def_use-Says code v =
      live_rounds-Says code 0 v _
        (record { in_def = sets.member-empty v; in_use = sets.member-empty v; at = tt })
