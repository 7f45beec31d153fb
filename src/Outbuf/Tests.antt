-- ===== src/Outbuf/Tests.antt =====
-- src/outbuf.c: a buffer of two lines, edited through the theorems.
use javalette.Outbuf.Appending.{do_appendln-IsList}
use javalette.Prelude.{ℕ, ◌≡◌, refl, List, [], ◌∷◌, none, some, Returns, arith}
use javalette.Outbuf.{Outbuf, store, do_insertln, removeln, true, do_appendln}
use javalette.Outbuf.Links.{Cell}
use javalette.Outbuf.Cells.{IsList}
use javalette.Outbuf.Insertion.{do_insertln-IsList}
use javalette.Outbuf.Removal.{removeln-IsList}
use javalette.Outbuf.Text.{split_lines, changeln, Inserted, changeln-Inserted, short_lines}

-- "ab" at address 0 and "c" at address 1.
abbrev two_lines : Outbuf
two_lines = record {
  head = some 0;
  tail = some 1;
  lines =
      store (store (λ _. none) 0 (some (record { prev = none; next = some 1; str = 97 ∷ 98 ∷ [] })))
        1 (some (record { prev = some 0; next = none; str = 99 ∷ [] }));
  allocated = 2;
}

abbrev ab : Cell
ab = (0, 97 ∷ 98 ∷ [])

abbrev c : Cell
c = (1, 99 ∷ [])

two_lines-IsList : IsList two_lines (ab ∷ c ∷ [])
two_lines-IsList = record {
  links = (refl, (refl, tt));
  distinct = (((λ e. omega arith), tt), (tt, tt));
  fresh = (omega arith, (omega arith, tt));
  head = refl;
  tail = refl;
}

do_insertln-IsList_example :
    Returns
      (λ b. IsList b (ab ∷ (2, 100 ∷ []) ∷ c ∷ []))
      (do_insertln (some 0) (100 ∷ []) two_lines)
do_insertln-IsList_example =
    do_insertln-IsList (100 ∷ []) two_lines (ab ∷ []) (c ∷ []) two_lines-IsList

removeln-IsList_example : Returns (λ b. IsList b (c ∷ [])) (removeln 0 two_lines)
removeln-IsList_example = removeln-IsList two_lines [] (c ∷ []) ab two_lines-IsList

-- "d\n\ne"
abbrev text : List ℕ
text = 100 ∷ 10 ∷ 10 ∷ 101 ∷ []

text_lines : split_lines text ≡ (100 ∷ []) ∷ [] ∷ (101 ∷ []) ∷ []
unfolding split_lines
text_lines = refl

short_text : short_lines (split_lines text) ≡ true
unfolding split_lines
short_text = refl

changeln-Inserted_example :
    Returns (Inserted (ab ∷ []) (split_lines text) []) (changeln 1 text two_lines)
changeln-Inserted_example =
    changeln-Inserted text two_lines (ab ∷ []) [] c short_text two_lines-IsList

do_appendln-IsList_example :
    Returns (λ b. IsList b (ab ∷ c ∷ (2, 100 ∷ []) ∷ [])) (do_appendln (100 ∷ []) two_lines)
do_appendln-IsList_example = do_appendln-IsList (100 ∷ []) two_lines (ab ∷ c ∷ []) two_lines-IsList
