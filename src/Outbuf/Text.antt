-- ===== src/Outbuf/Text.antt =====
-- src/outbuf.c: `insertln` and `changeln`, whose string may hold several lines.
use javalette.Prelude.{
  ℕ, ◌≡◌, refl, sym, ap, subst, List, [], ◌∷◌, ◌++◌, map, append_assoc, Bool, true, ◌&&◌, Option,
  none, some, Returns, Returns-bind, Returns-imp, Returns-assert, ◌>>=◌, ◌>>◌, assert,
  if◌then◌else◌, leb, length, ◌==◌,
}
use javalette.Outbuf.{Outbuf, do_insertln, removeln}
use javalette.Outbuf.Links.{Cell, last, Links-split}
use javalette.Outbuf.Cells.{IsList, last-append}
use javalette.Outbuf.Insertion.{do_insertln-IsList}
use javalette.Outbuf.Removal.{removeln-IsList}

abbrev pub newline : ℕ
newline = 10

abbrev pub push : ℕ → List (List ℕ) → List (List ℕ)
push c [] = (c ∷ []) ∷ []
push c (l ∷ ls) = (c ∷ l) ∷ ls

-- The lines of the loop in `FOR_ALL_LINES`: where a line starts, and inside a line.
unfoldable mutual
  pub split_lines : List ℕ → List (List ℕ)
  split_lines [] = []
  split_lines (c ∷ str) =
      let here = split_lines str in
      let on = rest_of_line str in if c == newline then [] ∷ here else push c on

  pub rest_of_line : List ℕ → List (List ℕ)
  rest_of_line [] = [] ∷ []
  rest_of_line (c ∷ str) =
      let here = split_lines str in
      let on = rest_of_line str in if c == newline then [] ∷ here else push c on

-- `MAX_LINE_LEN`
abbrev pub short_lines : List (List ℕ) → Bool
short_lines [] = true
short_lines (l ∷ ls) = leb (length l) 512 && short_lines ls

-- Each new line is the `line` of the next round.
unfoldable pub insert_lines : Option ℕ → List (List ℕ) → Outbuf → Option Outbuf
insert_lines line [] buf = some buf
insert_lines line (l ∷ ls) buf = do_insertln line l buf >>= insert_lines (some buf.allocated) ls

unfoldable pub insertln : Option ℕ → List ℕ → Outbuf → Option Outbuf
insertln line str buf =
    assert (short_lines (split_lines str)) >> insert_lines line (split_lines str) buf

unfoldable pub changeln : ℕ → List ℕ → Outbuf → Option Outbuf
changeln a str buf = buf.lines a >>= λ l. removeln a buf >>= insertln l.prev str

-- New lines with these strings stand between the two parts.
abbrev pub Inserted : List Cell → List (List ℕ) → List Cell → Outbuf → Type 0
Inserted xs ls ys b = (new : List Cell) × (map (λ c. c.1) new ≡ ls) × IsList b (xs ++ (new ++ ys))

insert_lines-Inserted :
    (ls : List (List ℕ)) (buf : Outbuf) (xs ys : List Cell)
    → IsList buf (xs ++ ys)
    → Returns (Inserted xs ls ys) (insert_lines (last none xs) ls buf)
unfolding insert_lines
insert_lines-Inserted [] buf xs ys h = ([], refl, h)
insert_lines-Inserted (l ∷ ls) buf xs ys h =
    let cell : Cell = (buf.allocated, l) in
    Returns-bind (λ b. IsList b (xs ++ (cell ∷ ys))) (Inserted xs (l ∷ ls) ys) _ _
      (do_insertln-IsList l buf xs ys h)
      (λ b k.
        Returns-imp (Inserted (xs ++ (cell ∷ [])) ls ys) (Inserted xs (l ∷ ls) ys) _
          (λ b' (new, strings, i). (
            cell ∷ new,
            ap (λ ss. l ∷ ss) strings,
            subst (IsList b') (append_assoc xs (cell ∷ []) (new ++ ys)) i,
          ))
          (subst (λ o. Returns (Inserted (xs ++ (cell ∷ [])) ls ys) (insert_lines o ls b))
            (last-append none xs (cell ∷ []))
            (insert_lines-Inserted ls b (xs ++ (cell ∷ [])) ys
              (subst (IsList b) (sym (append_assoc xs (cell ∷ []) ys)) k))))

insertln-Inserted :
    (str : List ℕ) (buf : Outbuf) (xs ys : List Cell)
    → short_lines (split_lines str) ≡ true
    → IsList buf (xs ++ ys)
    → Returns (Inserted xs (split_lines str) ys) (insertln (last none xs) str buf)
unfolding insertln
insertln-Inserted str buf xs ys e h =
    Returns-assert (Inserted xs (split_lines str) ys) (short_lines (split_lines str)) _ e
      (insert_lines-Inserted (split_lines str) buf xs ys h)

-- On a buffer that holds a list of lines, and for a string whose lines have at most 512 bytes,
-- `changeln` succeeds and puts the lines of the string in place of the line, in their order.
pub changeln-Inserted :
    (str : List ℕ) (buf : Outbuf) (xs ys : List Cell) (c : Cell)
    → short_lines (split_lines str) ≡ true
    → IsList buf (xs ++ (c ∷ ys))
    → Returns (Inserted xs (split_lines str) ys) (changeln c.0 str buf)
unfolding changeln
changeln-Inserted str buf xs ys c e h =
    let linked = Links-split buf.lines none none xs (c ∷ ys) h.links in
    subst
      (λ o.
        Returns (Inserted xs (split_lines str) ys)
          (o >>= λ l. removeln c.0 buf >>= insertln l.prev str))
      (sym linked.1.0)
      (Returns-bind (λ b. IsList b (xs ++ ys)) (Inserted xs (split_lines str) ys) _ _
        (removeln-IsList buf xs ys c h) (λ b k. insertln-Inserted str b xs ys e k))
