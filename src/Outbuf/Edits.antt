-- ===== src/Outbuf/Edits.antt =====
-- src/outbuf.c: writes to the pointers at the two ends of a chain of lines.
use javalette.Prelude.{
  ℕ, ◌≡◌, refl, sym, ◌∙◌, subst, List, [], ◌∷◌, Option, none, some, All, Returns, Returns-imp,
  ◌>>=◌,
}
use javalette.Outbuf.{Line, Outbuf, store, set_next, set_prev, set_next_if, set_prev_if}
use javalette.Outbuf.Links.{
  Cell, first, last, Links, Avoids, Distinct, Links-store, store_other, store_same,
}

-- Only lines among the cells have changed, and neither the ends nor the count.
pub record Within (cs : List Cell) (buf b : Outbuf) : Type 0 where
  pub others : (c : ℕ) → Avoids c cs → b.lines c ≡ buf.lines c
  pub head : b.head ≡ buf.head
  pub tail : b.tail ≡ buf.tail
  pub allocated : b.allocated ≡ buf.allocated

-- A list is linked in any memory that has the same lines at its addresses.
pub Links-agree :
    (lines lines' : ℕ → Option Line) (p n : Option ℕ) (cs : List Cell)
    → All (λ c. lines' c.0 ≡ lines c.0) cs
    → Links lines p cs n
    → Links lines' p cs n
Links-agree lines lines' p n [] h k = tt
Links-agree lines lines' p n (c ∷ cs) h k =
    (h.0 ∙ k.0, Links-agree lines lines' (some c.0) n cs h.1 k.1)

set_prev-Within :
    (buf : Outbuf) (c : Cell) (cs : List Cell) (p n v : Option ℕ)
    → Links buf.lines p (c ∷ cs) n
    → Distinct (c ∷ cs)
    → Returns (λ b. Links b.lines v (c ∷ cs) n × Within (c ∷ cs) buf b) (set_prev c.0 v buf)
set_prev-Within buf c cs p n v h d =
    subst
      (λ o.
        Returns (λ b. Links b.lines v (c ∷ cs) n × Within (c ∷ cs) buf b)
          (o >>= λ l.
            some (record buf { lines = store buf.lines c.0 (some (record l { prev = v })) })))
      (sym h.0)
      (
        (store_same buf.lines c.0 _, Links-store buf.lines (some c.0) n cs c.0 _ d.0 h.1),
        record {
          others = λ a av. store_other buf.lines c.0 a _ (λ e. av.0 (sym e));
          head = refl;
          tail = refl;
          allocated = refl;
        },
      )

-- `next->prev = v` for the line after a place in the list.
pub set_prev_if-Within :
    (buf : Outbuf) (cs : List Cell) (p v : Option ℕ)
    → Links buf.lines p cs none
    → Distinct cs
    → Returns (λ b. Links b.lines v cs none × Within cs buf b) (set_prev_if (first cs none) v buf)
set_prev_if-Within buf [] p v h d =
    (tt, record { others = λ c av. refl; head = refl; tail = refl; allocated = refl })
set_prev_if-Within buf (c ∷ cs) p v h d = set_prev-Within buf c cs p none v h d

set_next-Within :
    (buf : Outbuf) (c : Cell) (p n v : Option ℕ)
    → Links buf.lines p (c ∷ []) n
    → Returns (λ b. Links b.lines p (c ∷ []) v × Within (c ∷ []) buf b) (set_next c.0 v buf)
set_next-Within buf c p n v h =
    subst
      (λ o.
        Returns (λ b. Links b.lines p (c ∷ []) v × Within (c ∷ []) buf b)
          (o >>= λ l.
            some (record buf { lines = store buf.lines c.0 (some (record l { next = v })) })))
      (sym h.0)
      (
        (store_same buf.lines c.0 _, tt),
        record {
          others = λ a av. store_other buf.lines c.0 a _ (λ e. av.0 (sym e));
          head = refl;
          tail = refl;
          allocated = refl;
        },
      )

-- The same for the last of several lines.
set_next_last-Within :
    (buf : Outbuf) (c : Cell) (cs : List Cell) (p n v : Option ℕ)
    → Links buf.lines p (c ∷ cs) n
    → Distinct (c ∷ cs)
    → Returns
        (λ b. Links b.lines p (c ∷ cs) v × Within (c ∷ cs) buf b)
        (set_next_if (last p (c ∷ cs)) v buf)
set_next_last-Within buf c [] p n v h d = set_next-Within buf c p n v h
set_next_last-Within buf c (e ∷ cs) p n v h d =
    Returns-imp (λ b. Links b.lines (some c.0) (e ∷ cs) v × Within (e ∷ cs) buf b)
      (λ b. Links b.lines p (c ∷ e ∷ cs) v × Within (c ∷ e ∷ cs) buf b) _
      (λ b k. (
        (k.1.others c.0 d.0 ∙ h.0, k.0),
        record {
          others = λ a av. k.1.others a av.1;
          head = k.1.head;
          tail = k.1.tail;
          allocated = k.1.allocated;
        },
      ))
      (set_next_last-Within buf e cs (some c.0) n v h.1 d.1)

-- `prev->next = v` for the line before a place in the list.
pub set_next_if-Within :
    (buf : Outbuf) (cs : List Cell) (n v : Option ℕ)
    → Links buf.lines none cs n
    → Distinct cs
    → Returns (λ b. Links b.lines none cs v × Within cs buf b) (set_next_if (last none cs) v buf)
set_next_if-Within buf [] n v h d =
    (tt, record { others = λ c av. refl; head = refl; tail = refl; allocated = refl })
set_next_if-Within buf (c ∷ cs) n v h d = set_next_last-Within buf c cs none n v h d
