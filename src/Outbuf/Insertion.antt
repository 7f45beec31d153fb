-- ===== src/Outbuf/Insertion.antt =====
-- src/outbuf.c: `do_insertln` on a buffer that holds a list of lines.
use javalette.Prelude.{
  ℕ, suc, ◌<◌, ◌≡◌, refl, sym, ap, ◌∙◌, subst, List, [], ◌∷◌, ◌++◌, Option, none, some, Returns,
  Returns-bind, Returns-imp, ◌>>=◌, if◌then◌else◌, if_elim, arith, All-split, All-append,
}
use javalette.Outbuf.{
  Line, Outbuf, store, set_prev_if, link_after, move_tail, allocate, do_insertln, same_pointer,
  false, true,
}
use javalette.Outbuf.Links.{
  Cell, first, last, Links, Avoids, Distinct, Links-store, Links-append, Links-split, store_other,
  store_same, first-append,
}
use javalette.Outbuf.Edits.{Within, Links-agree, set_prev_if-Within}
use javalette.Outbuf.Cells.{
  IsList, Apart, Apart-sym, All-imp, Distinct-split, Distinct-append, Avoids-fresh, last-Apart,
  last-none, last-append, same_pointer_refl, All-and,
}

-- After `line->next`, or `buf->head`, has been set: the old value, and the lines up to there linked
-- to the new one.
pub record Linked (nl : ℕ) (n : Option ℕ) (xs : List Cell) (buf : Outbuf) (r : Option ℕ × Outbuf)
    : Type 0 where
  pub old : r.0 ≡ n
  pub links : Links r.1.lines none xs (some nl)
  pub others : (c : ℕ) → Avoids c xs → r.1.lines c ≡ buf.lines c
  pub head : r.1.head ≡ first xs (some nl)
  pub tail : r.1.tail ≡ buf.tail
  pub allocated : r.1.allocated ≡ buf.allocated

abbrev LinkedFrom : ℕ → Option ℕ → Option ℕ → List Cell → Outbuf → Option ℕ × Outbuf → Type 0
LinkedFrom nl p n xs buf r = (r.0 ≡ n) × Links r.1.lines p xs (some nl) × Within xs buf r.1

link_last :
    (nl : ℕ) (buf : Outbuf) (c : Cell) (cs : List Cell) (p n : Option ℕ)
    → Links buf.lines p (c ∷ cs) n
    → Distinct (c ∷ cs)
    → Returns (LinkedFrom nl p n (c ∷ cs) buf) (link_after (last p (c ∷ cs)) nl buf)
link_last nl buf c [] p n h d =
    let P = LinkedFrom nl p n (c ∷ []) buf in
    let next : Line → Outbuf =
      λ l. record buf { lines = store buf.lines c.0 (some (record l { next = some nl })) } in
    subst (λ o. Returns P (o >>= λ l. (o >>= λ k. some (next k)) >>= λ b. some (l.next, b)))
      (sym h.0)
      (
        refl,
        (store_same buf.lines c.0 _, tt),
        record {
          others = λ a av. store_other buf.lines c.0 a _ (λ e. av.0 (sym e));
          head = refl;
          tail = refl;
          allocated = refl;
        },
      )
link_last nl buf c (e ∷ cs) p n h d =
    Returns-imp (LinkedFrom nl (some c.0) n (e ∷ cs) buf) (LinkedFrom nl p n (c ∷ e ∷ cs) buf) _
      (λ r k. (
        k.0,
        (k.2.others c.0 d.0 ∙ h.0, k.1),
        record {
          others = λ a av. k.2.others a av.1;
          head = k.2.head;
          tail = k.2.tail;
          allocated = k.2.allocated;
        },
      ))
      (link_last nl buf e cs (some c.0) n h.1 d.1)

link_after-Linked :
    (nl : ℕ) (buf : Outbuf) (xs ys : List Cell)
    → Links buf.lines none xs (first ys none)
    → Distinct xs
    → buf.head ≡ first (xs ++ ys) none
    → Returns (Linked nl (first ys none) xs buf) (link_after (last none xs) nl buf)
link_after-Linked nl buf [] ys h d e = record {
  old = e;
  links = tt;
  others = λ c av. refl;
  head = refl;
  tail = refl;
  allocated = refl;
}
link_after-Linked nl buf (x ∷ xs) ys h d e =
    Returns-imp (LinkedFrom nl none (first ys none) (x ∷ xs) buf)
      (Linked nl (first ys none) (x ∷ xs) buf) _
      (λ r k. record {
        old = k.0;
        links = k.1;
        others = k.2.others;
        head = k.2.head ∙ e;
        tail = k.2.tail;
        allocated = k.2.allocated;
      })
      (link_last nl buf x xs none (first ys none) h d)

pub move_tail_keeps :
    (line v : Option ℕ) (buf : Outbuf)
    → ((move_tail line v buf).lines ≡ buf.lines)
      × ((move_tail line v buf).head ≡ buf.head)
      × ((move_tail line v buf).allocated ≡ buf.allocated)
move_tail_keeps line v buf =
    if_elim
      (λ (b : Outbuf). (b.lines ≡ buf.lines) × (b.head ≡ buf.head) × (b.allocated ≡ buf.allocated))
      (same_pointer line buf.tail) _ _ (refl, refl, refl) (refl, refl, refl)

pub move_tail-true :
    (line v : Option ℕ) (buf : Outbuf)
    → same_pointer line buf.tail ≡ true
    → (move_tail line v buf).tail ≡ v
move_tail-true line v buf e = ap (λ b. Outbuf.tail (if b then record buf { tail = v } else buf)) e

pub move_tail-false :
    (line v : Option ℕ) (buf : Outbuf)
    → same_pointer line buf.tail ≡ false
    → (move_tail line v buf).tail ≡ buf.tail
move_tail-false line v buf e = ap (λ b. Outbuf.tail (if b then record buf { tail = v } else buf)) e

last-differs :
    (xs : List Cell) (y : Cell) (ys : List Cell) (q : Option ℕ)
    → Apart xs (y ∷ ys)
    → same_pointer (last none xs) (last q (y ∷ ys)) ≡ false
last-differs [] y ys q h = last-none q y ys
last-differs (x ∷ xs) y ys q h = last-Apart none x xs y ys q h

-- The new line is the last exactly if nothing follows it.
move_tail-last :
    (nl : ℕ) (buf : Outbuf) (xs ys : List Cell)
    → Apart xs ys
    → buf.tail ≡ last (last none xs) ys
    → (move_tail (last none xs) (some nl) buf).tail ≡ last (some nl) ys
move_tail-last nl buf xs [] h e =
    move_tail-true (last none xs) (some nl) buf
      (ap (same_pointer (last none xs)) e ∙ same_pointer_refl (last none xs))
move_tail-last nl buf xs (y ∷ ys) h e =
    move_tail-false (last none xs) (some nl) buf
      (ap (same_pointer (last none xs)) e ∙ last-differs xs y ys (last none xs) h)
    ∙ e

-- Where the new line is in memory, linked to the two parts, and the pointer back to it is set.
assembled :
    (str : List ℕ) (buf b2 b : Outbuf) (xs ys : List Cell)
    → IsList buf (xs ++ ys)
    → Links b2.lines none xs (some buf.allocated)
    → b2.lines buf.allocated
      ≡ some (record { prev = last none xs; next = first ys none; str = str })
    → b2.head ≡ first xs (some buf.allocated)
    → b2.tail ≡ last (some buf.allocated) ys
    → b2.allocated ≡ suc buf.allocated
    → Links b.lines (some buf.allocated) ys none
    → Within ys b2 b
    → IsList b (xs ++ ((buf.allocated, str) ∷ ys))
assembled str buf b2 b xs ys h hx cell head tail allocated hy w =
    let new : Cell = (buf.allocated, str) in
    let parts = Distinct-split xs ys h.distinct in
    let fresh = All-split (λ c. c.0 < buf.allocated) xs ys h.fresh in
    let count : b.allocated ≡ suc buf.allocated = w.allocated ∙ allocated in
    record {
      links =
          Links-append b.lines none none xs (new ∷ ys)
            (Links-agree b2.lines b.lines none (some buf.allocated) xs
              (All-imp _ _ xs (λ x av. w.others x.0 av) parts.2) hx)
            (w.others buf.allocated (Avoids-fresh buf.allocated ys fresh.1) ∙ cell, hy);
      distinct =
          Distinct-append xs (new ∷ ys) parts.0 (Avoids-fresh buf.allocated ys fresh.1, parts.1)
            (All-imp (λ x. (x.0 < buf.allocated) × Avoids x.0 ys) (λ x. Avoids x.0 (new ∷ ys)) xs
              (λ x k. ((λ e. let l = k.0 in omega arith), k.1)) (All-and _ _ xs fresh.0 parts.2));
      fresh =
          All-append (λ c. c.0 < b.allocated) xs (new ∷ ys)
            (All-imp _ _ xs (λ c (l : c.0 < buf.allocated). omega arith) fresh.0)
            (omega arith, All-imp _ _ ys (λ c (l : c.0 < buf.allocated). omega arith) fresh.1);
      head = w.head ∙ head ∙ sym (first-append xs (new ∷ ys) none);
      tail = w.tail ∙ tail ∙ sym (last-append none xs (new ∷ ys));
    }

-- The new line is in memory and the pointer to it is set; `set_prev_if` is left to do.
prepared :
    (str : List ℕ) (buf : Outbuf) (xs ys : List Cell) (r : Option ℕ × Outbuf)
    → IsList buf (xs ++ ys)
    → Linked buf.allocated (first ys none) xs buf r
    → Returns
        (λ b. IsList b (xs ++ ((buf.allocated, str) ∷ ys)))
        (set_prev_if r.0 (some buf.allocated) (
          move_tail
            (last none xs)
            (some buf.allocated)
            (allocate (record { prev = last none xs; next = r.0; str = str }) r.1)))
prepared str buf xs ys r h k =
    let nl = buf.allocated in
    let l : Line = record { prev = last none xs; next = r.0; str = str } in
    let b1 = allocate l r.1 in
    let b2 = move_tail (last none xs) (some nl) b1 in
    let keeps = move_tail_keeps (last none xs) (some nl) b1 in
    let memory = store r.1.lines nl (some l) in
    let lines : b2.lines ≡ memory = keeps.0 ∙ ap (λ a. store r.1.lines a (some l)) k.allocated in
    let parts = Distinct-split xs ys h.distinct in
    let linked = Links-split buf.lines none none xs ys h.links in
    let fresh = All-split (λ c. c.0 < nl) xs ys h.fresh in
    let hx : Links b2.lines none xs (some nl) =
      subst (λ f. Links f none xs (some nl)) (sym lines)
        (Links-store r.1.lines none (some nl) xs nl (some l) (Avoids-fresh nl xs fresh.0)
          k.links) in
    let hy : Links b2.lines (last none xs) ys none =
      subst (λ f. Links f (last none xs) ys none) (sym lines)
        (Links-store r.1.lines (last none xs) none ys nl (some l) (Avoids-fresh nl ys fresh.1) (
          Links-agree buf.lines r.1.lines (last none xs) none ys
            (All-imp _ _ ys (λ y av. k.others y.0 av) (Apart-sym xs ys parts.2)) linked.1)) in
    let cell : b2.lines nl
        ≡ some (record { prev = last none xs; next = first ys none; str = str }) =
      ap (λ f. f nl) lines
      ∙ store_same r.1.lines nl (some l)
      ∙ ap (λ o. some (record { prev = last none xs; next = o; str = str })) k.old in
    subst (λ o. Returns (λ b. IsList b (xs ++ ((nl, str) ∷ ys))) (set_prev_if o (some nl) b2))
      (sym k.old)
      (Returns-imp (λ b. Links b.lines (some nl) ys none × Within ys b2 b)
        (λ b. IsList b (xs ++ ((nl, str) ∷ ys))) _
        (λ b q.
          assembled str buf b2 b xs ys h hx cell (keeps.1 ∙ k.head)
            (move_tail-last nl b1 xs ys parts.2 (k.tail ∙ h.tail ∙ last-append none xs ys))
            (keeps.2 ∙ ap (λ a. suc a) k.allocated) q.0 q.1)
        (set_prev_if-Within b2 ys (last none xs) (some nl) hy parts.1))

-- On a buffer that holds a list of lines, `do_insertln` after the last line of a first part, or
-- before all lines if that part is empty, succeeds, and the buffer then holds the first part, the
-- new line and the rest.
pub do_insertln-IsList :
    (str : List ℕ) (buf : Outbuf) (xs ys : List Cell)
    → IsList buf (xs ++ ys)
    → Returns
        (λ b. IsList b (xs ++ ((buf.allocated, str) ∷ ys)))
        (do_insertln (last none xs) str buf)
unfolding do_insertln
do_insertln-IsList str buf xs ys h =
    let parts = Distinct-split xs ys h.distinct in
    Returns-bind (Linked buf.allocated (first ys none) xs buf)
      (λ b. IsList b (xs ++ ((buf.allocated, str) ∷ ys))) _ _
      (link_after-Linked buf.allocated buf xs ys (Links-split buf.lines none none xs ys h.links).0
        parts.0 h.head)
      (λ r k. prepared str buf xs ys r h k)
