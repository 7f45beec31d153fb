-- ===== src/Outbuf/Removal.antt =====
-- src/outbuf.c: `removeln` on a buffer that holds a list of lines.
use javalette.Prelude.{
  ℕ, ◌<◌, ◌≡◌, ◌≢◌, refl, sym, ap, ◌∙◌, subst, List, [], ◌∷◌, ◌++◌, Option, none, some, All,
  Returns, Returns-bind, ◌>>=◌, if◌then◌else◌, if_elim, Bool-cases, inl, inr, true, false, ◌==◌,
  ==_iff, All-split, All-append,
}
use javalette.Outbuf.{
  Outbuf, store, set_prev_if, set_next_if, move_tail, move_head, removeln, same_pointer, Bool,
}
use javalette.Outbuf.Links.{
  Cell, first, last, Links, Avoids, Links-store, Links-append, Links-split, first-append,
}
use javalette.Outbuf.Edits.{Within, Links-agree, set_prev_if-Within, set_next_if-Within}
use javalette.Outbuf.Cells.{
  IsList, Apart, Apart-sym, All-imp, Distinct-split, Distinct-append, last-Avoids, last-append,
  same_pointer_refl,
}
use javalette.Outbuf.Insertion.{move_tail_keeps, move_tail-true, move_tail-false}

move_head_keeps :
    (line v : Option ℕ) (buf : Outbuf)
    → ((move_head line v buf).lines ≡ buf.lines)
      × ((move_head line v buf).tail ≡ buf.tail)
      × ((move_head line v buf).allocated ≡ buf.allocated)
move_head_keeps line v buf =
    if_elim
      (λ (b : Outbuf). (b.lines ≡ buf.lines) × (b.tail ≡ buf.tail) × (b.allocated ≡ buf.allocated))
      (same_pointer buf.head line) _ _ (refl, refl, refl) (refl, refl, refl)

move_head-at :
    (line v : Option ℕ) (buf : Outbuf) (b : Bool)
    → same_pointer buf.head line ≡ b
    → (move_head line v buf).head ≡ (if b then v else buf.head)
move_head-at line v buf true e =
    ap (λ b. Outbuf.head (if b then record buf { head = v } else buf)) e
move_head-at line v buf false e =
    ap (λ b. Outbuf.head (if b then record buf { head = v } else buf)) e

unequal : (a b : ℕ) → a ≢ b → (b == a) ≡ false
unequal a b h = elim (Bool-cases (b == a)) [
  | inl q ↦ absurd (h (sym ((==_iff b a).0 q)))
  | inr q ↦ q
]

-- The first line moves exactly if it is the one that goes.
head_moved :
    (buf : Outbuf) (xs ys : List Cell) (c : Cell)
    → Apart xs (c ∷ ys)
    → buf.head ≡ first xs (some c.0)
    → (move_head (some c.0) (first ys none) buf).head ≡ first xs (first ys none)
head_moved buf [] ys c h e =
    move_head-at (some c.0) (first ys none) buf true
      (ap (λ o. same_pointer o (some c.0)) e ∙ same_pointer_refl (some c.0))
head_moved buf (x ∷ xs) ys c h e =
    move_head-at (some c.0) (first ys none) buf false
      (ap (λ o. same_pointer o (some c.0)) e ∙ unequal c.0 x.0 h.0.0)
    ∙ e

tail_moved :
    (buf : Outbuf) (p : Option ℕ) (ys : List Cell) (a : ℕ)
    → Avoids a ys
    → buf.tail ≡ last (some a) ys
    → (move_tail (some a) p buf).tail ≡ last p ys
tail_moved buf p [] a h e =
    move_tail-true (some a) p buf (ap (same_pointer (some a)) e ∙ same_pointer_refl (some a))
tail_moved buf p (y ∷ ys) a h e =
    move_tail-false (some a) p buf (ap (same_pointer (some a)) e ∙ last-Avoids a (some a) y ys h)
    ∙ e

-- The end of `removeln`, when the neighbours are linked to each other.
abbrev freed : ℕ → Option ℕ → Option ℕ → Outbuf → Outbuf
freed a prev next buf =
    let buf3 = move_tail (some a) prev (move_head (some a) next buf) in
    record buf3 { lines = store buf3.lines a none }

freed-IsList :
    (buf b : Outbuf) (xs ys : List Cell) (c : Cell)
    → IsList buf (xs ++ (c ∷ ys))
    → Links b.lines none xs (first ys none)
    → Links b.lines (last none xs) ys none
    → b.head ≡ buf.head
    → b.tail ≡ buf.tail
    → b.allocated ≡ buf.allocated
    → IsList (freed c.0 (last none xs) (first ys none) b) (xs ++ ys)
freed-IsList buf b xs ys c h hx hy head tail allocated =
    let parts = Distinct-split xs (c ∷ ys) h.distinct in
    let apart : Apart xs ys = All-imp _ _ xs (λ x (av : Avoids x.0 (c ∷ ys)). av.1) parts.2 in
    let fresh = All-split (λ c. c.0 < buf.allocated) xs (c ∷ ys) h.fresh in
    let b1 = move_head (some c.0) (first ys none) b in
    let b2 = move_tail (some c.0) (last none xs) b1 in
    let k1 = move_head_keeps (some c.0) (first ys none) b in
    let k2 = move_tail_keeps (some c.0) (last none xs) b1 in
    let lines : b2.lines ≡ b.lines = k2.0 ∙ k1.0 in
    let count : b2.allocated ≡ buf.allocated = k2.2 ∙ k1.2 ∙ allocated in
    let gone : Avoids c.0 xs =
      All-imp _ _ xs (λ x (av : Avoids x.0 (c ∷ ys)) e. av.0 (sym e)) parts.2 in
    record {
      links =
          Links-append (store b2.lines c.0 none) none none xs ys
            (Links-store b2.lines none (first ys none) xs c.0 none gone
              (subst (λ f. Links f none xs (first ys none)) (sym lines) hx))
            (Links-store b2.lines (last none xs) none ys c.0 none parts.1.0
              (subst (λ f. Links f (last none xs) ys none) (sym lines) hy));
      distinct = Distinct-append xs ys parts.0 parts.1.1 apart;
      fresh =
          subst (λ n. All (λ c. c.0 < n) (xs ++ ys)) (sym count)
            (All-append (λ c. c.0 < buf.allocated) xs ys fresh.0 fresh.1.1);
      head =
          k2.1
          ∙ head_moved b xs ys c parts.2 (head ∙ h.head ∙ first-append xs (c ∷ ys) none)
          ∙ sym (first-append xs ys none);
      tail =
          tail_moved b1 (last none xs) ys c.0 parts.1.0
            (k1.1 ∙ tail ∙ h.tail ∙ last-append none xs (c ∷ ys))
          ∙ sym (last-append none xs ys);
    }

-- On a buffer that holds a list of lines, `removeln` of one of them succeeds, and the buffer then
-- holds the lines before it and the lines after it.
pub removeln-IsList :
    (buf : Outbuf) (xs ys : List Cell) (c : Cell)
    → IsList buf (xs ++ (c ∷ ys))
    → Returns (λ b. IsList b (xs ++ ys)) (removeln c.0 buf)
unfolding removeln
removeln-IsList buf xs ys c h =
    let parts = Distinct-split xs (c ∷ ys) h.distinct in
    let apart : Apart xs ys = All-imp _ _ xs (λ x (av : Avoids x.0 (c ∷ ys)). av.1) parts.2 in
    let linked = Links-split buf.lines none none xs (c ∷ ys) h.links in
    let P : Outbuf → Type 0 = λ b. IsList b (xs ++ ys) in
    subst
      (λ o. Returns P (
        o >>= λ l. set_next_if l.prev l.next buf >>= λ b1.
        set_prev_if l.next l.prev b1 >>= λ b2. some (freed c.0 l.prev l.next b2)))
      (sym linked.1.0)
      (Returns-bind (λ b. Links b.lines none xs (first ys none) × Within xs buf b) P _ _
        (set_next_if-Within buf xs (some c.0) (first ys none) linked.0 parts.0)
        (λ b1 k.
          Returns-bind (λ b. Links b.lines (last none xs) ys none × Within ys b1 b) P _ _
            (set_prev_if-Within b1 ys (some c.0) (last none xs)
              (Links-agree buf.lines b1.lines (some c.0) none ys
                (All-imp _ _ ys (λ y av. k.1.others y.0 av) (Apart-sym xs ys apart)) linked.1.1)
              parts.1.1)
            (λ b2 q.
              freed-IsList buf b2 xs ys c h
                (Links-agree b1.lines b2.lines none (first ys none) xs
                  (All-imp _ _ xs (λ x av. q.1.others x.0 av) apart) k.0)
                q.0 (q.1.head ∙ k.1.head) (q.1.tail ∙ k.1.tail) (q.1.allocated ∙ k.1.allocated))))
