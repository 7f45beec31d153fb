-- ===== src/Outbuf/Appending.antt =====
-- src/outbuf.c: `do_appendln` on a buffer that holds a list of lines.
use javalette.Prelude.{
  ℕ, suc, ◌<◌, ◌≡◌, ◌≢◌, refl, sym, ◌∙◌, subst, List, [], ◌∷◌, ◌++◌, Option, none, some, Returns,
  Returns-bind, ◌>>=◌, arith, All-append,
}
use javalette.Outbuf.{Line, Outbuf, set_next_if, append_to, allocate, do_appendln}
use javalette.Outbuf.Links.{Cell, first, last, Links, Links-store, Links-append, store_same}
use javalette.Outbuf.Edits.{Within, set_next_if-Within}
use javalette.Outbuf.Cells.{IsList, All-imp, Distinct-append, Avoids-fresh, last-append}

abbrev end_at : ℕ → Outbuf → Option Outbuf
end_at nl buf = some (record buf { tail = some nl })

append_to-last :
    (nl : ℕ) (buf : Outbuf) (p : Option ℕ) (c : Cell) (cs : List Cell)
    → append_to (last p (c ∷ cs)) nl buf
      ≡ (set_next_if (last p (c ∷ cs)) (some nl) buf >>= end_at nl)
append_to-last nl buf p c [] = refl
append_to-last nl buf p c (d ∷ cs) = append_to-last nl buf (some c.0) d cs

-- The last line is linked to the new one.
appended-IsList :
    (str : List ℕ) (buf b1 b : Outbuf) (cs : List Cell)
    → IsList buf cs
    → b1.lines buf.allocated ≡ some (record { prev = last none cs; next = none; str = str })
    → b1.head ≡ first (cs ++ ((buf.allocated, str) ∷ [])) none
    → b1.allocated ≡ suc buf.allocated
    → Links b.lines none cs (some buf.allocated)
    → Within cs b1 b
    → IsList (record b { tail = some buf.allocated }) (cs ++ ((buf.allocated, str) ∷ []))
appended-IsList str buf b1 b cs h cell head allocated links w =
    let new : Cell = (buf.allocated, str) in
    let avoids = Avoids-fresh buf.allocated cs h.fresh in
    let count : b.allocated ≡ suc buf.allocated = w.allocated ∙ allocated in
    record {
      links =
          Links-append b.lines none none cs (new ∷ []) links
            (w.others buf.allocated avoids ∙ cell, tt);
      distinct =
          Distinct-append cs (new ∷ []) h.distinct (tt, tt)
            (All-imp (λ c. c.0 ≢ buf.allocated) _ cs (λ c k. ((λ e. k (sym e)), tt)) avoids);
      fresh =
          All-append (λ c. c.0 < b.allocated) cs (new ∷ [])
            (All-imp _ _ cs (λ c (l : c.0 < buf.allocated). omega arith) h.fresh) (omega arith, tt);
      head = w.head ∙ head;
      tail = sym (last-append none cs (new ∷ []));
    }

appending :
    (str : List ℕ) (buf : Outbuf) (cs : List Cell)
    → IsList buf cs
    → Returns
        (λ b. IsList b (cs ++ ((buf.allocated, str) ∷ [])))
        (append_to
          (last none cs)
          buf.allocated
          (allocate (record { prev = last none cs; next = none; str = str }) buf))
appending str buf [] h = record {
  links = (store_same buf.lines buf.allocated _, tt);
  distinct = (tt, tt);
  fresh = (omega arith, tt);
  head = refl;
  tail = refl;
}
appending str buf (c ∷ cs) h =
    let nl = buf.allocated in
    let l : Line = record { prev = last none (c ∷ cs); next = none; str = str } in
    let b1 = allocate l buf in
    subst (Returns (λ b. IsList b ((c ∷ cs) ++ ((nl, str) ∷ []))))
      (sym (append_to-last nl b1 none c cs))
      (Returns-bind (λ b. Links b.lines none (c ∷ cs) (some nl) × Within (c ∷ cs) b1 b) _ _ _
        (set_next_if-Within b1 (c ∷ cs) none (some nl)
          (Links-store buf.lines none none (c ∷ cs) nl (some l) (Avoids-fresh nl (c ∷ cs) h.fresh)
            h.links)
          h.distinct)
        (λ b k.
          appended-IsList str buf b1 b (c ∷ cs) h (store_same buf.lines nl (some l)) h.head refl k.0
            k.1))

-- On a buffer that holds a list of lines, `do_appendln` succeeds and puts the new line at the end.
pub do_appendln-IsList :
    (str : List ℕ) (buf : Outbuf) (cs : List Cell)
    → IsList buf cs
    → Returns (λ b. IsList b (cs ++ ((buf.allocated, str) ∷ []))) (do_appendln str buf)
unfolding do_appendln
do_appendln-IsList str buf cs h =
    subst
      (λ o.
        Returns (λ b. IsList b (cs ++ ((buf.allocated, str) ∷ [])))
          (append_to o buf.allocated (allocate (record { prev = o; next = none; str = str }) buf)))
      (sym h.tail) (appending str buf cs h)
