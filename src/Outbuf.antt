-- ===== src/Outbuf.antt =====
-- src/outbuf.c: the output buffer, a doubly linked list of lines.
pub mod Links
pub mod Edits
pub mod Cells
pub mod Insertion
pub mod Removal
pub mod Text
pub mod Appending
mod Tests
use javalette.Prelude.{
  ℕ, suc, zero, Bool, true, false, List, [], ◌∷◌, Option, none, some, ◌==◌, ltb, leb, length,
  if◌then◌else◌, assert, ◌>>=◌, ◌>>◌,
}

-- `line_t`. A string is its bytes without the final zero.
pub record Line : Type 0 where
  pub prev : Option ℕ
  pub next : Option ℕ
  pub str : List ℕ

-- `outbuf_t`, with the memory of its lines: the line at each address, and how many lines have been
-- allocated. `xmalloc` gives the number of earlier calls.
pub record Outbuf : Type 0 where
  pub head : Option ℕ
  pub tail : Option ℕ
  pub lines : ℕ → Option Line
  pub allocated : ℕ

abbrev pub new_outbuf : Outbuf
new_outbuf = record { head = none; tail = none; lines = (λ _. none); allocated = 0 }

abbrev pub store : (ℕ → Option Line) → ℕ → Option Line → ℕ → Option Line
store lines a l b = if b == a then l else lines b

-- `line == buf->head` and the like.
abbrev pub same_pointer : Option ℕ → Option ℕ → Bool
same_pointer none none = true
same_pointer (some a) (some b) = a == b
same_pointer _ _ = false

-- `line->next = value`, and with a test for NULL before it.
abbrev pub set_next : ℕ → Option ℕ → Outbuf → Option Outbuf
set_next a value buf = buf.lines a >>= λ l.
    some (record buf { lines = store buf.lines a (some (record l { next = value })) })

abbrev pub set_prev : ℕ → Option ℕ → Outbuf → Option Outbuf
set_prev a value buf = buf.lines a >>= λ l.
    some (record buf { lines = store buf.lines a (some (record l { prev = value })) })

abbrev pub set_next_if : Option ℕ → Option ℕ → Outbuf → Option Outbuf
set_next_if none value buf = some buf
set_next_if (some a) value buf = set_next a value buf

abbrev pub set_prev_if : Option ℕ → Option ℕ → Outbuf → Option Outbuf
set_prev_if none value buf = some buf
set_prev_if (some a) value buf = set_prev a value buf

-- `buf->tail` if the line was the last one.
abbrev pub move_tail : Option ℕ → Option ℕ → Outbuf → Outbuf
move_tail line value buf = if same_pointer line buf.tail then record buf { tail = value } else buf

abbrev pub move_head : Option ℕ → Option ℕ → Outbuf → Outbuf
move_head line value buf = if same_pointer buf.head line then record buf { head = value } else buf

abbrev pub allocate : Line → Outbuf → Outbuf
allocate l buf = record buf {
  lines = store buf.lines buf.allocated (some l);
  allocated = suc buf.allocated;
}

-- The two branches of `do_insertln`: the new line's `next`, and the pointer before it set.
abbrev pub link_after : Option ℕ → ℕ → Outbuf → Option (Option ℕ × Outbuf)
link_after none nl buf = some (buf.head, record buf { head = some nl })
link_after (some a) nl buf =
    buf.lines a >>= λ l. set_next a (some nl) buf >>= λ buf. some (l.next, buf)

-- `do_insertln`: the line and the address of the new one, which is the next `line` of the loop.
unfoldable pub do_insertln : Option ℕ → List ℕ → Outbuf → Option Outbuf
do_insertln line str buf =
    let nl = buf.allocated in
    link_after line nl buf >>= λ r.
    set_prev_if r.0 (some nl)
      (move_tail line (some nl) (allocate (record { prev = line; next = r.0; str = str }) r.1))

-- `do_appendln`, once the new line is in memory.
abbrev pub append_to : Option ℕ → ℕ → Outbuf → Option Outbuf
append_to none nl buf = some (record buf { head = some nl; tail = some nl })
append_to (some a) nl buf = set_next a (some nl) buf >>= λ buf. some (record buf { tail = some nl })

unfoldable pub do_appendln : List ℕ → Outbuf → Option Outbuf
do_appendln str buf =
    append_to buf.tail buf.allocated
      (allocate (record { prev = buf.tail; next = none; str = str }) buf)

-- `removeln`; the line's memory is freed.
unfoldable pub removeln : ℕ → Outbuf → Option Outbuf
removeln a buf = buf.lines a >>= λ l. set_next_if l.prev l.next buf >>= λ buf1.
    set_prev_if l.next l.prev buf1 >>= λ buf2.
    let buf3 = move_tail (some a) l.prev (move_head (some a) l.next buf2) in
    some (record buf3 { lines = store buf3.lines a none })
