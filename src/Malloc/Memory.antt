-- ===== src/Malloc/Memory.antt =====
-- Memory as 8-byte words by address, and the two tag structures of lab2-src/MyMalloc.h:
-- object_size at offset 0, status at 8, and in a header next at 16 and prev at 24.
use cs.Common.{ℕ, ◌+◌, ◌==◌, if◌then◌else◌}

-- Addresses of words. A write changes one word; the structures below lie at multiples of 8.
abbrev pub Memory : Type 0
Memory = ℕ → ℕ

unfoldable pub write : Memory → ℕ → ℕ → Memory
write m a v b = if a == b then v else m b

-- enum allocation_status
abbrev pub unallocated : ℕ
unallocated = 0

abbrev pub allocated : ℕ
allocated = 1

abbrev pub sentinel_status : ℕ
sentinel_status = 2

abbrev pub null : ℕ
null = 0

-- sizeof(object_header) and sizeof(object_footer)
abbrev pub header_bytes : ℕ
header_bytes = 32

abbrev pub footer_bytes : ℕ
footer_bytes = 16

-- p->object_size, p->status, p->next, p->prev: the addresses of the fields of `*p`.
abbrev pub size_of : ℕ → ℕ
size_of p = p

abbrev pub status_of : ℕ → ℕ
status_of p = p + 8

abbrev pub next_of : ℕ → ℕ
next_of p = p + 16

abbrev pub prev_of : ℕ → ℕ
prev_of p = p + 24
