-- ===== src/Strb.antt =====
-- src/util/strb.c and src/util/strb.h: growing byte strings with a sticky error mode.
pub mod Growth
pub mod Laws
mod Tests
use libgpuarray.Base.{
  ℕ, ◌+◌, ◌-◌, ◌%◌, ◌^◌, Bool, true, false, ◌&&◌, Option, none, some, List, [], ◌∷◌, ◌++◌, ltb,
  ◌==◌, if◌then◌else◌, length, take, not,
}

-- SIZE_MAX, the length of a string in error mode.
abbrev pub size_max : ℕ
size_max = 2 ^ 64 - 1

-- `s` lists the bytes stored so far, of which the first `l` are valid; `a` bytes are allocated.
pub record Strb : Type 0 where
  pub s : List ℕ
  pub l : ℕ
  pub a : ℕ

-- STRB_STATIC_INIT
abbrev pub strb_init : Strb
strb_init = record { s = []; l = 0; a = 0 }

-- `strb_alloc`, on whether both calls of `malloc` returned memory.
unfoldable pub strb_alloc : Bool → Bool → ℕ → Option Strb
strb_alloc ok ok_s i = if ok && ok_s then some (record { s = []; l = 0; a = i }) else none

unfoldable pub strb_reset : Strb → Strb
strb_reset sb = record sb { l = 0 }

unfoldable pub strb_seterror : Strb → Strb
strb_seterror sb = record sb { l = size_max }

unfoldable pub strb_error : Strb → Bool
strb_error sb = sb.l == size_max

unfoldable pub strb_clear : Strb → Strb
strb_clear sb = record { s = []; l = 0; a = 0 }

-- How many bytes `strb_grow` adds to an allocation of `a` bytes when asked for `n`.
unfoldable pub growth : ℕ → ℕ → ℕ
growth a n = let m = if a == 0 && ltb n 1024 then 1024 else n in if ltb m a then a else m

-- `ok` tells whether `realloc` returned memory. The result is 0 (`true`) or -1 (`false`).
unfoldable pub strb_grow : Bool → Strb → ℕ → Bool × Strb
strb_grow ok sb n =
    if strb_error sb
    then (false, sb)
    else if ltb (size_max - sb.a) (growth sb.a n)
    then (false, strb_seterror sb)
    else if ok
    then (true, record sb { a = sb.a + growth sb.a n })
    else (false, strb_seterror sb)

-- On unsigned numbers `a - l` wraps around where `l` is over `a`.
unfoldable pub strb_ensure : Bool → Strb → ℕ → Bool × Strb
strb_ensure ok sb n =
    if strb_error sb
    then (false, sb)
    else if ltb ((sb.a + 2 ^ 64 - sb.l) % 2 ^ 64) n
    then strb_grow ok sb n
    else (true, sb)

-- Stores bytes at `l` and moves `l` on.
pub store : List ℕ → Strb → Strb
store bytes sb = record sb { s = take sb.l sb.s ++ bytes; l = (sb.l + length bytes) % 2 ^ 64 }

unfoldable pub strb_appendc : Bool → ℕ → Strb → Strb
unfolding store
strb_appendc ok c sb = let r = strb_ensure ok sb 1 in if r.0 then store (c ∷ []) r.1 else r.1

unfoldable pub strb_appendn : Bool → List ℕ → Strb → Strb
unfolding store
strb_appendn ok bytes sb =
    let r = strb_ensure ok sb (length bytes) in if r.0 then store bytes r.1 else r.1

-- Appends the valid bytes of `sb2`. In error mode `sb2` has `size_max` bytes to append, which no
-- allocation holds; `realloc` gets to refuse that many.
unfoldable pub strb_appendb : Bool → Strb → Strb → Strb
unfolding store
strb_appendb ok sb2 sb =
    let r = strb_ensure (ok && not (strb_error sb2)) sb sb2.l in
    if r.0 then store (take sb2.l sb2.s) r.1 else r.1

-- `out` is what `vsnprintf` makes of the format and its arguments, `none` a format error. The
-- terminating NUL takes space, and is not part of the string.
unfoldable pub strb_appendf : Bool → Option (List ℕ) → Strb → Strb
unfolding store
strb_appendf ok none sb = strb_seterror sb
strb_appendf ok (some out) sb =
    let r = strb_ensure ok sb (length out + 1) in if r.0 then store out r.1 else r.1

-- The answers of `read` or `write`: a transfer of so many bytes, EAGAIN or EINTR, or a failure
-- (for `read`, also the end of the file).
pub data Answer : Type 0 where
  bytes : List ℕ → Answer
  again failed : Answer

-- The loop of `strb_read` over the answers of `read`, with `sz` bytes to go. `none` is an answer
-- that was not given.
unfoldable pub read_loop : List Answer → ℕ → Strb → Option Strb
read_loop [] sz sb = if sz == 0 then some sb else none
read_loop (Answer.bytes b ∷ rest) sz sb =
    if sz == 0 then some sb else read_loop rest (sz - length b) (record sb { s = sb.s ++ b })
read_loop (Answer.again ∷ rest) sz sb = if sz == 0 then some sb else read_loop rest sz sb
read_loop (Answer.failed ∷ rest) sz sb = if sz == 0 then some sb else some (strb_seterror sb)

unfoldable pub strb_read : Bool → List Answer → ℕ → Strb → Option Strb
strb_read ok answers sz sb =
    let r = strb_ensure ok sb sz in
    if r.0
    then read_loop answers sz (record r.1 { s = take r.1.l r.1.s; l = (r.1.l + sz) % 2 ^ 64 })
    else some r.1

-- `none` is the NULL result; the other lists the bytes stored from the returned pointer on.
unfoldable pub strb_cstr : Bool → Strb → Option (List ℕ) × Strb
strb_cstr ok sb =
    let t = strb_appendc ok 0 sb in
    if strb_error t then (none, strb_clear t) else (some t.s, record t { l = t.l - 1 })
