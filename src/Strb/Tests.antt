-- ===== src/Strb/Tests.antt =====
-- Runs of src/util/strb.c, and its laws at a string that holds two bytes.
use libgpuarray.Base.{◌≡◌, List, ℕ, take, ◌>>=◌, refl, true, false, some, [], ◌∷◌, ◌++◌, arith}
use libgpuarray.Strb.{
  Strb, strb_init, strb_error, strb_appendn, strb_appendc, strb_grow, strb_cstr, strb_ensure,
  growth, strb_seterror,
}
use libgpuarray.Strb.Growth.{IsValid, text}
use libgpuarray.Strb.Laws.{
  Appends, Terminates, c_string, append_all, concat, append_all-text, strb_appendn-Appends,
  strb_appendn_memory, strb_cstr_lem,
}

abbrev hi : Strb
hi = record { s = 72 ∷ 105 ∷ []; l = 2; a = 1024 }

makes_hi : strb_appendn true (72 ∷ 105 ∷ []) strb_init ≡ hi
unfolding strb_appendn strb_ensure strb_error strb_grow growth
makes_hi = refl

-- The terminating NUL of `strb_cstr` is not part of the string.
cstr_hi : (strb_cstr true hi).0 >>= c_string ≡ some (72 ∷ 105 ∷ [])
unfolding c_string strb_cstr strb_error strb_appendc strb_ensure
cstr_hi = refl

-- No memory is error mode.
grow_fails : strb_error (strb_grow false hi 4096).1 ≡ true
unfolding strb_grow strb_error growth strb_seterror
grow_fails = refl

hi-IsValid : IsValid hi
unfolding strb_error
hi-IsValid = record { allocated = omega arith; fits = λ e. omega arith; stored = λ e. omega arith }

hi-text : text hi ≡ some (72 ∷ 105 ∷ [])
unfolding text strb_error
hi-text = refl

strb_appendn-Appends_example : Appends (33 ∷ []) hi (strb_appendn true (33 ∷ []) hi)
strb_appendn-Appends_example = strb_appendn-Appends true (33 ∷ []) hi hi-IsValid

append_all-text_example :
    IsValid (append_all ((true, 33 ∷ []) ∷ (false, 34 ∷ []) ∷ []) hi)
    × (strb_error (append_all ((true, 33 ∷ []) ∷ (false, 34 ∷ []) ∷ []) hi) ≡ false
        → text (append_all ((true, 33 ∷ []) ∷ (false, 34 ∷ []) ∷ []) hi)
          ≡ some ((72 ∷ 105 ∷ []) ++ concat ((true, 33 ∷ []) ∷ (false, 34 ∷ []) ∷ [])))
append_all-text_example =
    append_all-text ((true, 33 ∷ []) ∷ (false, 34 ∷ []) ∷ []) hi (72 ∷ 105 ∷ []) hi-IsValid hi-text

strb_appendn_memory_example :
    text (strb_appendn true (33 ∷ []) hi) ≡ some ((72 ∷ 105 ∷ []) ++ 33 ∷ [])
strb_appendn_memory_example =
    strb_appendn_memory (33 ∷ []) hi (72 ∷ 105 ∷ []) hi-IsValid hi-text (omega arith)

strb_cstr_lem_example :
    (p : List ℕ) × ((strb_cstr true hi).0 ≡ some p)
    × Terminates (72 ∷ 105 ∷ []) p
    × (take (strb_cstr true hi).1.l (strb_cstr true hi).1.s ≡ 72 ∷ 105 ∷ [])
strb_cstr_lem_example = strb_cstr_lem hi (72 ∷ 105 ∷ []) hi-IsValid hi-text (omega arith)
