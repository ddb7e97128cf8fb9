-- ===== src/Array/Slice/Elements.antt =====
-- `GpuArray_index_inplace` selects: each element of the result is the element of the source that
-- the slices name.
use libgpuarray.Base.{
  ℕ, ◌+◌, ◌%◌, ◌^◌, ◌≡◌, refl, ap, ◌∙◌, sym, true, false, some, List, [], ◌∷◌, if◌then◌else◌,
  length, arith, inl, inr, Bool-cases, Option-cases, ℤ, pos, ◌==ℤ◌, ◌+ℤ◌, ◌*ℤ◌, to_size,
  to_size-add, slice_offset, ◌⊎◌,
}
use mathlib.Core.Path.{subst}
use mathlib.Core.Option.{none-ne-some, some-injective}
use libgpuarray.Array.Slice.{Slice, is_invalid, slice_count, index_loop, moved}

-- The byte offset of the element at an index, as `size_t` arithmetic gives it.
unfoldable pub element : ℕ → List ℤ → List ℤ → ℕ
element offset (i ∷ is) (t ∷ ts) = element (moved offset (i *ℤ t)) is ts
element offset [] ts = offset
element offset (i ∷ is) [] = offset

-- The index in the source of an index of the result.
unfoldable pub expand : List Slice → List ℤ → List ℤ
expand [] is = []
expand (s ∷ ss) [] = if s.step ==ℤ pos 0 then s.start ∷ expand ss [] else []
expand (s ∷ ss) (i ∷ is) =
    let skip = expand ss (i ∷ is) in
    let next = expand ss is in
    if s.step ==ℤ pos 0 then s.start ∷ skip else (s.start +ℤ s.step *ℤ i) ∷ next

moved-add : (offset : ℕ) (a b : ℤ) → moved offset (a +ℤ b) ≡ moved (moved offset a) b
moved-add offset a b =
    ap (λ x. (offset + x) % 2 ^ 64) (to_size-add a b) ∙ mod_sum offset (to_size a) (to_size b)
  where
    mod_sum : (o x y : ℕ) → (o + (x + y) % 2 ^ 64) % 2 ^ 64 ≡ ((o + x) % 2 ^ 64 + y) % 2 ^ 64
    mod_sum o x y = omega arith

moved_slice :
    (offset : ℕ) (s : Slice) (t i : ℤ)
    → moved offset ((s.start +ℤ s.step *ℤ i) *ℤ t)
      ≡ moved (moved offset (s.start *ℤ t)) (i *ℤ (s.step *ℤ t))
moved_slice offset s t i =
    ap (moved offset) (slice_offset s.start s.step i t)
    ∙ moved-add offset (s.start *ℤ t) (i *ℤ (s.step *ℤ t))

moved_comm : (offset : ℕ) (a b : ℤ) → moved (moved offset a) b ≡ moved (moved offset b) a
moved_comm offset a b = mod_comm offset (to_size a) (to_size b)
  where
    mod_comm : (o x y : ℕ) → ((o + x) % 2 ^ 64 + y) % 2 ^ 64 ≡ ((o + y) % 2 ^ 64 + x) % 2 ^ 64
    mod_comm o x y = omega arith

element_moved :
    (offset : ℕ) (z : ℤ) (is ts : List ℤ)
    → element (moved offset z) is ts ≡ moved (element offset is ts) z
unfolding element
element_moved offset z [] ts = refl
element_moved offset z (i ∷ is) [] = refl
element_moved offset z (i ∷ is) (t ∷ ts) =
    ap (λ o. element o is ts) (moved_comm offset z (i *ℤ t))
    ∙ element_moved (moved offset (i *ℤ t)) z is ts

pub expand_skip :
    (s : Slice) (ss : List Slice) (is : List ℤ)
    → (s.step ==ℤ pos 0) ≡ true
    → expand (s ∷ ss) is ≡ s.start ∷ expand ss is
unfolding expand
expand_skip s ss [] z = rw z
expand_skip s ss (i ∷ is) z = rw z

pub expand_next :
    (s : Slice) (ss : List Slice) (i : ℤ) (is : List ℤ)
    → (s.step ==ℤ pos 0) ≡ false
    → expand (s ∷ ss) (i ∷ is) ≡ (s.start +ℤ s.step *ℤ i) ∷ expand ss is
unfolding expand
expand_next s ss i is z = rw z

abbrev pub Indexed : Type 0
Indexed = List ℕ × List ℤ × ℕ

-- What one round of the loop found of its dimension.
abbrev pub Round : ℕ → List ℕ → ℤ → List ℤ → Slice → List Slice → ℕ → Indexed → Type 0
Round d ds t ts s ss offset r =
    (((s.step ==ℤ pos 0) ≡ true) × (index_loop ds ts ss (moved offset (s.start *ℤ t)) ≡ some r))
    ⊎ (((s.step ==ℤ pos 0) ≡ false)
        × (q : Indexed) × (index_loop ds ts ss (moved offset (s.start *ℤ t)) ≡ some q)
        × (r ≡ (slice_count s ∷ q.0, (s.step *ℤ t) ∷ q.1, q.2)))

pub index_loop-Round :
    (d : ℕ) (ds : List ℕ) (t : ℤ) (ts : List ℤ) (s : Slice) (ss : List Slice) (offset : ℕ)
    (r : Indexed)
    → index_loop (d ∷ ds) (t ∷ ts) (s ∷ ss) offset ≡ some r
    → (is_invalid d s ≡ false) × Round d ds t ts s ss offset r
unfolding index_loop
index_loop-Round d ds t ts s ss offset r e = elim (Bool-cases (is_invalid d s)) [
  | inl bad ↦ absurd (none-ne-some r (rw bad at e))
  | inr good ↦ (
    good,
    elim (Bool-cases (s.step ==ℤ pos 0)) [
      | inl z ↦ inl (z, rw (good, z) at e)
      | inr z ↦ elim (Option-cases (index_loop ds ts ss (moved offset (s.start *ℤ t)))) [
        | inl miss ↦ absurd (none-ne-some r (rw (good, z, miss) at e))
        | inr (q, hit) ↦ inr (z, q, hit, sym (some-injective _ _ (rw (good, z, hit) at e)))
      ]
    ],
  )
]

-- The result has the elements that `expand` names.
abbrev pub Selects : ℕ → List ℤ → List Slice → List ℤ → Indexed → Type 0
Selects offset ts ss is r =
    length is ≡ length r.0 → element r.2 is r.1 ≡ element offset (expand ss is) ts

Selects-next :
    (s : Slice) (ss : List Slice) (t : ℤ) (ts : List ℤ) (offset : ℕ) (q : Indexed) (is : List ℤ)
    → (s.step ==ℤ pos 0) ≡ false
    → ((is : List ℤ) → Selects (moved offset (s.start *ℤ t)) ts ss is q)
    → Selects offset (t ∷ ts) (s ∷ ss) is (slice_count s ∷ q.0, (s.step *ℤ t) ∷ q.1, q.2)
unfolding element
Selects-next s ss t ts offset q [] z h m = absurd (omega arith)
Selects-next s ss t ts offset q (i ∷ is) z h m =
    let w = i *ℤ (s.step *ℤ t) in
    let o = moved offset (s.start *ℤ t) in
    rw (expand_next s ss i is z) (
      element_moved q.2 w is q.1
      ∙ ap (λ x. moved x w) (h is (omega arith))
      ∙ sym (element_moved o w (expand ss is) ts)
      ∙ ap (λ x. element x (expand ss is) ts) (sym (moved_slice offset s t i)))

pub index_loop-element :
    (ds : List ℕ) (ts : List ℤ) (ss : List Slice) (offset : ℕ) (r : Indexed) (is : List ℤ)
    → index_loop ds ts ss offset ≡ some r
    → length ss ≡ length ds
    → Selects offset ts ss is r
unfolding index_loop element expand
index_loop-element [] ts [] offset r [] e n m =
    subst (λ r. element r.2 [] r.1 ≡ element offset [] ts) (some-injective _ _ e) refl
index_loop-element [] ts [] offset r (i ∷ is) e n m =
    absurd (omega (arith, m, ap (λ (r : Indexed). length r.0) (some-injective _ _ e)))
index_loop-element [] ts (s ∷ ss) offset r is e n m = absurd (omega arith)
index_loop-element (d ∷ ds) [] ss offset r is e n m = absurd (none-ne-some _ e)
index_loop-element (d ∷ ds) (t ∷ ts) [] offset r is e n m = absurd (none-ne-some _ e)
index_loop-element (d ∷ ds) (t ∷ ts) (s ∷ ss) offset r is e n m =
    elim (index_loop-Round d ds t ts s ss offset r e).1 [
      | inl (z, run) ↦
          index_loop-element ds ts ss (moved offset (s.start *ℤ t)) r is run (omega arith) m
          ∙ sym (ap (λ x. element offset x (t ∷ ts)) (expand_skip s ss is z))
      | inr (z, q, run, same) ↦
          subst (Selects offset (t ∷ ts) (s ∷ ss) is) (sym same)
            (Selects-next s ss t ts offset q is z (λ js.
              index_loop-element ds ts ss (moved offset (s.start *ℤ t)) q js run (omega arith)))
            m
    ]
