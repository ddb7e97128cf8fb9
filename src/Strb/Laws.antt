-- ===== src/Strb/Laws.antt =====
-- Strings of src/util/strb.c stay within their allocation, and appending is concatenation.
use mathlib.Core.Option.{none-ne-some, some-injective}
use mathlib.Core.Path.{subst}
use mathlib.Core.List.{append-nil, append_assoc}
use libgpuarray.Base.{
  ℕ, ◌+◌, ◌-◌, ◌%◌, ◌^◌, ◌≤◌, ◌<◌, ◌≡◌, refl, ap, ◌∙◌, sym, inl, inr, Bool, true, false, Option,
  none, some, ◌==◌, List, [], ◌∷◌, ◌++◌, ltb, if◌then◌else◌, length, take, length-append,
  length-take, arith, Bool-cases, take-take, take-append, take-append-drop, drop,
}
use libgpuarray.Strb.{
  Strb, size_max, growth, strb_error, strb_grow, strb_ensure, strb_appendn, store, strb_appendc,
  strb_cstr,
}
use libgpuarray.Strb.Growth.{
  IsValid, true≢false, text, Room, seterror-IsValid, seterror-error, Outcome, ensure-Outcome,
  store-IsValid, store_sane, store-text,
}

-- What appending `b` may make of `sb`: its text with `b` after it, or error mode.
pub record Appends (b : List ℕ) (sb sb' : Strb) : Type 0 where
  pub valid : IsValid sb'
  pub sticky : strb_error sb ≡ true → sb' ≡ sb
  pub appended : strb_error sb' ≡ false → text sb' ≡ some (take sb.l sb.s ++ b)

Room-le : {n m : ℕ} {sb sb' : Strb} → m ≤ n → Room n sb sb' → Room m sb sb'
Room-le h r = record {
  sane = r.sane;
  same_s = r.same_s;
  same_l = r.same_l;
  room = omega (arith, r.room);
  bounded = r.bounded;
}

append_step :
    (b : List ℕ) (sb : Strb) (n : ℕ) (r : Bool × Strb)
    → IsValid sb
    → length b ≤ n
    → (strb_error sb ≡ true → r ≡ (false, sb))
    → (strb_error sb ≡ false → Outcome n sb r)
    → Appends b sb (if r.0 then store b r.1 else r.1)
unfolding Outcome
append_step b sb n r v h bad good = elim (Bool-cases (strb_error sb)) [
  | inl e ↦
      rw (bad e)
        (record { valid = v; sticky = λ e. refl; appended = λ f. absurd (true≢false (sym e ∙ f)) })
  | inr e ↦ elim (good e) [
    | inl (y, room) ↦ rw y (record {
      valid = store-IsValid b sb r.1 v (Room-le h room);
      sticky = λ f. absurd (true≢false (sym f ∙ e));
      appended = store-text b sb r.1 v (Room-le h room);
    })
    | inr (y, failed) ↦
        rw (y, failed)
          (record {
            valid = seterror-IsValid sb v;
            sticky = λ f. absurd (true≢false (sym f ∙ e));
            appended = λ f. absurd (true≢false (sym (seterror-error sb) ∙ f));
          })
  ]
]

ensure_sticky :
    (ok : Bool) (sb : Strb) (n : ℕ) → strb_error sb ≡ true → strb_ensure ok sb n ≡ (false, sb)
unfolding strb_ensure
ensure_sticky ok sb n e = rw e

-- `strb_appendn` keeps the string within its allocation. It leaves a string in error mode alone;
-- otherwise the bytes now stand after the text, unless memory ran out, which is error mode.
pub strb_appendn-Appends :
    (ok : Bool) (b : List ℕ) (sb : Strb) → IsValid sb → Appends b sb (strb_appendn ok b sb)
unfolding strb_appendn
strb_appendn-Appends ok b sb v =
    append_step b sb (length b) (strb_ensure ok sb (length b)) v (omega arith)
      (ensure_sticky ok sb (length b)) (ensure-Outcome ok sb (length b) v)

-- What `strb_appendf` makes of the string that a format prints, or of a format error.
abbrev pub Formats : Option (List ℕ) → Strb → Strb → Type 0
Formats none sb sb' = IsValid sb' × (strb_error sb' ≡ true) × (strb_error sb ≡ true → sb' ≡ sb)
Formats (some b) sb sb' = Appends b sb sb'

appendc-Appends :
    (ok : Bool) (c : ℕ) (sb : Strb) → IsValid sb → Appends (c ∷ []) sb (strb_appendc ok c sb)
unfolding strb_appendc
appendc-Appends ok c sb v =
    append_step (c ∷ []) sb 1 (strb_ensure ok sb 1) v (omega arith) (ensure_sticky ok sb 1)
      (ensure-Outcome ok sb 1 v)

-- A series of appends, each with its answer of `realloc`.
pub append_all : List (Bool × List ℕ) → Strb → Strb
append_all [] sb = sb
append_all ((ok, b) ∷ rest) sb = append_all rest (strb_appendn ok b sb)

pub concat : List (Bool × List ℕ) → List ℕ
concat [] = []
concat ((ok, b) ∷ rest) = b ++ concat rest

sticky_all :
    (steps : List (Bool × List ℕ)) (sb : Strb)
    → IsValid sb
    → strb_error sb ≡ true
    → append_all steps sb ≡ sb
unfolding append_all
sticky_all [] sb v e = refl
sticky_all ((ok, b) ∷ rest) sb v e =
    let same = (strb_appendn-Appends ok b sb v).sticky e in
    ap (append_all rest) same ∙ sticky_all rest sb v e

text-some :
    (sb : Strb) (x : List ℕ) → text sb ≡ some x → (strb_error sb ≡ false) × (take sb.l sb.s ≡ x)
unfolding text
text-some sb x h = elim (Bool-cases (strb_error sb)) [
  | inl e ↦ absurd (none-ne-some x (sym (rw e) ∙ h))
  | inr e ↦ (e, some-injective _ _ (sym (rw e) ∙ h))
]

-- A series of appends keeps a string within its allocation, and unless it ends in error mode, its
-- text is what it was with all the appended bytes after it.
pub append_all-text :
    (steps : List (Bool × List ℕ)) (sb : Strb) (x : List ℕ)
    → IsValid sb
    → text sb ≡ some x
    → IsValid (append_all steps sb)
      × (strb_error (append_all steps sb) ≡ false
          → text (append_all steps sb) ≡ some (x ++ concat steps))
unfolding append_all concat
append_all-text [] sb x v h = (v, λ e. h ∙ ap some (sym (append-nil x)))
append_all-text ((ok, b) ∷ rest) sb x v h =
    let sb' = strb_appendn ok b sb in
    let step = strb_appendn-Appends ok b sb v in
    let (sane, same) = text-some sb x h in
    elim (Bool-cases (strb_error sb')) [
      | inl e ↦
          let stays = sticky_all rest sb' step.valid e in
          (
            subst IsValid (sym stays) step.valid,
            (λ f. absurd (true≢false (sym e ∙ ap strb_error (sym stays) ∙ f))),
          )
      | inr e ↦
          let (w, g) =
            append_all-text rest sb' (x ++ b) step.valid
              (step.appended e ∙ ap (λ t. some (t ++ b)) same) in
          (w, λ f. g f ∙ ap some (append_assoc x b (concat rest)))
    ]

growth_le : (a n : ℕ) → growth a n ≤ a + n + 1024
unfolding growth
growth_le a n = ground arith

grow_memory :
    (sb : Strb) (n : ℕ)
    → strb_error sb ≡ false
    → sb.a + sb.a + n + 1024 < size_max
    → (strb_grow true sb n).0 ≡ true
unfolding strb_grow
grow_memory sb n e small =
    let fits : ltb (size_max - sb.a) (growth sb.a n) ≡ false = ground (arith, growth_le sb.a n) in
    rw (e, fits)

ensure_memory :
    (sb : Strb) (n : ℕ)
    → strb_error sb ≡ false
    → sb.a + sb.a + n + 1024 < size_max
    → (strb_ensure true sb n).0 ≡ true
unfolding strb_ensure
ensure_memory sb n e small = elim (Bool-cases (ltb ((sb.a + 2 ^ 64 - sb.l) % 2 ^ 64) n)) [
  | inl short ↦ rw (e, short) (grow_memory sb n e small)
  | inr enough ↦ rw (e, enough)
]

-- With memory, and while the numbers stay far from SIZE_MAX, `strb_appendn` does not fail: the
-- bytes stand after the text.
pub strb_appendn_memory :
    (b : List ℕ) (sb : Strb) (x : List ℕ)
    → IsValid sb
    → text sb ≡ some x
    → sb.a + sb.a + length b + 1024 < size_max
    → text (strb_appendn true b sb) ≡ some (x ++ b)
unfolding strb_appendn Outcome
strb_appendn_memory b sb x v h small =
    let (sane, same) = text-some sb x h in
    let r = strb_ensure true sb (length b) in
    let y = ensure_memory sb (length b) sane small in
    elim (ensure-Outcome true sb (length b) v sane) [
      | inl (z, room) ↦ rw y (
          store-text b sb r.1 v room (store_sane b sb r.1 v room small)
          ∙ ap (λ t. some (t ++ b)) same)
      | inr (z, failed) ↦ absurd (true≢false (sym y ∙ z))
    ]

take_before_last :
    (l : ℕ) (s x : List ℕ) (c : ℕ) → l ≤ length s → take l s ≡ x ++ c ∷ [] → take (l - 1) s ≡ x
take_before_last l s x c fits h =
    let n : l - 1 ≡ length x =
      omega (arith, ap length h, length-take l s, length-append x (c ∷ [])) in
    sym (take-take (l - 1) l s (omega arith))
    ∙ ap (take (l - 1)) h
    ∙ ap (λ k. take k (x ++ c ∷ [])) n
    ∙ take-append x (c ∷ [])

-- A C string: the bytes before the first NUL. `none` is a read past the bytes stored.
unfoldable pub c_string : List ℕ → Option (List ℕ)
c_string [] = none
c_string (b ∷ bs) =
    if b == 0 then some [] else elim (c_string bs) [ none ↦ none | some s ↦ some (b ∷ s) ]

-- The bytes of a text before its first NUL.
pub before_nul : List ℕ → List ℕ
before_nul [] = []
before_nul (b ∷ bs) = if b == 0 then [] else b ∷ before_nul bs

c_string-nul : (x rest : List ℕ) → c_string (x ++ 0 ∷ rest) ≡ some (before_nul x)
unfolding c_string before_nul
c_string-nul [] rest = refl
c_string-nul (b ∷ bs) rest = elim (Bool-cases (b == 0)) [
  | inl e ↦ rw e refl
  | inr e ↦ rw (e, c_string-nul bs rest) refl
]

-- A string whose first bytes are a text and a NUL.
abbrev pub Terminates : List ℕ → List ℕ → Type 0
Terminates x p = (take (length x + 1) p ≡ x ++ 0 ∷ []) × (c_string p ≡ some (before_nul x))

ended : (x p : List ℕ) (n : ℕ) → n ≤ length p → take n p ≡ x ++ 0 ∷ [] → Terminates x p
ended x p n fits h =
    let m : n ≡ length x + 1 =
      omega (arith, ap length h, length-take n p, length-append x (0 ∷ [])) in
    let whole : p ≡ x ++ 0 ∷ drop n p =
      sym (take-append-drop n p) ∙ ap (λ t. t ++ drop n p) h ∙ append_assoc x (0 ∷ []) (drop n p) in
    (ap (λ k. take k p) (sym m) ∙ h, ap c_string whole ∙ c_string-nul x (drop n p))

-- For a string within its allocation and not in error mode, with memory for the NUL, and while the
-- numbers stay far from SIZE_MAX, the pointer that `strb_cstr`
-- returns points to the text followed by a NUL, so that its C string is the text up to its first NUL;
-- the string itself keeps its text.
pub strb_cstr_lem :
    (sb : Strb) (x : List ℕ)
    → IsValid sb
    → text sb ≡ some x
    → sb.a + sb.a + 1 + 1024 < size_max
    → (p : List ℕ) × ((strb_cstr true sb).0 ≡ some p)
      × Terminates x p
      × (take (strb_cstr true sb).1.l (strb_cstr true sb).1.s ≡ x)
unfolding strb_cstr strb_appendc
strb_cstr_lem sb x v h small =
    let t = strb_appendc true 0 sb in
    let step = appendc-Appends true 0 sb v in
    let ends : text t ≡ some (x ++ 0 ∷ []) =
      unfold strb_appendn in strb_appendn_memory (0 ∷ []) sb x v h small in
    let (e, g) = text-some t (x ++ 0 ∷ []) ends in
    rw e (
      t.s,
      refl,
      ended x t.s t.l (step.valid.stored e) g,
      take_before_last t.l t.s x 0 (step.valid.stored e) g,
    )
