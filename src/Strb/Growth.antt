-- ===== src/Strb/Growth.antt =====
-- The growth of a string buffer in util/strb.c, and what a store into it leaves.
use libgpuarray.Base.{
  ℕ, ◌+◌, ◌-◌, ◌%◌, ◌^◌, ◌≤◌, ◌<◌, ◌≡◌, refl, ap, ◌∙◌, ◌⊎◌, inl, inr, Bool, true, false, Option,
  none, some, List, ◌++◌, ltb, if◌then◌else◌, length, take, length-append, length-take, arith,
  Bool-cases, take_all, ◌≢◌,
}
use libgpuarray.Strb.{
  Strb, size_max, growth, strb_error, strb_seterror, strb_grow, strb_ensure, store,
}

-- The valid bytes lie within the allocation, unless the string is in error mode.
pub record IsValid (sb : Strb) : Type 0 where
  pub allocated : sb.a ≤ size_max
  pub fits : strb_error sb ≡ false → sb.l ≤ sb.a
  pub stored : strb_error sb ≡ false → sb.l ≤ length sb.s

pub true≢false : true ≢ false
true≢false p = cc

-- What the string stands for: `none` in error mode.
unfoldable pub text : Strb → Option (List ℕ)
text sb = if strb_error sb then none else some (take sb.l sb.s)

-- What `strb_ensure` gives: room for `n` bytes after the same data, or error mode.
pub record Room (n : ℕ) (sb sb' : Strb) : Type 0 where
  pub sane : strb_error sb ≡ false
  pub same_s : sb'.s ≡ sb.s
  pub same_l : sb'.l ≡ sb.l
  pub room : sb.l + n ≤ sb'.a
  pub bounded : sb'.a ≤ size_max

pub seterror-IsValid : (sb : Strb) → IsValid sb → IsValid (strb_seterror sb)
unfolding strb_seterror strb_error
seterror-IsValid sb v = record {
  allocated = v.allocated;
  fits = λ e. ground arith;
  stored = λ e. ground arith;
}

pub seterror-error : (sb : Strb) → strb_error (strb_seterror sb) ≡ true
unfolding strb_seterror strb_error
seterror-error sb = refl

growth-le : (a n : ℕ) → n ≤ growth a n
unfolding growth
growth-le a n = ground arith

-- The two outcomes of a call that makes room: room, or error mode.
unfoldable pub Outcome : ℕ → Strb → Bool × Strb → Type 0
Outcome n sb r = ((r.0 ≡ true) × Room n sb r.1) ⊎ ((r.0 ≡ false) × (r.1 ≡ strb_seterror sb))

grow-Outcome :
    (ok : Bool) (sb : Strb) (n : ℕ)
    → IsValid sb
    → strb_error sb ≡ false
    → Outcome n sb (strb_grow ok sb n)
unfolding strb_grow Outcome
grow-Outcome ok sb n v e = elim (Bool-cases (ltb (size_max - sb.a) (growth sb.a n))) [
  | inl over ↦ rw (e, over) (inr (refl, refl))
  | inr fits ↦ elim (Bool-cases ok) [
    | inl memory ↦
        rw (e, fits, memory)
          (inl (
            refl,
            record {
              sane = e;
              same_s = refl;
              same_l = refl;
              room = ground (arith, growth-le sb.a n, v.fits e);
              bounded = ground (arith, v.allocated);
            },
          ))
    | inr none_left ↦ rw (e, fits, none_left) (inr (refl, refl))
  ]
]

pub ensure-Outcome :
    (ok : Bool) (sb : Strb) (n : ℕ)
    → IsValid sb
    → strb_error sb ≡ false
    → Outcome n sb (strb_ensure ok sb n)
unfolding strb_ensure Outcome
ensure-Outcome ok sb n v e = elim (Bool-cases (ltb ((sb.a + 2 ^ 64 - sb.l) % 2 ^ 64) n)) [
  | inl short ↦ rw (e, short) (unfold Outcome in grow-Outcome ok sb n v e)
  | inr enough ↦
      rw (e, enough)
        (inl (
          refl,
          record {
            sane = e;
            same_s = refl;
            same_l = refl;
            room = ground (arith, v.fits e, v.allocated);
            bounded = v.allocated;
          },
        ))
]

pub store-IsValid :
    (b : List ℕ) (sb sb' : Strb) → IsValid sb → Room (length b) sb sb' → IsValid (store b sb')
unfolding store strb_error
store-IsValid b sb sb' v r =
    let f : sb.l ≤ sb.a = v.fits r.sane in
    let g : sb.l ≤ length sb.s = v.stored r.sane in
    record {
      allocated = r.bounded;
      fits = λ e. omega (arith, r.room, r.same_l, r.bounded);
      stored = λ e. omega (
        arith,
        r.room,
        r.same_l,
        r.bounded,
        g,
        ap length r.same_s,
        length-append (take sb'.l sb'.s) b,
        length-take sb'.l sb'.s,
      );
    }

pub store_sane :
    (b : List ℕ) (sb sb' : Strb)
    → IsValid sb
    → Room (length b) sb sb'
    → sb.a + sb.a + length b + 1024 < size_max
    → strb_error (store b sb') ≡ false
unfolding store strb_error
store_sane b sb sb' v r small = ground (arith, r.same_l, v.fits r.sane)

pub store-text :
    (b : List ℕ) (sb sb' : Strb)
    → IsValid sb
    → Room (length b) sb sb'
    → strb_error (store b sb') ≡ false
    → text (store b sb') ≡ some (take sb.l sb.s ++ b)
unfolding text store
store-text b sb sb' v r e =
    let t = take sb'.l sb'.s ++ b in
    rw e (
      ap some (
        take_all ((sb'.l + length b) % 2 ^ 64) t (
          omega (
            arith,
            r.room,
            r.same_l,
            r.bounded,
            length-append (take sb'.l sb'.s) b,
            length-take sb'.l sb'.s,
          ))
        ∙ ap (λ u. u ++ b) (ap (λ l. take l sb'.s) r.same_l ∙ ap (take sb.l) r.same_s)))
