-- ===== src/Util/Offsets.antt =====
-- Where the elements of a strided array lie, in row-major order, and what taking out a dimension of
-- size 1 or merging two dimensions does to that.
use libgpuarray.Base.{
  ℕ, zero, suc, ◌+◌, ◌-◌, ◌*◌, ◌/◌, ◌%◌, ◌^◌, ◌≤◌, ◌<◌, ◌≡◌, refl, ap, ◌∙◌, sym, List, [], ◌∷◌,
  arith, length, get_or, set, ℤ, pos, ◌*ℤ◌, ◌+ℤ◌, Rep-self, Rep-add, Rep-mul, Rep-eq,
}
use native.Mathlib.Nat.{
  mul-pos, le-mul_of_pos_right, mod-eq_of_lt, mod-lt, mod-zero, zero-mul, mul-zero, div-add-mod,
  add-mul-mod_self_left, mul-le-mul_left, div-div-eq-div-mul, mul_comm,
}
use libgpuarray.Util.{shiftdown}

-- The number of elements.
unfoldable pub volume : List ℕ → ℕ
volume [] = 1
volume (d ∷ ds) = d * volume ds

-- The offset of element `i` in row-major order.
pub place : List ℕ → List ℤ → ℕ → ℤ
place (d ∷ ds) (s ∷ ss) i = pos (i / volume ds % d) *ℤ s +ℤ place ds ss i
place [] ss i = pos 0
place (d ∷ ds) [] i = pos 0

zero_stride : (s r : ℤ) → pos 0 *ℤ s +ℤ r ≡ r
zero_stride s r =
    let m = Rep-mul (pos 0) s 0 0 _ _ (Rep-self (pos 0)) (Rep-self s) in
    let a = Rep-add (pos 0 *ℤ s) r _ _ _ _ m (Rep-self r) in
    Rep-eq (pos 0 *ℤ s +ℤ r) r _ _ _ _ a (Rep-self r) (omega arith)

pub length-shiftdown {ℓ} :
    {A : Type ℓ} (l : List A) (i : ℕ) → i < length l → length (shiftdown l i) ≡ length l - 1
unfolding shiftdown
length-shiftdown [] i h = absurd (omega arith)
length-shiftdown (x ∷ l) zero h = omega arith
length-shiftdown (x ∷ l) (suc i) h = omega (arith, length-shiftdown l i (omega arith))

pub volume-shiftdown :
    (ds : List ℕ) (i : ℕ) → get_or ds i 0 ≡ 1 → volume (shiftdown ds i) ≡ volume ds
unfolding shiftdown volume
volume-shiftdown [] i h = refl
volume-shiftdown (d ∷ ds) zero h = rw h (omega arith)
volume-shiftdown (d ∷ ds) (suc i) h = rw (volume-shiftdown ds i h)

pub place-shiftdown :
    (ds : List ℕ) (ss : List ℤ) (i n : ℕ)
    → get_or ds i 0 ≡ 1
    → length ss ≡ length ds
    → place (shiftdown ds i) (shiftdown ss i) n ≡ place ds ss n
unfolding shiftdown place
place-shiftdown [] ss i n h e = refl
place-shiftdown (d ∷ ds) [] i n h e = absurd (omega arith)
place-shiftdown (d ∷ ds) (s ∷ ss) zero n h e =
    let z : n / volume ds % d ≡ 0 = rw h (omega arith) in rw z (sym (zero_stride s (place ds ss n)))
place-shiftdown (d ∷ ds) (s ∷ ss) (suc i) n h e =
    rw (volume-shiftdown ds i h, place-shiftdown ds ss i n h (omega arith))

-- Two steps that are one.
merged_step :
    (a b d : ℕ) (s r : ℤ) → pos (d * a + b) *ℤ s +ℤ r ≡ pos a *ℤ (pos d *ℤ s) +ℤ (pos b *ℤ s +ℤ r)
merged_step a b d s r =
    let m = Rep-mul (pos (d * a + b)) s _ _ _ _ (Rep-self (pos (d * a + b))) (Rep-self s) in
    let left = Rep-add (pos (d * a + b) *ℤ s) r _ _ _ _ m (Rep-self r) in
    let ds = Rep-mul (pos d) s _ _ _ _ (Rep-self (pos d)) (Rep-self s) in
    let ads = Rep-mul (pos a) (pos d *ℤ s) _ _ _ _ (Rep-self (pos a)) ds in
    let bs = Rep-mul (pos b) s _ _ _ _ (Rep-self (pos b)) (Rep-self s) in
    let bsr = Rep-add (pos b *ℤ s) r _ _ _ _ bs (Rep-self r) in
    let right = Rep-add (pos a *ℤ (pos d *ℤ s)) (pos b *ℤ s +ℤ r) _ _ _ _ ads bsr in
    Rep-eq (pos (d * a + b) *ℤ s +ℤ r) (pos a *ℤ (pos d *ℤ s) +ℤ (pos b *ℤ s +ℤ r)) _ _ _ _ left
      right (omega arith)

-- A remainder by a product has two digits.
two_digits : (q c d : ℕ) → q % (c * d) ≡ d * (q / d % c) + q % d
two_digits q zero d = omega (
  arith,
  div-add-mod q d,
  zero-mul d,
  mod-zero q,
  mod-zero (q / d),
  ap (λ k. q % k) (zero-mul d),
  ap (λ k. d * k) (mod-zero (q / d)),
)
two_digits q (suc c) zero =
    ap (λ k. q % k) (mul-zero (suc c)) ∙ omega (arith, zero-mul (q / 0 % suc c))
two_digits q (suc c) (suc d) =
    let y = suc c * suc d in
    let b = q / suc d % suc c in
    let r = q % suc d in
    let x = suc d * b + r in
    let e : q ≡ x + y * (q / suc d / suc c) =
      omega (arith, div-add-mod q (suc d), ap (λ a. suc d * a) (div-add-mod (q / suc d) (suc c))) in
    let h : b ≤ c = omega (arith, mod-lt (q / suc d) {m = suc c} (omega arith)) in
    let k : r < suc d = mod-lt q {m = suc d} (omega arith) in
    let m : suc d * b ≤ suc d * c = mul-le-mul_left (suc d) h in
    let l : x < y = omega arith in
    ap (λ t. t % y) e ∙ add-mul-mod_self_left x y (q / suc d / suc c) ∙ mod-eq_of_lt l

-- Every dimension has an element.
abbrev pub AllPositive : List ℕ → Type 0
AllPositive [] = Unit
AllPositive (d ∷ ds) = (0 < d) × AllPositive ds

volume_positive : (ds : List ℕ) → AllPositive ds → 0 < volume ds
unfolding volume
volume_positive [] p = omega arith
volume_positive (d ∷ ds) p = mul-pos p.0 (volume_positive ds p.1)

volume_tail : (d : ℕ) (ds : List ℕ) → 0 < d → volume (d ∷ ds) < 2 ^ 64 → volume ds < 2 ^ 64
unfolding volume
volume_tail zero ds p f = elim p [ ]
volume_tail (suc d) ds p f = omega arith

merged_fits :
    (d e : ℕ) (ds : List ℕ) → AllPositive ds → volume (d ∷ e ∷ ds) < 2 ^ 64 → d * e % 2 ^ 64 ≡ d * e
unfolding volume
merged_fits d e ds p f =
    let l : d * e ≤ d * e * volume ds = le-mul_of_pos_right (d * e) (volume_positive ds p) in
    omega arith

abbrev pub merged : List ℕ → ℕ → List ℕ
merged ds i = shiftdown (set ds i (get_or ds i 0 * get_or ds (suc i) 0 % 2 ^ 64)) (suc i)

pub AllPositive-shiftdown : (ds : List ℕ) (i : ℕ) → AllPositive ds → AllPositive (shiftdown ds i)
unfolding shiftdown
AllPositive-shiftdown [] i p = tt
AllPositive-shiftdown (d ∷ ds) zero p = p.1
AllPositive-shiftdown (d ∷ ds) (suc i) p = (p.0, AllPositive-shiftdown ds i p.1)

pub AllPositive-merged :
    (ds : List ℕ) (i : ℕ)
    → suc i < length ds
    → AllPositive ds
    → volume ds < 2 ^ 64
    → AllPositive (merged ds i)
unfolding shiftdown
AllPositive-merged [] i h p f = tt
AllPositive-merged (d ∷ []) i h p f = absurd (omega arith)
AllPositive-merged (d ∷ e ∷ ds) zero h p f =
    rw (merged_fits d e ds p.1.1 f) (mul-pos p.0 p.1.0, p.1.1)
AllPositive-merged (d ∷ e ∷ ds) (suc i) h p f =
    (p.0, AllPositive-merged (e ∷ ds) i (omega arith) p.1 (volume_tail d (e ∷ ds) p.0 f))

pub volume-merged :
    (ds : List ℕ) (i : ℕ)
    → suc i < length ds
    → AllPositive ds
    → volume ds < 2 ^ 64
    → volume (merged ds i) ≡ volume ds
unfolding shiftdown volume
volume-merged [] i h p f = refl
volume-merged (d ∷ []) i h p f = absurd (omega arith)
volume-merged (d ∷ e ∷ ds) zero h p f = rw (merged_fits d e ds p.1.1 f) (omega arith)
volume-merged (d ∷ e ∷ ds) (suc i) h p f =
    ap (λ v. d * v) (volume-merged (e ∷ ds) i (omega arith) p.1 (volume_tail d (e ∷ ds) p.0 f))

pub place-merged :
    (ds : List ℕ) (ss : List ℤ) (i n : ℕ)
    → suc i < length ds
    → length ss ≡ length ds
    → AllPositive ds
    → volume ds < 2 ^ 64
    → get_or ss i (pos 0) ≡ pos (get_or ds (suc i) 0) *ℤ get_or ss (suc i) (pos 0)
    → place (merged ds i) (shiftdown (set ss i (get_or ss (suc i) (pos 0))) (suc i)) n
      ≡ place ds ss n
unfolding shiftdown place volume
place-merged [] ss i n h m p f st = absurd (omega arith)
place-merged (d ∷ []) ss i n h m p f st = absurd (omega arith)
place-merged (d ∷ e ∷ ds) [] i n h m p f st = absurd (omega arith)
place-merged (d ∷ e ∷ ds) (s ∷ []) i n h m p f st = absurd (omega arith)
place-merged (d ∷ e ∷ ds) (s ∷ t ∷ ss) zero n h m p f st =
    let v = volume ds in
    let q = n / v in
    let q' : n / (e * v) ≡ q / e =
      ap (λ k. n / k) (mul_comm e v) ∙ sym (div-div-eq-div-mul n v e) in
    rw (merged_fits d e ds p.1.1 f, st, q', two_digits q d e)
      (merged_step (q / e % d) (q % e) e t (place ds ss n))
place-merged (d ∷ e ∷ ds) (s ∷ t ∷ ss) (suc i) n h m p f st =
    let g = volume_tail d (e ∷ ds) p.0 f in
    let r = e ∷ ds in
    let v : volume (merged r i) ≡ volume r = volume-merged r i (omega arith) p.1 g in
    let w = place-merged r (t ∷ ss) i n (omega arith) (omega arith) p.1 g st in
    ap
      (λ k.
        pos (n / k % d) *ℤ s
        +ℤ place (merged r i) (shiftdown (set (t ∷ ss) i (get_or (t ∷ ss) (suc i) (pos 0))) (suc i))
            n)
      v
    ∙ ap (λ x. pos (n / volume r % d) *ℤ s +ℤ x) w
