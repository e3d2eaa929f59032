-- ===== src/Trace/Json/Growth.antt =====
-- The doubling loop of the buffer ends, and an append does what it should or fails.
use mathlib.Core.Path.{subst}
use phronesis.Base.{
  ℕ, zero, suc, ◌+◌, ◌*◌, ◌%◌, ◌^◌, ◌≤◌, ◌<◌, ◌≡◌, refl, ap, ◌∙◌, sym, Bool, true, false, Option,
  none, some, ◌++◌, arith, ltb, length, length-append, append_assoc, if◌then◌else◌, Bool-cases, ◌⊎◌,
  inl, inr,
}
use phronesis.Base.Powers.{mul-pow_suc}
use phronesis.Base.CString.{Bytes}
use phronesis.Trace.Json.{
  SizeT, size32, size64, size_mod, size_half, Memory, Buf, Appended, appended, failed, endless,
  ◌then_do◌, double_until, first_cap, grow, json_append,
}

-- The loop's result is a capacity that suffices, the one it starts from or below twice the need.
abbrev pub Doubled : Option ℕ → ℕ → ℕ → Type 0
Doubled r ncap need = (c : ℕ) × (r ≡ some c) × (need ≤ c) × ((c ≡ ncap) ⊎ (c < 2 * need))

size_wrap : (z : SizeT) (n : ℕ) → n < size_mod z → n % size_mod z ≡ n
size_wrap size32 n h = omega (arith, h)
size_wrap size64 n h = omega (arith, h)

size_twice : (z : SizeT) → size_mod z ≡ 2 * size_half z
size_twice size32 = refl
size_twice size64 = refl

pub size_half_bounds : (z : SizeT) → (2 ^ 31 ≤ size_half z) × (size_half z ≤ 2 ^ 63)
size_half_bounds size32 = omega arith
size_half_bounds size64 = omega arith

module _ (z : SizeT) (ncap need : ℕ) (low : ncap < need) (m : need ≤ size_half z) where
  double_until_step :
      (fuel : ℕ) → double_until z (suc fuel) ncap need ≡ double_until z fuel (ncap * 2) need
  unfolding double_until
  double_until_step fuel =
      let wrap : ncap * 2 % size_mod z ≡ ncap * 2 =
        size_wrap z (ncap * 2) (omega (arith, low, m, size_twice z)) in
      let t : ltb ncap need ≡ true = ground (arith, low) in rw (t, wrap) refl

  Doubled-half : (r : Option ℕ) → Doubled r (ncap * 2) need → Doubled r ncap need
  Doubled-half r (c, e, p, q) =
      (c, e, p, elim q [ inl h ↦ inr (omega (arith, low, h)) | inr h ↦ inr h ])

-- Whether a size_t has 32 bits, as in the wasm32 build, or 64: the loop that doubles a capacity ends
-- within k + 1 rounds, without wrapping, when 2^k times the capacity reaches what is needed and that
-- is at most half of SIZE_MAX + 1; it ends at or above what is needed, and at the capacity or below
-- twice what is needed.
pub double_until-ends :
    (z : SizeT) (k ncap need : ℕ)
    → need ≤ ncap * 2 ^ k
    → need ≤ size_half z
    → (c : ℕ) × (double_until z (suc k) ncap need ≡ some c)
      × (need ≤ c)
      × ((c ≡ ncap) ⊎ (c < 2 * need))
double_until-ends z zero ncap need h m =
    unfold double_until in (ncap, ground arith, omega arith, inl refl)
double_until-ends z (suc k) ncap need h m = elim (Bool-cases (ltb ncap need)) [
  | inl t ↦
      let low : ncap < need = ground arith in
      let ih = double_until-ends z k (ncap * 2) need (omega (arith, h, mul-pow_suc ncap k)) m in
      subst (λ (r : Option ℕ). Doubled r ncap need)
        (sym (double_until_step z ncap need low m (suc k)))
        (Doubled-half z ncap need low m (double_until z (suc k) (ncap * 2) need) ih)
  | inr high ↦ unfold double_until in (ncap, rw high refl, ground arith, inl refl)
]

-- A buffer whose text and NUL fit its capacity.
abbrev pub Fits : Buf → Type 0
Fits b = length b.text < b.cap

module _ (alloc : Memory) where
  -- What appending `out` to b leads to: the text with `out`, in bounds; or -1, where some realloc
  -- fails. It ends.
  abbrev pub Appends : Buf → Bytes → Appended → Type 0
  Appends b out (appended b') = (b'.text ≡ b.text ++ out) × Fits b'
  Appends b out failed = ((n k : ℕ) → alloc.realloc n k ≡ true) → ⊥
  Appends b out endless = ⊥

  Appends_after :
      (r : Appended) (b b' : Buf) (out rest : Bytes)
      → b'.text ≡ b.text ++ out
      → Appends b' rest r
      → Appends b (out ++ rest) r
  Appends_after (appended c) b b' out rest e (p, fit) =
      (p ∙ ap (λ (t : Bytes). t ++ rest) e ∙ append_assoc b.text out rest, fit)
  Appends_after failed b b' out rest e p = p
  Appends_after endless b b' out rest e p = p

  pub then_do-Appends :
      (r : Appended) (f : Buf → Appended) (b : Buf) (out rest : Bytes)
      → Appends b out r
      → ((b' : Buf) → b'.text ≡ b.text ++ out → Fits b' → Appends b' rest (f b'))
      → Appends b (out ++ rest) (r then_do f)
  then_do-Appends (appended b') f b out rest (e, fit) h =
      Appends_after (f b') b b' out rest e (h b' e fit)
  then_do-Appends failed f b out rest p h = p
  then_do-Appends endless f b out rest p h = p

  -- What grow leads to.
  abbrev Grows : ℕ → Buf → Appended → Type 0
  Grows need b (appended b') = (b'.text ≡ b.text) × (need ≤ b'.cap)
  Grows need b failed = ((n k : ℕ) → alloc.realloc n k ≡ true) → ⊥
  Grows need b endless = ⊥

  reallocated :
      (need : ℕ) (b : Buf) (c : ℕ) (ok : Bool)
      → need ≤ c
      → alloc.realloc b.asked c ≡ ok
      → Grows need b (if ok then appended (record b { cap = c; asked = suc b.asked }) else failed)
  reallocated need b c true h e = (refl, h)
  reallocated need b c false h e = λ all. ground (arith, all b.asked c)

  given :
      (need : ℕ) (b : Buf) (n : ℕ) (r : Option ℕ)
      → Doubled r n need
      → Grows need b (elim r [
        | none ↦ endless
        | some ncap ↦
            if alloc.realloc b.asked ncap
            then appended (record b { cap = ncap; asked = suc b.asked })
            else failed
      ])
  given need b n none (c, e, p, q) = ground arith
  given need b n (some a) (c, e, p, q) =
      reallocated need b a (alloc.realloc b.asked a) (ground arith) refl

  first_cap-doubles :
      (z : SizeT) (cap need : ℕ) → cap < need → need ≤ size_half z → need ≤ first_cap z cap * 2 ^ 64
  first_cap-doubles size32 cap need h m = ground arith
  first_cap-doubles size64 cap need h m = ground arith

  grow-Grows :
      (need : ℕ) (b : Buf) → need ≤ size_half alloc.width → Grows need b (grow alloc need b)
  unfolding grow
  grow-Grows need b m = elim (Bool-cases (ltb b.cap need)) [
    | inl low ↦ rw low (
        given need b (first_cap alloc.width b.cap)
          (double_until alloc.width 65 (first_cap alloc.width b.cap) need)
          (double_until-ends alloc.width 64 (first_cap alloc.width b.cap) need
            (first_cap-doubles alloc.width b.cap need (ground arith) m) m))
    | inr high ↦ rw high (refl, ground arith)
  ]

  stored :
      (s : Bytes) (b : Buf) (need : ℕ) (r : Appended)
      → need ≡ length b.text + length s + 1
      → Grows need b r
      → Appends b s (r then_do (λ b'. appended (record b' { text = b'.text ++ s })))
  stored s b need (appended b') n (e, h) =
      (ap (λ (t : Bytes). t ++ s) e, omega (arith, h, n, ap length e, length-append b'.text s))
  stored s b need failed n h = h
  stored s b need endless n h = h

  pub json_append-Appends :
      (s : Bytes) (b : Buf)
      → length b.text + length s + 1 ≤ size_half alloc.width
      → Appends b s (json_append alloc s b)
  unfolding json_append
  json_append-Appends s b h =
      let need = (length b.text + length s + 1) % size_mod alloc.width in
      let whole : need ≡ length b.text + length s + 1 =
        size_wrap alloc.width _
          (omega (arith, h, size_twice alloc.width, size_half_bounds alloc.width)) in
      stored s b need (grow alloc need b) whole (grow-Grows need b (omega (arith, h, whole)))
