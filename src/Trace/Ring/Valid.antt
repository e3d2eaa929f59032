-- ===== src/Trace/Ring/Valid.antt =====
-- The ring's invariant.
use phronesis.Base.{
  ℕ, zero, suc, ◌+◌, ◌≤◌, ◌<◌, ◌≡◌, refl, true, List, [], ◌∷◌, ◌++◌, arith, ◌==◌, length,
  length-set, set, if◌then◌else◌, ap,
}
use phronesis.Trace.Event.{Event, ring_size}
use phronesis.Trace.Ring.{Trace, event_or, ring_push, visit}

pub event_or-set :
    (l : List Event) (i j : ℕ) (e : Event)
    → i < length l
    → event_or (set l i e) j ≡ (if i == j then e else event_or l j)
event_or-set [] i j e h = absurd (omega arith)
event_or-set (a ∷ l) zero zero e h = refl
event_or-set (a ∷ l) zero (suc j) e h = ground arith
event_or-set (a ∷ l) (suc i) zero e h = ground arith
event_or-set (a ∷ l) (suc i) (suc j) e h = ground (arith, event_or-set l i j e)

-- 64 slots, a write position that is the next free one until the ring is full, and every slot that
-- counts in use.
pub record IsRing (t : Trace) : Type 0 where
  pub size : length t.ring ≡ ring_size
  pub count_in : t.count ≤ ring_size
  pub head_in : t.head < ring_size
  pub filling : t.count < ring_size → t.head ≡ t.count
  pub in_use : (i : ℕ) → i < t.count → (event_or t.ring i).used ≡ true

pub ring_push-IsRing : (t : Trace) (e : Event) → IsRing t → IsRing (ring_push t e)
unfolding ring_push
ring_push-IsRing t e v = record {
  size = rw length-set v.size;
  count_in = ground (arith, v.count_in);
  head_in = omega arith;
  filling = λ h. ground (arith, v.filling, v.count_in);
  in_use = λ i h. ground (
    arith,
    event_or-set t.ring t.head i (record e { used = true }),
    v.size,
    v.head_in,
    v.in_use i,
    v.filling,
    v.count_in,
  );
}

module _ (f g : ℕ → Event) where
  pub visit_ext : (n i : ℕ) → ((j : ℕ) → i ≤ j → j < i + n → f j ≡ g j) → visit f i n ≡ visit g i n
  unfolding visit
  visit_ext zero i h = refl
  visit_ext (suc n) i h =
      rw
        (
          h i (omega arith) (omega arith),
          visit_ext n (suc i) (λ j a b. h j (omega arith) (omega arith)),
        )
        refl

module _ (f : ℕ → Event) where
  pub visit_shift : (n i : ℕ) → visit f (suc i) n ≡ visit (λ j. f (suc j)) i n
  unfolding visit
  visit_shift zero i = refl
  visit_shift (suc n) i = rw (visit_shift n (suc i)) refl

  pub visit_snoc :
      (n i : ℕ) → (f (i + n)).used ≡ true → visit f i (suc n) ≡ visit f i n ++ f (i + n) ∷ []
  unfolding visit
  visit_snoc zero i h = ground arith
  visit_snoc (suc n) i h = ground (arith, visit_snoc n (suc i))

  pub length-visit :
      (n i : ℕ) → ((j : ℕ) → i ≤ j → j < i + n → (f j).used ≡ true) → length (visit f i n) ≡ n
  unfolding visit
  length-visit zero i h = refl
  length-visit (suc n) i h =
      rw (h i (omega arith) (omega arith))
        (ap suc (length-visit n (suc i) (λ j a b. h j (omega arith) (omega arith))))
