-- ===== src/Trace/Ring/Refine.antt =====
-- The ring as a bounded log: what is exported after any calls.
use phronesis.Base.{
  ℕ, suc, ◌+◌, ◌%◌, ◌≤◌, ◌<◌, ◌≡◌, refl, sym, ◌∙◌, true, List, [], ◌∷◌, ◌++◌, arith, ltb, ◌==◌,
  length, set, if◌then◌else◌, ap, Bool-cases, inl, inr, ◌⊎◌,
}
use phronesis.Trace.Event.{Event, ring_size}
use phronesis.Trace.Ring.{Trace, event_or, ring_push, visit, event_at, exported}
use phronesis.Trace.Ring.Valid.{
  IsRing, event_or-set, visit_ext, visit_shift, visit_snoc, length-visit,
}

-- The log that the ring stands for: at most ring_size events, the oldest first.
unfoldable pub log_append : List Event → Event → List Event
log_append [] e = e ∷ []
log_append (x ∷ l) e = if length (x ∷ l) == ring_size then l ++ e ∷ [] else x ∷ l ++ e ∷ []

abbrev pub stored : Event → Event
stored e = record e { used = true }

visit_end :
    (f : ℕ → Event) (n : ℕ) → (f n).used ≡ true → visit f 0 (suc n) ≡ visit f 0 n ++ f n ∷ []
visit_end f n u =
    let z : 0 + n ≡ n = omega arith in
    visit_snoc f n 0 (rw z u) ∙ ap (λ (k : ℕ). visit f 0 n ++ f k ∷ []) z

module _ (f f' : ℕ → Event) (e : Event) (u : e.used ≡ true) (n : ℕ) (last : f' n ≡ e) where
  visit_appended : ((j : ℕ) → j < n → f' j ≡ f j) → visit f' 0 (suc n) ≡ visit f 0 n ++ e ∷ []
  visit_appended h =
      visit_end f' n (rw last u)
      ∙ ap (λ (x : Event). visit f' 0 n ++ x ∷ []) last
      ∙ ap (λ (l : List Event). l ++ e ∷ []) (visit_ext f' f n 0 (λ j a b. h j (omega (arith, b))))

  visit_shifted : ((j : ℕ) → j < n → f' j ≡ f (suc j)) → visit f' 0 (suc n) ≡ visit f 1 n ++ e ∷ []
  visit_shifted h =
      visit_end f' n (rw last u)
      ∙ ap (λ (x : Event). visit f' 0 n ++ x ∷ []) last
      ∙ ap (λ (l : List Event). l ++ e ∷ [])
          (visit_ext f' (λ j. f (suc j)) n 0 (λ j a b. h j (omega (arith, b)))
            ∙ sym (visit_shift f n 0))

visit_first : (f : ℕ → Event) (n : ℕ) → (f 0).used ≡ true → visit f 0 (suc n) ≡ f 0 ∷ visit f 1 n
unfolding visit
visit_first f n h = rw h refl

log_append-short :
    (l : List Event) (e : Event) → length l < ring_size → log_append l e ≡ l ++ e ∷ []
unfolding log_append
log_append-short [] e h = refl
log_append-short (x ∷ l) e h = ground arith

log_append-full :
    (x : Event) (l : List Event) (e : Event) → length l ≡ 63 → log_append (x ∷ l) e ≡ l ++ e ∷ []
unfolding log_append
log_append-full x l e h = ground arith

lt_or : (n : ℕ) → n ≤ ring_size → (n < ring_size) ⊎ (n ≡ ring_size)
lt_or n h = elim (Bool-cases (ltb n ring_size)) [
  | inl p ↦ inl (ground arith)
  | inr p ↦ inr (ground arith)
]

module _ (t : Trace) (e : Event) (v : IsRing t) where
  at_head :
      (j : ℕ)
      → event_or (set t.ring t.head (stored e)) j
        ≡ (if t.head == j then stored e else event_or t.ring j)
  at_head j = event_or-set t.ring t.head j (stored e) (rw v.size v.head_in)

  used_below : t.count < ring_size → (j : ℕ) → 0 ≤ j → j < 0 + t.count → (event_at t j).used ≡ true
  used_below h j a b = ground (arith, v.in_use j)

  used_full : t.count ≡ ring_size → (j : ℕ) → (event_at t j).used ≡ true
  used_full h j = ground (arith, v.in_use ((t.head + j) % ring_size))

  push_open_at :
      t.count < ring_size → (j : ℕ) → j < t.count → event_at (ring_push t e) j ≡ event_at t j
  unfolding ring_push
  push_open_at h j b = ground (arith, at_head j, v.filling)

  push_open_last : t.count < ring_size → event_at (ring_push t e) t.count ≡ stored e
  unfolding ring_push
  push_open_last h = ground (arith, at_head t.count, v.filling)

  push_full_at :
      t.count ≡ ring_size
      → (j : ℕ) → suc j < ring_size
      → event_at (ring_push t e) j ≡ event_at t (suc j)
  unfolding ring_push
  push_full_at h j b = ground (arith, at_head ((t.head + suc j) % ring_size))

  push_full_last : t.count ≡ ring_size → event_at (ring_push t e) 63 ≡ stored e
  unfolding ring_push
  push_full_last h = ground (arith, at_head t.head)

  exported_open :
      t.count < ring_size → exported (ring_push t e) ≡ log_append (exported t) (stored e)
  unfolding exported ring_push
  exported_open h =
      let n : length (visit (event_at t) 0 t.count) ≡ t.count =
        length-visit (event_at t) t.count 0 (used_below h) in
      let w : visit (event_at (ring_push t e)) 0 (suc t.count)
          ≡ visit (event_at t) 0 t.count ++ stored e ∷ [] =
        visit_appended (event_at t) (event_at (ring_push t e)) (stored e) refl t.count
          (push_open_last h) (push_open_at h) in
      let c : (ring_push t e).count ≡ suc t.count = ground arith in
      ap (visit (event_at (ring_push t e)) 0) c
      ∙ w
      ∙ sym (log_append-short (visit (event_at t) 0 t.count) (stored e) (omega (arith, n, h)))

  exported_full :
      t.count ≡ ring_size → exported (ring_push t e) ≡ log_append (exported t) (stored e)
  unfolding exported ring_push
  exported_full h =
      let c : (ring_push t e).count ≡ 64 = ground arith in
      let w : visit (event_at (ring_push t e)) 0 64 ≡ visit (event_at t) 1 63 ++ stored e ∷ [] =
        visit_shifted (event_at t) (event_at (ring_push t e)) (stored e) refl 63 (push_full_last h)
          (λ j b. push_full_at h j (omega (arith, b))) in
      let o : visit (event_at t) 0 64 ≡ event_at t 0 ∷ visit (event_at t) 1 63 =
        visit_first (event_at t) 63 (used_full h 0) in
      let n : length (visit (event_at t) 1 63) ≡ 63 =
        length-visit (event_at t) 63 1 (λ j a b. used_full h j) in
      ap (visit (event_at (ring_push t e)) 0) c
      ∙ w
      ∙ sym (
          ap (λ (k : ℕ). log_append (visit (event_at t) 0 k) (stored e)) h
          ∙ ap (λ (l : List Event). log_append l (stored e)) o
          ∙ log_append-full (event_at t 0) (visit (event_at t) 1 63) (stored e) n)

  pub exported-ring_push : exported (ring_push t e) ≡ log_append (exported t) (stored e)
  exported-ring_push = elim (lt_or (t.count) v.count_in) [
    | inl h ↦ exported_open h
    | inr h ↦ exported_full h
  ]
