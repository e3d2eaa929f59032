-- ===== src/Beneath/Rel.antt =====
-- What phronesis_beneath_rel stores.
use phronesis.Base.{
  ℕ, ◌≡◌, ◌<◌, refl, inl, inr, ◌∙◌, ap, sym, false, some, [], ◌∷◌, ◌++◌, arith, length, append-nil,
  Bool-cases, Option-cases,
}
use phronesis.Base.CString.{Bytes, codes, strip_prefix}
use phronesis.Base.CString.Laws.{strip_prefix-eq_some}
use phronesis.Path.Components.{split}
use phronesis.Path.Lexical.{head_is, next, at_boundary, trim_slashes}
use phronesis.Beneath.Root.{has_dotdot, dotdot_from, bad_root, rel_behind, beneath_rel}
use phronesis.Beneath.Root.Dots.{any_dotdot, has_dotdot-components}

-- How the stored path stands to the root and the path that were given.
pub data IsBelow (root path rel : Bytes) : Type 0 where
  relative : head_is b'/' path ≡ false → rel ≡ path → IsBelow root path rel
  root_itself :
      bad_root (some root) ≡ false
      → path ≡ trim_slashes root
      → rel ≡ codes "."
      → IsBelow root path rel
  behind_root :
      bad_root (some root) ≡ false → path ≡ trim_slashes root ++ b'/' ∷ rel → IsBelow root path rel

rel_behind-IsBelow :
    (root path behind rel : Bytes) (n : ℕ)
    → bad_root (some root) ≡ false
    → path ≡ trim_slashes root ++ behind
    → rel_behind behind n ≡ some rel
    → (length rel < n) × (has_dotdot (some rel) ≡ false) × IsBelow root path rel
unfolding rel_behind
rel_behind-IsBelow root path [] rel n b e h =
    let dot : rel ≡ codes "." = ground arith in
    (rw dot (ground arith), rw dot dotless, root_itself b (e ∙ append-nil (trim_slashes root)) dot)
  where
    dotless : has_dotdot (some (codes ".")) ≡ false
    dotless = unfold has_dotdot dotdot_from head_is next at_boundary in refl
rel_behind-IsBelow root path (c ∷ behind) rel n b e h =
    let slash : c ≡ b'/' = ground arith in
    let same : behind ≡ rel = ground arith in
    (
      ground arith,
      rw (← same) (ground arith),
      behind_root b (e ∙ ap (◌++◌ (trim_slashes root)) (ground arith)),
    )

-- A path that is stored has no component "..", fits its buffer with the NUL, and is the relative
-- path that was given, or what follows an accepted root in the absolute path that was given, or
-- "." for the root itself.
pub beneath_rel-IsBelow :
    (root path rel : Bytes) (n : ℕ)
    → beneath_rel (some root) (some path) n ≡ some rel
    → (length rel < n) × (any_dotdot (split rel) ≡ false) × IsBelow root path rel
unfolding beneath_rel
beneath_rel-IsBelow root path rel n h = elim (Bool-cases (head_is b'/' path)) [
  | inr e ↦
      let same : path ≡ rel = ground arith in
      (
        ground arith,
        rw (← same, ← has_dotdot-components path) (ground arith),
        relative e (sym same),
      )
  | inl e ↦ elim (Option-cases (strip_prefix (trim_slashes root) path)) [
    | inl m ↦ absurd (ground arith)
    | inr (behind, m) ↦
        let (short, dotless, below) =
          rel_behind-IsBelow root path behind rel n (ground arith)
            (strip_prefix-eq_some (trim_slashes root) path behind m) (ground arith) in
        (short, sym (has_dotdot-components rel) ∙ dotless, below)
  ]
]
