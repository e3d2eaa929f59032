-- ===== src/Policy/Workspace/Complete.antt =====
-- The other direction of the containment theorem: a clean path whose components begin with those
-- of a clean workspace is accepted.
use phronesis.Base.{
  ℕ, ◌≡◌, ◌≢◌, refl, sym, ap, ◌∙◌, Bool, true, ◌&&◌, not, some, List, [], ◌∷◌, ◌++◌, append_assoc,
  append-nil, inl, inr, arith, ◌==◌, if◌then◌else◌, Bool-cases,
}
use phronesis.Base.CString.{Bytes, nonempty, strip_prefix}
use phronesis.Base.CString.Laws.{strip_prefix-append}
use phronesis.Path.Components.{first, later, split, names, keep_names, clean_components}
use phronesis.Path.Lexical.{head_is, at_boundary, drop_slashes, trim_slashes}
use phronesis.Policy.Workspace.{is_clean_abs_path, under_prefix, path_under_workspace}
use phronesis.Policy.Workspace.Containment.{is_clean_abs_path-components}

join : Bytes → List Bytes → Bytes
join x [] = x
join x (y ∷ ys) = x ++ (b'/' ∷ join y ys)

render : List Bytes → Bytes
render [] = []
render (x ∷ xs) = b'/' ∷ (x ++ render xs)

-- The slash that a path may end with.
ending : Bytes → List Bytes → Bytes
ending x [] = if nonempty x then [] else b'/' ∷ []
ending x (y ∷ ys) = ending y ys

plain : Bytes → Bool
plain [] = true
plain (c ∷ s) = not (c == b'/') && plain s

all_plain : List Bytes → Bool
all_plain [] = true
all_plain (x ∷ xs) = plain x && all_plain xs

join-split : (s : Bytes) → join (first s) (later s) ≡ s
unfolding join first later
join-split [] = refl
join-split (c ∷ s) = elim (Bool-cases (c == b'/')) [
  | inl e ↦ rw (e) (ground (arith, join-split s))
  | inr e ↦ rw (e) (join_cons c (first s) (later s) ∙ ap (◌∷◌ c) (join-split s))
]
  where
    join_cons : (c : ℕ) (x : Bytes) (ys : List Bytes) → join (c ∷ x) ys ≡ c ∷ join x ys
    join_cons c x [] = refl
    join_cons c x (y ∷ ys) = refl

join-render :
    (x : Bytes) (ys : List Bytes)
    → clean_components (x ∷ ys) ≡ true
    → b'/' ∷ join x ys ≡ render (keep_names (x ∷ ys)) ++ ending x ys
unfolding join render ending keep_names clean_components
join-render [] [] h = refl
join-render (c ∷ x) [] h = ap (λ t. b'/' ∷ c ∷ t) (simp append-nil)
join-render [] (y ∷ ys) h = ground arith
join-render (c ∷ x) (y ∷ ys) h =
    ap (λ t. b'/' ∷ c ∷ t) (rw (join-render y ys (ground arith)) (sym (append_assoc x _ _)))

all_plain-split : (s : Bytes) → (plain (first s) ≡ true) × (all_plain (later s) ≡ true)
unfolding plain all_plain first later
all_plain-split [] = (refl, refl)
all_plain-split (c ∷ s) = ground (arith, all_plain-split s)

all_plain-keep_names : (xs : List Bytes) → all_plain xs ≡ true → all_plain (keep_names xs) ≡ true
unfolding all_plain keep_names
all_plain-keep_names [] h = refl
all_plain-keep_names (x ∷ xs) h = ground (arith, all_plain-keep_names xs)

all_nonempty : List Bytes → Bool
all_nonempty [] = true
all_nonempty (x ∷ xs) = nonempty x && all_nonempty xs

all_nonempty-keep_names : (xs : List Bytes) → all_nonempty (keep_names xs) ≡ true
unfolding all_nonempty keep_names
all_nonempty-keep_names [] = refl
all_nonempty-keep_names (x ∷ xs) = ground (arith, all_nonempty-keep_names xs)

drop_slashes-plain : (x : Bytes) → plain x ≡ true → drop_slashes x ≡ x
unfolding drop_slashes plain
drop_slashes-plain [] h = refl
drop_slashes-plain (c ∷ []) h = ground arith
drop_slashes-plain (c ∷ d ∷ x) h = ground (arith, drop_slashes-plain (d ∷ x))

drop_slashes-append_nil :
    (a b : Bytes) → drop_slashes b ≡ [] → drop_slashes (a ++ b) ≡ drop_slashes a
unfolding drop_slashes
drop_slashes-append_nil [] b h = h
drop_slashes-append_nil (c ∷ a) b h = ground (arith, drop_slashes-append_nil a b)

drop_slashes-append_cons :
    (a b : Bytes) {d : ℕ} {t : Bytes}
    → drop_slashes b ≡ d ∷ t
    → drop_slashes (a ++ b) ≡ a ++ (d ∷ t)
unfolding drop_slashes
drop_slashes-append_cons [] b h = h
drop_slashes-append_cons (c ∷ []) b h = ground arith
drop_slashes-append_cons (c ∷ e ∷ a) b h = ground (arith, drop_slashes-append_cons (e ∷ a) b h)

drop_slashes-render :
    (ns : List Bytes) (t : Bytes)
    → all_plain ns ≡ true
    → all_nonempty ns ≡ true
    → drop_slashes t ≡ []
    → drop_slashes (render ns ++ t) ≡ render ns
unfolding render all_plain all_nonempty
drop_slashes-render [] t h k e = e
drop_slashes-render ([] ∷ []) t h k e = ground arith
drop_slashes-render ((c ∷ n) ∷ []) t h k e =
    drop_slashes-append_nil (b'/' ∷ c ∷ (n ++ [])) t e
    ∙ rw append-nil
        (drop_slashes-append_cons (b'/' ∷ []) (c ∷ n) (drop_slashes-plain (c ∷ n) (ground arith)))
drop_slashes-render (n ∷ m ∷ ms) t h k e =
    ap (λ s. drop_slashes (b'/' ∷ s)) (append_assoc n (render (m ∷ ms)) t)
    ∙ drop_slashes-append_cons (b'/' ∷ n) (render (m ∷ ms) ++ t)
        (drop_slashes-render (m ∷ ms) t (ground arith) (ground arith) e)

trim_slashes-drop_slashes :
    (s : Bytes) {d : ℕ} {t : Bytes} → drop_slashes s ≡ d ∷ t → trim_slashes s ≡ drop_slashes s
unfolding trim_slashes drop_slashes
trim_slashes-drop_slashes [] h = ground arith
trim_slashes-drop_slashes (c ∷ s) h = ground arith

ending_trims : (x : Bytes) (ys : List Bytes) → drop_slashes (ending x ys) ≡ []
unfolding ending drop_slashes
ending_trims [] [] = refl
ending_trims (c ∷ x) [] = refl
ending_trims x (y ∷ ys) = ending_trims y ys

ending_boundary : (x : Bytes) (ys : List Bytes) → at_boundary (ending x ys) ≡ true
unfolding ending at_boundary
ending_boundary [] [] = refl
ending_boundary (c ∷ x) [] = refl
ending_boundary x (y ∷ ys) = ending_boundary y ys

-- A clean path is its names, each behind a '/', and perhaps one more '/'.
record IsRendered (s : Bytes) : Type 0 where
  tail : Bytes
  rendered : s ≡ render (names s) ++ tail
  trims : drop_slashes tail ≡ []
  boundary : at_boundary tail ≡ true
  names_plain : all_plain (names s) ≡ true

clean_slash : (s : Bytes) → clean_components (later (b'/' ∷ s)) ≡ true → IsRendered (b'/' ∷ s)
unfolding first later keep_names
clean_slash s h = record {
  tail = ending (first s) (later s);
  rendered = ap (◌∷◌ b'/') (sym (join-split s)) ∙ join-render (first s) (later s) h;
  trims = ending_trims (first s) (later s);
  boundary = ending_boundary (first s) (later s);
  names_plain =
      let (p, q) = all_plain-split s in all_plain-keep_names (split s) (unfold all_plain in rw p q);
}

clean-IsRendered : (s : Bytes) → is_clean_abs_path s ≡ true → IsRendered s
unfolding head_is
clean-IsRendered [] h = absurd (let e = rw is_clean_abs_path-components at h in ground arith)
clean-IsRendered (c ∷ s) h =
    let e = rw is_clean_abs_path-components at h in
    let slash : c ≡ b'/' = ground arith in rw slash (clean_slash s (rw (← slash) (ground arith)))

render_cons : (xs : List Bytes) → xs ≢ [] → (t : Bytes) × (render xs ≡ b'/' ∷ t)
unfolding render
render_cons [] ne = absurd (ne refl)
render_cons (x ∷ xs) ne = (x ++ render xs, refl)

trim_slashes-clean :
    (s : Bytes) → is_clean_abs_path s ≡ true → names s ≢ [] → trim_slashes s ≡ render (names s)
trim_slashes-clean s h ne =
    let r = clean-IsRendered s h in
    let dropped : drop_slashes s ≡ render (names s) =
      ap drop_slashes r.rendered
      ∙ drop_slashes-render (names s) r.tail r.names_plain (all_nonempty-keep_names (split s))
          r.trims in
    let (t, e) = render_cons (names s) ne in trim_slashes-drop_slashes s (dropped ∙ e) ∙ dropped

render-append : (xs ys : List Bytes) → render (xs ++ ys) ≡ render xs ++ render ys
unfolding render
render-append [] ys = refl
render-append (x ∷ xs) ys =
    ap (λ t. b'/' ∷ (x ++ t)) (render-append xs ys)
    ∙ ap (◌∷◌ b'/') (sym (append_assoc x (render xs) (render ys)))

boundary-render :
    (xs : List Bytes) (t : Bytes) → at_boundary t ≡ true → at_boundary (render xs ++ t) ≡ true
unfolding at_boundary render
boundary-render [] t h = h
boundary-render (x ∷ xs) t h = refl

accepted :
    (w p : Bytes) (rest : List Bytes)
    → is_clean_abs_path w ≡ true
    → is_clean_abs_path p ≡ true
    → names w ≢ []
    → names p ≡ names w ++ rest
    → under_prefix (trim_slashes w) p ≡ true
unfolding under_prefix
accepted w p rest cw cp ne e =
    let r = clean-IsRendered p cp in
    let found : p ≡ render (names w) ++ (render rest ++ r.tail) =
      r.rendered
      ∙ ap (λ ns. render ns ++ r.tail) e
      ∙ ap (λ s. s ++ r.tail) (render-append (names w) rest)
      ∙ append_assoc (render (names w)) (render rest) r.tail in
    let stripped : strip_prefix (trim_slashes w) p ≡ some (render rest ++ r.tail) =
      ap (λ s. strip_prefix s p) (trim_slashes-clean w cw ne)
      ∙ ap (strip_prefix (render (names w))) found
      ∙ strip_prefix-append (render (names w)) (render rest ++ r.tail) in
    rw (stripped, under_prefix) (boundary-render rest r.tail r.boundary)

-- A clean path whose components begin with those of a clean workspace, which has at least one, is
-- accepted.
pub path_under_workspace_complete :
    (w p : Bytes) (rest : List Bytes)
    → is_clean_abs_path w ≡ true
    → is_clean_abs_path p ≡ true
    → names w ≢ []
    → names p ≡ names w ++ rest
    → path_under_workspace (some w) (some p) ≡ true
unfolding path_under_workspace is_clean_abs_path head_is
path_under_workspace_complete [] p rest cw cp ne e = absurd (ground arith)
path_under_workspace_complete (c ∷ w) [] rest cw cp ne e = absurd (ground arith)
path_under_workspace_complete (c ∷ w) (d ∷ p) rest cw cp ne e =
    ground (arith, accepted (c ∷ w) (d ∷ p) rest cw cp ne e)
