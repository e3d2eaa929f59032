-- ===== src/Pack/Spec/Bag.antt =====
-- The packs of a directory against the bag of its entries: expand_dir_packs of policy_janet.c.
use mathlib.Mathlib.Data.Multiset.Defs.{of_list}
use phronesis.Base.{
  ℕ, ◌+◌, ◌≡◌, ◌≤◌, ◌<◌, inl, inr, refl, ap, sym, ◌∙◌, true, Option, none, some, List, [], ◌∷◌,
  ◌++◌, arith, length, length-append, length-take, take, take_all, leb, Bool-cases, Option-cases,
}
use phronesis.Base.CString.{Bytes}
use phronesis.Pack.Paths.{pack_max}
use phronesis.Pack.Files.{System, Files, ask}
use phronesis.Pack.Listing.{pack_lib_max_files, sort_names, pack_names}
use phronesis.Pack.Listing.Bag.{
  IsSorted, pack_files, sort_names_unique, length-sort_names, pack_names_lem,
}
use phronesis.Pack.Spec.{append_path, append_names, named, expand_dir_packs}

-- What a directory with these entries adds to the packs: none is -1.
unfoldable pub packs_of : Bytes → List Bytes → List Bytes → Option (List Bytes)
packs_of dir out [] = none
packs_of dir out (x ∷ names) = append_names dir (x ∷ names) out

append_path-length :
    (path : Bytes) (out out' : List Bytes)
    → append_path path out ≡ some out'
    → (length out' ≡ length out + 1) × (length out < pack_max)
unfolding append_path
append_path-length path out out' h =
    let added : out ++ path ∷ [] ≡ out' = ground arith in
    (ap length (sym added) ∙ length-append out (path ∷ []), ground arith)

append_names-cons :
    (dir name : Bytes) (names out out' : List Bytes)
    → append_names dir (name ∷ names) out ≡ some out'
    → (next : List Bytes) × (append_names dir names next ≡ some out')
      × (length next ≡ length out + 1)
      × (length out < pack_max)
unfolding append_names
append_names-cons dir name names out out' h =
    elim (Option-cases (append_path (dir ++ b'/' ∷ name) out)) [
      | inl e ↦ absurd (ground arith)
      | inr (next, e) ↦
          let (longer, room) = append_path-length (dir ++ b'/' ∷ name) out next e in
          (next, ground arith, longer, room)
    ]

-- More packs than the table holds are refused.
append_names-length :
    (dir name : Bytes) (names out out' : List Bytes)
    → append_names dir (name ∷ names) out ≡ some out'
    → length out + length (name ∷ names) ≤ pack_max
append_names-length dir name [] out out' h =
    let (next, rest, longer, room) = append_names-cons dir name [] out out' h in omega (arith, room)
append_names-length dir name (x ∷ names) out out' h =
    let (next, rest, longer, room) = append_names-cons dir name (x ∷ names) out out' h in
    omega (arith, longer, append_names-length dir x names next out' rest)

packs_of_more :
    (dir : Bytes) (out names : List Bytes) → pack_max < length names → packs_of dir out names ≡ none
unfolding packs_of
packs_of_more dir out [] h = refl
packs_of_more dir out (x ∷ names) h = elim (Option-cases (append_names dir (x ∷ names) out)) [
  | inl e ↦ e
  | inr (out', e) ↦ absurd (omega (arith, h, append_names-length dir x names out out' e))
]

packs_of_some :
    (dir : Bytes) (out names : List Bytes)
    → 0 < length names
    → append_names dir names out ≡ packs_of dir out names
unfolding packs_of
packs_of_some dir out [] h = absurd (omega (arith, h))
packs_of_some dir out (x ∷ names) h = refl

sorted_packs :
    (dir : Bytes) (out names : List Bytes) (f : Files)
    → (named dir out (some names, f)).0 ≡ packs_of dir out (sort_names names)
unfolding named packs_of sort_names
sorted_packs dir out [] f = refl
sorted_packs dir out (x ∷ names) f =
    packs_of_some dir out (sort_names (x ∷ names)) (omega (arith, length-sort_names (x ∷ names)))

-- The loop over readdir stops at more packs than the table holds.
packs_of_cut :
    (dir : Bytes) (out names : List Bytes)
    → packs_of dir out (sort_names (take pack_lib_max_files names))
      ≡ packs_of dir out (sort_names names)
packs_of_cut dir out names = elim (Bool-cases (leb (length names) pack_lib_max_files)) [
  | inl fit ↦
      ap (λ l. packs_of dir out (sort_names l)) (take_all pack_lib_max_files names (ground arith))
  | inr more ↦
      let cut = take pack_lib_max_files names in
      let long : pack_max < length (sort_names cut) =
        grind (arith, length-sort_names cut, length-take pack_lib_max_files names) in
      let whole : pack_max < length (sort_names names) = grind (arith, length-sort_names names) in
      packs_of_more dir out (sort_names cut) long
      ∙ sym (packs_of_more dir out (sort_names names) whole)
]

-- Where strdup succeeds, the packs of a directory are those among its entries, in the order of
-- strcmp, whatever the order in which readdir returns them: `names` is any list that is sorted and
-- has the packs among the entries as its bag.
pub expand_dir_packs-IsSorted :
    (sys : System)
    → ((k : ℕ) → sys.memory k ≡ true)
    → (dir : Bytes) (out entries names : List Bytes) (f : Files)
    → sys.entries f.asked dir ≡ some entries
    → IsSorted names
    → of_list names ≡ of_list (pack_files entries)
    → (expand_dir_packs sys dir out f).0 ≡ packs_of dir out names
unfolding expand_dir_packs
expand_dir_packs-IsSorted sys m dir out entries names f found s same =
    let r = pack_names sys 0 entries (ask f) in
    let packs = pack_files entries in
    let opened : (expand_dir_packs sys dir out f).0 ≡ (named dir out r).0 =
      rw (expand_dir_packs, found) refl in
    opened
    ∙ (ap (λ o. (named dir out (o, r.1)).0) (pack_names_lem sys m 0 entries (ask f))
        ∙ (sorted_packs dir out (take pack_lib_max_files packs) r.1
            ∙ (packs_of_cut dir out packs
                ∙ ap (packs_of dir out) (sort_names_unique packs names s same))))
