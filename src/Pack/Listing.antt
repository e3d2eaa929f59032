-- ===== src/Pack/Listing.antt =====
-- The names of packs in a directory: the loop over readdir, and cmp_strptr, which expand_dir_packs and
-- pack_lib_names of policy_janet.c share.
pub mod Bag
use phronesis.Base.{
  ℕ, zero, suc, ◌-◌, Bool, true, false, ◌&&◌, ◌||◌, not, Option, none, some, List, [], ◌∷◌, ltb,
  leb, ◌==◌, length, if◌then◌else◌,
}
use phronesis.Base.CString.{Bytes, codes, strcmp_eq}
use phronesis.Path.Lexical.{head_is}
use phronesis.Pack.Files.{System, Files, ask}

unfoldable pub drop {ℓ} : {A : Type ℓ} → ℕ → List A → List A
drop zero l = l
drop (suc n) [] = []
drop (suc n) (x ∷ l) = drop n l

-- PACK_LIB_MAX_FILES
abbrev pub pack_lib_max_files : ℕ
pack_lib_max_files = 32

-- The path of a pack: s + len - 6 is ".janet", and there is a byte before it.
unfoldable pub ends_janet : Bytes → Bool
unfolding drop
ends_janet s = leb 7 (length s) && strcmp_eq (drop (length s - 6) s) (codes ".janet")

unfoldable pub is_pack_name : Bytes → Bool
unfolding ends_janet head_is
is_pack_name name = ends_janet name && not (head_is b'.' name)

-- strcmp(a, b) <= 0
unfoldable pub strcmp_le : Bytes → Bytes → Bool
strcmp_le [] b = true
strcmp_le (c ∷ a) [] = false
strcmp_le (c ∷ a) (d ∷ b) = ltb c d || c == d && strcmp_le a b

unfoldable pub insert_name : Bytes → List Bytes → List Bytes
unfolding strcmp_le
insert_name x [] = x ∷ []
insert_name x (y ∷ ys) =
    let later = insert_name x ys in if strcmp_le x y then x ∷ y ∷ ys else y ∷ later

-- qsort with cmp_strptr: strings that compare equal are equal, so any sort gives this one.
unfoldable pub sort_names : List Bytes → List Bytes
unfolding insert_name
sort_names [] = []
sort_names (x ∷ xs) = insert_name x (sort_names xs)

module _ (sys : System) where
  -- The loop over readdir, with `n` names so far; none is a failure of strdup.
  unfoldable pub pack_names : ℕ → List Bytes → Files → Option (List Bytes) × Files
  unfolding is_pack_name
  pack_names n [] f = (some [], f)
  pack_names n (entry ∷ entries) f =
      let skipped = pack_names n entries f in
      let (later, f') = pack_names (suc n) entries (ask f) in
      if leb pack_lib_max_files n
      then (some [], f)
      else if not (is_pack_name entry)
      then skipped
      else if not (sys.memory f.asked)
      then (none, ask f)
      else (elim later [ none ↦ none | some names ↦ some (entry ∷ names) ], f')
