-- ===== src/Pack/Listing/Bag.antt =====
-- The names of packs as the sort leaves them, for a directory that is taken as a bag of entries:
-- expand_dir_packs and pack_lib_names of policy_janet.c.
use mathlib.Mathlib.Data.Multiset.Defs.{Multiset, of_list}
use mathlib.Mathlib.Data.Multiset.Fold.{foldr}
use phronesis.Base.{
  ℕ, zero, suc, sym, ◌-◌, ◌≡◌, ◌⊎◌, inl, inr, refl, ap, ◌∙◌, true, some, List, [], ◌∷◌, arith,
  length, take, leb, Bool-cases, if◌then◌else◌,
}
use phronesis.Base.CString.{Bytes}
use phronesis.Pack.Files.{System, Files, ask}
use phronesis.Pack.Listing.{
  pack_lib_max_files, is_pack_name, strcmp_le, insert_name, sort_names, pack_names,
}

strcmp_le_total : (a b : Bytes) → (strcmp_le a b ≡ true) ⊎ (strcmp_le b a ≡ true)
unfolding strcmp_le
strcmp_le_total [] b = inl refl
strcmp_le_total (c ∷ a) [] = inr refl
strcmp_le_total (c ∷ a) (d ∷ b) = ground (arith, strcmp_le_total a b)

strcmp_le_trans :
    (a b c : Bytes) → strcmp_le a b ≡ true → strcmp_le b c ≡ true → strcmp_le a c ≡ true
unfolding strcmp_le
strcmp_le_trans [] b c p q = refl
strcmp_le_trans (x ∷ a) (y ∷ b) (z ∷ c) p q = ground (arith, strcmp_le_trans a b c)
strcmp_le_trans (x ∷ a) (y ∷ b) [] p q = absurd (ground arith)
strcmp_le_trans (x ∷ a) [] c p q = absurd (ground arith)

strcmp_le_antisym : (a b : Bytes) → strcmp_le a b ≡ true → strcmp_le b a ≡ true → a ≡ b
unfolding strcmp_le
strcmp_le_antisym [] [] p q = refl
strcmp_le_antisym (x ∷ a) (y ∷ b) p q = ground (arith, strcmp_le_antisym a b)
strcmp_le_antisym [] (y ∷ b) p q = absurd (ground arith)
strcmp_le_antisym (x ∷ a) [] p q = absurd (ground arith)

insert_name_comm :
    (x y : Bytes) (l : List Bytes)
    → insert_name x (insert_name y l) ≡ insert_name y (insert_name x l)
unfolding insert_name
insert_name_comm x y [] = ground (arith, strcmp_le_total x y, strcmp_le_antisym x y)
insert_name_comm x y (z ∷ l) = ground (
  arith,
  strcmp_le_total x y,
  strcmp_le_antisym x y,
  strcmp_le_trans x y z,
  strcmp_le_trans y x z,
  insert_name_comm x y l,
)

Names-set : IsSet (List Bytes)
Names-set = hlevel

-- strcmp(a, b) <= 0 for any two names that follow each other.
unfoldable pub IsSorted : List Bytes → Type 0
IsSorted [] = Unit
IsSorted (x ∷ []) = Unit
IsSorted (x ∷ y ∷ names) = (strcmp_le x y ≡ true) × IsSorted (y ∷ names)

sort_names-IsSorted : (names : List Bytes) → IsSorted names → sort_names names ≡ names
unfolding sort_names insert_name IsSorted
sort_names-IsSorted [] s = refl
sort_names-IsSorted (x ∷ []) s = refl
sort_names-IsSorted (x ∷ y ∷ names) (le, s) =
    ap (insert_name x) (sort_names-IsSorted (y ∷ names) s) ∙ rw le refl

-- The sort of a bag of names.
sort_bag : Multiset Bytes → List Bytes
unfolding foldr
sort_bag = foldr Names-set insert_name insert_name_comm []

sort_names-sort_bag : (names : List Bytes) → sort_names names ≡ sort_bag (of_list names)
unfolding sort_names sort_bag
sort_names-sort_bag [] = refl
sort_names-sort_bag (x ∷ names) = ap (insert_name x) (sort_names-sort_bag names)

-- Every sort gives the same names.
pub sort_names_unique :
    (names sorted : List Bytes)
    → IsSorted sorted
    → of_list sorted ≡ of_list names
    → sort_names names ≡ sorted
sort_names_unique names sorted s same =
    sort_names-sort_bag names
    ∙ (ap sort_bag (sym same) ∙ (sym (sort_names-sort_bag sorted) ∙ sort_names-IsSorted sorted s))

-- The packs among the entries of a directory.
unfoldable pub pack_files : List Bytes → List Bytes
pack_files [] = []
pack_files (entry ∷ entries) =
    let names = pack_files entries in if is_pack_name entry then entry ∷ names else names

length-insert_name : (x : Bytes) (l : List Bytes) → length (insert_name x l) ≡ suc (length l)
unfolding insert_name
length-insert_name x [] = refl
length-insert_name x (y ∷ l) = ground (arith, length-insert_name x l)

pub length-sort_names : (l : List Bytes) → length (sort_names l) ≡ length l
unfolding sort_names
length-sort_names [] = refl
length-sort_names (x ∷ l) = length-insert_name x (sort_names l) ∙ ap suc (length-sort_names l)

take_nil : (n : ℕ) → take {A = Bytes} n [] ≡ []
take_nil zero = refl
take_nil (suc n) = refl

-- Where strdup succeeds, the loop over readdir keeps the first pack_lib_max_files packs.
pub pack_names_lem :
    (sys : System)
    → ((k : ℕ) → sys.memory k ≡ true)
    → (n : ℕ) (entries : List Bytes) (f : Files)
    → (pack_names sys n entries f).0 ≡ some (take (pack_lib_max_files - n) (pack_files entries))
unfolding pack_names pack_files
pack_names_lem sys m n [] f = ap some (sym (take_nil (pack_lib_max_files - n)))
pack_names_lem sys m n (entry ∷ entries) f = elim (Bool-cases (leb pack_lib_max_files n)) [
  | inl full ↦ let all : pack_lib_max_files - n ≡ 0 = ground arith in ground arith
  | inr room ↦
      let more : pack_lib_max_files - n ≡ suc (pack_lib_max_files - suc n) = ground arith in
      let skipped = pack_names_lem sys m n entries f in
      let kept = pack_names_lem sys m (suc n) entries (ask f) in
      let memory = m f.asked in ground arith
]
