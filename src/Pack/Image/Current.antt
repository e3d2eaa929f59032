-- ===== src/Pack/Image/Current.antt =====
-- When an image is used.
use phronesis.Base.{ℕ, ◌≡◌, true, some, ◌++◌, arith, Bool-cases, Option-cases, inl, inr, ◌∙◌, ap}
use phronesis.Base.CString.{Bytes, strip_prefix, nonempty}
use phronesis.Base.CString.Laws.{strip_prefix-eq_some}
use phronesis.Policy.Env.{Env}
use phronesis.Pack.Paths.{pack_path_max}
use phronesis.Pack.Files.{System, Files, pack_on_root, read_pack_file}
use phronesis.Pack.Files.Rooted.{IsRooted, pack_on_root-IsRooted}
use phronesis.Pack.Compile.{Janet, Machine, Entries}
use phronesis.Pack.Image.{
  pack_image_path, pack_source_hash, header_of, pack_image_header, image_behind, read_image,
  load_pack_image,
}

image_behind-append :
    (header buf rest : Bytes)
    → image_behind header buf ≡ some rest
    → (buf ≡ header ++ rest) × (nonempty rest ≡ true)
unfolding image_behind
image_behind-append header buf rest h = elim (Option-cases (strip_prefix header buf)) [
  | inl e ↦ absurd (ground arith)
  | inr (r, e) ↦
      let k : r ≡ rest = ground arith in
      (strip_prefix-eq_some header buf r e ∙ ap (◌++◌ header) k, ground arith)
]

module _ (sys : System) (getenv : Env) where
  pack_image_header-hash :
      (path header : Bytes) (n : ℕ) (f : Files)
      → (pack_image_header sys getenv path n f).0 ≡ some header
      → (h : ℕ) × ((pack_source_hash sys getenv path f).0 ≡ some h)
        × (header ≡ header_of sys getenv h)
  unfolding pack_image_header
  pack_image_header-hash path header n f e =
      elim (Option-cases (pack_source_hash sys getenv path f).0) [
        | inl k ↦ absurd (ground arith)
        | inr (h, k) ↦ (h, k, ground arith)
      ]

module _ {V H : Type 0} (sys : System) (janet : Janet V H) (getenv : Env) where
  -- The files as they are behind the test of the image's path, and behind the hashing of the sources.
  abbrev pub tested : Bytes → Machine H → Files
  tested ipath m = (pack_on_root sys getenv ipath m.files).1

  abbrev pub hashed : Bytes → Bytes → Machine H → Files
  hashed path ipath m = (pack_image_header sys getenv path 256 (tested ipath m)).1

  -- The image beside the pack, read below the pack root, begins with the header of the sources as they
  -- hash, and the entries are what the rest of it unmarshals to.
  pub record IsCurrent (path : Bytes) (m : Machine H) (entries : Entries V) : Type 0 where
    pub ipath : Bytes
    pub is_path : pack_image_path path pack_path_max ≡ some ipath
    pub on_root : IsRooted sys getenv ipath
    pub hash : ℕ
    pub is_hash : (pack_source_hash sys getenv path (tested ipath m)).0 ≡ some hash
    pub rest : Bytes
    pub is_image :
        (read_pack_file sys getenv ipath (hashed path ipath m)).0
        ≡ some (header_of sys getenv hash ++ rest)
    pub is_read : (read_image janet rest m.heap).0 ≡ some entries

  -- Entries that are loaded from an image come from one whose header holds the hash of the sources, as
  -- they are read below the pack root before the image is.
  pub load_pack_image-IsCurrent :
      (path : Bytes) (m : Machine H) (entries : Entries V)
      → (load_pack_image sys janet getenv path m).0 ≡ some entries
      → IsCurrent path m entries
  unfolding load_pack_image
  load_pack_image-IsCurrent path m entries h =
      elim (Option-cases (pack_image_path path pack_path_max)) [
        | inl e ↦ absurd (ground arith)
        | inr (ipath, e) ↦
            let (on, f1) = pack_on_root sys getenv ipath m.files in
            let (header, f2) = pack_image_header sys getenv path 256 f1 in
            let (buf, f3) = read_pack_file sys getenv ipath f2 in
            elim (Bool-cases on) [
              | inr k ↦ absurd (ground arith)
              | inl k ↦ elim (Option-cases header) [
                | inl p ↦ absurd (ground arith)
                | inr (hd, p) ↦ elim (Option-cases buf) [
                  | inl q ↦ absurd (ground arith)
                  | inr (bytes, q) ↦ elim (Option-cases (image_behind hd bytes)) [
                    | inl r ↦ absurd (ground arith)
                    | inr (rest, r) ↦
                        let (hash, is_hash, same) =
                          pack_image_header-hash sys getenv path hd 256 f1 p in
                        let (begins, some_rest) = image_behind-append hd bytes rest r in
                        record {
                          ipath = ipath;
                          is_path = e;
                          on_root = pack_on_root-IsRooted sys getenv ipath m.files k;
                          hash = hash;
                          is_hash = is_hash;
                          rest = rest;
                          is_image = q ∙ ap some (begins ∙ ap (λ (x : Bytes). x ++ rest) same);
                          is_read = ground arith;
                        }
                  ]
                ]
              ]
            ]
      ]
