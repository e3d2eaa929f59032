-- ===== src/Pack/Image.antt =====
-- Pack images: fnv1a_feed to phronesis_pack_image_write of policy_janet.c.
pub mod Current
use Prim.Native.Nat.{bit_xor}
use phronesis.Base.{
  ℕ, ◌+◌, ◌-◌, ◌*◌, ◌%◌, ◌^◌, Bool, true, false, ◌&&◌, ◌||◌, not, Option, none, some, List, [], ◌∷◌,
  ◌++◌, ltb, leb, ◌==◌, length, take, if◌then◌else◌,
}
use phronesis.Base.CString.{Bytes, CString, codes, nonempty, strip_prefix, strrchr}
use phronesis.Policy.Env.{Env}
use phronesis.Wire.Agents.{hex_digits}
use phronesis.Pack.Paths.{pack_path_max}
use phronesis.Pack.Files.{System, Files, ask, read_pack_file, pack_on_root}
use phronesis.Pack.Listing.{ends_janet}
use phronesis.Pack.Compile.{Janet, Machine, Entries, has_entry, pack_lib_names, compile_pack}

unfoldable pub fnv1a_feed : ℕ → Bytes → ℕ
fnv1a_feed h [] = h
fnv1a_feed h (b ∷ bytes) = fnv1a_feed (bit_xor h b * 0x100000001b3 % 2 ^ 64) bytes

-- What is stored in a buffer of n bytes; none is -1.
unfoldable pub pack_image_path : Bytes → ℕ → Option Bytes
unfolding ends_janet
pack_image_path path n =
    if not (ends_janet path)
    then none
    else if ltb n (length path - 6 + 8)
    then none
    else some (take (length path - 6) path ++ codes ".jimage")

-- The name behind the last '/'.
unfoldable pub entry_name : Bytes → Bytes
unfolding strrchr
entry_name path = elim (strrchr path b'/') [ none ↦ path | some [] ↦ path | some (c ∷ s) ↦ s ]

-- The files of a pack with the names that are hashed, each file with its path.
unfoldable pub pack_sources : Bytes → List Bytes → Bytes → List (Bytes × Bytes)
unfolding entry_name
pack_sources libdir [] path = (path, entry_name path) ∷ []
pack_sources libdir (name ∷ names) path =
    (libdir ++ b'/' ∷ name, name) ∷ pack_sources libdir names path

module _ (sys : System) (getenv : Env) where
  -- The loop over the sources, behind the hash of those before.
  unfoldable pub hash_sources : List (Bytes × Bytes) → ℕ → Files → Option ℕ × Files
  unfolding fnv1a_feed read_pack_file
  hash_sources [] h f = (some h, f)
  hash_sources ((file, name) ∷ sources) h f =
      let (buf, f') = read_pack_file sys getenv file f in
      let rest : Option ℕ × Files = elim buf [
        | none ↦ (none, f')
        | some bytes ↦ hash_sources sources (fnv1a_feed (fnv1a_feed h (name ++ 0 ∷ [])) bytes) f'
      ] in
      if leb pack_path_max (length file) then (none, f) else rest

  unfoldable pub pack_source_hash : Bytes → Files → Option ℕ × Files
  unfolding pack_lib_names pack_sources hash_sources
  pack_source_hash path f =
      let (found, f') = pack_lib_names sys path f in
      elim found [
        | none ↦ (none, f')
        | some (libdir, names) ↦ hash_sources (pack_sources libdir names path) 0xcbf29ce484222325 f'
      ]

  -- The header of an image of sources with the hash h.
  unfoldable pub header_of : ℕ → Bytes
  unfolding hex_digits
  header_of h =
      codes "phronesis-pack-image 1\n" ++ (sys.janet_version ++ (10 ∷ (hex_digits 16 h ++ 10 ∷ [])))

  unfoldable pub pack_image_header : Bytes → ℕ → Files → Option Bytes × Files
  unfolding pack_source_hash header_of
  pack_image_header path n f =
      let (hash, f') = pack_source_hash path f in
      elim hash [
        | none ↦ (none, f')
        | some h ↦ (if leb n (length (header_of h)) then none else some (header_of h), f')
      ]

-- An image of these bytes, if it begins with the header and goes on behind it.
unfoldable pub image_behind : Bytes → Bytes → Option Bytes
unfolding strip_prefix
image_behind header buf = elim (strip_prefix header buf) [
  | none ↦ none
  | some rest ↦ if nonempty rest then some rest else none
]

module _ {V H : Type 0} (janet : Janet V H) where
  -- A value of the image's tuple: a function, nil, or neither, for which none stands.
  unfoldable pub image_entry : V → Option (Option V)
  image_entry v =
      if janet.is_function v then some (some v) else if janet.is_nil v then some none else none

  abbrev usable : Option V → Option V → Option (Entries V)
  usable none none = none
  usable shell audio = some (record { shell = shell; audio = audio })

  unfoldable pub image_entries : V → V → Option (Entries V)
  unfolding image_entry
  image_entries shell audio = elim (image_entry shell) [
    | none ↦ none
    | some s ↦ elim (image_entry audio) [ none ↦ none | some a ↦ usable s a ]
  ]

  -- The bytes behind the header.
  unfoldable pub read_image : Bytes → H → Option (Entries V) × H
  unfolding image_entries
  read_image bytes h =
      let (v, h') = janet.unmarshal bytes h in
      elim v [
        | none ↦ (none, h')
        | some t ↦ elim (janet.unpair t h') [
          | none ↦ (none, h')
          | some (shell, audio) ↦ (image_entries shell audio, h')
        ]
      ]

module _ {V H : Type 0} (sys : System) (janet : Janet V H) (getenv : Env) where
  -- janet_wrap_nil() where there is no entry
  abbrev value_of : Option V → V
  value_of none = janet.nil
  value_of (some v) = v

  unfoldable pub load_pack_image : Bytes → Machine H → Option (Entries V) × Machine H
  unfolding pack_image_path pack_on_root pack_image_header read_pack_file image_behind read_image
  load_pack_image path m = elim (pack_image_path path pack_path_max) [
    | none ↦ (none, m)
    | some ipath ↦
        let (on, f1) = pack_on_root sys getenv ipath m.files in
        let (header, f2) = pack_image_header sys getenv path 256 f1 in
        let (buf, f3) = read_pack_file sys getenv ipath f2 in
        let m3 : Machine H = record m { files = f3 } in
        if not on then (none, record m { files = f1 }) else elim header [
          | none ↦ (none, record m { files = f2 })
          | some hd ↦ elim buf [
            | none ↦ (none, m3)
            | some bytes ↦ elim (image_behind hd bytes) [
              | none ↦ (none, m3)
              | some rest ↦
                  let (entries, h) = read_image janet rest m.heap in
                  (entries, record m3 { heap = h })
            ]
          ]
        ]
  ]

  -- phronesis_pack_image_write: the image is written to out_path. `inited` is janet_inited.
  unfoldable pub pack_image_write : CString → CString → Bool → Machine H → Bool × Machine H
  unfolding compile_pack pack_image_header
  pack_image_write none out_path inited m = (false, m)
  pack_image_write (some path) none inited m = (false, m)
  pack_image_write (some path) (some out_path) inited m =
      let m0 : Machine H = if inited then m else record m { heap = janet.init m.heap } in
      let (entries, m1) = compile_pack sys janet getenv path m0 in
      let (header, f2) = pack_image_header sys getenv path 256 m1.files in
      let m2 : Machine H = record m1 { files = f2 } in
      elim entries [
        | none ↦ (false, m1)
        | some e ↦
            let (pair, h3) = janet.pair (value_of e.shell) (value_of e.audio) m2.heap in
            let (image, h4) = janet.marshal pair h3 in
            let m4 : Machine H = record m2 { heap = h4 } in
            if not (has_entry e) then (false, m1) else elim header [
              | none ↦ (false, m2)
              | some hd ↦ elim image [
                | none ↦ (false, m4)
                | some bytes ↦
                    (sys.written f2.asked out_path (hd ++ bytes), record m4 { files = ask f2 })
              ]
            ]
      ]
