-- ===== src/Pack/View.antt =====
-- The view of a shell command that the packs see: path_under_workspace and struct shell_path_probe to
-- phronesis_build_shell_view of policy_janet.c, and phronesis_shell_pack.
use phronesis.Base.{
  ℕ, zero, suc, ◌+◌, ◌-◌, ◌*◌, ◌/◌, ◌^◌, Bool, true, false, ◌&&◌, ◌||◌, not, Option, none, some,
  List, [], ◌∷◌, ltb, leb, ◌==◌, length, take, if◌then◌else◌,
}
use phronesis.Base.CString.{Bytes, CString, is_set, or_empty, nonempty, strip_prefix}
use phronesis.Path.Lexical.{head_is, at_boundary, trim_slashes}
use phronesis.ActionLog.Last.{until_nul}
use phronesis.Policy.Script.{resolve_script}
use phronesis.Supervisor.Types.{path_max}
use phronesis.Pack.Files.{System, Files, ask}

-- PHRONESIS_SHELL_WORD_MAX, PHRONESIS_SHELL_ARGV_MAX, SHELL_PROBE_MAX and SHELL_HEAD_MAX
abbrev pub shell_word_max : ℕ
shell_word_max = 131072

abbrev pub shell_argv_max : ℕ
shell_argv_max = 32768

abbrev pub shell_probe_max : ℕ
shell_probe_max = 32

abbrev pub shell_head_max : ℕ
shell_head_max = 8192

unfoldable pub workspace_holds : CString → CString → Bool
unfolding head_is at_boundary trim_slashes strip_prefix
workspace_holds workspace path =
    if not (is_set workspace) || not (is_set path)
    then false
    else if not (head_is b'/' (or_empty path))
    then false
    else elim (strip_prefix (trim_slashes (or_empty workspace)) (or_empty path)) [
      | none ↦ false
      | some r ↦ at_boundary r
    ]

-- struct shell_path_probe
pub record Probe : Type 0 where
  pub arg : Bytes
  pub resolved : Bytes
  pub exists : Bool
  pub head : Bytes

pub record ShellView : Type 0 where
  pub under_workspace : Bool
  pub cwd : Bytes
  pub argv : List Bytes
  pub probes : List Probe

-- The results 0 with a view, -1, -2 and -3.
pub data Built : Type 0 where
  built : ShellView → Built
  not_built word_too_long argv_too_long : Built

-- A text of the argv list; one with a bad length or pointer is `none`.
abbrev pub Texts : Type 0
Texts = List (Option Bytes)

-- The first loop over argv, with the bytes that the words take so far; 2 ^ 64 - 1 is SIZE_MAX.
pub data Sized : Type 0 where
  sized_at : ℕ → Sized
  bad_text long_word : Sized

unfoldable pub argv_bytes : Texts → ℕ → Sized
argv_bytes [] bytes = sized_at bytes
argv_bytes (none ∷ texts) bytes = bad_text
argv_bytes (some t ∷ texts) bytes =
    let rest = argv_bytes texts (bytes + (length t + 1)) in
    if ltb shell_word_max (length t)
    then long_word
    else if ltb (2 ^ 64 - 1 - (length t + 1)) bytes
    then bad_text
    else rest

-- The words as C strings: what is behind a NUL is not seen again.
unfoldable pub argv_words : Texts → List Bytes
unfolding until_nul
argv_words [] = []
argv_words (none ∷ texts) = argv_words texts
argv_words (some t ∷ texts) = until_nul t ∷ argv_words texts

-- memchr(tok, c, strlen(tok))
unfoldable pub memchr : ℕ → Bytes → Bool
memchr c [] = false
memchr c (d ∷ s) = d == c || memchr c s

-- A word that may be a path.
unfoldable pub is_candidate : Bytes → Bool
unfolding memchr head_is
is_candidate tok =
    nonempty tok
    && not (head_is b'-' tok)
    && (memchr b'/' tok || memchr b'.' tok)
    && ltb (length tok) path_max

-- What a probe of a file holds; `head` is none where fopen fails.
unfoldable pub probe_of : Bytes → Bytes → CString → Probe
unfolding until_nul
probe_of tok abs none = record { arg = tok; resolved = abs; exists = false; head = [] }
probe_of tok abs (some bytes) = record {
  arg = tok;
  resolved = abs;
  exists = true;
  head = until_nul (take (shell_head_max - 1) bytes);
}

-- The path that a word is probed at.
unfoldable pub probed_path : CString → CString → Bytes → Option Bytes
unfolding is_candidate resolve_script workspace_holds
probed_path workspace cwd tok = elim (resolve_script cwd (some tok) path_max) [
  | none ↦ none
  | some abs ↦
      if is_candidate tok && workspace_holds workspace (some abs) && ltb (length abs) path_max
      then some abs
      else none
]

module _ (sys : System) where
  -- The loop over the words, `left` being probe_cap - pcount.
  unfoldable pub probe_words : CString → CString → ℕ → List Bytes → Files → List Probe × Files
  unfolding probed_path probe_of
  probe_words workspace cwd left [] f = ([], f)
  probe_words workspace cwd zero (tok ∷ toks) f = ([], f)
  probe_words workspace cwd (suc left) (tok ∷ toks) f = elim (probed_path workspace cwd tok) [
    | none ↦ probe_words workspace cwd (suc left) toks f
    | some abs ↦
        let (probes, f') = probe_words workspace cwd left toks (ask f) in
        (probe_of tok abs (sys.head f.asked abs) ∷ probes, f')
  ]

-- add_text_bytes and add_bytes: acc with more bytes, unless it overflows.
abbrev pub add_bytes : ℕ → Option ℕ → Option ℕ
add_bytes n none = none
add_bytes n (some acc) = if ltb (2 ^ 64 - 1 - n) acc then none else some (acc + n)

unfoldable pub add_text_bytes : ℕ → Option ℕ → Option ℕ
add_text_bytes len acc =
    if ltb (2 ^ 64 - 1 - 8) len then none else add_bytes ((len + 1 + 7) / 8 * 8) acc

unfoldable pub add_words : List Bytes → Option ℕ → Option ℕ
unfolding add_text_bytes
add_words [] acc = acc
add_words (w ∷ ws) acc = add_words ws (add_text_bytes (length w) acc)

unfoldable pub add_probes : List Probe → Option ℕ → Option ℕ
unfolding add_text_bytes
add_probes [] acc = acc
add_probes (p ∷ ps) acc = add_probes ps (
    add_text_bytes (length p.head)
      (add_text_bytes (length p.resolved) (add_text_bytes (length p.arg) acc)))

-- The counts are ints, so that nwords * 8 and nprobes * 32 do not overflow.
unfoldable pub shell_view_segment_bytes : Bytes → List Bytes → List Probe → Option ℕ
unfolding add_text_bytes add_words add_probes
shell_view_segment_bytes cwd words probes = add_bytes 256 (
    add_probes probes (
      add_bytes (length probes * 32)
        (add_words words (add_bytes (length words * 8) (add_text_bytes (length cwd) (some 48))))))

-- need <= INT_MAX - 4096
abbrev pub fits_segment : Option ℕ → Bool
fits_segment none = false
fits_segment (some need) = leb need (2147483647 - 4096)

abbrev pub at_most_probes : ℕ → ℕ
at_most_probes argc = if ltb argc shell_probe_max then argc else shell_probe_max

abbrev pub nonempty_list : List Bytes → Bool
nonempty_list [] = false
nonempty_list (w ∷ ws) = true

module _ (sys : System) where
  -- What follows the copy of argv; the allocations of the segment, the words and the probes may fail.
  unfoldable pub view_of : CString → CString → List Bytes → Files → Built × Files
  unfolding probe_words workspace_holds shell_view_segment_bytes
  view_of workspace cwd words f =
      let (probes, f') =
        probe_words sys workspace cwd (at_most_probes (length words)) words (ask f) in
      if nonempty_list words && not (sys.memory f.asked)
      then (not_built, ask f)
      else if not (fits_segment (shell_view_segment_bytes (or_empty cwd) words probes))
          || not (sys.memory f'.asked)
      then (not_built, ask f')
      else (
        built (record {
          under_workspace = is_set cwd && workspace_holds workspace cwd;
          cwd = or_empty cwd;
          argv = words;
          probes = probes;
        }),
        ask f',
      )

  unfoldable pub build_shell_view : CString → CString → Texts → Files → Built × Files
  unfolding argv_bytes argv_words view_of
  build_shell_view workspace cwd argv f =
      if ltb shell_argv_max (length argv) then (argv_too_long, f) else elim (argv_bytes argv 0) [
        | bad_text ↦ (not_built, f)
        | long_word ↦ (word_too_long, f)
        | sized_at bytes ↦ view_of workspace cwd (argv_words argv) f
      ]
