-- ===== src/Trace/Json.antt =====
-- pd_trace_to_json and the buffer that it grows: json_escape_append to pd_trace_to_json of
-- policy_trace.c, for a size_t of 32 bits, as in the playground's wasm32 build, and of 64 bits.
pub mod Growth
pub mod Text
use phronesis.Base.{
  ℕ, zero, suc, ◌+◌, ◌*◌, ◌%◌, ◌^◌, Bool, true, false, ◌||◌, Option, none, some, List, [], ◌∷◌,
  ◌++◌, ltb, ◌==◌, length, if◌then◌else◌,
}
use phronesis.Base.Int.{ℤ, is_negative}
use phronesis.Base.CString.{Bytes, codes, nonempty, snprintf_s}
use phronesis.Base.Decimal.{print_ℕ, print_ℤ}
use phronesis.ActionLog.Escape.{unicode_escape}
use phronesis.Trace.Event.{Event, Span, layer_str, phase_str}
use phronesis.Trace.Ring.{Trace, event_at}

-- buf up to len, cap, and the reallocs made so far.
pub record Buf : Type 0 where
  pub text : Bytes
  pub cap : ℕ
  pub asked : ℕ

-- The result 0 with the buffer, the result -1, or a loop that does not end.
pub data Appended : Type 0 where
  appended : Buf → Appended
  failed endless : Appended

abbrev pub no_buf : Buf
no_buf = record { text = []; cap = 0; asked = 0 }

-- if (f(…) != 0) goto fail;
infixl 20 ◌then_do◌
abbrev pub ◌then_do◌ : Appended → (Buf → Appended) → Appended
r then_do f = elim r [ appended b ↦ f b | failed ↦ failed | endless ↦ endless ]

pub data SizeT : Type 0 where
  size32 size64 : SizeT

-- SIZE_MAX + 1, and half of it
abbrev pub size_mod : SizeT → ℕ
size_mod size32 = 2 ^ 32
size_mod size64 = 2 ^ 64

abbrev pub size_half : SizeT → ℕ
size_half size32 = 2 ^ 31
size_half size64 = 2 ^ 63

-- The size_t of the build, and whether the n-th realloc, of k bytes, returns memory.
pub record Memory : Type 0 where
  pub width : SizeT
  pub realloc : ℕ → ℕ → Bool

-- while (ncap < need) ncap *= 2U, for so many rounds.
unfoldable pub double_until : SizeT → ℕ → ℕ → ℕ → Option ℕ
double_until z zero ncap need = none
double_until z (suc fuel) ncap need =
    let rest = double_until z fuel (ncap * 2 % size_mod z) need in
    if ltb ncap need then rest else some ncap

abbrev pub first_cap : SizeT → ℕ → ℕ
first_cap z cap = if cap == 0 then 4096 else cap * 2 % size_mod z

module _ (alloc : Memory) where
  -- Room for `need` bytes.
  unfoldable pub grow : ℕ → Buf → Appended
  unfolding double_until
  grow need b =
      if ltb b.cap need
      then elim (double_until alloc.width 65 (first_cap alloc.width b.cap) need) [
        | none ↦ endless
        | some ncap ↦
            if alloc.realloc b.asked ncap
            then appended (record b { cap = ncap; asked = suc b.asked })
            else failed
      ]
      else appended b

  unfoldable pub json_append : Bytes → Buf → Appended
  unfolding grow
  json_append s b =
      grow ((length b.text + length s + 1) % size_mod alloc.width) b
      then_do (λ b'. appended (record b' { text = b'.text ++ s }))

-- out, for one byte
unfoldable pub escape_out : ℕ → Bytes
unfolding unicode_escape
escape_out c =
    if c == b'"' || c == b'\\'
    then b'\\' ∷ c ∷ []
    else if c == 10
    then codes "\\n"
    else if c == 13
    then codes "\\r"
    else if c == 9
    then codes "\\t"
    else if ltb c 0x20
    then unicode_escape c
    else c ∷ []

module _ (alloc : Memory) where
  unfoldable pub json_escape_append : Bytes → Buf → Appended
  unfolding escape_out
  json_escape_append [] b = appended b
  json_escape_append (c ∷ s) b =
      json_append alloc (escape_out c) b then_do (λ b'. json_escape_append s b')

-- An argument of one call in the chain: a literal, a string to escape, or a number with its format.
pub data Piece : Type 0 where
  lit esc : Bytes → Piece
  fmt : Bytes → Piece

module _ (alloc : Memory) where
  unfoldable pub append_piece : Piece → Buf → Appended
  unfolding json_append
  append_piece (lit s) b = json_append alloc s b
  append_piece (esc s) b = json_escape_append alloc s b
  append_piece (fmt s) b = json_append alloc (snprintf_s 128 s) b

  unfoldable pub append_pieces : List Piece → Buf → Appended
  append_pieces [] b = appended b
  append_pieces (p ∷ ps) b = append_piece p b then_do (λ b'. append_pieces ps b')

-- "key":"value",
abbrev pub member : Bytes → Bytes → List Piece
member key value = lit key ∷ esc value ∷ lit (codes "\",") ∷ []

abbrev pub span_pieces : Span → List Piece
span_pieces s =
    lit (codes "{\"target\":\"argv\",\"index\":")
    ∷ fmt (print_ℤ s.index)
    ∷ lit (codes ",\"role\":\"")
    ∷ esc s.role
    ∷ lit (codes "\"}")
    ∷ []

-- The loop over si, from si on.
unfoldable pub spans_pieces : ℕ → List Span → List Piece
spans_pieces si [] = []
spans_pieces si (s ∷ ss) =
    (if si == 0 then [] else lit (codes ",") ∷ []) ++ (span_pieces s ++ spans_pieces (suc si) ss)

abbrev pub code_pieces : ℤ → List Piece
code_pieces code =
    if is_negative code
    then lit (codes "\"code\":null,") ∷ []
    else fmt (codes "\"code\":" ++ (print_ℤ code ++ codes ",")) ∷ []

abbrev pub decision_pieces : Bytes → List Piece
decision_pieces decision =
    if nonempty decision
    then member (codes "\"decision\":\"") decision
    else lit (codes "\"decision\":null,") ∷ []

-- One round of the loop over the events, behind its comma.
unfoldable pub event_pieces : Event → List Piece
unfolding spans_pieces
event_pieces e =
    lit (codes "{")
    ∷ fmt (codes "\"seq\":" ++ (print_ℕ e.seq ++ codes ","))
    ∷ (member (codes "\"layer\":\"") (layer_str e.layer)
        ++ (member (codes "\"phase\":\"") (phase_str e.phase)
            ++ (member (codes "\"name\":\"") e.name
                ++ (member (codes "\"detail\":\"") e.detail
                    ++ (lit (codes "\"spans\":[")
                        ∷ (spans_pieces 0 e.spans
                            ++ (lit (codes "],")
                                ∷ (code_pieces e.code
                                    ++ (decision_pieces e.decision
                                        ++ (lit (
                                              if e.short_circuit
                                              then codes "\"shortCircuit\":true"
                                              else codes "\"shortCircuit\":false")
                                            ∷ lit (codes "}")
                                            ∷ []))))))))))

module _ (alloc : Memory) where
  -- The loop over the events, from i on, n times.
  unfoldable pub append_events : (ℕ → Event) → ℕ → ℕ → Buf → Appended
  unfolding append_pieces event_pieces
  append_events at i zero b = appended b
  append_events at i (suc n) b =
      let rest = λ (b' : Buf). append_events at (suc i) n b' in
      if (at i).used
      then append_pieces alloc
          ((if i == 0 then [] else lit (codes ",") ∷ []) ++ event_pieces (at i)) b
        then_do rest
      else rest b

  unfoldable pub trace_to_json : Trace → Appended
  unfolding append_events
  trace_to_json t =
      json_append alloc (codes "[") no_buf
      then_do (λ b. append_events (event_at t) 0 t.count b)
      then_do (λ b. json_append alloc (codes "]") b)
