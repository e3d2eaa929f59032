-- ===== src/Clients/Rust/Reason.antt =====
-- The reason text that the Rust crate receives.
use phronesis.Base.{
  ℕ, zero, suc, ◌≤◌, ◌<◌, ◌≡◌, ◌≢◌, refl, ap, sym, ◌∙◌, Option, some, [], ◌∷◌, ◌++◌, arith, ltb,
  length, take, length-append, length-take, take_all, append-nil, ◌⊎◌, inl, inr, Bool-cases,
}
use mathlib.Core.Path.{subst}
use phronesis.Base.Int.{pos}
use phronesis.Base.CString.{Bytes}
use phronesis.Clients.Rust.{DecisionRead, cut_length, reason_bytes, ljos_phronesis_read_decision}

take_prefix : (n : ℕ) (s : Bytes) → (rest : Bytes) × (s ≡ take n s ++ rest)
take_prefix zero s = (s, refl)
take_prefix (suc n) [] = ([], refl)
take_prefix (suc n) (c ∷ s) = let (rest, e) = take_prefix n s in (rest, ap (◌∷◌ c) e)

-- What is stored: a part of the text from its beginning on, and a NUL, in the room that there is; the
-- whole text, or as much as fills the room.
pub record IsCut (room : ℕ) (text stored : Bytes) : Type 0 where
  pub part : Bytes
  pub rest : Bytes
  pub ended : stored ≡ part ++ 0 ∷ []
  pub begins : text ≡ part ++ rest
  pub in_room : length stored ≤ room
  pub full : (rest ≡ []) ⊎ (length stored ≡ room)

whole-IsCut :
    (room : ℕ) (str stored : Bytes)
    → stored ≡ str ++ 0 ∷ []
    → length str < room
    → IsCut room str stored
whole-IsCut room str stored e h = record {
  part = str;
  rest = [];
  ended = e;
  begins = sym (append-nil str);
  in_room = omega (arith, h, ap length e, length-append str (0 ∷ []));
  full = inl refl;
}

part-IsCut :
    (room : ℕ) (str stored : Bytes)
    → stored ≡ take room str ++ 0 ∷ []
    → room ≤ length str
    → IsCut (suc room) str stored
part-IsCut room str stored e h =
    let (rest, t) = take_prefix room str in
    let l = length-append (take room str) (0 ∷ []) in
    record {
      part = take room str;
      rest = rest;
      ended = e;
      begins = t;
      in_room = omega (arith, h, ap length e, l, length-take room str);
      full = inr (omega (arith, h, ap length e, l, length-take room str));
    }

whole :
    (room : ℕ) (str : Bytes)
    → length str < room
    → reason_bytes room (pos (length str)) (some str) ≡ str ++ 0 ∷ []
unfolding reason_bytes
whole zero str h = absurd (omega arith)
whole (suc room) [] h = ground arith
whole (suc room) (c ∷ s) h =
    ground (arith, take_all (cut_length (suc room) (suc (length s))) (c ∷ s))

part :
    (room : ℕ) (str : Bytes)
    → room < length str
    → reason_bytes (suc room) (pos (length str)) (some str) ≡ take room str ++ 0 ∷ []
unfolding reason_bytes
part room str h = ground arith

reason_bytes-IsCut :
    (room : ℕ) (str : Bytes)
    → 0 < room
    → IsCut room str (reason_bytes room (pos (length str)) (some str))
reason_bytes-IsCut zero str h = absurd (omega arith)
reason_bytes-IsCut (suc room) str h = elim (Bool-cases (ltb room (length str))) [
  | inl e ↦ part-IsCut room str _ (part room str (ground arith)) (ground arith)
  | inr e ↦ whole-IsCut (suc room) str _ (whole (suc room) str (ground arith)) (ground arith)
]

module _ (read : Bytes → Option DecisionRead) (c : ℕ) (body : Bytes) (room : ℕ) where
  stored : Bytes
  stored = (ljos_phronesis_read_decision read (c ∷ body) room).reason

  stored-some :
      (d : DecisionRead)
      → read (c ∷ body) ≡ some d
      → stored ≡ reason_bytes room d.reason_len d.reason
  unfolding ljos_phronesis_read_decision stored
  stored-some d e = rw (e, stored, ljos_phronesis_read_decision) refl

-- Where the caller has room, the bytes that are stored at `reason` fit in it; they are a part of the
-- decision's text from its beginning on, and a NUL; and the part is the whole text, or the room is full.
-- The body is not empty and decodes, and the text has as many bytes as its length says.
pub ljos_phronesis_read_decision-IsCut :
    (read : Bytes → Option DecisionRead) (body : Bytes) (room : ℕ) (d : DecisionRead) (str : Bytes)
    → body ≢ []
    → read body ≡ some d
    → d.reason ≡ some str
    → d.reason_len ≡ pos (length str)
    → 0 < room
    → IsCut room str (ljos_phronesis_read_decision read body room).reason
unfolding stored
ljos_phronesis_read_decision-IsCut read [] room d str n e r l h = absurd (n refl)
ljos_phronesis_read_decision-IsCut read (c ∷ body) room d str n e r l h =
    subst (IsCut room str) (sym (stored-some read c body room d e ∙ rw (r, l) refl))
      (reason_bytes-IsCut room str h)
