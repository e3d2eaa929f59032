-- ===== src/ActionLog/Append.antt =====
-- What phronesis_action_log_append does to the file tree.
use phronesis.Base.{
  ℕ, ◌≡◌, ◌⊎◌, ap, Bool, true, false, ◌&&◌, not, some, ◌++◌, arith, ltb, if◌then◌else◌, take,
  take_all, length, Bool-cases, append-nil, inl, inr,
}
use native.Mathlib.Nat.{le_refl}
use phronesis.Base.CString.{Bytes, CString, or_empty, strcmp_eq, is_set}
use phronesis.Base.CString.Laws.{strcmp_eq_refl}
use phronesis.Policy.Types.{Rc, ok, err_inval}
use phronesis.World.{World, Os, printed, call, timed}
use phronesis.World.Files.{content, fopen_a, write_close}
use phronesis.ActionLog.Escape.{escaped, json_escape-bounded}
use phronesis.ActionLog.Records.{
  log_line, append_record, action_log_append, detail_buffer, id_buffer,
}

-- What one append leaves: the file has grown by `text`, and no other file has changed.
pub record IsAppended (path text : Bytes) (w w' : World) : Type 0 where
  pub grown : content (w'.node path) ≡ content (w.node path) ++ text
  pub others : (q : Bytes) → strcmp_eq path q ≡ false → w'.node q ≡ w.node q

-- The record that an append at this point writes.
abbrev pub record_text : Os → World → CString → CString → CString → Bytes
record_text os w agent kind detail =
    log_line (os.clock w.calls) (escaped (or_empty agent)) (escaped (or_empty kind))
      (escaped (or_empty detail))

append_record-ok :
    (os : Os) (path ea ek ed : Bytes) (w w' : World)
    → append_record os path ea ek ed w ≡ (ok, w')
    → IsAppended path (log_line (os.clock w.calls) ea ek ed) w w'
unfolding append_record fopen_a write_close
append_record-ok os path ea ek ed w w' h = record {
  grown =
      ground (
        arith,
        strcmp_eq_refl path,
        ap (λ (r : Rc × World). r.0) h,
        ap (λ (r : Rc × World). r.1) h,
      );
  others = λ q e. ground (arith);
}

append_escaped-ok :
    (os : Os) (path : Bytes) (agent kind detail : CString) (w w' : World)
    → action_log_append os (some path) agent kind detail w ≡ (ok, w')
    → append_record os path
        (escaped (or_empty agent))
        (escaped (or_empty kind))
        (escaped (or_empty detail))
        w
      ≡ (ok, w')
unfolding action_log_append
append_escaped-ok os path agent kind detail w w' h = ground (
  arith,
  json_escape-bounded (or_empty kind) detail_buffer,
  json_escape-bounded (or_empty detail) detail_buffer,
  json_escape-bounded (or_empty agent) id_buffer,
)

-- An append that returns ok has added to the log the one record of its arguments, and has changed
-- no other file.
pub action_log_append-ok :
    (os : Os) (path : Bytes) (agent kind detail : CString) (w w' : World)
    → action_log_append os (some path) agent kind detail w ≡ (ok, w')
    → IsAppended path (record_text os w agent kind detail) w w'
action_log_append-ok os path agent kind detail w w' h =
    append_record-ok os path (escaped (or_empty agent)) (escaped (or_empty kind))
      (escaped (or_empty detail)) w w' (append_escaped-ok os path agent kind detail w w' h)

module _ (os : Os) (path ea ek ed : Bytes) (w : World) where
  abbrev record_line : Bytes
  record_line = log_line (os.clock w.calls) ea ek ed

  -- How much of the record reaches the file.
  abbrev reached : ℕ
  reached =
      let (opened, w') = fopen_a os path (call timed w) in
      let w'' = call (printed path) w' in
      if not opened
      then 0
      else if not (os.io_ok w'.calls)
      then os.written w'.calls
      else if not (os.io_ok w''.calls)
      then os.written w''.calls
      else length record_line

  append_record-reached :
      IsAppended path (take reached record_line) w (append_record os path ea ek ed w).1
  unfolding append_record fopen_a write_close
  append_record-reached = record {
    grown = ground (
      arith,
      strcmp_eq_refl path,
      take_all (length record_line) record_line (le_refl _),
      append-nil (content (w.node path)),
    );
    others = λ q e. ground arith;
  }

-- The arguments are accepted: the kind is not empty and all three fit their buffers.
abbrev pub accepted : CString → CString → CString → Bool
accepted agent kind detail =
    is_set kind
    && ltb (length (escaped (or_empty kind))) detail_buffer
    && ltb (length (escaped (or_empty detail))) detail_buffer
    && ltb (length (escaped (or_empty agent))) id_buffer

module _ (os : Os) (path : Bytes) (agent kind detail : CString) (w : World) where
  append_accepted :
      accepted agent kind detail ≡ true
      → (action_log_append os (some path) agent kind detail w).1
        ≡ (append_record os path
            (escaped (or_empty agent))
            (escaped (or_empty kind))
            (escaped (or_empty detail))
            w).1
  unfolding action_log_append
  append_accepted h = ground (
    arith,
    json_escape-bounded (or_empty kind) detail_buffer,
    json_escape-bounded (or_empty detail) detail_buffer,
    json_escape-bounded (or_empty agent) id_buffer,
  )

  append_refused :
      accepted agent kind detail ≡ false
      → action_log_append os (some path) agent kind detail w ≡ (err_inval, w)
  unfolding action_log_append
  append_refused h = ground (
    arith,
    json_escape-bounded (or_empty kind) detail_buffer,
    json_escape-bounded (or_empty detail) detail_buffer,
    json_escape-bounded (or_empty agent) id_buffer,
  )

-- Arguments that are refused, since the kind is empty or one of the three does not fit its buffer
-- when it is escaped, give the error without any call or change. Otherwise, whatever fails, an
-- append changes no file but the log, and leaves in it what it held before, followed by some
-- beginning of the record.
pub action_log_append-prefix :
    (os : Os) (path : Bytes) (agent kind detail : CString) (w : World)
    → ((accepted agent kind detail ≡ false)
        × (action_log_append os (some path) agent kind detail w ≡ (err_inval, w)))
      ⊎ ((accepted agent kind detail ≡ true)
          × (n : ℕ) × IsAppended path
              (take n (record_text os w agent kind detail))
              w
              (action_log_append os (some path) agent kind detail w).1)
action_log_append-prefix os path agent kind detail w =
    elim (Bool-cases (accepted agent kind detail)) [
      | inr misfit ↦ inl (misfit, append_refused os path agent kind detail w misfit)
      | inl fit ↦ inr (
        fit,
        reached os path (escaped (or_empty agent)) (escaped (or_empty kind))
            (escaped (or_empty detail)) w,
        rw (append_accepted os path agent kind detail w fit) (
            append_record-reached os path (escaped (or_empty agent)) (escaped (or_empty kind))
              (escaped (or_empty detail)) w),
      )
    ]
