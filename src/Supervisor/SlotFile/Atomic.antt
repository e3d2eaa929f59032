-- ===== src/Supervisor/SlotFile/Atomic.antt =====
-- Writing a slot is atomic: its file holds the old text or the whole new line.
use phronesis.Base.{
  ℕ, ◌≡◌, refl, ◌∙◌, true, false, some, [], ◌∷◌, ◌++◌, arith, Bool-cases, inl, inr,
}
use phronesis.Base.CString.{Bytes, codes, strcmp_eq, fits}
use phronesis.Base.CString.Laws.{strcmp_eq_refl}
use phronesis.Base.Decimal.{print_ℕ}
use phronesis.Policy.Types.{Rc, is_ok, err_io, err_inval}
use phronesis.World.{World, Os, regular}
use phronesis.World.Files.{
  fopen_x, write_close, unlink, rename, OpenExcl, opened, file_exists, failed,
}
use phronesis.Supervisor.Types.{Slot, Supervisor, path_max}
use phronesis.Supervisor.SlotFile.{
  slot_file, slot_line, commit_slot, reopen_slot, open_slot, slot_tmp, write_slot_at, write_slot,
}

longer_ne :
    (p : Bytes) (c : ℕ) (r : Bytes)
    → (strcmp_eq (p ++ c ∷ r) p ≡ false) × (strcmp_eq p (p ++ c ∷ r) ≡ false)
unfolding strcmp_eq
longer_ne [] c r = (refl, refl)
longer_ne (d ∷ p) c r = ground (arith, longer_ne p c r)

-- The outcome of writing `line` to `path` through the temporary file `tmp`.
pub record IsAtomic (path tmp line : Bytes) (w : World) (rc : Rc) (w' : World) : Type 0 where
  pub done : is_ok rc ≡ true → w'.node path ≡ some (regular line)
  pub kept : is_ok rc ≡ false → w'.node path ≡ w.node path
  pub others :
      (q : Bytes) → strcmp_eq path q ≡ false → strcmp_eq tmp q ≡ false → w'.node q ≡ w.node q

module _ (os : Os) (path tmp line : Bytes) (to_path : strcmp_eq tmp path ≡ false)
    (from_path : strcmp_eq path tmp ≡ false) where
  commit_slot-IsAtomic :
      (w : World)
      → w.node tmp ≡ some (regular [])
      → IsAtomic path tmp line w
          (commit_slot os tmp path line w).0
          (commit_slot os tmp path line w).1
  unfolding commit_slot write_close rename unlink
  commit_slot-IsAtomic w h = record {
    done = ground (arith, strcmp_eq_refl tmp, strcmp_eq_refl path);
    kept = ground (arith, strcmp_eq_refl tmp, strcmp_eq_refl path);
    others = λ q e f. ground (arith, strcmp_eq_refl tmp, strcmp_eq_refl path);
  }

  -- Opening the temporary file changes that file alone.
  fopen_x-others :
      (w : World) (q : Bytes) → strcmp_eq tmp q ≡ false → (fopen_x os tmp w).1.node q ≡ w.node q
  unfolding fopen_x
  fopen_x-others w q h = ground arith

  fopen_x-opened :
      (w : World)
      → (fopen_x os tmp w).0 ≡ opened
      → (fopen_x os tmp w).1.node tmp ≡ some (regular [])
  unfolding fopen_x
  fopen_x-opened w h = ground (arith, strcmp_eq_refl tmp)

  unlink-others :
      (w : World) (q : Bytes) → strcmp_eq tmp q ≡ false → (unlink os tmp w).node q ≡ w.node q
  unfolding unlink
  unlink-others w q h = ground arith

  abbrev Outcome : World → Rc × World → Type 0
  Outcome w r = IsAtomic path tmp line w r.0 r.1

  -- Nothing but the temporary file has changed since `w`.
  Outcome-later :
      (w w1 : World) (r : Rc × World)
      → ((q : Bytes) → strcmp_eq tmp q ≡ false → w1.node q ≡ w.node q)
      → Outcome w1 r
      → Outcome w r
  Outcome-later w w1 r same o = record {
    done = o.done;
    kept = λ e. o.kept e ∙ same path to_path;
    others = λ q e f. o.others q e f ∙ same q f;
  }

  Outcome-failed : (w : World) (rc : Rc) → is_ok rc ≡ false → Outcome w (rc, w)
  Outcome-failed w rc h = record {
    done = λ e. ground arith;
    kept = λ e. refl;
    others = λ q e f. refl;
  }

  reopen_slot-IsAtomic :
      (f : OpenExcl) (w : World)
      → (f ≡ opened → w.node tmp ≡ some (regular []))
      → Outcome w (reopen_slot os tmp path line f w)
  unfolding reopen_slot
  reopen_slot-IsAtomic opened w h = commit_slot-IsAtomic w (h refl)
  reopen_slot-IsAtomic failed w h = Outcome-failed w err_io refl
  reopen_slot-IsAtomic file_exists w h = Outcome-failed w err_io refl

  open_slot-IsAtomic :
      (f : OpenExcl) (w : World)
      → (f ≡ opened → w.node tmp ≡ some (regular []))
      → Outcome w (open_slot os tmp path line f w)
  unfolding open_slot
  open_slot-IsAtomic opened w h = commit_slot-IsAtomic w (h refl)
  open_slot-IsAtomic failed w h = Outcome-failed w err_io refl
  open_slot-IsAtomic file_exists w h =
      let w1 = unlink os tmp w in
      Outcome-later w (fopen_x os tmp w1).1 _ (λ q e. fopen_x-others w1 q e ∙ unlink-others w q e)
        (reopen_slot-IsAtomic (fopen_x os tmp w1).0 (fopen_x os tmp w1).1 (fopen_x-opened w1))

module _ (os : Os) (path line : Bytes) (w : World) where
  abbrev tmp_opened : OpenExcl × World
  tmp_opened = fopen_x os (slot_tmp os path) w

  write_slot_at-fits :
      fits path_max (slot_tmp os path) ≡ true
      → write_slot_at os path line w
        ≡ open_slot os (slot_tmp os path) path line tmp_opened.0 tmp_opened.1
  unfolding write_slot_at
  write_slot_at-fits e = rw e

  write_slot_at_refused :
      fits path_max (slot_tmp os path) ≡ false → write_slot_at os path line w ≡ (err_inval, w)
  unfolding write_slot_at
  write_slot_at_refused e = rw e

  write_slot_at-IsAtomic :
      IsAtomic path
        (slot_tmp os path)
        line
        w
        (write_slot_at os path line w).0
        (write_slot_at os path line w).1
  write_slot_at-IsAtomic =
      let tmp = slot_tmp os path in
      let (to_path, from_path) = longer_ne path b'.' (codes "tmp." ++ print_ℕ os.own_pid) in
      elim (Bool-cases (fits path_max tmp)) [
        | inl e ↦ rw (write_slot_at-fits e) (
            Outcome-later os path tmp line to_path from_path w tmp_opened.1 _
              (fopen_x-others os path tmp line to_path from_path w)
              (open_slot-IsAtomic os path tmp line to_path from_path tmp_opened.0 tmp_opened.1
                (fopen_x-opened os path tmp line to_path from_path w)))
        | inr e ↦
            rw (write_slot_at_refused e)
              (Outcome-failed os path tmp line to_path from_path w err_inval refl)
      ]

module _ (os : Os) (s : Supervisor) (a : Slot) (w : World) where
  write_slot-fits :
      fits path_max (slot_file s a.id) ≡ true
      → write_slot os s a w ≡ write_slot_at os (slot_file s a.id) (slot_line a) w
  unfolding write_slot
  write_slot-fits e = ground arith

  write_slot_refused :
      fits path_max (slot_file s a.id) ≡ false → write_slot os s a w ≡ (err_inval, w)
  unfolding write_slot
  write_slot_refused e = ground arith

  -- Writing a slot is atomic whatever fails: if it returns ok the slot's file is the whole new line,
  -- else it is what it was, and no file but this one and the writer's own temporary file has
  -- changed.
  pub write_slot-IsAtomic :
      IsAtomic
        (slot_file s a.id)
        (slot_tmp os (slot_file s a.id))
        (slot_line a)
        w
        (write_slot os s a w).0
        (write_slot os s a w).1
  write_slot-IsAtomic = elim (Bool-cases (fits path_max (slot_file s a.id))) [
    | inl e ↦ rw (write_slot-fits e) (write_slot_at-IsAtomic os (slot_file s a.id) (slot_line a) w)
    | inr e ↦
        rw (write_slot_refused e)
          (record { done = λ h. ground arith; kept = λ h. refl; others = λ q h k. refl })
  ]

  pub fits_of_write_slot :
      is_ok (write_slot os s a w).0 ≡ true → fits path_max (slot_file s a.id) ≡ true
  fits_of_write_slot h = ground (arith, write_slot_refused)
