-- ===== src/Tests/OnBeneath.antt =====
-- Opening below a directory, on concrete paths.
use phronesis.Base.{◌<◌, ◌+◌, ◌≡◌, refl, ◌⊎◌, false, some, [], ◌∷◌, length}
use phronesis.Base.Int.{pos}
use phronesis.Base.CString.{codes, strip_prefix}
use phronesis.Path.Components.{split}
use phronesis.Path.Lexical.{trim_slashes, drop_slashes}
use phronesis.Beneath.Root.{beneath_rel}
use phronesis.Beneath.Root.Dots.{any_dotdot}
use phronesis.Beneath.Rel.{IsBelow, beneath_rel-IsBelow}
use phronesis.Beneath.Walk.{Kernel, no_syscall, duplicated, walk_open}
use phronesis.Beneath.Walk.Names.{IsWalk, walk_open-IsWalk}
use phronesis.Beneath.Walk.Descriptors.{returned, closes, is_some, walk_open_balance}

abbrev old_kernel : Kernel
old_kernel = record {
  fd_answer = λ calls. some (pos (length calls));
  beneath_answer = λ calls. no_syscall;
}

beneath_rel-IsBelow_example :
    (length (codes "a/b.janet") < 64)
    × (any_dotdot (split (codes "a/b.janet")) ≡ false)
    × IsBelow (codes "/packs/") (codes "/packs/a/b.janet") (codes "a/b.janet")
unfolding beneath_rel strip_prefix trim_slashes drop_slashes
beneath_rel-IsBelow_example =
    beneath_rel-IsBelow (codes "/packs/") (codes "/packs/a/b.janet") (codes "a/b.janet") 64 refl

walk_open-IsWalk_example :
    ((walk_open old_kernel (pos 3) (codes "a//b") 0 []).1 ≡ [])
    ⊎ IsWalk (duplicated (pos 3) ∷ []) (walk_open old_kernel (pos 3) (codes "a//b") 0 []).1
walk_open-IsWalk_example = walk_open-IsWalk old_kernel (pos 3) (codes "a//b") 0 []

walk_open_balance_example :
    returned old_kernel (walk_open old_kernel (pos 3) (codes "a/../b") 0 []).1 + closes []
    ≡ returned old_kernel []
      + closes (walk_open old_kernel (pos 3) (codes "a/../b") 0 []).1
      + is_some (walk_open old_kernel (pos 3) (codes "a/../b") 0 []).0
walk_open_balance_example = walk_open_balance old_kernel (pos 3) (codes "a/../b") 0 []
