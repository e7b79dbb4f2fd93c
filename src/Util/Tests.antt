-- ===== src/Util/Tests.antt =====
-- Runs of `join_path`, and its theorems at concrete paths.
use iwtftpd.Base.{◌≤◌, ◌+◌, ◌≡◌, refl, [], ◌++◌, arith, length, codes}
use iwtftpd.Util.{joined, too_long, before_buffer, skip_slashes, add_slash, join_path}
use iwtftpd.Util.Paths.{join_path_fits, join_path_overflow}

join_path_root : join_path (codes "/") (codes "//a") 6 ≡ joined 2 (codes "/a")
unfolding join_path
join_path_root = refl

join_path_short : join_path (codes "/tftpboot") (codes "a") 9 ≡ too_long
unfolding join_path
join_path_short = refl

join_path_empty : join_path [] (codes "a") 9 ≡ before_buffer
unfolding join_path
join_path_empty = refl

join_path_fits_example :
    (join_path (codes "/d") (codes "/a") 6
      ≡ joined
          (2 + length (skip_slashes (codes "/a")))
          (add_slash (codes "/d") ++ skip_slashes (codes "/a")))
    × (length (add_slash (codes "/d") ++ skip_slashes (codes "/a")) + 1 ≤ 6)
join_path_fits_example = join_path_fits b'/' (codes "d") (codes "/a") 6 (omega arith)

join_path_overflow_example :
    (join_path (codes "/d") (codes "a") 4
      ≡ joined
          (2 + length (skip_slashes (codes "a")))
          (add_slash (codes "/d") ++ skip_slashes (codes "a")))
    × (length (add_slash (codes "/d") ++ skip_slashes (codes "a")) + 1 ≡ 4 + 1)
unfolding add_slash skip_slashes
join_path_overflow_example = join_path_overflow b'/' (codes "d") (codes "a") 4 refl refl
