-- ===== src/Examples/Paths.antt =====
-- The path entries of a small configuration file, and calls of the tables.
use dtio.Loader.{real_api}
use dtio.Loader.Search.{IsFirst, real_api-IsFirst}
use dtio.Prelude.{
  ◌≡◌, arith, Bool, ◌&&◌, ◌||◌, ◌==◌, str_eq, true, none, some, List, [], ◌∷◌, Str, codes, nat_eq,
}
use dtio.Prelude.Int.{pos}
use dtio.Metadata.{
  client_metadata_manager, is_some, get_posix_file_info, is_posix_fd_registered,
  get_stdio_file_info, is_stdio_fp_registered,
}
use dtio.Metadata.History.{
  Call, register_fd, unregister_fd, update_fd, register_fp, update_fp, perform_all, fd_history,
  fp_history, perform_all-history,
}
use dtio.Config.{starts_with, should_intercept, load_default, sort, combine, parse_yaml}
use dtio.Config.Sorting.{sort-SortsTo}
use dtio.Config.Verdict.{
  Verdict, IsConsistent, parse_yaml-Verdict, should_intercept-SortsTo,
  should_intercept-load_default,
}

abbrev include : List Str
include = codes "/a" ∷ codes "b/c" ∷ []

abbrev exclude : List Str
exclude = codes "/a/x" ∷ []

abbrev expand : Str → Str
expand p = p

abbrev cwd : Str
cwd = codes "/h"

parse_yaml-Verdict_example :
    Verdict
      (combine expand cwd (some include) (some exclude))
      (codes "/a/x/y")
      (should_intercept (parse_yaml expand cwd (some include) (some exclude)) (codes "/a/x/y"))
parse_yaml-Verdict_example =
    parse_yaml-Verdict expand cwd (some include) (some exclude) (codes "/a/x/y")

one_entry-IsConsistent : IsConsistent (combine expand cwd (some (codes "/a" ∷ [])) none)
unfolding combine
one_entry-IsConsistent e f i j same = ground arith

should_intercept-SortsTo_example :
    should_intercept (sort (combine expand cwd (some (codes "/a" ∷ [])) none)) (codes "/a/b")
    ≡ should_intercept (parse_yaml expand cwd (some (codes "/a" ∷ [])) none) (codes "/a/b")
should_intercept-SortsTo_example =
    should_intercept-SortsTo expand cwd (some (codes "/a" ∷ [])) none
      (sort (combine expand cwd (some (codes "/a" ∷ [])) none)) (codes "/a/b")
      one_entry-IsConsistent (sort-SortsTo (combine expand cwd (some (codes "/a" ∷ [])) none))

should_intercept-load_default_example :
    should_intercept load_default (codes "/tmpfile") ≡ starts_with (codes "/tmpfile") (codes "/tmp")
should_intercept-load_default_example = should_intercept-load_default (codes "/tmpfile")

abbrev calls : List Call
calls =
    register_fd (pos 3) (codes "/tmp/a") 2
    ∷ register_fp 64 (codes "/tmp/b") 0
    ∷ update_fd (pos 3) (pos 9)
    ∷ unregister_fd (pos 4)
    ∷ update_fp 64 (pos 5)
    ∷ []

perform_all-history_example :
    (get_posix_file_info (pos 3) (perform_all calls client_metadata_manager)
      ≡ fd_history (pos 3) calls (get_posix_file_info (pos 3) client_metadata_manager))
    × (is_posix_fd_registered (pos 3) (perform_all calls client_metadata_manager)
        ≡ is_some (fd_history (pos 3) calls (get_posix_file_info (pos 3) client_metadata_manager)))
    × (get_stdio_file_info 64 (perform_all calls client_metadata_manager)
        ≡ fp_history 64 calls (get_stdio_file_info 64 client_metadata_manager))
    × (is_stdio_fp_registered 64 (perform_all calls client_metadata_manager)
        ≡ is_some (fp_history 64 calls (get_stdio_file_info 64 client_metadata_manager)))
perform_all-history_example = perform_all-history calls client_metadata_manager (pos 3) 64

abbrev exports : Str → Str → Bool
exports path symbol =
    (path == codes "dtio.so" && symbol == codes "posix_intercepted")
    || (symbol == codes "open" && (path == codes "dtio.so" || path == codes "libc.so"))

abbrev objects : List Str
objects = codes "app" ∷ codes "dtio.so" ∷ codes "libc.so" ∷ []

real_api-IsFirst_example :
    IsFirst exports
      (codes "open")
      (codes "posix_intercepted")
      objects
      (real_api exports (λ s. true) objects (codes "open") (codes "posix_intercepted")).real_lib
real_api-IsFirst_example =
    real_api-IsFirst exports (λ s. true) objects (codes "open") (codes "posix_intercepted")
