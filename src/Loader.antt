-- ===== src/Loader.antt =====
-- adapter/real_api.h and the constructor in adapter/stdio/stdio_api.h: how an adapter finds the
-- library that it stands in front of. `exports path symbol` is whether `dlsym` finds the symbol in the
-- loaded object, `defined symbol` whether it does with `RTLD_DEFAULT`, and `objects` are the names that
-- `dl_iterate_phdr` goes through, in its order.
pub mod Search
use dtio.Prelude.{
  Bool, true, false, not, ◌&&◌, Option, none, some, List, [], ◌∷◌, ◌++◌, Str, codes, if◌then◌else◌,
}

pub record RealApiIter : Type 0 where
  pub symbol_name : Str
  pub is_intercepted : Str
  pub lib_path : Option Str

-- `RealApiIter(symbol_name, is_intercepted)`
abbrev pub real_api_iter : Str → Str → RealApiIter
real_api_iter symbol_name is_intercepted = record {
  symbol_name = symbol_name;
  is_intercepted = is_intercepted;
  lib_path = none;
}

-- `real_lib` is the path of the object behind the handle; `none` is a handle that nothing has set.
pub record RealApi : Type 0 where
  pub real_lib : Option Str
  pub is_intercepted : Bool

abbrev pub is_null : Option Str → Bool
is_null none = true
is_null (some p) = false

module _ (exports : Str → Str → Bool) where
  unfoldable pub callback : Str → RealApiIter → RealApiIter
  callback path iter =
      let exists = exports path iter.symbol_name in
      let is_intercepted = exports path iter.is_intercepted in
      if not is_intercepted && (exists && is_null iter.lib_path)
      then record iter { lib_path = some path }
      else iter

  -- `dl_iterate_phdr(callback, &iter)`; the callback always returns 0, so that it goes on to the end.
  unfoldable pub iterate : List Str → RealApiIter → RealApiIter
  unfolding callback
  iterate [] iter = iter
  iterate (path ∷ objects) iter = iterate objects (callback path iter)

  module _ (defined : Str → Bool) (objects : List Str) where
    -- `RealApi(symbol_name, is_intercepted)`
    unfoldable pub real_api : Str → Str → RealApi
    unfolding iterate
    real_api symbol_name is_intercepted = record {
      real_lib = (iterate objects (real_api_iter symbol_name is_intercepted)).lib_path;
      is_intercepted = defined is_intercepted;
    }

-- `symbol = dlsym(real_lib_, "symbol"); REQUIRE_API(symbol)`: the name is logged if it is not found.
require_api : (Str → Bool) → Str → List Str → List Str
require_api found symbol log = if found symbol then log else log ++ (symbol ∷ [])

-- `StdioApi()`: the library that it takes, and the symbols that it logs as missing. `found` is whether
-- `dlsym` finds a symbol by the handle.
unfoldable pub stdio_api :
    (Str → Str → Bool) → (Str → Bool) → List Str → (Option Str → Str → Bool) → RealApi × List Str
unfolding real_api require_api
stdio_api exports defined objects found =
    let api = real_api exports defined objects (codes "open") (codes "stdio_intercepted") in
    let finds = found api.real_lib in
    (
      api,
      require_api finds (codes "fclose") (
          require_api finds (codes "fseek") (
            require_api finds (codes "fwrite") (
              require_api finds (codes "fgets")
                (require_api finds (codes "fread") (require_api finds (codes "fopen") []))))),
    )
