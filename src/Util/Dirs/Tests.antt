-- ===== src/Util/Dirs/Tests.antt =====
-- The directories above a path.
use nsjail.Common.{◌≡◌, refl, Bool, true, [], ◌∷◌}
use nsjail.Common.Int.{pos}
use nsjail.Common.Text.{bytes}
use nsjail.Os.{value}
use nsjail.Os.Descriptors.{Closed}
use nsjail.Tests.Worlds.{start}
use nsjail.Util.Dirs.{component, skip_slashes, enter_dir, create_loop, util_create_dir_recursively}
use nsjail.Util.Dirs.Parents.{made_dirs, parents}
use nsjail.Util.Dirs.Made.{util_create_dir_recursively-made}
use nsjail.Util.Dirs.Closed.{util_create_dir_recursively-Closed}

util_create_dir_recursively-Closed_example :
    (b : Bool) × ((util_create_dir_recursively (bytes "/a/b") start).0 ≡ value b)
    × Closed 0 (pos 3) start.log (util_create_dir_recursively (bytes "/a/b") start).1.log
util_create_dir_recursively-Closed_example =
    util_create_dir_recursively-Closed (bytes "/a/b") start (pos 3)

two : parents (bytes "/a//b/c") ≡ bytes "a" ∷ bytes "b" ∷ []
two = refl

two_made : (util_create_dir_recursively (bytes "/a//b/c") start).0 ≡ value true
unfolding util_create_dir_recursively create_loop enter_dir component skip_slashes
two_made = refl

util_create_dir_recursively-made_example :
    made_dirs (util_create_dir_recursively (bytes "/a//b/c") start).1.log
    ≡ bytes "b" ∷ bytes "a" ∷ []
util_create_dir_recursively-made_example =
    util_create_dir_recursively-made (bytes "/a//b/c") start two_made
