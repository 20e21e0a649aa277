-- ===== src/Contain/Tests.antt =====
-- A process is confined where every call succeeds.
use nsjail.Common.{List, [], ◌∷◌, ◌++◌, arith, ◌≡◌, refl, true}
use nsjail.Common.Text.{bytes}
use nsjail.Os.{Event, Reply, opendir_fds, readdir, strtoul, Kernel, World, done, value}
use nsjail.Contain.{
  contain_make_fds_coe, contain_make_fds_coe_proc, proc_loop, coe_entry, contain_pass_fd,
  naive_loop, contain_make_fds_coe_naive, contain_contain, pid_init_ns, uts_init_ns, cgroup_init_ns,
  contain_drop_privs, drop_bounding, contain_set_limits, contain_prepare_env,
}
use nsjail.Contain.Settled.{IsSettled}
use nsjail.Contain.Passed.{contain_contain-IsSettled}
use nsjail.Contain.Descriptors.{settled, contain_make_fds_coe_naive-settled}
use nsjail.Tests.Worlds.{conf, start}
use nsjail.Mount.{mount_init_ns, mount_init_ns_internal, mount_all, remount_all}
use nsjail.Net.Iface.{net_init_ns_from_child, net_iface_up}
use nsjail.Contain.State.{state, IsConfined}
use nsjail.Contain.Whole.{contain_contain-IsConfined}

contain_contain-true : (contain_contain 1 conf start).0 ≡ value true
unfolding contain_contain pid_init_ns uts_init_ns cgroup_init_ns contain_drop_privs drop_bounding
    contain_set_limits contain_prepare_env contain_make_fds_coe contain_make_fds_coe_proc proc_loop
    mount_init_ns mount_init_ns_internal mount_all remount_all net_init_ns_from_child net_iface_up
contain_contain-true = refl

contain_contain-IsConfined_example : IsConfined conf (state (contain_contain 1 conf start).1.log)
contain_contain-IsConfined_example = contain_contain-IsConfined 1 conf start contain_contain-true

coe_naive_true : (contain_make_fds_coe_naive conf start).0 ≡ value true
unfolding contain_make_fds_coe_naive naive_loop
coe_naive_true = refl

contain_make_fds_coe_naive-settled_example :
    (new : List Event) × ((contain_make_fds_coe_naive conf start).1.log ≡ new ++ [])
    × (settled conf 3 new ≡ true)
contain_make_fds_coe_naive-settled_example =
    contain_make_fds_coe_naive-settled conf start 3 coe_naive_true (omega arith)

-- /proc/self/fd has one entry, "5".
abbrev entry_after : List Event → Reply
entry_after ((opendir_fds, r) ∷ log) = done 1 (bytes "5")
entry_after log = done 0 []

abbrev listing : Kernel
listing log readdir = entry_after log
listing log (strtoul text base) = done 5 []
listing log c = done 0 []

abbrev listing_world : World
listing_world = record { kernel = listing; log = [] }

listed_true : (contain_contain 3 conf listing_world).0 ≡ value true
unfolding contain_contain pid_init_ns uts_init_ns cgroup_init_ns contain_drop_privs drop_bounding
    contain_set_limits contain_prepare_env contain_make_fds_coe contain_make_fds_coe_proc proc_loop
    coe_entry contain_pass_fd mount_init_ns mount_init_ns_internal mount_all remount_all
    net_init_ns_from_child net_iface_up
listed_true = refl

contain_contain-IsSettled_example :
    IsSettled conf 5 (bytes "5") [] (contain_contain 3 conf listing_world).1.log
contain_contain-IsSettled_example =
    contain_contain-IsSettled conf 5 (bytes "5") 3 listing_world (omega arith) refl (λ log. refl)
      listed_true
