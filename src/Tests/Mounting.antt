-- ===== src/Tests/Mounting.antt =====
-- The theorem on mount options at a concrete input.
use hepunion.Base.{◌≡◌, ◌⊎◌, ◌+◌, refl, none, some, pos, is_zero, false}
use hepunion.Exec.{◌>>=◌, call, call_, ask, pure, kfree}
use hepunion.Mount.Super.{
  SuperBlock, make_root, open_branches, get_branches, free_set, free_branches, init_info,
  hepunion_read_super, hepunion_put_super, hepunion_kill_sb,
}
use hepunion.Mount.Unmounted.{mount_accounted}
use hepunion.CString.{strchr, strncmp_eq}
use hepunion.Mount.{get_branch_names}
use hepunion.Mount.Measured.{IsMounted, get_branch_names-IsMounted}
use hepunion.Tests.Memory.{memory, bytes, world}

get_branch_names-IsMounted_example : IsMounted (get_branch_names (bytes "/rw/=RW:/ro") world).0.1
unfolding get_branch_names strchr ◌>>=◌ hepunion.Exec.kmalloc strncmp_eq
get_branch_names-IsMounted_example = get_branch_names-IsMounted (bytes "/rw/=RW:/ro") world refl

branch_names :
    (get_branch_names (bytes "/rw/=RW:/ro") world).0.1.read_write_branch ≡ some (bytes "/rw")
unfolding get_branch_names strchr ◌>>=◌ hepunion.Exec.kmalloc strncmp_eq
branch_names = refl

abbrev super : SuperBlock ⦃K = memory⦄
super = record {
  s_fs_info = none;
  s_root = none;
  s_blocksize = 0;
  s_blocksize_bits = 0;
  s_magic = 0;
  s_time_gran = 0;
}

mount_accounted_example :
    let out = hepunion_read_super ⦃K = memory⦄ super (some (bytes "/rw/=RW:/ro")) world in
    ((out.0.0 ≡ pos 0)
      × (out.1.live ≡ 0 + 3)
      × ((hepunion_kill_sb ⦃K = memory⦄ hepunion_put_super out.0.1 out.1).1.live ≡ 0))
    ⊎ ((is_zero out.0.0 ≡ false)
        × (out.0.1.s_fs_info ≡ none)
        × ((out.1.live ≡ 0) ⊎ (out.1.live ≡ 0 + 1)))
mount_accounted_example = mount_accounted ⦃K = memory⦄ super (bytes "/rw/=RW:/ro") world

mounts : (hepunion_read_super ⦃K = memory⦄ super (some (bytes "/rw/=RW:/ro")) world).0.0 ≡ pos 0
unfolding hepunion_read_super get_branches get_branch_names strchr ◌>>=◌ hepunion.Exec.kmalloc
    strncmp_eq open_branches make_root call call_ ask pure init_info
mounts = refl

-- A type that is neither RW nor RO leaves the path of its branch allocated.
left_over_path :
    (hepunion_read_super ⦃K = memory⦄ super (some (bytes "/rw=XX:/ro")) world).1.live ≡ 1
unfolding hepunion_read_super get_branches get_branch_names strchr ◌>>=◌ hepunion.Exec.kmalloc kfree
    strncmp_eq pure init_info free_branches free_set
left_over_path = refl
